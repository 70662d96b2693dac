-- ===== src/Engine/Verify.antt =====
-- `advanceRun` of src/lib/engine.ts: the stages that draft and verify the report, and
-- `checkReport` of src/lib/gateway.ts.
use Prim.Native.String
use obolos.Prelude.{ℕ, ◌+◌, String, Bool, true, false, ◌&&◌, not, List, [], ◌∷◌}
use obolos.Prelude.{◌++◌, map, Option, none, some, ltb, ◌==◌, nat_eq, string_eq, if◌then◌else◌}
use obolos.Prelude.{length, all, set_size, is_empty, lit, num}
use obolos.Contracts.{live, Stage, Run}
use obolos.Contracts.{Check, Report, model, Gateway, arc_testnet}
use obolos.Contracts.{VerificationService, ParsedDate}
use obolos.Contracts.{mode_eq, network_eq}
use obolos.Contracts.{VerificationPurchase, Actor}
use obolos.Contracts.{asset_eq, worker, success}
use obolos.Contracts.{completed}
use obolos.Policy.{is_safe_integer}
use obolos.Contracts.{Receipt}
use obolos.Engine.{Env, log}
use obolos.Engine.Pay.{Attempt, stepped, threw, await, validate_receipt, verify_request_id}

abbrev pub is_valid_count : ℕ → Bool
is_valid_count n = is_safe_integer n

abbrev pub is_date : ParsedDate → Bool
is_date none = false
is_date (some t) = true

abbrev pub source_of : String → String
source_of repo = String.◌++◌ "https://api.github.com/repos/" repo

-- src/lib/gateway.ts
unfoldable pub check_report : Report → List Check
check_report report =
    let records = report.evidence in
    record {
      label = "Source coverage";
      passed = not (is_empty records) && (set_size (map (λ x. x.repo) records) == length records);
      detail = num (length records) ∷ lit " distinct repository records are attached." ∷ [];
    }
    ∷ record {
      label = "Source attribution";
      passed = all (λ x. x.source_url == source_of x.repo) records;
      detail = lit "Every record points to its exact GitHub API source." ∷ [];
    }
    ∷ record {
      label = "Valid observed counts";
      passed =
          all
            (λ x. is_valid_count x.stars && is_valid_count x.forks && is_valid_count x.open_issues)
            records;
      detail = lit "Stars, forks and issue counts are non-negative integers." ∷ [];
    }
    ∷ record {
      label = "Observation timestamps";
      passed = all (λ x. is_date x.fetched_at && is_date x.pushed_at) records;
      detail = lit "Each observation includes fetch and last-push timestamps." ∷ [];
    }
    ∷ []

unfoldable pub draft_report : Env → Run → String → Attempt
draft_report env run summary =
    let drafted = record run {
      report = some (record {
        title = run.title;
        summary = summary;
        recommendation =
            "Use these observations as a starting point. Validate framework suitability against your project requirements; popularity is not a quality guarantee.";
        evidence = run.evidence;
        generated_by = model;
        created_at = env.now;
        checks = [];
        verified = false;
      });
      stage = Stage.verification;
    } in
    stepped (
      log env drafted worker success "Report drafted" (
        lit "Model-generated analysis grounded in "
        ∷ num (length run.evidence)
        ∷ lit " purchased records. Source-integrity and structural checks are still pending."
        ∷ []))

unfoldable pub step_report : Env → Gateway → Run → Attempt
unfolding draft_report
step_report env gateway run =
    await run (gateway.generate_report run.evidence run.id) (draft_report env run)

abbrev pub price_of : Option VerificationService → ℕ
price_of none = 50000
price_of (some s) = s.price_atomic

abbrev pub verification_price : Run → ℕ
verification_price run = price_of run.mandate.verification_service

-- `(result.checks??[])`
abbrev pub listed : Option (List Check) → List Check
listed none = []
listed (some cs) = cs

-- The report is judged after its payment is recorded.
unfoldable pub judge : Env → Run → Report → List Check → Attempt
unfolding check_report
judge env run report checks =
    let results = check_report report ++ checks in
    let verified = all (λ c. c.passed) results in
    let judged = record run {
      report = some (record report { checks = results; verified = verified });
    } in
    if verified
    then stepped (
        log env (record judged { stage = Stage.complete; status = completed }) Actor.verifier
          success "Evidence checked · job complete"
          (num (length results)
            ∷ lit
                " structural/source checks passed. Narrative judgment is not independently certified. Arc USDC settlement confirmed."
            ∷ []))
    else threw judged (
        some
          "The paid verification found invalid evidence. Review the recorded receipt and failed checks.")

-- The payment is recorded before its checks are looked at.
unfoldable pub record_verification :
    Env → Run → Report → ℕ → Receipt × Option (List Check) → Attempt
unfolding judge
record_verification env run report amount (receipt, checks) =
    let paid = record run {
      receipts = run.receipts ++ receipt ∷ [];
      verification_spent_atomic = run.verification_spent_atomic + amount;
    } in
    if run.mode == live && is_empty (listed checks)
    then threw paid (some "The paid verifier did not return its evidence checks.")
    else judge env paid report (listed checks)

-- From the answer of `verify` on.
unfoldable pub accept_verification :
    Env → Run → Report → ℕ → Receipt × Option (List Check) → Attempt
unfolding record_verification validate_receipt
accept_verification env run report amount result =
    await run (validate_receipt run result.0 (verify_request_id run) arc_testnet amount)
      λ _. record_verification env run report amount result

abbrev pub verification_purchase : Run → Report → VerificationPurchase
verification_purchase run report = record {
  run_id = run.id;
  request_id = verify_request_id run;
  max_amount_atomic = verification_price run;
  report = report;
  mandate_expires_at = run.mandate.expires_at;
}

unfoldable pub verify_report : Env → Gateway → Run → Option Report → Attempt
unfolding accept_verification
verify_report env gateway run none = threw run (some "No report is ready to verify.")
verify_report env gateway run (some report) =
    await run (gateway.verify (verification_purchase run report))
      (accept_verification env run report (verification_price run))

unfoldable pub step_verification : Env → Gateway → Run → Attempt
unfolding verify_report
step_verification env gateway run =
    if ltb run.mandate.verification_budget_atomic
      (run.verification_spent_atomic + verification_price run)
    then threw run (some "Verification would exceed the USDC allowance. No payment was made.")
    else verify_report env gateway run run.report
