-- ===== src/Runner/Guard.antt =====
-- `createMandatedGateway` of src/lib/runner/execution.ts: the runner's own guard
-- around every capability of the gateway. A call returns the guard's next state with what it
-- throws, or with the request that goes on to the gateway below.
use Prim.Native.String
use obolos.Prelude.{◌*◌, String, Bool, true, false, ◌&&◌, ◌||◌, not, List, Option, none, some}
use obolos.Prelude.{Result, ok, ◌>>◌, throw_if, leb, ltb, ◌==◌, nat_eq, string_eq, list_eq}
use obolos.Prelude.{length, includes, Eq, discrete_eq, string_discrete, ℕ_discrete}
use obolos.Contracts.{RepoEvidence, DataPurchase, VerificationPurchase, Thrown, ParsedDate}
use obolos.Policy.{is_safe_integer}
use obolos.Engine.Verify.{price_of}
use obolos.Runner.{RunnerJob, RunnerPins}
use obolos.Runner.Mandate.{Checks, validate_job, date_eq}

unfoldable pub RepoEvidence-discrete : Discrete RepoEvidence
unfolding ℕ_discrete string_discrete
RepoEvidence-discrete = hlevel (string_discrete, ℕ_discrete)

instance abbrev pub evidence_eq : Eq RepoEvidence
evidence_eq = discrete_eq RepoEvidence-discrete

pub record Guard : Type 0 where
  pub data_started : Bool
  pub report_started : Bool
  pub verification_started : Bool
  pub purchased : Option (List RepoEvidence)

abbrev pub fresh_guard : Guard
fresh_guard = record {
  data_started = false;
  report_started = false;
  verification_started = false;
  purchased = none;
}

-- `allowed(true)`: the job is validated, authorised and validated again; `authorized` is what the
-- caller's `authorize` does.
abbrev pub allowed :
    Checks → Checks → Result Thrown (Unit {0}) → RunnerJob → RunnerPins → Result Thrown (Unit {0})
allowed before later authorized job pins = do
  validate_job before job pins
  authorized
  validate_job later job pins

abbrev pub same_evidence : Option (List RepoEvidence) → List RepoEvidence → Bool
same_evidence none evidence = false
same_evidence (some bought) evidence = bought == evidence

-- The evidence that came back.
abbrev pub note_purchase : Guard → List RepoEvidence → Guard
note_purchase g evidence = record g { purchased = some evidence }

module _ (job : RunnerJob) where
  abbrev pub identity : String → String → String → ParsedDate → Result Thrown (Unit {0})
  identity run_id request_id kind expires =
      throw_if
        (not (run_id == job.id)
          || not (request_id == String.◌++◌ job.id kind)
          || not (expires == job.mandate.expires_at))
        (some "Capability identity does not match the signed job.")

  abbrev pub is_in_scope : DataPurchase → Bool
  is_in_scope r =
      (r.repos == job.repos)
      && includes job.mandate.allowed_providers r.provider_id
      && is_safe_integer r.unit_price_atomic
      && ltb 0 r.unit_price_atomic
      && leb r.unit_price_atomic job.mandate.max_data_unit_price_atomic
      && (r.max_amount_atomic == r.unit_price_atomic * length job.repos)
      && leb r.max_amount_atomic job.mandate.data_budget_atomic

  -- `purchaseData` up to its call of the gateway below: the guard that is left when it is made.
  unfoldable pub admit_purchase :
      Checks
      → Checks
      → Result Thrown (Unit {0})
      → RunnerPins
      → Guard
      → DataPurchase
      → Result Thrown Guard
  unfolding validate_job
  admit_purchase before later authorized pins g r = do
    allowed before later authorized job pins
    identity r.run_id r.request_id ":data" r.mandate_expires_at
    throw_if (g.data_started || not (is_in_scope r))
        (some "Data purchase exceeds or differs from the signed scope, or was already attempted.")
    ok (record g { data_started = true })

  unfoldable pub admit_report :
      Checks
      → Checks
      → Result Thrown (Unit {0})
      → RunnerPins
      → Guard
      → List RepoEvidence
      → String
      → Result Thrown Guard
  unfolding validate_job
  admit_report before later authorized pins g evidence run_id = do
    allowed before later authorized job pins
    throw_if
        (not (run_id == job.id) || not (same_evidence g.purchased evidence) || g.report_started)
        (some "Report capability does not match the purchased evidence or was already attempted.")
    ok (record g { report_started = true })

  abbrev pub is_verification_in_scope : Guard → VerificationPurchase → Bool
  is_verification_in_scope g r =
      g.report_started
      && same_evidence g.purchased r.report.evidence
      && (r.max_amount_atomic == price_of job.mandate.verification_service)
      && leb r.max_amount_atomic job.mandate.verification_budget_atomic

  unfoldable pub admit_verification :
      Checks
      → Checks
      → Result Thrown (Unit {0})
      → RunnerPins
      → Guard
      → VerificationPurchase
      → Result Thrown Guard
  unfolding validate_job
  admit_verification before later authorized pins g r = do
    allowed before later authorized job pins
    identity r.run_id r.request_id ":verify" r.mandate_expires_at
    throw_if (g.verification_started || not (is_verification_in_scope g r))
        (some "Verification exceeds or differs from the signed scope, or was already attempted.")
    ok (record g { verification_started = true })
