-- ===== src/Platform/Upload.antt =====
-- `validateRunnerResult` of src/lib/platform/execution.ts.
use obolos.Prelude.{ℕ, ◌+◌, String, Bool, true, false, ◌&&◌, ◌||◌, not, List, [], ◌∷◌, map}
use obolos.Prelude.{Option, none, some, ltb, ◌==◌, nat_beq, nat_eq, string_eq, list_eq, all, any}
use obolos.Prelude.{length, joined, is_hex_text, is_distinct, includes}
use obolos.Prelude.{Result, ok, ◌>>◌, ◌>>=◌, throw_if, if◌then◌else◌}
use obolos.Contracts.{Thrown, Run, RunStatus, Stage, Network, Receipt}
use obolos.Contracts.{Report, network_eq, asset_eq, status_eq}
use obolos.Policy.{verify_audit}
use obolos.Runner.Mandate.{date_eq}
use obolos.Runner.Guard.{evidence_eq}
use obolos.Platform.{
  JobStatus, ResultJob, Readers, option_service_eq, text_or, classify_runner_status,
}
use obolos.Platform.Terms.{
  invalid_result, is_other_scope, service_of, is_other_provider, is_other_evidence, is_hedera_id,
  data_request, is_bad_data_receipt, is_bad_verification_receipt, is_unpaid_order, lower_text,
  encoded,
}

-- `data`, `verification` and `requests`.
pub record Spending : Type 0 where
  pub data_spent : ℕ
  pub verification_spent : ℕ
  pub requests : List String

abbrev pub on_hedera : Receipt → Bool
on_hedera receipt = receipt.network == Network.hedera_testnet

abbrev pub recorded_data : Receipt → Receipt
recorded_data receipt = record receipt {
  explorer_url = some (
      joined (
        "https://hashscan.io/testnet/transaction/"
        ∷ encoded (text_or "" receipt.transaction_id)
        ∷ []));
}

abbrev pub recorded_verification : Receipt → Receipt
recorded_verification receipt =
    let transaction = lower_text (text_or "" receipt.transaction_id) in
    record receipt {
      transaction_id = some transaction;
      explorer_url = some (joined ("https://testnet.arcscan.app/tx/" ∷ transaction ∷ []));
    }

-- A payment on Hedera.
abbrev pub add_data : Run → ResultJob → Spending → Receipt → Result Thrown (Spending × Receipt)
add_data r job t receipt =
    throw_if (is_bad_data_receipt r job receipt) invalid_result
    >> ok (
      record t {
        data_spent = t.data_spent + receipt.amount_atomic;
        requests = receipt.request_id ∷ t.requests;
      },
      recorded_data receipt,
    )

-- A payment on Arc.
abbrev pub add_verification : ResultJob → Spending → Receipt → Result Thrown (Spending × Receipt)
add_verification job t receipt =
    throw_if (is_bad_verification_receipt job receipt) invalid_result
    >> (throw_if (is_unpaid_order job receipt) invalid_result
        >> ok (
          record t {
            verification_spent = t.verification_spent + receipt.amount_atomic;
            requests = receipt.request_id ∷ t.requests;
          },
          recorded_verification receipt,
        ))

-- One turn of the loop over the receipts.
unfoldable pub add_receipt :
    Run → ResultJob → Spending → Receipt → Result Thrown (Spending × Receipt)
unfolding is_hedera_id is_hex_text
add_receipt r job t receipt =
    throw_if (includes t.requests receipt.request_id) invalid_result
    >> (if on_hedera receipt then add_data r job t receipt else add_verification job t receipt)

unfoldable pub add_receipts :
    Run → ResultJob → Spending → List Receipt → Result Thrown (Spending × List Receipt)
unfolding add_receipt
add_receipts r job t [] = ok (t, [])
add_receipts r job t (receipt ∷ receipts) = add_receipt r job t receipt >>= λ added.
    add_receipts r job added.0 receipts >>= λ rest. ok (rest.0, added.1 ∷ rest.1)

abbrev pub has_data : ResultJob → Spending → Bool
has_data job t = includes t.requests (data_request job)

-- Evidence that was not bought, or missing from what was.
abbrev pub is_wrong_count : Run → ResultJob → Spending → Bool
is_wrong_count r job t =
    not (nat_beq (length r.evidence) (if has_data job t then length job.repos else 0))

abbrev pub is_unbased : Run → ResultJob → Spending → Bool
is_unbased r job t =
    ltb 0 t.verification_spent
    && (not (has_data job t) || (elim r.report [ none ↦ true | some p ↦ false ]))

abbrev pub is_other_total : Run → ResultJob → Spending → Bool
is_other_total r job t =
    not (nat_beq t.data_spent r.data_spent_atomic)
    || not (nat_beq t.verification_spent r.verification_spent_atomic)
    || ltb job.mandate.data_budget_atomic t.data_spent
    || ltb job.mandate.verification_budget_atomic t.verification_spent

abbrev pub is_other_report : Run → ResultJob → Spending → Bool
is_other_report r job t = elim r.report [
  | none ↦ false
  | some report ↦ not (report.evidence == r.evidence) || not (has_data job t)
]

abbrev pub is_passed : Option Report → Bool
is_passed none = false
is_passed (some report) =
    report.verified && ltb 0 (length report.checks) && all (λ c. c.passed) report.checks

abbrev pub is_complete_stage : Stage → Bool
is_complete_stage Stage.complete = true
is_complete_stage _ = false

abbrev pub is_complete : Run → ResultJob → Bool
is_complete r job =
    is_complete_stage r.stage
    && nat_beq (length r.receipts) 2
    && is_passed r.report
    && nat_beq (length r.evidence) (length job.repos)

abbrev pub claims_too_much : Run → ResultJob → Bool
claims_too_much r job = r.status == RunStatus.completed && not (is_complete r job)

abbrev pub recorded_run : Run → List Receipt → Run
recorded_run r receipts = record r { receipts = receipts }

-- The checks behind the loop, and the result.
unfoldable pub finish_result :
    Run → ResultJob → Spending × List Receipt → Result Thrown (Run × JobStatus)
unfolding classify_runner_status
finish_result r job looped = do
  throw_if (is_wrong_count r job looped.0) invalid_result
  throw_if (is_unbased r job looped.0) invalid_result
  throw_if (is_other_total r job looped.0) invalid_result
  throw_if (is_other_report r job looped.0) invalid_result
  throw_if (claims_too_much r job) invalid_result
  ok (recorded_run r looped.1, classify_runner_status (recorded_run r looped.1) none)

abbrev pub no_spending : Spending
no_spending = record { data_spent = 0; verification_spent = 0; requests = [] }

-- `validateRunnerResult`
unfoldable pub validate_runner_result : Readers → Run → ResultJob → Result Thrown (Run × JobStatus)
unfolding add_receipts finish_result
validate_runner_result readers r job = do
  throw_if (is_other_scope r job) invalid_result
  service ← service_of readers job
  throw_if (not (r.mandate.verification_service == service)) invalid_result
  throw_if (not (verify_audit readers.event_hash r.events)) invalid_result
  throw_if (is_other_provider r job) invalid_result
  throw_if (any (is_other_evidence job) r.evidence) invalid_result
  throw_if (not (is_distinct (map (λ e. e.repo) r.evidence))) invalid_result
  looped ← add_receipts r job no_spending r.receipts
  finish_result r job looped
