-- ===== src/Runner/Terms.antt =====
-- `createMandatedGateway` of src/lib/runner/execution.ts: the signed terms of a request, and what
-- the guard has found when it lets one through.
use Prim.Native.String
use obolos.Prelude.{◌*◌, ◌≤◌, ◌≡◌, String, true, false, not, List}
use obolos.Prelude.{Result, ok, >>=-ok, throw_if-ok, ok_injective}
use obolos.Prelude.{length, includes, arith, string_eq, list_eq, throw_if, ◌||◌, ◌==◌, nat_eq, sym}
use obolos.Contracts.{RepoEvidence, DataPurchase, VerificationPurchase, Thrown, ParsedDate}
use obolos.Engine.Verify.{price_of}
use obolos.Runner.{RunnerJob}
use obolos.Runner.{RunnerPins}
use obolos.Runner.Mandate.{Checks, date_eq}
use obolos.Runner.Guard.{Guard, admit_purchase, admit_report}
use obolos.Runner.Guard.{admit_verification, is_in_scope, is_verification_in_scope}
use obolos.Runner.Guard.{allowed, identity, same_evidence}

-- The signed terms of a data purchase and of a verification.
pub record IsDataRequest (job : RunnerJob) (r : DataPurchase) : Type 0 where
  pub request : r.request_id ≡ String.◌++◌ job.id ":data"
  pub run : r.run_id ≡ job.id
  pub repos : r.repos ≡ job.repos
  pub provider : includes job.mandate.allowed_providers r.provider_id ≡ true
  pub price : r.unit_price_atomic ≤ job.mandate.max_data_unit_price_atomic
  pub amount : r.max_amount_atomic ≡ r.unit_price_atomic * length job.repos
  pub budget : r.max_amount_atomic ≤ job.mandate.data_budget_atomic

pub record IsVerifyRequest (job : RunnerJob) (r : VerificationPurchase) : Type 0 where
  pub request : r.request_id ≡ String.◌++◌ job.id ":verify"
  pub run : r.run_id ≡ job.id
  pub amount : r.max_amount_atomic ≡ price_of job.mandate.verification_service
  pub budget : r.max_amount_atomic ≤ job.mandate.verification_budget_atomic

is_in_scope→IsDataRequest :
    (job : RunnerJob) (r : DataPurchase)
    → r.run_id ≡ job.id
    → r.request_id ≡ String.◌++◌ job.id ":data"
    → is_in_scope job r ≡ true
    → IsDataRequest job r
is_in_scope→IsDataRequest job r run request h = record {
  request = request;
  run = run;
  repos = (list_eq.same_iff r.repos job.repos).0 (ground arith);
  provider = ground arith;
  price = ground arith;
  amount = ground arith;
  budget = ground arith;
}

identity-ok :
    (job : RunnerJob) (run_id request_id kind : String) (expires : ParsedDate) {u : Unit {0}}
    → identity job run_id request_id kind expires ≡ ok u
    → (run_id ≡ job.id) × (request_id ≡ String.◌++◌ job.id kind)
identity-ok job run_id request_id kind expires e =
    let same = throw_if-ok _ _ e in
    (
      (string_eq.same_iff run_id job.id).0 (ground arith),
      (string_eq.same_iff request_id (String.◌++◌ job.id kind)).0 (ground arith),
    )

module _ (job : RunnerJob) (pins : RunnerPins) where
  pub admit_purchase_inv :
      (before later : Checks) (authorized : Result Thrown (Unit {0})) (g g' : Guard)
      (r : DataPurchase)
      → admit_purchase job before later authorized pins g r ≡ ok g'
      → (g.data_started ≡ false) × (g' ≡ record g { data_started = true }) × IsDataRequest job r
  unfolding admit_purchase
  admit_purchase_inv before later authorized g g' r e =
      let (u, _, e1) = >>=-ok (allowed before later authorized job pins) _ e in
      let (u', same, e2) =
        >>=-ok (identity job r.run_id r.request_id ":data" r.mandate_expires_at) _ e1 in
      let (u'', scope, e3) = >>=-ok (throw_if (g.data_started || not (is_in_scope job r)) _) _ e2 in
      let bounds = throw_if-ok _ _ scope in
      let (run, request) = identity-ok job _ _ _ r.mandate_expires_at same in
      (
        ground (arith, bounds),
        sym (ok_injective _ _ e3),
        is_in_scope→IsDataRequest job r run request (ground (arith, bounds)),
      )

  pub admit_report_inv :
      (before later : Checks) (authorized : Result Thrown (Unit {0})) (g g' : Guard)
      (evidence : List RepoEvidence) (run_id : String)
      → admit_report job before later authorized pins g evidence run_id ≡ ok g'
      → (g' ≡ record g { report_started = true }) × (same_evidence g.purchased evidence ≡ true)
  unfolding admit_report
  admit_report_inv before later authorized g g' evidence run_id e =
      let (u, _, e1) = >>=-ok (allowed before later authorized job pins) _ e in
      let (u', same, e2) =
        >>=-ok
          (throw_if
            (not (run_id == job.id) || not (same_evidence g.purchased evidence) || g.report_started)
            _)
          _ e1 in
      (sym (ok_injective _ _ e2), ground (arith, throw_if-ok _ _ same))

  pub admit_verification_inv :
      (before later : Checks) (authorized : Result Thrown (Unit {0})) (g g' : Guard)
      (r : VerificationPurchase)
      → admit_verification job before later authorized pins g r ≡ ok g'
      → (g.verification_started ≡ false)
        × (g.report_started ≡ true)
        × (g' ≡ record g { verification_started = true })
        × IsVerifyRequest job r
  unfolding admit_verification
  admit_verification_inv before later authorized g g' r e =
      let (u, _, e1) = >>=-ok (allowed before later authorized job pins) _ e in
      let (u', same, e2) =
        >>=-ok (identity job r.run_id r.request_id ":verify" r.mandate_expires_at) _ e1 in
      let (u'', scope, e3) =
        >>=-ok (throw_if (g.verification_started || not (is_verification_in_scope job g r)) _) _
          e2 in
      let bounds = throw_if-ok _ _ scope in
      let (run, request) = identity-ok job _ _ _ r.mandate_expires_at same in
      (
        ground (arith, bounds),
        ground (arith, bounds),
        sym (ok_injective _ _ e3),
        record {
          request = request;
          run = run;
          amount = ground (arith, bounds);
          budget = ground (arith, bounds);
        },
      )
