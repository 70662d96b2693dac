-- ===== src/Platform/Accepted.antt =====
-- What a result of a runner is, when the platform accepts it.
use obolos.Prelude.{ℕ, ◌≤◌, Bool, true, false, ◌||◌, not, List, All}
use obolos.Prelude.{
  none, some, Option, refl, all, [], ◌∷◌, ◌==◌, nat_beq, string_eq, list_eq, ◌≡◌, arith,
}
use obolos.Prelude.{ok, >>=-ok, sum_of, ok_injective}
use obolos.Prelude.{
  any, map, is_distinct, is_true_of_not, ap, sym, subst, ◌∙◌, if◌then◌else◌, length,
}
use obolos.Contracts.{Run, RunStatus, Receipt, Report, Check, Stage, network_eq, asset_eq}
use obolos.Contracts.{status_eq}
use obolos.Policy.{verify_audit}
use obolos.Platform.{JobStatus, succeeded, blocked, uncertain, failed, ResultJob, Readers, text_or}
use obolos.Platform.{
  is_uncertain_text, is_confirmed_negative, is_paying_stage, classify_runner_status,
  option_service_eq,
}
use obolos.Platform.Terms.{is_other_scope, service_of, is_other_provider, is_other_evidence}
use obolos.Platform.Upload.{Spending}
use obolos.Platform.Upload.{add_receipts}
use obolos.Platform.Upload.{
  is_complete_stage, is_other_total, is_passed, claims_too_much, recorded_run,
}
use obolos.Platform.Upload.{finish_result, no_spending, validate_runner_result}
use obolos.Platform.Payments.{
  after_check, within_price, IsSummed, add_receipts-IsSummed, add_receipts-length, IsOwn,
  data_amount, verification_amount,
}

-- The checks behind the loop.
record IsFinished (r : Run) (job : ResultJob) (looped : Spending × List Receipt)
    (out : Run × JobStatus) : Type 0 where
  same_total : is_other_total r job looped.0 ≡ false
  complete : claims_too_much r job ≡ false
  result : out ≡ (recorded_run r looped.1, classify_runner_status (recorded_run r looped.1) none)

finish_result-IsFinished :
    (r : Run) (job : ResultJob) (looped : Spending × List Receipt) (out : Run × JobStatus)
    → finish_result r job looped ≡ ok out
    → IsFinished r job looped out
unfolding finish_result
finish_result-IsFinished r job looped out h =
    let (count, a) = after_check _ _ h in
    let (based, b) = after_check _ _ a in
    let (total, c) = after_check _ _ b in
    let (report, d) = after_check _ _ c in
    let (complete, e) = after_check _ _ d in
    record { same_total = total; complete = complete; result = sym (ok_injective _ _ e) }

-- What the checks show of a result that passed.
record IsChecked (readers : Readers) (r : Run) (job : ResultJob) (out : Run × JobStatus)
    : Type 0 where
  same_scope : is_other_scope r job ≡ false
  audited : verify_audit readers.event_hash r.events ≡ true
  looped : Spending × List Receipt
  summed : IsSummed job no_spending looped.0 looped.1
  same_length : length looped.1 ≡ length r.receipts
  finished : IsFinished r job looped out

validate-IsChecked :
    (readers : Readers) (r : Run) (job : ResultJob) (out : Run × JobStatus)
    → validate_runner_result readers r job ≡ ok out
    → IsChecked readers r job out
unfolding validate_runner_result
validate-IsChecked readers r job out h =
    let (scope, a) = after_check _ _ h in
    let (service, s, b) = >>=-ok (service_of readers job) _ a in
    let (same, c) = after_check _ _ b in
    let (audit, d) = after_check _ _ c in
    let (provider, e) = after_check (is_other_provider r job) _ d in
    let (evidence, f) = after_check (any (is_other_evidence job) r.evidence) _ e in
    let (distinct, g) = after_check (not (is_distinct (map (λ x. x.repo) r.evidence))) _ f in
    let (looped, l, last) =
      >>=-ok (add_receipts r job no_spending r.receipts) (finish_result r job) g in
    record {
      same_scope = scope;
      audited = is_true_of_not _ audit;
      looped = looped;
      summed = add_receipts-IsSummed r job no_spending r.receipts looped l;
      same_length = add_receipts-length r job no_spending r.receipts looped l;
      finished = finish_result-IsFinished r job looped out last;
    }

-- The totals that passed the last checks.
record IsTotal (r : Run) (job : ResultJob) (t : Spending) : Type 0 where
  data_total : t.data_spent ≡ r.data_spent_atomic
  verification_total : t.verification_spent ≡ r.verification_spent_atomic
  data_within : t.data_spent ≤ job.mandate.data_budget_atomic
  verification_within : t.verification_spent ≤ job.mandate.verification_budget_atomic

same_number : (a b : ℕ) → not (nat_beq a b) ≡ false → a ≡ b
same_number a b h = ground arith

is_other_total-IsTotal :
    (r : Run) (job : ResultJob) (t : Spending) → is_other_total r job t ≡ false → IsTotal r job t
is_other_total-IsTotal r job t h = record {
  data_total = same_number _ _ (ground arith);
  verification_total = same_number _ _ (ground arith);
  data_within = within_price _ t.data_spent (ground arith);
  verification_within = within_price _ t.verification_spent (ground arith);
}

-- A result that was accepted, and the job.
pub record IsAuthorized (readers : Readers) (job : ResultJob) (r : Run) : Type 0 where
  pub same_id : r.id ≡ job.id
  pub same_repos : r.repos ≡ job.repos
  pub audited : verify_audit readers.event_hash r.events ≡ true
  pub own : All (IsOwn job) r.receipts
  pub data_sum : sum_of data_amount r.receipts ≡ r.data_spent_atomic
  pub verification_sum : sum_of verification_amount r.receipts ≡ r.verification_spent_atomic
  pub data_within : r.data_spent_atomic ≤ job.mandate.data_budget_atomic
  pub verification_within : r.verification_spent_atomic ≤ job.mandate.verification_budget_atomic

same_id_test : (r : Run) (job : ResultJob) → is_other_scope r job ≡ false → (r.id == job.id) ≡ true
same_id_test r job h = ground arith

same_repos_test :
    (r : Run) (job : ResultJob) → is_other_scope r job ≡ false → (r.repos == job.repos) ≡ true
same_repos_test r job h = ground arith

checked-IsAuthorized :
    (readers : Readers) (r : Run) (job : ResultJob) (out : Run × JobStatus)
    → (c : IsChecked readers r job out) → IsAuthorized readers job (recorded_run r c.looped.1)
checked-IsAuthorized readers r job out c =
    let total = is_other_total-IsTotal r job c.looped.0 c.finished.same_total in
    let dt = total.data_total in
    let vt = total.verification_total in
    let dw = total.data_within in
    let vw = total.verification_within in
    let ds = c.summed.data_sum in
    let vs = c.summed.verification_sum in
    let scope = c.same_scope in
    record {
      same_id = (string_eq.same_iff r.id job.id).0 (same_id_test r job scope);
      same_repos = (list_eq.same_iff r.repos job.repos).0 (same_repos_test r job scope);
      audited = c.audited;
      own = c.summed.all_own;
      data_sum = omega arith;
      verification_sum = omega arith;
      data_within = omega arith;
      verification_within = omega arith;
    }

-- A result that validateRunnerResult returns is for the job and its repositories and has an
-- audit log that verifies; each of its receipts is either the HBAR payment for the data of the
-- job, within the unit price of the mandate for its repositories, or the USDC payment for its
-- verification, of exactly the fee; and what was spent on data and on verification is the sum
-- of the receipts of each and within the budgets of the mandate.
pub validate_runner_result-IsAuthorized :
    (readers : Readers) (r recorded : Run) (job : ResultJob) (status : JobStatus)
    → validate_runner_result readers r job ≡ ok (recorded, status)
    → IsAuthorized readers job recorded
validate_runner_result-IsAuthorized readers r recorded job status h =
    let c = validate-IsChecked readers r job (recorded, status) h in
    subst (λ x. IsAuthorized readers job x.0) (sym c.finished.result)
      (checked-IsAuthorized readers r job (recorded, status) c)

only_done :
    (is_done is_waiting is_doubtful is_negative is_paying : Bool)
    → (if is_done
        then succeeded
        else if is_waiting
        then blocked
        else if is_doubtful
        then uncertain
        else if is_negative
        then failed
        else if is_paying
        then uncertain
        else failed)
      ≡ succeeded
    → is_done ≡ true
only_done is_done is_waiting is_doubtful is_negative is_paying h = ground arith

classify-succeeded :
    (r : Run) → classify_runner_status r none ≡ succeeded → (r.status == RunStatus.completed) ≡ true
unfolding classify_runner_status
classify-succeeded r h =
    only_done (r.status == RunStatus.completed)
      (r.status == RunStatus.awaiting_approval || r.status == RunStatus.paused)
      (is_uncertain_text (text_or "" r.error)) (is_confirmed_negative r none)
      (is_paying_stage r.stage) h

-- A run that completed, as its receipts and its report say.
pub record IsComplete (job : ResultJob) (r : Run) : Type 0 where
  pub is_done : r.status ≡ RunStatus.completed
  pub two_payments : length r.receipts ≡ 2
  pub at_the_end : r.stage ≡ Stage.complete
  pub report : Report
  pub reported : r.report ≡ some report
  pub is_verified : report.verified ≡ true
  pub some_check : 1 ≤ length report.checks
  pub all_passed : All (λ (c : Check). c.passed ≡ true) report.checks
  pub all_evidence : length r.evidence ≡ length job.repos

all-All :
    (cs : List Check) → all (λ c. c.passed) cs ≡ true → All (λ (c : Check). c.passed ≡ true) cs
all-All [] h = tt
all-All (c ∷ cs) h = (ground arith, all-All cs (ground arith))

is_passed-report :
    (o : Option Report)
    → is_passed o ≡ true
    → (report : Report) × (o ≡ some report)
      × (report.verified ≡ true)
      × (1 ≤ length report.checks)
      × All (λ (c : Check). c.passed ≡ true) report.checks
is_passed-report none h = cc
is_passed-report (some report) h =
    (report, refl, ground arith, ground arith, all-All report.checks (ground arith))

is_complete_stage-same : (s : Stage) → is_complete_stage s ≡ true → s ≡ Stage.complete
is_complete_stage-same Stage.mandate h = cc
is_complete_stage-same Stage.discovery h = cc
is_complete_stage-same Stage.purchase h = cc
is_complete_stage-same Stage.report h = cc
is_complete_stage-same Stage.verification h = cc
is_complete_stage-same Stage.complete h = refl

checked-IsComplete :
    (r : Run) (job : ResultJob)
    → claims_too_much r job ≡ false
    → (r.status == RunStatus.completed) ≡ true
    → IsComplete job r
checked-IsComplete r job h done =
    let (report, reported, verified, checked, passed) = is_passed-report r.report (ground arith) in
    record {
      is_done = (status_eq.same_iff r.status RunStatus.completed).0 done;
      two_payments = ground arith;
      at_the_end = is_complete_stage-same r.stage (ground arith);
      report = report;
      reported = reported;
      is_verified = verified;
      some_check = checked;
      all_passed = passed;
      all_evidence = ground arith;
    }

-- When validateRunnerResult classifies a result as succeeded, the run that it returns is
-- completed in its last stage with two receipts, as many entries of evidence as the job has
-- repositories, and a report that was verified and has at least one check, every one of them passed.
pub validate_runner_result-IsComplete :
    (readers : Readers) (r recorded : Run) (job : ResultJob)
    → validate_runner_result readers r job ≡ ok (recorded, succeeded)
    → IsComplete job recorded
validate_runner_result-IsComplete readers r recorded job h =
    let c = validate-IsChecked readers r job (recorded, succeeded) h in
    let same = c.finished.result in
    let done = classify-succeeded (recorded_run r c.looped.1) (sym (ap (λ x. x.1) same)) in
    let complete = checked-IsComplete r job c.finished.complete done in
    subst (IsComplete job) (sym (ap (λ x. x.0) same)) (record {
      is_done = complete.is_done;
      two_payments = c.same_length ∙ complete.two_payments;
      at_the_end = complete.at_the_end;
      report = complete.report;
      reported = complete.reported;
      is_verified = complete.is_verified;
      some_check = complete.some_check;
      all_passed = complete.all_passed;
      all_evidence = complete.all_evidence;
    })
