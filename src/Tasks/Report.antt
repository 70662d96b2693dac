-- ===== src/Tasks/Report.antt =====
-- `updateRunnerTask` of src/lib/platform/tasks.ts: the runner that holds the claim submits a plan,
-- reports a paid step, completes the task or blocks it. The catalogue of services, and what the
-- paid order of a step proves, are parameters of `Books`.
use obolos.Prelude.{ℕ, ◌+◌, String, Bool, true, false, ◌&&◌, ◌||◌, not, Option, none, some, ◌==◌}
use obolos.Prelude.{
  if◌then◌else◌, ok, err, nat_eq, string_eq, ltb, length, get_elem?, List, [], ◌∷◌,
}
use obolos.Prelude.{
  Result, ◌>>=◌, ◌>>◌, throw_if, ◌++◌, Eq, discrete_eq, string_discrete, ℕ_discrete,
}
use obolos.Contracts.{has_passed}
use obolos.Engine.{is_absent}
use obolos.Tasks.{
  Task, TaskPlan, PlanStep, TaskStepResult, TaskStatus, ClaimPhase, planning, blocked,
}
use obolos.Tasks.{needs_approval, running, completed, Answer, holds, task_status_eq}
use obolos.Tasks.{ServiceDefinition}
use obolos.Tasks.Plan.{RawPlan, Checker, create_task_plan}
use obolos.Tasks.Owner.{plan_hashes_to}

unfoldable pub result_discrete : Discrete TaskStepResult
unfolding ℕ_discrete string_discrete
result_discrete = hlevel (string_discrete, ℕ_discrete)

-- `canonicalJson(a)===canonicalJson(b)`
instance abbrev pub result_eq : Eq TaskStepResult
result_eq = discrete_eq result_discrete

pub record Books : Type 0 where
  pub checker : Checker
  pub services : List ServiceDefinition
  pub task_plan_hash : TaskPlan → String
  pub task_step_order_id : String → String → ℕ → String
  pub paid_step : Task → PlanStep → ℕ → Result String TaskStepResult

pub data RunnerAction : Type 0 where
  submit_plan : RawPlan → RunnerAction
  progress : ℕ → String → RunnerAction
  complete : RunnerAction
  report_blocked : String → RunnerAction

-- What the handler puts in the row.
pub record Changes : Type 0 where
  pub status : TaskStatus
  pub plan : Option TaskPlan
  pub plan_hash : Option String
  pub results : List TaskStepResult
  pub error : Option String

abbrev pub is_phase : ClaimPhase → Option ClaimPhase → Bool
is_phase ClaimPhase.plan (some ClaimPhase.plan) = true
is_phase ClaimPhase.execute (some ClaimPhase.execute) = true
is_phase _ _ = false

abbrev pub may_plan : TaskStatus → Bool
may_plan planning = true
may_plan needs_approval = true
may_plan _ = false

abbrev pub may_execute : TaskStatus → Bool
may_execute running = true
may_execute completed = true
may_execute _ = false

abbrev pub may_block : TaskStatus → Bool
may_block planning = true
may_block running = true
may_block blocked = true
may_block _ = false

abbrev pub text_or_null : Option String → String
text_or_null none = "null"
text_or_null (some s) = s

abbrev pub steps_of : Option TaskPlan → List PlanStep
steps_of none = []
steps_of (some p) = p.steps

abbrev pub same_text : Option String → Option String → Bool
same_text none none = true
same_text (some a) (some b) = a == b
same_text _ _ = false

module _ (books : Books) where
  abbrev pub step_at : Option PlanStep → Task → ℕ → Result String TaskStepResult
  step_at none row index = err "Invalid task step."
  step_at (some step) row index = books.paid_step row step index

  -- `verifiedStep`
  unfoldable pub verified_step : Task → ℕ → Result String TaskStepResult
  verified_step row index =
      if is_absent row.plan_hash
        || not (same_text row.approved_plan_hash row.plan_hash)
        || not (plan_hashes_to books.task_plan_hash row.plan (text_or_null row.plan_hash))
      then err "An owner-approved plan is required."
      else step_at (get_elem? (steps_of row.plan) index) row index

  -- `none` as changes for an answer without a write.
  unfoldable pub accept_plan : ℕ → Task → Option TaskPlan → Result String (Option Changes)
  accept_plan now row none =
      err
        "The plan must use available services, valid inputs, earlier outputs and the approved budget."
  accept_plan now row (some p) =
      if row.status == needs_approval
      then if holds row.plan_hash (books.task_plan_hash p)
        then ok none
        else err "A submitted plan cannot be replaced."
      else if has_passed row.claim_until now
      then err "The planning lease expired. Claim the task again."
      else ok (
          some (record {
            status = needs_approval;
            plan = some p;
            plan_hash = some (books.task_plan_hash p);
            results = row.step_results;
            error = none;
          }))

  unfoldable pub record_step :
      Task → ℕ → Option TaskStepResult → TaskStepResult → Result String (Option Changes)
  record_step row index (some recorded) result =
      if recorded == result then ok none else err "Recorded task results are immutable."
  record_step row index none result = ok (
      some (record {
        status = row.status;
        plan = row.plan;
        plan_hash = row.plan_hash;
        results = row.step_results ++ result ∷ [];
        error = none;
      }))

  unfoldable pub accept_progress : Task → ℕ → String → Result String (Option Changes)
  unfolding verified_step record_step
  accept_progress row index order_id = do
    throw_if
        (ltb (length row.step_results) index
          || not (order_id == books.task_step_order_id row.id (text_or_null row.plan_hash) index))
        "Progress must identify the next deterministic approved order."
    verified_step row index >>= record_step row index (get_elem? row.step_results index)

  -- The loop over the recorded results, from `index` on.
  unfoldable pub check_results : Task → ℕ → List TaskStepResult → Result String (Unit {0})
  unfolding verified_step
  check_results row index [] = ok tt
  check_results row index (r ∷ rs) = do
    verified_step row index >>= λ result.
        throw_if (not (result == r)) "Recorded task result does not match its paid order."
    check_results row (index + 1) rs

  unfoldable pub accept_complete : Task → Result String (Option Changes)
  unfolding check_results
  accept_complete row = do
    throw_if (not (length row.step_results == length (steps_of row.plan)))
        "Every approved step must have a verified paid result."
    check_results row 0 row.step_results
    ok (
        some (record {
          status = completed;
          plan = row.plan;
          plan_hash = row.plan_hash;
          results = row.step_results;
          error = none;
        }))

  unfoldable pub changes_of : ℕ → Task → RunnerAction → Result String (Option Changes)
  unfolding create_task_plan accept_plan accept_progress accept_complete
  changes_of now row (submit_plan raw) =
      if not (is_phase ClaimPhase.plan row.claim_phase) || not (may_plan row.status)
      then err "A planning claim is required."
      else accept_plan now row (create_task_plan books.checker books.services row.budget_atomic raw)
  changes_of now row (report_blocked message) =
      if not (may_block row.status)
      then err "This task cannot be blocked by this claim."
      else ok (
          some (record {
            status = blocked;
            plan = row.plan;
            plan_hash = row.plan_hash;
            results = row.step_results;
            error = some message;
          }))
  changes_of now row (progress index order_id) =
      if not (is_phase ClaimPhase.execute row.claim_phase) || not (may_execute row.status)
      then err "An execution claim is required."
      else accept_progress row index order_id
  changes_of now row complete =
      if not (is_phase ClaimPhase.execute row.claim_phase) || not (may_execute row.status)
      then err "An execution claim is required."
      else accept_complete row

abbrev pub applied : ℕ → Task → Changes → Task
applied now t c = record t {
  status = c.status;
  plan = c.plan;
  plan_hash = c.plan_hash;
  step_results = c.results;
  error = c.error;
  claim_until = some (now + 120000);
  revision = t.revision + 1;
}

-- The `UPDATE`, of the row that stands now.
unfoldable pub write_changes : ℕ → String → Task → Task → Option Changes → Answer
write_changes now token read current none = ok none
write_changes now token read current (some c) =
    if holds current.claim_token token && current.revision == read.revision
    then ok (some (applied now current c))
    else err "The task changed concurrently. Read it and retry the same update."

unfoldable pub update_runner_task : Books → ℕ → String → Task → Task → RunnerAction → Answer
unfolding changes_of write_changes
update_runner_task books now token read current action =
    if not (holds read.claim_token token)
    then err "The task claim is invalid."
    else changes_of books now read action >>= write_changes now token read current
