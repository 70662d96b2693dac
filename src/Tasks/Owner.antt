-- ===== src/Tasks/Owner.antt =====
-- `updateTask` of src/lib/platform/tasks.ts: the owner approves, cancels or retries a task.
-- SHA-256 over the canonical JSON of a plan is the parameter `task_plan_hash`.
use obolos.Prelude.{ℕ, ◌+◌, String, Bool, true, false, ◌&&◌, ◌||◌, not, Option, none, some, ◌==◌}
use obolos.Prelude.{if◌then◌else◌, ok, err, nat_eq, string_eq}
use obolos.Tasks.{Task, TaskPlan, TaskStatus, queued, needs_approval, approved, running, completed}
use obolos.Tasks.{blocked, cancelled, Answer, holds, is_null, task_status_eq}

pub data OwnerAction : Type 0 where
  approve : String → OwnerAction
  cancel retry : OwnerAction

module _ (task_plan_hash : TaskPlan → String) where
  abbrev pub plan_hashes_to : Option TaskPlan → String → Bool
  plan_hashes_to none h = false
  plan_hashes_to (some p) h = task_plan_hash p == h

  unfoldable pub approve_task : ℕ → String → Task → Task → Answer
  approve_task now h read current =
      if not (holds read.plan_hash h) || not (plan_hashes_to read.plan h)
      then err "The plan changed. Review the current plan before approving."
      else if holds read.approved_plan_hash h
      then ok none
      else if current.status == needs_approval
          && holds current.plan_hash h
          && current.revision == read.revision
      then ok (
          some (record current {
            status = approved;
            approved_plan_hash = current.plan_hash;
            approval_expires_at = some (now + 3600000);
            claim_until = none;
            error = none;
            revision = current.revision + 1;
          }))
      else err "This task is no longer waiting for approval."

unfoldable pub cancel_task : Task → Task → Answer
cancel_task read current =
    if read.status == cancelled
    then ok none
    else if is_null current.execution_worker
        && not (current.status == completed)
        && not (current.status == cancelled)
        && current.revision == read.revision
    then ok (
        some (record current {
          status = cancelled;
          claim_token = none;
          claim_until = none;
          revision = current.revision + 1;
        }))
    else err "Execution has started. Preserve this task to recover its existing payments."

abbrev pub is_going : TaskStatus → Bool
is_going queued = true
is_going approved = true
is_going running = true
is_going _ = false

unfoldable pub retry_task : Task → Task → Answer
retry_task read current =
    if current.status == blocked && current.revision == read.revision
    then ok (
        some (record current {
          status = if is_null current.approved_plan_hash then queued else approved;
          error = none;
          claim_until = none;
          revision = current.revision + 1;
        }))
    else if is_going read.status
    then ok none
    else err "Only a blocked task can be retried."

unfoldable pub update_task : (TaskPlan → String) → ℕ → Task → Task → OwnerAction → Answer
unfolding approve_task cancel_task retry_task
update_task task_plan_hash now read current (approve h) =
    approve_task task_plan_hash now h read current
update_task task_plan_hash now read current cancel = cancel_task read current
update_task task_plan_hash now read current retry = retry_task read current
