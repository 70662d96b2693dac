-- ===== src/Tasks/Writes.antt =====
-- One write of a row of src/lib/platform/tasks.ts keeps it sound, and keeps what stood in it.
use obolos.Prelude.{ℕ, ◌≡◌, refl, String, true, Option, none, some, arith}
use obolos.Prelude.{[], ◌∷◌, ok, string_eq, length-append, >>=-ok}
use obolos.Prelude.{subst, inl, inr, Result}
use obolos.Tasks.{Task, TaskPlan, holds}
use obolos.Tasks.{needs_approval, blocked}
use obolos.Tasks.Owner.{OwnerAction, approve, cancel, retry}
use obolos.Tasks.Owner.{update_task}
use obolos.Tasks.Claim.{claim_task}
use obolos.Tasks.Report.{Books, RunnerAction, Changes}
use obolos.Tasks.Report.{update_runner_task, changes_of, write_changes}
use obolos.Tasks.Report.{applied}
use obolos.Tasks.Sound.{IsSound, Executed, before_approval}
use obolos.Tasks.Sound.{is_running}
use obolos.Prelude.{Bool-cases, nat_eq}
use obolos.Tasks.{task_status_eq}
use obolos.Tasks.Reported.{Allowed, proposed, stopped, paid, all_paid, changes_of-Allowed}
use obolos.Tasks.Sound.{approve_task-IsSound, cancel_task-IsSound, retry_task-IsSound}
use obolos.Tasks.Sound.{claim_task-IsSound}
use obolos.Prelude.{ℕ, ◌≡◌, refl, String, true, Option, none, some, arith, []}
use obolos.Tasks.Kept.{
  Keeps, approve_task-Keeps, cancel_task-Keeps, retry_task-Keeps, claim_task-Keeps,
}
use obolos.Tasks.Kept.{applied-Keeps}

module _ (hash : TaskPlan → String) (t : Task) (s : IsSound hash t) where
  -- The first results are none before the approval.
  unapproved :
      (h : Option String)
      → t.approved_plan_hash ≡ h
      → before_approval t.status ≡ true
      → t.step_results ≡ []
  unapproved none same b = ground (arith, s.executed, same)
  unapproved (some h) same b = absurd (ground (arith, s.executed, same))

  status_Executed :
      (h : Option String) (after : Task)
      → t.approved_plan_hash ≡ h
      → is_running t.status ≡ true
      → is_running after.status ≡ true
      → after.plan_hash ≡ t.plan_hash
      → after.approval_expires_at ≡ t.approval_expires_at
      → Executed after h
  status_Executed none after same b c p x = absurd (ground (arith, s.executed, same))
  status_Executed (some h) after same b c p x = ground (arith, s.executed, same)

  proposed_Executed :
      (h : Option String) (after : Task)
      → t.approved_plan_hash ≡ h
      → before_approval t.status ≡ true
      → after.step_results ≡ t.step_results
      → after.execution_worker ≡ t.execution_worker
      → after.status ≡ needs_approval
      → Executed after h
  proposed_Executed none after same b r w e = ground (arith, s.executed, same)
  proposed_Executed (some h) after same b r w e = absurd (ground (arith, s.executed, same))

  stopped_Executed :
      (h : Option String) (after : Task)
      → t.approved_plan_hash ≡ h
      → after.plan_hash ≡ t.plan_hash
      → after.approval_expires_at ≡ t.approval_expires_at
      → after.step_results ≡ t.step_results
      → after.execution_worker ≡ t.execution_worker
      → after.status ≡ blocked
      → Executed after h
  stopped_Executed none after same p x r w e = ground (arith, s.executed, same)
  stopped_Executed (some h) after same p x r w e = ground (arith, s.executed, same)

  applied-IsSound : (now : ℕ) (c : Changes) → Allowed hash t c → IsSound hash (applied now t c)
  applied-IsSound now c (proposed p b a) =
      let nothing = unapproved t.approved_plan_hash refl (ground (arith, b)) in
      record {
        hashed = refl;
        affordable = a;
        executed =
            proposed_Executed t.approved_plan_hash (applied now t c) refl (ground (arith, b)) refl
              refl refl;
        within = ground (arith, nothing);
        all_done = inl refl;
        pinned = inl refl;
      }
  applied-IsSound now c (stopped message b) = record {
    hashed = s.hashed;
    affordable = s.affordable;
    executed =
        stopped_Executed t.approved_plan_hash (applied now t c) refl refl refl refl refl refl;
    within = s.within;
    all_done = inl refl;
    pinned = inl refl;
  }
  applied-IsSound now c (paid r b l) = record {
    hashed = s.hashed;
    affordable = s.affordable;
    executed =
        status_Executed t.approved_plan_hash (applied now t c) refl (ground (arith, b))
          (ground (arith, b)) refl refl;
    within = omega (arith, l, length-append t.step_results (r ∷ []));
    all_done = inl (ground (arith, b));
    pinned = s.pinned;
  }
  applied-IsSound now c (all_paid b l) = record {
    hashed = s.hashed;
    affordable = s.affordable;
    executed =
        status_Executed t.approved_plan_hash (applied now t c) refl (ground (arith, b)) refl refl
          refl;
    within = omega (arith, l);
    all_done = inr l;
    pinned = ground (arith, s.pinned, b);
  }

-- One write of a row, by an operation that read the row as it stands.
pub data Write (books : Books) (t after : Task) : Type 0 where
  by_owner :
      (now : ℕ) (action : OwnerAction)
      → update_task books.task_plan_hash now t t action ≡ ok (some after)
      → Write books t after
  by_claim :
      (now : ℕ) (token worker : String)
      → claim_task now token worker t ≡ some after
      → Write books t after
  by_runner :
      (now : ℕ) (token : String) (action : RunnerAction)
      → update_runner_task books now token t t action ≡ ok (some after)
      → Write books t after

written :
    (now : ℕ) (token : String) (t after : Task) (m : Result String (Option Changes))
    (o : Option Changes)
    → m ≡ ok o
    → write_changes now token t t o ≡ ok (some after)
    → (c : Changes) × (m ≡ ok (some c)) × (applied now t c ≡ after)
unfolding write_changes
written now token t after m none found e' = cc
written now token t after m (some c) found e' = (c, found, ground arith)

module _ (books : Books) where
  reported :
      (now : ℕ) (token : String) (t after : Task) (action : RunnerAction)
      → update_runner_task books now token t t action ≡ ok (some after)
      → (c : Changes) × (changes_of books now t action ≡ ok (some c)) × (applied now t c ≡ after)
  unfolding update_runner_task
  reported now token t after action e = elim (Bool-cases (holds t.claim_token token)) [
    | inr other ↦ absurd (ground (arith, other))
    | inl held ↦
        let (o, found, e') = >>=-ok (changes_of books now t action) _ (rw held at e) in
        written now token t after (changes_of books now t action) o found e'
  ]

  pub Write-IsSound :
      (t after : Task)
      → IsSound books.task_plan_hash t
      → Write books t after
      → IsSound books.task_plan_hash after × Keeps t after
  unfolding update_task
  Write-IsSound t after s (by_owner now (approve h) e) = (
    approve_task-IsSound books.task_plan_hash now h t after e s,
    approve_task-Keeps books.task_plan_hash t s now h after e,
  )
  Write-IsSound t after s (by_owner now cancel e) = (
    cancel_task-IsSound books.task_plan_hash t after e s,
    cancel_task-Keeps books.task_plan_hash t s after e,
  )
  Write-IsSound t after s (by_owner now retry e) = (
    retry_task-IsSound books.task_plan_hash t after e s,
    retry_task-Keeps books.task_plan_hash t s after e,
  )
  Write-IsSound t after s (by_claim now token worker e) = (
    claim_task-IsSound books.task_plan_hash now token worker t after e s,
    claim_task-Keeps books.task_plan_hash t s now token worker after e,
  )
  Write-IsSound t after s (by_runner now token action e) =
      let (c, found, same) = reported now token t after action e in
      let allowed = changes_of-Allowed books now t c s action found in
      (
        subst (IsSound books.task_plan_hash) same
            (applied-IsSound books.task_plan_hash t s now c allowed),
        subst (Keeps t) same (applied-Keeps books.task_plan_hash t s now c allowed),
      )
