-- ===== src/Tasks/Sound.antt =====
-- What every row of a task keeps: the operations of src/lib/platform/tasks.ts preserve it.
use obolos.Prelude.{ℕ, ◌≤◌, ◌≡◌, refl, String, Bool, true, false, Option, none, some, arith}
use obolos.Prelude.{[], length, ok, string_eq}
use obolos.Prelude.{◌||◌, subst, ◌⊎◌, inl}
use obolos.Tasks.{Task, TaskPlan, TaskStatus, is_null}
use obolos.Tasks.{queued, planning, needs_approval, approved, running, completed}
use obolos.Tasks.Owner.{approve_task, cancel_task, retry_task}
use obolos.Tasks.Claim.{claim_task, claimed, awaits_plan, awaits_execution}
use obolos.Tasks.Report.{steps_of}

abbrev pub before_approval : TaskStatus → Bool
before_approval queued = true
before_approval planning = true
before_approval needs_approval = true
before_approval _ = false

abbrev pub after_approval : TaskStatus → Bool
after_approval approved = true
after_approval running = true
after_approval completed = true
after_approval _ = false

abbrev pub is_running : TaskStatus → Bool
is_running running = true
is_running completed = true
is_running _ = false

abbrev pub is_completed : TaskStatus → Bool
is_completed completed = true
is_completed _ = false

-- The stored hash is the plan's own.
abbrev pub Hashed : (TaskPlan → String) → Option TaskPlan → Option String → Type 0
Hashed hash none h = h ≡ none
Hashed hash (some p) h = h ≡ some (hash p)

-- Without an approval nothing was executed; with one, it is of the plan that stands in the row.
abbrev pub Executed : Task → Option String → Type 0
Executed t none =
    (t.step_results ≡ []) × (t.execution_worker ≡ none) × (after_approval t.status ≡ false)
Executed t (some h) =
    (t.plan_hash ≡ some h)
    × (before_approval t.status ≡ false)
    × (is_null t.approval_expires_at ≡ false)

-- The plan in the row is within the task's budget.
abbrev pub Affordable : ℕ → Option TaskPlan → Type 0
Affordable budget none = Unit
Affordable budget (some p) = p.total_atomic ≤ budget

pub record IsSound (hash : TaskPlan → String) (t : Task) : Type 0 where
  pub hashed : Hashed hash t.plan t.plan_hash
  pub affordable : Affordable t.budget_atomic t.plan
  pub executed : Executed t t.approved_plan_hash
  pub within : length t.step_results ≤ length (steps_of t.plan)
  pub all_done : is_completed t.status ≡ false ⊎ (length t.step_results ≡ length (steps_of t.plan))
  pub pinned : is_running t.status ≡ false ⊎ (is_null t.execution_worker ≡ false)

module _ (hash : TaskPlan → String) where
  pub approve_task-IsSound :
      (now : ℕ) (h : String) (t after : Task)
      → approve_task hash now h t t ≡ ok (some after)
      → IsSound hash t
      → IsSound hash after
  unfolding approve_task
  approve_task-IsSound now h t after e s = ground (arith, s)

  pub cancel_task-IsSound :
      (t after : Task) → cancel_task t t ≡ ok (some after) → IsSound hash t → IsSound hash after
  unfolding cancel_task
  cancel_task-IsSound t after e s = ground (arith, s)

  pub retry_task-IsSound :
      (t after : Task) → retry_task t t ≡ ok (some after) → IsSound hash t → IsSound hash after
  unfolding retry_task
  retry_task-IsSound t after e s = ground (arith, s)

  pub claimed_row :
      (now : ℕ) (token worker : String) (t after : Task)
      → claim_task now token worker t ≡ some after
      → ((awaits_plan t.status || awaits_execution t.status) ≡ true)
        × (claimed now token worker t ≡ after)
  unfolding claim_task
  claimed_row now token worker t after e = (ground arith, ground arith)

  claimed-Executed :
      (now : ℕ) (token worker : String) (t : Task) (h : Option String)
      → t.approved_plan_hash ≡ h
      → (awaits_plan t.status || awaits_execution t.status) ≡ true
      → Executed t h
      → Executed (claimed now token worker t) h
  claimed-Executed now token worker t none same o s = ground arith
  claimed-Executed now token worker t (some h) same o s = ground arith

  pub claim_task-IsSound :
      (now : ℕ) (token worker : String) (t after : Task)
      → claim_task now token worker t ≡ some after
      → IsSound hash t
      → IsSound hash after
  unfolding claim_task
  claim_task-IsSound now token worker t after e s =
      let (open_status, written) = claimed_row now token worker t after e in
      subst (IsSound hash) written (record {
        hashed = s.hashed;
        affordable = s.affordable;
        executed =
            claimed-Executed now token worker t t.approved_plan_hash refl open_status s.executed;
        within = s.within;
        all_done = inl (ground arith);
        pinned = ground arith;
      })
