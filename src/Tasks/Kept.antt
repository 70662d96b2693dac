-- ===== src/Tasks/Kept.antt =====
-- What one write of src/lib/platform/tasks.ts never changes in a row: the approved plan, the worker
-- that executes it, the results that stand, and the end of the task.
use obolos.Prelude.{ℕ, ◌≡◌, refl, String, Bool, true, false, Option, none, some, arith, List}
use obolos.Prelude.{[], ◌∷◌, ◌++◌, ok, string_eq}
use obolos.Prelude.{subst, ◌⊎◌, inl, inr}
use obolos.Tasks.{Task, TaskPlan, TaskStepResult, TaskStatus}
use obolos.Tasks.{needs_approval, completed, cancelled}
use obolos.Tasks.Owner.{approve_task, cancel_task, retry_task}
use obolos.Tasks.Claim.{claim_task, claimed}
use obolos.Tasks.Report.{Changes}
use obolos.Tasks.Report.{applied}
use obolos.Tasks.Sound.{IsSound, before_approval}
use obolos.Prelude.{nat_eq, ◌<◌}
use obolos.Tasks.{task_status_eq}
use obolos.Tasks.Reported.{Allowed, proposed, stopped, paid, all_paid}
use obolos.Tasks.Sound.{claimed_row}

abbrev pub is_over : TaskStatus → Bool
is_over completed = true
is_over cancelled = true
is_over _ = false

abbrev pub KeepsPlan : Option String → Task → Task → Type 0
KeepsPlan none t after = Unit
KeepsPlan (some h) t after =
    (after.approved_plan_hash ≡ some h)
    × (after.plan ≡ t.plan)
    × (after.plan_hash ≡ t.plan_hash)
    × (after.approval_expires_at ≡ t.approval_expires_at)

abbrev pub KeepsWorker : Option String → Task → Type 0
KeepsWorker none after = Unit
KeepsWorker (some w) after = after.execution_worker ≡ some w

pub record Keeps (t after : Task) : Type 0 where
  pub terms :
      (after.id ≡ t.id)
      × (after.agent_id ≡ t.agent_id)
      × (after.instruction ≡ t.instruction)
      × (after.budget_atomic ≡ t.budget_atomic)
  pub approval : KeepsPlan t.approved_plan_hash t after
  pub worker : KeepsWorker t.execution_worker after
  pub results : (more : List TaskStepResult) × (after.step_results ≡ t.step_results ++ more)
  pub over : is_over t.status ≡ false ⊎ (after.status ≡ t.status)
  pub newer : t.revision < after.revision

no_more : (xs : List TaskStepResult) → xs ≡ xs ++ []
no_more [] = refl
no_more (x ∷ xs) = ground (arith, no_more xs)

same_worker : (w : Option String) (after : Task) → after.execution_worker ≡ w → KeepsWorker w after
same_worker none after e = tt
same_worker (some v) after e = e

same_plan :
    (h : Option String) (t after : Task)
    → after.approved_plan_hash ≡ h
    → after.plan ≡ t.plan
    → after.plan_hash ≡ t.plan_hash
    → after.approval_expires_at ≡ t.approval_expires_at
    → KeepsPlan h t after
same_plan none t after e p q x = tt
same_plan (some v) t after e p q x = (e, p, q, x)

-- A row before its approval keeps no plan yet.
early_plan :
    (hash : TaskPlan → String) (h : Option String) (t after : Task)
    → t.approved_plan_hash ≡ h
    → IsSound hash t
    → before_approval t.status ≡ true
    → KeepsPlan h t after
early_plan hash none t after e s b = tt
early_plan hash (some v) t after e s b = absurd (ground (arith, s.executed, e))

module _ (hash : TaskPlan → String) (t : Task) (s : IsSound hash t) where
  pub approve_task-Keeps :
      (now : ℕ) (h : String) (after : Task)
      → approve_task hash now h t t ≡ ok (some after)
      → Keeps t after
  unfolding approve_task
  approve_task-Keeps now h after e =
      let was : t.status ≡ needs_approval = ground arith in
      record {
        terms = ground arith;
        approval = early_plan hash t.approved_plan_hash t after refl s (ground (arith, was));
        worker = same_worker t.execution_worker after (ground arith);
        results = ([], ground (arith, no_more t.step_results));
        over = inl (ground (arith, was));
        newer = ground arith;
      }

  pub cancel_task-Keeps : (after : Task) → cancel_task t t ≡ ok (some after) → Keeps t after
  unfolding cancel_task
  cancel_task-Keeps after e = record {
    terms = ground arith;
    approval =
        same_plan t.approved_plan_hash t after (ground arith) (ground arith) (ground arith)
          (ground arith);
    worker = same_worker t.execution_worker after (ground arith);
    results = ([], ground (arith, no_more t.step_results));
    over = inl (ground arith);
    newer = ground arith;
  }

  pub retry_task-Keeps : (after : Task) → retry_task t t ≡ ok (some after) → Keeps t after
  unfolding retry_task
  retry_task-Keeps after e = record {
    terms = ground arith;
    approval =
        same_plan t.approved_plan_hash t after (ground arith) (ground arith) (ground arith)
          (ground arith);
    worker = same_worker t.execution_worker after (ground arith);
    results = ([], ground (arith, no_more t.step_results));
    over = inl (ground arith);
    newer = ground arith;
  }

  claimed_worker :
      (now : ℕ) (token worker : String) (w : Option String)
      → t.execution_worker ≡ w
      → KeepsWorker w (claimed now token worker t)
  claimed_worker now token worker none e = tt
  claimed_worker now token worker (some v) e = ground arith

  pub claim_task-Keeps :
      (now : ℕ) (token worker : String) (after : Task)
      → claim_task now token worker t ≡ some after
      → Keeps t after
  claim_task-Keeps now token worker after e =
      let (open_status, written) = claimed_row hash now token worker t after e in
      subst (Keeps t) written (record {
        terms = (refl, refl, refl, refl);
        approval = same_plan t.approved_plan_hash t _ refl refl refl refl;
        worker = claimed_worker now token worker t.execution_worker refl;
        results = ([], no_more t.step_results);
        over = inl (ground arith);
        newer = omega arith;
      })

  pub applied-Keeps : (now : ℕ) (c : Changes) → Allowed hash t c → Keeps t (applied now t c)
  applied-Keeps now c (proposed p b a) = record {
    terms = (refl, refl, refl, refl);
    approval = early_plan hash t.approved_plan_hash t _ refl s (ground (arith, b));
    worker = same_worker t.execution_worker _ refl;
    results = ([], no_more t.step_results);
    over = inl (ground (arith, b));
    newer = omega arith;
  }
  applied-Keeps now c (stopped message b) = record {
    terms = (refl, refl, refl, refl);
    approval = same_plan t.approved_plan_hash t _ refl refl refl refl;
    worker = same_worker t.execution_worker _ refl;
    results = ([], no_more t.step_results);
    over = inl (ground (arith, b));
    newer = omega arith;
  }
  applied-Keeps now c (paid r b l) = record {
    terms = (refl, refl, refl, refl);
    approval = same_plan t.approved_plan_hash t _ refl refl refl refl;
    worker = same_worker t.execution_worker _ refl;
    results = (r ∷ [], refl);
    over = inr refl;
    newer = omega arith;
  }
  applied-Keeps now c (all_paid b l) = record {
    terms = (refl, refl, refl, refl);
    approval = same_plan t.approved_plan_hash t _ refl refl refl refl;
    worker = same_worker t.execution_worker _ refl;
    results = ([], no_more t.step_results);
    over = ground (arith, b);
    newer = omega arith;
  }
