-- ===== src/Tasks/Reported.antt =====
-- `updateRunnerTask` of src/lib/platform/tasks.ts keeps a row sound.
use obolos.Prelude.{ℕ, zero, suc, ◌≤◌, ◌≡◌, refl, String, true, Option, none, some, arith, List}
use obolos.Prelude.{[], ◌∷◌, ◌++◌, length, get_elem?, ok, string_eq, ◌==◌, >>=-ok}
use obolos.Prelude.{throw_if-ok, throw_if, ltb, ◌||◌, not, subst, inl, inr, Result}
use obolos.Tasks.{Task, TaskPlan, PlanStep, TaskStepResult}
use obolos.Tasks.{planning, needs_approval, running, completed, blocked}
use obolos.Tasks.Report.{
  Books, RunnerAction, submit_plan, progress, complete, report_blocked, Changes,
}
use obolos.Tasks.Report.{changes_of, accept_plan, accept_progress}
use obolos.Tasks.Report.{
  text_or_null, check_results, may_plan, may_execute, may_block, accept_complete, record_step,
  verified_step, steps_of, step_at,
}
use obolos.Tasks.Sound.{IsSound}
use obolos.Tasks.Sound.{Affordable}
use obolos.Tasks.Plan.{RawPlan, create_task_plan}
use obolos.Tasks.Affordable.{create_task_plan-IsWithinBudget}
use obolos.Prelude.{Bool-cases, nat_eq, ◌<◌}
use obolos.Contracts.{has_passed}
use obolos.Tasks.{task_status_eq}

-- The changes that the handler of a runner's report lets through.
pub data Allowed (hash : TaskPlan → String) (t : Task) : Changes → Type 0 where
  proposed :
      (p : TaskPlan)
      → t.status ≡ planning
      → p.total_atomic ≤ t.budget_atomic
      → Allowed hash t (record {
        status = needs_approval;
        plan = some p;
        plan_hash = some (hash p);
        results = t.step_results;
        error = none;
      })
  stopped :
      (message : String)
      → may_block t.status ≡ true
      → Allowed hash t (record {
        status = blocked;
        plan = t.plan;
        plan_hash = t.plan_hash;
        results = t.step_results;
        error = some message;
      })
  paid :
      (r : TaskStepResult)
      → t.status ≡ running
      → length t.step_results < length (steps_of t.plan)
      → Allowed hash t (record {
        status = t.status;
        plan = t.plan;
        plan_hash = t.plan_hash;
        results = t.step_results ++ r ∷ [];
        error = none;
      })
  all_paid :
      may_execute t.status ≡ true
      → length t.step_results ≡ length (steps_of t.plan)
      → Allowed hash t (record {
        status = completed;
        plan = t.plan;
        plan_hash = t.plan_hash;
        results = t.step_results;
        error = none;
      })

some_injective :
    {A : Type 0} (a b : A) → ◌≡◌ {A = Result String (Option A)} (ok (some a)) (ok (some b)) → a ≡ b
some_injective a b e = cc

get_elem?-some :
    {A : Type 0} (xs : List A) (i : ℕ) (a : A) → get_elem? xs i ≡ some a → suc i ≤ length xs
get_elem?-some [] i a h = cc
get_elem?-some (x ∷ xs) zero a h = omega arith
get_elem?-some (x ∷ xs) (suc i) a h = omega (arith, get_elem?-some xs i a h)

get_elem?-none : {A : Type 0} (xs : List A) (i : ℕ) → get_elem? xs i ≡ none → length xs ≤ i
get_elem?-none [] i h = omega arith
get_elem?-none (x ∷ xs) zero h = cc
get_elem?-none (x ∷ xs) (suc i) h = omega (arith, get_elem?-none xs i h)

step_at-some :
    (books : Books) (o : Option PlanStep) (t : Task) (i : ℕ) (r : TaskStepResult)
    → step_at books o t i ≡ ok r
    → (step : PlanStep) × (o ≡ some step)
step_at-some books none t i r e = cc
step_at-some books (some step) t i r e = (step, refl)

verified_step-within :
    (books : Books) (t : Task) (i : ℕ) (r : TaskStepResult)
    → verified_step books t i ≡ ok r
    → suc i ≤ length (steps_of t.plan)
unfolding verified_step
verified_step-within books t i r e =
    let (step, found) = step_at-some books (get_elem? (steps_of t.plan) i) t i r (ground arith) in
    get_elem?-some (steps_of t.plan) i step found

module _ (books : Books) (now : ℕ) (t : Task) (c : Changes)
    (s : IsSound books.task_plan_hash t) where
  accept_plan-Allowed :
      (p : Option TaskPlan)
      → may_plan t.status ≡ true
      → Affordable t.budget_atomic p
      → accept_plan books now t p ≡ ok (some c)
      → Allowed books.task_plan_hash t c
  unfolding accept_plan
  accept_plan-Allowed none m a e = cc
  accept_plan-Allowed (some p) m a e = elim (Bool-cases (t.status == needs_approval)) [
    | inl again ↦ absurd (ground (arith, again))
    | inr new ↦ elim (Bool-cases (has_passed t.claim_until now)) [
      | inl late ↦ absurd (ground (arith, new, late))
      | inr leased ↦
          subst (Allowed books.task_plan_hash t) (some_injective _ c (rw (new, leased) at e))
            (proposed p (ground (arith, new)) a)
    ]
  ]

  record_step-Allowed :
      (i : ℕ) (o : Option TaskStepResult) (r : TaskStepResult)
      → get_elem? t.step_results i ≡ o
      → i ≤ length t.step_results
      → suc i ≤ length (steps_of t.plan)
      → may_execute t.status ≡ true
      → record_step books t i o r ≡ ok (some c)
      → Allowed books.task_plan_hash t c
  unfolding record_step
  record_step-Allowed i (some old) r found le within m e = absurd (ground arith)
  record_step-Allowed i none r found le within m e =
      let past = get_elem?-none t.step_results i found in
      subst (Allowed books.task_plan_hash t) (some_injective _ c e)
        (paid r (ground (arith, s.all_done, past)) (omega (arith, past, le, within)))

  accept_progress-Allowed :
      (i : ℕ) (order_id : String)
      → may_execute t.status ≡ true
      → accept_progress books t i order_id ≡ ok (some c)
      → Allowed books.task_plan_hash t c
  unfolding accept_progress
  accept_progress-Allowed i order_id m e =
      let (u, near, e1) =
        >>=-ok
          (throw_if
            (ltb (length t.step_results) i
              || not (order_id == books.task_step_order_id t.id (text_or_null t.plan_hash) i))
            "Progress must identify the next deterministic approved order.")
          _ e in
      let (r, found, e2) = >>=-ok (verified_step books t i) _ e1 in
      record_step-Allowed i (get_elem? t.step_results i) r refl
        (ground (arith, throw_if-ok _ _ near)) (verified_step-within books t i r found) m e2

  accept_complete-Allowed :
      may_execute t.status ≡ true
      → accept_complete books t ≡ ok (some c)
      → Allowed books.task_plan_hash t c
  unfolding accept_complete
  accept_complete-Allowed m e =
      let (u, even, e1) =
        >>=-ok
          (throw_if (not (length t.step_results == length (steps_of t.plan)))
            "Every approved step must have a verified paid result.")
          _ e in
      let (u', checked, e2) = >>=-ok (check_results books t 0 t.step_results) _ e1 in
      subst (Allowed books.task_plan_hash t) (some_injective _ c e2)
        (all_paid m (ground (arith, throw_if-ok _ _ even)))

  created-Affordable :
      (raw : RawPlan) (o : Option TaskPlan)
      → create_task_plan books.checker books.services t.budget_atomic raw ≡ o
      → Affordable t.budget_atomic o
  created-Affordable raw none e = tt
  created-Affordable raw (some p) e =
      let made =
        create_task_plan-IsWithinBudget books.checker books.services t.budget_atomic raw p e in
      made.affordable

  pub changes_of-Allowed :
      (action : RunnerAction)
      → changes_of books now t action ≡ ok (some c)
      → Allowed books.task_plan_hash t c
  unfolding changes_of
  changes_of-Allowed (submit_plan raw) e =
      let made = create_task_plan books.checker books.services t.budget_atomic raw in
      accept_plan-Allowed made (ground arith) (created-Affordable raw made refl) (ground arith)
  changes_of-Allowed (report_blocked message) e = elim (Bool-cases (may_block t.status)) [
    | inl may ↦
        subst (Allowed books.task_plan_hash t) (some_injective _ c (rw may at e))
          (stopped message may)
    | inr may_not ↦ absurd (ground (arith, may_not))
  ]
  changes_of-Allowed (progress i order_id) e =
      accept_progress-Allowed i order_id (ground arith) (ground arith)
  changes_of-Allowed complete e = accept_complete-Allowed (ground arith) (ground arith)
