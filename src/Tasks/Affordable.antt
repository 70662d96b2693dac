-- ===== src/Tasks/Affordable.antt =====
-- What a plan of src/lib/tasks/model.ts promises its owner.
use obolos.Prelude.{ℕ, ◌+◌, ◌≤◌, ◌≡◌, refl, true, not, List, [], ◌∷◌, ◌++◌}
use obolos.Prelude.{Option, none, some, ltb, ◌&&◌, list_eq, nat_eq, length, arith, All, sum_of}
use obolos.Prelude.{subst, Option-cases, Bool-cases, inl, inr}
use obolos.Tasks.{ServiceDefinition, PlanStep, TaskPlan}
use obolos.Tasks.Plan.{
  RawStep, RawPlan, Checker, registered, price_of_service, plan_step, plan_steps,
}
use obolos.Tasks.Plan.{create_task_plan, is_task_atomic, is_raw_plan}

abbrev pub step_price : PlanStep → ℕ
step_price s = price_of_service s.definition

-- A step is of a service in the catalogue that passed the checks.
pub record IsRegistered (checker : Checker) (services : List ServiceDefinition) (s : PlanStep)
    : Type 0 where
  pub listed : (raw : RawStep) × (registered services raw ≡ some s.definition)
  pub valid : checker.is_definition s.definition ≡ true
  pub same_hash : s.service_hash ≡ s.definition.service_hash

pub record IsWithinBudget (checker : Checker) (services : List ServiceDefinition) (budget : ℕ)
    (p : TaskPlan) : Type 0 where
  pub total : p.total_atomic ≡ sum_of step_price p.steps
  pub affordable : p.total_atomic ≤ budget
  pub some_step : 1 ≤ length p.steps
  pub at_most_five : length p.steps ≤ 5
  pub registered_steps : All (IsRegistered checker services) p.steps

plan_step-IsRegistered :
    (checker : Checker) (services : List ServiceDefinition) (budget total : ℕ)
    (earlier : List ServiceDefinition) (raw : RawStep) (o : Option ServiceDefinition) (s : PlanStep)
    → registered services raw ≡ o
    → plan_step checker budget earlier total raw o ≡ some s
    → IsRegistered checker services s × (total + step_price s ≤ budget)
unfolding plan_step
plan_step-IsRegistered checker services budget total earlier raw none s found e = cc
plan_step-IsRegistered checker services budget total earlier raw (some d) s found e =
    elim (Bool-cases (
      checker.is_definition d
      && checker.is_template raw.input d earlier
      && not (ltb budget (total + price_of_service d)))) [
        | inl good ↦
            let same : record { service_hash = d.service_hash; definition = d; input = raw.input }
                ≡ s =
              ground (arith, good) in
            subst (λ s. IsRegistered checker services s × (total + step_price s ≤ budget)) same
              (
                record { listed = (raw, found); valid = ground (arith, good); same_hash = refl },
                ground (arith, good),
              )
        | inr bad ↦ absurd (ground (arith, bad))
      ]

-- What the loop over the steps promises, from a total on.
record IsMade (checker : Checker) (services : List ServiceDefinition) (budget total : ℕ)
    (raw : List RawStep) (made : List PlanStep × ℕ) : Type 0 where
  sum : made.1 ≡ total + sum_of step_price made.0
  within : total ≤ budget → made.1 ≤ budget
  one_each : length made.0 ≡ length raw
  checked : All (IsRegistered checker services) made.0

plan_steps-IsMade :
    (checker : Checker) (services : List ServiceDefinition) (budget : ℕ)
    (earlier : List ServiceDefinition) (total : ℕ) (raw : List RawStep) (made : List PlanStep × ℕ)
    → plan_steps checker services budget earlier total raw ≡ some made
    → IsMade checker services budget total raw made
unfolding plan_steps
plan_steps-IsMade checker services budget earlier total [] made e =
    let same : ([], total) ≡ made = cc in
    subst (IsMade checker services budget total []) same
      (record { sum = omega arith; within = λ h. h; one_each = refl; checked = tt })
plan_steps-IsMade checker services budget earlier total (r ∷ raw) made e =
    elim (Option-cases (plan_step checker budget earlier total r (registered services r))) [
      | inl nothing ↦ absurd (ground (arith, rw (plan_steps, nothing) at e))
      | inr (s, first) ↦
          let rest_of =
            plan_steps checker services budget (earlier ++ s.definition ∷ [])
              (total + price_of_service s.definition) raw in
          let e' = rw (plan_steps, first) at e in
          elim (Option-cases rest_of) [
            | inl nothing ↦ absurd (ground (arith, rw nothing at e'))
            | inr (rest, more) ↦
                let (step_fine, fits) =
                  plan_step-IsRegistered checker services budget total earlier r
                    (registered services r) s refl first in
                let rest_fine =
                  plan_steps-IsMade checker services budget (earlier ++ s.definition ∷ [])
                    (total + price_of_service s.definition) raw rest more in
                let same : (s ∷ rest.0, rest.1) ≡ made = ground (arith, rw more at e') in
                subst (IsMade checker services budget total (r ∷ raw)) same (record {
                  sum = omega (arith, rest_fine.sum);
                  within = λ _. rest_fine.within fits;
                  one_each = omega (arith, rest_fine.one_each);
                  checked = (step_fine, rest_fine.checked);
                })
          ]
    ]

-- A plan that `createTaskPlan` makes has one to five steps, each of a registered service that passed
-- its check, and its total is the sum of their prices and within the budget of the task.
pub create_task_plan-IsWithinBudget :
    (checker : Checker) (services : List ServiceDefinition) (budget : ℕ) (raw : RawPlan)
    (p : TaskPlan)
    → create_task_plan checker services budget raw ≡ some p
    → IsWithinBudget checker services budget p
unfolding create_task_plan
create_task_plan-IsWithinBudget checker services budget raw p e =
    elim (Bool-cases (is_task_atomic budget && is_raw_plan checker raw)) [
      | inr bad ↦ absurd (ground (arith, rw bad at e))
      | inl good ↦
          let e' = rw good at e in
          elim (Option-cases (plan_steps checker services budget [] 0 raw.steps)) [
            | inl nothing ↦ absurd (ground (arith, rw nothing at e'))
            | inr (made, found) ↦
                let m = plan_steps-IsMade checker services budget [] 0 raw.steps made found in
                let same : record { summary = raw.summary; steps = made.0; total_atomic = made.1 }
                    ≡ p =
                  ground (arith, rw found at e') in
                subst (IsWithinBudget checker services budget) same (record {
                  total = omega (arith, m.sum);
                  affordable = m.within (omega arith);
                  some_step = ground (arith, m.one_each, good);
                  at_most_five = ground (arith, m.one_each, good);
                  registered_steps = m.checked;
                })
          ]
    ]
