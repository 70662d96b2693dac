-- ===== src/Tasks/Plan.antt =====
-- `createTaskPlan` of src/lib/tasks/model.ts. What src/lib/economy/service-contract.ts and
-- `validateTemplate` find of a definition and of an input are the tests of a `Checker`.
use obolos.Prelude.{ℕ, ◌+◌, ◌*◌, ◌^◌, String, Bool, ◌&&◌, not, List, [], ◌∷◌, ◌++◌, Option}
use obolos.Prelude.{none, some, leb, ltb, ◌==◌, list_eq, nat_eq, if◌then◌else◌, length, find, all}
use obolos.Prelude.{is_hex_text}
use obolos.Engine.Create.{lower_codes}
use obolos.Tasks.{ServiceDefinition, PlanStep, TaskPlan}

pub record RawStep : Type 0 where
  pub service_hash : String
  pub input : String

pub record RawPlan : Type 0 where
  pub summary : String
  pub steps : List RawStep

pub record Checker : Type 0 where
  pub is_summary : String → Bool
  pub is_definition : ServiceDefinition → Bool
  pub is_template : String → ServiceDefinition → List ServiceDefinition → Bool

-- `rawPlan`
abbrev pub is_raw_plan : Checker → RawPlan → Bool
is_raw_plan checker raw =
    checker.is_summary raw.summary
    && (leb 1 (length raw.steps) && leb (length raw.steps) 5)
    && all (λ (s : RawStep). is_hex_text 64 s.service_hash) raw.steps

-- `taskAtomicSchema`
abbrev pub is_task_atomic : ℕ → Bool
is_task_atomic n = leb 1 n && ltb n (2 ^ 256)

abbrev pub registered : List ServiceDefinition → RawStep → Option ServiceDefinition
registered services step =
    find (λ s. lower_codes s.service_hash == lower_codes step.service_hash) services

abbrev pub price_of_service : ServiceDefinition → ℕ
price_of_service d = d.quantity * d.unit_price_atomic

-- The step that a definition makes, or `none` for what throws.
unfoldable pub plan_step :
    Checker → ℕ → List ServiceDefinition → ℕ → RawStep → Option ServiceDefinition → Option PlanStep
plan_step checker budget earlier total step none = none
plan_step checker budget earlier total step (some d) =
    if checker.is_definition d
      && checker.is_template step.input d earlier
      && not (ltb budget (total + price_of_service d))
    then some (record { service_hash = d.service_hash; definition = d; input = step.input })
    else none

-- The `map` over the steps, with the definitions and the total so far.
unfoldable pub plan_steps :
    Checker
    → List ServiceDefinition
    → ℕ
    → List ServiceDefinition
    → ℕ
    → List RawStep
    → Option (List PlanStep × ℕ)
unfolding plan_step
plan_steps checker services budget earlier total [] = some ([], total)
plan_steps checker services budget earlier total (step ∷ steps) =
    elim (plan_step checker budget earlier total step (registered services step)) [
      | none ↦ none
      | some s ↦
          elim (plan_steps checker services budget (earlier ++ s.definition ∷ [])
            (total + price_of_service s.definition) steps) [
              | none ↦ none
              | some rest ↦ some (s ∷ rest.0, rest.1)
            ]
    ]

unfoldable pub create_task_plan : Checker → List ServiceDefinition → ℕ → RawPlan → Option TaskPlan
unfolding plan_steps
create_task_plan checker services budget raw =
    if is_task_atomic budget && is_raw_plan checker raw
    then elim (plan_steps checker services budget [] 0 raw.steps) [
      | none ↦ none
      | some made ↦ some (record { summary = raw.summary; steps = made.0; total_atomic = made.1 })
    ]
    else none
