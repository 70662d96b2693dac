-- ===== src/Tasks/Tests.antt =====
-- One task of src/lib/platform/tasks.ts from its creation to its completion.
use obolos.Prelude.{◌≡◌, refl, List, [], ◌∷◌, some, none, ok, inl, is_hex_text, true}
use obolos.Tasks.{
  Task, TaskPlan, PlanStep, TaskStepResult, queued, needs_approval, approved, running, completed,
}
use obolos.Tasks.{ServiceDefinition}
use obolos.Tasks.Plan.{RawPlan, Checker, create_task_plan}
use obolos.Tasks.Affordable.{IsWithinBudget, create_task_plan-IsWithinBudget}
use obolos.Prelude.{Bool, String, ◌≤◌, arith}
use obolos.Tasks.Create.{TaskInput, TaskRow, TaskReply, replayed, create_task, new_row, new_task}
use obolos.Tasks.Create.{open_count}
use obolos.Tasks.Idempotent.{create_task_again, create_task-open_count}
use obolos.Tasks.Owner.{update_task, approve}
use obolos.Tasks.Claim.{claim_task, claimed}
use obolos.Tasks.Report.{
  result_discrete, Books, update_runner_task, submit_plan, progress, complete, applied,
}
use obolos.Tasks.Histories.{
  History, created, worker_claimed, runner_wrote, owner_wrote, IsNew, IsKept,
}
use obolos.Tasks.Histories.{History-IsKept}

abbrev service : ServiceDefinition
service = record {
  service_hash = "0x00000000000000000000000000000000000000000000000000000000000000Ab";
  quantity = 1;
  unit_price_atomic = 500;
  terms_hash = "terms";
}

abbrev step : PlanStep
step = record { service_hash = service.service_hash; definition = service; input = "{}" }

abbrev raw_plan : RawPlan
raw_plan = record {
  summary = "one call";
  steps =
      record {
        service_hash = "0x00000000000000000000000000000000000000000000000000000000000000aB";
        input = "{}";
      }
      ∷ [];
}

abbrev checker : Checker
checker = record {
  is_summary = λ s. true;
  is_definition = λ d. true;
  is_template = λ input d earlier. true;
}

abbrev plan : TaskPlan
plan = record { summary = "one call"; steps = step ∷ []; total_atomic = 500 }

abbrev result : TaskStepResult
result = record { index = 0; order_id = "order"; transaction_hash = "0x1"; output_hash = "0x2" }

abbrev books : Books
books = record {
  checker = checker;
  services = service ∷ [];
  task_plan_hash = λ p. p.summary;
  task_step_order_id = λ task hash index. "order";
  paid_step = λ task s index. ok result;
}

abbrev fresh : Task
fresh = record {
  id = "task";
  agent_id = "agent";
  instruction = "Translate the text.";
  budget_atomic = 1000;
  status = queued;
  plan = none;
  plan_hash = none;
  approved_plan_hash = none;
  approval_expires_at = none;
  step_results = [];
  error = none;
  claim_phase = none;
  claim_token = none;
  claim_worker = none;
  claim_until = none;
  execution_worker = none;
  revision = 0;
}

fresh-IsNew : IsNew fresh
fresh-IsNew = record {
  status = refl;
  plan = refl;
  plan_hash = refl;
  approved = refl;
  results = refl;
  worker = refl;
}

abbrev planning_task : Task
planning_task = claimed 10 "t" "w" fresh

abbrev proposed_task : Task
proposed_task = applied 20 planning_task (record {
  status = needs_approval;
  plan = some plan;
  plan_hash = some "one call";
  results = [];
  error = none;
})

abbrev approved_task : Task
approved_task = record proposed_task {
  status = approved;
  approved_plan_hash = some "one call";
  approval_expires_at = some 3600030;
  claim_until = none;
  error = none;
  revision = 3;
}

abbrev running_task : Task
running_task = claimed 40 "t" "w" approved_task

abbrev paid_task : Task
paid_task = applied 50 running_task (record {
  status = running;
  plan = some plan;
  plan_hash = some "one call";
  results = result ∷ [];
  error = none;
})

abbrev completed_task : Task
completed_task = record paid_task { status = completed; claim_until = some 120060; revision = 6 }

abbrev rows : List Task
rows =
    completed_task ∷ paid_task ∷ running_task ∷ approved_task ∷ proposed_task ∷ planning_task
    ∷ fresh ∷ []

rows-History : History books rows
unfolding update_task update_runner_task claim_task result_discrete is_hex_text
rows-History =
    runner_wrote paid_task 60 "t" complete
      (runner_wrote running_task 50 "t" (progress 0 "order")
        (worker_claimed 40 "t" "w"
          (owner_wrote proposed_task 30 (approve "one call")
            (runner_wrote planning_task 20 "t" (submit_plan raw_plan)
              (worker_claimed 10 "t" "w" (created fresh-IsNew) refl) (inl refl) refl)
            (inl refl) refl)
          refl)
        (inl refl) refl)
      (inl refl) refl

History-IsKept_example : IsKept books rows
History-IsKept_example = History-IsKept books rows-History

plan_lem : create_task_plan checker (service ∷ []) 1000 raw_plan ≡ some plan
unfolding create_task_plan is_hex_text
plan_lem = refl

create_task_plan-IsWithinBudget_example : IsWithinBudget checker (service ∷ []) 1000 plan
create_task_plan-IsWithinBudget_example =
    create_task_plan-IsWithinBudget checker (service ∷ []) 1000 raw_plan plan plan_lem

abbrev input : TaskInput
input = record { agent_id = "agent"; instruction = "Translate the text."; budget_atomic = 1000 }

abbrev request_hash : TaskInput → String
request_hash i = i.instruction

abbrev owns : String → String → Bool
owns user agent = true

abbrev created_rows : List TaskRow
created_rows = new_row request_hash owns "id" "user" "key" input ∷ []

create_lem :
    create_task request_hash owns [] "id" "user" (some "key") input
    ≡ TaskReply.created created_rows (new_task "id" input)
unfolding create_task
create_lem = refl

create_task_again_example :
    create_task request_hash owns created_rows "id2" "user" (some "key") input
    ≡ replayed (new_task "id" input)
create_task_again_example =
    create_task_again request_hash owns [] "id" "id2" "user" "key" input created_rows
      (new_task "id" input) create_lem

none_open : open_count "agent" [] ≤ 25
none_open = omega arith

create_task-open_count_example : open_count "agent" created_rows ≤ 25
create_task-open_count_example =
    create_task-open_count request_hash owns [] "id" "user" "agent" (some "key") input created_rows
      (new_task "id" input) create_lem none_open
