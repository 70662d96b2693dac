-- ===== src/Tasks/Create.antt =====
-- `createTask` of src/lib/platform/tasks.ts, on the rows of the table platform_tasks, the newest
-- first. SHA-256 over the canonical JSON of the request, and whether the user owns the agent, are
-- parameters.
use obolos.Prelude.{ℕ, String, Bool, ◌&&◌, ◌||◌, not, List, [], ◌∷◌}
use obolos.Prelude.{
  Option, none, some, leb, ltb, ◌==◌, string_eq, if◌then◌else◌, length, keep, find, all,
}
use obolos.Prelude.{codes}
use obolos.Tasks.{Task, queued, completed, cancelled, task_status_eq}
use obolos.Tasks.Plan.{is_task_atomic}

pub record TaskRow : Type 0 where
  pub user_id : String
  pub idempotency_key : String
  pub request_hash : String
  pub task : Task

-- The request, its instruction trimmed.
pub record TaskInput : Type 0 where
  pub agent_id : String
  pub instruction : String
  pub budget_atomic : ℕ

pub data TaskReply : Type 0 where
  created : List TaskRow → Task → TaskReply
  replayed : Task → TaskReply
  refused : String → TaskReply

-- /^[\x21-\x7e]{1,128}$/
abbrev pub is_key_codes : List ℕ → Bool
is_key_codes cs = all (λ c. leb 33 c && leb c 126) cs && leb 1 (length cs) && leb (length cs) 128

abbrev pub is_task_input : TaskInput → Bool
is_task_input input =
    leb 1 (length (codes input.instruction))
    && leb (length (codes input.instruction)) 12000
    && is_task_atomic input.budget_atomic

abbrev pub is_open_for : String → TaskRow → Bool
is_open_for agent row =
    row.task.agent_id == agent && not (row.task.status == completed || row.task.status == cancelled)

abbrev pub open_count : String → List TaskRow → ℕ
open_count agent rows = length (keep (is_open_for agent) rows)

abbrev pub has_key : String → String → String → TaskRow → Bool
has_key user agent key row =
    row.user_id == user && row.task.agent_id == agent && row.idempotency_key == key

abbrev pub new_task : String → TaskInput → Task
new_task id input = record {
  id = id;
  agent_id = input.agent_id;
  instruction = input.instruction;
  budget_atomic = input.budget_atomic;
  status = queued;
  plan = none;
  plan_hash = none;
  approved_plan_hash = none;
  approval_expires_at = none;
  step_results = [];
  error = none;
  claim_phase = none;
  claim_token = none;
  claim_worker = none;
  claim_until = none;
  execution_worker = none;
  revision = 0;
}

module _ (request_hash : TaskInput → String) (owns : String → String → Bool) where
  abbrev pub new_row : String → String → String → TaskInput → TaskRow
  new_row id user key input = record {
    user_id = user;
    idempotency_key = key;
    request_hash = request_hash input;
    task = new_task id input;
  }

  -- The `INSERT`, with the rows that the agent's lock shows.
  unfoldable pub insert_task :
      List TaskRow → String → String → String → TaskInput → Option TaskRow → TaskReply
  insert_task rows id user key input (some row) =
      if row.request_hash == request_hash input
      then replayed row.task
      else refused "This Idempotency-Key already belongs to a different request."
  insert_task rows id user key input none =
      if ltb (open_count input.agent_id rows) 25
      then created (new_row id user key input ∷ rows) (new_task id input)
      else refused "This agent has 25 open tasks. Finish or cancel an existing task first."

  unfoldable pub create_task :
      List TaskRow → String → String → Option String → TaskInput → TaskReply
  unfolding insert_task
  create_task rows id user none input = refused (
      if is_task_input input
      then "Provide a stable Idempotency-Key for this task."
      else "Invalid request.")
  create_task rows id user (some key) input =
      if not (is_task_input input)
      then refused "Invalid request."
      else if not (is_key_codes (codes key))
      then refused "Provide a stable Idempotency-Key for this task."
      else if not (owns user input.agent_id)
      then refused "Agent not found."
      else insert_task rows id user key input (find (has_key user input.agent_id key) rows)
