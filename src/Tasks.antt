-- ===== src/Tasks.antt =====
-- src/lib/tasks/model.ts and src/lib/platform/tasks.ts: a general task, as its row of the table
-- platform_tasks, and the operations of its owner and of its runner. An operation reads the row, and
-- writes it if the row that stands then has the revision that was read.
pub mod Plan
pub mod Affordable
pub mod Owner
pub mod Claim
pub mod Report
pub mod Sound
pub mod Reported
pub mod Kept
pub mod Writes
pub mod Histories
pub mod Create
pub mod Idempotent
pub mod Tests
use obolos.Prelude.{
  ℕ, String, Bool, true, false, List, Option, none, some, Eq, ◌==◌, nat_beq, arith,
}
use obolos.Prelude.{◌≡◌, ◌↔◌, Result, ok, err, string_eq, nat_eq, discrete_eq, string_discrete}

pub data TaskStatus : Type 0 where
  queued planning needs_approval approved running completed blocked cancelled : TaskStatus

pub data ClaimPhase : Type 0 where
  plan execute : ClaimPhase

-- The terms of a service that a plan depends on; the rest by the hash of its canonical JSON.
pub record ServiceDefinition : Type 0 where
  pub service_hash : String
  pub quantity : ℕ
  pub unit_price_atomic : ℕ
  pub terms_hash : String

-- The input is the text of its canonical JSON.
pub record PlanStep : Type 0 where
  pub service_hash : String
  pub definition : ServiceDefinition
  pub input : String

pub record TaskPlan : Type 0 where
  pub summary : String
  pub steps : List PlanStep
  pub total_atomic : ℕ

-- The output of a step is known by its canonical hash.
pub record TaskStepResult : Type 0 where
  pub index : ℕ
  pub order_id : String
  pub transaction_hash : String
  pub output_hash : String

pub record Task : Type 0 where
  pub id : String
  pub agent_id : String
  pub instruction : String
  pub budget_atomic : ℕ
  pub status : TaskStatus
  pub plan : Option TaskPlan
  pub plan_hash : Option String
  pub approved_plan_hash : Option String
  pub approval_expires_at : Option ℕ
  pub step_results : List TaskStepResult
  pub error : Option String
  pub claim_phase : Option ClaimPhase
  pub claim_token : Option String
  pub claim_worker : Option String
  pub claim_until : Option ℕ
  pub execution_worker : Option String
  pub revision : ℕ

-- What an operation answers: the row that it wrote, `none` if it wrote nothing, or its error.
abbrev pub Answer : Type 0
Answer = Result String (Option Task)

abbrev status_rank : TaskStatus → ℕ
status_rank queued = 0
status_rank planning = 1
status_rank needs_approval = 2
status_rank approved = 3
status_rank running = 4
status_rank completed = 5
status_rank blocked = 6
status_rank cancelled = 7

pub status_rank_iff :
    (a b : TaskStatus) → (nat_beq (status_rank a) (status_rank b) ≡ true) ↔ (a ≡ b)
status_rank_iff a b = ground arith

instance abbrev pub task_status_eq : Eq TaskStatus
task_status_eq = record {
  same = λ a b. nat_beq (status_rank a) (status_rank b);
  same_iff = status_rank_iff;
}

-- SQL's `column = value`, which NULL fails, and `column IS NULL`.
abbrev pub holds : Option String → String → Bool
holds none value = false
holds (some s) value = s == value

abbrev pub is_null {ℓ} : {A : Type ℓ} → Option A → Bool
is_null none = true
is_null (some a) = false
