-- ===== src/Executor.antt =====
-- The data of lib/economy/executor.ts and scripts/economy-circle.ts: one order that is approved, paid,
-- delivered and acknowledged, with the files that a crash leaves behind.
pub mod Operations
pub mod Stages
pub mod Run
pub mod Frames
pub mod Refresh
pub mod Submits
pub mod InStep
pub mod GivenUp
pub mod Paid
pub mod Finished
pub mod Opened
pub mod Directory
pub mod Reached
mod Tests
use obolos.Prelude.{ℕ, String, Bool, List, Option, Result, ok, err, ◌==◌, string_eq, if◌then◌else◌}
use obolos.Stateful.{Stateful, lift}

pub data ExecutorAction : Type 0 where
  approve pay ack abort : ExecutorAction

pub data ExecutorPhase : Type 0 where
  prepared approving approved paying paid delivered acknowledging completed aborting aborted :
      ExecutorPhase

-- What Circle says of a transaction.
pub record CircleResult : Type 0 where
  pub id : Option String
  pub idempotency_key : Option String
  pub state : Option String
  pub blockchain : Option String
  pub tx_hash : Option String
  pub user_op_hash : Option String
  pub source_address : Option String

pub data OperationStatus : Type 0 where
  submitting uncertain submitted failed : OperationStatus

-- `Operation`, whose name is that of its file.
pub record Operation : Type 0 where
  pub intent_hash : String
  pub idempotency_key : String
  pub status : OperationStatus
  pub result : Option CircleResult

-- A file of JSON: not there, not readable, or its contents.
pub data File (A : Type 0) : Type 0 where
  missing unreadable : File A
  contents : A → File A

-- The end of `save`, which renames: done, lost before the rename, or failed or dead after it.
pub data SaveEnd : Type 0 where
  written lost half_done died died_after : SaveEnd

pub record ServiceTerms : Type 0 where
  pub service_hash : String
  pub quantity : ℕ
  pub unit_price_atomic : ℕ

-- `ExecutorInput`, whose `body` is the JSON of the fields that only dependencies read.
pub record ExecutorInput : Type 0 where
  pub order_id : String
  pub service_hash : String
  pub definition : ServiceTerms
  pub max_amount_atomic : ℕ
  pub body : String

-- `ServiceRequest`: the order, and the payment that it is for.
pub record ServiceRequest : Type 0 where
  pub intent : ExecutorInput
  pub versions : String
  pub transaction_hash : String

-- `ExecutorState`; the versions are the text of their JSON.
pub record ExecutorState : Type 0 where
  pub intent : ExecutorInput
  pub intent_hash : String
  pub versions : String
  pub phase : ExecutorPhase
  pub abort_hash : Option String
  pub abort_revoke_required : Bool
  pub request : Option ServiceRequest
  pub payment_hash : Option String
  pub output : String
  pub output_hash : Option String
  pub acknowledgment_hash : Option String

pub record Delivery : Type 0 where
  pub order_id : String
  pub service_hash : String
  pub transaction_hash : String
  pub state : String
  pub output : String
  pub output_hash : Option String

-- The files of Circle's operations of one order.
pub record OperationFiles : Type 0 where
  pub of_approve : File Operation
  pub of_pay : File Operation
  pub of_ack : File Operation
  pub of_abort : File Operation

-- What one order has on disk, the reservation of the allowance that all orders share, and the
-- operations that were submitted for the order, the latest first.
pub record Desk : Type 0 where
  pub journal : File ExecutorState
  pub operations : OperationFiles
  pub reservation : File String
  pub submissions : List ExecutorAction

abbrev pub operation_of : ExecutorAction → OperationFiles → File Operation
operation_of ExecutorAction.approve o = o.of_approve
operation_of ExecutorAction.pay o = o.of_pay
operation_of ExecutorAction.ack o = o.of_ack
operation_of ExecutorAction.abort o = o.of_abort

abbrev pub with_operation : ExecutorAction → File Operation → OperationFiles → OperationFiles
with_operation ExecutorAction.approve f o = record o { of_approve = f }
with_operation ExecutorAction.pay f o = record o { of_pay = f }
with_operation ExecutorAction.ack f o = record o { of_ack = f }
with_operation ExecutorAction.abort f o = record o { of_abort = f }

-- One submission: the checks of the call, the new key, Circle's answer and the ends of the writes.
pub record Submission : Type 0 where
  pub checked : Result String (Unit {0})
  pub intent_hash : String
  pub key : String
  pub answer : Result String CircleResult
  pub submitting_end : SaveEnd
  pub submitted_end : SaveEnd
  pub uncertain_end : SaveEnd

-- One reconciliation: the chain, the transaction that was found, the hash of a user operation, the
-- receipt, and the ends of the writes.
pub record Reconciliation : Type 0 where
  pub on_testnet : Result String (Unit {0})
  pub matched : Result String (Option CircleResult)
  pub found_hash : Result String (Option String)
  pub mined : Result String (Unit {0})
  pub matched_end : SaveEnd
  pub found_end : SaveEnd

-- What a run meets, by the place of the call in the code where there are several.
pub record Answers : Type 0 where
  pub abort_unpaid : Bool
  pub valid : Result String (Unit {0})
  pub authenticated : ℕ → Result String (Unit {0})
  pub preflight : ℕ → Result String String
  pub unpaid : ℕ → Result String (Unit {0})
  pub allowance : ℕ → Result String ℕ
  pub prepare_approval : Result String (Unit {0})
  pub prepare_payment : Result String (Unit {0})
  pub active_service : Result String (Unit {0})
  pub submission : ExecutorAction → Submission
  pub reconciliation : ℕ → Reconciliation
  pub finalized : ℕ → Result String (Unit {0})
  pub payment_verified : Result String (Unit {0})
  pub delivery : Result String Delivery
  pub valid_output : Result String (Unit {0})
  pub delivery_verified : ℕ → Result String Bool
  pub save_end : ℕ → SaveEnd
  pub unlink_end : ℕ → SaveEnd

-- The hashes over canonical JSON, the check of a request, and the wallet of Circle.
pub record Runtime : Type 0 where
  pub hash_intent : ExecutorInput → String
  pub hash_versions : String → String
  pub hash_request : ServiceRequest → String
  pub hash_output : String → String
  pub validate_request : ServiceRequest → Result String ServiceRequest
  pub wallet : String

-- The error of a process that died, which no handler catches.
abbrev pub death : String
death = "The process died."

-- A write, or an unlink with its sync, from the state without it to the state with it.
unfoldable pub ended : SaveEnd → Desk → Desk → Desk × Result String (Unit {0})
ended written before after = (after, ok tt)
ended lost before after = (before, err "write failed")
ended half_done before after = (after, err "sync failed")
ended died before after = (before, err death)
ended died_after before after = (after, err death)

-- A catch clause, which a process that died does not run.
abbrev pub catching :
    {A : Type 0} → Stateful Desk A → Desk × Result String A → Desk × Result String A
catching handler (s, ok a) = (s, ok a)
catching handler (s, err e) = (if e == death then lift (err e) else handler) s
