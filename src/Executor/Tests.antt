-- ===== src/Executor/Tests.antt =====
-- Runs of the executor on a sample order.
use obolos.Prelude.{String, [], ◌∷◌, some, none, false, ok, err, ◌≡◌, refl}
use obolos.Prelude.{is_hex_text, nat_beq}
use obolos.Executor.{ExecutorAction, approved, written, ExecutorInput}
use obolos.Executor.{ExecutorState, CircleResult, Answers, Runtime}
use obolos.Executor.{ended, contents}
use obolos.Executor.Operations.{durable_operation, operate, submit_and_save, circle_receipt}
use obolos.Executor.Operations.{has_operation}
use obolos.Executor.Stages.{in_phase, take_back_unsubmitted, pay_as_needed, buy, approve_as_needed}
use obolos.Executor.Stages.{approve_order, pay_order, keep_payment, request_for, check_request}
use obolos.Executor.Stages.{
  release_as_needed, deliver_as_needed, deliver, finish, acknowledge, resume,
}
use obolos.Executor.Run.{run_executor, read_file, open_order, take_way, new_state}
use obolos.Executor.Frames.{absent, IsOnceEach}
use obolos.Executor.InStep.{InStep}
use obolos.Executor.Directory.{
  Directory, desk_of, run_in, put_desk, empty_directory, Runs, none_yet,
}
use obolos.Executor.Directory.{and_run}
use obolos.Executor.Reached.{Runs-InStep, Runs-IsOnceEach, Runs-one_holder}

abbrev hash : String
hash = "0xabcdef0123456789abcdef0123456789abcdef0123456789abcdef0123456789"

abbrev intent : ExecutorInput
intent = record {
  order_id = "order";
  service_hash = "service";
  definition = record { service_hash = "service"; quantity = 2; unit_price_atomic = 30 };
  max_amount_atomic = 60;
  body = "";
}

abbrev runtime : Runtime
runtime = record {
  hash_intent = λ i. i.order_id;
  hash_versions = λ v. v;
  hash_request = λ r. r.transaction_hash;
  hash_output = λ o. o;
  validate_request = λ r. ok r;
  wallet = "0xwallet";
}

abbrev sent : CircleResult
sent = record {
  id = some "tx";
  idempotency_key = some "key";
  state = some "COMPLETE";
  blockchain = some "ARC-TESTNET";
  tx_hash = some hash;
  user_op_hash = none;
  source_address = some "0xWALLET";
}

abbrev good : Answers
good = record {
  abort_unpaid = false;
  valid = ok tt;
  authenticated = λ n. ok tt;
  preflight = λ n. ok "v1";
  unpaid = λ n. ok tt;
  allowance = λ n. ok 0;
  prepare_approval = ok tt;
  prepare_payment = ok tt;
  active_service = ok tt;
  submission = λ kind. record {
    checked = ok tt;
    intent_hash = "call";
    key = "key";
    answer = ok sent;
    submitting_end = written;
    submitted_end = written;
    uncertain_end = written;
  };
  reconciliation = λ n. record {
    on_testnet = ok tt;
    matched = ok none;
    found_hash = ok none;
    mined = ok tt;
    matched_end = written;
    found_end = written;
  };
  finalized = λ n. ok tt;
  payment_verified = ok tt;
  delivery = ok (record {
    order_id = "order";
    service_hash = "service";
    transaction_hash = hash;
    state = "fulfilled";
    output = "out";
    output_hash = some "out";
  });
  valid_output = ok tt;
  delivery_verified = λ n. ok (nat_beq n 55);
  save_end = λ n. written;
  unlink_end = λ n. written;
}

-- The run that stops before the payment.
abbrev unprepared : Answers
unprepared = record good { prepare_payment = err "simulation reverted" }

abbrev after_approval : Directory
after_approval = run_in runtime intent unprepared empty_directory

abbrev after_all : Directory
after_all = run_in runtime intent good after_approval

history : Runs after_all
history = and_run runtime intent good (and_run runtime intent unprepared none_yet)

approval : Runs after_approval
approval = and_run runtime intent unprepared none_yet

abbrev approved_state : ExecutorState
approved_state = in_phase approved (new_state runtime intent "v1")

stands_approved : (after_approval.orders "order").journal ≡ contents approved_state
unfolding run_in put_desk run_executor read_file open_order take_way resume take_back_unsubmitted
    pay_as_needed buy approve_as_needed approve_order pay_order durable_operation operate
    submit_and_save circle_receipt ended is_hex_text
stands_approved = refl

submitted_once :
    (after_all.orders "order").submissions
    ≡ ExecutorAction.ack ∷ ExecutorAction.pay ∷ ExecutorAction.approve ∷ []
unfolding run_in put_desk run_executor read_file open_order take_way resume take_back_unsubmitted
    pay_as_needed buy approve_as_needed approve_order pay_order durable_operation operate
    submit_and_save circle_receipt ended is_hex_text keep_payment request_for check_request
    release_as_needed deliver_as_needed deliver finish acknowledge has_operation
submitted_once = refl

Runs-InStep_example :
    InStep "order"
      (after_all.orders "order").journal
      after_all.reservation
      (absent ExecutorAction.pay (desk_of after_all "order"))
Runs-InStep_example = Runs-InStep "order" history

Runs-IsOnceEach_example : IsOnceEach (desk_of after_all "order")
Runs-IsOnceEach_example = Runs-IsOnceEach "order" history

Runs-one_holder_example : ◌≡◌ {A = String} "order" "order"
Runs-one_holder_example =
    Runs-one_holder "order" "order" approved_state approved_state approval stands_approved
      stands_approved refl refl
