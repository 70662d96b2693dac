-- ===== src/Broker/Tests.antt =====
-- The payments of a broker on a sample of calls.
use obolos.Prelude.{ℕ, ◌≤◌, ◌≡◌, refl, String, [], some, true, false, ok, err, length}
use obolos.Prelude.{sum_of}
use obolos.Runner.Journal.{written}
use obolos.Broker.{Reservation, PaymentResult, PaymentState, PaymentCall}
use obolos.Broker.{missing, amount_for, execute, authorization, amount_setting, result}
use obolos.Broker.{read, pay_or_repeat, repeat, reserve_and_pay, admit, save, pay, is_duplicate}
use obolos.Broker.Spending.{Payments, unused, called, Payments-IsInBudget, Payments-IsOnce, one_if}
use obolos.Broker.Spending.{is_request, is_stage}
use obolos.Broker.Repeats.{execute-repeats}

abbrev inference : Reservation
inference = record {
  request_id = "request 1";
  run_id = "run 1";
  kind = "inference";
  digest = "report";
  amount = 60;
}

abbrev inferred : PaymentResult
inferred = record {
  body = "done";
  receipt = some (record { transaction_id = some "tx 1"; network = some "base" });
}

abbrev first_call : PaymentCall
first_call = record {
  reservation = inference;
  limit = 100;
  mandate_expires_at = some (some 50);
  called_at = 10;
  started_at = 11;
  operation = ok inferred;
  pending_end = written;
  settled_end = written;
}

-- The request again, when the operation would fail.
abbrev again : PaymentCall
again = record first_call { called_at = 20; operation = err "down" }

-- Another request of the kind, too large for the budget.
abbrev too_large : PaymentCall
too_large = record first_call {
  reservation = record inference { request_id = "request 2"; run_id = "run 2"; amount = 41 };
}

-- A last request that fits, whose transaction is one that was settled before.
abbrev duplicate : PaymentCall
duplicate = record first_call {
  reservation = record inference { request_id = "request 3"; run_id = "run 3"; amount = 40 };
}

abbrev limits : String → ℕ
limits kind = 100

abbrev no_file : PaymentState
no_file = record { file = missing; executed = [] }

abbrev after_first : PaymentState
after_first = (execute first_call no_file).0

abbrev after_all : PaymentState
after_all = (execute duplicate (execute too_large (execute again after_first).0).0).0

history : Payments limits after_all
history =
    called duplicate refl
      (called too_large refl (called again refl (called first_call refl unused)))

first_result : (execute first_call no_file).1 ≡ ok inferred
unfolding execute read pay_or_repeat reserve_and_pay admit save pay is_duplicate
first_result = refl

both_ran : length after_all.executed ≡ 2
unfolding execute read pay_or_repeat repeat reserve_and_pay admit save pay is_duplicate
both_ran = refl

over_budget : (execute too_large after_first).1 ≡ err "Broker lifetime budget exhausted."
unfolding execute read pay_or_repeat reserve_and_pay admit save pay is_duplicate
over_budget = refl

duplicate_refused :
    (execute duplicate after_first).1
    ≡ err "Operation outcome uncertain; manual reconciliation required."
unfolding execute read pay_or_repeat reserve_and_pay admit save pay is_duplicate
duplicate_refused = refl

settled_result : result "run 1" "inference" after_first.file ≡ ok (some inferred)
unfolding result execute read pay_or_repeat reserve_and_pay admit save pay is_duplicate
settled_result = refl

right_token :
    authorization
      (some "Bearer 0123456789abcdef0123456789abcdef")
      (some "0123456789abcdef0123456789abcdef")
    ≡ true
unfolding authorization
right_token = refl

short_token : authorization (some "Bearer short") (some "short") ≡ false
unfolding authorization
short_token = refl

no_amount : amount_setting (some 0) ≡ 0
unfolding amount_setting
no_amount = refl

Payments-IsInBudget_example : sum_of (amount_for "inference") after_all.executed ≤ 100
Payments-IsInBudget_example = Payments-IsInBudget limits "inference" history

Payments-IsOnce_example :
    (sum_of (one_if (is_request "request 1")) after_all.executed ≤ 1)
    × (sum_of (one_if (is_stage "run 1" "inference")) after_all.executed ≤ 1)
Payments-IsOnce_example = Payments-IsOnce limits "request 1" "run 1" "inference" history

execute-repeats_example : execute again after_first ≡ (after_first, ok inferred)
execute-repeats_example =
    execute-repeats first_call again no_file inferred first_result refl refl refl
