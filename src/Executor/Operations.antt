-- ===== src/Executor/Operations.antt =====
-- `durableOperation`, `reconcile` and `requireCircleTransactionHash` of scripts/economy-circle.ts, and
-- `hasOperation` and `circleReceipt` of lib/economy/executor-live.ts, for one order.
use obolos.Prelude.{String, Bool, true, false, ◌&&◌, not, [], ◌∷◌, Option, none, some}
use obolos.Prelude.{
  ◌==◌, string_eq, list_eq, nat_eq, is_hex_text, Result, ok, err, throw_if, if◌then◌else◌, includes,
}
use obolos.Engine.Create.{lower_codes}
use obolos.Platform.{text_or}
use obolos.Platform.Terms.{lower_text}
use obolos.Stateful.{Stateful, lift, then_run, ◌>>=◌, ◌>>◌}
use obolos.Executor.{
  ExecutorAction, CircleResult, OperationStatus, submitting, uncertain, submitted,
}
use obolos.Executor.{failed, Operation, File, missing, unreadable, contents, SaveEnd, Desk}
use obolos.Executor.{operation_of, with_operation, Submission, Reconciliation, Runtime, ended}
use obolos.Executor.{catching}

-- `save` of the file of an operation.
abbrev pub save_operation : ExecutorAction → SaveEnd → Operation → Stateful Desk (Unit {0})
save_operation kind end op s =
    ended end s (record s { operations = with_operation kind (contents op) s.operations })

abbrev pub submit : ExecutorAction → Stateful Desk (Unit {0})
submit kind s = (record s { submissions = kind ∷ s.submissions }, ok tt)

abbrev pub is_key : String → Option String → Bool
is_key key none = false
is_key key (some k) = k == key

-- The operation as it stands when its submission is decided.
abbrev pub operation_with : Submission → OperationStatus → Option CircleResult → Operation
operation_with sub status result = record {
  intent_hash = sub.intent_hash;
  idempotency_key = sub.key;
  status = status;
  result = result;
}

abbrev pub result_of : Result String CircleResult → Option CircleResult
result_of (ok result) = some result
result_of (err e) = none

-- The body of the inner try block.
unfoldable pub submit_and_save : ExecutorAction → Submission → Stateful Desk Operation
submit_and_save kind sub = do
  submit kind
  result ← lift sub.answer
  lift (throw_if (not (is_key sub.key result.idempotency_key)) "Mismatched idempotency key.")
  save_operation kind sub.submitted_end (operation_with sub submitted (some result))
  lift (ok (operation_with sub submitted (some result)))

-- Its catch.
abbrev pub mark_uncertain : ExecutorAction → Submission → Stateful Desk Operation
mark_uncertain kind sub = do
  save_operation kind sub.uncertain_end (operation_with sub uncertain (result_of sub.answer))
  lift (err "Circle operation outcome uncertain; reconcile the journal before retrying.")

unfoldable pub answer_previous : String → Operation → Result String Operation
answer_previous intent_hash previous =
    if not (previous.intent_hash == intent_hash)
    then err "Operation name already belongs to a different intent."
    else elim previous.status [
      | submitted ↦ ok previous
      | failed ↦ err "Terminal failure recorded; preserve this intent."
      | submitting ↦ err "Existing operation outcome uncertain; reconcile it."
      | uncertain ↦ err "Existing operation outcome uncertain; reconcile it."
    ]

unfoldable pub operate : ExecutorAction → Submission → File Operation → Stateful Desk Operation
unfolding submit_and_save answer_previous
operate kind sub unreadable = lift (err "Unexpected end of JSON input")
operate kind sub (contents previous) = lift (answer_previous sub.intent_hash previous)
operate kind sub missing =
    save_operation kind sub.submitting_end (operation_with sub submitting none)
    >> (λ s. catching (mark_uncertain kind sub) (submit_and_save kind sub s))

-- `durableOperation`, behind the checks of `executeCircle`.
unfoldable pub durable_operation : ExecutorAction → Submission → Stateful Desk Operation
unfolding operate
durable_operation kind sub =
    lift sub.checked >> (λ s. operate kind sub (operation_of kind s.operations) s)

abbrev pub chain : String
chain = "ARC-TESTNET"

abbrev pub merged : Option String → Option String → Option String
merged old none = old
merged old (some new) = some new

-- `{...op.result,...matched,idempotencyKey}`
abbrev pub merge_results : String → Option CircleResult → CircleResult → CircleResult
merge_results key none new = record new { idempotency_key = some key }
merge_results key (some old) new = record {
  id = merged old.id new.id;
  idempotency_key = some key;
  state = merged old.state new.state;
  blockchain = merged old.blockchain new.blockchain;
  tx_hash = merged old.tx_hash new.tx_hash;
  user_op_hash = merged old.user_op_hash new.user_op_hash;
  source_address = merged old.source_address new.source_address;
}

abbrev pub tx_hash_of : Operation → String
tx_hash_of op = elim op.result [ none ↦ "" | some r ↦ text_or "" r.tx_hash ]

abbrev pub conflicts : Operation → CircleResult → Bool
conflicts op new =
    not (tx_hash_of op == "")
    && not (text_or "" new.tx_hash == "")
    && not (tx_hash_of op == text_or "" new.tx_hash)

abbrev pub status_of_state : Option String → OperationStatus
status_of_state state =
    if includes ("FAILED" ∷ "CANCELLED" ∷ "DENIED" ∷ []) (text_or "" state)
    then failed
    else submitted

abbrev pub matched_operation : Operation → CircleResult → Operation
matched_operation op new = record op {
  result = some (merge_results op.idempotency_key op.result new);
  status = status_of_state new.state;
}

abbrev pub is_failed : Operation → Bool
is_failed op = elim op.status [ failed ↦ true | _ ↦ false ]

-- The branch of a transaction that was found.
unfoldable pub take_match :
    ExecutorAction → Reconciliation → Operation → Option CircleResult → Stateful Desk Operation
take_match kind rec op none = lift (ok op)
take_match kind rec op (some new) = do
  lift (
      throw_if (conflicts op new)
        "Conflicting Circle transaction hash; preserve original evidence.")
  save_operation kind rec.matched_end (matched_operation op new)
  lift (ok (matched_operation op new))

abbrev pub is_own_result : Runtime → CircleResult → Bool
is_own_result runtime r =
    (text_or "" r.blockchain == chain)
    && (lower_codes (text_or "undefined" r.source_address) == lower_codes runtime.wallet)

abbrev pub with_hash : Operation → CircleResult → String → Operation
with_hash op r hash = record op { result = some (record r { tx_hash = some hash }) }

-- The branch of a user operation whose transaction is not known.
unfoldable pub take_user_operation :
    Runtime → ExecutorAction → Reconciliation → Operation → CircleResult → Stateful Desk Operation
take_user_operation runtime kind rec op r = do
  lift (
      throw_if (not (is_own_result runtime r))
        "Circle user operation belongs to a different wallet or chain.")
  found ← lift rec.found_hash
  elim found [
    | none ↦ lift (ok op)
    | some hash ↦
        save_operation kind rec.found_end (with_hash op r hash) >> lift (ok (with_hash op r hash))
  ]

abbrev pub is_awaiting_hash : Operation → Option CircleResult
is_awaiting_hash op = elim op.result [
  | none ↦ none
  | some r ↦ elim r.user_op_hash [
    | none ↦ none
    | some h ↦ if text_or "" r.tx_hash == "" then some r else none
  ]
]

unfoldable pub find_user_operation :
    Runtime
    → ExecutorAction
    → Reconciliation
    → Operation
    → Option CircleResult
    → Stateful Desk Operation
unfolding take_user_operation
find_user_operation runtime kind rec op none = lift (ok op)
find_user_operation runtime kind rec op (some r) = take_user_operation runtime kind rec op r

-- `requireCircleTransactionHash`
unfoldable pub require_hash : Operation → Result String (Unit {0})
unfolding is_hex_text
require_hash op =
    if is_hex_text 64 (tx_hash_of op)
    then ok tt
    else if elim op.result [ none ↦ false | some r ↦ not (text_or "" r.id == "") ]
    then err "Circle transaction is correlated, but its transaction hash is not available yet."
    else err "No uniquely correlated transaction found."

abbrev pub has_evidence : Runtime → Operation → Bool
has_evidence runtime op = elim op.result [
  | none ↦ false
  | some r ↦ is_own_result runtime r && is_hex_text 64 (text_or "" r.tx_hash)
]

-- The end of `reconcile`.
unfoldable pub settle_match :
    Runtime → ExecutorAction → Reconciliation → Operation → Stateful Desk Operation
unfolding find_user_operation require_hash is_hex_text
settle_match runtime kind rec op =
    if is_failed op
    then lift (ok op)
    else find_user_operation runtime kind rec op (is_awaiting_hash op) >>= λ known.
        lift (require_hash known)
        >> (lift (
              throw_if (not (has_evidence runtime known))
                "Missing matching Circle transaction evidence; reconcile.")
            >> (lift rec.mined >> lift (ok known)))

unfoldable pub reconcile_file :
    Runtime → ExecutorAction → Reconciliation → File Operation → Stateful Desk Operation
unfolding take_match settle_match
reconcile_file runtime kind rec missing = lift (err "Unknown operation.")
reconcile_file runtime kind rec unreadable = lift (err "Unexpected end of JSON input")
reconcile_file runtime kind rec (contents op) =
    if is_failed op
    then lift (ok op)
    else lift rec.matched >>= λ matched.
        take_match kind rec op matched >>= λ known. settle_match runtime kind rec known

-- `reconcile`, where the search of Circle's history is what it finds.
unfoldable pub reconcile : Runtime → ExecutorAction → Reconciliation → Stateful Desk Operation
unfolding reconcile_file
reconcile runtime kind rec =
    lift rec.on_testnet >> (λ s. reconcile_file runtime kind rec (operation_of kind s.operations) s)

abbrev pub is_submitted : Operation → Bool
is_submitted op = elim op.status [ submitted ↦ true | _ ↦ false ]

-- `circleReceipt`: the hash in lower case, once it is final.
unfoldable pub circle_receipt :
    Runtime
    → ExecutorAction
    → Reconciliation
    → Result String (Unit {0})
    → Operation
    → Stateful Desk String
unfolding reconcile is_hex_text
circle_receipt runtime kind rec finalized op =
    (if tx_hash_of op == "" then reconcile runtime kind rec else lift (ok op)) >>= λ known.
    lift (
      throw_if (not (is_submitted known && has_evidence runtime known))
        "Circle transaction evidence is incomplete; reconcile this operation.")
    >> (lift finalized >> lift (ok (lower_text (tx_hash_of known))))

-- `hasOperation`: an absence counts only if the chain has no payment.
unfoldable pub has_operation : ExecutorAction → Result String (Unit {0}) → Stateful Desk Bool
has_operation kind unpaid s = elim (operation_of kind s.operations) [
  | contents op ↦ (s, ok true)
  | unreadable ↦ (s, err "Invalid operation journal.")
  | missing ↦ then_run (lift unpaid s) (λ absent. lift (ok false))
]
