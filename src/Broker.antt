-- ===== src/Broker.antt =====
-- `DurablePayments` of services/broker.ts: the journal of the payments of a broker. Its queue runs
-- one call after the other, so that calls are a sequence; the hash of an input stands for SHA-256
-- over its canonical JSON.
pub mod Calls
pub mod Spending
pub mod Repeats
mod Tests
use obolos.Prelude.{ℕ, ◌+◌, String, Bool, true, false, ◌&&◌, ◌||◌, not, List, [], ◌∷◌, ◌++◌, Option}
use obolos.Prelude.{
  none, some, leb, ltb, ◌==◌, nat_beq, nat_eq, string_eq, list_eq, any, find, sum_of,
}
use obolos.Prelude.{codes, length, joined, Result, ok, err, throw_if, if◌then◌else◌}
use obolos.Contracts.{ParsedDate, has_passed}
use obolos.Policy.{is_safe_integer}
use obolos.Runner.Journal.{WriteEnd, written, lost, half_done}
use obolos.Stateful.{Stateful, lift, then_run, ◌>>=◌, ◌>>◌}

-- What a payment reserves; it does not change with its state.
pub record Reservation : Type 0 where
  pub request_id : String
  pub run_id : String
  pub kind : String
  pub digest : String
  pub amount : ℕ

pub record ChainReceipt : Type 0 where
  pub transaction_id : Option String
  pub network : Option String

-- The result of an operation: its JSON, and its receipt if it has one.
pub record PaymentResult : Type 0 where
  pub body : String
  pub receipt : Option ChainReceipt

-- `JournalEntry`: pending, or settled with its result.
pub record JournalEntry : Type 0 where
  pub reservation : Reservation
  pub settled : Option PaymentResult

pub data PaymentFile : Type 0 where
  missing unreadable : PaymentFile
  contents : List JournalEntry → PaymentFile

-- The file, and the reservations whose operations were run, the latest first.
pub record PaymentState : Type 0 where
  pub file : PaymentFile
  pub executed : List Reservation

-- One call of `execute`, with the clock at its start and before its operation, the answer of the
-- operation and the ends of the two writes.
pub record PaymentCall : Type 0 where
  pub reservation : Reservation
  pub limit : ℕ
  pub mandate_expires_at : Option ParsedDate
  pub called_at : ℕ
  pub started_at : ℕ
  pub operation : Result String PaymentResult
  pub pending_end : WriteEnd
  pub settled_end : WriteEnd

-- `assertMandateActive`, where an expiry is given.
abbrev pub is_inactive : Option ParsedDate → ℕ → Bool
is_inactive none now = false
is_inactive (some none) now = true
is_inactive (some (some expiry)) now = leb expiry now

-- `read`
unfoldable pub read : PaymentFile → Result String (List JournalEntry)
read missing = ok []
read unreadable = err "Payment journal unavailable; manual recovery required."
read (contents entries) = ok entries

-- `save`, by a rename; it may fail before or after it.
unfoldable pub save : WriteEnd → List JournalEntry → Stateful PaymentState (Unit {0})
save written entries s = (record s { file = contents entries }, ok tt)
save lost entries s = (s, err "write failed")
save half_done entries s = (record s { file = contents entries }, err "sync failed")

abbrev pub has_request : String → JournalEntry → Bool
has_request id e = e.reservation.request_id == id

abbrev pub is_for_stage : Reservation → JournalEntry → Bool
is_for_stage r e = e.reservation.run_id == r.run_id && e.reservation.kind == r.kind

-- The amount of a reservation of one kind.
abbrev pub amount_for : String → Reservation → ℕ
amount_for kind r = if r.kind == kind then r.amount else 0

abbrev pub weight_of : (Reservation → ℕ) → List JournalEntry → ℕ
weight_of f = sum_of (λ e. f e.reservation)

abbrev is_same_text : Option String → Option String → Bool
is_same_text none none = true
is_same_text (some a) (some b) = a == b
is_same_text _ _ = false

abbrev is_same_receipt : ChainReceipt → Option PaymentResult → Bool
is_same_receipt r none = false
is_same_receipt r (some p) = elim p.receipt [
  | none ↦ false
  | some q ↦ is_same_text q.transaction_id r.transaction_id && is_same_text q.network r.network
]

abbrev has_transaction : Option String → Bool
has_transaction none = false
has_transaction (some t) = not (t == "")

-- A transaction that settled another entry already.
unfoldable pub is_duplicate : Option ChainReceipt → List JournalEntry → Bool
is_duplicate none entries = false
is_duplicate (some r) entries =
    has_transaction r.transaction_id && any (λ e. is_same_receipt r e.settled) entries

-- The entries with the last one settled.
abbrev pub with_pending : List JournalEntry → Reservation → List JournalEntry
with_pending entries r = entries ++ record { reservation = r; settled = none } ∷ []

abbrev pub with_settled : List JournalEntry → Reservation → PaymentResult → List JournalEntry
with_settled entries r result = entries ++ record { reservation = r; settled = some result } ∷ []

-- An operation that was run for the reservation.
abbrev pub run_operation : Reservation → Stateful PaymentState (Unit {0})
run_operation r s = (record s { executed = r ∷ s.executed }, ok tt)

-- The body of the try block.
unfoldable pub pay : PaymentCall → List JournalEntry → Stateful PaymentState PaymentResult
unfolding save is_duplicate
pay call entries = do
  lift (
      throw_if (is_inactive call.mandate_expires_at call.started_at)
        "Mandate expired before payment submission.")
  run_operation call.reservation
  result ← lift call.operation
  lift (
      throw_if (is_duplicate result.receipt (with_pending entries call.reservation))
        "Duplicate chain transaction")
  save call.settled_end (with_settled entries call.reservation result)
  lift (ok result)

-- Its catch.
abbrev pub caught :
    PaymentState × Result String PaymentResult → PaymentState × Result String PaymentResult
caught (s, ok result) = (s, ok result)
caught (s, err e) = (s, err "Operation outcome uncertain; manual reconciliation required.")

-- A request that the journal holds.
unfoldable pub repeat : Reservation → JournalEntry → Result String PaymentResult
repeat r previous =
    if not (previous.reservation.digest == r.digest)
      || not (previous.reservation.run_id == r.run_id)
      || not (previous.reservation.kind == r.kind)
    then err "Request ID reused with different parameters."
    else elim previous.settled [
      | none ↦ err "Payment outcome uncertain; manual reconciliation required."
      | some result ↦ ok result
    ]

-- The guards of a new request.
unfoldable pub admit : PaymentCall → List JournalEntry → Result String (Unit {0})
admit call entries =
    if any (is_for_stage call.reservation) entries
    then err "This run already has a payment intent for this stage."
    else if ltb call.limit
        (weight_of (amount_for call.reservation.kind) entries + call.reservation.amount)
    then err "Broker lifetime budget exhausted."
    else ok tt

-- A new request, reserved before its operation.
unfoldable pub reserve_and_pay :
    PaymentCall → List JournalEntry → Stateful PaymentState PaymentResult
unfolding admit save pay
reserve_and_pay call entries = do
  lift (admit call entries)
  save call.pending_end (with_pending entries call.reservation)
  λ s. caught (pay call entries s)

unfoldable pub pay_or_repeat :
    PaymentCall → List JournalEntry → Option JournalEntry → Stateful PaymentState PaymentResult
unfolding repeat reserve_and_pay
pay_or_repeat call entries none = reserve_and_pay call entries
pay_or_repeat call entries (some previous) = lift (repeat call.reservation previous)

abbrev pub is_bad_budget : PaymentCall → Bool
is_bad_budget call =
    not (is_safe_integer call.reservation.amount) || not (is_safe_integer call.limit)

-- `execute`
unfoldable pub execute : PaymentCall → Stateful PaymentState PaymentResult
unfolding read pay_or_repeat
execute call s =
    then_run
      (lift
        (throw_if (is_inactive call.mandate_expires_at call.called_at)
          "Mandate expired before payment submission.")
        s)
      (λ active.
        lift (throw_if (is_bad_budget call) "Invalid budget.")
        >> (lift (read s.file) >>= λ entries.
            pay_or_repeat call entries (find (has_request call.reservation.request_id) entries)))

abbrev is_settled_stage : String → String → JournalEntry → Bool
is_settled_stage run kind e =
    e.reservation.run_id == run
    && e.reservation.kind == kind
    && (elim e.settled [ none ↦ false | some r ↦ true ])

-- `result`
unfoldable pub result : String → String → PaymentFile → Result String (Option PaymentResult)
unfolding read
result run kind file = elim (read file) [
  | err e ↦ err e
  | ok entries ↦
      ok (elim (find (is_settled_stage run kind) entries) [ none ↦ none | some e ↦ e.settled ])
]

-- `amountSetting`, by what `Number` makes of a text that is not empty.
unfoldable pub amount_setting : Option ℕ → ℕ
amount_setting none = 0
amount_setting (some value) = if is_safe_integer value && ltb 0 value then value else 0

-- `authorization`; texts of equal code points have equal bytes.
unfoldable pub authorization : Option String → Option String → Bool
authorization none token = false
authorization (some header) none = false
authorization (some header) (some token) =
    not (ltb (length (codes token)) 32) && (header == joined ("Bearer " ∷ token ∷ []))
