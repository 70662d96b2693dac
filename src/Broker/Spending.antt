-- ===== src/Broker/Spending.antt =====
-- Histories of calls of `execute`, and what the operations that were run add up to.
use obolos.Prelude.{ℕ, ◌+◌, ◌≤◌, String, Bool, true, false, ◌&&◌, List, [], ◌∷◌, Option}
use obolos.Prelude.{none, ◌==◌, ◌≡◌, refl, sym, subst, ap, arith, string_eq, find, any, sum_of}
use obolos.Prelude.{if◌then◌else◌, Bool-cases, inl, inr, ◌∙◌}
use obolos.Broker.{Reservation, PaymentResult, JournalEntry, PaymentState, PaymentCall}
use obolos.Broker.{missing, contents, has_request, is_for_stage, amount_for, weight_of}
use obolos.Broker.{execute}
use obolos.Broker.Calls.{entries_of, with_entry, IsNew, IsCall, kept, reserved, ran, execute-IsCall}

-- Calls one after the other, each with the limit of its kind, from a journal that is not there.
pub data Payments (limits : String → ℕ) : PaymentState → Type 0 where
  unused : Payments limits (record { file = missing; executed = [] })
  called :
      (call : PaymentCall) {s : PaymentState}
      → call.limit ≡ limits call.reservation.kind
      → Payments limits s
      → Payments limits (execute call s).0

weight_of-with_entry :
    (f : Reservation → ℕ) (entries : List JournalEntry) (r : Reservation)
    (settled : Option PaymentResult)
    → weight_of f (with_entry entries r settled) ≡ weight_of f entries + f r
weight_of-with_entry f [] r settled = omega arith
weight_of-with_entry f (e ∷ entries) r settled =
    let rest = weight_of-with_entry f entries r settled in omega arith

-- What was run weighs no more than what is reserved, which is within a bound.
record IsWithin (f : Reservation → ℕ) (bound : ℕ) (s : PaymentState) : Type 0 where
  reserved_first : sum_of f s.executed ≤ weight_of f (entries_of s.file)
  bounded : weight_of f (entries_of s.file) ≤ bound

module _ (f : Reservation → ℕ) (bound : ℕ) where
  entered-IsWithin :
      (call : PaymentCall) (s t : PaymentState) (settled : Option PaymentResult)
      → t.file ≡ contents (with_entry (entries_of s.file) call.reservation settled)
      → sum_of f t.executed ≤ sum_of f s.executed + f call.reservation
      → IsWithin f bound s
      → weight_of f (entries_of s.file) + f call.reservation ≤ bound
      → IsWithin f bound t
  entered-IsWithin call s t settled file executed w fits =
      let weight : weight_of f (entries_of t.file)
          ≡ weight_of f (entries_of s.file) + f call.reservation =
        ap (λ x. weight_of f (entries_of x)) file
        ∙ weight_of-with_entry f (entries_of s.file) call.reservation settled in
      let first = w.reserved_first in record { reserved_first = omega arith; bounded = omega arith }

  call-IsWithin :
      (call : PaymentCall) (s t : PaymentState)
      → (IsNew call (entries_of s.file)
          → weight_of f (entries_of s.file) + f call.reservation ≤ bound)
      → IsCall call s t
      → IsWithin f bound s
      → IsWithin f bound t
  call-IsWithin call s t fits (kept same) w = subst (IsWithin f bound) (sym same) w
  call-IsWithin call s t fits (reserved new file executed) w =
      let sum : sum_of f t.executed ≡ sum_of f s.executed = ap (sum_of f) executed in
      entered-IsWithin call s t none file (omega arith) w (fits new)
  call-IsWithin call s t fits (ran settled new file executed) w =
      let sum : sum_of f t.executed ≡ f call.reservation + sum_of f s.executed =
        ap (sum_of f) executed in
      entered-IsWithin call s t settled file (omega arith) w (fits new)

  Payments-IsWithin :
      (limits : String → ℕ)
      → ((call : PaymentCall) (entries : List JournalEntry)
          → call.limit ≡ limits call.reservation.kind
          → weight_of f entries ≤ bound
          → IsNew call entries
          → weight_of f entries + f call.reservation ≤ bound)
      → {s : PaymentState} → Payments limits s
      → IsWithin f bound s
  Payments-IsWithin limits fits unused = record {
    reserved_first = omega arith;
    bounded = omega arith;
  }
  Payments-IsWithin limits fits (called call {s} limit h) =
      let w = Payments-IsWithin limits fits h in
      call-IsWithin call s (execute call s).0 (fits call (entries_of s.file) limit w.bounded)
        (execute-IsCall call s) w

-- The budget of one kind.
amount-fits :
    (limits : String → ℕ) (kind : String) (call : PaymentCall) (entries : List JournalEntry)
    → call.limit ≡ limits call.reservation.kind
    → weight_of (amount_for kind) entries ≤ limits kind
    → IsNew call entries
    → weight_of (amount_for kind) entries + amount_for kind call.reservation ≤ limits kind
amount-fits limits kind call entries limit bound new =
    elim (Bool-cases (call.reservation.kind == kind)) [
      | inl b ↦
          let same = (string_eq.same_iff call.reservation.kind kind).0 b in
          let fits = new.in_budget in
          let moved : weight_of (amount_for call.reservation.kind) entries
              ≡ weight_of (amount_for kind) entries =
            ap (λ k. weight_of (amount_for k) entries) same in
          let allowed : limits call.reservation.kind ≡ limits kind = ap limits same in
          rw b (omega arith)
      | inr b ↦ rw b (omega arith)
    ]

-- After calls of execute in any number, one after the other, from a journal that is not there,
-- each with the limit of its kind, the amounts of the operations of a kind that were run add up
-- to no more than its limit, whatever the operations answer and the writes end in.
pub Payments-IsInBudget :
    (limits : String → ℕ) {s : PaymentState} (kind : String)
    → Payments limits s
    → sum_of (amount_for kind) s.executed ≤ limits kind
Payments-IsInBudget limits {s} kind h =
    let w = Payments-IsWithin (amount_for kind) (limits kind) limits (amount-fits limits kind) h in
    let first = w.reserved_first in let last = w.bounded in omega arith

abbrev pub is_request : String → Reservation → Bool
is_request id r = r.request_id == id

abbrev pub is_stage : String → String → Reservation → Bool
is_stage run kind r = r.run_id == run && r.kind == kind

-- How many of the reservations pass a test.
abbrev pub one_if : (Reservation → Bool) → Reservation → ℕ
one_if test r = if test r then 1 else 0

no_request-weight :
    (id : String) (entries : List JournalEntry)
    → find (has_request id) entries ≡ none
    → weight_of (one_if (is_request id)) entries ≡ 0
no_request-weight id [] h = refl
no_request-weight id (e ∷ entries) h = elim (Bool-cases (e.reservation.request_id == id)) [
  | inl b ↦ ground (arith, b)
  | inr b ↦ ground (arith, b, no_request-weight id entries)
]

no_stage-weight :
    (r : Reservation) (entries : List JournalEntry)
    → any (is_for_stage r) entries ≡ false
    → weight_of (one_if (is_stage r.run_id r.kind)) entries ≡ 0
no_stage-weight r [] h = refl
no_stage-weight r (e ∷ entries) h = elim (Bool-cases (is_for_stage r e)) [
  | inl b ↦ ground (arith, b)
  | inr b ↦ ground (arith, b, no_stage-weight r entries)
]

request-fits :
    (limits : String → ℕ) (id : String) (call : PaymentCall) (entries : List JournalEntry)
    → call.limit ≡ limits call.reservation.kind
    → weight_of (one_if (is_request id)) entries ≤ 1
    → IsNew call entries
    → weight_of (one_if (is_request id)) entries + one_if (is_request id) call.reservation ≤ 1
request-fits limits id call entries limit bound new =
    elim (Bool-cases (is_request id call.reservation)) [
      | inl b ↦
          let same = (string_eq.same_iff call.reservation.request_id id).0 b in
          let absent : weight_of (one_if (is_request id)) entries ≡ 0 =
            subst (λ x. weight_of (one_if (is_request x)) entries ≡ 0) same
              (no_request-weight call.reservation.request_id entries new.no_request) in
          rw b (omega arith)
      | inr b ↦ rw b (omega arith)
    ]

is_stage-same :
    (run kind : String) (r : Reservation)
    → is_stage run kind r ≡ true
    → (r.run_id ≡ run) × (r.kind ≡ kind)
is_stage-same run kind r h = (
  (string_eq.same_iff r.run_id run).0 (ground arith),
  (string_eq.same_iff r.kind kind).0 (ground arith),
)

stage-fits :
    (limits : String → ℕ) (run kind : String) (call : PaymentCall) (entries : List JournalEntry)
    → call.limit ≡ limits call.reservation.kind
    → weight_of (one_if (is_stage run kind)) entries ≤ 1
    → IsNew call entries
    → weight_of (one_if (is_stage run kind)) entries + one_if (is_stage run kind) call.reservation
      ≤ 1
stage-fits limits run kind call entries limit bound new =
    elim (Bool-cases (is_stage run kind call.reservation)) [
      | inl b ↦
          let (same_run, same_kind) = is_stage-same run kind call.reservation b in
          let absent : weight_of (one_if (is_stage run kind)) entries ≡ 0 =
            subst (λ x. weight_of (one_if (is_stage x kind)) entries ≡ 0) same_run
              (subst (λ x. weight_of (one_if (is_stage call.reservation.run_id x)) entries ≡ 0)
                same_kind (no_stage-weight call.reservation entries new.no_stage)) in
          rw b (omega arith)
      | inr b ↦ rw b (omega arith)
    ]

once :
    (test : Reservation → Bool) {s : PaymentState}
    → IsWithin (one_if test) 1 s
    → sum_of (one_if test) s.executed ≤ 1
once test w = let first = w.reserved_first in let last = w.bounded in omega arith

-- After calls of execute in any number, one after the other, from a journal that is not there,
-- each with the limit of its kind, at most one operation was run under any request identifier,
-- and at most one of any kind for any run.
pub Payments-IsOnce :
    (limits : String → ℕ) {s : PaymentState} (id run kind : String)
    → Payments limits s
    → (sum_of (one_if (is_request id)) s.executed ≤ 1)
      × (sum_of (one_if (is_stage run kind)) s.executed ≤ 1)
Payments-IsOnce limits id run kind h = (
  once (is_request id)
      (Payments-IsWithin (one_if (is_request id)) 1 limits (request-fits limits id) h),
  once (is_stage run kind)
      (Payments-IsWithin (one_if (is_stage run kind)) 1 limits (stage-fits limits run kind) h),
)
