-- ===== src/Broker/Calls.antt =====
-- What a call of `execute` may do to the journal and to the chain.
use obolos.Prelude.{ℕ, ◌+◌, ◌≤◌, String, true, false, List, [], ◌∷◌, ◌++◌, Option, none, some}
use obolos.Prelude.{◌≡◌, refl, Result, Result-cases, ok, err, any, find, Bool-cases}
use obolos.Prelude.{◌⊎◌, inl, inr, arith, ltb, sym, subst}
use obolos.Stateful.{then_run}
use obolos.Runner.Journal.{WriteEnd, written, lost, half_done}
use obolos.Broker.{Reservation, PaymentResult, JournalEntry, PaymentFile, PaymentState, PaymentCall}
use obolos.Broker.{missing, unreadable, contents, read, save, has_request, is_for_stage, amount_for}
use obolos.Broker.{weight_of, is_inactive, is_duplicate, with_pending, with_settled, pay, caught}
use obolos.Broker.{admit, reserve_and_pay, pay_or_repeat, is_bad_budget, execute}

abbrev pub entries_of : PaymentFile → List JournalEntry
entries_of (contents entries) = entries
entries_of _ = []

-- A request that passed the guards.
pub record IsNew (call : PaymentCall) (entries : List JournalEntry) : Type 0 where
  pub no_request : find (has_request call.reservation.request_id) entries ≡ none
  pub no_stage : any (is_for_stage call.reservation) entries ≡ false
  pub in_budget :
      weight_of (amount_for call.reservation.kind) entries + call.reservation.amount ≤ call.limit

-- The journal gained the call's reservation.
abbrev pub with_entry : List JournalEntry → Reservation → Option PaymentResult → List JournalEntry
with_entry entries r settled = entries ++ record { reservation = r; settled = settled } ∷ []

pub data IsCall (call : PaymentCall) (s t : PaymentState) : Type 0 where
  kept : t ≡ s → IsCall call s t
  reserved :
      IsNew call (entries_of s.file)
      → t.file ≡ contents (with_entry (entries_of s.file) call.reservation none)
      → t.executed ≡ s.executed
      → IsCall call s t
  ran :
      (settled : Option PaymentResult)
      → IsNew call (entries_of s.file)
      → t.file ≡ contents (with_entry (entries_of s.file) call.reservation settled)
      → t.executed ≡ call.reservation ∷ s.executed
      → IsCall call s t

-- Where the body of the try block, begun in `s`, may leave the state.
data IsPaid (call : PaymentCall) (entries : List JournalEntry) (s t : PaymentState) : Type 0 where
  expired : t ≡ s → IsPaid call entries s t
  unsettled : t.file ≡ s.file → t.executed ≡ call.reservation ∷ s.executed → IsPaid call entries s t
  finished :
      (result : PaymentResult)
      → t.file ≡ contents (with_settled entries call.reservation result)
      → t.executed ≡ call.reservation ∷ s.executed
      → IsPaid call entries s t

pay-expired :
    (call : PaymentCall) (entries : List JournalEntry) (s : PaymentState)
    → is_inactive call.mandate_expires_at call.started_at ≡ true
    → (pay call entries s).0 ≡ s
unfolding pay
pay-expired call entries s e = rw e refl

pay-failed :
    (call : PaymentCall) (entries : List JournalEntry) (s : PaymentState) (x : String)
    → is_inactive call.mandate_expires_at call.started_at ≡ false
    → call.operation ≡ err x
    → (pay call entries s).0 ≡ record s { executed = call.reservation ∷ s.executed }
unfolding pay
pay-failed call entries s x e o = rw (e, o) refl

pay-duplicate :
    (call : PaymentCall) (entries : List JournalEntry) (s : PaymentState) (result : PaymentResult)
    → is_inactive call.mandate_expires_at call.started_at ≡ false
    → call.operation ≡ ok result
    → is_duplicate result.receipt (with_pending entries call.reservation) ≡ true
    → (pay call entries s).0 ≡ record s { executed = call.reservation ∷ s.executed }
unfolding pay
pay-duplicate call entries s result e o d = rw (e, o, d) refl

pay-saves :
    (call : PaymentCall) (entries : List JournalEntry) (s : PaymentState) (result : PaymentResult)
    → is_inactive call.mandate_expires_at call.started_at ≡ false
    → call.operation ≡ ok result
    → is_duplicate result.receipt (with_pending entries call.reservation) ≡ false
    → pay call entries s
      ≡ then_run
          (save call.settled_end
            (with_settled entries call.reservation result)
            (record s { executed = call.reservation ∷ s.executed }))
          (λ saved t. (t, ok result))
unfolding pay
pay-saves call entries s result e o d = rw (e, o, d) refl

saved-IsPaid :
    (call : PaymentCall) (entries : List JournalEntry) (s : PaymentState) (result : PaymentResult)
    (end : WriteEnd) (answer : Unit {0} → PaymentState → PaymentState × Result String PaymentResult)
    → ((t : PaymentState) → (answer tt t).0 ≡ t)
    → IsPaid call entries s
        (then_run
          (save end
            (with_settled entries call.reservation result)
            (record s { executed = call.reservation ∷ s.executed }))
          answer).0
unfolding save
saved-IsPaid call entries s result written answer a =
    subst (IsPaid call entries s) (sym (a _)) (finished result refl refl)
saved-IsPaid call entries s result lost answer a = unsettled refl refl
saved-IsPaid call entries s result half_done answer a = finished result refl refl

pay-IsPaid :
    (call : PaymentCall) (entries : List JournalEntry) (s : PaymentState)
    → IsPaid call entries s (pay call entries s).0
pay-IsPaid call entries s =
    elim (Bool-cases (is_inactive call.mandate_expires_at call.started_at)) [
      | inl e ↦ expired (pay-expired call entries s e)
      | inr e ↦ elim (Result-cases call.operation) [
        | inr (x, o) ↦
            subst (IsPaid call entries s) (sym (pay-failed call entries s x e o))
              (unsettled refl refl)
        | inl (result, o) ↦
            elim (Bool-cases
              (is_duplicate result.receipt (with_pending entries call.reservation))) [
                | inl d ↦
                    subst (IsPaid call entries s) (sym (pay-duplicate call entries s result e o d))
                      (unsettled refl refl)
                | inr d ↦
                    subst (λ run. IsPaid call entries s run.0)
                      (sym (pay-saves call entries s result e o d))
                      (saved-IsPaid call entries s result call.settled_end _ (λ t. refl))
              ]
      ]
    ]

pub caught-same : (s : PaymentState) (r : Result String PaymentResult) → (caught (s, r)).0 ≡ s
caught-same s (ok result) = refl
caught-same s (err e) = refl

within-limit : (limit n : ℕ) → ltb limit n ≡ false → n ≤ limit
within-limit limit n h = ground arith

admit-ok :
    (call : PaymentCall) (entries : List JournalEntry) (u : Unit {0})
    → find (has_request call.reservation.request_id) entries ≡ none
    → admit call entries ≡ ok u
    → IsNew call entries
unfolding admit
admit-ok call entries u f a = elim (Bool-cases (any (is_for_stage call.reservation) entries)) [
  | inl b ↦ ground (arith, b)
  | inr b ↦
      let total = weight_of (amount_for call.reservation.kind) entries + call.reservation.amount in
      elim (Bool-cases (ltb call.limit total)) [
        | inl c ↦ ground (arith, b, c)
        | inr c ↦ record {
          no_request = f;
          no_stage = b;
          in_budget = within-limit call.limit total c;
        }
      ]
]

reserve_and_pay-refused :
    (call : PaymentCall) (entries : List JournalEntry) (s : PaymentState) (x : String)
    → admit call entries ≡ err x
    → (reserve_and_pay call entries s).0 ≡ s
unfolding reserve_and_pay
reserve_and_pay-refused call entries s x a = rw a refl

pub reserve_and_pay-saves :
    (call : PaymentCall) (entries : List JournalEntry) (s : PaymentState) (u : Unit {0})
    → admit call entries ≡ ok u
    → reserve_and_pay call entries s
      ≡ then_run
          (save call.pending_end (with_pending entries call.reservation) s)
          (λ saved t. caught (pay call entries t))
unfolding reserve_and_pay
reserve_and_pay-saves call entries s u a = rw a refl

paid-IsCall :
    (call : PaymentCall) (s t : PaymentState)
    → IsNew call (entries_of s.file)
    → IsPaid call
        (entries_of s.file)
        (record s { file = contents (with_pending (entries_of s.file) call.reservation) })
        t
    → IsCall call s t
paid-IsCall call s t new (expired e) = reserved new (λ i. (e i).file) (λ i. (e i).executed)
paid-IsCall call s t new (unsettled file executed) = ran none new file executed
paid-IsCall call s t new (finished result file executed) = ran (some result) new file executed

save_then_pay-IsCall :
    (call : PaymentCall) (s : PaymentState) (end : WriteEnd)
    → IsNew call (entries_of s.file)
    → IsCall call s
        (then_run
          (save end (with_pending (entries_of s.file) call.reservation) s)
          (λ saved t. caught (pay call (entries_of s.file) t))).0
unfolding save
save_then_pay-IsCall call s written new =
    let u = record s { file = contents (with_pending (entries_of s.file) call.reservation) } in
    let paid = pay call (entries_of s.file) u in
    subst (IsCall call s) (sym (caught-same paid.0 paid.1))
      (paid-IsCall call s paid.0 new (pay-IsPaid call (entries_of s.file) u))
save_then_pay-IsCall call s lost new = kept refl
save_then_pay-IsCall call s half_done new = reserved new refl refl

reserve_and_pay-IsCall :
    (call : PaymentCall) (s : PaymentState)
    → find (has_request call.reservation.request_id) (entries_of s.file) ≡ none
    → IsCall call s (reserve_and_pay call (entries_of s.file) s).0
reserve_and_pay-IsCall call s f = elim (Result-cases (admit call (entries_of s.file))) [
  | inr (x, a) ↦ kept (reserve_and_pay-refused call (entries_of s.file) s x a)
  | inl (u, a) ↦
      subst (λ run. IsCall call s run.0)
        (sym (reserve_and_pay-saves call (entries_of s.file) s u a))
        (save_then_pay-IsCall call s call.pending_end (admit-ok call (entries_of s.file) u f a))
]

pay_or_repeat-IsCall :
    (call : PaymentCall) (s : PaymentState) (o : Option JournalEntry)
    → find (has_request call.reservation.request_id) (entries_of s.file) ≡ o
    → IsCall call s (pay_or_repeat call (entries_of s.file) o s).0
unfolding pay_or_repeat
pay_or_repeat-IsCall call s none f = reserve_and_pay-IsCall call s f
pay_or_repeat-IsCall call s (some previous) f = kept refl

-- What `execute` does once the mandate and the amounts are checked.
abbrev pub looked_up : PaymentCall → PaymentState → PaymentState × Result String PaymentResult
looked_up call s =
    pay_or_repeat call (entries_of s.file)
      (find (has_request call.reservation.request_id) (entries_of s.file)) s

pub read-entries :
    (file : PaymentFile) → (read file ≡ ok (entries_of file)) ⊎ ((x : String) × (read file ≡ err x))
unfolding read
read-entries missing = inl refl
read-entries unreadable = inr (_, refl)
read-entries (contents entries) = inl refl

-- A call stops with the state as it was, or it looks its request up.
pub execute-looks_up :
    (call : PaymentCall) (s : PaymentState)
    → (((execute call s).0 ≡ s) × (x : String) × ((execute call s).1 ≡ err x))
      ⊎ (execute call s ≡ looked_up call s)
unfolding execute
execute-looks_up call s = elim (Bool-cases (is_inactive call.mandate_expires_at call.called_at)) [
  | inl a ↦ inl (rw a (refl, _, refl))
  | inr a ↦ elim (Bool-cases (is_bad_budget call)) [
    | inl b ↦ inl (rw (a, b) (refl, _, refl))
    | inr b ↦ elim (read-entries s.file) [
      | inl r ↦ inr (rw (a, b, r) refl)
      | inr (x, r) ↦ inl (rw (a, b, r) (refl, _, refl))
    ]
  ]
]

pub execute-IsCall : (call : PaymentCall) (s : PaymentState) → IsCall call s (execute call s).0
execute-IsCall call s = elim (execute-looks_up call s) [
  | inl (same, x, e) ↦ kept same
  | inr h ↦ subst (λ run. IsCall call s run.0) (sym h) (pay_or_repeat-IsCall call s _ refl)
]
