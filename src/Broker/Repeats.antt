-- ===== src/Broker/Repeats.antt =====
-- A request that `execute` answered, given again.
use obolos.Prelude.{String, true, false, List, [], ◌∷◌, ◌++◌, Option, none, some, ◌==◌}
use obolos.Prelude.{
  ◌≡◌, refl, sym, subst, ap, arith, string_eq, find, Result, Result-cases, ok, err,
}
use obolos.Prelude.{Bool-cases, inl, inr, ◌∙◌}
use obolos.Stateful.{then_run}
use obolos.Runner.Journal.{WriteEnd, written, lost, half_done}
use obolos.Broker.{Reservation, PaymentResult, JournalEntry, PaymentFile, PaymentState, PaymentCall}
use obolos.Broker.{contents, read, save, has_request, is_inactive}
use obolos.Broker.{with_pending, with_settled, pay, caught, repeat, admit, reserve_and_pay}
use obolos.Broker.{pay_or_repeat, is_bad_budget, execute}
use obolos.Broker.Calls.{entries_of, looked_up, read-entries, caught-same, reserve_and_pay-saves}

-- The journal answers a reservation with a result.
pub record Answers (r : Reservation) (result : PaymentResult) (file : PaymentFile) : Type 0 where
  pub entry : JournalEntry
  pub readable : read file ≡ ok (entries_of file)
  pub found : find (has_request r.request_id) (entries_of file) ≡ some entry
  pub answered : repeat r entry ≡ ok result

same_text : (a : String) → (a == a) ≡ true
same_text a = (string_eq.same_iff a a).1 refl

repeat-settled :
    (r : Reservation) (result : PaymentResult)
    → repeat r (record { reservation = r; settled = some result }) ≡ ok result
unfolding repeat
repeat-settled r result = rw (same_text r.digest, same_text r.run_id, same_text r.kind) refl

find-last :
    (id : String) (entries : List JournalEntry) (e : JournalEntry)
    → find (has_request id) entries ≡ none
    → has_request id e ≡ true
    → find (has_request id) (entries ++ e ∷ []) ≡ some e
find-last id [] e h last = rw last refl
find-last id (x ∷ entries) e h last = elim (Bool-cases (has_request id x)) [
  | inl b ↦ ground (arith, b)
  | inr b ↦ ground (arith, b, find-last id entries e)
]

settled-Answers :
    (r : Reservation) (result : PaymentResult) (entries : List JournalEntry) (file : PaymentFile)
    → find (has_request r.request_id) entries ≡ none
    → file ≡ contents (with_settled entries r result)
    → Answers r result file
unfolding read
settled-Answers r result entries file f e = subst (Answers r result) (sym e) (record {
  entry = record { reservation = r; settled = some result };
  readable = refl;
  found = find-last r.request_id entries _ f (same_text r.request_id);
  answered = repeat-settled r result;
})

pay-ok :
    (call : PaymentCall) (entries : List JournalEntry) (s : PaymentState) (result : PaymentResult)
    → (pay call entries s).1 ≡ ok result
    → (pay call entries s).0.file ≡ contents (with_settled entries call.reservation result)
unfolding pay save
pay-ok call entries s result h = ground arith

caught-ok :
    (s : PaymentState) (r : Result String PaymentResult) (result : PaymentResult)
    → (caught (s, r)).1 ≡ ok result
    → r ≡ ok result
caught-ok s (ok other) result h = h
caught-ok s (err e) result h = cc

caught-pay-ok :
    (call : PaymentCall) (entries : List JournalEntry) (s : PaymentState) (result : PaymentResult)
    → (caught (pay call entries s)).1 ≡ ok result
    → (caught (pay call entries s)).0.file ≡ contents (with_settled entries call.reservation result)
caught-pay-ok call entries s result h =
    let paid = pay call entries s in
    ap (λ x. x.file) (caught-same paid.0 paid.1)
    ∙ pay-ok call entries s result (caught-ok paid.0 paid.1 result h)

saved_then_pay-ok :
    (call : PaymentCall) (entries : List JournalEntry) (s : PaymentState) (result : PaymentResult)
    (end : WriteEnd)
    → (then_run
        (save end (with_pending entries call.reservation) s)
        (λ saved t. caught (pay call entries t))).1
      ≡ ok result
    → (then_run
        (save end (with_pending entries call.reservation) s)
        (λ saved t. caught (pay call entries t))).0.file
      ≡ contents (with_settled entries call.reservation result)
unfolding save
saved_then_pay-ok call entries s result written h = caught-pay-ok call entries _ result h
saved_then_pay-ok call entries s result lost h = cc
saved_then_pay-ok call entries s result half_done h = cc

reserve_and_pay-ok :
    (call : PaymentCall) (entries : List JournalEntry) (s : PaymentState) (result : PaymentResult)
    → (reserve_and_pay call entries s).1 ≡ ok result
    → (reserve_and_pay call entries s).0.file
      ≡ contents (with_settled entries call.reservation result)
unfolding reserve_and_pay
reserve_and_pay-ok call entries s result h = elim (Result-cases (admit call entries)) [
  | inr (x, a) ↦ ground (arith, a)
  | inl (u, a) ↦
      let e = reserve_and_pay-saves call entries s u a in
      ap (λ run. run.0.file) e
      ∙ saved_then_pay-ok call entries s result call.pending_end
          (subst (λ run. run.1 ≡ ok result) e h)
]

pay_or_repeat-Answers :
    (call : PaymentCall) (s : PaymentState) (result : PaymentResult) (o : Option JournalEntry)
    → read s.file ≡ ok (entries_of s.file)
    → find (has_request call.reservation.request_id) (entries_of s.file) ≡ o
    → (pay_or_repeat call (entries_of s.file) o s).1 ≡ ok result
    → Answers call.reservation result (pay_or_repeat call (entries_of s.file) o s).0.file
unfolding pay_or_repeat
pay_or_repeat-Answers call s result none r f h =
    settled-Answers call.reservation result (entries_of s.file) _ f
      (reserve_and_pay-ok call (entries_of s.file) s result h)
pay_or_repeat-Answers call s result (some previous) r f h = record {
  entry = previous;
  readable = r;
  found = f;
  answered = h;
}

-- `execute`, when nothing before the look-up stops it.
execute-looked_up :
    (call : PaymentCall) (s : PaymentState)
    → is_inactive call.mandate_expires_at call.called_at ≡ false
    → is_bad_budget call ≡ false
    → read s.file ≡ ok (entries_of s.file)
    → execute call s ≡ looked_up call s
unfolding execute
execute-looked_up call s a b r = rw (a, b, r) refl

-- What an answer shows of the checks before the look-up.
record IsReadable (call : PaymentCall) (s : PaymentState) : Type 0 where
  is_active : is_inactive call.mandate_expires_at call.called_at ≡ false
  is_fair : is_bad_budget call ≡ false
  is_read : read s.file ≡ ok (entries_of s.file)

execute-IsReadable :
    (call : PaymentCall) (s : PaymentState) (result : PaymentResult)
    → (execute call s).1 ≡ ok result
    → IsReadable call s
unfolding execute
execute-IsReadable call s result h =
    elim (Bool-cases (is_inactive call.mandate_expires_at call.called_at)) [
      | inl a ↦ ground (arith, a)
      | inr a ↦ elim (Bool-cases (is_bad_budget call)) [
        | inl b ↦ ground (arith, a, b)
        | inr b ↦ elim (read-entries s.file) [
          | inl r ↦ record { is_active = a; is_fair = b; is_read = r }
          | inr (x, r) ↦ ground (arith, a, b, r)
        ]
      ]
    ]

pub execute-Answers :
    (call : PaymentCall) (s : PaymentState) (result : PaymentResult)
    → (execute call s).1 ≡ ok result
    → Answers call.reservation result (execute call s).0.file
execute-Answers call s result h =
    let r = execute-IsReadable call s result h in
    let e = execute-looked_up call s r.is_active r.is_fair r.is_read in
    subst (λ run. Answers call.reservation result run.0.file) (sym e)
      (pay_or_repeat-Answers call s result _ r.is_read refl (subst (λ run. run.1 ≡ ok result) e h))

looked_up-Answers :
    (call : PaymentCall) (s : PaymentState) (result : PaymentResult)
    → Answers call.reservation result s.file
    → looked_up call s ≡ (s, ok result)
unfolding pay_or_repeat
looked_up-Answers call s result a = let f = a.found in let h = a.answered in rw (f, h) refl

-- When a call of execute returned a result, a call with the same request, run, kind, input and
-- amount right after it, under an active mandate and with amounts that are safe integers,
-- returns that result and leaves the journal and what was run as they were, whatever its
-- operation would answer.
pub execute-repeats :
    (first second : PaymentCall) (s : PaymentState) (result : PaymentResult)
    → (execute first s).1 ≡ ok result
    → second.reservation ≡ first.reservation
    → is_inactive second.mandate_expires_at second.called_at ≡ false
    → is_bad_budget second ≡ false
    → execute second (execute first s).0 ≡ ((execute first s).0, ok result)
execute-repeats first second s result h same active fair =
    let answers : Answers second.reservation result (execute first s).0.file =
      subst (λ r. Answers r result (execute first s).0.file) (sym same)
        (execute-Answers first s result h) in
    execute-looked_up second (execute first s).0 active fair answers.readable
    ∙ looked_up-Answers second (execute first s).0 result answers
