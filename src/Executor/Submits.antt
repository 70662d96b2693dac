-- ===== src/Executor/Submits.antt =====
-- `durableOperation` submits under a file that says so, and never twice.
use obolos.Prelude.{ℕ, ◌+◌, ◌≤◌, String, true, false, not, ◌∷◌, none}
use obolos.Prelude.{◌==◌, string_eq, ◌≡◌, refl, sym, ap, subst, ◌∙◌, arith, Result, ok, err}
use obolos.Prelude.{throw_if, if◌then◌else◌, Bool-cases, ◌⊎◌, inl, inr}
use obolos.Stateful.{Stateful, then_run, Ends, Ends-then, Ends-lift, Ends-if}
use obolos.Stateful.{Ends-map}
use obolos.Executor.{ExecutorAction, submitting}
use obolos.Executor.{Operation, File, missing, unreadable, contents, SaveEnd}
use obolos.Executor.{OperationFiles, Desk, operation_of, with_operation}
use obolos.Executor.{Submission, Answers, Runtime, catching, death}
use obolos.Executor.Operations.{save_operation, operation_with, submit_and_save}
use obolos.Executor.Operations.{mark_uncertain, answer_previous, operate, durable_operation, is_key}
use obolos.Executor.Stages.{operate_and_prove}
use obolos.Executor.Frames.{is_missing, same_action, times, absent, IsOnceEach, Frame}
use obolos.Executor.Frames.{Ends-ended, operation_of-with-same}
use obolos.Executor.Refresh.{IsFound, circle_receipt-IsFound}

-- The journal and the reservation are as they were, and the payment too for another operation.
pub record Worked (kind : ExecutorAction) (s t : Desk) : Type 0 where
  pub same_journal : t.journal ≡ s.journal
  pub same_reservation : t.reservation ≡ s.reservation
  pub same_payment :
      same_action ExecutorAction.pay kind ≡ false
      → absent ExecutorAction.pay t ≡ absent ExecutorAction.pay s
  pub once_kept : IsOnceEach s → IsOnceEach t

Worked-refl : (kind : ExecutorAction) (s : Desk) → Worked kind s s
Worked-refl kind s = record {
  same_journal = refl;
  same_reservation = refl;
  same_payment = λ e. refl;
  once_kept = λ h. h;
}

pub Worked-then :
    (kind : ExecutorAction) (s t u : Desk) → Worked kind s t → Frame t u → Worked kind s u
Worked-then kind s t u w f = record {
  same_journal = f.same_journal ∙ w.same_journal;
  same_reservation = f.same_reservation ∙ w.same_reservation;
  same_payment = λ e. f.same_payment ∙ w.same_payment e;
  once_kept = λ h. f.once_kept (w.once_kept h);
}

-- The file is there, before or after the submission.
record Begun (kind : ExecutorAction) (s t : Desk) : Type 0 where
  same_journal : t.journal ≡ s.journal
  same_reservation : t.reservation ≡ s.reservation
  others : (k : ExecutorAction) → same_action k kind ≡ false → absent k t ≡ absent k s
  present : absent kind t ≡ false
  sent : (t.submissions ≡ s.submissions) ⊎ (t.submissions ≡ kind ∷ s.submissions)

operation_of-with-other :
    (k kind : ExecutorAction) (op : Operation) (o : OperationFiles)
    → same_action k kind ≡ false
    → is_missing (operation_of k (with_operation kind (contents op) o))
      ≡ is_missing (operation_of k o)
operation_of-with-other k kind op o h = ground arith

same_file :
    (k kind : ExecutorAction) (o : OperationFiles)
    → same_action k kind ≡ true
    → is_missing (operation_of k o) ≡ is_missing (operation_of kind o)
same_file k kind o h = ground arith

saved-Begun :
    (kind : ExecutorAction) (op : Operation) (s t : Desk)
    → Begun kind s t
    → Begun kind s (record t { operations = with_operation kind (contents op) t.operations })
saved-Begun kind op s t b = record {
  same_journal = b.same_journal;
  same_reservation = b.same_reservation;
  others = λ k e. operation_of-with-other k kind op t.operations e ∙ b.others k e;
  present = operation_of-with-same kind op t.operations;
  sent = b.sent;
}

first-Begun :
    (kind : ExecutorAction) (op : Operation) (s : Desk)
    → Begun kind s (record s { operations = with_operation kind (contents op) s.operations })
first-Begun kind op s = record {
  same_journal = refl;
  same_reservation = refl;
  others = λ k e. operation_of-with-other k kind op s.operations e;
  present = operation_of-with-same kind op s.operations;
  sent = inl refl;
}

submitted-Begun :
    (kind : ExecutorAction) (s t : Desk)
    → Begun kind s t
    → t.submissions ≡ s.submissions
    → Begun kind s (record t { submissions = kind ∷ t.submissions })
submitted-Begun kind s t b e = record {
  same_journal = b.same_journal;
  same_reservation = b.same_reservation;
  others = b.others;
  present = b.present;
  sent = inr (ap (λ l. kind ∷ l) e);
}

-- Counting one more.
counted :
    (k kind : ExecutorAction) (n : ℕ)
    → (same_action k kind ≡ true → n ≡ 0)
    → n ≤ 1
    → (if same_action k kind then 1 else 0) + n ≤ 1
counted k kind n none_yet most = elim (Bool-cases (same_action k kind)) [
  | inl b ↦ let zero_times = none_yet b in rw b (omega arith)
  | inr b ↦ rw b (omega arith)
]

Begun-once :
    (kind : ExecutorAction) (s t : Desk)
    → absent kind s ≡ true
    → Begun kind s t
    → IsOnceEach s
    → IsOnceEach t
Begun-once kind s t gone b once = record {
  never_without = λ k lacks. elim (Bool-cases (same_action k kind)) [
    | inl e ↦
        let there = same_file k kind t.operations e ∙ b.present in
        let impossible : true ≡ false = sym lacks ∙ there in cc
    | inr e ↦ elim b.sent [
      | inl same ↦ ap (times k) same ∙ once.never_without k (sym (b.others k e) ∙ lacks)
      | inr more ↦
          let none_yet = once.never_without k (sym (b.others k e) ∙ lacks) in
          ap (times k) more ∙ rw e (omega arith)
    ]
  ];
  at_most_once = λ k. elim b.sent [
    | inl same ↦ subst (λ l. times k l ≤ 1) (sym same) (once.at_most_once k)
    | inr more ↦
        subst (λ l. times k l ≤ 1) (sym more)
          (counted k kind (times k s.submissions)
            (λ e. once.never_without k (same_file k kind s.operations e ∙ gone))
            (once.at_most_once k))
  ];
}

Begun-Worked :
    (kind : ExecutorAction) (s t : Desk) → absent kind s ≡ true → Begun kind s t → Worked kind s t
Begun-Worked kind s t gone b = record {
  same_journal = b.same_journal;
  same_reservation = b.same_reservation;
  same_payment = λ e. b.others ExecutorAction.pay e;
  once_kept = Begun-once kind s t gone b;
}

Ends-write :
    {B : Type 0} (kind : ExecutorAction) (s t : Desk) (Q : B → Desk → Type 0) (end : SaveEnd)
    (op : Operation) (next : Unit {0} → Stateful Desk B)
    → Begun kind s t
    → ((u : Desk) → Begun kind s u → Ends (Begun kind s) Q (next tt u))
    → Ends (Begun kind s) Q (then_run (save_operation kind end op t) next)
Ends-write kind s t Q end op next b rest =
    Ends-ended (Begun kind s) Q end t _ next b (saved-Begun kind op s t b)
      (rest _ (saved-Begun kind op s t b))

submit_and_save-Begun :
    (kind : ExecutorAction) (sub : Submission) (s t : Desk)
    → Begun kind s t
    → t.submissions ≡ s.submissions
    → Ends (Begun kind s) (λ op. Begun kind s) (submit_and_save kind sub t)
unfolding submit_and_save
submit_and_save-Begun kind sub s t b e =
    let sent = submitted-Begun kind s t b e in
    Ends-lift (Begun kind s) (λ op. Begun kind s) sub.answer _ _ sent
      (λ result f.
        Ends-lift (Begun kind s) (λ op. Begun kind s)
          (throw_if (not (is_key sub.key result.idempotency_key)) _) _ _ sent
          (λ u g. Ends-write kind s _ (λ op. Begun kind s) sub.submitted_end _ _ sent (λ v h. h)))

-- A handler that keeps what the body kept.
pub Ends-catching :
    {A : Type 0} (P : Desk → Type 0) (Q : A → Desk → Type 0) (handler : Stateful Desk A)
    (run : Desk × Result String A)
    → ((s : Desk) → P s → Ends P Q (handler s))
    → Ends P Q run
    → Ends P Q (catching handler run)
Ends-catching P Q handler (s, ok a) caught h = h
Ends-catching P Q handler (s, err e) caught h =
    Ends-if P Q (e == death) (λ t. (t, err e)) handler s (λ died. h) (λ alive. caught s h)

mark_uncertain-Begun :
    (kind : ExecutorAction) (sub : Submission) (s t : Desk)
    → Begun kind s t
    → Ends (Begun kind s) (λ op. Begun kind s) (mark_uncertain kind sub t)
mark_uncertain-Begun kind sub s t b =
    Ends-write kind s t (λ op. Begun kind s) sub.uncertain_end _ _ b (λ u h. h)

abbrev pub IsWorked : ExecutorAction → Desk → Desk → Type 0
IsWorked kind s t = Worked kind s t × (absent kind t ≡ false)

Begun-IsWorked :
    (kind : ExecutorAction) (s t : Desk) → absent kind s ≡ true → Begun kind s t → IsWorked kind s t
Begun-IsWorked kind s t gone b = (Begun-Worked kind s t gone b, b.present)

-- A new operation, saved before it is submitted.
new-IsWorked :
    (kind : ExecutorAction) (sub : Submission) (s : Desk)
    → absent kind s ≡ true
    → Ends (Worked kind s) (λ op. IsWorked kind s) (operate kind sub missing s)
unfolding operate
new-IsWorked kind sub s gone =
    let first = first-Begun kind (operation_with sub submitting none) s in
    Ends-ended (Worked kind s) (λ op. IsWorked kind s) sub.submitting_end s _ _ (Worked-refl kind s)
      (Begun-Worked kind s _ gone first)
      (Ends-map (Begun kind s) (Worked kind s) (λ op. Begun kind s) (λ op. IsWorked kind s) _
        (λ t b. Begun-Worked kind s t gone b) (λ op t b. Begun-IsWorked kind s t gone b)
        (Ends-catching (Begun kind s) (λ op. Begun kind s) (mark_uncertain kind sub) _
          (λ t b. mark_uncertain-Begun kind sub s t b)
          (submit_and_save-Begun kind sub s _ first refl)))

operate-IsWorked :
    (kind : ExecutorAction) (sub : Submission) (file : File Operation) (s : Desk)
    → absent kind s ≡ is_missing file
    → Ends (Worked kind s) (λ op. IsWorked kind s) (operate kind sub file s)
unfolding operate
operate-IsWorked kind sub unreadable s e = Worked-refl kind s
operate-IsWorked kind sub missing s e = new-IsWorked kind sub s e
operate-IsWorked kind sub (contents previous) s e =
    answered (answer_previous sub.intent_hash previous)
  where
    answered : (r : Result String Operation) → Ends (Worked kind s) (λ op. IsWorked kind s) (s, r)
    answered (ok op) = (Worked-refl kind s, e)
    answered (err x) = Worked-refl kind s

durable_operation-IsWorked :
    (kind : ExecutorAction) (sub : Submission) (s : Desk)
    → Ends (Worked kind s) (λ op. IsWorked kind s) (durable_operation kind sub s)
unfolding durable_operation
durable_operation-IsWorked kind sub s =
    Ends-lift (Worked kind s) (λ op. IsWorked kind s) sub.checked _ s (Worked-refl kind s)
      (λ u e. operate-IsWorked kind sub (operation_of kind s.operations) s refl)

-- An operation and its receipt.
pub operate_and_prove-IsWorked :
    (runtime : Runtime) (a : Answers) (site : ℕ) (kind : ExecutorAction) (s : Desk)
    → Ends (Worked kind s) (λ hash. IsWorked kind s) (operate_and_prove runtime a site kind s)
operate_and_prove-IsWorked runtime a site kind s =
    Ends-then (Worked kind s) (λ op. IsWorked kind s) (λ hash. IsWorked kind s) _ _
      (durable_operation-IsWorked kind (a.submission kind) s)
      (λ op t h.
        Ends-map (Frame t) (Worked kind s) (λ hash. IsFound kind t) (λ hash. IsWorked kind s) _
          (λ u g. Worked-then kind s t u h.0 g) (λ hash u g. (Worked-then kind s t u h.0 g.0, g.1))
          (circle_receipt-IsFound runtime kind (a.reconciliation (50 + site)) (a.finalized site) op
            t h.1))
