-- ===== src/Executor/Reached.antt =====
-- What holds in a directory after any runs.
use obolos.Prelude.{String, Bool, true, false, Option, none, some, ◌≡◌, refl, sym, []}
use obolos.Prelude.{
  ◌==◌, string_eq, ap, subst, ◌∙◌, Result, ok, err, throw_if, if◌then◌else◌, arith,
}
use obolos.Prelude.{◌⊎◌, inl, inr, Bool-cases, throw_if-ok}
use obolos.Stateful.{Ends, Ends-lift, Ends-state}
use obolos.Executor.{ExecutorAction, ExecutorPhase, prepared, approving, approved, paying, paid}
use obolos.Executor.{
  delivered, acknowledging, completed, aborting, aborted, File, missing, unreadable,
}
use obolos.Executor.{contents, ExecutorState, ExecutorInput, Desk, Answers, Runtime}
use obolos.Executor.Run.{read_file, is_bad_intent, is_other_intent, is_other_holder, authenticate}
use obolos.Executor.Run.{run_executor}
use obolos.Executor.Frames.{absent, IsOnceIn, IsOnceEach}
use obolos.Executor.InStep.{Stands, InStep, Holds}
use obolos.Executor.Opened.{run_executor-P}
use obolos.Executor.Directory.{
  OrderFiles, Directory, files_of, desk_with, desk_of, put_desk, run_in,
}
use obolos.Executor.Directory.{no_operations, Runs, none_yet, and_run}

-- The reservation is free for an order: nobody holds it, or the order does.
abbrev IsFree : String → File String → Type 0
IsFree id reservation = (reservation ≡ missing) ⊎ (reservation ≡ contents id)

is_other_holder-IsFree :
    (intent : ExecutorInput) (reservation : File String) (held : Option String)
    → read_file reservation ≡ ok held
    → is_other_holder intent held ≡ false
    → IsFree intent.order_id reservation
unfolding read_file
is_other_holder-IsFree intent missing held e f = inl refl
is_other_holder-IsFree intent unreadable held e f = cc
is_other_holder-IsFree intent (contents id) none e f = cc
is_other_holder-IsFree intent (contents id) (some other) e f =
    let same : id ≡ other = cc in
    let mine = (string_eq.same_iff other intent.order_id).0 (ground arith) in
    inr (ap (λ x. contents x) (same ∙ mine))

-- Where everything is possible.
Ends-all :
    {S A : Type 0} (P : S → Type 0) (Q : A → S → Type 0) (run : S × Result String A)
    → ((s : S) → P s)
    → ((a : A) (s : S) → Q a s)
    → Ends P Q run
Ends-all P Q (s, ok a) f g = g a s
Ends-all P Q (s, err e) f g = f s

abbrev IsSameOrFree : String → Desk → Desk → Type 0
IsSameOrFree id s t = (t ≡ s) ⊎ IsFree id s.reservation

-- A run changes nothing, or the reservation was free for it.
run_executor-IsSameOrFree :
    (runtime : Runtime) (intent : ExecutorInput) (a : Answers) (s : Desk)
    → Ends
        (IsSameOrFree intent.order_id s)
        (λ st. IsSameOrFree intent.order_id s)
        (run_executor runtime intent a s)
unfolding run_executor
run_executor-IsSameOrFree runtime intent a s =
    let P = IsSameOrFree intent.order_id s in
    Ends-lift P (λ st. P) a.valid _ s (inl refl)
      (λ u e.
        Ends-lift P (λ st. P) (throw_if (is_bad_intent intent) _) _ s (inl refl)
          (λ u e.
            Ends-lift P (λ st. P) (read_file s.journal) _ s (inl refl)
              (λ stored e.
                Ends-lift P (λ st. P) (throw_if (is_other_intent runtime intent stored) _) _ s
                  (inl refl)
                  (λ u e.
                    Ends-lift P (λ st. P) (authenticate a) _ s (inl refl)
                      (λ u e.
                        Ends-lift P (λ st. P) (read_file s.reservation) _ s (inl refl)
                          (λ held read.
                            Ends-lift P (λ st. P) (throw_if (is_other_holder intent held) _) _ s
                              (inl refl)
                              (λ u e.
                                let free =
                                  is_other_holder-IsFree intent s.reservation held read
                                    (throw_if-ok _ _ e) in
                                Ends-all P (λ st. P) _ (λ t. inr free) (λ st t. inr free))))))))

abbrev IsThere : File String → Type 0
IsThere missing = ⊥
IsThere _ = Unit

abbrev holder_of : String → File String → String
holder_of default (contents id) = id
holder_of default _ = default

-- Another order does not hold a reservation that is free for this one.
not_held :
    (id other : String) (reservation : File String)
    → IsFree id reservation
    → ¬ (other ≡ id)
    → ¬ (reservation ≡ contents other)
not_held id other reservation (inl e) differs held = subst IsThere (sym held ∙ e) tt
not_held id other reservation (inr e) differs held = differs (ap (holder_of other) (sym held ∙ e))

other-Stands :
    (id other : String) (phase : ExecutorPhase) (r t : File String) (unpaid : Bool)
    → IsFree id r
    → ¬ (other ≡ id)
    → Stands other phase r unpaid
    → Stands other phase t unpaid
other-Stands id other prepared r t unpaid free differs h = h
other-Stands id other approving r t unpaid free differs h =
    absurd (not_held id other r free differs h.1)
other-Stands id other approved r t unpaid free differs h =
    absurd (not_held id other r free differs h.1)
other-Stands id other paying r t unpaid free differs h = absurd (not_held id other r free differs h)
other-Stands id other paid r t unpaid free differs h = h
other-Stands id other delivered r t unpaid free differs h = h
other-Stands id other acknowledging r t unpaid free differs h = h
other-Stands id other completed r t unpaid free differs h = h
other-Stands id other aborting r t unpaid free differs h = h
other-Stands id other aborted r t unpaid free differs h = h

other-InStep :
    (id other : String) (journal : File ExecutorState) (r t : File String) (unpaid : Bool)
    → IsFree id r
    → ¬ (other ≡ id)
    → InStep other journal r unpaid
    → InStep other journal t unpaid
other-InStep id other missing r t unpaid free differs h = h
other-InStep id other unreadable r t unpaid free differs h = tt
other-InStep id other (contents state) r t unpaid free differs (order, st) =
    (order, other-Stands id other state.phase r t unpaid free differs st)

-- A run keeps the other orders in step.
other-Holds :
    (id other : String) (f : OrderFiles) (s t : Desk)
    → ¬ (other ≡ id)
    → IsSameOrFree id s t
    → Holds (InStep other) (desk_with f s.reservation)
    → Holds (InStep other) (desk_with f t.reservation)
other-Holds id other f s t differs (inl same) h =
    subst (λ x. Holds (InStep other) (desk_with f x.reservation)) (sym same) h
other-Holds id other f s t differs (inr free) (once, st) =
    (once, other-InStep id other f.journal s.reservation t.reservation _ free differs st)

empty-once : IsOnceIn no_operations []
empty-once = record { never_without = λ kind e. refl; at_most_once = λ kind. omega arith }

own-Holds :
    (runtime : Runtime) (intent : ExecutorInput) (a : Answers) (s : Desk)
    → Holds (InStep intent.order_id) s
    → Holds (InStep intent.order_id) (run_executor runtime intent a s).0
own-Holds runtime intent a s h =
    Ends-state (Holds (InStep intent.order_id)) (λ st. Holds (InStep intent.order_id))
      (run_executor runtime intent a s) (λ st t p. p)
      (run_executor-P intent.order_id runtime intent a s refl h)

ran-IsSameOrFree :
    (runtime : Runtime) (intent : ExecutorInput) (a : Answers) (s : Desk)
    → IsSameOrFree intent.order_id s (run_executor runtime intent a s).0
ran-IsSameOrFree runtime intent a s =
    Ends-state (IsSameOrFree intent.order_id s) (λ st. IsSameOrFree intent.order_id s)
      (run_executor runtime intent a s) (λ st t p. p) (run_executor-IsSameOrFree runtime intent a s)

picked :
    (id own : String) (f g : OrderFiles) (r : File String)
    → ((id ≡ own) → Holds (InStep id) (desk_with f r))
    → (¬ (id ≡ own) → Holds (InStep id) (desk_with g r))
    → Holds (InStep id) (desk_with (if id == own then f else g) r)
picked id own f g r same other = elim (Bool-cases (id == own)) [
  | inl b ↦
      subst (λ x. Holds (InStep id) (desk_with (if x then f else g) r)) (sym b)
        (same ((string_eq.same_iff id own).0 b))
  | inr b ↦
      subst (λ x. Holds (InStep id) (desk_with (if x then f else g) r)) (sym b)
        (other (λ e. differing b ((string_eq.same_iff id own).1 e)))
]
  where
    differing : {x : Bool} → x ≡ false → ¬ (x ≡ true)
    differing e f = cc

Runs-Holds : {d : Directory} (id : String) → Runs d → Holds (InStep id) (desk_of d id)
unfolding run_in put_desk
Runs-Holds id none_yet = (empty-once, refl)
Runs-Holds id (and_run runtime intent a {d} r) =
    let own = intent.order_id in
    let s = desk_of d own in
    let t = (run_executor runtime intent a s).0 in
    picked id own (files_of t) (d.orders id) t.reservation
      (λ e.
        subst (λ x. Holds (InStep x) t) (sym e) (own-Holds runtime intent a s (Runs-Holds own r)))
      (λ differs.
        other-Holds own id (d.orders id) s t differs (ran-IsSameOrFree runtime intent a s)
          (Runs-Holds id r))

-- After any runs of any orders one after the other, from an empty directory and under any answers,
-- ends of writes and deaths, the journal of each order that is there is of that order, and in step:
-- in the phases before the payment, and when it is aborted, the order has no payment operation;
-- while it is approved or paid, the reservation is its own; and behind the payment it has one.
pub Runs-InStep :
    {d : Directory} (id : String)
    → Runs d
    → InStep id (d.orders id).journal d.reservation (absent ExecutorAction.pay (desk_of d id))
Runs-InStep id r = (Runs-Holds id r).1

-- After any runs of any orders one after the other, from an empty directory and under any answers,
-- ends of writes and deaths, no operation of an order was submitted twice, and none of which there
-- is no file was submitted.
pub Runs-IsOnceEach : {d : Directory} (id : String) → Runs d → IsOnceEach (desk_of d id)
Runs-IsOnceEach id r = (Runs-Holds id r).0

-- The phases that hold the reservation.
abbrev pub is_holding : ExecutorPhase → Bool
is_holding approving = true
is_holding approved = true
is_holding paying = true
is_holding _ = false

holding-reserved :
    (id : String) (phase : ExecutorPhase) (reservation : File String) (unpaid : Bool)
    → is_holding phase ≡ true
    → Stands id phase reservation unpaid
    → reservation ≡ contents id
holding-reserved id approving reservation unpaid e h = h.1
holding-reserved id approved reservation unpaid e h = h.1
holding-reserved id paying reservation unpaid e h = h
holding-reserved id prepared reservation unpaid e h = cc
holding-reserved id paid reservation unpaid e h = cc
holding-reserved id delivered reservation unpaid e h = cc
holding-reserved id acknowledging reservation unpaid e h = cc
holding-reserved id completed reservation unpaid e h = cc
holding-reserved id aborting reservation unpaid e h = cc
holding-reserved id aborted reservation unpaid e h = cc

order-reserved :
    {d : Directory} (id : String) (state : ExecutorState)
    → Runs d
    → (d.orders id).journal ≡ contents state
    → is_holding state.phase ≡ true
    → d.reservation ≡ contents id
order-reserved {d} id state r journal e =
    let st : InStep id (contents state) d.reservation (absent ExecutorAction.pay (desk_of d id)) =
      subst (λ j. InStep id j d.reservation (absent ExecutorAction.pay (desk_of d id))) journal
        (Runs-InStep id r) in
    holding-reserved id state.phase d.reservation _ e st.1

-- After any runs of any orders one after the other, from an empty directory and under any answers,
-- ends of writes and deaths, two orders whose journals are in the phases approving, approved or
-- paying are one: no two orders are between their approval and their payment.
pub Runs-one_holder :
    {d : Directory} (id other : String) (s t : ExecutorState)
    → Runs d
    → (d.orders id).journal ≡ contents s
    → (d.orders other).journal ≡ contents t
    → is_holding s.phase ≡ true
    → is_holding t.phase ≡ true
    → id ≡ other
Runs-one_holder {d} id other s t r js jt es et =
    ap (holder_of id) (sym (order-reserved id s r js es) ∙ order-reserved other t r jt et)
