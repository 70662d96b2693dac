-- ===== src/Executor/InStep.antt =====
-- The phase in the journal of an order is in step with its payment and with the reservation.
use obolos.Prelude.{String, Bool, true, false}
use obolos.Prelude.{string_eq, ◌≡◌, sym, subst}
use obolos.Executor.{ExecutorAction, ExecutorPhase, prepared, approving, approved, paying, paid}
use obolos.Executor.{
  delivered, acknowledging, completed, aborting, aborted, File, missing, unreadable,
}
use obolos.Executor.{contents, ExecutorState, Desk}
use obolos.Executor.Frames.{absent, IsOnceEach, Frame}

-- What a phase says of the reservation, and of whether the payment's file is missing.
abbrev pub Stands : String → ExecutorPhase → File String → Bool → Type 0
Stands id prepared reservation unpaid = unpaid ≡ true
Stands id approving reservation unpaid = (unpaid ≡ true) × (reservation ≡ contents id)
Stands id approved reservation unpaid = (unpaid ≡ true) × (reservation ≡ contents id)
Stands id paying reservation unpaid = reservation ≡ contents id
Stands id aborting reservation unpaid = unpaid ≡ true
Stands id aborted reservation unpaid = unpaid ≡ true
Stands id _ reservation unpaid = unpaid ≡ false

-- A predicate on the journal, the reservation and whether the payment's file is missing.
abbrev pub View : Type 1
View = File ExecutorState → File String → Bool → Type 0

abbrev pub InStep : String → View
InStep id missing reservation unpaid = unpaid ≡ true
InStep id unreadable reservation unpaid = Unit
InStep id (contents state) reservation unpaid =
    (state.intent.order_id ≡ id) × Stands id state.phase reservation unpaid

abbrev pub Holds : View → Desk → Type 0
Holds V s = IsOnceEach s × V s.journal s.reservation (absent ExecutorAction.pay s)

pub Frame-Holds : (V : View) (s t : Desk) → Frame s t → Holds V s → Holds V t
Frame-Holds V s t f (once, v) = (
  f.once_kept once,
  subst (λ j. V j t.reservation (absent ExecutorAction.pay t)) (sym f.same_journal)
      (subst (λ r. V s.journal r (absent ExecutorAction.pay t)) (sym f.same_reservation)
        (subst (λ u. V s.journal s.reservation u) (sym f.same_payment) v)),
)

-- The order in hand, as the journal has it.
abbrev pub IsReady : String → ExecutorState → View
IsReady id state journal reservation unpaid =
    (journal ≡ contents state)
    × (state.intent.order_id ≡ id)
    × Stands id state.phase reservation unpaid

-- An order with the allowance, and without a payment.
abbrev pub IsAllowed : String → ExecutorState → View
IsAllowed id state journal reservation unpaid =
    (state.intent.order_id ≡ id)
    × (unpaid ≡ true)
    × (reservation ≡ contents id)
    × InStep id journal reservation unpaid

abbrev pub is_late : ExecutorPhase → Bool
is_late paid = true
is_late delivered = true
is_late acknowledging = true
is_late completed = true
is_late _ = false

abbrev pub is_stopping : ExecutorPhase → Bool
is_stopping aborting = true
is_stopping aborted = true
is_stopping _ = false

abbrev pub JournalIn : (ExecutorPhase → Bool) → String → File ExecutorState → Type 0
JournalIn test id (contents state) = (state.intent.order_id ≡ id) × (test state.phase ≡ true)
JournalIn test id _ = ⊥

-- A payment was made, and the journal is past it.
abbrev pub IsPaidFor : String → View
IsPaidFor id journal reservation unpaid = (unpaid ≡ false) × JournalIn is_late id journal

-- The order is given up, and there is no payment.
abbrev pub IsGivenUp : String → View
IsGivenUp id journal reservation unpaid = (unpaid ≡ true) × JournalIn is_stopping id journal

late-Stands :
    (id : String) (phase : ExecutorPhase) (reservation : File String) (unpaid : Bool)
    → is_late phase ≡ true
    → unpaid ≡ false
    → Stands id phase reservation unpaid
late-Stands id paid reservation unpaid l h = h
late-Stands id delivered reservation unpaid l h = h
late-Stands id acknowledging reservation unpaid l h = h
late-Stands id completed reservation unpaid l h = h
late-Stands id prepared reservation unpaid l h = cc
late-Stands id approving reservation unpaid l h = cc
late-Stands id approved reservation unpaid l h = cc
late-Stands id paying reservation unpaid l h = cc
late-Stands id aborting reservation unpaid l h = cc
late-Stands id aborted reservation unpaid l h = cc

stopping-Stands :
    (id : String) (phase : ExecutorPhase) (reservation : File String) (unpaid : Bool)
    → is_stopping phase ≡ true
    → unpaid ≡ true
    → Stands id phase reservation unpaid
stopping-Stands id aborting reservation unpaid l h = h
stopping-Stands id aborted reservation unpaid l h = h
stopping-Stands id paid reservation unpaid l h = cc
stopping-Stands id delivered reservation unpaid l h = cc
stopping-Stands id acknowledging reservation unpaid l h = cc
stopping-Stands id completed reservation unpaid l h = cc
stopping-Stands id prepared reservation unpaid l h = cc
stopping-Stands id approving reservation unpaid l h = cc
stopping-Stands id approved reservation unpaid l h = cc
stopping-Stands id paying reservation unpaid l h = cc

pub paid-InStep :
    (id : String) (journal : File ExecutorState) (reservation : File String) (unpaid : Bool)
    → IsPaidFor id journal reservation unpaid
    → InStep id journal reservation unpaid
paid-InStep id missing reservation unpaid (h, j) = absurd j
paid-InStep id unreadable reservation unpaid (h, j) = absurd j
paid-InStep id (contents state) reservation unpaid (h, (order, late)) =
    (order, late-Stands id state.phase reservation unpaid late h)

pub given_up-InStep :
    (id : String) (journal : File ExecutorState) (reservation : File String) (unpaid : Bool)
    → IsGivenUp id journal reservation unpaid
    → InStep id journal reservation unpaid
given_up-InStep id missing reservation unpaid (h, j) = absurd j
given_up-InStep id unreadable reservation unpaid (h, j) = absurd j
given_up-InStep id (contents state) reservation unpaid (h, (order, stopping)) =
    (order, stopping-Stands id state.phase reservation unpaid stopping h)

pub ready-InStep :
    (id : String) (state : ExecutorState) (journal : File ExecutorState) (reservation : File String)
    (unpaid : Bool)
    → IsReady id state journal reservation unpaid
    → InStep id journal reservation unpaid
ready-InStep id state journal reservation unpaid (j, order, st) =
    subst (λ x. InStep id x reservation unpaid) (sym j) (order, st)

-- With the reservation gone, an order that needs none is in step.
pub paid-released :
    (id : String) (journal : File ExecutorState) (reservation other : File String) (unpaid : Bool)
    → IsPaidFor id journal reservation unpaid
    → IsPaidFor id journal other unpaid
paid-released id journal reservation other unpaid h = h

pub Holds-map :
    (V W : View) (s : Desk)
    → ((j : File ExecutorState) (r : File String) (u : Bool) → V j r u → W j r u)
    → Holds V s
    → Holds W s
Holds-map V W s f (once, v) = (once, f _ _ _ v)
