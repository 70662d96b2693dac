-- ===== src/A2aBuyer/Once.antt =====
-- The buyer of offers implements the machine of one attempt.
use obolos.Prelude.{String, List, [], ◌∷◌, ◌≡◌, refl}
use obolos.Prelude.{Result, Result-cases, ok, err, arith, string_eq, Bool-cases, inl, inr, ap}
use obolos.Prelude.{sym, subst, ◌⊎◌}
use obolos.Negotiation.{Runtime, A2aOffer}
use obolos.Negotiation.Buying.{HederaCredentials, TokenPurchase, accepted_purchase, accept_result}
use obolos.HtsBuyer.{WriteEnd, written, lost, torn, half_done}
use obolos.A2aBuyer.{BuyerArgs, BuyerEnv, BuyerIntent, OperationStatus, is_accepted}
use obolos.A2aBuyer.{
  is_completed, OperationRecord, OperationFile, missing, unreadable, contents, Deal,
}
use obolos.A2aBuyer.{A2aEvent, proposing, accepting, paying, OperationState}
use obolos.A2aBuyer.Operation.{
  save, save_and_pay, reserve, pay_offer, negotiate, start_or_answer, run_a2a_buyer,
}
use obolos.A2aBuyer.Operation.{intent_of, new_record, agreed_offer, agreed_acceptance, proposal_of}
use obolos.A2aBuyer.Operation.{is_other_card}
use obolos.Stateful.{then_run}
use obolos.Negotiation.Paid.{accept_result-ok}
use obolos.OneShot.{Phase, idle, broken, reserved, committed, Machine, OneShot, stutter, attempt}
use obolos.OneShot.{OneShots, start, then, unused, IsOnce, OneShots-IsOnce}

abbrev phase_with : OperationStatus → Phase
phase_with (is_completed offer proof) = committed proof.offer_id
phase_with _ = reserved

abbrev pub phase_of : OperationFile → Phase
phase_of missing = idle
phase_of unreadable = broken
phase_of (contents entry) = phase_with entry.status

abbrev pub machine_of : OperationState → Machine A2aEvent
machine_of s = record { phase = phase_of s.file; events = s.events }

-- How far an attempt got, and what it had sent by then.
pub data A2aAttempt : Phase → List A2aEvent → Type 0 where
  tore : A2aAttempt broken []
  only_reserved : A2aAttempt reserved []
  proposed : A2aAttempt reserved (proposing ∷ [])
  accepted : A2aAttempt reserved (accepting ∷ proposing ∷ [])
  paid : (r : TokenPurchase) → A2aAttempt reserved (paying r ∷ accepting ∷ proposing ∷ [])
  completed :
      (r : TokenPurchase) (offer_id : String)
      → A2aAttempt (committed offer_id) (paying r ∷ accepting ∷ proposing ∷ [])

abbrev Stands : Phase → List A2aEvent → OperationState → Type 0
Stands phase events s = (phase_of s.file ≡ phase) × (s.events ≡ events)

pay_offer-refused :
    (runtime : Runtime) (deal : Deal) (entry : OperationRecord) (secrets : HederaCredentials)
    (offer : A2aOffer) (e : String) (s : OperationState)
    → accepted_purchase runtime deal.now offer secrets entry.intent.resource_base ≡ err e
    → (pay_offer runtime deal entry secrets offer s).0 ≡ s
unfolding pay_offer
pay_offer-refused runtime deal entry secrets offer e s r = rw r refl

pay_offer-Stands :
    (runtime : Runtime) (deal : Deal) (entry : OperationRecord) (secrets : HederaCredentials)
    (offer : A2aOffer) (request : TokenPurchase) (events : List A2aEvent) (s : OperationState)
    → accepted_purchase runtime deal.now offer secrets entry.intent.resource_base ≡ ok request
    → Stands reserved events s
    → Stands reserved (paying request ∷ events) (pay_offer runtime deal entry secrets offer s).0
      ⊎ Stands
          (committed offer.offer_id)
          (paying request ∷ events)
          (pay_offer runtime deal entry secrets offer s).0
unfolding pay_offer save
pay_offer-Stands runtime deal entry secrets offer request events s r st =
    elim (Result-cases (deal.purchase request)) [
      | inr (x, b) ↦ ground (arith, r, b)
      | inl (answer, b) ↦ elim (Result-cases (accept_result offer answer)) [
        | inr (x, c) ↦ ground (arith, r, b, c)
        | inl (bought, c) ↦
            ground (arith, r, b, c, accept_result-ok offer answer.0 answer.1 bought c)
      ]
    ]

-- Where a call that reserved the operation may stand.
data IsBuying (before : List A2aEvent) (s : OperationState) : Type 0 where
  at_card : Stands reserved before s → IsBuying before s
  at_offer : Stands reserved (proposing ∷ before) s → IsBuying before s
  at_acceptance : Stands reserved (accepting ∷ proposing ∷ before) s → IsBuying before s
  at_payment :
      (r : TokenPurchase)
      → Stands reserved (paying r ∷ accepting ∷ proposing ∷ before) s
      → IsBuying before s
  at_end :
      (r : TokenPurchase) (id : String)
      → Stands (committed id) (paying r ∷ accepting ∷ proposing ∷ before) s
      → IsBuying before s

-- A save either fails, or stands and the rest goes on from it.
save_then :
    {B : Type 0} (P : OperationState → Type 0) (end : WriteEnd) (entry : OperationRecord)
    (next : Unit {0} → OperationState → OperationState × Result String B) (s : OperationState)
    → P s
    → P (record s { file = contents entry })
    → P (next tt (record s { file = contents entry })).0
    → P (then_run (save end entry s) next).0
unfolding save
save_then P written entry next s a b c = c
save_then P lost entry next s a b c = a
save_then P torn entry next s a b c = a
save_then P half_done entry next s a b c = b

pay_offer-IsBuying :
    (runtime : Runtime) (deal : Deal) (entry : OperationRecord) (secrets : HederaCredentials)
    (offer : A2aOffer) (before : List A2aEvent) (s : OperationState)
    → Stands reserved (accepting ∷ proposing ∷ before) s
    → IsBuying before (pay_offer runtime deal entry secrets offer s).0
pay_offer-IsBuying runtime deal entry secrets offer before s st =
    let asked = accepted_purchase runtime deal.now offer secrets entry.intent.resource_base in
    elim (Result-cases asked) [
      | inr (x, r) ↦
          subst (IsBuying before) (sym (pay_offer-refused runtime deal entry secrets offer x s r))
            (at_acceptance st)
      | inl (request, r) ↦
          elim (pay_offer-Stands runtime deal entry secrets offer request _ s r st) [
            | inl h ↦ at_payment request h
            | inr h ↦ at_end request offer.offer_id h
          ]
    ]

save_and_pay-IsBuying :
    (runtime : Runtime) (deal : Deal) (entry : OperationRecord) (secrets : HederaCredentials)
    (offer : A2aOffer) (before : List A2aEvent) (s : OperationState)
    → Stands reserved (accepting ∷ proposing ∷ before) s
    → IsBuying before (save_and_pay runtime deal entry secrets offer s).0
unfolding save_and_pay
save_and_pay-IsBuying runtime deal entry secrets offer before s (p, e) =
    let accepted_record = record entry { status = is_accepted offer } in
    save_then (IsBuying before) deal.accept_end accepted_record
      (λ done. pay_offer runtime deal entry secrets offer) s (at_acceptance (p, e))
      (at_acceptance (refl, e))
      (pay_offer-IsBuying runtime deal entry secrets offer before _ (refl, e))

negotiate-IsBuying :
    (runtime : Runtime) (deal : Deal) (entry : OperationRecord) (before : List A2aEvent)
    (s : OperationState)
    → Stands reserved before s
    → IsBuying before (negotiate runtime deal entry s).0
unfolding negotiate
negotiate-IsBuying runtime deal entry before s (p, e) = elim (Result-cases deal.card) [
  | inr (x, a) ↦ rw a (at_card (p, e))
  | inl (card, a) ↦ elim (Bool-cases (is_other_card card entry.intent)) [
    | inl b ↦ rw (a, b) (at_card (p, e))
    | inr b ↦ elim (Result-cases deal.secrets) [
      | inr (x, c) ↦ rw (a, b, c) (at_card (p, e))
      | inl (secrets, c) ↦
          elim (Result-cases
            (agreed_offer runtime deal entry.intent (proposal_of entry.intent secrets))) [
              | inr (x, d) ↦ rw (a, b, c, d) (at_offer (p, ap (λ es. proposing ∷ es) e))
              | inl (offer, d) ↦
                  elim (Result-cases (
                    agreed_acceptance runtime deal entry.intent (proposal_of entry.intent secrets)
                      offer)) [
                        | inr (x, f) ↦
                            rw (a, b, c, d, f)
                              (at_acceptance (p, ap (λ es. accepting ∷ proposing ∷ es) e))
                        | inl (acceptance, f) ↦
                            rw (a, b, c, d, f)
                              (save_and_pay-IsBuying runtime deal entry secrets offer before _
                                (p, ap (λ es. accepting ∷ proposing ∷ es) e))
                      ]
            ]
    ]
  ]
]

IsBuying-OneShot :
    (m s : OperationState)
    → m.file ≡ missing
    → IsBuying m.events s
    → OneShot A2aAttempt (machine_of m) (machine_of s)
IsBuying-OneShot m s i (at_card (p, e)) =
    attempt [] (ap phase_of i) (subst (λ x. A2aAttempt x []) (sym p) only_reserved) e
IsBuying-OneShot m s i (at_offer (p, e)) =
    attempt _ (ap phase_of i) (subst (λ x. A2aAttempt x (proposing ∷ [])) (sym p) proposed) e
IsBuying-OneShot m s i (at_acceptance (p, e)) =
    attempt _ (ap phase_of i)
      (subst (λ x. A2aAttempt x (accepting ∷ proposing ∷ [])) (sym p) accepted) e
IsBuying-OneShot m s i (at_payment r (p, e)) =
    attempt _ (ap phase_of i)
      (subst (λ x. A2aAttempt x (paying r ∷ accepting ∷ proposing ∷ [])) (sym p) (paid r)) e
IsBuying-OneShot m s i (at_end r id (p, e)) =
    attempt _ (ap phase_of i)
      (subst (λ x. A2aAttempt x (paying r ∷ accepting ∷ proposing ∷ [])) (sym p) (completed r id)) e

-- The reservation fails without a file, or leaves one, or the rest goes on from it.
reserve_then :
    {B : Type 0} (end : WriteEnd) (entry : OperationRecord)
    (next : Unit {0} → OperationState → OperationState × Result String B) (m : OperationState)
    → m.file ≡ missing
    → phase_with entry.status ≡ reserved
    → ((s : OperationState)
        → Stands reserved m.events s
        → OneShot A2aAttempt (machine_of m) (machine_of (next tt s).0))
    → OneShot A2aAttempt (machine_of m) (machine_of (then_run (reserve end entry m) next).0)
unfolding reserve
reserve_then written entry next m i p h = h (record m { file = contents entry }) (p, refl)
reserve_then lost entry next m i p h = stutter refl refl
reserve_then torn entry next m i p h = attempt [] (ap phase_of i) tore refl
reserve_then half_done entry next m i p h =
    attempt [] (ap phase_of i) (subst (λ x. A2aAttempt x []) (sym p) only_reserved) refl

start_or_answer-OneShot :
    (runtime : Runtime) (deal : Deal) (fingerprint : String) (intent : BuyerIntent)
    (file : OperationFile) (m : OperationState)
    → m.file ≡ file
    → OneShot A2aAttempt
        (machine_of m)
        (machine_of (start_or_answer runtime deal fingerprint intent file m).0)
unfolding start_or_answer
start_or_answer-OneShot runtime deal fingerprint intent missing m i =
    reserve_then deal.reserve_end (new_record fingerprint intent)
      (λ done. negotiate runtime deal (new_record fingerprint intent)) m i refl
      (λ s st.
        IsBuying-OneShot m _ i
          (negotiate-IsBuying runtime deal (new_record fingerprint intent) m.events s st))
start_or_answer-OneShot runtime deal fingerprint intent unreadable m i = stutter refl refl
start_or_answer-OneShot runtime deal fingerprint intent (contents old) m i = stutter refl refl

module _ (runtime : Runtime) (hash : BuyerIntent → String) where
  run_a2a_buyer-OneShot :
      (deal : Deal) (args : BuyerArgs) (env : BuyerEnv) (m : OperationState)
      → OneShot A2aAttempt
          (machine_of m)
          (machine_of (run_a2a_buyer runtime hash deal args env m).0)
  unfolding run_a2a_buyer
  run_a2a_buyer-OneShot deal args env m =
      elim (Result-cases (intent_of runtime deal.now args env)) [
        | inr (e, r) ↦ rw r (stutter refl refl)
        | inl (intent, r) ↦
            rw r (start_or_answer-OneShot runtime deal (hash intent) intent m.file m refl)
      ]

  -- The runs on one file, from a file that is not there.
  pub data Runs : OperationState → Type 0 where
    none_yet : Runs (record { file = missing; events = [] })
    and_then :
        {s : OperationState} (deal : Deal) (args : BuyerArgs) (env : BuyerEnv)
        → Runs s
        → Runs (run_a2a_buyer runtime hash deal args env s).0

  Runs-OneShots : {s : OperationState} → Runs s → OneShots A2aAttempt unused (machine_of s)
  Runs-OneShots none_yet = start
  Runs-OneShots (and_then {s = s} deal args env r) =
      then (Runs-OneShots r) (run_a2a_buyer-OneShot deal args env s)

A2aAttempt-not_idle : (p : Phase) (events : List A2aEvent) → p ≡ idle → A2aAttempt p events → ⊥
A2aAttempt-not_idle p events e tore = cc
A2aAttempt-not_idle p events e only_reserved = cc
A2aAttempt-not_idle p events e proposed = cc
A2aAttempt-not_idle p events e accepted = cc
A2aAttempt-not_idle p events e (paid r) = cc
A2aAttempt-not_idle p events e (completed r id) = cc

-- However the runs with one operation's file end, nothing was sent and there is no file, or one
-- attempt was made: the file is there, and at most one proposal, then one acceptance, then one
-- purchase were sent.
pub Runs-IsOnce :
    (runtime : Runtime) (hash : BuyerIntent → String) (s : OperationState)
    → Runs runtime hash s
    → IsOnce A2aAttempt (machine_of s)
Runs-IsOnce runtime hash s runs =
    OneShots-IsOnce A2aAttempt (λ events. A2aAttempt-not_idle idle events refl) (machine_of s)
      (Runs-OneShots runtime hash runs)
