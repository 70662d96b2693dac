-- ===== src/HtsBuyer/Once.antt =====
-- The buyer of test credits signs once and pays once for an identity.
use obolos.Prelude.{String, List, [], ◌∷◌, Option, none, some, ◌≡◌, refl}
use obolos.Prelude.{
  Result, Result-cases, ok, err, arith, string_eq, Option-cases, inl, inr, ◌⊎◌, ap, ◌∙◌, sym, subst,
}
use obolos.HtsBuyer.{
  HtsRepositoryPurchase, Intent, IntentFile, missing, unreadable, contents, World, is_signed,
}
use obolos.HtsBuyer.{WriteEnd, written, lost, torn, half_done, HtsPurchaseResult, TokenQuote}
use obolos.HtsBuyer.Action.{BuyerState, HtsEvent, signing, dispatching, replace_file}
use obolos.HtsBuyer.Action.{create_file}
use obolos.HtsBuyer.Market.{check_market}
use obolos.HtsBuyer.Buy.{dispatch_and_settle, sign_and_dispatch, buy_new}
use obolos.HtsBuyer.Buy.{recover_from, new_intent}
use obolos.OneShot.{Phase, idle, broken, reserved, committed, Machine, OneShot, stutter, attempt}

abbrev pub phase_with : Option String → Phase
phase_with none = reserved
phase_with (some t) = committed t

abbrev pub phase_of : IntentFile → Phase
phase_of missing = idle
phase_of unreadable = broken
phase_of (contents intent) = phase_with intent.transaction_id

abbrev pub machine_of : BuyerState → Machine HtsEvent
machine_of s = record { phase = phase_of s.file; events = s.events }

-- How far an attempt got: the intent torn; reserved; signed but not saved; saved; dispatched.
pub data HtsAttempt : Phase → List HtsEvent → Type 0 where
  tore : HtsAttempt broken []
  only_reserved : HtsAttempt reserved []
  signed_unsaved : HtsAttempt reserved (signing ∷ [])
  saved : (t : String) → HtsAttempt (committed t) (signing ∷ [])
  dispatched : (t : String) → HtsAttempt (committed t) (dispatching t ∷ signing ∷ [])

-- The machine stands as told.
abbrev pub Stands : Phase → List HtsEvent → BuyerState → Type 0
Stands phase events s = (phase_of s.file ≡ phase) × (s.events ≡ events)

pub recover_from-Stands :
    (world : World) (intent : Intent) (input : HtsRepositoryPurchase) (t : String)
    (events : List HtsEvent) (result : Option HtsPurchaseResult)
    → intent.transaction_id ≡ some t
    → (s : BuyerState) → Stands (committed t) events s
    → Stands (committed t) events (recover_from world intent input t result s).0
unfolding recover_from replace_file
recover_from-Stands world intent input t events none i s st = ground (arith, i)
recover_from-Stands world intent input t events (some r) i s st = ground (arith, i)

dispatch_and_settle-Stands :
    (world : World) (intent : Intent) (input : HtsRepositoryPurchase) (t : String)
    (events : List HtsEvent)
    → intent.transaction_id ≡ some t
    → (s : BuyerState) → Stands (committed t) events s
    → Stands (committed t) (dispatching t ∷ events) (dispatch_and_settle world intent input t s).0
unfolding dispatch_and_settle replace_file
dispatch_and_settle-Stands world intent input t events i s st = ground (arith, i)

-- Where a call that reserved the intent may stand, when the signer gives the transaction `t`.
abbrev IsPaying : String → List HtsEvent → BuyerState → Type 0
IsPaying t before s =
    Stands reserved before s
    ⊎ Stands reserved (signing ∷ before) s
    ⊎ Stands (committed t) (signing ∷ before) s
    ⊎ Stands (committed t) (dispatching t ∷ signing ∷ before) s

sign_and_dispatch-IsPaying :
    (world : World) (intent : Intent) (input : HtsRepositoryPurchase) (quote : TokenQuote)
    (before : List HtsEvent) (t : String)
    → world.signer ≡ ok (some t)
    → intent.transaction_id ≡ none
    → (s : BuyerState) → Stands reserved before s
    → IsPaying t before (sign_and_dispatch world intent input quote s).0
unfolding sign_and_dispatch replace_file
sign_and_dispatch-IsPaying world intent input quote before t w i s st =
    let saved = record intent { status = is_signed; transaction_id = some t } in
    ground (
      arith,
      w,
      i,
      dispatch_and_settle-Stands world saved input t (signing ∷ before) refl
          (record { file = contents saved; events = signing ∷ s.events }),
    )

-- ... and when it gives none.
sign_and_dispatch-no_transaction :
    (world : World) (intent : Intent) (input : HtsRepositoryPurchase) (quote : TokenQuote)
    (before : List HtsEvent)
    → ((t : String) → ¬ (world.signer ≡ ok (some t)))
    → (s : BuyerState) → Stands reserved before s
    → Stands reserved before (sign_and_dispatch world intent input quote s).0
      ⊎ Stands reserved (signing ∷ before) (sign_and_dispatch world intent input quote s).0
unfolding sign_and_dispatch
sign_and_dispatch-no_transaction world intent input quote before w s st =
    elim (Result-cases world.signer) [
      | inr (e, r) ↦ ground (arith, r)
      | inl (o, r) ↦ elim (Option-cases o) [
        | inl n ↦ ground (arith, r)
        | inr (t, n) ↦ absurd (w t (r ∙ ap ok n))
      ]
    ]

IsPaying-OneShot :
    (t : String) (m s : BuyerState)
    → m.file ≡ missing
    → IsPaying t m.events s
    → OneShot HtsAttempt (machine_of m) (machine_of s)
IsPaying-OneShot t m s i (inl (p, e)) =
    attempt [] (ap phase_of i) (subst (λ x. HtsAttempt x []) (sym p) only_reserved) e
IsPaying-OneShot t m s i (inr (inl (p, e))) =
    attempt _ (ap phase_of i) (subst (λ x. HtsAttempt x (signing ∷ [])) (sym p) signed_unsaved) e
IsPaying-OneShot t m s i (inr (inr (inl (p, e)))) =
    attempt _ (ap phase_of i) (subst (λ x. HtsAttempt x (signing ∷ [])) (sym p) (saved t)) e
IsPaying-OneShot t m s i (inr (inr (inr (p, e)))) =
    attempt _ (ap phase_of i)
      (subst (λ x. HtsAttempt x (dispatching t ∷ signing ∷ [])) (sym p) (dispatched t)) e

sign_and_dispatch-OneShot :
    (world : World) (intent : Intent) (input : HtsRepositoryPurchase) (quote : TokenQuote)
    (m s : BuyerState)
    → m.file ≡ missing
    → intent.transaction_id ≡ none
    → Stands reserved m.events s
    → OneShot HtsAttempt
        (machine_of m)
        (machine_of (sign_and_dispatch world intent input quote s).0)
sign_and_dispatch-OneShot world intent input quote m s i n st = go world.signer refl
  where
    unsigned :
        ((t : String) → ¬ (world.signer ≡ ok (some t)))
        → OneShot HtsAttempt
            (machine_of m)
            (machine_of (sign_and_dispatch world intent input quote s).0)
    unsigned w = elim (sign_and_dispatch-no_transaction world intent input quote m.events w s st) [
      | inl a ↦ IsPaying-OneShot "" m _ i (inl a)
      | inr a ↦ IsPaying-OneShot "" m _ i (inr (inl a))
    ]

    go :
        (signer : Result String (Option String))
        → world.signer ≡ signer
        → OneShot HtsAttempt
            (machine_of m)
            (machine_of (sign_and_dispatch world intent input quote s).0)
    go (ok (some t)) w =
        IsPaying-OneShot t m _ i
          (sign_and_dispatch-IsPaying world intent input quote m.events t w n s st)
    go (ok none) w = unsigned (λ t e. cc)
    go (err x) w = unsigned (λ t e. cc)

-- A purchase that the market refused leaves everything; another one reserves the intent first.
buy_new-refused :
    (world : World) (fingerprint : String) (input : HtsRepositoryPurchase) (m : BuyerState)
    (e : String)
    → check_market world input ≡ err e
    → (buy_new world fingerprint input m).0 ≡ m
unfolding buy_new
buy_new-refused world fingerprint input m e r = rw r refl

buy_new-reserved :
    (world : World) (fingerprint : String) (input : HtsRepositoryPurchase) (m : BuyerState)
    (quote : TokenQuote)
    → check_market world input ≡ ok quote
    → m.file ≡ missing
    → (Stands idle m.events (buy_new world fingerprint input m).0)
      ⊎ (Stands broken m.events (buy_new world fingerprint input m).0)
      ⊎ (Stands reserved m.events (buy_new world fingerprint input m).0)
      ⊎ ((s : BuyerState) × Stands reserved m.events s
          × ((buy_new world fingerprint input m).0
              ≡ (sign_and_dispatch world (new_intent fingerprint input) input quote s).0))
unfolding buy_new create_file
buy_new-reserved world fingerprint input m quote r i = go world.reserve_end refl
  where
    go :
        (end : WriteEnd)
        → world.reserve_end ≡ end
        → (Stands idle m.events (buy_new world fingerprint input m).0)
          ⊎ (Stands broken m.events (buy_new world fingerprint input m).0)
          ⊎ (Stands reserved m.events (buy_new world fingerprint input m).0)
          ⊎ ((s : BuyerState) × Stands reserved m.events s
              × ((buy_new world fingerprint input m).0
                  ≡ (sign_and_dispatch world (new_intent fingerprint input) input quote s).0))
    go lost w = inl (rw (r, i, w) (refl, refl))
    go torn w = inr (inl (rw (r, i, w) (refl, refl)))
    go half_done w = inr (inr (inl (rw (r, i, w) (refl, refl))))
    go written w = inr (
        inr (
          inr (
            record m { file = contents (new_intent fingerprint input) },
            (refl, refl),
            rw (r, i, w) refl,
          )))

pub buy_new-OneShot :
    (world : World) (fingerprint : String) (input : HtsRepositoryPurchase) (m : BuyerState)
    → m.file ≡ missing
    → OneShot HtsAttempt (machine_of m) (machine_of (buy_new world fingerprint input m).0)
buy_new-OneShot world fingerprint input m i = elim (Result-cases (check_market world input)) [
  | inr (e, r) ↦
      (let same = buy_new-refused world fingerprint input m e r in
        stutter (ap (λ s. phase_of s.file) same) (ap (λ s. s.events) same))
  | inl (quote, r) ↦ elim (buy_new-reserved world fingerprint input m quote r i) [
    | inl (p, e) ↦ stutter (p ∙ sym (ap phase_of i)) e
    | inr (inl (p, e)) ↦ attempt [] (ap phase_of i) (subst (λ x. HtsAttempt x []) (sym p) tore) e
    | inr (inr (inl (p, e))) ↦
        attempt [] (ap phase_of i) (subst (λ x. HtsAttempt x []) (sym p) only_reserved) e
    | inr (inr (inr (s, st, same))) ↦
        subst (λ x. OneShot HtsAttempt (machine_of m) (machine_of x)) (sym same)
          (sign_and_dispatch-OneShot world (new_intent fingerprint input) input quote m s i refl st)
  ]
]
