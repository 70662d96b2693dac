-- ===== src/HtsBuyer/Refines.antt =====
-- The buyer of test credits implements the machine of one attempt.
use obolos.Prelude.{String, List, [], Option, none, some, ◌≡◌, refl}
use obolos.Prelude.{Result-cases, ok, err, ◌==◌, string_eq, Bool-cases, inl, inr, ap, ◌∙◌, sym}
use obolos.Negotiation.{Runtime}
use obolos.Negotiation.Buying.{HederaCredentials}
use obolos.HtsBuyer.{
  HtsRepositoryPurchase, Intent, IntentFile, missing, unreadable, contents, World,
}
use obolos.HtsBuyer.Terms.{validate_input}
use obolos.HtsBuyer.Action.{BuyerState, HtsEvent, read_file}
use obolos.Stateful.{then_run}
use obolos.HtsBuyer.Buy.{buy_or_recover, recover_saved, purchase_hts_repositories}
use obolos.HtsBuyer.Once.{
  phase_of, phase_with, machine_of, HtsAttempt, tore, only_reserved, signed_unsaved, saved,
  dispatched, Stands, recover_from-Stands,
}
use obolos.HtsBuyer.Once.{buy_new-OneShot}
use obolos.OneShot.{
  Phase, OneShot, OneShots, start, then, unused, IsOnce, OneShots-IsOnce, stutter, idle,
}

-- A recovery changes neither the phase nor the record of events.
recover-Stands :
    (world : World) (intent : Intent) (input : HtsRepositoryPurchase) (s : BuyerState)
    → s.file ≡ contents intent
    → (t : Option String) → intent.transaction_id ≡ t
    → Stands (phase_with t) s.events (recover_saved world intent input t s).0
unfolding recover_saved
recover-Stands world intent input s i none w = (ap phase_of i ∙ ap phase_with w, refl)
recover-Stands world intent input s i (some t) w =
    recover_from-Stands world intent input t s.events intent.result w s
      (ap phase_of i ∙ ap phase_with w, refl)

buy_or_recover-OneShot :
    (world : World) (fingerprint : String) (input : HtsRepositoryPurchase) (intent : Intent)
    (s : BuyerState)
    → s.file ≡ contents intent
    → Stands
        (phase_with intent.transaction_id)
        s.events
        (buy_or_recover world fingerprint input (some intent) s).0
unfolding buy_or_recover
buy_or_recover-OneShot world fingerprint input intent s i =
    elim (Bool-cases (intent.fingerprint == fingerprint)) [
      | inl same ↦ rw same (recover-Stands world intent input s i intent.transaction_id refl)
      | inr other ↦ rw other (ap phase_of i, refl)
    ]

read_missing : (s : BuyerState) → s.file ≡ missing → read_file s ≡ (s, ok none)
unfolding read_file
read_missing s i = rw i refl

read_unreadable : (s : BuyerState) → s.file ≡ unreadable → read_file s ≡ (s, err "Unexpected token")
unfolding read_file
read_unreadable s i = rw i refl

read_contents :
    (intent : Intent) (s : BuyerState)
    → s.file ≡ contents intent
    → read_file s ≡ (s, ok (some intent))
unfolding read_file
read_contents intent s i = rw i refl

module _ (runtime : Runtime) (hash : HtsRepositoryPurchase → String) where
  -- A call that was not refused at once, by the file that it read.
  by_file :
      (world : World) (input : HtsRepositoryPurchase) (s : BuyerState) (file : IntentFile)
      → s.file ≡ file
      → OneShot HtsAttempt
          (machine_of s)
          (machine_of (then_run (read_file s) (buy_or_recover world (hash input) input)).0)
  unfolding buy_or_recover
  by_file world input s missing i =
      rw (read_missing s i) (buy_new-OneShot world (hash input) input s i)
  by_file world input s unreadable i = rw (read_unreadable s i) (stutter refl refl)
  by_file world input s (contents intent) i =
      let (p, e) = buy_or_recover-OneShot world (hash input) input intent s i in
      rw (read_contents intent s i) (stutter (p ∙ sym (ap phase_of i)) e)

  -- Each call does nothing to the phase and the events, or makes the one attempt.
  pub purchase-OneShot :
      (world : World) (value : HtsRepositoryPurchase) (credentials : HederaCredentials)
      (s : BuyerState)
      → OneShot HtsAttempt
          (machine_of s)
          (machine_of (purchase_hts_repositories runtime hash world value credentials s).0)
  unfolding purchase_hts_repositories
  purchase-OneShot world value credentials s =
      elim (Result-cases (validate_input runtime value credentials)) [
        | inr (e, v) ↦ rw v (stutter refl refl)
        | inl (input, v) ↦ elim (Result-cases world.lock) [
          | inr (e, l) ↦ rw (v, l) (stutter refl refl)
          | inl (u, l) ↦ rw (v, l) (by_file world input s s.file refl)
        ]
      ]

-- The calls with one file, each in its own world, from a file that is not there.
pub data Purchases (runtime : Runtime) (hash : HtsRepositoryPurchase → String)
    : BuyerState → Type 0 where
  none_yet : Purchases runtime hash (record { file = missing; events = [] })
  and_then :
      {s : BuyerState} (world : World) (value : HtsRepositoryPurchase)
      (credentials : HederaCredentials)
      → Purchases runtime hash s
      → Purchases runtime hash (purchase_hts_repositories runtime hash world value credentials s).0

Purchases-OneShots :
    (runtime : Runtime) (hash : HtsRepositoryPurchase → String) {s : BuyerState}
    → Purchases runtime hash s
    → OneShots HtsAttempt unused (machine_of s)
Purchases-OneShots runtime hash none_yet = start
Purchases-OneShots runtime hash (and_then {s} world value credentials r) =
    then (Purchases-OneShots runtime hash r)
      (purchase-OneShot runtime hash world value credentials s)

HtsAttempt-not_idle : (p : Phase) (events : List HtsEvent) → p ≡ idle → HtsAttempt p events → ⊥
HtsAttempt-not_idle p events e tore = cc
HtsAttempt-not_idle p events e only_reserved = cc
HtsAttempt-not_idle p events e signed_unsaved = cc
HtsAttempt-not_idle p events e (saved t) = cc
HtsAttempt-not_idle p events e (dispatched t) = cc

-- Whatever the calls with one file do, in worlds that fail, lose writes or kill the process at any
-- of their steps: either nothing happened and there is no file, or exactly one attempt was made, which is
-- a torn file, a reservation, one signature, or one signature and the one dispatch of the
-- transaction that the file holds.
pub Purchases-IsOnce :
    (runtime : Runtime) (hash : HtsRepositoryPurchase → String) (s : BuyerState)
    → Purchases runtime hash s
    → IsOnce HtsAttempt (machine_of s)
Purchases-IsOnce runtime hash s calls =
    OneShots-IsOnce HtsAttempt (λ events. HtsAttempt-not_idle idle events refl) (machine_of s)
      (Purchases-OneShots runtime hash calls)
