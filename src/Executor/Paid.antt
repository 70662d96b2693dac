-- ===== src/Executor/Paid.antt =====
-- From a prepared order to a payment: every way keeps the journal in step.
use obolos.Prelude.{ℕ, String, Bool, true, false, some, ◌≡◌, refl, sym}
use obolos.Prelude.{◌==◌, string_eq, ap, subst, ◌∙◌, Result, ok, err}
use obolos.Stateful.{Stateful, lift, ◌>>◌, Ends, Ends-then, Ends-lift, Ends-if}
use obolos.Stateful.{Ends-map}
use obolos.Executor.{ExecutorAction, ExecutorPhase, prepared, approving, approved, paying, paid}
use obolos.Executor.{delivered, acknowledging, completed, aborting, aborted, missing}
use obolos.Executor.{contents, SaveEnd, ExecutorState, Desk, Answers, Runtime}
use obolos.Executor.{death}
use obolos.Executor.Stages.{persist, release, in_phase, operate_and_prove, recover, take_back}
use obolos.Executor.Stages.{take_back_and_throw, nothing, take_back_unsubmitted, check_versions}
use obolos.Executor.Stages.{
  recover_approval, approve_order, approve_as_needed, keep_payment, pay_order,
}
use obolos.Executor.Stages.{buy, recover_payment, pay_as_needed, request_for}
use obolos.Executor.Frames.{absent, IsOnceEach, Frame}
use obolos.Executor.Frames.{Ends-ended, Ends-last, Ends-has}
use obolos.Executor.Refresh.{IsFound, recover-IsFound}
use obolos.Executor.Submits.{Worked, IsWorked, operate_and_prove-IsWorked}
use obolos.Executor.InStep.{Stands, View, InStep, Holds, Frame-Holds, IsReady, IsAllowed, IsPaidFor}
use obolos.Executor.InStep.{is_late, is_stopping, JournalIn, ready-InStep, Holds-map}
use obolos.Executor.GivenUp.{Worked-Frame}

module _ (id : String) where
  abbrev P : Desk → Type 0
  P = Holds (InStep id)

  -- The order in hand is the one in the journal, and is not being aborted.
  abbrev pub IsLive : ExecutorState → Desk → Type 0
  IsLive state s = Holds (IsReady id state) s × (is_stopping state.phase ≡ false)

  pub live-P : (state : ExecutorState) (s : Desk) → Holds (IsReady id state) s → P s
  live-P state s h = Holds-map (IsReady id state) (InStep id) s (ready-InStep id state) h

  abbrev pub IsPaidWith : ExecutorState → Desk → Type 0
  IsPaidWith state s =
      Holds (IsPaidFor id) s × (state.intent.order_id ≡ id) × (is_late state.phase ≡ true)

  -- A phase is taken back where the operation was not submitted.
  take_back-Ends :
      (Q : ExecutorState → Desk → Type 0) (earlier : ExecutorPhase) (kind : ExecutorAction)
      (site : ℕ) (a : Answers) (and_then : Stateful Desk (Unit {0})) (state : ExecutorState)
      (s : Desk)
      → P s
      → (absent kind s ≡ false → Q state s)
      → (absent kind s ≡ true → P (record s { journal = contents (in_phase earlier state) }))
      → (absent kind s ≡ true
          → Ends P
              (λ u. Q (in_phase earlier state))
              (and_then (record s { journal = contents (in_phase earlier state) })))
      → Ends P Q (take_back earlier kind site a and_then state s)
  unfolding take_back
  take_back-Ends Q earlier kind site a and_then state s p there back rest =
      Ends-has P Q kind (a.unpaid site) _ s p there (λ gone.
        Ends-ended P Q (a.save_end site) s
          (record s { journal = contents (in_phase earlier state) }) _ p (back gone)
          (Ends-then P (λ u. Q (in_phase earlier state)) Q _ _ (rest gone) (λ u t l. l)))

  -- The catch clause of an operation, from what holds where it threw.
  Ends-throwing :
      {A : Type 0} (E : Desk → Type 0) (Q : A → Desk → Type 0) (earlier : ExecutorPhase)
      (kind : ExecutorAction) (site : ℕ) (a : Answers) (and_then : Stateful Desk (Unit {0}))
      (state : ExecutorState) (run : Desk × Result String A)
      → ((s : Desk) → E s → P s)
      → ((s : Desk) → E s → Ends P (λ st. P) (take_back earlier kind site a and_then state s))
      → Ends E Q run
      → Ends P Q (take_back_and_throw earlier kind site a and_then state run)
  Ends-throwing {A} E Q earlier kind site a and_then state (s, ok x) weak back h = h
  Ends-throwing {A} E Q earlier kind site a and_then state (s, err e) weak back h =
      Ends-if P Q (e == death) (lift (err e)) _ s (λ dead. weak s h)
        (λ alive. Ends-then P (λ st. P) Q _ (λ st. lift (err e)) (back s h) (λ st t p. p))

  IsLive-with :
      (earlier : ExecutorPhase) (state : ExecutorState) (s : Desk)
      → IsOnceEach s
      → state.intent.order_id ≡ id
      → is_stopping earlier ≡ false
      → Stands id earlier s.reservation (absent ExecutorAction.pay s)
      → IsLive (in_phase earlier state) (record s { journal = contents (in_phase earlier state) })
  IsLive-with earlier state s once order e st = ((once, (refl, order, st)), e)

  -- What the phase says, with the phase named.
  Stands-as :
      (state : ExecutorState) (phase : ExecutorPhase) (s : Desk)
      → state.phase ≡ phase
      → Holds (IsReady id state) s
      → Stands id phase s.reservation (absent ExecutorAction.pay s)
  Stands-as state phase s e h =
      subst (λ p. Stands id p s.reservation (absent ExecutorAction.pay s)) e h.1.2

  pub take_back_unsubmitted-IsLive :
      (a : Answers) (state : ExecutorState) (phase : ExecutorPhase) (s : Desk)
      → state.phase ≡ phase
      → IsLive state s
      → Ends P IsLive (take_back_unsubmitted a state phase s)
  unfolding take_back_unsubmitted
  take_back_unsubmitted-IsLive a state approving s e live =
      let st = Stands-as state approving s e live.0 in
      let new = IsLive-with prepared state s live.0.0 live.0.1.1 refl st.0 in
      take_back-Ends IsLive prepared ExecutorAction.approve 40 a (release (a.unlink_end 40)) state s
        (live-P state s live.0) (λ there. live)
        (λ gone.
          live-P (in_phase prepared state)
            (record s { journal = contents (in_phase prepared state) }) new.0)
        (λ gone.
          Ends-last P (λ u. IsLive (in_phase prepared state)) (a.unlink_end 40) _
            (record s { journal = contents (in_phase prepared state); reservation = missing })
            (live-P (in_phase prepared state)
              (record s { journal = contents (in_phase prepared state) }) new.0)
            (live-P (in_phase prepared state)
              (record s { journal = contents (in_phase prepared state); reservation = missing })
              new.0)
            new)
  take_back_unsubmitted-IsLive a state paying s e live =
      let st = Stands-as state paying s e live.0 in
      take_back-Ends IsLive approved ExecutorAction.pay 41 a nothing state s (live-P state s live.0)
        (λ there. live)
        (λ gone.
          live-P (in_phase approved state) _
            (IsLive-with approved state s live.0.0 live.0.1.1 refl (gone, st)).0)
        (λ gone. IsLive-with approved state s live.0.0 live.0.1.1 refl (gone, st))
  take_back_unsubmitted-IsLive a state prepared s e live = live
  take_back_unsubmitted-IsLive a state approved s e live = live
  take_back_unsubmitted-IsLive a state paid s e live = live
  take_back_unsubmitted-IsLive a state delivered s e live = live
  take_back_unsubmitted-IsLive a state acknowledging s e live = live
  take_back_unsubmitted-IsLive a state completed s e live = live
  take_back_unsubmitted-IsLive a state aborting s e live = live
  take_back_unsubmitted-IsLive a state aborted s e live = live

  -- A recovery from a journal in step.
  recover-Holds :
      (V : View) (runtime : Runtime) (a : Answers) (site : ℕ) (kind : ExecutorAction) (s : Desk)
      → Holds V s
      → Ends
          (Holds V)
          (λ hash t. Holds V t × (absent kind t ≡ false))
          (recover runtime a site kind s)
  recover-Holds V runtime a site kind s h =
      Ends-map (Frame s) (Holds V) (λ hash. IsFound kind s)
        (λ hash t. Holds V t × (absent kind t ≡ false)) _ (λ t f. Frame-Holds V s t f h)
        (λ hash t f. (Frame-Holds V s t f.0 h, f.1)) (recover-IsFound runtime a site kind s)

  abbrev IsAllowedWith : ExecutorState → Desk → Type 0
  IsAllowedWith state s = Holds (IsAllowed id state) s

  allowed-P : (state : ExecutorState) (s : Desk) → Holds (IsAllowed id state) s → P s
  allowed-P state s (once, (order, gone, held, st)) = (once, st)

  -- The journal in the phase approved, with the allowance reserved.
  approved-IsAllowed :
      (state other : ExecutorState) (s : Desk)
      → IsOnceEach s
      → state.intent.order_id ≡ id
      → other.intent.order_id ≡ id
      → absent ExecutorAction.pay s ≡ true
      → s.reservation ≡ contents id
      → Holds (IsAllowed id other) (record s { journal = contents (in_phase approved state) })
  approved-IsAllowed state other s once order other_order gone held =
      (once, (other_order, gone, held, (order, (gone, held))))

  persist_approved :
      (end : SaveEnd) (state : ExecutorState) (t : Desk)
      → state.intent.order_id ≡ id
      → Holds (IsAllowed id state) t
      → Ends P IsAllowedWith
          ((persist end (in_phase approved state) >> lift (ok (in_phase approved state))) t)
  persist_approved end state t order h =
      let new = record t { journal = contents (in_phase approved state) } in
      let next = approved-IsAllowed state (in_phase approved state) t h.0 order order h.1.1 h.1.2 in
      Ends-ended P IsAllowedWith end t new _ (allowed-P state t h)
        (allowed-P (in_phase approved state) new next) next

  recover_approval-IsAllowed :
      (runtime : Runtime) (a : Answers) (state : ExecutorState) (s : Desk)
      → state.phase ≡ approving
      → IsLive state s
      → Ends P IsAllowedWith (recover_approval runtime a state s)
  recover_approval-IsAllowed runtime a state s e live =
      let order = live.0.1.1 in
      let st = Stands-as state approving s e live.0 in
      let all : Holds (IsAllowed id state) s =
        (live.0.0, (order, st.0, st.1, (live-P state s live.0).1)) in
      Ends-then P (λ hash t. Holds (IsAllowed id state) t) IsAllowedWith _ _
        (Ends-map (Holds (IsAllowed id state)) P
          (λ hash t. Holds (IsAllowed id state) t × (absent ExecutorAction.approve t ≡ false))
          (λ hash t. Holds (IsAllowed id state) t) _ (λ t h. allowed-P state t h) (λ hash t h. h.0)
          (recover-Holds (IsAllowed id state) runtime a 42 ExecutorAction.approve s all))
        (λ hash t h. persist_approved (a.save_end 42) state t order h)

  -- The approval, and its catch clause.
  approve-throwing :
      (runtime : Runtime) (a : Answers) (state : ExecutorState) (s : Desk)
      → Holds (IsAllowed id state) s
      → Ends P
          (λ h t. Holds (IsAllowed id state) t)
          (take_back_and_throw prepared ExecutorAction.approve 45 a
            (release (a.unlink_end 45))
            state
            (operate_and_prove runtime a 45 ExecutorAction.approve s))
  approve-throwing runtime a state s all =
      Ends-throwing (Holds (IsAllowed id state)) (λ h t. Holds (IsAllowed id state) t) prepared
        ExecutorAction.approve 45 a (release (a.unlink_end 45)) state _ (λ t h. allowed-P state t h)
        (λ t h.
          take_back-Ends (λ st. P) prepared ExecutorAction.approve 45 a (release (a.unlink_end 45))
            state t (allowed-P state t h) (λ there. allowed-P state t h)
            (λ gone. (h.0, (h.1.0, h.1.1)))
            (λ gone.
              Ends-last P (λ u. P) (a.unlink_end 45) _
                (record t { journal = contents (in_phase prepared state); reservation = missing })
                (h.0, (h.1.0, h.1.1)) (h.0, (h.1.0, h.1.1)) (h.0, (h.1.0, h.1.1))))
        (Ends-map (Worked ExecutorAction.approve s) (Holds (IsAllowed id state))
          (λ h. IsWorked ExecutorAction.approve s) (λ h t. Holds (IsAllowed id state) t) _
          (λ t w.
            Frame-Holds (IsAllowed id state) s t (Worked-Frame id ExecutorAction.approve s t refl w)
              all)
          (λ h t w.
            Frame-Holds (IsAllowed id state) s t
              (Worked-Frame id ExecutorAction.approve s t refl w.0) all)
          (operate_and_prove-IsWorked runtime a 45 ExecutorAction.approve s))

  -- The order is reserved, is marked as approving, and then gets its allowance.
  approve_order-IsAllowed :
      (runtime : Runtime) (a : Answers) (state : ExecutorState) (s : Desk)
      → state.phase ≡ prepared
      → IsLive state s
      → Ends P IsAllowedWith (approve_order runtime a state s)
  unfolding approve_order
  approve_order-IsAllowed runtime a state s e live =
      let p = live-P state s live.0 in
      let order = live.0.1.1 in
      let gone = Stands-as state prepared s e live.0 in
      let held = record s { reservation = contents state.intent.order_id } in
      let marked = record held { journal = contents (in_phase approving state) } in
      let held_P : P held = (
        live.0.0,
        subst (λ j. InStep id j (contents state.intent.order_id) (absent ExecutorAction.pay s))
            (sym live.0.1.0)
            (
              order,
              subst
                  (λ x. Stands id x (contents state.intent.order_id) (absent ExecutorAction.pay s))
                  (sym e) gone,
            ),
      ) in
      let marked_IsAllowed : Holds (IsAllowed id state) marked = (
        live.0.0,
        (order, gone, ap (λ x. contents x) order, (order, (gone, ap (λ x. contents x) order))),
      ) in
      Ends-lift P IsAllowedWith a.prepare_approval _ s p (λ u f.
        Ends-ended P IsAllowedWith (a.save_end 43) s held _ p held_P (
          Ends-ended P IsAllowedWith (a.save_end 44) held marked _ held_P
            (allowed-P state marked marked_IsAllowed)
            (Ends-then P (λ h t. Holds (IsAllowed id state) t) IsAllowedWith _ _
              (approve-throwing runtime a state marked marked_IsAllowed)
              (λ h t all. persist_approved (a.save_end 46) state t order all))))

  not_stopping : ¬ (true ≡ false)
  not_stopping h = cc

  abbrev is_early : ExecutorPhase → Bool
  is_early prepared = true
  is_early approving = true
  is_early approved = true
  is_early _ = false

  approve_as_needed-IsAllowed :
      (runtime : Runtime) (a : Answers) (state : ExecutorState) (phase : ExecutorPhase) (s : Desk)
      → state.phase ≡ phase
      → is_early phase ≡ true
      → IsLive state s
      → Ends P IsAllowedWith (approve_as_needed runtime a state phase s)
  unfolding approve_as_needed
  approve_as_needed-IsAllowed runtime a state approving s e early live =
      recover_approval-IsAllowed runtime a state s e live
  approve_as_needed-IsAllowed runtime a state prepared s e early live =
      approve_order-IsAllowed runtime a state s e live
  approve_as_needed-IsAllowed runtime a state approved s e early live =
      let st = Stands-as state approved s e live.0 in
      (live.0.0, (live.0.1.1, st.0, st.1, (live-P state s live.0).1))
  approve_as_needed-IsAllowed runtime a state paying s e early live = cc
  approve_as_needed-IsAllowed runtime a state paid s e early live = cc
  approve_as_needed-IsAllowed runtime a state delivered s e early live = cc
  approve_as_needed-IsAllowed runtime a state acknowledging s e early live = cc
  approve_as_needed-IsAllowed runtime a state completed s e early live = cc
  approve_as_needed-IsAllowed runtime a state aborting s e early live = cc
  approve_as_needed-IsAllowed runtime a state aborted s e early live = cc

  -- A payment that is known is kept with the order.
  keep_payment-IsPaid :
      (runtime : Runtime) (end : SaveEnd) (state : ExecutorState) (hash : String) (s : Desk)
      → state.intent.order_id ≡ id
      → P s
      → absent ExecutorAction.pay s ≡ false
      → Ends P IsPaidWith (keep_payment runtime end state hash s)
  unfolding keep_payment
  keep_payment-IsPaid runtime end state hash s order p there =
      Ends-lift P IsPaidWith (request_for runtime (record state { payment_hash = some hash })) _ s p
        (λ request e.
          Ends-ended P IsPaidWith end s
            (record s {
              journal =
                  contents (record state {
                    payment_hash = some hash;
                    request = some request;
                    phase = paid;
                  });
            })
            _ p (p.0, (order, there)) ((p.0, (there, (order, refl))), order, refl))

  abbrev IsPaying : ExecutorState → View
  IsPaying state journal reservation unpaid =
      (journal ≡ contents (in_phase paying state)) × (reservation ≡ contents id)

  paying-P :
      (state : ExecutorState) (s : Desk)
      → state.intent.order_id ≡ id
      → Holds (IsPaying state) s
      → P s
  paying-P state s order h = (
    h.0,
    subst (λ j. InStep id j s.reservation (absent ExecutorAction.pay s)) (sym h.1.0) (order, h.1.1),
  )

  -- What `pay` leaves behind: the journal says paying, and the reservation holds.
  Worked-IsPaying :
      (state : ExecutorState) (s t : Desk)
      → Holds (IsPaying state) s
      → Worked ExecutorAction.pay s t
      → Holds (IsPaying state) t
  Worked-IsPaying state s t h w =
      (w.once_kept h.0, (w.same_journal ∙ h.1.0, w.same_reservation ∙ h.1.1))

  pay-throwing :
      (runtime : Runtime) (a : Answers) (state : ExecutorState) (s : Desk)
      → state.intent.order_id ≡ id
      → Holds (IsPaying state) s
      → Ends P
          (λ h t. Holds (IsPaying state) t × (absent ExecutorAction.pay t ≡ false))
          (take_back_and_throw approved ExecutorAction.pay 48 a nothing state
            (operate_and_prove runtime a 48 ExecutorAction.pay s))
  pay-throwing runtime a state s order h =
      Ends-throwing (Holds (IsPaying state))
        (λ h t. Holds (IsPaying state) t × (absent ExecutorAction.pay t ≡ false)) approved
        ExecutorAction.pay 48 a nothing state _ (λ t g. paying-P state t order g)
        (λ t g.
          take_back-Ends (λ st. P) approved ExecutorAction.pay 48 a nothing state t
            (paying-P state t order g) (λ there. paying-P state t order g)
            (λ gone. (g.0, (order, (gone, g.1.1)))) (λ gone. (g.0, (order, (gone, g.1.1)))))
        (Ends-map (Worked ExecutorAction.pay s) (Holds (IsPaying state))
          (λ x. IsWorked ExecutorAction.pay s)
          (λ x t. Holds (IsPaying state) t × (absent ExecutorAction.pay t ≡ false)) _
          (λ t w. Worked-IsPaying state s t h w) (λ x t w. (Worked-IsPaying state s t h w.0, w.1))
          (operate_and_prove-IsWorked runtime a 48 ExecutorAction.pay s))

  pay_order-IsPaid :
      (runtime : Runtime) (a : Answers) (state : ExecutorState) (s : Desk)
      → Holds (IsAllowed id state) s
      → Ends P IsPaidWith (pay_order runtime a state s)
  unfolding pay_order
  pay_order-IsPaid runtime a state s all =
      let p = allowed-P state s all in
      let order = all.1.0 in
      let marked = record s { journal = contents (in_phase paying state) } in
      let marked_IsPaying : Holds (IsPaying state) marked = (all.0, (refl, all.1.2)) in
      Ends-lift P IsPaidWith a.prepare_payment _ s p (λ u e.
        Ends-lift P IsPaidWith (a.authenticated 1) _ s p (λ v f.
          Ends-lift P IsPaidWith a.active_service _ s p (λ w g.
            Ends-ended P IsPaidWith (a.save_end 47) s marked _ p
              (paying-P state marked order marked_IsPaying)
              (Ends-then P (λ h t. Holds (IsPaying state) t × (absent ExecutorAction.pay t ≡ false))
                IsPaidWith _ _ (pay-throwing runtime a state marked order marked_IsPaying)
                (λ hash t h.
                  keep_payment-IsPaid runtime (a.save_end 49) (in_phase paying state) hash t order
                    (paying-P state t order h.0) h.1)))))

  buy-IsPaid :
      (runtime : Runtime) (a : Answers) (state : ExecutorState) (s : Desk)
      → is_early state.phase ≡ true
      → IsLive state s
      → Ends P IsPaidWith (buy runtime a state s)
  unfolding buy
  buy-IsPaid runtime a state s early live =
      Ends-lift P IsPaidWith (check_versions runtime a state) _ s (live-P state s live.0) (λ u e.
        Ends-then P IsAllowedWith IsPaidWith _ _
          (approve_as_needed-IsAllowed runtime a state state.phase s refl early live)
          (λ allowed t all. pay_order-IsPaid runtime a allowed t all))

  recover_payment-IsPaid :
      (runtime : Runtime) (a : Answers) (state : ExecutorState) (s : Desk)
      → IsLive state s
      → Ends P IsPaidWith (recover_payment runtime a state s)
  unfolding recover_payment
  recover_payment-IsPaid runtime a state s live =
      Ends-then P (λ hash t. P t × (absent ExecutorAction.pay t ≡ false)) IsPaidWith _ _
        (recover-Holds (InStep id) runtime a 51 ExecutorAction.pay s (live-P state s live.0))
        (λ hash t h. keep_payment-IsPaid runtime (a.save_end 51) state hash t live.0.1.1 h.0 h.1)

  late-IsPaidWith :
      (state : ExecutorState) (phase : ExecutorPhase) (s : Desk)
      → state.phase ≡ phase
      → is_late phase ≡ true
      → absent ExecutorAction.pay s ≡ false
      → IsLive state s
      → IsPaidWith state s
  late-IsPaidWith state phase s e late there live =
      let order = live.0.1.1 in
      let is_it = ap is_late e ∙ late in
      (
        (live.0.0, (there, subst (λ j. JournalIn is_late id j) (sym live.0.1.0) (order, is_it))),
        order,
        is_it,
      )

  pub pay_as_needed-IsPaid :
      (runtime : Runtime) (a : Answers) (state : ExecutorState) (phase : ExecutorPhase) (s : Desk)
      → state.phase ≡ phase
      → IsLive state s
      → Ends P IsPaidWith (pay_as_needed runtime a state phase s)
  unfolding pay_as_needed
  pay_as_needed-IsPaid runtime a state prepared s e live =
      buy-IsPaid runtime a state s (ap is_early e) live
  pay_as_needed-IsPaid runtime a state approving s e live =
      buy-IsPaid runtime a state s (ap is_early e) live
  pay_as_needed-IsPaid runtime a state approved s e live =
      buy-IsPaid runtime a state s (ap is_early e) live
  pay_as_needed-IsPaid runtime a state paying s e live =
      recover_payment-IsPaid runtime a state s live
  pay_as_needed-IsPaid runtime a state paid s e live =
      late-IsPaidWith state paid s e refl (Stands-as state paid s e live.0) live
  pay_as_needed-IsPaid runtime a state delivered s e live =
      late-IsPaidWith state delivered s e refl (Stands-as state delivered s e live.0) live
  pay_as_needed-IsPaid runtime a state acknowledging s e live =
      late-IsPaidWith state acknowledging s e refl (Stands-as state acknowledging s e live.0) live
  pay_as_needed-IsPaid runtime a state completed s e live =
      late-IsPaidWith state completed s e refl (Stands-as state completed s e live.0) live
  pay_as_needed-IsPaid runtime a state aborting s e live =
      absurd (not_stopping (sym (ap is_stopping e) ∙ live.1))
  pay_as_needed-IsPaid runtime a state aborted s e live =
      absurd (not_stopping (sym (ap is_stopping e) ∙ live.1))
