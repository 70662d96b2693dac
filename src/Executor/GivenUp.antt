-- ===== src/Executor/GivenUp.antt =====
-- An order that is aborted stays without a payment.
use obolos.Prelude.{ℕ, ◌+◌, String, Bool, true, false, ◌&&◌, not, ◌≡◌, refl, sym}
use obolos.Prelude.{subst, ◌∙◌, ok, throw_if, nat_beq}
use obolos.Stateful.{lift, Ends, Ends-then, Ends-lift, Ends-if}
use obolos.Stateful.{Ends-map}
use obolos.Executor.{ExecutorAction, ExecutorPhase, prepared, approving, approved, paying, paid}
use obolos.Executor.{delivered, acknowledging, completed, aborting, aborted, File, missing}
use obolos.Executor.{contents, ExecutorState, Desk, Answers, Runtime}
use obolos.Executor.Stages.{in_phase, amount_of}
use obolos.Executor.Stages.{
  prepare_abort, verify_aborted, can_abort, is_aborting, begin_abort, revoke,
}
use obolos.Executor.Stages.{abort_order}
use obolos.Executor.Frames.{
  same_action, absent, IsOnceEach, Frame, Frame-refl, Ends-ended, Ends-has,
}
use obolos.Executor.Refresh.{IsFound, recover-IsFound}
use obolos.Executor.Submits.{Worked, IsWorked, operate_and_prove-IsWorked}
use obolos.Executor.InStep.{Stands, InStep, Holds, Frame-Holds, IsReady, IsGivenUp, is_stopping}
use obolos.Executor.InStep.{given_up-InStep, ready-InStep, Holds-map, JournalIn}

-- A last check changes nothing.
Ends-checked :
    (P : Desk → Type 0) (b : Bool) (e : String) (s : Desk)
    → P s
    → Ends P (λ u. P) (lift (throw_if b e) s)
Ends-checked P true e s p = p
Ends-checked P false e s p = p

-- The checks of `verifyAborted` change nothing.
pub verify_aborted-keeps :
    (P : Desk → Type 0) (a : Answers) (state : ExecutorState) (s : Desk)
    → P s
    → Ends P (λ u. P) (verify_aborted a state s)
unfolding verify_aborted
verify_aborted-keeps P a state s p =
    Ends-has P (λ u. P) ExecutorAction.pay (a.unpaid 10) _ s p (λ there. p)
      (λ gone.
        Ends-lift P (λ u. P) (a.unpaid 11) _ s p
          (λ u e.
            Ends-if P (λ u. P) (not state.abort_revoke_required) (lift (ok tt)) _ s (λ f. p)
              (λ f.
                Ends-lift P (λ u. P) (a.allowance 10) _ s p
                  (λ allowance g. Ends-checked P (not (nat_beq allowance 0)) _ s p))))

abbrev IsClear : Desk → Desk → Type 0
IsClear s t = Frame s t × (absent ExecutorAction.pay t ≡ true)

-- `prepareAbort` returns only without a payment.
prepare_abort-IsClear :
    (runtime : Runtime) (a : Answers) (site : ℕ) (state : ExecutorState) (s : Desk)
    → Ends (Frame s) (λ revoke. IsClear s) (prepare_abort runtime a site state s)
unfolding prepare_abort
prepare_abort-IsClear runtime a site state s =
    Ends-has (Frame s) (λ r. IsClear s) ExecutorAction.pay (a.unpaid site) _ s (Frame-refl s)
      (λ there. Frame-refl s)
      (λ gone.
        Ends-lift (Frame s) (λ r. IsClear s) (a.unpaid (1 + site)) _ s (Frame-refl s)
          (λ u e.
            Ends-has (Frame s) (λ r. IsClear s) ExecutorAction.approve (a.unpaid (2 + site)) _ s
              (Frame-refl s)
              (λ there.
                Ends-then (Frame s) (λ h. IsFound ExecutorAction.approve s) (λ r. IsClear s) _ _
                  (recover-IsFound runtime a site ExecutorAction.approve s)
                  (λ h t found.
                    Ends-lift (Frame s) (λ r. IsClear s) (a.allowance site) _ t found.0
                      (λ allowance f.
                        Ends-lift (Frame s) (λ r. IsClear s)
                          (throw_if
                            (not (nat_beq allowance 0)
                              && not (nat_beq allowance (amount_of state.intent)))
                            _)
                          _ t found.0 (λ v g. (found.0, found.0.same_payment ∙ gone)))))
              (λ none_there. (Frame-refl s, gone))))

-- With the order that the state is of.
abbrev pub IsGivenUpWith : String → ExecutorState → Desk → Type 0
IsGivenUpWith id state t = Holds (IsGivenUp id) t × (state.intent.order_id ≡ id)

stopped-unpaid :
    (id : String) (phase : ExecutorPhase) (reservation : File String) (unpaid : Bool)
    → is_stopping phase ≡ true
    → Stands id phase reservation unpaid
    → unpaid ≡ true
stopped-unpaid id aborting reservation unpaid e h = h
stopped-unpaid id aborted reservation unpaid e h = h
stopped-unpaid id paid reservation unpaid l h = cc
stopped-unpaid id delivered reservation unpaid l h = cc
stopped-unpaid id acknowledging reservation unpaid l h = cc
stopped-unpaid id completed reservation unpaid l h = cc
stopped-unpaid id prepared reservation unpaid l h = cc
stopped-unpaid id approving reservation unpaid l h = cc
stopped-unpaid id approved reservation unpaid l h = cc
stopped-unpaid id paying reservation unpaid l h = cc

pub ready-IsGivenUp :
    (id : String) (state : ExecutorState) (s : Desk)
    → is_stopping state.phase ≡ true
    → Holds (IsReady id state) s
    → Holds (IsGivenUp id) s
ready-IsGivenUp id state s e (once, (journal, order, st)) = (
  once,
  (
    stopped-unpaid id state.phase _ _ e st,
    subst (λ j. JournalIn is_stopping id j) (sym journal) (order, e),
  ),
)

is_aborting-stopping : (phase : ExecutorPhase) → is_aborting phase ≡ true → is_stopping phase ≡ true
is_aborting-stopping aborting e = refl
is_aborting-stopping prepared e = cc
is_aborting-stopping approving e = cc
is_aborting-stopping approved e = cc
is_aborting-stopping paying e = cc
is_aborting-stopping paid e = cc
is_aborting-stopping delivered e = cc
is_aborting-stopping acknowledging e = cc
is_aborting-stopping completed e = cc
is_aborting-stopping aborted e = cc

stopping-GivenUp :
    (id : String) (state : ExecutorState) (s : Desk)
    → IsOnceEach s
    → absent ExecutorAction.pay s ≡ true
    → state.intent.order_id ≡ id
    → is_stopping state.phase ≡ true
    → Holds (IsGivenUp id) (record s { journal = contents state })
stopping-GivenUp id state s once gone order e = (once, (gone, (order, e)))

module _ (id : String) where
  abbrev P : Desk → Type 0
  P = Holds (InStep id)

  given_up-P : (s : Desk) → Holds (IsGivenUp id) s → P s
  given_up-P s h = Holds-map (IsGivenUp id) (InStep id) s (given_up-InStep id) h

  begin_abort-IsGivenUp :
      (runtime : Runtime) (a : Answers) (state : ExecutorState) (s : Desk)
      → Holds (IsReady id state) s
      → Ends P (IsGivenUpWith id) (begin_abort runtime a state s)
  unfolding begin_abort
  begin_abort-IsGivenUp runtime a state s ready =
      let (once, (journal, order, st)) = ready in
      let in_step = Holds-map (IsReady id state) (InStep id) s (ready-InStep id state) ready in
      Ends-if P (IsGivenUpWith id) (is_aborting state.phase) (lift (ok state)) _ s
        (λ e. (ready-IsGivenUp id state s (is_aborting-stopping state.phase e) ready, order))
        (λ e.
          Ends-then P (λ r t. IsClear s t) (IsGivenUpWith id) _ _
            (Ends-map (Frame s) P (λ r. IsClear s) (λ r. IsClear s) _
              (λ t f. Frame-Holds (InStep id) s t f in_step) (λ r t c. c)
              (prepare_abort-IsClear runtime a 20 state s))
            (λ r t clear.
              let marked = record state { phase = aborting; abort_revoke_required = r } in
              let given =
                stopping-GivenUp id marked t (clear.0.once_kept once) clear.1 order refl in
              Ends-ended P (IsGivenUpWith id) (a.save_end 11) t
                (record t { journal = contents marked }) _
                (Frame-Holds (InStep id) s t clear.0 in_step)
                (given_up-P (record t { journal = contents marked }) given) (given, order)))

  pub Worked-Frame :
      (kind : ExecutorAction) (s t : Desk)
      → same_action ExecutorAction.pay kind ≡ false
      → Worked kind s t
      → Frame s t
  Worked-Frame kind s t e w = record {
    same_journal = w.same_journal;
    same_reservation = w.same_reservation;
    same_payment = w.same_payment e;
    once_kept = w.once_kept;
  }

  abbrev G : Desk → Type 0
  G = Holds (IsGivenUp id)

  revoke-IsGivenUp :
      (runtime : Runtime) (a : Answers) (state : ExecutorState) (s : Desk)
      → IsGivenUpWith id state s
      → Ends G (IsGivenUpWith id) (revoke runtime a state s)
  unfolding revoke
  revoke-IsGivenUp runtime a state s (given, order) =
      Ends-if G (IsGivenUpWith id) (not state.abort_revoke_required) (lift (ok state)) _ s
        (λ e. (given, order))
        (λ e.
          Ends-has G (IsGivenUpWith id) ExecutorAction.abort (a.unpaid 12) _ s given
            (λ there.
              Ends-then G (λ hash. G) (IsGivenUpWith id) _ _
                (Ends-map (Frame s) G (λ hash. IsFound ExecutorAction.abort s) (λ hash. G) _
                  (λ t f. Frame-Holds (IsGivenUp id) s t f given)
                  (λ hash t f. Frame-Holds (IsGivenUp id) s t f.0 given)
                  (recover-IsFound runtime a 12 ExecutorAction.abort s))
                (λ hash t g. (g, order)))
            (λ gone.
              Ends-then G (λ hash. G) (IsGivenUpWith id) _ _
                (Ends-then G (λ again. G) (λ hash. G) _ _
                  (Ends-map (Frame s) G (λ r. IsClear s) (λ again. G) _
                    (λ t f. Frame-Holds (IsGivenUp id) s t f given)
                    (λ r t c. Frame-Holds (IsGivenUp id) s t c.0 given)
                    (prepare_abort-IsClear runtime a 30 state s))
                  (λ again t g.
                    Ends-map (Worked ExecutorAction.abort t) G
                      (λ hash. IsWorked ExecutorAction.abort t) (λ hash. G) _
                      (λ u w.
                        Frame-Holds (IsGivenUp id) t u
                          (Worked-Frame ExecutorAction.abort t u refl w) g)
                      (λ hash u w.
                        Frame-Holds (IsGivenUp id) t u
                          (Worked-Frame ExecutorAction.abort t u refl w.0) g)
                      (operate_and_prove-IsWorked runtime a 13 ExecutorAction.abort t)))
                (λ hash t g. (g, order))))

  pub abort_order-IsGivenUp :
      (runtime : Runtime) (a : Answers) (state : ExecutorState) (s : Desk)
      → Holds (IsReady id state) s
      → Ends P (IsGivenUpWith id) (abort_order runtime a state s)
  unfolding abort_order
  abort_order-IsGivenUp runtime a state s ready =
      let in_step = Holds-map (IsReady id state) (InStep id) s (ready-InStep id state) ready in
      Ends-lift P (IsGivenUpWith id) (throw_if (not (can_abort state.phase)) _) _ s in_step (λ u e.
        Ends-then P (IsGivenUpWith id) (IsGivenUpWith id) _ _
          (begin_abort-IsGivenUp runtime a state s ready)
          (λ marked t given.
            Ends-map G P (IsGivenUpWith id) (IsGivenUpWith id) _ given_up-P (λ st u g. g)
              (Ends-then G (IsGivenUpWith id) (IsGivenUpWith id) _ _
                (revoke-IsGivenUp runtime a marked t given)
                (λ revoked u done.
                  Ends-then G (λ v. G) (IsGivenUpWith id) _ _
                    (verify_aborted-keeps G a revoked u done.0)
                    (λ v w g.
                      let over =
                        stopping-GivenUp id (in_phase aborted revoked) w g.0 g.1.0 done.1 refl in
                      Ends-ended G (IsGivenUpWith id) (a.save_end 14) w _ _ g over (
                        Ends-ended G (IsGivenUpWith id) (a.unlink_end 14) _
                          (record w {
                            journal = contents (in_phase aborted revoked);
                            reservation = missing;
                          })
                          (λ x. lift (ok (in_phase aborted revoked))) over over (over, done.1)))))))
