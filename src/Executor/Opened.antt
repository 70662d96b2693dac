-- ===== src/Executor/Opened.antt =====
-- A whole run keeps the journal of its order in step.
use obolos.Prelude.{◌||◌, String, Bool, true, false, Option, none, some, ◌≡◌, refl}
use obolos.Prelude.{string_eq, subst, Result, ok, throw_if}
use obolos.Prelude.{arith}
use obolos.Stateful.{lift, Ends, Ends-then, Ends-lift, Ends-if}
use obolos.Stateful.{Ends-map}
use obolos.Executor.{ExecutorAction, ExecutorPhase}
use obolos.Executor.{File, missing, unreadable}
use obolos.Executor.{contents, ExecutorState, ExecutorInput, Desk, Answers, Runtime}
use obolos.Executor.Stages.{is_aborting, abort_order, resume}
use obolos.Executor.Run.{read_file, is_bad_intent, is_other_intent, is_other_holder, new_state}
use obolos.Executor.Run.{open_order, is_aborted, confirm_aborted, take_way}
use obolos.Executor.Run.{authenticate, run_executor}
use obolos.Executor.Frames.{absent, Ends-ended}
use obolos.Executor.InStep.{InStep, Holds, IsReady, IsGivenUp, is_stopping}
use obolos.Executor.InStep.{given_up-InStep, Holds-map}
use obolos.Executor.GivenUp.{
  verify_aborted-keeps, ready-IsGivenUp, abort_order-IsGivenUp, IsGivenUpWith,
}
use obolos.Executor.Paid.{IsPaidWith}
use obolos.Executor.Finished.{paid-P, resume-IsPaid}

is_aborted-stopping : (phase : ExecutorPhase) → is_aborted phase ≡ true → is_stopping phase ≡ true
is_aborted-stopping phase e = ground arith

not_stopping :
    (phase : ExecutorPhase)
    → is_aborted phase ≡ false
    → is_aborting phase ≡ false
    → is_stopping phase ≡ false
not_stopping phase e f = ground arith

or_false : (a b : Bool) → a || b ≡ false → b ≡ false
or_false a b h = ground arith

stored_at :
    (journal : File ExecutorState) (state : ExecutorState)
    → read_file journal ≡ ok (some state)
    → journal ≡ contents state
unfolding read_file
stored_at missing state e = cc
stored_at unreadable state e = cc
stored_at (contents other) state e = cc

nothing_at :
    (journal : File ExecutorState)
    → ◌≡◌ {A = Result String (Option ExecutorState)} (read_file journal) (ok none)
    → journal ≡ missing
unfolding read_file
nothing_at missing e = refl
nothing_at unreadable e = cc
nothing_at (contents other) e = cc

module _ (id : String) where
  abbrev P : Desk → Type 0
  P = Holds (InStep id)

  confirm_aborted-P :
      (a : Answers) (state : ExecutorState) (s : Desk)
      → is_stopping state.phase ≡ true
      → Holds (IsReady id state) s
      → Ends P (λ st. P) (confirm_aborted a state s)
  confirm_aborted-P a state s e ready =
      let given = ready-IsGivenUp id state s e ready in
      Ends-map (Holds (IsGivenUp id)) P (λ st. Holds (IsGivenUp id)) (λ st. P) _
        (λ t g. Holds-map (IsGivenUp id) (InStep id) t (given_up-InStep id) g)
        (λ st t g. Holds-map (IsGivenUp id) (InStep id) t (given_up-InStep id) g)
        (Ends-then (Holds (IsGivenUp id)) (λ u. Holds (IsGivenUp id)) (λ st. Holds (IsGivenUp id)) _
          _ (verify_aborted-keeps (Holds (IsGivenUp id)) a state s given)
          (λ u t g.
            Ends-ended (Holds (IsGivenUp id)) (λ st. Holds (IsGivenUp id)) (a.unlink_end 2) t
              (record t { reservation = missing }) (λ x. lift (ok state)) g g g))

  take_way-P :
      (runtime : Runtime) (a : Answers) (held : Option String) (state : ExecutorState) (s : Desk)
      → Holds (IsReady id state) s
      → Ends P (λ st. P) (take_way runtime a held state s)
  unfolding take_way
  take_way-P runtime a held state s ready =
      Ends-if P (λ st. P) (is_aborted state.phase) (confirm_aborted a state) _ s
        (λ e. confirm_aborted-P a state s (is_aborted-stopping state.phase e) ready)
        (λ e.
          Ends-if P (λ st. P) (a.abort_unpaid || is_aborting state.phase)
            (abort_order runtime a state) (resume runtime a held state) s
            (λ f.
              Ends-map P P (IsGivenUpWith id) (λ st. P) _ (λ t p. p)
                (λ st t g. Holds-map (IsGivenUp id) (InStep id) t (given_up-InStep id) g.0)
                (abort_order-IsGivenUp id runtime a state s ready))
            (λ f.
              Ends-map P P (IsPaidWith id) (λ st. P) _ (λ t p. p) (λ st t h. paid-P id t h.0)
                (resume-IsPaid id runtime a held state s
                  (ready, not_stopping state.phase e (or_false a.abort_unpaid _ f)))))

  open_order-IsReady :
      (runtime : Runtime) (intent : ExecutorInput) (a : Answers) (stored : Option ExecutorState)
      (s : Desk)
      → intent.order_id ≡ id
      → read_file s.journal ≡ ok stored
      → P s
      → Ends P (λ st. Holds (IsReady id st)) (open_order runtime intent a stored s)
  unfolding open_order read_file
  open_order-IsReady runtime intent a (some state) s order e p =
      let at = stored_at s.journal state e in
      let found : InStep id (contents state) s.reservation (absent ExecutorAction.pay s) =
        subst (λ j. InStep id j s.reservation (absent ExecutorAction.pay s)) at p.1 in
      (p.0, (at, found.0, found.1))
  open_order-IsReady runtime intent a none s order e p =
      let gone = nothing_at s.journal e in
      let unpaid : absent ExecutorAction.pay s ≡ true =
        subst (λ j. InStep id j s.reservation (absent ExecutorAction.pay s)) gone p.1 in
      Ends-lift P (λ st. Holds (IsReady id st)) (throw_if a.abort_unpaid _) _ s p
        (λ u f.
          Ends-lift P (λ st. Holds (IsReady id st)) (a.preflight 0) _ s p
            (λ versions g.
              Ends-ended P (λ st. Holds (IsReady id st)) (a.save_end 0) s
                (record s { journal = contents (new_state runtime intent versions) }) _ p
                (p.0, (order, unpaid)) (p.0, (refl, order, unpaid))))

  pub run_executor-P :
      (runtime : Runtime) (intent : ExecutorInput) (a : Answers) (s : Desk)
      → intent.order_id ≡ id
      → P s
      → Ends P (λ st. P) (run_executor runtime intent a s)
  unfolding run_executor
  run_executor-P runtime intent a s order p =
      Ends-lift P (λ st. P) a.valid _ s p
        (λ u e.
          Ends-lift P (λ st. P) (throw_if (is_bad_intent intent) _) _ s p
            (λ u e.
              Ends-lift P (λ st. P) (read_file s.journal) _ s p
                (λ stored read.
                  Ends-lift P (λ st. P) (throw_if (is_other_intent runtime intent stored) _) _ s p
                    (λ u e.
                      Ends-lift P (λ st. P) (authenticate a) _ s p
                        (λ u e.
                          Ends-lift P (λ st. P) (read_file s.reservation) _ s p
                            (λ held e.
                              Ends-lift P (λ st. P) (throw_if (is_other_holder intent held) _) _ s p
                                (λ u e.
                                  Ends-then P (λ st. Holds (IsReady id st)) (λ st. P) _ _
                                    (open_order-IsReady runtime intent a stored s order read p)
                                    (λ state t ready.
                                      take_way-P runtime a held state t ready))))))))
