-- ===== src/Executor/Finished.antt =====
-- Behind the payment: an order that is paid for stays so, whatever else happens.
use obolos.Prelude.{ℕ, ◌||◌, String, Bool, true, false, not, Option, none, some, ◌≡◌, refl}
use obolos.Prelude.{◌==◌, string_eq, ok, throw_if, if◌then◌else◌}
use obolos.Stateful.{lift, ◌>>◌, Ends, Ends-then, Ends-lift, Ends-if}
use obolos.Stateful.{Ends-map}
use obolos.Executor.{ExecutorAction, ExecutorPhase, prepared, approving, approved, paying, paid}
use obolos.Executor.{delivered, acknowledging, completed, aborting, aborted, missing}
use obolos.Executor.{contents, SaveEnd, ExecutorState, Desk, Answers, Runtime}
use obolos.Executor.Stages.{persist, release, in_phase, recover, is_paid, is_unbound}
use obolos.Executor.Stages.{with_output, deliver, deliver_as_needed, complete, acknowledged}
use obolos.Executor.Stages.{recover_acknowledgment, acknowledge, finish, release_as_needed, resume}
use obolos.Executor.Stages.{check_request, is_hash, nothing}
use obolos.Executor.Frames.{Frame, Ends-ended, Ends-last}
use obolos.Executor.Refresh.{IsFound, recover-IsFound}
use obolos.Executor.Submits.{Worked, IsWorked, operate_and_prove-IsWorked}
use obolos.Executor.InStep.{InStep, Holds, Frame-Holds, IsPaidFor, is_late}
use obolos.Executor.InStep.{paid-InStep, Holds-map}
use obolos.Executor.GivenUp.{Worked-Frame}
use obolos.Executor.Paid.{IsLive, IsPaidWith, take_back_unsubmitted-IsLive}
use obolos.Executor.Paid.{pay_as_needed-IsPaid}

module _ (id : String) where
  abbrev P : Desk → Type 0
  P = Holds (InStep id)

  abbrev S : Desk → Type 0
  S = Holds (IsPaidFor id)

  pub paid-P : (s : Desk) → S s → P s
  paid-P s h = Holds-map (IsPaidFor id) (InStep id) s (paid-InStep id) h

  -- The phase is saved as a later one.
  late-saved :
      (state : ExecutorState) (s : Desk)
      → S s
      → state.intent.order_id ≡ id
      → is_late state.phase ≡ true
      → IsPaidWith id state (record s { journal = contents state })
  late-saved state s h order late = ((h.0, (h.1.0, (order, late))), order, late)

  persist-IsPaid :
      (end : SaveEnd) (state : ExecutorState) (s : Desk)
      → S s
      → state.intent.order_id ≡ id
      → is_late state.phase ≡ true
      → Ends S (IsPaidWith id) ((persist end state >> lift (ok state)) s)
  persist-IsPaid end state s h order late =
      let new = record s { journal = contents state } in
      let after = late-saved state s h order late in
      Ends-ended S (IsPaidWith id) end s new _ h after.0 after

  deliver_as_needed-IsPaid :
      (runtime : Runtime) (a : Answers) (state : ExecutorState) (s : Desk)
      → IsPaidWith id state s
      → Ends S (IsPaidWith id) (deliver_as_needed runtime a state s)
  unfolding deliver_as_needed deliver
  deliver_as_needed-IsPaid runtime a state s (h, order, late) =
      Ends-if S (IsPaidWith id) (is_paid state.phase) (deliver runtime a state) (lift (ok state)) s
        (λ e. Ends-lift S (IsPaidWith id) a.delivery _ s h (λ d f.
          Ends-lift S (IsPaidWith id) (throw_if (not (d.state == "fulfilled")) _) _ s h (λ u g.
            Ends-lift S (IsPaidWith id) (throw_if (is_unbound runtime state d) _) _ s h (λ v k.
              Ends-lift S (IsPaidWith id) a.valid_output _ s h
                (λ w l. persist-IsPaid (a.save_end 52) (with_output state d) s h order refl)))))
        (λ e. (h, order, late))

  recover-S :
      (runtime : Runtime) (a : Answers) (site : ℕ) (kind : ExecutorAction) (s : Desk)
      → S s
      → Ends S (λ hash. S) (recover runtime a site kind s)
  recover-S runtime a site kind s h =
      Ends-map (Frame s) S (λ hash. IsFound kind s) (λ hash. S) _
        (λ t f. Frame-Holds (IsPaidFor id) s t f h)
        (λ hash t f. Frame-Holds (IsPaidFor id) s t f.0 h) (recover-IsFound runtime a site kind s)

  recover_acknowledgment-IsPaid :
      (runtime : Runtime) (a : Answers) (state : ExecutorState) (s : Desk)
      → S s
      → state.intent.order_id ≡ id
      → Ends S (IsPaidWith id) (recover_acknowledgment runtime a state s)
  unfolding recover_acknowledgment
  recover_acknowledgment-IsPaid runtime a state s h order =
      Ends-then S (λ hash. S) (IsPaidWith id) _ _ (recover-S runtime a 53 ExecutorAction.ack s h)
        (λ hash t g. Ends-lift S (IsPaidWith id) (a.delivery_verified 53) _ t g (λ verified e.
          Ends-lift S (IsPaidWith id) (throw_if (not verified) _) _ t g (λ u f.
            persist-IsPaid (a.save_end 53) (in_phase completed (acknowledged state hash)) t g order
              refl)))

  acknowledge-IsPaid :
      (runtime : Runtime) (a : Answers) (state : ExecutorState) (s : Desk)
      → S s
      → state.intent.order_id ≡ id
      → Ends S (IsPaidWith id) (acknowledge runtime a state s)
  unfolding acknowledge
  acknowledge-IsPaid runtime a state s h order =
      let marked = record s { journal = contents (in_phase acknowledging state) } in
      let later : S marked = (h.0, (h.1.0, (order, refl))) in
      Ends-ended S (IsPaidWith id) (a.save_end 54) s marked _ h later (
        Ends-then S (λ hash. S) (IsPaidWith id) _ _
          (Ends-map (Worked ExecutorAction.ack marked) S
            (λ hash. IsWorked ExecutorAction.ack marked) (λ hash. S) _
            (λ t w.
              Frame-Holds (IsPaidFor id) marked t
                (Worked-Frame id ExecutorAction.ack marked t refl w) later)
            (λ hash t w.
              Frame-Holds (IsPaidFor id) marked t
                (Worked-Frame id ExecutorAction.ack marked t refl w.0) later)
            (operate_and_prove-IsWorked runtime a 55 ExecutorAction.ack marked))
          (λ hash t g. Ends-lift S (IsPaidWith id) (a.delivery_verified 55) _ t g (λ verified e.
            Ends-lift S (IsPaidWith id) (throw_if (not verified) _) _ t g (λ u f.
              persist-IsPaid (a.save_end 55)
                (in_phase completed (in_phase acknowledging (acknowledged state hash))) t g order
                refl))))

  last_stage :
      (runtime : Runtime) (a : Answers) (already : Bool) (state : ExecutorState) (s : Desk)
      → IsPaidWith id state s
      → Ends S
          (IsPaidWith id)
          ((if already then complete a 56 state else acknowledge runtime a state) s)
  last_stage runtime a already state s (h, order, late) =
      Ends-if S (IsPaidWith id) already (complete a 56 state) (acknowledge runtime a state) s
        (λ e. persist-IsPaid (a.save_end 56) (in_phase completed state) s h order refl)
        (λ e. acknowledge-IsPaid runtime a state s h order)

  finish-IsPaid :
      (runtime : Runtime) (a : Answers) (already : Bool) (state : ExecutorState)
      (phase : ExecutorPhase) (s : Desk)
      → IsPaidWith id state s
      → Ends S (IsPaidWith id) (finish runtime a already state phase s)
  unfolding finish
  finish-IsPaid runtime a already state completed s h =
      Ends-lift S (IsPaidWith id) (throw_if (not already) _) _ s h.0 (λ u e. h)
  finish-IsPaid runtime a already state acknowledging s h =
      recover_acknowledgment-IsPaid runtime a state s h.0 h.1
  finish-IsPaid runtime a already state prepared s h = last_stage runtime a already state s h
  finish-IsPaid runtime a already state approving s h = last_stage runtime a already state s h
  finish-IsPaid runtime a already state approved s h = last_stage runtime a already state s h
  finish-IsPaid runtime a already state paying s h = last_stage runtime a already state s h
  finish-IsPaid runtime a already state paid s h = last_stage runtime a already state s h
  finish-IsPaid runtime a already state delivered s h = last_stage runtime a already state s h
  finish-IsPaid runtime a already state aborting s h = last_stage runtime a already state s h
  finish-IsPaid runtime a already state aborted s h = last_stage runtime a already state s h

  release_as_needed-IsPaid :
      (a : Answers) (held : Option String) (state : ExecutorState) (s : Desk)
      → S s
      → Ends S (λ u. S) (release_as_needed a held state s)
  unfolding release_as_needed
  release_as_needed-IsPaid a held state s h =
      Ends-if S (λ u. S) (is_paid state.phase || (elim held [ none ↦ false | some id ↦ true ]))
        (release (a.unlink_end 57)) nothing s
        (λ e. Ends-last S (λ u. S) (a.unlink_end 57) s (record s { reservation = missing }) h h h)
        (λ e. h)

  pub resume-IsPaid :
      (runtime : Runtime) (a : Answers) (held : Option String) (state : ExecutorState) (s : Desk)
      → IsLive id state s
      → Ends P (IsPaidWith id) (resume runtime a held state s)
  unfolding resume
  resume-IsPaid runtime a held state s live =
      Ends-then P (IsLive id) (IsPaidWith id) _ _
        (take_back_unsubmitted-IsLive id a state state.phase s refl live)
        (λ standing t l.
          Ends-then P (IsPaidWith id) (IsPaidWith id) _ _
            (pay_as_needed-IsPaid id runtime a standing standing.phase t refl l)
            (λ bought u h.
              Ends-map S P (IsPaidWith id) (IsPaidWith id) _ paid-P (λ st v g. g)
                (Ends-lift S (IsPaidWith id) (check_request runtime bought) _ u h.0 (λ x e.
                  Ends-lift S (IsPaidWith id) a.payment_verified _ u h.0 (λ y f.
                    Ends-then S (λ z. S) (IsPaidWith id) _ _
                      (release_as_needed-IsPaid a held bought u h.0)
                      (λ z v g.
                        Ends-then S (IsPaidWith id) (IsPaidWith id) _ _
                          (deliver_as_needed-IsPaid runtime a bought v (g, h.1, h.2))
                          (λ received w k.
                            Ends-lift S (IsPaidWith id)
                              (throw_if
                                (not (
                                  is_hash (runtime.hash_output received.output)
                                    received.output_hash))
                                _)
                              _ w k.0
                              (λ x e.
                                Ends-lift S (IsPaidWith id) (a.delivery_verified 58) _ w k.0
                                  (λ already f.
                                    finish-IsPaid runtime a already received received.phase w
                                      k)))))))))
