-- ===== src/Executor/Stages.antt =====
-- `runEconomyExecutor` of lib/economy/executor.ts with the dependencies of
-- lib/economy/executor-live.ts, for one order, under the lock of the directory.
use obolos.Prelude.{ℕ, ◌+◌, ◌*◌, String, Bool, true, false, ◌&&◌, ◌||◌, not, Option, none}
use obolos.Prelude.{some, nat_beq, ◌==◌, string_eq, Result, ok, err, throw_if, if◌then◌else◌}
use obolos.Stateful.{Stateful, lift, then_run, ◌>>=◌, ◌>>◌}
use obolos.Executor.{ExecutorAction, ExecutorPhase, prepared, approving, approved, paying, paid}
use obolos.Executor.{delivered, acknowledging, completed, aborting, aborted, missing}
use obolos.Executor.{
  contents, SaveEnd, ExecutorInput, ServiceRequest, ExecutorState, Delivery, Desk,
}
use obolos.Executor.{Answers, Runtime, ended, catching}
use obolos.Executor.Operations.{durable_operation, reconcile, circle_receipt, has_operation}

-- `persist`
abbrev pub persist : SaveEnd → ExecutorState → Stateful Desk (Unit {0})
persist end state s = ended end s (record s { journal = contents state })

-- `release`
abbrev pub release : SaveEnd → Stateful Desk (Unit {0})
release end s = ended end s (record s { reservation = missing })

abbrev pub reserve : SaveEnd → String → Stateful Desk (Unit {0})
reserve end order_id s = ended end s (record s { reservation = contents order_id })

abbrev pub in_phase : ExecutorPhase → ExecutorState → ExecutorState
in_phase phase state = record state { phase = phase }

-- An operation that Circle was asked for, and its receipt.
abbrev pub operate_and_prove : Runtime → Answers → ℕ → ExecutorAction → Stateful Desk String
operate_and_prove runtime a site kind = durable_operation kind (a.submission kind) >>= λ op.
    circle_receipt runtime kind (a.reconciliation (50 + site)) (a.finalized site) op

-- `recover`
abbrev pub recover : Runtime → Answers → ℕ → ExecutorAction → Stateful Desk String
recover runtime a site kind = reconcile runtime kind (a.reconciliation site) >>= λ op.
    circle_receipt runtime kind (a.reconciliation (50 + site)) (a.finalized site) op

-- `requestFor`
unfoldable pub request_for : Runtime → ExecutorState → Result String ServiceRequest
request_for runtime state = elim state.payment_hash [
  | none ↦ err "Missing payment proof."
  | some hash ↦
      runtime.validate_request
        (record { intent = state.intent; versions = state.versions; transaction_hash = hash })
]

abbrev pub amount_of : ExecutorInput → ℕ
amount_of intent = intent.definition.quantity * intent.definition.unit_price_atomic

abbrev pub refuse_paid : Bool → String → Stateful Desk (Unit {0})
refuse_paid has_pay message = lift (throw_if has_pay message)

-- `prepareAbort`: whether an allowance has to be revoked.
unfoldable pub prepare_abort : Runtime → Answers → ℕ → ExecutorState → Stateful Desk Bool
unfolding has_operation
prepare_abort runtime a site state = do
  has_pay ← has_operation ExecutorAction.pay (a.unpaid site)
  refuse_paid has_pay "Payment journal exists; abort cannot exclude an in-flight payment."
  lift (a.unpaid (1 + site))
  has_approval ← has_operation ExecutorAction.approve (a.unpaid (2 + site))
  if not has_approval then lift (ok false) else do
    receipt ← recover runtime a site ExecutorAction.approve
    allowance ← lift (a.allowance site)
    lift (
        throw_if (not (nat_beq allowance 0) && not (nat_beq allowance (amount_of state.intent)))
          "Allowance differs from this order; manual reconciliation required.")
    lift (ok (not (nat_beq allowance 0)))

-- `verifyAborted`
unfoldable pub verify_aborted : Answers → ExecutorState → Stateful Desk (Unit {0})
unfolding has_operation
verify_aborted a state = do
  has_pay ← has_operation ExecutorAction.pay (a.unpaid 10)
  refuse_paid has_pay "Payment journal exists; reservation retained."
  lift (a.unpaid 11)
  if not state.abort_revoke_required then lift (ok tt) else do
    allowance ← lift (a.allowance 10)
    lift (throw_if (not (nat_beq allowance 0)) "Allowance revocation is not finalized.")

abbrev pub can_abort : ExecutorPhase → Bool
can_abort prepared = true
can_abort approving = true
can_abort approved = true
can_abort paying = true
can_abort aborting = true
can_abort _ = false

abbrev pub is_aborting : ExecutorPhase → Bool
is_aborting aborting = true
is_aborting _ = false

-- The order is marked as aborting before anything is revoked.
unfoldable pub begin_abort : Runtime → Answers → ExecutorState → Stateful Desk ExecutorState
unfolding prepare_abort
begin_abort runtime a state = if is_aborting state.phase then lift (ok state) else do
  revoke ← prepare_abort runtime a 20 state
  persist (a.save_end 11) (record state { phase = aborting; abort_revoke_required = revoke })
  lift (ok (record state { phase = aborting; abort_revoke_required = revoke }))

-- The allowance is set to nothing, by one operation.
unfoldable pub revoke : Runtime → Answers → ExecutorState → Stateful Desk ExecutorState
unfolding prepare_abort has_operation durable_operation
revoke runtime a state = if not state.abort_revoke_required then lift (ok state) else do
  has_abort ← has_operation ExecutorAction.abort (a.unpaid 12)
  hash ←
      (if has_abort
        then recover runtime a 12 ExecutorAction.abort
        else prepare_abort runtime a 30 state >>= λ again.
            operate_and_prove runtime a 13 ExecutorAction.abort)
  lift (ok (record state { abort_hash = some hash }))

unfoldable pub abort_order : Runtime → Answers → ExecutorState → Stateful Desk ExecutorState
unfolding begin_abort revoke verify_aborted
abort_order runtime a state = do
  lift (throw_if (not (can_abort state.phase)) "A paid order cannot be aborted.")
  marked ← begin_abort runtime a state
  revoked ← revoke runtime a marked
  verify_aborted a revoked
  persist (a.save_end 14) (in_phase aborted revoked)
  release (a.unlink_end 14)
  lift (ok (in_phase aborted revoked))

-- A phase that was saved before its operation was submitted is taken back.
unfoldable pub take_back :
    ExecutorPhase
    → ExecutorAction
    → ℕ
    → Answers
    → Stateful Desk (Unit {0})
    → ExecutorState
    → Stateful Desk ExecutorState
unfolding has_operation
take_back earlier kind site a and_then state = do
  has ← has_operation kind (a.unpaid site)
  if has then lift (ok state) else do
    persist (a.save_end site) (in_phase earlier state)
    and_then
    lift (ok (in_phase earlier state))

-- The catch clauses of `approve` and `pay`, which throw the error again.
abbrev pub take_back_and_throw :
    {A : Type 0}
    → ExecutorPhase
    → ExecutorAction
    → ℕ
    → Answers
    → Stateful Desk (Unit {0})
    → ExecutorState
    → Desk × Result String A
    → Desk × Result String A
take_back_and_throw earlier kind site a and_then state (s, ok x) = (s, ok x)
take_back_and_throw earlier kind site a and_then state (s, err e) =
    catching (λ t. then_run (take_back earlier kind site a and_then state t) (λ back. lift (err e)))
      (s, err e)

abbrev pub nothing : Stateful Desk (Unit {0})
nothing = lift (ok tt)

unfoldable pub take_back_unsubmitted :
    Answers → ExecutorState → ExecutorPhase → Stateful Desk ExecutorState
unfolding take_back
take_back_unsubmitted a state approving =
    take_back prepared ExecutorAction.approve 40 a (release (a.unlink_end 40)) state
take_back_unsubmitted a state paying = take_back approved ExecutorAction.pay 41 a nothing state
take_back_unsubmitted a state _ = lift (ok state)

abbrev pub check_versions : Runtime → Answers → ExecutorState → Result String (Unit {0})
check_versions runtime a state = elim (a.preflight 1) [
  | err e ↦ err e
  | ok versions ↦
      throw_if (not (runtime.hash_versions versions == runtime.hash_versions state.versions))
        "Stored policy versions are immutable."
]

abbrev pub recover_approval : Runtime → Answers → ExecutorState → Stateful Desk ExecutorState
recover_approval runtime a state = do
  hash ← recover runtime a 42 ExecutorAction.approve
  persist (a.save_end 42) (in_phase approved state)
  lift (ok (in_phase approved state))

-- The reservation and the phase are saved, and then the allowance is given.
unfoldable pub approve_order : Runtime → Answers → ExecutorState → Stateful Desk ExecutorState
unfolding take_back durable_operation
approve_order runtime a state = do
  lift a.prepare_approval
  reserve (a.save_end 43) state.intent.order_id
  persist (a.save_end 44) (in_phase approving state)
  receipt ← λ s.
      take_back_and_throw prepared ExecutorAction.approve 45 a (release (a.unlink_end 45)) state
        (operate_and_prove runtime a 45 ExecutorAction.approve s)
  persist (a.save_end 46) (in_phase approved state)
  lift (ok (in_phase approved state))

unfoldable pub approve_as_needed :
    Runtime → Answers → ExecutorState → ExecutorPhase → Stateful Desk ExecutorState
unfolding approve_order
approve_as_needed runtime a state approving = recover_approval runtime a state
approve_as_needed runtime a state prepared = approve_order runtime a state
approve_as_needed runtime a state _ = lift (ok state)

-- The payment proof is kept with the request.
unfoldable pub keep_payment :
    Runtime → SaveEnd → ExecutorState → String → Stateful Desk ExecutorState
unfolding request_for
keep_payment runtime end state hash = do
  let with_hash = record state { payment_hash = some hash }
  request ← lift (request_for runtime with_hash)
  persist end (record with_hash { request = some request; phase = paid })
  lift (ok (record with_hash { request = some request; phase = paid }))

-- The payment, under a phase that was saved before.
unfoldable pub pay_order : Runtime → Answers → ExecutorState → Stateful Desk ExecutorState
unfolding take_back durable_operation keep_payment
pay_order runtime a state = do
  lift a.prepare_payment
  lift (a.authenticated 1)
  lift a.active_service
  persist (a.save_end 47) (in_phase paying state)
  hash ← λ s.
      take_back_and_throw approved ExecutorAction.pay 48 a nothing state
        (operate_and_prove runtime a 48 ExecutorAction.pay s)
  keep_payment runtime (a.save_end 49) (in_phase paying state) hash

-- The branch of an order that was not paid.
unfoldable pub buy : Runtime → Answers → ExecutorState → Stateful Desk ExecutorState
unfolding approve_as_needed pay_order
buy runtime a state = do
  lift (check_versions runtime a state)
  allowed ← approve_as_needed runtime a state state.phase
  pay_order runtime a allowed

unfoldable pub recover_payment : Runtime → Answers → ExecutorState → Stateful Desk ExecutorState
unfolding keep_payment
recover_payment runtime a state = do
  hash ← recover runtime a 51 ExecutorAction.pay
  keep_payment runtime (a.save_end 51) state hash

unfoldable pub pay_as_needed :
    Runtime → Answers → ExecutorState → ExecutorPhase → Stateful Desk ExecutorState
unfolding buy recover_payment
pay_as_needed runtime a state prepared = buy runtime a state
pay_as_needed runtime a state approving = buy runtime a state
pay_as_needed runtime a state approved = buy runtime a state
pay_as_needed runtime a state paying = recover_payment runtime a state
pay_as_needed runtime a state _ = lift (ok state)

-- The request that is stored is the one that its terms give.
unfoldable pub check_request : Runtime → ExecutorState → Result String (Unit {0})
unfolding request_for
check_request runtime state =
    let differs = err "Stored request is missing or differs from immutable terms." in
    elim state.request [
      | none ↦ differs
      | some stored ↦ elim (request_for runtime state) [
        | err e ↦ err e
        | ok request ↦
            if runtime.hash_request stored == runtime.hash_request request then ok tt else differs
      ]
    ]

abbrev pub is_paid : ExecutorPhase → Bool
is_paid paid = true
is_paid _ = false

abbrev pub is_hash : String → Option String → Bool
is_hash hash none = false
is_hash hash (some h) = h == hash

abbrev pub is_unbound : Runtime → ExecutorState → Delivery → Bool
is_unbound runtime state d =
    not (d.order_id == state.intent.order_id)
    || not (d.service_hash == state.intent.service_hash)
    || not (is_hash d.transaction_hash state.payment_hash)
    || not (is_hash (runtime.hash_output d.output) d.output_hash)

abbrev pub with_output : ExecutorState → Delivery → ExecutorState
with_output state d = record state {
  output = d.output;
  output_hash = d.output_hash;
  phase = delivered;
}

unfoldable pub deliver : Runtime → Answers → ExecutorState → Stateful Desk ExecutorState
deliver runtime a state = do
  d ← lift a.delivery
  lift (
      throw_if (not (d.state == "fulfilled"))
        "Paid delivery remains pending; retry the same input.")
  lift (throw_if (is_unbound runtime state d) "Unbound provider output.")
  lift a.valid_output
  persist (a.save_end 52) (with_output state d)
  lift (ok (with_output state d))

unfoldable pub deliver_as_needed : Runtime → Answers → ExecutorState → Stateful Desk ExecutorState
unfolding deliver
deliver_as_needed runtime a state =
    if is_paid state.phase then deliver runtime a state else lift (ok state)

abbrev pub complete : Answers → ℕ → ExecutorState → Stateful Desk ExecutorState
complete a site state =
    persist (a.save_end site) (in_phase completed state) >> lift (ok (in_phase completed state))

abbrev pub acknowledged : ExecutorState → String → ExecutorState
acknowledged state hash = record state { acknowledgment_hash = some hash }

unfoldable pub recover_acknowledgment :
    Runtime → Answers → ExecutorState → Stateful Desk ExecutorState
recover_acknowledgment runtime a state = do
  hash ← recover runtime a 53 ExecutorAction.ack
  verified ← lift (a.delivery_verified 53)
  lift (throw_if (not verified) "Acknowledgment not finalized.")
  complete a 53 (acknowledged state hash)

unfoldable pub acknowledge : Runtime → Answers → ExecutorState → Stateful Desk ExecutorState
unfolding durable_operation
acknowledge runtime a state = do
  persist (a.save_end 54) (in_phase acknowledging state)
  hash ← operate_and_prove runtime a 55 ExecutorAction.ack
  verified ← lift (a.delivery_verified 55)
  lift (throw_if (not verified) "Acknowledgment is not finalized.")
  complete a 55 (in_phase acknowledging (acknowledged state hash))

-- The last stage, by the phase and by whether the chain has the acknowledgment already.
unfoldable pub finish :
    Runtime → Answers → Bool → ExecutorState → ExecutorPhase → Stateful Desk ExecutorState
unfolding recover_acknowledgment acknowledge
finish runtime a already state completed =
    lift (throw_if (not already) "Acknowledgment not finalized.") >> lift (ok state)
finish runtime a already state acknowledging = recover_acknowledgment runtime a state
finish runtime a already state _ =
    if already then complete a 56 state else acknowledge runtime a state

-- `if(reservation||state.phase==='paid')await release()`
unfoldable pub release_as_needed :
    Answers → Option String → ExecutorState → Stateful Desk (Unit {0})
release_as_needed a held state =
    if is_paid state.phase || (elim held [ none ↦ false | some id ↦ true ])
    then release (a.unlink_end 57)
    else nothing

unfoldable pub resume :
    Runtime → Answers → Option String → ExecutorState → Stateful Desk ExecutorState
unfolding take_back_unsubmitted pay_as_needed check_request release_as_needed deliver_as_needed
    finish
resume runtime a held state = do
  standing ← take_back_unsubmitted a state state.phase
  bought ← pay_as_needed runtime a standing standing.phase
  lift (check_request runtime bought)
  lift a.payment_verified
  release_as_needed a held bought
  received ← deliver_as_needed runtime a bought
  lift (
      throw_if (not (is_hash (runtime.hash_output received.output) received.output_hash))
        "Stored output hash mismatch.")
  already ← lift (a.delivery_verified 58)
  finish runtime a already received received.phase
