-- ===== src/Engine/Trail.antt =====
-- What every step keeps that looks at the mandate and the audit log alone: a step never changes
-- the mandate, and it only appends to the log.
use obolos.Prelude.{ℕ, String, ◌≡◌, List, [], ◌∷◌, Option, none, some, ok}
use obolos.Prelude.{Bool-cases, inl, inr, Template, ◌==◌, ltb, ◌+◌, ◌&&◌, is_empty, all, ◌++◌}
use obolos.Prelude.{>>=-ok, ok_injective, subst, length, ◌*◌}
use obolos.Contracts.{Run, Mandate, AuditEvent, Actor, EventKind, Provider, Gateway, Stage}
use obolos.Contracts.{Report, Check, Receipt, RepoEvidence, has_passed, mode_eq, live, running}
use obolos.Contracts.{hedera_testnet, arc_testnet}
use obolos.Policy.{append_audit}
use obolos.Engine.{Env, require_live_run}
use obolos.Engine.Choose.{is_other}
use obolos.Engine.Pay.{Attempt, stepped, threw, buy, buy_or_ask, ask_owner, step_purchase}
use obolos.Engine.Pay.{authorize_purchase, validate_receipt}
use obolos.Engine.Pay.{data_request_id, verify_request_id, data_purchase, covers, accept_evidence}
use obolos.Engine.Pay.{accept_purchase, buy_from}
use obolos.Engine.Verify.{draft_report, record_verification, accept_verification, check_report}
use obolos.Engine.Verify.{verification_purchase, listed, verification_price}
use obolos.Engine.Verify.{step_report, step_verification, verify_report, judge}
use obolos.Engine.Step.{step_mandate, step_discovery, choose_first, by_stage, attempt, settle}
use obolos.Engine.Step.{advance_run, is_stopped}
use obolos.Engine.Moves.{state_of, await-keeps}

module _ {ℓ} (env : Env) (gateway : Gateway) (Q : Mandate → List AuditEvent → Type ℓ)
    (more : (m : Mandate) (events : List AuditEvent) (actor : Actor) (kind : EventKind)
        (title : String) (detail : Template)
      → Q m events
      → Q m (
          append_audit env.event_hash env.now
            (env.uuid (length events))
            events
            actor
            kind
            title
            detail)) where
  abbrev P : Run → Type ℓ
  P run = Q run.mandate run.events

  choose_first-keeps :
      (run : Run) (ps : List Provider) → P run → P (state_of (choose_first env run ps))
  unfolding choose_first
  choose_first-keeps run [] h = h
  choose_first-keeps run (p ∷ ps) h = more run.mandate run.events _ _ _ _ h

  ask_owner-keeps : (run : Run) (ps : List Provider) → P run → P (state_of (ask_owner env run ps))
  unfolding ask_owner
  ask_owner-keeps run [] h = h
  ask_owner-keeps run (p ∷ ps) h = more run.mandate run.events _ _ _ _ h

  authorize_purchase-keeps : (run : Run) (p : Provider) → P run → P (authorize_purchase env run p)
  unfolding authorize_purchase
  authorize_purchase-keeps run p h = elim (Bool-cases (is_other run.selected_provider p.id)) [
    | inl other ↦ rw other (more _ _ _ _ _ _ (more _ _ _ _ _ _ h))
    | inr same ↦ rw same (more _ _ _ _ _ _ h)
  ]

  accept_evidence-keeps :
      (run : Run) (amount : ℕ) (result : List RepoEvidence × Receipt)
      → P run
      → P (state_of (accept_evidence env run amount result))
  unfolding accept_evidence
  accept_evidence-keeps run amount (evidence, r) h = elim (Bool-cases (covers evidence run.repos)) [
    | inl full ↦ rw full (more _ _ _ _ _ _ h)
    | inr short ↦ rw short h
  ]

  buy_from-keeps :
      (run : Run) (o : Option Provider) → P run → P (state_of (buy_from env gateway run o))
  unfolding buy_from buy accept_purchase
  buy_from-keeps run none h = ask_owner-keeps run _ h
  buy_from-keeps run (some p) h =
      let paying = authorize_purchase env run p in
      let amount = p.unit_price_atomic * length run.repos in
      let h' = authorize_purchase-keeps run p h in
      await-keeps P paying (gateway.purchase_data (data_purchase run p))
        (accept_purchase env paying amount) h'
        λ result e.
          await-keeps P paying
            (validate_receipt paying result.1 (data_request_id paying) hedera_testnet amount)
            (λ _. accept_evidence env paying amount result) h'
            λ u valid. accept_evidence-keeps paying amount result h'

  judge-keeps :
      (run : Run) (report : Report) (checks : List Check)
      → P run
      → P (state_of (judge env run report checks))
  unfolding judge
  judge-keeps run report checks h =
      elim (Bool-cases (all (λ (c : Check). c.passed) (check_report report ++ checks))) [
        | inl passed ↦ rw passed (more _ _ _ _ _ _ h)
        | inr broken ↦ rw broken h
      ]

  record_verification-keeps :
      (run : Run) (report : Report) (amount : ℕ) (result : Receipt × Option (List Check))
      → P run
      → P (state_of (record_verification env run report amount result))
  unfolding record_verification
  record_verification-keeps run report amount (receipt, checks) h =
      let paid = record run {
        receipts = run.receipts ++ receipt ∷ [];
        verification_spent_atomic = run.verification_spent_atomic + amount;
      } in
      elim (Bool-cases (run.mode == live && is_empty (listed checks))) [
        | inl absent ↦ rw absent h
        | inr given ↦ rw given (judge-keeps paid report (listed checks) h)
      ]

  verify_report-keeps :
      (run : Run) (o : Option Report) → P run → P (state_of (verify_report env gateway run o))
  unfolding verify_report accept_verification
  verify_report-keeps run none h = h
  verify_report-keeps run (some report) h =
      let amount = verification_price run in
      await-keeps P run (gateway.verify (verification_purchase run report))
        (accept_verification env run report amount) h
        λ result e.
          await-keeps P run
            (validate_receipt run result.0 (verify_request_id run) arc_testnet amount)
            (λ _. record_verification env run report amount result) h
            λ u valid. record_verification-keeps run report amount result h

  step_verification-keeps : (run : Run) → P run → P (state_of (step_verification env gateway run))
  unfolding step_verification
  step_verification-keeps run h =
      elim (Bool-cases (
        ltb run.mandate.verification_budget_atomic
          (run.verification_spent_atomic + verification_price run))) [
            | inl beyond ↦ rw beyond h
            | inr within ↦ rw within (verify_report-keeps run run.report h)
          ]

  by_stage-keeps :
      (stage : Stage) (run : Run) → P run → P (state_of (by_stage stage env gateway run))
  unfolding by_stage step_mandate step_discovery step_purchase buy_or_ask step_report draft_report
  by_stage-keeps Stage.mandate run h = more _ _ _ _ _ _ h
  by_stage-keeps Stage.discovery run h =
      await-keeps P run gateway.discover _ h λ providers e. choose_first-keeps _ _ h
  by_stage-keeps Stage.purchase run h =
      await-keeps P run gateway.discover (buy_or_ask env gateway run) h
        λ providers e. buy_from-keeps (record run { providers = providers }) _ h
  by_stage-keeps Stage.report run h =
      await-keeps P run (gateway.generate_report run.evidence run.id) (draft_report env run) h
        λ summary e. more run.mandate run.events _ _ _ _ h
  by_stage-keeps Stage.verification run h = step_verification-keeps run h
  by_stage-keeps Stage.complete run h = h

  settle-keeps : (a : Attempt) → P (state_of a) → P (settle env a)
  settle-keeps (stepped run) h = h
  settle-keeps (threw run e) h = more _ _ _ _ _ _ h

  attempt-keeps : (run : Run) → P run → P (state_of (attempt env gateway run))
  unfolding attempt
  attempt-keeps run h = elim (Bool-cases (has_passed run.mandate.expires_at env.now)) [
    | inl late ↦ rw late h
    | inr early ↦ rw early (by_stage-keeps run.stage run h)
  ]

  pub advance_run-keeps :
      (run after : Run) → advance_run env gateway run ≡ ok after → P run → P after
  unfolding advance_run
  advance_run-keeps run after e h =
      let (u, _, e') = >>=-ok (require_live_run run) _ e in
      elim (Bool-cases (is_stopped run.status)) [
        | inl stopped ↦ subst P (ok_injective _ _ (rw stopped at e')) h
        | inr live_on ↦ subst P (ok_injective _ _ (rw live_on at e')) (
            settle-keeps (attempt env gateway (record run { status = running }))
              (attempt-keeps (record run { status = running }) h))
      ]
