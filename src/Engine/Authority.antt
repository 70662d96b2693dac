-- ===== src/Engine/Authority.antt =====
-- Who may change a run's mandate, and what the audit log shows of a run.
use obolos.Prelude.{◌≡◌, refl, Option, [], arith, String, sym}
use obolos.Prelude.{ok, inl, inr, true, ◌⊎◌, length}
use obolos.Prelude.{subst}
use obolos.Contracts.{Run, live}
use obolos.Contracts.{mode_eq}
use obolos.Contracts.{has_passed}
use obolos.Prelude.{>>=-ok, ok_injective}
use obolos.Engine.Approvals.{approve_run-IsApproved, IsApproved}
use obolos.Engine.Trail.{advance_run-keeps}
use obolos.Contracts.{AuditBody}
use obolos.Engine.{Env, require_live_run}
use obolos.Engine.Create.{RunInput, create_run}
use obolos.Engine.Control.{apply_shock, accept_approval, pause_run}
use obolos.Engine.Control.{is_closed}
use obolos.Prelude.{throw_if, not, ◌||◌, ◌&&◌, is_empty, ◌==◌}
use obolos.Engine.Control.{before_purchase, or_empty}
use obolos.Engine.Create.{initial_mandate, is_run_input, is_too_far}
use obolos.Policy.{verify_audit}
use obolos.Policy.Audit.{append_audit-verify}
use obolos.Engine.Reached.{Reached-IsSound}
use obolos.Engine.Moves.{Move, advanced, shocked, approved, toggled, Reached, created, moved}

-- One call on a live run leaves its mandate as it was, or it is `approveRun` and the pending request
-- was current and signed by the configured controller; then the mandate is the one that the request
-- proposed, the request is gone, and the proof of it is recorded.
pub Move-mandate :
    (env : Env) (run after : Run)
    → run.mode ≡ live
    → Move env run after
    → (after.mandate ≡ run.mandate)
      ⊎ ((signature : Option String) × IsApproved env run after signature)
unfolding apply_shock pause_run
Move-mandate env run after m (advanced gateway e) = inl (
    advance_run-keeps env gateway (λ mandate events. mandate ≡ run.mandate) (λ a b c d t x h. h) run
      after e refl)
Move-mandate env run after m (shocked quotes e) = inl (ground arith)
Move-mandate env run after m (approved signature e) =
    inr (signature, approve_run-IsApproved env run after signature m e)
Move-mandate env run after m (toggled e) = inl (ground arith)

-- The log of every reached run is a valid hash chain.
Move-verify_audit :
    (env : Env) (run after : Run)
    → run.mode ≡ live
    → Move env run after
    → verify_audit env.event_hash run.events ≡ true
    → verify_audit env.event_hash after.events ≡ true
unfolding apply_shock pause_run accept_approval
Move-verify_audit env run after m (advanced gateway e) v =
    advance_run-keeps env gateway (λ mandate events. verify_audit env.event_hash events ≡ true)
      (λ a events actor kind title detail h.
        append_audit-verify env.event_hash env.now (env.uuid (length events)) events actor kind
          title detail h)
      run after e v
Move-verify_audit env run after m (shocked quotes e) v =
    let (u, _, e1) = >>=-ok (require_live_run run) _ e in
    let (u', _, e2) =
      >>=-ok (throw_if (not (before_purchase run.stage) || is_closed run.status) _) _ e1 in
    let (u'', _, e3) = >>=-ok (throw_if (run.mode == live && is_empty (or_empty quotes)) _) _ e2 in
    subst (λ (r : Run). verify_audit env.event_hash r.events ≡ true) (ok_injective _ _ e3)
      (append_audit-verify env.event_hash _ _ run.events _ _ _ _ v)
Move-verify_audit env run after m (approved signature e) v =
    let a = approve_run-IsApproved env run after signature m e in
    subst (λ (r : Run). verify_audit env.event_hash r.events ≡ true) (sym a.result)
      (append_audit-verify env.event_hash _ _ run.events _ _ _ _ v)
Move-verify_audit env run after m (toggled e) v =
    let (u, _, e1) = >>=-ok (require_live_run run) _ e in
    let (u', _, e2) = >>=-ok (throw_if (is_closed run.status) _) _ e1 in
    subst (λ (r : Run). verify_audit env.event_hash r.events ≡ true) (ok_injective _ _ e2)
      (append_audit-verify env.event_hash _ _ run.events _ _ _ _ v)

created-verify_audit :
    (env : Env) (id : String) (input : RunInput) (run : Run)
    → create_run env id input ≡ ok run
    → verify_audit env.event_hash run.events ≡ true
unfolding create_run
created-verify_audit env id input run e =
    let m = initial_mandate env.now input.mandate in
    let (u, _, e1) = >>=-ok (throw_if (not (is_run_input env input)) _) _ e in
    let (u', _, e2) =
      >>=-ok (throw_if (has_passed m.expires_at env.now || is_too_far m.expires_at env.now) _) _
        e1 in
    subst (λ (r : Run). verify_audit env.event_hash r.events ≡ true) (ok_injective _ _ e2)
      (append_audit-verify env.event_hash _ _ [] _ _ _ _ (unfold verify_audit in refl))

-- Whatever calls are made, with one hash function throughout, the audit log of the run verifies.
pub Reached-verify_audit :
    (event_hash : AuditBody → String) {run : Run}
    → Reached event_hash run
    → verify_audit event_hash run.events ≡ true
Reached-verify_audit event_hash (created {run} env id input same e) =
    subst (λ h. verify_audit h run.events ≡ true) same (created-verify_audit env id input run e)
Reached-verify_audit event_hash (moved {run} {after} env same r m) =
    subst (λ h. verify_audit h after.events ≡ true) same
      (Move-verify_audit env run after (Reached-IsSound event_hash r).live_mode m (
        subst (λ h. verify_audit h run.events ≡ true) (sym same)
          (Reached-verify_audit event_hash r)))
