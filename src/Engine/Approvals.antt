-- ===== src/Engine/Approvals.antt =====
-- What `approveRun` demands of the human controller, and what it changes.
use obolos.Prelude.{◌+◌, String, ◌≡◌, refl, true, false, not, Option, none, some}
use obolos.Prelude.{ok, >>=-ok, throw_if-ok, ok_injective, throw_if, arith, sym}
use obolos.Prelude.{subst, [], ◌∷◌, ◌++◌, is_hex_text, ◌==◌, nat_eq, if◌then◌else◌}
use obolos.Contracts.{Run, ApprovalRequest, AuthorizationProof, awaiting_approval, running, live}
use obolos.Contracts.{has_passed}
use obolos.Contracts.{status_eq, mode_eq}
use obolos.Engine.{Env, require_live_run}
use obolos.Engine.Control.{approve_run, approve_pending, accept_approval, check_controller}
use obolos.Engine.Control.{check_signature, credentials, signer_matches, signer_setting}

-- The controller configured for this server signed the message of the request.
pub record IsSigned (env : Env) (a : ApprovalRequest) (signature : Option String) : Type 0 where
  pub address : String
  pub text : String
  pub configured : env.ledger_controller_address ≡ some address
  pub given : signature ≡ some text
  pub address_form : is_hex_text 40 address ≡ true
  pub text_form : is_hex_text 130 text ≡ true
  pub valid : env.verify_message address a.message text ≡ true
  pub same_signer : signer_matches (signer_setting env.ledger_signer_mode) a.signer_mode ≡ true

check_signature-IsSigned :
    (env : Env) (a : ApprovalRequest) (address signature : Option String) {u : Unit {0}}
    → check_signature env a (credentials address signature) ≡ ok u
    → (x : String) × (s : String) × (address ≡ some x)
      × (signature ≡ some s)
      × (is_hex_text 40 x ≡ true)
      × (is_hex_text 130 s ≡ true)
      × (env.verify_message x a.message s ≡ true)
check_signature-IsSigned env a none signature e = cc
check_signature-IsSigned env a (some x) none e = cc
check_signature-IsSigned env a (some x) (some s) e =
    (x, s, refl, refl, ground arith, ground arith, ground arith)

check_controller-IsSigned :
    (env : Env) (a : ApprovalRequest) (signature : Option String) {u : Unit {0}}
    → check_controller env a signature ≡ ok u
    → IsSigned env a signature
unfolding check_controller
check_controller-IsSigned env a signature e =
    let (u, mode, e') =
      >>=-ok
        (throw_if (not (signer_matches (signer_setting env.ledger_signer_mode) a.signer_mode))
          "Controller signer mode changed; request a new approval.")
        _ e in
    let (x, s, hx, hs, fx, fs, v) =
      check_signature-IsSigned env a env.ledger_controller_address signature e' in
    record {
      address = x;
      text = s;
      configured = hx;
      given = hs;
      address_form = fx;
      text_form = fs;
      valid = v;
      same_signer = ground (arith, throw_if-ok _ _ mode);
    }

-- What an accepted request changes: its mandate is in force, it is gone, and the proof of it is kept.
record IsInForce (run : Run) (a : ApprovalRequest) (signature : Option String) (after : Run)
    : Type 0 where
  mandate : after.mandate ≡ a.proposed_mandate
  no_request : after.approval ≡ none
  goes_on : after.status ≡ running
  proof : AuthorizationProof
  recorded : after.authorizations ≡ run.authorizations ++ proof ∷ []
  proof_nonce : proof.nonce ≡ a.nonce
  proof_message : proof.message ≡ a.message
  proof_before : proof.previous_mandate ≡ run.mandate
  proof_after : proof.approved_mandate ≡ a.proposed_mandate
  proof_signature : proof.signature ≡ signature

accept_approval-IsInForce :
    (env : Env) (run : Run) (a : ApprovalRequest) (signature : Option String)
    → run.mode ≡ live
    → IsInForce run a signature (accept_approval env run a signature)
unfolding accept_approval
accept_approval-IsInForce env run a signature m = record {
  mandate = refl;
  no_request = refl;
  goes_on = refl;
  proof = _;
  recorded = refl;
  proof_nonce = refl;
  proof_message = refl;
  proof_before = refl;
  proof_after = refl;
  proof_signature = rw m refl;
}

-- An accepted approval: the pending request was current and signed, and it becomes the mandate.
pub record IsApproved (env : Env) (run after : Run) (signature : Option String) : Type 0 where
  pub request : ApprovalRequest
  pub pending : run.approval ≡ some request
  pub waiting : run.status ≡ awaiting_approval
  pub in_time : has_passed request.expires_at env.now ≡ false
  pub next_version : request.proposed_mandate.version ≡ run.mandate.version + 1
  pub signed : IsSigned env request signature
  pub mandate : after.mandate ≡ request.proposed_mandate
  pub no_request : after.approval ≡ none
  pub goes_on : after.status ≡ running
  pub proof : AuthorizationProof
  pub recorded : after.authorizations ≡ run.authorizations ++ proof ∷ []
  pub proof_nonce : proof.nonce ≡ request.nonce
  pub proof_message : proof.message ≡ request.message
  pub proof_before : proof.previous_mandate ≡ run.mandate
  pub proof_after : proof.approved_mandate ≡ request.proposed_mandate
  pub proof_signature : proof.signature ≡ signature
  pub result : after ≡ accept_approval env run request signature

approve_pending-IsApproved :
    (env : Env) (run after : Run) (o : Option ApprovalRequest) (signature : Option String)
    → run.mode ≡ live
    → run.approval ≡ o
    → approve_pending env run o signature ≡ ok after
    → IsApproved env run after signature
unfolding approve_pending
approve_pending-IsApproved env run after none signature m p e = absurd (cc)
approve_pending-IsApproved env run after (some a) signature m p e =
    let (u1, waiting, e1) = >>=-ok (throw_if (not (run.status == awaiting_approval)) _) _ e in
    let (u2, in_time, e2) = >>=-ok (throw_if (has_passed a.expires_at env.now) _) _ e1 in
    let (u3, version, e3) =
      >>=-ok (throw_if (not (a.proposed_mandate.version == run.mandate.version + 1)) _) _ e2 in
    let (u4, signed, e4) =
      >>=-ok (if run.mode == live then check_controller env a signature else ok tt) _ e3 in
    let result : after ≡ accept_approval env run a signature = sym (ok_injective _ _ e4) in
    let accepted : IsInForce run a signature after =
      subst (IsInForce run a signature) (sym result)
        (accept_approval-IsInForce env run a signature m) in
    record {
      request = a;
      pending = p;
      waiting = ground (arith, throw_if-ok _ _ waiting);
      in_time = throw_if-ok _ _ in_time;
      next_version = ground (arith, throw_if-ok _ _ version);
      signed = check_controller-IsSigned env a signature (rw m at signed);
      mandate = accepted.mandate;
      no_request = accepted.no_request;
      goes_on = accepted.goes_on;
      proof = accepted.proof;
      recorded = accepted.recorded;
      proof_nonce = accepted.proof_nonce;
      proof_message = accepted.proof_message;
      proof_before = accepted.proof_before;
      proof_after = accepted.proof_after;
      proof_signature = accepted.proof_signature;
      result = result;
    }

-- `approveRun` returns a run only if the pending request waits, has not expired, is for the next
-- version and carries the configured controller's signature; its mandate is then the proposed one,
-- the request is gone, the run goes on, and one proof is added to the authorizations, with the
-- nonce, the message and the signature of the request and the mandates before and after.
pub approve_run-IsApproved :
    (env : Env) (run after : Run) (signature : Option String)
    → run.mode ≡ live
    → approve_run env run signature ≡ ok after
    → IsApproved env run after signature
unfolding approve_run
approve_run-IsApproved env run after signature m e =
    let (u, _, e') = >>=-ok (require_live_run run) _ e in
    approve_pending-IsApproved env run after run.approval signature m refl e'
