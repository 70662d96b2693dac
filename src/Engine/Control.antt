-- ===== src/Engine/Control.antt =====
-- `applyShock`, `approveRun` and `pauseRun` of src/lib/engine.ts. `none` as live quotes or as a
-- signature stands for a missing argument.
use obolos.Prelude.{◌+◌, String, Bool, true, false, ◌||◌, ◌&&◌, not, List, [], ◌∷◌, ◌++◌, Option}
use obolos.Prelude.{none, some, ◌==◌, nat_eq, string_eq, if◌then◌else◌, is_empty, lit, num, scaled}
use obolos.Prelude.{Template, Result, ok, err, ◌>>◌, throw_if, is_hex_text}
use obolos.Contracts.{Run, RunStatus, Stage, Provider, ApprovalRequest, SignerMode, usb, speculos}
use obolos.Contracts.{awaiting_approval, paused, running, completed, failed, has_passed}
use obolos.Contracts.{status_eq, mode_eq, live, supervisor, warning, success, AuthorizationProof}
use obolos.Engine.{Env, log, require_live_run}

abbrev pub before_purchase : Stage → Bool
before_purchase Stage.mandate = true
before_purchase Stage.discovery = true
before_purchase Stage.purchase = true
before_purchase _ = false

abbrev pub is_closed : RunStatus → Bool
is_closed completed = true
is_closed failed = true
is_closed awaiting_approval = true
is_closed _ = false

abbrev price_list : List Provider → Template
price_list [] = []
price_list (p ∷ []) = scaled p.unit_price_atomic 8 ∷ lit " HBAR/repository" ∷ []
price_list (p ∷ q ∷ ps) =
    scaled p.unit_price_atomic 8 ∷ lit " HBAR/repository" ∷ lit " and " ∷ price_list (q ∷ ps)

abbrev pub or_empty : Option (List Provider) → List Provider
or_empty none = []
or_empty (some ps) = ps

unfoldable pub apply_shock : Env → Run → Option (List Provider) → Result String Run
apply_shock env run live_quotes = do
  require_live_run run
  throw_if (not (before_purchase run.stage) || is_closed run.status)
      "Apply the price change before the data purchase."
  throw_if (run.mode == live && is_empty (or_empty live_quotes))
      "Live price changes require refreshed provider quotes."
  ok (
      let shocked = record run { providers = or_empty live_quotes; shock_applied = true } in
      log env shocked supervisor warning "Provider price increased" (
        lit "Quotes increased to "
        ∷ (price_list shocked.providers
            ++ lit ". The planner must evaluate the new prices before paying." ∷ [])))

-- The configured mode of the signer, `none` for one that is neither of the two.
abbrev pub signer_setting : Option String → Option SignerMode
signer_setting none = some usb
signer_setting (some s) =
    if s == "" || s == "usb" then some usb else if s == "speculos" then some speculos else none

abbrev or_usb : Option SignerMode → SignerMode
or_usb none = usb
or_usb (some m) = m

abbrev same_signer : SignerMode → SignerMode → Bool
same_signer usb usb = true
same_signer speculos speculos = true
same_signer _ _ = false

abbrev pub signer_matches : Option SignerMode → Option SignerMode → Bool
signer_matches none asked = false
signer_matches (some configured) asked = same_signer configured (or_usb asked)

-- A controller address and a signature, both well formed.
abbrev pub credentials : Option String → Option String → Option (String × String)
credentials (some address) (some signature) =
    if is_hex_text 40 address && is_hex_text 130 signature then some (address, signature) else none
credentials _ _ = none

abbrev pub check_signature :
    Env → ApprovalRequest → Option (String × String) → Result String (Unit {0})
check_signature env a none = err "A valid Ledger controller signature is required."
check_signature env a (some (address, signature)) =
    throw_if (not (env.verify_message address a.message signature))
      "Signature does not match the configured Ledger controller."

-- The part of `approveRun` for live runs.
unfoldable pub check_controller : Env → ApprovalRequest → Option String → Result String (Unit {0})
check_controller env a signature = do
  throw_if (not (signer_matches (signer_setting env.ledger_signer_mode) a.signer_mode))
      "Controller signer mode changed; request a new approval."
  check_signature env a (credentials env.ledger_controller_address signature)

-- What follows the checks.
unfoldable pub accept_approval : Env → Run → ApprovalRequest → Option String → Run
accept_approval env run a signature =
    let is_live = run.mode == live in
    let proof : AuthorizationProof = record {
      mode = run.mode;
      nonce = a.nonce;
      message = a.message;
      verified_at = env.now;
      previous_mandate = run.mandate;
      approved_mandate = a.proposed_mandate;
      signer = if is_live then env.ledger_controller_address else none;
      signature = if is_live then signature else none;
      signer_mode = if is_live then some (or_usb a.signer_mode) else none;
    } in
    let approved = record run {
      authorizations = run.authorizations ++ proof ∷ [];
      mandate = a.proposed_mandate;
      approval = none;
      status = running;
    } in
    log env approved supervisor success "Controller signature verified" (
      lit "Mandate version "
      ∷ num a.proposed_mandate.version
      ∷ lit "; nonce "
      ∷ lit a.nonce
      ∷ lit " consumed. "
      ∷ lit (provenance (or_usb a.signer_mode))
      ∷ [])
  where
    provenance : SignerMode → String
    provenance speculos = "Speculos emulator signature verified; not physical hardware evidence."
    provenance usb =
        "Hardware provenance depends on provisioning the pinned address from the Ledger device."

unfoldable pub approve_pending :
    Env → Run → Option ApprovalRequest → Option String → Result String Run
unfolding check_controller accept_approval
approve_pending env run none signature = err "There is no pending approval."
approve_pending env run (some a) signature = do
  throw_if (not (run.status == awaiting_approval)) "There is no pending approval."
  throw_if (has_passed a.expires_at env.now)
      "Approval expired. Reject this request and start a new job."
  throw_if (not (a.proposed_mandate.version == run.mandate.version + 1))
      "The approval does not match the current mandate."
  (if run.mode == live then check_controller env a signature else ok tt)
  ok (accept_approval env run a signature)

unfoldable pub approve_run : Env → Run → Option String → Result String Run
unfolding approve_pending
approve_run env run signature = do
  require_live_run run
  approve_pending env run run.approval signature

abbrev toggled : RunStatus → RunStatus
toggled paused = running
toggled _ = paused

abbrev is_paused : RunStatus → Bool
is_paused paused = true
is_paused _ = false

unfoldable pub pause_run : Env → Run → Result String Run
pause_run env run = do
  require_live_run run
  throw_if (is_closed run.status) "This run cannot be paused or resumed in its current state."
  ok (
      log env (record run { status = toggled run.status }) supervisor warning
        (if is_paused run.status then "Run resumed" else "Run paused")
        (lit
            "The next payment step follows the updated run state. Settled transfers are not reversed."
          ∷ []))
