-- ===== src/Engine.antt =====
-- src/lib/engine.ts: what its operations share, the surroundings of a call and the log.
-- The operations are in Create, Step (with Choose, Pay and Verify) and Control.
pub mod Create
pub mod Choose
pub mod Pay
pub mod Verify
pub mod Step
pub mod Control
pub mod Moves
pub mod Sound
pub mod Frame
pub mod PurchaseSound
pub mod VerifySound
pub mod Approvals
pub mod Trail
pub mod Reached
pub mod Authority
pub mod Cheapest
pub mod Samples
pub mod Tests
use obolos.Prelude.{ℕ, String, Bool, Option, none, some, Template, length, true, ◌==◌}
use obolos.Prelude.{string_eq, Result, ok, err, throw_if, not}
use obolos.Contracts.{
  Run, AuditBody, Actor, EventKind, ApprovalMessage, VerificationService, Thrown,
}
use obolos.Contracts.{mode_eq, live}
use obolos.Policy.{append_audit}

-- What a call reads from outside: the clock (once for each call), random identifiers (an entry of
-- the log takes the one at its position), SHA-256, the settings of the signer, viem's check of a
-- signature, and zod's check of a verification service.
pub record Env : Type 0 where
  pub now : ℕ
  pub uuid : ℕ → String
  pub nonce : String
  pub event_hash : AuditBody → String
  pub ledger_signer_mode : Option String
  pub ledger_controller_address : Option String
  pub verify_message : String → ApprovalMessage → String → Bool
  pub is_verification_service : VerificationService → Bool

abbrev pub log : Env → Run → Actor → EventKind → String → Template → Run
log env run actor kind title detail = record run {
  events =
      append_audit env.event_hash env.now (env.uuid (length run.events)) run.events actor kind title
        detail;
  updated_at = env.now;
}

-- `requireLiveRun`, the guard of every operation.
abbrev pub require_live_run : Run → Result String (Unit {0})
require_live_run run =
    throw_if (not (run.mode == live))
      "Historical rehearsal records are read-only. Create a live workspace job."

-- `!value` of an optional text: absent or empty.
abbrev pub is_absent : Option String → Bool
is_absent none = true
is_absent (some s) = s == ""
