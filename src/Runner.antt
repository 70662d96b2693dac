-- ===== src/Runner.antt =====
-- src/lib/runner/types.ts and the signed mandate of src/lib/platform/execution-contracts.ts: the
-- data that the parts of the private runner share; the parts are the children.
pub mod Message
pub mod Mandate
pub mod Scope
pub mod Signed
pub mod Progress
pub mod Execution
pub mod Ends
pub mod Journal
pub mod Once
pub mod Guard
pub mod Terms
pub mod Capability
pub mod Recovery
pub mod Lock
pub mod Tests
use obolos.Prelude.{ℕ, String, List, Option}
use obolos.Contracts.{VerificationService, ParsedDate}

-- `MandateFields & {message; signature}`; the expiry by its text and what Date.parse makes of it, and the
-- message by its code points.
pub record SignedMandate : Type 0 where
  pub id : String
  pub agent_id : String
  pub owner : String
  pub origin : String
  pub repos : List String
  pub allowed_providers : List String
  pub data_budget_atomic : ℕ
  pub verification_budget_atomic : ℕ
  pub max_data_unit_price_atomic : ℕ
  pub max_runs : ℕ
  pub expires_text : String
  pub expires_at : ParsedDate
  pub verification_service : Option VerificationService
  pub message : List ℕ
  pub signature : String

pub record RunnerJob : Type 0 where
  pub id : String
  pub agent_id : String
  pub repos : List String
  pub mandate : SignedMandate

pub record RunnerPins : Type 0 where
  pub origin : String
  pub agent_id : String
  pub owner : String
