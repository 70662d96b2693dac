-- ===== src/Contracts.antt =====
-- src/lib/contracts.ts, src/lib/market/contracts.ts and the interface of src/lib/gateway.ts: the
-- data that the run engine, its policy and its gateway exchange.
-- An amount, a count and a version are natural numbers, as the schemas at the gateway demand.
-- A date text is kept as what `Date.parse` makes of it, `none` for NaN; an instant that the
-- program itself wrote is its number of milliseconds.
use obolos.Prelude.{ℕ, String, Bool, List, Option, none, some, Eq, leb, nat_beq, Template, false}
use obolos.Prelude.{Result, ◌≡◌, ◌↔◌, true, arith}

abbrev pub ParsedDate : Type 0
ParsedDate = Option ℕ

-- `Date.parse(date)<=now`, which NaN fails.
abbrev pub has_passed : ParsedDate → ℕ → Bool
has_passed none now = false
has_passed (some t) now = leb t now

pub data Mode : Type 0 where
  rehearsal live : Mode

pub data RunStatus : Type 0 where
  ready running awaiting_approval paused completed failed : RunStatus

pub data Stage : Type 0 where
  mandate discovery purchase report verification complete : Stage

pub data Network : Type 0 where
  hedera_testnet arc_testnet other_network : Network

pub data Asset : Type 0 where
  hbar usdc : Asset

pub data ReceiptStatus : Type 0 where
  simulated settled : ReceiptStatus

pub data Actor : Type 0 where
  supervisor planner broker worker verifier : Actor

pub data EventKind : Type 0 where
  info success warning blocked : EventKind

pub data SignerMode : Type 0 where
  usb speculos : SignerMode

pub Actor-discrete : Discrete Actor
Actor-discrete = hlevel

pub EventKind-discrete : Discrete EventKind
EventKind-discrete = hlevel

pub record VerificationService : Type 0 where
  pub id : String
  pub revision : ℕ
  pub name : String
  pub recipient : String
  pub price_atomic : ℕ
  pub endpoint : String
  pub provider_endpoint : Option String

pub record Mandate : Type 0 where
  pub data_budget_atomic : ℕ
  pub max_data_unit_price_atomic : ℕ
  pub verification_budget_atomic : ℕ
  pub allowed_providers : List String
  pub expires_at : ParsedDate
  pub version : ℕ
  pub verification_service : Option VerificationService

pub record Provider : Type 0 where
  pub id : String
  pub name : String
  pub description : String
  pub network : Network
  pub asset : Asset
  pub unit : String
  pub unit_price_atomic : ℕ
  pub endpoint : Option String

pub record RepoEvidence : Type 0 where
  pub repo : String
  pub description : String
  pub stars : ℕ
  pub forks : ℕ
  pub open_issues : ℕ
  pub pushed_at : ParsedDate
  pub language : String
  pub license : String
  pub source_url : String
  pub fetched_at : ParsedDate

pub record Receipt : Type 0 where
  pub id : String
  pub request_id : String
  pub mode : Mode
  pub network : Network
  pub asset : Asset
  pub amount_atomic : ℕ
  pub units : ℕ
  pub provider : String
  pub status : ReceiptStatus
  pub timestamp : ParsedDate
  pub transaction_id : Option String
  pub explorer_url : Option String
  pub order_id : Option String
  pub recipient : Option String

pub record Check : Type 0 where
  pub label : String
  pub passed : Bool
  pub detail : Template

pub data GeneratedBy : Type 0 where
  template model : GeneratedBy

pub record Report : Type 0 where
  pub title : Template
  pub summary : String
  pub recommendation : String
  pub evidence : List RepoEvidence
  pub generated_by : GeneratedBy
  pub created_at : ℕ
  pub checks : List Check
  pub verified : Bool

-- `Omit<AuditEvent,'hash'>`
pub record AuditBody : Type 0 where
  pub id : String
  pub timestamp : ℕ
  pub actor : Actor
  pub kind : EventKind
  pub title : String
  pub detail : Template
  pub previous_hash : String

pub record AuditEvent : Type 0 where
  pub body : AuditBody
  pub hash : String

-- The text that the controller signs, by the values that it interpolates; `speculos_line` says
-- whether it holds the line on the emulated signer.
pub record ApprovalMessage : Type 0 where
  pub run : String
  pub mode : Mode
  pub speculos_line : Bool
  pub nonce : String
  pub expires_at : ℕ
  pub previous_version : ℕ
  pub new_mandate : Mandate

pub record ApprovalRequest : Type 0 where
  pub signer_mode : Option SignerMode
  pub nonce : String
  pub message : ApprovalMessage
  pub expires_at : ParsedDate
  pub proposed_mandate : Mandate
  pub reason : String

pub record AuthorizationProof : Type 0 where
  pub mode : Mode
  pub nonce : String
  pub message : ApprovalMessage
  pub verified_at : ℕ
  pub previous_mandate : Mandate
  pub approved_mandate : Mandate
  pub signer : Option String
  pub signature : Option String
  pub signer_mode : Option SignerMode

pub record Run : Type 0 where
  pub id : String
  pub mode : Mode
  pub title : Template
  pub repos : List String
  pub status : RunStatus
  pub stage : Stage
  pub created_at : ℕ
  pub updated_at : ℕ
  pub mandate : Mandate
  pub providers : List Provider
  pub selected_provider : Option String
  pub data_spent_atomic : ℕ
  pub verification_spent_atomic : ℕ
  pub evidence : List RepoEvidence
  pub receipts : List Receipt
  pub events : List AuditEvent
  pub report : Option Report
  pub approval : Option ApprovalRequest
  pub shock_applied : Bool
  pub error : Option String
  pub authorizations : List AuthorizationProof

pub record DataPurchase : Type 0 where
  pub run_id : String
  pub request_id : String
  pub repos : List String
  pub provider_id : String
  pub max_amount_atomic : ℕ
  pub unit_price_atomic : ℕ
  pub mandate_expires_at : ParsedDate

pub record VerificationPurchase : Type 0 where
  pub run_id : String
  pub request_id : String
  pub max_amount_atomic : ℕ
  pub report : Report
  pub mandate_expires_at : ParsedDate

-- What a call threw: the message of an `Error`, or `none` for another value.
abbrev pub Thrown : Type 0
Thrown = Option String

-- The promises of the broker and of the providers, by how they settle.
pub record Gateway : Type 0 where
  pub discover : Result Thrown (List Provider)
  pub purchase_data : DataPurchase → Result Thrown (List RepoEvidence × Receipt)
  pub generate_report : List RepoEvidence → String → Result Thrown String
  pub verify : VerificationPurchase → Result Thrown (Receipt × Option (List Check))

-- `===` on the enumerations, by the position of each value.
abbrev mode_rank : Mode → ℕ
mode_rank rehearsal = 0
mode_rank live = 1

abbrev status_rank : RunStatus → ℕ
status_rank ready = 0
status_rank running = 1
status_rank awaiting_approval = 2
status_rank paused = 3
status_rank completed = 4
status_rank failed = 5

abbrev network_rank : Network → ℕ
network_rank hedera_testnet = 0
network_rank arc_testnet = 1
network_rank other_network = 2

abbrev asset_rank : Asset → ℕ
asset_rank hbar = 0
asset_rank usdc = 1

pub mode_rank_iff : (a b : Mode) → (nat_beq (mode_rank a) (mode_rank b) ≡ true) ↔ (a ≡ b)
mode_rank_iff a b = ground arith

pub status_rank_iff : (a b : RunStatus) → (nat_beq (status_rank a) (status_rank b) ≡ true) ↔ (a ≡ b)
status_rank_iff a b = ground arith

pub network_rank_iff :
    (a b : Network) → (nat_beq (network_rank a) (network_rank b) ≡ true) ↔ (a ≡ b)
network_rank_iff a b = ground arith

pub asset_rank_iff : (a b : Asset) → (nat_beq (asset_rank a) (asset_rank b) ≡ true) ↔ (a ≡ b)
asset_rank_iff a b = ground arith

instance abbrev pub mode_eq : Eq Mode
mode_eq = record { same = λ a b. nat_beq (mode_rank a) (mode_rank b); same_iff = mode_rank_iff }

instance abbrev pub status_eq : Eq RunStatus
status_eq = record {
  same = λ a b. nat_beq (status_rank a) (status_rank b);
  same_iff = status_rank_iff;
}

instance abbrev pub network_eq : Eq Network
network_eq = record {
  same = λ a b. nat_beq (network_rank a) (network_rank b);
  same_iff = network_rank_iff;
}

instance abbrev pub asset_eq : Eq Asset
asset_eq = record { same = λ a b. nat_beq (asset_rank a) (asset_rank b); same_iff = asset_rank_iff }
