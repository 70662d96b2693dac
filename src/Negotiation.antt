-- ===== src/Negotiation.antt =====
-- src/lib/hedera/a2a.ts: the data of the negotiation of an offer, with the quote of
-- src/lib/repository-service.ts. What the runtime computes outside the repository (JSON, SHA-256,
-- HMAC and the parser of URLs) is the record `Runtime`. A text in base64url and a token are lists
-- of code points.
pub mod Base64
pub mod Schema
pub mod Config
pub mod Token
pub mod Seller
pub mod Answer
pub mod Buying
pub mod Issued
pub mod Signed
pub mod Agreed
pub mod Terms
pub mod Bounds
pub mod Codes
pub mod Replies
pub mod Paid
pub mod Agreement
pub mod Deal
pub mod Stands
pub mod Samples
mod Tests
use obolos.Prelude.{ℕ, String, Bool, List, Option}
use obolos.Contracts.{ParsedDate}

-- Which schema of zod takes a date text: `datetime()`, `datetime({offset:true})` only, or none.
pub data DateForm : Type 0 where
  zulu with_offset unformatted : DateForm

-- A date text: as `toISOString` writes an instant, or another text with what `Date.parse` makes
-- of it.
pub data DateText : Type 0 where
  iso : ℕ → DateText
  written_date : DateForm → String → ParsedDate → DateText

pub record A2aConfig : Type 0 where
  pub public_url : String
  pub resource_base_url : String
  pub pay_to : String
  pub offer_secret : String
  pub uaid : Option String

-- `proposalSchema`, less its literal.
pub record Proposal : Type 0 where
  pub payer : String
  pub request_id : String
  pub provider_id : String
  pub repos : List String
  pub max_amount_atomic : ℕ
  pub mandate_expires_at : DateText

-- `acceptSchema`, less its literal.
pub record Acceptance : Type 0 where
  pub payer : String
  pub request_id : String
  pub offer_token : List ℕ

pub record OfferPayload : Type 0 where
  pub version : ℕ
  pub context_id : String
  pub request_id : String
  pub payer : String
  pub provider_id : String
  pub repos : List String
  pub resource_url : String
  pub unit_price_atomic : ℕ
  pub amount_atomic : ℕ
  pub max_amount_atomic : ℕ
  pub mandate_expires_at : DateText
  pub issued_at : DateText
  pub expires_at : DateText
  pub network : String
  pub asset : String
  pub pay_to : String

pub record A2aOffer : Type 0 where
  pub payload : OfferPayload
  pub offer_id : String
  pub payment_request_id : String
  pub offer_token : List ℕ

pub record Quote : Type 0 where
  pub provider_id : String
  pub unit_price_atomic : ℕ
  pub units : ℕ
  pub amount_atomic : ℕ
  pub network : String
  pub asset : String
  pub pay_to : String
  pub expires_at : DateText

-- The data of the one part of a message, by its action.
pub data AnswerData : Type 0 where
  accepted_offer : A2aOffer → AnswerData
  unpaid_offer : A2aOffer → AnswerData
  counteroffer : Quote → AnswerData

pub record Message : Type 0 where
  pub context_id : String
  pub message_id : String
  pub content : AnswerData
  pub extensions : List String

-- The components of a `URL`.
pub record Url : Type 0 where
  pub protocol : String
  pub username : String
  pub password : String
  pub host : String
  pub hostname : String
  pub pathname : String
  pub search : String
  pub hash : String

pub record Runtime : Type 0 where
  -- JSON.stringify of an offer as bytes, and JSON.parse with the types of `offerSchema`.
  pub json : OfferPayload → List ℕ
  pub parse_json : List ℕ → Option OfferPayload
  -- Buffer's reading of a text that is not base64url.
  pub read_other : List ℕ → List ℕ
  -- SHA-256 in hexadecimal over the JSON of an offer, of payer and request, and of an answer.
  pub sha_offer : OfferPayload → String
  pub sha_identity : String → String → String
  pub sha_answer : AnswerData → String
  -- HMAC with SHA-256 under a secret.
  pub hmac : String → List ℕ → List ℕ
  pub parse_url : String → Option Url

abbrev pub extension : String
extension = "https://obolos.dev/extensions/hedera-commerce/v1"

abbrev pub hedera_network : String
hedera_network = "hedera:testnet"

abbrev pub hbar_asset : String
hbar_asset = "0.0.0"
