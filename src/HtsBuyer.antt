-- ===== src/HtsBuyer.antt =====
-- scripts/hedera-token-buyer.ts: the data of a purchase of repository evidence for test credits.
-- What other processes and libraries answer during one call, the ends of its writes and the clock
-- are the record `World`.
pub mod Terms
pub mod Receive
pub mod Action
pub mod Market
pub mod Buy
pub mod Once
pub mod Refines
pub mod Proven
pub mod Settled
mod Tests
use obolos.Prelude.{ℕ, String, Bool, List, Option, Result}
use obolos.Contracts.{RepoEvidence}
use obolos.Negotiation.{DateText}

-- src/lib/hedera/commerce.ts
pub record TokenTerms : Type 0 where
  pub asset : String
  pub payer : String
  pub pay_to : String
  pub amount_atomic : ℕ

pub record HtsRepositoryPurchase : Type 0 where
  pub request_id : String
  pub resource_base_url : String
  pub provider_id : String
  pub repos : List String
  pub terms : TokenTerms
  pub unit_price_atomic : ℕ
  pub max_amount_atomic : ℕ
  pub mandate_expires_at : DateText
  pub symbol : String
  pub decimals : ℕ

pub record SettleResponse : Type 0 where
  pub success : Bool
  pub network : String
  pub payer : String
  pub transaction : String

pub record Received : Type 0 where
  pub settlement : SettleResponse
  pub evidence : List RepoEvidence

pub record HtsPurchaseResult : Type 0 where
  pub request_id : String
  pub transaction_id : String
  pub network : String
  pub asset : String
  pub payer : String
  pub pay_to : String
  pub amount_atomic : ℕ
  pub units : ℕ
  pub evidence : List RepoEvidence
  pub settlement : SettleResponse

pub data IntentStatus : Type 0 where
  an_intent is_signed is_received is_settled : IntentStatus

pub record Intent : Type 0 where
  pub fingerprint : String
  pub status : IntentStatus
  pub input : HtsRepositoryPurchase
  pub transaction_id : Option String
  pub received : Option Received
  pub result : Option HtsPurchaseResult

-- The intent's file.
pub data IntentFile : Type 0 where
  missing unreadable : IntentFile
  contents : Intent → IntentFile

-- How a durable write ends: done; failed before the file changed; failed with a part of the text in
-- a new file; failed after the file changed.
pub data WriteEnd : Type 0 where
  written lost torn half_done : WriteEnd

-- The amount of a transfer.
pub data Signed : Type 0 where
  gain loss : ℕ → Signed

pub record TokenTransfer : Type 0 where
  pub account : String
  pub token_id : String
  pub amount : Signed

pub record MirrorTransaction : Type 0 where
  pub result : String
  pub name : String
  pub token_transfers : List TokenTransfer

pub record TokenQuote : Type 0 where
  pub provider_id : String
  pub units : ℕ
  pub unit_price_atomic : ℕ
  pub amount_atomic : ℕ
  pub pay_to : String
  pub network : String
  pub asset : String
  pub decimals : ℕ
  pub symbol : String
  pub expires_at : DateText

-- The metadata of a token; `custom_fees` is the numbers of its fixed, fractional and royalty fees
-- where it is an object with lists.
pub record TokenMetadata : Type 0 where
  pub token_id : String
  pub kind : String
  pub supply_type : String
  pub decimals : Option ℕ
  pub symbol : String
  pub custom_fees : Option (List ℕ)

pub record PaymentRequirements : Type 0 where
  pub scheme : String
  pub network : String
  pub asset : String
  pub pay_to : String
  pub amount : String
  pub fee_payer : Option String
  pub max_timeout_seconds : ℕ
  pub payment_flow : Option String

pub record Challenge : Type 0 where
  pub x402_version : ℕ
  pub resource_url : Option String
  pub accepts : List PaymentRequirements

pub record SupportedKind : Type 0 where
  pub x402_version : ℕ
  pub scheme : String
  pub network : String
  pub fee_payer : Option String

-- The persisted receipt of a resource.
pub record StoredReceipt : Type 0 where
  pub state : String
  pub transaction_id : String
  pub provider_id : String
  pub repos : List String
  pub amount_atomic : ℕ
  pub asset : String
  pub received : Received

pub record World : Type 0 where
  pub lock : Result String (Unit {0})
  -- The clock at the beginning, after the quote, before the challenge, after the reservation and
  -- before the dispatch.
  pub begun_at : ℕ
  pub quoted_at : ℕ
  pub asked_at : ℕ
  pub reserved_at : ℕ
  pub signed_at : ℕ
  pub quote : Result String TokenQuote
  pub metadata : Result String TokenMetadata
  -- The status of the unpaid request, and the header of at most 24000 characters, decoded.
  pub unpaid : Result String (ℕ × Option Challenge)
  pub supported : Result String (List SupportedKind)
  -- Reading the private key, and the identity of the transaction that the signer made.
  pub key : Result String (Unit {0})
  pub signer : Result String (Option String)
  -- The answer to the paid request, when it is a success with a header and a body.
  pub paid : Result String (Option Received)
  pub mirror : Result String (List MirrorTransaction)
  pub stored : Result String StoredReceipt
  pub reserve_end : WriteEnd
  pub sign_end : WriteEnd
  pub receive_end : WriteEnd
  pub settle_end : WriteEnd
