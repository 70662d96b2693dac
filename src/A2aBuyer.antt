-- ===== src/A2aBuyer.antt =====
-- scripts/hedera-a2a-buyer.ts: the buyer that negotiates an offer and pays it. What the seller, the
-- secrets, the disk and the purchase answer during one call is the record `Deal`; the clock is read
-- once. The card and the two messages are what the checks read of them.
pub mod Operation
pub mod Once
pub mod Within
mod Tests
use obolos.Prelude.{ℕ, String, Bool, List, Option, Result}
use obolos.Contracts.{Receipt, RepoEvidence, Network, Asset}
use obolos.Negotiation.{DateText, A2aOffer}
use obolos.Negotiation.Config.{AgentCard}
use obolos.Negotiation.Buying.{HederaCredentials, TokenPurchase}
use obolos.HtsBuyer.{WriteEnd}

-- The arguments of the command.
pub record BuyerArgs : Type 0 where
  pub operation : String
  pub provider_id : String
  pub max_value : String
  pub mandate_expires_at : DateText
  pub repos : List String

-- The environment; the cap is what `Number` makes of it, where that is a natural number.
pub record BuyerEnv : Type 0 where
  pub data_service_url : String
  pub a2a_public_url : String
  pub hedera_pay_to : String
  pub broker_max_data_atomic : Option ℕ
  pub broker_allowed_providers : List String

-- `intent`, whose hash is the fingerprint.
pub record BuyerIntent : Type 0 where
  pub operation : String
  pub provider_id : String
  pub max_amount_atomic : ℕ
  pub mandate_expires_at : DateText
  pub repos : List String
  pub endpoint : String
  pub resource_base : String
  pub pay_to : String

pub record PublicProof : Type 0 where
  pub offer_id : String
  pub context_id : String
  pub payer : String
  pub resource_url : String
  pub network : Network
  pub asset : Asset
  pub amount_atomic : ℕ
  pub units : ℕ
  pub transaction_id : Option String
  pub explorer_url : Option String

-- The file of an operation by its status; only the completed one holds a proof.
pub data OperationStatus : Type 0 where
  negotiating : OperationStatus
  is_accepted : A2aOffer → OperationStatus
  is_completed : A2aOffer → PublicProof → OperationStatus

pub record OperationRecord : Type 0 where
  pub fingerprint : String
  pub status : OperationStatus
  pub intent : BuyerIntent

pub data OperationFile : Type 0 where
  missing unreadable : OperationFile
  contents : OperationRecord → OperationFile

-- The data of a seller's message.
pub data SellerData : Type 0 where
  offer_data : A2aOffer → SellerData
  accepted_data : A2aOffer → SellerData
  another : SellerData

-- A response to a message, with whether its envelope is as it must be beside its identifier.
pub record SellerReply : Type 0 where
  pub id : String
  pub is_message : Bool
  pub content : SellerData

pub record Deal : Type 0 where
  pub now : ℕ
  pub card : Result String AgentCard
  pub secrets : Result String HederaCredentials
  pub first_reply : Result String SellerReply
  pub second_reply : Result String SellerReply
  pub purchase : TokenPurchase → Result String (Receipt × List RepoEvidence)
  pub reserve_end : WriteEnd
  pub accept_end : WriteEnd
  pub complete_end : WriteEnd

-- A proposal or an acceptance sent, and a purchase made.
pub data A2aEvent : Type 0 where
  proposing accepting : A2aEvent
  paying : TokenPurchase → A2aEvent

pub record OperationState : Type 0 where
  pub file : OperationFile
  pub events : List A2aEvent
