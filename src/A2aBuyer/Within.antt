-- ===== src/A2aBuyer/Within.antt =====
-- What the buyer of offers returns.
use obolos.Prelude.{ℕ, ◌≤◌, true, some, ◌≡◌}
use obolos.Prelude.{length}
use obolos.Prelude.{includes, string_eq, list_eq}
use obolos.Contracts.{hedera_testnet, hbar}
use obolos.Negotiation.{A2aOffer}
use obolos.Negotiation.Buying.{HederaCredentials}
use obolos.Negotiation.Agreement.{IsAgreed}
use obolos.A2aBuyer.{BuyerArgs, BuyerEnv, BuyerIntent, PublicProof}
use obolos.A2aBuyer.Operation.{proposal_of, max_of}

-- The proof of a payment for an offer.
pub record IsProofOf (offer : A2aOffer) (proof : PublicProof) : Type 0 where
  pub offer_id : proof.offer_id ≡ offer.offer_id
  pub network : proof.network ≡ hedera_testnet
  pub asset : proof.asset ≡ hbar
  pub amount : proof.amount_atomic ≡ offer.payload.amount_atomic
  pub units : proof.units ≡ length offer.payload.repos

-- A proof for an offer that was agreed under the intent.
record IsBought (now : ℕ) (intent : BuyerIntent) (proof : PublicProof) : Type 0 where
  pub secrets : HederaCredentials
  pub offer : A2aOffer
  pub agreed : IsAgreed now (proposal_of intent secrets) intent.pay_to offer.payload
  pub proven : IsProofOf offer proof

-- What the arguments and the broker's settings allow.
pub record IsAllowed (args : BuyerArgs) (env : BuyerEnv) (proof : PublicProof) : Type 0 where
  pub network : proof.network ≡ hedera_testnet
  pub asset : proof.asset ≡ hbar
  pub units : proof.units ≡ length args.repos
  pub within_maximum : proof.amount_atomic ≤ max_of args
  pub cap : ℕ
  pub capped : env.broker_max_data_atomic ≡ some cap
  pub within_cap : max_of args ≤ cap
  pub offer : A2aOffer
  pub paid_offer : proof.offer_id ≡ offer.offer_id
  pub paid_amount : proof.amount_atomic ≡ offer.payload.amount_atomic
  pub provider : offer.payload.provider_id ≡ args.provider_id
  pub repos : offer.payload.repos ≡ args.repos
  pub allowed_provider : includes env.broker_allowed_providers args.provider_id ≡ true
