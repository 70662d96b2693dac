-- ===== src/HtsBuyer/Market.antt =====
-- What purchaseHtsRepositories of scripts/hedera-token-buyer.ts asks and checks before it reserves
-- an intent: the quote, the metadata of the token, the challenge and the facilitator. Nothing here
-- changes the file or signs.
use obolos.Prelude.{
  ℕ, String, Bool, true, false, ◌&&◌, ◌||◌, not, List, [], ◌∷◌, Option, none, some,
}
use obolos.Prelude.{leb, ◌==◌, nat_beq, nat_eq, string_eq, length, all, Result, ok, ◌>>◌}
use obolos.Prelude.{◌>>=◌, throw_if, or_throw, joined, if◌then◌else◌, find}
use obolos.Contracts.{ParsedDate}
use obolos.Negotiation.{hedera_network}
use obolos.Negotiation.Schema.{instant_of}
use obolos.HtsBuyer.{
  World, HtsRepositoryPurchase, TokenQuote, TokenMetadata, Challenge, SupportedKind,
}
use obolos.HtsBuyer.{PaymentRequirements}
use obolos.HtsBuyer.Terms.{active, exact_requirements}

-- `!Number.isFinite(Date.parse(d))||Date.parse(d)<=Date.now()`
abbrev pub is_stale : ParsedDate → ℕ → Bool
is_stale none now = true
is_stale (some t) now = leb t now

unfoldable pub is_other_quote : ℕ → TokenQuote → HtsRepositoryPurchase → Bool
is_other_quote now quote input =
    not (quote.provider_id == input.provider_id)
    || not (nat_beq quote.units (length input.repos))
    || not (nat_beq quote.unit_price_atomic input.unit_price_atomic)
    || not (nat_beq quote.amount_atomic input.terms.amount_atomic)
    || not (quote.pay_to == input.terms.pay_to)
    || not (quote.network == hedera_network)
    || not (quote.asset == input.terms.asset)
    || not (nat_beq quote.decimals 0)
    || not (quote.symbol == input.symbol)
    || is_stale (instant_of quote.expires_at) now

abbrev is_zero : Option ℕ → Bool
is_zero none = false
is_zero (some n) = nat_beq n 0

abbrev is_fee_free : Option (List ℕ) → Bool
is_fee_free none = false
is_fee_free (some fees) = all (λ n. nat_beq n 0) fees

unfoldable pub is_other_token : TokenMetadata → HtsRepositoryPurchase → Bool
is_other_token metadata input =
    not (metadata.token_id == input.terms.asset)
    || not (metadata.kind == "FUNGIBLE_COMMON")
    || not (metadata.supply_type == "FINITE")
    || not (is_zero metadata.decimals)
    || not (metadata.symbol == input.symbol)
    || not (is_fee_free metadata.custom_fees)

abbrev is_link : String → Option String → Bool
is_link link none = false
is_link link (some s) = s == link

abbrev only : {A : Type 0} → List A → Option A
only (a ∷ []) = some a
only _ = none

abbrev pub endpoint_of : HtsRepositoryPurchase → String
endpoint_of input = joined (input.resource_base_url ∷ "evidence/" ∷ input.provider_id ∷ [])

-- The one alternative of the challenge.
unfoldable pub check_challenge :
    ℕ × Option Challenge → HtsRepositoryPurchase → Result String PaymentRequirements
check_challenge (status, header) input = do
  throw_if (not (nat_beq status 402)) "HTS resource did not return an x402 challenge."
  challenge ← or_throw "Invalid HTS payment challenge." header
  throw_if
      (not (nat_beq challenge.x402_version 2)
        || not (is_link (endpoint_of input) challenge.resource_url))
      "HTS challenge changed the exact resource or payment alternatives."
  or_throw "HTS challenge changed the exact resource or payment alternatives."
      (only challenge.accepts)

abbrev is_native : SupportedKind → Bool
is_native kind =
    nat_beq kind.x402_version 2 && (kind.scheme == "exact") && (kind.network == hedera_network)

abbrev fee_payer_in : Option SupportedKind → Option String
fee_payer_in none = none
fee_payer_in (some kind) = elim kind.fee_payer [
  | none ↦ none
  | some p ↦ (if p == "" then none else some p)
]

-- The quote under whose terms a payment may be signed.
unfoldable pub check_market : World → HtsRepositoryPurchase → Result String TokenQuote
unfolding is_other_quote is_other_token check_challenge exact_requirements
check_market world input = do
  active input world.begun_at
  quote ← world.quote
  active input world.quoted_at
  throw_if (is_other_quote world.quoted_at quote input)
      "HTS quote differs from the explicitly approved fixed test-credit terms."
  metadata ← world.metadata
  throw_if (is_other_token metadata input)
      "Token metadata is not the pinned fee-free zero-decimal finite test credit."
  active input world.asked_at
  unpaid ← world.unpaid
  requirements ← check_challenge unpaid input
  kinds ← world.supported
  fee_payer ←
      or_throw "Blocky402 testnet native facilitator unavailable."
        (fee_payer_in (find is_native kinds))
  exact_requirements requirements input fee_payer
  world.key
  ok quote
