-- ===== src/HtsBuyer/Terms.antt =====
-- `validateInput`, `active` and `exactRequirements` of scripts/hedera-token-buyer.ts, with
-- `validateTokenTerms` and `validateTokenTransfer` of src/lib/hedera/commerce.ts.
use obolos.Prelude.{ℕ, ◌+◌, ◌-◌, ◌*◌, String, Bool, false, ◌&&◌, ◌||◌, not, List, [], ◌∷◌}
use obolos.Prelude.{Option, none, some, leb, ltb, ◌==◌, nat_beq, nat_eq, list_eq, string_eq, length}
use obolos.Prelude.{codes, is_digit, all, any, keep, sum_of, is_empty, Result, ok, ◌>>◌}
use obolos.Prelude.{◌>>=◌, throw_if}
use obolos.Contracts.{has_passed}
use obolos.Policy.{is_safe_integer}
use obolos.Negotiation.{Url, Runtime, hedera_network}
use obolos.Negotiation.Schema.{is_account, is_atomic}
use obolos.Negotiation.Schema.{validate_repos, is_repo_count, is_offset_datetime, instant_of}
use obolos.Negotiation.Schema.{is_identity_text, is_identity_char}
use obolos.Negotiation.Config.{trusted_base, href}
use obolos.Negotiation.Buying.{HederaCredentials}
use obolos.HtsBuyer.{TokenTerms, HtsRepositoryPurchase, MirrorTransaction, TokenTransfer}
use obolos.HtsBuyer.{gain, loss, PaymentRequirements}

-- `validateTokenTerms`
unfoldable pub validate_token_terms : TokenTerms → Result String TokenTerms
unfolding is_account
validate_token_terms terms = do
  throw_if
      (not (is_account terms.asset)
        || not (is_account terms.payer)
        || not (is_account terms.pay_to)
        || not (is_atomic terms.amount_atomic))
      "Invalid terms."
  throw_if (terms.payer == terms.pay_to) "Payer and service recipient must differ."
  ok terms

abbrev gained : TokenTransfer → ℕ
gained t = elim t.amount [ gain n ↦ n | loss n ↦ 0 ]

abbrev lost_by : TokenTransfer → ℕ
lost_by t = elim t.amount [ gain n ↦ 0 | loss n ↦ n ]

abbrev rows_of : String → List TokenTransfer → List TokenTransfer
rows_of account = keep (λ t. t.account == account)

-- The amounts of an account's rows add up to `n` or to `-n`.
abbrev pub receives : String → ℕ → List TokenTransfer → Bool
receives account n rows =
    nat_beq (sum_of gained (rows_of account rows)) (sum_of lost_by (rows_of account rows) + n)

abbrev pub pays : String → ℕ → List TokenTransfer → Bool
pays account n rows =
    nat_beq (sum_of lost_by (rows_of account rows)) (sum_of gained (rows_of account rows) + n)

abbrev is_safe_row : String → TokenTransfer → Bool
is_safe_row asset t =
    t.token_id == asset && is_safe_integer (elim t.amount [ gain n ↦ n | loss n ↦ n ])

abbrev pub proves : TokenTerms → MirrorTransaction → Bool
proves terms tx =
    (tx.result == "SUCCESS")
    && (tx.name == "CRYPTOTRANSFER")
    && nat_beq (length tx.token_transfers) 2
    && all (is_safe_row terms.asset) tx.token_transfers
    && pays terms.payer terms.amount_atomic tx.token_transfers
    && receives terms.pay_to terms.amount_atomic tx.token_transfers

-- `validateTokenTransfer`
unfoldable pub validate_token_transfer :
    List MirrorTransaction → TokenTerms → Result String (Unit {0})
unfolding validate_token_terms
validate_token_transfer transactions input = do
  terms ← validate_token_terms input
  throw_if (not (any (proves terms) transactions))
      "Mirror node has not proved the exact HTS transfer."

-- [A-Za-z0-9_:-]
abbrev is_request_char : ℕ → Bool
is_request_char c = is_identity_char c || nat_beq c b':'

abbrev is_request_id : String → Bool
is_request_id s =
    leb 1 (length (codes s)) && leb (length (codes s)) 180 && all is_request_char (codes s)

-- `inputSchema`
unfoldable pub is_hts_input : HtsRepositoryPurchase → Bool
is_hts_input p =
    is_request_id p.request_id
    && (p.provider_id == "repo-standard")
    && is_repo_count p.repos
    && nat_beq p.unit_price_atomic 1
    && (leb 1 p.max_amount_atomic && leb p.max_amount_atomic 3)
    && is_offset_datetime p.mandate_expires_at
    && is_identity_text 12 (codes p.symbol)
    && nat_beq p.decimals 0

unfoldable pub ends_with : List ℕ → List ℕ → Bool
ends_with suffix [] = is_empty suffix
ends_with suffix (c ∷ cs) = list_eq.same (c ∷ cs) suffix || ends_with suffix cs

unfoldable pub exceeds_authority : HtsRepositoryPurchase → HederaCredentials → Url → Bool
unfolding ends_with
exceeds_authority value credentials base =
    not (ends_with (codes "/x402/hts/") (codes base.pathname))
    || not (credentials.account_id == value.terms.payer)
    || (credentials.private_key == "")
    || not (nat_beq value.terms.amount_atomic (value.unit_price_atomic * length value.repos))
    || ltb value.max_amount_atomic value.terms.amount_atomic

-- `validateInput`; the terms and the repositories are returned as they are.
unfoldable pub validate_input :
    Runtime → HtsRepositoryPurchase → HederaCredentials → Result String HtsRepositoryPurchase
unfolding is_hts_input validate_token_terms validate_repos trusted_base exceeds_authority
validate_input runtime value credentials = do
  throw_if (not (is_hts_input value)) "Invalid input."
  terms ← validate_token_terms value.terms
  repos ← validate_repos value.repos
  base ← trusted_base runtime value.resource_base_url
  throw_if (exceeds_authority value credentials base)
      "Invalid pinned HTS resource, payer or bounded token authority."
  ok (record value { resource_base_url = href base "" })

-- `active`
abbrev pub active : HtsRepositoryPurchase → ℕ → Result String (Unit {0})
active input now =
    throw_if (has_passed (instant_of input.mandate_expires_at) now)
      "HTS mandate expired; no payment authorized."

-- The number that decimal digits write.
unfoldable pub number_of : ℕ → List ℕ → ℕ
number_of n [] = n
number_of n (c ∷ cs) = number_of (n * 10 + (c - b'0')) cs

abbrev is_set : Option String → Bool
is_set none = false
is_set (some s) = not (s == "")

abbrev is_other_flow : Option String → Bool
is_other_flow flow = is_set flow && not (elim flow [ none ↦ false | some f ↦ f == "authorization" ])

abbrev is_text_of : String → Option String → Bool
is_text_of text none = false
is_text_of text (some s) = s == text

-- `exactRequirements`
unfoldable pub exact_requirements :
    PaymentRequirements → HtsRepositoryPurchase → String → Result String (Unit {0})
unfolding number_of is_account
exact_requirements value input fee_payer =
    throw_if
      (not (value.scheme == "exact")
        || not (value.network == hedera_network)
        || not (value.asset == input.terms.asset)
        || not (value.pay_to == input.terms.pay_to)
        || (is_empty (codes value.amount) || not (all is_digit (codes value.amount)))
        || not (nat_beq (number_of 0 (codes value.amount)) input.terms.amount_atomic)
        || not (is_text_of fee_payer value.fee_payer)
        || not (is_account fee_payer)
        || (input.terms.payer == fee_payer || input.terms.pay_to == fee_payer)
        || ltb value.max_timeout_seconds 1
        || ltb 120 value.max_timeout_seconds
        || is_other_flow value.payment_flow)
      "HTS x402 challenge violates exact asset, recipient, amount or facilitator mandate."
