-- ===== src/Negotiation/Schema.antt =====
-- The schemas of src/lib/hedera/a2a.ts, and `validateRepos` and `createQuote` of
-- src/lib/repository-service.ts.
use obolos.Prelude.{ℕ, ◌+◌, ◌*◌, String, Bool, true, false, ◌&&◌, ◌||◌, not, List, [], ◌∷◌, map}
use obolos.Prelude.{Option, none, some, leb, ltb, ◌==◌, nat_beq, nat_eq, list_eq, string_eq, Eq}
use obolos.Prelude.{length, all, any, codes, is_digit, set_size, discrete_eq, string_discrete}
use obolos.Prelude.{ℕ_discrete, Result, ok, ◌>>◌, ◌>>=◌, throw_if, or_throw, if◌then◌else◌}
use obolos.Contracts.{ParsedDate}
use obolos.Policy.{is_safe_integer}
use obolos.Engine.Create.{lower_codes}
use obolos.Runner.Mandate.{is_alphanumeric, scoped_owner, date_discrete}
use obolos.Negotiation.{DateForm, zulu, unformatted, DateText, iso, written_date}
use obolos.Negotiation.{Proposal, OfferPayload, Acceptance, Quote, hedera_network, hbar_asset}

form_discrete : Discrete DateForm
form_discrete = hlevel

unfoldable pub text_date_discrete : Discrete DateText
unfolding ℕ_discrete string_discrete date_discrete form_discrete
text_date_discrete = hlevel (string_discrete, ℕ_discrete, date_discrete, form_discrete)

instance abbrev pub text_date_eq : Eq DateText
text_date_eq = discrete_eq text_date_discrete

-- Date.parse
abbrev pub instant_of : DateText → ParsedDate
instant_of (iso t) = some t
instant_of (written_date form text parsed) = parsed

-- z.iso.datetime(); from the year 10000 on `toISOString` writes a sign and six digits.
abbrev pub is_datetime : DateText → Bool
is_datetime (iso t) = leb t 253402300799999
is_datetime (written_date zulu text parsed) = true
is_datetime (written_date _ text parsed) = false

-- z.iso.datetime({offset:true})
abbrev pub is_offset_datetime : DateText → Bool
is_offset_datetime (iso t) = leb t 253402300799999
is_offset_datetime (written_date unformatted text parsed) = false
is_offset_datetime (written_date _ text parsed) = true

abbrev account_rest : List ℕ → Bool
account_rest [] = false
account_rest (c ∷ cs) = leb b'1' c && leb c b'9' && all is_digit cs

unfoldable pub account_codes : List ℕ → Bool
account_codes (a ∷ b ∷ c ∷ d ∷ rest) =
    nat_beq a b'0' && nat_beq b b'.' && nat_beq c b'0' && nat_beq d b'.' && account_rest rest
account_codes _ = false

-- /^0\.0\.[1-9]\d*$/
unfoldable pub is_account : String → Bool
unfolding account_codes
is_account s = account_codes (codes s)

abbrev pub is_identity_char : ℕ → Bool
is_identity_char c = is_alphanumeric c || nat_beq c b'_' || nat_beq c b'-'

abbrev pub is_identity_text : ℕ → List ℕ → Bool
is_identity_text most cs = leb 1 (length cs) && leb (length cs) most && all is_identity_char cs

-- /^[A-Za-z0-9_-]{1,120}$/
unfoldable pub is_identity : String → Bool
is_identity s = is_identity_text 120 (codes s)

abbrev pub is_atomic : ℕ → Bool
is_atomic n = leb 1 n && is_safe_integer n

abbrev pub is_provider : String → Bool
is_provider p = p == "repo-standard" || p == "repo-economy"

abbrev pub is_repo_count : List String → Bool
is_repo_count repos = leb 1 (length repos) && leb (length repos) 3

-- `proposalSchema`
unfoldable pub is_proposal : Proposal → Bool
unfolding is_account is_identity
is_proposal p =
    is_account p.payer
    && is_identity p.request_id
    && is_provider p.provider_id
    && is_repo_count p.repos
    && is_atomic p.max_amount_atomic
    && is_offset_datetime p.mandate_expires_at

-- `acceptSchema`
unfoldable pub is_acceptance : Acceptance → Bool
unfolding is_account is_identity
is_acceptance a =
    is_account a.payer
    && is_identity a.request_id
    && leb 1 (length a.offer_token)
    && leb (length a.offer_token) 12000

-- `offerSchema`
unfoldable pub is_offer_payload : OfferPayload → Bool
unfolding is_account is_identity
is_offer_payload p =
    nat_beq p.version 1
    && is_identity p.context_id
    && is_identity p.request_id
    && is_account p.payer
    && is_provider p.provider_id
    && is_repo_count p.repos
    && is_atomic p.unit_price_atomic
    && is_atomic p.amount_atomic
    && is_atomic p.max_amount_atomic
    && is_offset_datetime p.mandate_expires_at
    && is_datetime p.issued_at
    && is_datetime p.expires_at
    && (p.network == hedera_network)
    && (p.asset == hbar_asset)
    && is_account p.pay_to

resource_repo : List ℕ → Bool
unfolding scoped_owner
resource_repo [] = false
resource_repo (c ∷ cs) = is_alphanumeric c && scoped_owner 1 cs

-- `validateRepos`
unfoldable pub validate_repos : List String → Result String (List String)
unfolding resource_repo
validate_repos repos = do
  throw_if (ltb (length repos) 1 || ltb 3 (length repos)) "Provide one to three repositories."
  throw_if (any (λ r. not (resource_repo (codes r))) repos) "Invalid GitHub owner/repository."
  throw_if (not (nat_beq (set_size (map lower_codes repos)) (length repos)))
      "Duplicate repositories are not billable."
  ok repos

-- `PriceBook`
pub record PriceBook : Type 0 where
  pub repo_standard : ℕ
  pub repo_economy : ℕ

abbrev pub price_in : PriceBook → String → Option ℕ
price_in prices provider =
    if provider == "repo-standard"
    then some prices.repo_standard
    else if provider == "repo-economy"
    then some prices.repo_economy
    else none

-- `createQuote`
unfoldable pub create_quote : ℕ → String → List String → PriceBook → String → Result String Quote
unfolding validate_repos
create_quote now provider input prices pay_to = do
  repos ← validate_repos input
  price ← or_throw "Unknown provider." (price_in prices provider)
  throw_if (not (is_atomic price) || not (is_safe_integer (price * length repos)))
      "Invalid service price."
  ok (record {
    provider_id = provider;
    unit_price_atomic = price;
    units = length repos;
    amount_atomic = price * length repos;
    network = hedera_network;
    asset = "HBAR";
    pay_to = pay_to;
    expires_at = iso (now + 60000);
  })
