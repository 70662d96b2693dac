-- ===== src/Runner/Mandate.antt =====
-- The schemas and `validateSignedMandate` of
-- src/lib/platform/execution-contracts.ts, and `validateJob` of src/lib/runner/execution.ts. What
-- zod decides of one identifier, address or service, and viem of a signature, are parameters.
use Prim.Native.String
use obolos.Prelude.{ℕ, ◌+◌, String, Bool, true, false, ◌&&◌, ◌||◌, not, List, [], ◌∷◌, map}
use obolos.Prelude.{Option, none, some, leb, ◌==◌, nat_beq, nat_eq, string_eq, list_eq, all, any}
use obolos.Prelude.{length, codes, is_digit, is_hex_text, is_distinct, includes, Eq}
use obolos.Prelude.{discrete_eq, string_discrete, ℕ_discrete, Result, ◌>>◌, throw_if, if◌then◌else◌}
use obolos.Contracts.{VerificationService, Thrown, ParsedDate, has_passed}
use obolos.Engine.Create.{lower_codes, is_name_char, is_too_far}
use obolos.Runner.{SignedMandate, RunnerJob, RunnerPins}
use obolos.Runner.Message.{mandate_message}

-- The clock, zod and viem at one moment.
pub record Checks : Type 0 where
  pub now : ℕ
  pub is_uuid : String → Bool
  pub is_origin : String → Bool
  pub is_verification_service : VerificationService → Bool
  pub verify_message : String → List ℕ → String → Bool

unfoldable pub date_discrete : Discrete ParsedDate
unfolding ℕ_discrete
date_discrete = hlevel ℕ_discrete

unfoldable pub service_discrete : Discrete VerificationService
unfolding ℕ_discrete string_discrete
service_discrete = hlevel (string_discrete, ℕ_discrete)

instance abbrev pub date_eq : Eq ParsedDate
date_eq = discrete_eq date_discrete

-- [A-Za-z0-9]
abbrev pub is_alphanumeric : ℕ → Bool
is_alphanumeric c = (leb b'A' c && leb c b'Z') || (leb b'a' c && leb c b'z') || is_digit c

-- Not "." and not "..".
abbrev is_dots : List ℕ → Bool
is_dots (c ∷ []) = nat_beq c b'.'
is_dots (c ∷ d ∷ []) = nat_beq c b'.' && nat_beq d b'.'
is_dots _ = false

unfoldable pub scoped_name : List ℕ → Bool
scoped_name cs = leb 1 (length cs) && leb (length cs) 100 && all is_name_char cs && not (is_dots cs)

-- [A-Za-z0-9-]{0,38}\/ and the name, when `n` characters of the owner are read.
unfoldable pub scoped_owner : ℕ → List ℕ → Bool
unfolding scoped_name
scoped_owner n [] = false
scoped_owner n (c ∷ cs) =
    let rest = scoped_owner (n + 1) cs in
    if nat_beq c b'/'
    then leb n 39 && scoped_name cs
    else (is_alphanumeric c || nat_beq c b'-') && rest

unfoldable pub scoped_codes : List ℕ → Bool
unfolding scoped_owner
scoped_codes [] = false
scoped_codes (c ∷ cs) = is_alphanumeric c && leb (length (c ∷ cs)) 140 && scoped_owner 1 cs

-- `repositoryScope`
unfoldable pub is_repository_scope : List String → Bool
unfolding scoped_codes
is_repository_scope repos =
    all (λ r. scoped_codes (codes r)) repos
    && (leb 1 (length repos) && leb (length repos) 3)
    && is_distinct (map lower_codes repos)

abbrev pub is_between : ℕ → ℕ → ℕ → Bool
is_between low high n = leb low n && leb n high

abbrev is_known_provider : String → Bool
is_known_provider p = p == "repo-standard" || p == "repo-economy"

abbrev pub is_some_date : ParsedDate → Bool
is_some_date none = false
is_some_date (some t) = true

abbrev service_is_valid : Checks → Option VerificationService → Bool
service_is_valid checks none = true
service_is_valid checks (some s) = checks.is_verification_service s

-- `signedMandateSchema`
unfoldable pub is_signed_mandate : Checks → SignedMandate → Bool
unfolding is_repository_scope
is_signed_mandate checks m =
    checks.is_uuid m.id
    && checks.is_uuid m.agent_id
    && is_hex_text 40 m.owner
    && checks.is_origin m.origin
    && is_repository_scope m.repos
    && (all is_known_provider m.allowed_providers
        && is_between 1 2 (length m.allowed_providers)
        && is_distinct m.allowed_providers)
    && is_between 1 100000000 m.data_budget_atomic
    && is_between 1 1000000 m.verification_budget_atomic
    && is_between 1 100000000 m.max_data_unit_price_atomic
    && is_between 1 10 m.max_runs
    && is_some_date m.expires_at
    && service_is_valid checks m.verification_service
    && leb (length m.message) 5000
    && is_hex_text 130 m.signature

abbrev pub service_endpoint : SignedMandate → VerificationService → String
service_endpoint m s = String.◌++◌ m.origin (String.◌++◌ "/api/market/services/" s.id)

abbrev service_fits : SignedMandate → Option VerificationService → Bool
service_fits m none = true
service_fits m (some s) =
    s.endpoint == service_endpoint m s && leb s.price_atomic m.verification_budget_atomic

unfoldable pub validate_signed_mandate : Checks → SignedMandate → RunnerPins → Bool
unfolding is_signed_mandate mandate_message
validate_signed_mandate checks m pin =
    if not (is_signed_mandate checks m)
    then false
    else if not (lower_codes m.owner == lower_codes pin.owner)
        || not (m.agent_id == pin.agent_id)
        || not (m.origin == pin.origin)
        || has_passed m.expires_at checks.now
        || is_too_far m.expires_at checks.now
        || not (m.message == mandate_message m)
    then false
    else if not (service_fits m m.verification_service)
    then false
    else checks.verify_message m.owner m.message m.signature

unfoldable pub validate_job : Checks → RunnerJob → RunnerPins → Result Thrown (Unit {0})
unfolding validate_signed_mandate
validate_job checks job pins = do
  throw_if
      (not (checks.is_uuid job.id)
        || not (job.agent_id == pins.agent_id)
        || not (is_repository_scope job.repos)
        || not (validate_signed_mandate checks job.mandate pins))
      (some "Runner rejected the job identity or signed mandate.")
  throw_if (any (λ repo. not (includes job.mandate.repos repo)) job.repos)
      (some "Job repositories are outside the signed mandate.")
