-- ===== src/Engine/Create.antt =====
-- `createRun` of src/lib/engine.ts.
use obolos.Prelude.{ℕ, ◌+◌, String, Bool, true, false, ◌&&◌, ◌||◌, not, List, [], ◌∷◌, map, Option}
use obolos.Prelude.{none, some, ltb, leb, ◌==◌, nat_beq, nat_eq, list_eq, string_eq, if◌then◌else◌}
use obolos.Prelude.{length, all, is_distinct, codes, is_digit, lit, scaled, date, after_slash}
use obolos.Prelude.{Template, Result, ok, ◌>>◌, throw_if, is_empty}
use obolos.Contracts.{Mode, live, Stage, ready, Run, VerificationService, has_passed}
use obolos.Contracts.{supervisor, info}
use obolos.Contracts.{Mandate}
use obolos.Engine.{Env, log}

-- [A-Za-z0-9_.-]
abbrev pub is_name_char : ℕ → Bool
is_name_char c =
    (leb b'A' c && leb c b'Z')
    || (leb b'a' c && leb c b'z')
    || is_digit c
    || nat_beq c b'_'
    || nat_beq c b'.'
    || nat_beq c b'-'

abbrev is_name_length : ℕ → Bool
is_name_length n = leb 1 n && leb n 100

name_from : ℕ → List ℕ → Bool
name_from n [] = is_name_length n
name_from n (c ∷ cs) = is_name_char c && name_from (n + 1) cs

owner_from : ℕ → List ℕ → Bool
unfolding name_from
owner_from n [] = false
owner_from n (c ∷ cs) =
    if nat_beq c b'/'
    then is_name_length n && name_from 0 cs
    else is_name_char c && owner_from (n + 1) cs

-- /^[A-Za-z0-9_.-]{1,100}\/[A-Za-z0-9_.-]{1,100}$/
unfoldable pub is_repo : String → Bool
unfolding owner_from
is_repo s = owner_from 0 (codes s)

abbrev lower : ℕ → ℕ
lower c = if leb b'A' c && leb c b'Z' then c + 32 else c

abbrev pub lower_codes : String → List ℕ
lower_codes s = map lower (codes s)

-- The partial mandate of a request.
pub record MandateInput : Type 0 where
  pub data_budget_atomic : Option ℕ
  pub max_data_unit_price_atomic : Option ℕ
  pub verification_budget_atomic : Option ℕ
  pub allowed_providers : Option (List String)
  pub expires_at : Option ℕ
  pub verification_service : Option VerificationService

-- `raw` with the types of the schema; its texts are trimmed and its dates are read.
pub record RunInput : Type 0 where
  pub repos : List String
  pub mode : Mode
  pub mandate : MandateInput

-- `const atomic`
abbrev is_atomic : ℕ → Bool
is_atomic n = ltb 0 n && leb n 100000000

abbrev is_optional {ℓ} : {A : Type ℓ} → (A → Bool) → Option A → Bool
is_optional p none = true
is_optional p (some a) = p a

-- `inputSchema`
abbrev is_mandate_input : Env → MandateInput → Bool
is_mandate_input env m =
    is_optional is_atomic m.data_budget_atomic
    && is_optional is_atomic m.max_data_unit_price_atomic
    && is_optional is_atomic m.verification_budget_atomic
    && is_optional
        (λ ids. all (λ i. i == "repo-standard" || i == "repo-economy") ids && not (is_empty ids))
        m.allowed_providers
    && is_optional env.is_verification_service m.verification_service

unfoldable pub is_run_input : Env → RunInput → Bool
unfolding is_repo
is_run_input env input =
    all is_repo input.repos
    && (leb 1 (length input.repos) && leb (length input.repos) 3)
    && is_distinct (map lower_codes input.repos)
    && (elim input.mode [ live ↦ true | _ ↦ false ])
    && is_mandate_input env input.mandate

abbrev or_default {ℓ} : {A : Type ℓ} → Option A → A → A
or_default none d = d
or_default (some a) d = a

-- The defaults, overridden by the request, at version 1.
abbrev pub initial_mandate : ℕ → MandateInput → Mandate
initial_mandate now m = record {
  data_budget_atomic = or_default m.data_budget_atomic 2000000;
  max_data_unit_price_atomic = or_default m.max_data_unit_price_atomic 150000;
  verification_budget_atomic = or_default m.verification_budget_atomic 100000;
  allowed_providers = or_default m.allowed_providers ("repo-standard" ∷ "repo-economy" ∷ []);
  expires_at = some (or_default m.expires_at (now + 3600000));
  version = 1;
  verification_service = m.verification_service;
}

-- `Compare ${names.join(', ')}`
repo_names : List String → Template
repo_names [] = []
repo_names (r ∷ []) = after_slash r ∷ []
repo_names (r ∷ s ∷ rs) = after_slash r ∷ lit ", " ∷ repo_names (s ∷ rs)

-- Date.parse(expiresAt)>Date.now()+86400000
abbrev pub is_too_far : Option ℕ → ℕ → Bool
is_too_far none now = false
is_too_far (some t) now = ltb (now + 86400000) t

unfoldable pub new_run : Env → String → RunInput → Run
unfolding repo_names
new_run env id input = record {
  id = id;
  mode = input.mode;
  title = lit "Compare " ∷ repo_names input.repos;
  repos = input.repos;
  status = ready;
  stage = Stage.mandate;
  created_at = env.now;
  updated_at = env.now;
  mandate = initial_mandate env.now input.mandate;
  providers = [];
  selected_provider = none;
  data_spent_atomic = 0;
  verification_spent_atomic = 0;
  evidence = [];
  receipts = [];
  events = [];
  report = none;
  approval = none;
  shock_applied = false;
  error = none;
  authorizations = [];
}

unfoldable pub create_run : Env → String → RunInput → Result String Run
unfolding is_run_input new_run
create_run env id input =
    let m = initial_mandate env.now input.mandate in
    do
      throw_if (not (is_run_input env input)) "Invalid input"
      throw_if (has_passed m.expires_at env.now || is_too_far m.expires_at env.now)
          "Mandate expiry must be within the next 24 hours."
      ok (
          log env (new_run env id input) supervisor info "Mandate created" (
            lit "Up to "
            ∷ scaled m.data_budget_atomic 8
            ∷ lit " HBAR for evidence and "
            ∷ scaled m.verification_budget_atomic 6
            ∷ lit " USDC for verification. Expires "
            ∷ date m.expires_at
            ∷ lit "."
            ∷ []))
