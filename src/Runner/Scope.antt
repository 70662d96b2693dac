-- ===== src/Runner/Scope.antt =====
-- The repositories that `repositoryScope` of src/lib/platform/execution-contracts.ts admits.
use mathlib.Core.Bool.{false≢true}
use obolos.Prelude.{ℕ, ◌+◌, ◌≤◌, ◌≡◌, ◌≢◌, ◌∙◌, refl, sym, ap, String, Bool, true, ◌||◌, List}
use obolos.Prelude.{
  [], ◌∷◌, ◌++◌, map, all, All, length, codes, is_distinct, nat_beq, nat_eq, list_eq, arith,
}
use obolos.Prelude.{Bool-cases, inl, inr}
use obolos.Engine.Create.{lower_codes, is_name_char}
use obolos.Runner.Mandate.{is_repository_scope, scoped_codes, scoped_owner, scoped_name}
use obolos.Runner.Mandate.{is_alphanumeric}

-- [A-Za-z0-9-]
abbrev pub is_owner_char : ℕ → Bool
is_owner_char c = is_alphanumeric c || nat_beq c b'-'

-- An owner of 1 to 39 letters, digits and dashes that does not begin with a dash, a slash, and a name
-- of 1 to 100 characters that is not "." or "..".
pub record IsRepositoryName (repo : String) : Type 0 where
  pub first : ℕ
  pub owner : List ℕ
  pub name : List ℕ
  pub parts : codes repo ≡ first ∷ owner ++ b'/' ∷ name
  pub first_char : is_alphanumeric first ≡ true
  pub owner_chars : all is_owner_char owner ≡ true
  pub owner_length : 1 + length owner ≤ 39
  pub name_chars : all is_name_char name ≡ true
  pub some_name : 1 ≤ length name
  pub name_length : length name ≤ 100
  pub no_dot : name ≢ b'.' ∷ []
  pub no_dots : name ≢ b'.' ∷ b'.' ∷ []
  pub total_length : length (codes repo) ≤ 140

-- What is read after the first characters of an owner.
record IsOwnerAndName (n : ℕ) (cs : List ℕ) : Type 0 where
  owner : List ℕ
  name : List ℕ
  parts : cs ≡ owner ++ b'/' ∷ name
  owner_chars : all is_owner_char owner ≡ true
  owner_length : n + length owner ≤ 39
  scoped : scoped_name name ≡ true

IsOwnerAndName-after :
    (n c : ℕ) (cs : List ℕ)
    → is_owner_char c ≡ true
    → IsOwnerAndName (n + 1) cs
    → IsOwnerAndName n (c ∷ cs)
IsOwnerAndName-after n c cs char rest = record {
  owner = c ∷ rest.owner;
  name = rest.name;
  parts = ap (λ x. c ∷ x) rest.parts;
  owner_chars = rw (char, rest.owner_chars) refl;
  owner_length = omega (arith, rest.owner_length);
  scoped = rest.scoped;
}

scoped_owner-IsOwnerAndName : (n : ℕ) (cs : List ℕ) → scoped_owner n cs ≡ true → IsOwnerAndName n cs
unfolding scoped_owner
scoped_owner-IsOwnerAndName n [] h = cc
scoped_owner-IsOwnerAndName n (c ∷ cs) h = elim (Bool-cases (nat_beq c b'/')) [
  | inl slash ↦ record {
    owner = [];
    name = cs;
    parts = ap (λ x. x ∷ cs) ((nat_eq.same_iff c b'/').0 slash);
    owner_chars = refl;
    owner_length = ground arith;
    scoped = ground arith;
  }
  | inr other ↦
      IsOwnerAndName-after n c cs (ground (arith, other))
        (scoped_owner-IsOwnerAndName (n + 1) cs (ground (arith, other)))
]

-- The facts of `scoped_name`.
scoped_name-facts :
    (name : List ℕ)
    → scoped_name name ≡ true
    → (all is_name_char name ≡ true)
      × (1 ≤ length name)
      × (length name ≤ 100)
      × (name ≢ b'.' ∷ [])
      × (name ≢ b'.' ∷ b'.' ∷ [])
unfolding scoped_name
scoped_name-facts name h = (
  ground arith,
  ground arith,
  ground arith,
  λ dot. absurd (false≢true (sym (rw dot refl) ∙ h)),
  λ dots. absurd (false≢true (sym (rw dots refl) ∙ h)),
)

scoped_codes-IsRepositoryName :
    (repo : String) (cs : List ℕ) → codes repo ≡ cs → scoped_codes cs ≡ true → IsRepositoryName repo
unfolding scoped_codes
scoped_codes-IsRepositoryName repo [] same h = cc
scoped_codes-IsRepositoryName repo (c ∷ cs) same h =
    let rest = scoped_owner-IsOwnerAndName 1 cs (ground arith) in
    let (chars, some_name, few, dot, dots) = scoped_name-facts rest.name rest.scoped in
    record {
      first = c;
      owner = rest.owner;
      name = rest.name;
      parts = same ∙ ap (λ x. c ∷ x) rest.parts;
      first_char = ground arith;
      owner_chars = rest.owner_chars;
      owner_length = rest.owner_length;
      name_chars = chars;
      some_name = some_name;
      name_length = few;
      no_dot = dot;
      no_dots = dots;
      total_length = rw same (ground arith);
    }

all_scoped-All :
    (repos : List String)
    → all (λ r. scoped_codes (codes r)) repos ≡ true
    → All IsRepositoryName repos
all_scoped-All [] h = tt
all_scoped-All (r ∷ rs) h = (
  scoped_codes-IsRepositoryName r (codes r) refl (ground arith),
  all_scoped-All rs (ground arith),
)

pub is_repository_scope-facts :
    (repos : List String)
    → is_repository_scope repos ≡ true
    → (1 ≤ length repos)
      × (length repos ≤ 3)
      × (is_distinct (map lower_codes repos) ≡ true)
      × All IsRepositoryName repos
unfolding is_repository_scope
is_repository_scope-facts repos h =
    (ground arith, ground arith, ground arith, all_scoped-All repos (ground arith))
