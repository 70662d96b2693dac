-- ===== src/Runner/Signed.antt =====
-- What the owner's signature on a mandate authorises: a job that `validateJob` accepts is within a
-- mandate that the pinned owner signed, and the signed text fixes every limit of it.
use obolos.Prelude.{ℕ, ◌+◌, ◌≤◌, ◌<◌, ◌≡◌, refl, String, Bool, true, false, ◌||◌, not, Option}
use obolos.Prelude.{some, none, List, [], ◌∷◌, ok, any, all, includes, string_eq, list_eq, nat_eq}
use obolos.Prelude.{>>=-ok, throw_if-ok, throw_if, arith, ◌==◌}
use obolos.Contracts.{has_passed}
use obolos.Engine.Create.{lower_codes, is_too_far}
use obolos.Runner.{RunnerJob, RunnerPins, SignedMandate}
use obolos.Runner.Mandate.{Checks, validate_job, validate_signed_mandate}
use obolos.Runner.Message.{mandate_message}
use obolos.Runner.Scope.{IsRepositoryName, is_repository_scope-facts}
use obolos.Prelude.{length, map, All, is_distinct}
use obolos.Runner.Mandate.{is_signed_mandate, is_repository_scope, is_some_date}

pub record IsSignedMandate (checks : Checks) (m : SignedMandate) (pins : RunnerPins) : Type 0 where
  pub owner : lower_codes m.owner ≡ lower_codes pins.owner
  pub agent : m.agent_id ≡ pins.agent_id
  pub origin : m.origin ≡ pins.origin
  pub message : m.message ≡ mandate_message m
  pub signed : checks.verify_message m.owner m.message m.signature ≡ true
  pub in_force : (t : ℕ) × (m.expires_at ≡ some t) × (checks.now < t) × (t ≤ checks.now + 86400000)
  pub runs : m.max_runs ≤ 10
  pub data_budget : m.data_budget_atomic ≤ 100000000
  pub verification_budget : m.verification_budget_atomic ≤ 1000000

pub record IsAuthorized (checks : Checks) (job : RunnerJob) (pins : RunnerPins) : Type 0 where
  pub agent : job.agent_id ≡ pins.agent_id
  pub some_repo : 1 ≤ length job.repos
  pub few_repos : length job.repos ≤ 3
  pub distinct : is_distinct (map lower_codes job.repos) ≡ true
  pub well_formed : All IsRepositoryName job.repos
  pub repos : all (λ repo. includes job.mandate.repos repo) job.repos ≡ true
  pub mandate : IsSignedMandate checks job.mandate pins

is_signed_mandate-limits :
    (checks : Checks) (m : SignedMandate)
    → is_signed_mandate checks m ≡ true
    → (m.max_runs ≤ 10)
      × (m.data_budget_atomic ≤ 100000000)
      × (m.verification_budget_atomic ≤ 1000000)
unfolding is_signed_mandate
is_signed_mandate-limits checks m h = (ground arith, ground arith, ground arith)

expires_soon :
    (expires : Option ℕ) (now : ℕ)
    → has_passed expires now ≡ false
    → is_too_far expires now ≡ false
    → is_some_date expires ≡ true
    → (t : ℕ) × (expires ≡ some t) × (now < t) × (t ≤ now + 86400000)
expires_soon none now h k d = cc
expires_soon (some t) now h k d = (t, refl, ground arith, ground arith)

is_signed_mandate-date :
    (checks : Checks) (m : SignedMandate)
    → is_signed_mandate checks m ≡ true
    → is_some_date m.expires_at ≡ true
unfolding is_signed_mandate
is_signed_mandate-date checks m h = ground arith

validate_signed_mandate-IsSignedMandate :
    (checks : Checks) (m : SignedMandate) (pins : RunnerPins)
    → validate_signed_mandate checks m pins ≡ true
    → IsSignedMandate checks m pins
unfolding validate_signed_mandate
validate_signed_mandate-IsSignedMandate checks m pins h =
    let formed : is_signed_mandate checks m ≡ true = ground arith in
    let (runs, budget, verification) = is_signed_mandate-limits checks m formed in
    record {
      owner =
          ground
            (arith, (list_eq ⦃e = nat_eq⦄).same_iff (lower_codes m.owner) (lower_codes pins.owner));
      agent = ground (arith, string_eq.same_iff m.agent_id pins.agent_id);
      origin = ground (arith, string_eq.same_iff m.origin pins.origin);
      message = ground (arith, (list_eq ⦃e = nat_eq⦄).same_iff m.message (mandate_message m));
      signed = ground arith;
      in_force =
          expires_soon m.expires_at checks.now (ground arith) (ground arith)
            (is_signed_mandate-date checks m formed);
      runs = runs;
      data_budget = budget;
      verification_budget = verification;
    }

not_any→all :
    (p : String → Bool) (xs : List String) → any (λ x. not (p x)) xs ≡ false → all p xs ≡ true
not_any→all p [] h = cc
not_any→all p (x ∷ xs) h = ground (arith, not_any→all p xs)

-- A job that `validateJob` accepts is for the pinned agent and on one to three repositories, distinct
-- without regard to case, each an owner of 1 to 39 letters, digits and dashes and a name of 1 to 100
-- characters that is not "." or "..". The repositories are of a mandate whose text is the message of
-- its own values, which the pinned owner signed for this agent and origin, which expires in the next
-- 24 hours, and whose runs and budgets are within the limits of the schema.
pub validate_job-IsAuthorized :
    (checks : Checks) (job : RunnerJob) (pins : RunnerPins)
    → validate_job checks job pins ≡ ok tt
    → IsAuthorized checks job pins
unfolding validate_job
validate_job-IsAuthorized checks job pins e =
    let (u, valid, e1) =
      >>=-ok
        (throw_if
          (not (checks.is_uuid job.id)
            || not (job.agent_id == pins.agent_id)
            || not (is_repository_scope job.repos)
            || not (validate_signed_mandate checks job.mandate pins))
          _)
        _ e in
    let found = throw_if-ok _ _ valid in
    let (some_repo, few_repos, distinct, well_formed) =
      is_repository_scope-facts job.repos (ground (arith, found)) in
    record {
      agent = ground (arith, found, string_eq.same_iff job.agent_id pins.agent_id);
      some_repo = some_repo;
      few_repos = few_repos;
      distinct = distinct;
      well_formed = well_formed;
      repos = not_any→all (λ repo. includes job.mandate.repos repo) job.repos (throw_if-ok _ _ e1);
      mandate =
          validate_signed_mandate-IsSignedMandate checks job.mandate pins (ground (arith, found));
    }
