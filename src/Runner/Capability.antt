-- ===== src/Runner/Capability.antt =====
-- Whatever the engine asks of the guarded gateway, one data purchase and one verification at most
-- go on, each within the signed mandate.
use obolos.Prelude.{◌≡◌, refl, String, Bool, true, false, List, [], ◌∷◌}
use obolos.Prelude.{Option, none, some, Result, ok}
use obolos.Prelude.{arith, string_eq, list_eq, subst, nat_eq, sym}
use obolos.Contracts.{RepoEvidence, DataPurchase, VerificationPurchase, Thrown}
use obolos.Runner.{RunnerJob}
use obolos.Runner.{RunnerPins}
use obolos.Runner.Mandate.{Checks, date_eq}
use obolos.Runner.Guard.{Guard, fresh_guard, admit_purchase, admit_report}
use obolos.Runner.Guard.{admit_verification, note_purchase}
use obolos.Runner.Guard.{same_evidence}
use obolos.Runner.Terms.{IsDataRequest, IsVerifyRequest, admit_purchase_inv, admit_report_inv}
use obolos.Runner.Terms.{admit_verification_inv}

-- The guard with the requests that went on, the newest first.
pub record Session : Type 0 where
  pub guard : Guard
  pub data_requests : List DataPurchase
  pub verify_requests : List VerificationPurchase

abbrev pub fresh_session : Session
fresh_session = record { guard = fresh_guard; data_requests = []; verify_requests = [] }

-- What the gateway below answered: evidence, or an exception.
abbrev answered : Guard → Option (List RepoEvidence) → Guard
answered g none = g
answered g (some evidence) = note_purchase g evidence

-- A call that the guard let through; a refused one changes nothing.
pub data Call (job : RunnerJob) (pins : RunnerPins) (s : Session) : Session → Type 0 where
  bought :
      (before later : Checks) (authorized : Result Thrown (Unit {0})) (g : Guard) (r : DataPurchase)
      (answer : Option (List RepoEvidence))
      → admit_purchase job before later authorized pins s.guard r ≡ ok g
      → Call job pins s
          (record s { guard = answered g answer; data_requests = r ∷ s.data_requests })
  reported :
      (before later : Checks) (authorized : Result Thrown (Unit {0})) (g : Guard)
      (evidence : List RepoEvidence) (run_id : String)
      → admit_report job before later authorized pins s.guard evidence run_id ≡ ok g
      → Call job pins s (record s { guard = g })
  verified :
      (before later : Checks) (authorized : Result Thrown (Unit {0})) (g : Guard)
      (r : VerificationPurchase)
      → admit_verification job before later authorized pins s.guard r ≡ ok g
      → Call job pins s (record s { guard = g; verify_requests = r ∷ s.verify_requests })

pub data Calls (job : RunnerJob) (pins : RunnerPins) : Session → Type 0 where
  opened : Calls job pins fresh_session
  called : {s t : Session} → Calls job pins s → Call job pins s t → Calls job pins t

abbrev DataRequests : RunnerJob → Bool → List DataPurchase → Type 0
DataRequests job started [] = started ≡ false
DataRequests job started (r ∷ []) = (started ≡ true) × IsDataRequest job r
DataRequests job started (r ∷ q ∷ more) = ⊥

abbrev VerifyRequests : RunnerJob → Bool → List VerificationPurchase → Type 0
VerifyRequests job started [] = started ≡ false
VerifyRequests job started (r ∷ []) = (started ≡ true) × IsVerifyRequest job r
VerifyRequests job started (r ∷ q ∷ more) = ⊥

abbrev is_some : Option (List RepoEvidence) → Bool
is_some none = false
is_some (some e) = true

same_evidence-is_some :
    (bought : Option (List RepoEvidence)) (evidence : List RepoEvidence)
    → same_evidence bought evidence ≡ true
    → is_some bought ≡ true
same_evidence-is_some none evidence h = h
same_evidence-is_some (some e) evidence h = refl

-- At most one request of each kind, within the signed terms, and a verification only after data.
pub record IsWithinScope (job : RunnerJob) (s : Session) : Type 0 where
  pub data_requests : DataRequests job s.guard.data_started s.data_requests
  pub verify_requests : VerifyRequests job s.guard.verification_started s.verify_requests
  pub bought_first : is_some s.guard.purchased ≡ true → s.guard.data_started ≡ true
  pub reported_first : s.guard.report_started ≡ true → s.guard.data_started ≡ true
  pub verified_last : s.guard.verification_started ≡ true → s.guard.report_started ≡ true

add_data :
    (job : RunnerJob) (r : DataPurchase) (rs : List DataPurchase)
    → DataRequests job false rs
    → IsDataRequest job r
    → DataRequests job true (r ∷ rs)
add_data job r [] h k = (refl, k)
add_data job r (q ∷ []) h k = absurd (ground arith)
add_data job r (q ∷ p ∷ more) h k = absurd h

add_verification :
    (job : RunnerJob) (r : VerificationPurchase) (rs : List VerificationPurchase)
    → VerifyRequests job false rs
    → IsVerifyRequest job r
    → VerifyRequests job true (r ∷ rs)
add_verification job r [] h k = (refl, k)
add_verification job r (q ∷ []) h k = absurd (ground arith)
add_verification job r (q ∷ p ∷ more) h k = absurd h

-- What each request that goes on leaves within scope.
module _ (job : RunnerJob) (s : Session) (safe : IsWithinScope job s) where
  after_purchase :
      (r : DataPurchase) (answer : Option (List RepoEvidence))
      → s.guard.data_started ≡ false
      → IsDataRequest job r
      → IsWithinScope job (record s {
        guard = answered (record s.guard { data_started = true }) answer;
        data_requests = r ∷ s.data_requests;
      })
  after_purchase r none fresh request = record {
    data_requests =
        add_data job r _ (subst (λ b. DataRequests job b s.data_requests) fresh safe.data_requests)
          request;
    verify_requests = safe.verify_requests;
    bought_first = λ h. refl;
    reported_first = λ h. refl;
    verified_last = safe.verified_last;
  }
  after_purchase r (some evidence) fresh request = record {
    data_requests =
        add_data job r _ (subst (λ b. DataRequests job b s.data_requests) fresh safe.data_requests)
          request;
    verify_requests = safe.verify_requests;
    bought_first = λ h. refl;
    reported_first = λ h. refl;
    verified_last = safe.verified_last;
  }

  after_report :
      (evidence : List RepoEvidence)
      → same_evidence s.guard.purchased evidence ≡ true
      → IsWithinScope job (record s { guard = record s.guard { report_started = true } })
  after_report evidence same = record {
    data_requests = safe.data_requests;
    verify_requests = safe.verify_requests;
    bought_first = safe.bought_first;
    reported_first = λ h. safe.bought_first (same_evidence-is_some _ _ same);
    verified_last = λ h. refl;
  }

  after_verification :
      (r : VerificationPurchase)
      → s.guard.verification_started ≡ false
      → s.guard.report_started ≡ true
      → IsVerifyRequest job r
      → IsWithinScope job (record s {
        guard = record s.guard { verification_started = true };
        verify_requests = r ∷ s.verify_requests;
      })
  after_verification r fresh seen request = record {
    data_requests = safe.data_requests;
    verify_requests =
        add_verification job r _
          (subst (λ b. VerifyRequests job b s.verify_requests) fresh safe.verify_requests) request;
    bought_first = safe.bought_first;
    reported_first = safe.reported_first;
    verified_last = λ h. seen;
  }

module _ (job : RunnerJob) (pins : RunnerPins) where
  Call-IsWithinScope :
      (s t : Session) → IsWithinScope job s → Call job pins s t → IsWithinScope job t
  Call-IsWithinScope s _ safe (bought before later authorized g r answer e) =
      let (fresh, same, request) =
        admit_purchase_inv job pins before later authorized s.guard g r e in
      subst
        (λ g.
          IsWithinScope job
            (record s { guard = answered g answer; data_requests = r ∷ s.data_requests }))
        (sym same) (after_purchase job s safe r answer fresh request)
  Call-IsWithinScope s _ safe (reported before later authorized g evidence run_id e) =
      let (same, seen) =
        admit_report_inv job pins before later authorized s.guard g evidence run_id e in
      subst (λ g. IsWithinScope job (record s { guard = g })) (sym same)
        (after_report job s safe evidence seen)
  Call-IsWithinScope s _ safe (verified before later authorized g r e) =
      let (fresh, seen, same, request) =
        admit_verification_inv job pins before later authorized s.guard g r e in
      subst
        (λ g. IsWithinScope job (record s { guard = g; verify_requests = r ∷ s.verify_requests }))
        (sym same) (after_verification job s safe r fresh seen request)

  -- However often the engine calls the guarded gateway of one job, and whatever is found and
  -- answered on the way: at most one data purchase and at most one verification go on, each under
  -- the job's identifier and within the signed mandate, and a verification only after a purchase
  -- and a report.
  pub Calls-IsWithinScope : {s : Session} → Calls job pins s → IsWithinScope job s
  Calls-IsWithinScope opened = record {
    data_requests = refl;
    verify_requests = refl;
    bought_first = λ h. cc;
    reported_first = λ h. cc;
    verified_last = λ h. cc;
  }
  Calls-IsWithinScope (called {s} {t} before one) =
      Call-IsWithinScope s t (Calls-IsWithinScope before) one
