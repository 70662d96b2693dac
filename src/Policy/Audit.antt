-- ===== src/Policy/Audit.antt =====
-- The audit chain of src/lib/policy.ts: appending keeps it valid.
use mathlib.Core.List.{reverse, reverse-cons}
use obolos.Prelude.{ℕ, String, ◌≡◌, refl, true, ◌&&◌, List, [], ◌∷◌, ◌++◌}
use obolos.Prelude.{arith, ◌==◌, string_eq, Template}
use obolos.Contracts.{AuditBody, AuditEvent, Actor, EventKind}
use obolos.Policy.{append_audit, verify_from, verify_audit, tip}

tip-append : (events : List AuditEvent) (e : AuditEvent) → tip (events ++ e ∷ []) ≡ e.hash
tip-append [] e = refl
tip-append (x ∷ []) e = refl
tip-append (x ∷ y ∷ events) e = tip-append (y ∷ events) e

-- The hash that the next entry has to name, when `previous` stands before the events.
abbrev pub tip_from : String → List AuditEvent → String
tip_from previous [] = previous
tip_from previous (e ∷ events) = tip_from e.hash events

tip_from-eq-tip :
    (previous : String) (e : AuditEvent) (events : List AuditEvent)
    → tip_from previous (e ∷ events) ≡ tip (e ∷ events)
tip_from-eq-tip previous e [] = refl
tip_from-eq-tip previous e (f ∷ events) = tip_from-eq-tip e.hash f events

pub tip_from-genesis : (events : List AuditEvent) → tip_from "genesis" events ≡ tip events
tip_from-genesis [] = refl
tip_from-genesis (e ∷ events) = tip_from-eq-tip "genesis" e events

pub tip-reverse : (e : AuditEvent) (older : List AuditEvent) → tip (reverse (e ∷ older)) ≡ e.hash
tip-reverse e older = rw (reverse-cons e older) (tip-append (reverse older) e)

module _ (event_hash : AuditBody → String) where
  pub verify_from-append :
      (previous : String) (events : List AuditEvent) (e : AuditEvent)
      → verify_from event_hash previous (events ++ e ∷ []) ≡ (
          verify_from event_hash previous events
          && ((e.body.previous_hash == tip_from previous events) && (event_hash e.body == e.hash)))
  unfolding verify_from
  verify_from-append previous [] e = ground arith
  verify_from-append previous (x ∷ events) e = ground (arith, verify_from-append x.hash events e)

  -- What `appendAudit` returns is a valid log if the log before it was.
  pub append_audit-verify :
      (now : ℕ) (uuid : String) (events : List AuditEvent) (actor : Actor) (kind : EventKind)
      (title : String) (detail : Template)
      → verify_audit event_hash events ≡ true
      → verify_audit event_hash (append_audit event_hash now uuid events actor kind title detail)
        ≡ true
  unfolding verify_audit append_audit
  append_audit-verify now uuid events actor kind title detail h =
      rw (verify_from-append "genesis" events _, h, tip_from-genesis events)
        (rw ((string_eq.same_iff (tip events) _).1 refl) ((string_eq.same_iff _ _).1 refl))
