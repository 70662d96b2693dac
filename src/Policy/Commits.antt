-- ===== src/Policy/Commits.antt =====
-- The last hash of an audit log of src/lib/policy.ts commits to every entry. SHA-256 is taken of the
-- entry as JSON prints it, with its detail as a text: the rendering of a template text and the hash of
-- the printed entry are parameters.
use mathlib.Core.List.{reverse, reverse-cons, reverse-reverse}
use obolos.Prelude.{ℕ, String, ◌≡◌, refl, ◌≢◌, ◌⊎◌, inl, inr, true, List, [], ◌∷◌, ◌++◌, sym, subst}
use obolos.Prelude.{arith, string_eq, Template, string_discrete, ◌∙◌, ℕ_discrete, ap, map}
use obolos.Contracts.{AuditBody, AuditEvent, Actor, EventKind, Actor-discrete, EventKind-discrete}
use obolos.Policy.{verify_audit, tip}
use obolos.Policy.Audit.{tip_from, tip_from-genesis, tip-reverse, verify_from-append}

-- The entry that is hashed, its detail as a text.
pub record PrintedBody : Type 0 where
  pub id : String
  pub timestamp : ℕ
  pub actor : Actor
  pub kind : EventKind
  pub title : String
  pub detail : String
  pub previous_hash : String

pub record PrintedEvent : Type 0 where
  pub body : PrintedBody
  pub hash : String

PrintedBody-discrete : Discrete PrintedBody
PrintedBody-discrete = hlevel (string_discrete, ℕ_discrete, Actor-discrete, EventKind-discrete)

-- The event stands in the log.
abbrev pub IsIn : AuditEvent → List AuditEvent → Type 0
IsIn e [] = ⊥
IsIn e (x ∷ xs) = (e ≡ x) ⊎ IsIn e xs

IsIn-append :
    (e x : AuditEvent) (xs : List AuditEvent) → IsIn e (xs ++ x ∷ []) → (e ≡ x) ⊎ IsIn e xs
IsIn-append e x [] (inl h) = inl h
IsIn-append e x [] (inr h) = absurd h
IsIn-append e x (y ∷ xs) (inl h) = inr (inl h)
IsIn-append e x (y ∷ xs) (inr h) = elim (IsIn-append e x xs h) [
  | inl here ↦ inl here
  | inr later ↦ inr (inr later)
]

IsIn-reverse : (e : AuditEvent) (xs : List AuditEvent) → IsIn e (reverse xs) → IsIn e xs
IsIn-reverse e [] h = h
IsIn-reverse e (x ∷ xs) h =
    elim (IsIn-append e x (reverse xs) (subst (IsIn e) (reverse-cons x xs) h)) [
      | inl here ↦ inl here
      | inr later ↦ inr (IsIn-reverse e xs later)
    ]

map-append_one {ℓ ℓ'} :
    {A : Type ℓ} {B : Type ℓ'} (f : A → B) (xs : List A) (x : A)
    → map f (xs ++ x ∷ []) ≡ map f xs ++ f x ∷ []
map-append_one f [] x = refl
map-append_one f (y ∷ xs) x = ap (λ zs. f y ∷ zs) (map-append_one f xs x)

map-reverse {ℓ ℓ'} :
    {A : Type ℓ} {B : Type ℓ'} (f : A → B) (xs : List A) → map f (reverse xs) ≡ reverse (map f xs)
map-reverse f [] = refl
map-reverse f (x ∷ xs) =
    rw (reverse-cons x xs, map-append_one f (reverse xs) x, map-reverse f xs)
      (sym (reverse-cons (f x) (map f xs)))

module _ (render : Template → String) (hash : PrintedBody → String) where
  abbrev pub printed : AuditBody → PrintedBody
  printed b = record {
    id = b.id;
    timestamp = b.timestamp;
    actor = b.actor;
    kind = b.kind;
    title = b.title;
    detail = render b.detail;
    previous_hash = b.previous_hash;
  }

  abbrev pub printed_event : AuditEvent → PrintedEvent
  printed_event e = record { body = printed e.body; hash = e.hash }

  abbrev pub printed_hash : AuditBody → String
  printed_hash b = hash (printed b)

  -- A valid log, the newest entry first.
  abbrev IsChain : List AuditEvent → Type 0
  IsChain [] = Unit
  IsChain (e ∷ older) =
      (e.body.previous_hash ≡ tip (reverse older)) × (printed_hash e.body ≡ e.hash) × IsChain older

  verify→IsChain :
      (newest : List AuditEvent)
      → verify_audit printed_hash (reverse newest) ≡ true
      → IsChain newest
  unfolding verify_audit
  verify→IsChain [] h = tt
  verify→IsChain (e ∷ older) h =
      let split = verify_from-append printed_hash "genesis" (reverse older) e in
      let both = sym split ∙ (rw reverse-cons at h) in
      (
        ground (
          arith,
          both,
          tip_from-genesis (reverse older),
          string_eq.same_iff e.body.previous_hash (tip_from "genesis" (reverse older)),
        ),
        ground (arith, both, string_eq.same_iff (printed_hash e.body) e.hash),
        verify→IsChain older (ground (arith, both)),
      )

  -- Entries of the two logs that are printed differently and have one hash, or an entry of one of them
  -- that hashes to "genesis".
  abbrev pub Collision : List AuditEvent → List AuditEvent → Type 0
  Collision xs ys =
      ((a : AuditEvent) × (b : AuditEvent) × IsIn a xs
        × IsIn b ys
        × (printed a.body ≢ printed b.body)
        × (printed_hash a.body ≡ printed_hash b.body))
      ⊎ ((a : AuditEvent) × (IsIn a xs ⊎ IsIn a ys) × (printed_hash a.body ≡ "genesis"))

  Collision-after :
      (e f : AuditEvent) (xs ys : List AuditEvent) → Collision xs ys → Collision (e ∷ xs) (f ∷ ys)
  Collision-after e f xs ys (inl (a, b, here, there, other, same)) =
      inl (a, b, inr here, inr there, other, same)
  Collision-after e f xs ys (inr (a, inl here, same)) = inr (a, inl (inr here), same)
  Collision-after e f xs ys (inr (a, inr there, same)) = inr (a, inr (inr there), same)

  Collision-reverse :
      (xs ys : List AuditEvent) → Collision (reverse xs) (reverse ys) → Collision xs ys
  Collision-reverse xs ys (inl (a, b, here, there, other, same)) =
      inl (a, b, IsIn-reverse a xs here, IsIn-reverse b ys there, other, same)
  Collision-reverse xs ys (inr (a, inl here, same)) = inr (a, inl (IsIn-reverse a xs here), same)
  Collision-reverse xs ys (inr (a, inr there, same)) = inr (a, inr (IsIn-reverse a ys there), same)

  chains_agree :
      (xs ys : List AuditEvent)
      → IsChain xs
      → IsChain ys
      → tip (reverse xs) ≡ tip (reverse ys)
      → (map printed_event xs ≡ map printed_event ys) ⊎ Collision xs ys
  chains_agree [] [] hx hy h = inl refl
  chains_agree [] (f ∷ ys) hx (_, hashed, _) h =
      inr (inr (f, inr (inl refl), hashed ∙ sym (tip-reverse f ys) ∙ sym h))
  chains_agree (e ∷ xs) [] (_, hashed, _) hy h =
      inr (inr (e, inl (inl refl), hashed ∙ sym (tip-reverse e xs) ∙ h))
  chains_agree (e ∷ xs) (f ∷ ys) (prev_e, hash_e, older_e) (prev_f, hash_f, older_f) h =
      let hashes : e.hash ≡ f.hash = sym (tip-reverse e xs) ∙ h ∙ tip-reverse f ys in
      elim (PrintedBody-discrete (printed e.body) (printed f.body)) [
        | no other ↦ inr (inl (e, f, inl refl, inl refl, other, hash_e ∙ hashes ∙ sym hash_f))
        | yes same ↦
            let tips = sym prev_e ∙ ap (λ (b : PrintedBody). b.previous_hash) same ∙ prev_f in
            elim (chains_agree xs ys older_e older_f tips) [
              | inr broken ↦ inr (Collision-after e f xs ys broken)
              | inl equal ↦ inl (λ i. record { body = same i; hash = hashes i } ∷ equal i)
            ]
      ]

  -- Two logs that verify and end in the same hash are printed alike, entry by entry and hash by hash;
  -- or an entry of the one and an entry of the other are printed differently and have the same hash,
  -- or an entry of one of them hashes to "genesis".
  pub verify_audit-commits :
      (xs ys : List AuditEvent)
      → verify_audit printed_hash xs ≡ true
      → verify_audit printed_hash ys ≡ true
      → tip xs ≡ tip ys
      → (map printed_event xs ≡ map printed_event ys) ⊎ Collision xs ys
  verify_audit-commits xs ys hx hy h =
      elim (chains_agree (reverse xs) (reverse ys)
        (verify→IsChain (reverse xs) (rw (reverse-reverse xs) hx))
        (verify→IsChain (reverse ys) (rw (reverse-reverse ys) hy))
        (rw (reverse-reverse xs, reverse-reverse ys) h)) [
          | inr broken ↦ inr (Collision-reverse xs ys broken)
          | inl equal ↦ inl (
              sym (reverse-reverse (map printed_event xs))
              ∙ ap reverse
                  (sym (map-reverse printed_event xs) ∙ equal ∙ map-reverse printed_event ys)
              ∙ reverse-reverse (map printed_event ys))
        ]
