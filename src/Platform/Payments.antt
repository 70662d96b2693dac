-- ===== src/Platform/Payments.antt =====
-- The receipts of a result, in the loop of `validateRunnerResult`.
use obolos.Prelude.{ℕ, ◌+◌, ◌*◌, ◌≤◌, String, Bool, true, false, List, [], ◌∷◌, All}
use obolos.Prelude.{ltb, string_eq, list_eq, ◌≡◌, refl, arith}
use obolos.Prelude.{Result, ok, ◌>>◌, >>=-ok, throw_if, sum_of, ok_injective}
use obolos.Prelude.{suc, inl, inr, ◌⊎◌, ap, sym, subst, ◌∙◌, if◌then◌else◌, length}
use obolos.Contracts.{Thrown, Run, Asset, Receipt, network_eq, asset_eq}
use obolos.Contracts.{status_eq}
use obolos.Platform.{ResultJob}
use obolos.Platform.{option_service_eq}
use obolos.Platform.Terms.{
  invalid_result, data_request, verify_request, is_bad_data_receipt, is_bad_verification_receipt,
  verification_fee,
}
use obolos.Platform.Upload.{Spending, on_hedera}
use obolos.Platform.Upload.{recorded_data}
use obolos.Platform.Upload.{recorded_verification, add_receipt, add_receipts}
use obolos.Platform.Upload.{add_data, add_verification}

-- A check before the rest passed.
pub after_check :
    {A : Type 0} (b : Bool) (rest : Result Thrown A) {a : A}
    → (throw_if b invalid_result >> rest) ≡ ok a
    → (b ≡ false) × (rest ≡ ok a)
after_check true rest h = cc
after_check false rest h = (refl, h)

-- What the receipts of a network paid.
abbrev pub data_amount : Receipt → ℕ
data_amount receipt = if on_hedera receipt then receipt.amount_atomic else 0

abbrev pub verification_amount : Receipt → ℕ
verification_amount receipt = if on_hedera receipt then 0 else receipt.amount_atomic

-- A payment for the job within the terms of its mandate.
pub data IsOwn (job : ResultJob) (receipt : Receipt) : Type 0 where
  for_data :
      receipt.asset ≡ Asset.hbar
      → receipt.request_id ≡ data_request job
      → receipt.amount_atomic ≤ job.mandate.max_data_unit_price_atomic * length job.repos
      → IsOwn job receipt
  for_verification :
      receipt.asset ≡ Asset.usdc
      → receipt.request_id ≡ verify_request job
      → receipt.amount_atomic ≡ verification_fee job
      → IsOwn job receipt

record IsAdded (job : ResultJob) (t u : Spending) (receipt : Receipt) : Type 0 where
  data_added : u.data_spent ≡ t.data_spent + data_amount receipt
  verification_added : u.verification_spent ≡ t.verification_spent + verification_amount receipt
  own : IsOwn job receipt

pub within_price : (most n : ℕ) → ltb most n ≡ false → n ≤ most
within_price most n h = ground arith

good_data-IsOwn :
    (r : Run) (job : ResultJob) (receipt : Receipt)
    → is_bad_data_receipt r job receipt ≡ false
    → IsOwn job (recorded_data receipt)
good_data-IsOwn r job receipt h =
    for_data ((asset_eq.same_iff receipt.asset Asset.hbar).0 (ground arith))
      ((string_eq.same_iff receipt.request_id (data_request job)).0 (ground arith))
      (within_price _ receipt.amount_atomic (ground arith))

good_verification-IsOwn :
    (job : ResultJob) (receipt : Receipt)
    → is_bad_verification_receipt job receipt ≡ false
    → IsOwn job (recorded_verification receipt)
good_verification-IsOwn job receipt h =
    for_verification ((asset_eq.same_iff receipt.asset Asset.usdc).0 (ground arith))
      ((string_eq.same_iff receipt.request_id (verify_request job)).0 (ground arith)) (ground arith)

data-IsAdded :
    (r : Run) (job : ResultJob) (t : Spending) (requests : List String) (receipt : Receipt)
    → on_hedera receipt ≡ true
    → is_bad_data_receipt r job receipt ≡ false
    → IsAdded job t
        (record t { data_spent = t.data_spent + receipt.amount_atomic; requests = requests })
        (recorded_data receipt)
data-IsAdded r job t requests receipt b good = record {
  data_added = rw b (omega arith);
  verification_added = rw b (omega arith);
  own = good_data-IsOwn r job receipt good;
}

verification-IsAdded :
    (job : ResultJob) (t : Spending) (requests : List String) (receipt : Receipt)
    → on_hedera receipt ≡ false
    → is_bad_verification_receipt job receipt ≡ false
    → IsAdded job t
        (record t {
          verification_spent = t.verification_spent + receipt.amount_atomic;
          requests = requests;
        })
        (recorded_verification receipt)
verification-IsAdded job t requests receipt b good = record {
  data_added = rw b (omega arith);
  verification_added = rw b (omega arith);
  own = good_verification-IsOwn job receipt good;
}

-- Either branch of the loop's test.
branch :
    {A : Type 0} (b : Bool) (first other : Result Thrown A) {a : A}
    → (if b then first else other) ≡ ok a
    → ((b ≡ true) × (first ≡ ok a)) ⊎ ((b ≡ false) × (other ≡ ok a))
branch true first other h = inl (refl, h)
branch false first other h = inr (refl, h)

add_receipt-IsAdded :
    (r : Run) (job : ResultJob) (t : Spending) (receipt : Receipt) (added : Spending × Receipt)
    → add_receipt r job t receipt ≡ ok added
    → IsAdded job t added.0 added.1
unfolding add_receipt
add_receipt-IsAdded r job t receipt added h =
    let (fresh, looked) = after_check _ _ h in
    elim (branch (on_hedera receipt) (add_data r job t receipt) (add_verification job t receipt)
      looked) [
        | inl (b, checked) ↦
            let (good, e) = after_check _ _ checked in
            subst (λ x. IsAdded job t x.0 x.1) (ok_injective _ _ e)
              (data-IsAdded r job t _ receipt b good)
        | inr (b, checked) ↦
            let (good, paid) = after_check _ _ checked in
            let (unpaid, e) = after_check _ _ paid in
            subst (λ x. IsAdded job t x.0 x.1) (ok_injective _ _ e)
              (verification-IsAdded job t _ receipt b good)
      ]

pub record IsSummed (job : ResultJob) (t u : Spending) (receipts : List Receipt) : Type 0 where
  pub data_sum : u.data_spent ≡ t.data_spent + sum_of data_amount receipts
  pub verification_sum :
      u.verification_spent ≡ t.verification_spent + sum_of verification_amount receipts
  pub all_own : All (IsOwn job) receipts

pub add_receipts-IsSummed :
    (r : Run) (job : ResultJob) (t : Spending) (receipts : List Receipt)
    (looped : Spending × List Receipt)
    → add_receipts r job t receipts ≡ ok looped
    → IsSummed job t looped.0 looped.1
unfolding add_receipts
add_receipts-IsSummed r job t [] looped h =
    subst (λ x. IsSummed job t x.0 x.1) (ok_injective _ _ h)
      (record { data_sum = omega arith; verification_sum = omega arith; all_own = tt })
add_receipts-IsSummed r job t (receipt ∷ receipts) looped h =
    let (added, a, next) = >>=-ok (add_receipt r job t receipt) _ h in
    let (rest, b, e) = >>=-ok (add_receipts r job added.0 receipts) _ next in
    let first = add_receipt-IsAdded r job t receipt added a in
    let later = add_receipts-IsSummed r job added.0 receipts rest b in
    let d = first.data_added in
    let v = first.verification_added in
    let ds = later.data_sum in
    let vs = later.verification_sum in
    subst (λ x. IsSummed job t x.0 x.1) (ok_injective _ _ e)
      (record {
        data_sum = omega arith;
        verification_sum = omega arith;
        all_own = (first.own, later.all_own);
      })

pub add_receipts-length :
    (r : Run) (job : ResultJob) (t : Spending) (receipts : List Receipt)
    (looped : Spending × List Receipt)
    → add_receipts r job t receipts ≡ ok looped
    → length looped.1 ≡ length receipts
unfolding add_receipts
add_receipts-length r job t [] looped h = ap (λ x. length x.1) (sym (ok_injective _ _ h))
add_receipts-length r job t (receipt ∷ receipts) looped h =
    let (added, a, next) = >>=-ok (add_receipt r job t receipt) _ h in
    let (rest, b, e) = >>=-ok (add_receipts r job added.0 receipts) _ next in
    ap (λ x. length x.1) (sym (ok_injective _ _ e))
    ∙ ap (λ n. suc n) (add_receipts-length r job added.0 receipts rest b)
