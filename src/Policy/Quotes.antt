-- ===== src/Policy/Quotes.antt =====
-- What an approved quote guarantees.
use obolos.Prelude.{ℕ, ◌+◌, ◌*◌, ◌≤◌, ◌<◌, ◌≡◌, true, ◌↔◌, includes, arith, some, string_eq}
use obolos.Contracts.{Mandate, Provider, hedera_testnet, hbar}
use obolos.Policy.{assess_quote, approved, max_safe_integer}

-- The terms under which a purchase may be made without the human owner.
pub record IsWithinMandate (now : ℕ) (m : Mandate) (p : Provider) (units spent : ℕ) : Type 0 where
  pub some_unit : 1 ≤ units
  pub at_most_three : units ≤ 3
  pub positive_price : 0 < p.unit_price_atomic
  pub exact_total : p.unit_price_atomic * units + spent ≤ max_safe_integer
  pub in_force : (t : ℕ) × (m.expires_at ≡ some t) × (now < t)
  pub network : p.network ≡ hedera_testnet
  pub asset : p.asset ≡ hbar
  pub listed : includes m.allowed_providers p.id ≡ true
  pub price : p.unit_price_atomic ≤ m.max_data_unit_price_atomic
  pub budget : spent + p.unit_price_atomic * units ≤ m.data_budget_atomic

approved→IsWithinMandate :
    (now : ℕ) (m : Mandate) (p : Provider) (units spent : ℕ)
    → assess_quote now m p units spent ≡ approved
    → IsWithinMandate now m p units spent
unfolding assess_quote
approved→IsWithinMandate now m p units spent h = ground arith

IsWithinMandate→approved :
    (now : ℕ) (m : Mandate) (p : Provider) (units spent : ℕ)
    → IsWithinMandate now m p units spent
    → assess_quote now m p units spent ≡ approved
unfolding assess_quote
IsWithinMandate→approved now m p units spent h = ground arith

-- A quote is approved exactly when the purchase of one to three units keeps within the mandate:
-- a positive price, a total that a number holds exactly, an expiry that is a date still ahead,
-- HBAR on the Hedera testnet, a listed provider, and both the price limit and the budget kept.
pub approved_iff :
    (now : ℕ) (m : Mandate) (p : Provider) (units spent : ℕ)
    → (assess_quote now m p units spent ≡ approved) ↔ IsWithinMandate now m p units spent
approved_iff now m p units spent =
    (approved→IsWithinMandate now m p units spent, IsWithinMandate→approved now m p units spent)
