-- ===== src/Economy/Receipts.antt =====
-- `receiptCost` of src/lib/economy/accounting-draft.ts: the cost of a delivery's transaction, from
-- the native unit of 18 decimals to micro USDC, rounded up.
use native.Mathlib.Nat.{div-mul-le_self, lt-div-mul-add}
use obolos.Prelude.{ℕ, ◌+◌, ◌*◌, ◌-◌, ◌/◌, ◌≤◌, ◌<◌, ◌≡◌, String, Bool, false, ◌||◌, not}
use obolos.Prelude.{
  Option, none, some, Result, ok, err, ◌==◌, list_eq, nat_eq, string_eq, if◌then◌else◌,
}
use obolos.Prelude.{ltb, arith, is_hex_codes, List}
use obolos.Engine.Create.{lower_codes}

-- The integers of the receipt are not negative, as the source tests first.
pub record TransactionReceipt : Type 0 where
  pub transaction_hash : String
  pub sender : String
  pub to : Option String
  pub status : String
  pub block_number : ℕ
  pub gas_used : ℕ
  pub effective_gas_price : ℕ

pub record ExpectedDelivery : Type 0 where
  pub seller : String
  pub ledger : String
  pub transaction_hash : String
  pub finalized_block : ℕ

pub record ReceiptCost : Type 0 where
  pub transaction_hash : List ℕ
  pub native_atomic : ℕ
  pub amount_atomic : ℕ

abbrev pub scale : ℕ
scale = 1000000000000

abbrev pub same_address : Option String → String → Bool
same_address none expected = false
same_address (some to) expected = lower_codes to == lower_codes expected

unfoldable pub rounded_up : ℕ → ℕ
rounded_up native = (native + scale - 1) / scale

unfoldable pub receipt_cost : TransactionReceipt → ExpectedDelivery → Result String ReceiptCost
unfolding rounded_up
receipt_cost r expected =
    let native = r.gas_used * r.effective_gas_price in
    if not (lower_codes r.transaction_hash == lower_codes expected.transaction_hash)
      || not (lower_codes r.sender == lower_codes expected.seller)
      || not (same_address r.to expected.ledger)
      || not (r.status == "success")
      || ltb expected.finalized_block r.block_number
    then err "Cost observation requires the finalized seller delivery transaction."
    else if not (is_hex_codes 64 (lower_codes r.transaction_hash))
    then err "Invalid string"
    else ok (record {
      transaction_hash = lower_codes r.transaction_hash;
      native_atomic = native;
      amount_atomic = rounded_up native;
    })

pub record IsCost (r : TransactionReceipt) (expected : ExpectedDelivery) (c : ReceiptCost)
    : Type 0 where
  pub native : c.native_atomic ≡ r.gas_used * r.effective_gas_price
  pub covered : c.native_atomic ≤ c.amount_atomic * scale
  pub tight : c.amount_atomic * scale < c.native_atomic + scale
  pub final : r.block_number ≤ expected.finalized_block
  pub succeeded : r.status ≡ "success"

rounded_up-bounds :
    (native : ℕ)
    → (native ≤ rounded_up native * scale) × (rounded_up native * scale < native + scale)
unfolding rounded_up
rounded_up-bounds native =
    let positive : 0 < scale = omega arith in
    (
      omega (arith, lt-div-mul-add {a = native + scale - 1} positive),
      omega (arith, div-mul-le_self (native + scale - 1) scale),
    )

-- A cost is of a successful transaction in a final block, and it is the gas paid, rounded up to the
-- next micro USDC: it covers what was paid and exceeds it by less than one.
pub receipt_cost-IsCost :
    (r : TransactionReceipt) (expected : ExpectedDelivery) (c : ReceiptCost)
    → receipt_cost r expected ≡ ok c
    → IsCost r expected c
unfolding receipt_cost
receipt_cost-IsCost r expected c e =
    let (covered, tight) = rounded_up-bounds (r.gas_used * r.effective_gas_price) in
    record {
      native = ground arith;
      covered = ground (arith, covered);
      tight = ground (arith, tight);
      final = ground arith;
      succeeded = ground (arith, string_eq.same_iff r.status "success");
    }
