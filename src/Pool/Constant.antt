-- ===== src/Pool/Constant.antt =====
-- The amounts of a swap (compute_swap of pool-manager/src/helpers.rs): the fees come out of the
-- return amount, and a constant product pool does not lose value.
use native.Mathlib.Nat.{mul-le-mul_right}
use stratosphere_contracts.Base.{
  ℕ, ◌+◌, ◌-◌, ◌*◌, ◌≤◌, ◌<◌, ◌≡◌, arith, ok, ◌>>=◌, >>=-eq-ok, leb, Bool-cases, inl, inr, suc, sym,
  subst, ok_or, ok_or-eq-ok, ok-injective, checked_mul, checked_add, leb→le, leb→lt,
}
use stratosphere_contracts.Base.Decimals.{IsFixedPoint}
use stratosphere_contracts.Base.Rounding.{from_ratio_floor}
use stratosphere_contracts.Pool.Data.{panic, PoolFee, PoolType, constant_product, External}
use stratosphere_contracts.Pool.Compute.{
  FeesComputation, SwapComputation, compute_swap, compute_fees, get_swap_computation, quote,
  quote_constant_product, return_constant_product,
}

-- All that a swap takes out of the gross return amount.
abbrev pub gross : SwapComputation → ℕ
gross c =
    c.return_amount + c.swap_fee_amount + c.protocol_fee_amount + c.burn_fee_amount
    + c.extra_fees_amount

pub get_swap_computation-gross :
    (amount spread : ℕ) (fees : FeesComputation) (c : SwapComputation)
    → get_swap_computation amount spread fees ≡ ok c
    → gross c ≡ amount
unfolding get_swap_computation
get_swap_computation-gross amount spread fees c h = ground arith

pub get_swap_computation-spread :
    (amount spread : ℕ) (fees : FeesComputation) (c : SwapComputation)
    → get_swap_computation amount spread fees ≡ ok c
    → c.spread_amount ≡ spread
unfolding get_swap_computation
get_swap_computation-spread amount spread fees c h = ground arith

module _ (x : External) where
  -- The return amount of a computed swap and its four fees add up to the quoted return
  -- before fees, and its spread is the quoted one, in pools of either type.
  pub compute_swap-gross :
      (n_coins offer_pool ask_pool offer_amount : ℕ) (fees : PoolFee) (kind : PoolType)
      (offer_precision ask_precision : ℕ) (c : SwapComputation)
      → compute_swap x n_coins offer_pool ask_pool offer_amount fees kind offer_precision
          ask_precision
        ≡ ok c
      → quote x n_coins offer_pool ask_pool offer_amount kind offer_precision ask_precision
        ≡ ok (gross c, c.spread_amount)
  unfolding compute_swap
  compute_swap-gross n_coins op ap o fees kind p q c h =
      let (quoted, quoting, h1) =
        >>=-eq-ok (quote x n_coins op ap o kind p q)
          (λ quoted. compute_fees x fees quoted.0 >>= get_swap_computation quoted.0 quoted.1) h in
      let (computed, _, h2) =
        >>=-eq-ok (compute_fees x fees quoted.0) (get_swap_computation quoted.0 quoted.1) h1 in
      grind (
        arith,
        get_swap_computation-gross quoted.0 quoted.1 computed c h2,
        get_swap_computation-spread quoted.0 quoted.1 computed c h2,
      )

-- Taking at most its share out of one factor, with the offer added to the other, keeps the product.
kept_of_rest : (a o out m : ℕ) → out * (a + o) ≤ (out + m) * o → a * (out + m) ≤ (a + o) * m
kept_of_rest a o out m h = omega arith

overdrawn : (a b o r : ℕ) → r * (a + o) ≤ b * o → b < r → a * b ≤ 0
overdrawn a b o r h k =
    let more : suc b * (a + o) ≤ r * (a + o) = mul-le-mul_right (a + o) k in
    let none : a ≡ 0 = omega arith in rw none (omega arith)

pub product_kept : (a b o r out : ℕ) → r * (a + o) ≤ b * o → out ≤ r → a * b ≤ (a + o) * (b - out)
product_kept a b o r out h k = elim (Bool-cases (leb out b)) [
  | inl le ↦
      let m : (out + (b - out)) ≡ b = grind (arith, leb→le out b) in
      let h1 : out * (a + o) ≤ (out + (b - out)) * o =
        rw m (omega (arith, mul-le-mul_right (a + o) k)) in
      let h2 : a * (out + (b - out)) ≤ (a + o) * (b - out) = kept_of_rest a o out (b - out) h1 in
      subst (λ c. a * c ≤ (a + o) * (b - out)) m h2
  | inr gt ↦ omega (arith, overdrawn a b o r h (omega (arith, leb→lt out b gt)))
]

module _ (x : External) (law : IsFixedPoint 256 x.decimal256) where
  return_constant_product-le :
      (op ap o amount : ℕ)
      → return_constant_product x op ap o ≡ ok amount
      → amount * (op + o) ≤ ap * o
  unfolding return_constant_product
  return_constant_product-le op ap o amount h =
      let (product, e1, r1) = >>=-eq-ok (ok_or (checked_mul 256 ap o) panic) _ h in
      let (sum, e2, r2) = >>=-eq-ok (ok_or (checked_add 256 op o) panic) _ r1 in
      let (price, e3, r3) =
        >>=-eq-ok {B = ℕ} (ok_or (x.decimal256.from_ratio product sum) panic)
          (λ price. ok (x.decimal256.to_uint_floor price)) r2 in
      let floor =
        from_ratio_floor 256 x.decimal256 law product sum
          (ok_or-eq-ok (x.decimal256.from_ratio product sum) panic e3) in
      let p : product ≡ ap * o = ground arith in
      let s : sum ≡ op + o = ground arith in
      let amount_eq : x.decimal256.to_uint_floor price ≡ amount = ok-injective r3 in
      rw (sym p) (rw (sym s) (rw (sym amount_eq) (floor.0)))

  pub quote_constant_product-le :
      (op ap o amount spread : ℕ)
      → quote_constant_product x op ap o ≡ ok (amount, spread)
      → amount * (op + o) ≤ ap * o
  unfolding quote_constant_product
  quote_constant_product-le op ap o amount spread h =
      let (gross_amount, returned, rest) = >>=-eq-ok (return_constant_product x op ap o) _ h in
      let same : gross_amount ≡ amount = ground arith in
      return_constant_product-le op ap o amount (rw (sym same) returned)

  -- In a constant product pool, with lawful decimals, a computed swap does not lower the
  -- product of the two reserves: the offer is added to one, and the return amount, the
  -- protocol fee and the burn fee are taken out of the other.
  pub compute_swap-product :
      (n_coins offer_pool ask_pool offer_amount : ℕ) (fees : PoolFee)
      (offer_precision ask_precision : ℕ) (c : SwapComputation)
      → compute_swap x n_coins offer_pool ask_pool offer_amount fees constant_product
          offer_precision ask_precision
        ≡ ok c
      → offer_pool * ask_pool
        ≤ (offer_pool + offer_amount)
          * (ask_pool - (c.return_amount + c.protocol_fee_amount + c.burn_fee_amount))
  unfolding quote
  compute_swap-product n op ap o fees p q c h =
      product_kept op ap o (gross c) (c.return_amount + c.protocol_fee_amount + c.burn_fee_amount)
        (quote_constant_product-le op ap o (gross c) c.spread_amount
          (compute_swap-gross x n op ap o fees constant_product p q c h))
        (omega arith)
