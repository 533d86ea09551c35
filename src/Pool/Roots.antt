-- ===== src/Pool/Roots.antt =====
-- What the Newton iteration for `y` finds (calculate_stableswap_y of pool-manager/src/helpers.rs).
use native.Mathlib.Nat.{lt-div-mul-add}
use stratosphere_contracts.Base.Rounding.{div_mul-le}
use stratosphere_contracts.Base.{
  ℕ, suc, ◌+◌, ◌-◌, ◌*◌, ◌/◌, ◌≤◌, ◌<◌, ◌≡◌, refl, ap, sym, subst, true, inl, inr, ◌⊎◌, arith, ok,
  ok-injective, >>=-eq-ok, ok_or, checked_add, checked_mul, checked_div, checked_multiply_ratio,
  try_into,
}
use stratosphere_contracts.Pool.Data.{
  External, overflow_error, divide_by_zero_error, checked_multiply_ratio_error, swap_overflow_error,
}
use stratosphere_contracts.Pool.Stable.{
  near, newton, next_stableswap_y, calculate_stableswap_d, calculate_stableswap_y,
  to_uint256_with_precision, new_pool_sum, StableSwapDirection,
}
use stratosphere_contracts.Pool.Newton.{newton-near}

-- `y` is, rounded down, the root of y² + b y = d y + c, up to one unit of the equation.
unfoldable pub IsRoot : ℕ → ℕ → ℕ → ℕ → Type 0
IsRoot d b c y = (y * y + b * y ≤ d * y + c + 1) × (d * suc y + c < suc y * suc y + b * suc y)

-- A round from `p` gives `y`, where the two are at most 1 apart and `D` is 2p + b - d.
round_same-IsRoot :
    (p D b c d : ℕ) → D + d ≡ p + p + b → p * D ≤ p * p + c → p * p + c < p * D + D → IsRoot d b c p
unfolding IsRoot
round_same-IsRoot p D b c d sum low high = let e = ap (λ t. p * t) sum in (omega arith, omega arith)

round_above-IsRoot :
    (p D b c d : ℕ)
    → D + d ≡ p + p + b
    → suc p * D ≤ p * p + c
    → p * p + c < suc p * D + D
    → IsRoot d b c (suc p)
unfolding IsRoot
round_above-IsRoot p D b c d sum low high =
    let e = ap (λ t. p * t) sum in (omega arith, omega arith)

round_below-IsRoot :
    (y D b c d : ℕ)
    → D + d ≡ suc y + suc y + b
    → y * D ≤ suc y * suc y + c
    → suc y * suc y + c < y * D + D
    → IsRoot d b c y
unfolding IsRoot
round_below-IsRoot y D b c d sum low high =
    let e = ap (λ t. y * t) sum in (omega arith, omega arith)

near-cases : (y p : ℕ) → near 1 y p ≡ true → (y ≡ p) ⊎ ((y ≡ suc p) ⊎ (p ≡ suc y))
unfolding near
near-cases y p h = ground arith

next_stableswap_y-eq :
    (d b c p y : ℕ)
    → next_stableswap_y d b c p ≡ ok y
    → (D : ℕ) × (D + d ≡ p + p + b) × (0 < D) × (y ≡ (p * p + c) / D)
unfolding next_stableswap_y
next_stableswap_y-eq d b c p y h = (p + p + b - d, ground arith, ground arith, ground arith)

-- A round whose value is near the one before it finds a root.
round-IsRoot :
    (d b c p y : ℕ) → next_stableswap_y d b c p ≡ ok y → near 1 y p ≡ true → IsRoot d b c y
round-IsRoot d b c p y round close =
    let (D, sum, positive, quotient) = next_stableswap_y-eq d b c p y round in
    let low : y * D ≤ p * p + c = rw quotient (div_mul-le (p * p + c) D positive) in
    let high : p * p + c < y * D + D = rw quotient (lt-div-mul-add {a = p * p + c} positive) in
    elim (near-cases y p close) [
      | inl same ↦
          round_same-IsRoot y D b c d (subst (λ q. D + d ≡ q + q + b) (sym same) sum)
            (subst (λ q. y * D ≤ q * q + c) (sym same) low)
            (subst (λ q. q * q + c < y * D + D) (sym same) high)
      | inr (inl higher) ↦
          subst (λ q. IsRoot d b c q) (sym higher)
            (round_above-IsRoot p D b c d sum (subst (λ q. q * D ≤ p * p + c) higher low)
              (subst (λ q. p * p + c < q * D + D) higher high))
      | inr (inr lower) ↦
          round_below-IsRoot y D b c d (subst (λ q. D + d ≡ q + q + b) lower sum)
            (subst (λ q. y * D ≤ q * q + c) lower low)
            (subst (λ q. q * q + c < y * D + D) lower high)
    ]

newton-IsRoot :
    (d b c n start y : ℕ) → newton (next_stableswap_y d b c) (ok 1) n start ≡ ok y → IsRoot d b c y
newton-IsRoot d b c n start y h =
    let (p, unit, round, one, close) = newton-near (next_stableswap_y d b c) (ok 1) n start y h in
    round-IsRoot d b c p y round (subst (λ u. near u y p ≡ true) (ok-injective (sym one)) close)

ratio-eq :
    (a n d r : ℕ)
    → ok_or (checked_multiply_ratio 256 a n d) checked_multiply_ratio_error ≡ ok r
    → r ≡ a * n / d
ratio-eq a n d r h = ground arith

-- The coefficients that the computation gives to the iteration.
coefficients :
    (amp n d pool_sum ann coins first ann_n c share b : ℕ)
    → ok_or (checked_mul 256 amp n) overflow_error ≡ ok ann
    → ok_or (checked_mul 256 pool_sum n) overflow_error ≡ ok coins
    → ok_or (checked_multiply_ratio 256 d d coins) checked_multiply_ratio_error ≡ ok first
    → ok_or (checked_mul 256 ann n) overflow_error ≡ ok ann_n
    → ok_or (checked_multiply_ratio 256 first d ann_n) checked_multiply_ratio_error ≡ ok c
    → ok_or (checked_div d ann) divide_by_zero_error ≡ ok share
    → ok_or (checked_add 256 pool_sum share) overflow_error ≡ ok b
    → (b ≡ pool_sum + d / (amp * n)) × (c ≡ ((d * d) / (pool_sum * n) * d) / (amp * n * n))
coefficients amp n d pool_sum ann coins first ann_n c share b e0 e5 e6 e7 e8 e9 e10 =
    let ann_eq : ann ≡ amp * n = ground arith in
    let coins_eq : coins ≡ pool_sum * n = ground arith in
    let ann_n_eq : ann_n ≡ ann * n = ground arith in
    let share_eq : share ≡ d / ann = ground arith in
    let b_eq : b ≡ pool_sum + share = ground arith in
    let first_eq = ratio-eq d d coins first e6 in
    let c_eq = ratio-eq first d ann_n c e8 in
    (rw (b_eq, share_eq, ann_eq) refl, rw (c_eq, first_eq, coins_eq, ann_n_eq, ann_eq) refl)

solved :
    (d b c b' c' n start root y : ℕ)
    → b ≡ b'
    → c ≡ c'
    → newton (next_stableswap_y d b c) (ok 1) n start ≡ ok root
    → ok_or (try_into 128 root) swap_overflow_error ≡ ok y
    → IsRoot d b' c' y
solved d b c b' c' n start root y b_eq c_eq h e =
    let same : root ≡ y = ground arith in
    subst (λ r. IsRoot d b' c' r) same
      (subst (λ k. IsRoot d b' k root) c_eq
        (subst (λ k. IsRoot d k c root) b_eq (newton-IsRoot d b c n start root h)))

-- A balance y that calculate_stableswap_y gives solves y * y + b * y = d * y + c up to one
-- unit and rounded down: the left side exceeds the right by at most 1 at y, and exceeds it
-- at y + 1. Here d is the pool's computed invariant, b the other balance after the swap with
-- d over the amplification, and c the constant of the stableswap equation, each rounded
-- down.
pub calculate_stableswap_y-IsRoot :
    (x : External) (n_coins offer_pool ask_pool offer_amount amp ask_precision : ℕ)
    (direction : StableSwapDirection) (y : ℕ)
    → calculate_stableswap_y x n_coins offer_pool ask_pool offer_amount amp ask_precision direction
      ≡ ok y
    → (d_decimal : ℕ) × (d : ℕ) × (sum_decimal : ℕ) × (pool_sum : ℕ) × (calculate_stableswap_d x
          n_coins offer_pool ask_pool amp ask_precision
        ≡ ok d_decimal)
      × (to_uint256_with_precision d_decimal ask_precision ≡ ok d)
      × (new_pool_sum x direction offer_pool ask_pool offer_amount ≡ ok sum_decimal)
      × (to_uint256_with_precision sum_decimal ask_precision ≡ ok pool_sum)
      × IsRoot d
          (pool_sum + d / (amp * n_coins))
          (((d * d) / (pool_sum * n_coins) * d) / (amp * n_coins * n_coins))
          y
unfolding calculate_stableswap_y
calculate_stableswap_y-IsRoot x n offer ask amount amp precision direction y h =
    let (ann, e0, h0) = >>=-eq-ok (ok_or (checked_mul 256 amp n) overflow_error) _ h in
    let (d_decimal, e1, h1) = >>=-eq-ok (calculate_stableswap_d x n offer ask amp precision) _ h0 in
    let (d, e2, h2) = >>=-eq-ok (to_uint256_with_precision d_decimal precision) _ h1 in
    let (sum_decimal, e3, h3) = >>=-eq-ok (new_pool_sum x direction offer ask amount) _ h2 in
    let (pool_sum, e4, h4) = >>=-eq-ok (to_uint256_with_precision sum_decimal precision) _ h3 in
    let (coins, e5, h5) = >>=-eq-ok (ok_or (checked_mul 256 pool_sum n) overflow_error) _ h4 in
    let (first, e6, h6) =
      >>=-eq-ok (ok_or (checked_multiply_ratio 256 d d coins) checked_multiply_ratio_error) _ h5 in
    let (ann_n, e7, h7) = >>=-eq-ok (ok_or (checked_mul 256 ann n) overflow_error) _ h6 in
    let (c, e8, h8) =
      >>=-eq-ok (ok_or (checked_multiply_ratio 256 first d ann_n) checked_multiply_ratio_error) _
        h7 in
    let (share, e9, h9) = >>=-eq-ok (ok_or (checked_div d ann) divide_by_zero_error) _ h8 in
    let (b, e10, h10) = >>=-eq-ok (ok_or (checked_add 256 pool_sum share) overflow_error) _ h9 in
    let (root, e11, h11) = >>=-eq-ok (newton (next_stableswap_y d b c) (ok 1) 32 d) _ h10 in
    let (b_eq, c_eq) =
      coefficients amp n d pool_sum ann coins first ann_n c share b e0 e5 e6 e7 e8 e9 e10 in
    (
      d_decimal,
      d,
      sum_decimal,
      pool_sum,
      e1,
      e2,
      e3,
      e4,
      solved d b c _ _ 32 d root y b_eq c_eq e11 h11,
    )
