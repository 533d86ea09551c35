-- ===== src/Pool/Shares/Roundtrip.antt =====
-- A deposit that is withdrawn at once (pool-manager/src/liquidity/commands.rs).
use native.Mathlib.Nat.{mul-le-mul_right, le_of_mul-le-mul_right}
use stratosphere_contracts.Base.{
  ℕ, ◌+◌, ◌*◌, ◌≤◌, ◌<◌, ◌≡◌, refl, sym, Bool, false, some, List, [], ◌∷◌, map, any, ltb, arith, ok,
  inl, inr, Bool-cases,
}
use stratosphere_contracts.Base.Text.{Text, text_eq, text_eq_iff, text_eq_refl}
use stratosphere_contracts.Base.Coins.{Coin, coin_amount, amount_of}
use stratosphere_contracts.Base.Rounding.{from_ratio_floor}
use stratosphere_contracts.Pool.Data.{constant_product, External}
use stratosphere_contracts.Pool.Creation.{occurrences, any_repeated}
use stratosphere_contracts.Pool.Liquidity.{add_deposits, compute_refunds, later_share}
use stratosphere_contracts.Pool.Books.{Lawful}
use stratosphere_contracts.Pool.Covered.Liquidity.{add_deposits-amount_of}
use stratosphere_contracts.Pool.Shares.Refunds.{compute_refunds-le, ratio_mul-le}
use stratosphere_contracts.Pool.Shares.Minting.{asset_of, later_share-le}

abbrev pub denoms_of : List Coin → List Text
denoms_of coins = map (λ c. c.denom) coins

any-false :
    (p : Text → Bool) (xs : List Text) (y : Text)
    → any p xs ≡ false
    → 0 < occurrences y xs
    → p y ≡ false
unfolding occurrences
any-false p [] y h k = ground arith
any-false p (x ∷ xs) y h k = elim (Bool-cases (text_eq x y)) [
  | inl e ↦ rw (sym ((text_eq_iff x y).0 e)) (ground arith)
  | inr e ↦ any-false p xs y (ground arith) (ground arith)
]

once : (d : Text) (ds : List Text) → any_repeated ds ≡ false → occurrences d ds ≤ 1
unfolding any_repeated
once d ds h = elim (Bool-cases (ltb 0 (occurrences d ds))) [
  | inl e ↦
      let few = any-false (λ asset. ltb 1 (occurrences asset ds)) ds d h (ground arith) in
      ground arith
  | inr e ↦ ground arith
]

no_amount : (d : Text) (cs : List Coin) → occurrences d (denoms_of cs) ≡ 0 → amount_of d cs ≡ 0
unfolding occurrences amount_of coin_amount
no_amount d [] h = refl
no_amount d (c ∷ cs) h = ground (arith, no_amount d cs)

one_amount :
    (d : Text) (cs : List Coin) {a : Coin}
    → occurrences d (denoms_of cs) ≤ 1
    → asset_of d cs ≡ some a
    → amount_of d cs ≡ a.amount
unfolding occurrences amount_of coin_amount
one_amount d [] h e = cc
one_amount d (c ∷ cs) {a = a} h e = grind (arith, no_amount d cs, one_amount d cs {a = a})

refund_bound :
    (a dep t s r : ℕ) → 0 < t + s → s * a ≤ dep * t → r * (t + s) ≤ (a + dep) * s → r ≤ dep
refund_bound a dep t s r pos h k = le_of_mul-le-mul_right {k = t + s} (omega arith) pos

le_times : (a b c k : ℕ) → a ≤ b * k → b ≤ c → a ≤ c * k
le_times a b c k h e = omega (arith, mul-le-mul_right k e)

first_in : (c e : Coin) → c.amount ≤ amount_of c.denom (c ∷ e ∷ [])
unfolding amount_of coin_amount
first_in c e = ground (arith, text_eq_refl c.denom)

second_in : (c e : Coin) → e.amount ≤ amount_of e.denom (c ∷ e ∷ [])
unfolding amount_of coin_amount
second_in c e = ground (arith, text_eq_refl e.denom)

module _ (x : External) (law : Lawful x) (pool_assets new_assets refunds : List Coin)
    (total_share share ratio : ℕ) where
  refunded :
      (d : Text) (deposits : List Coin) (c a : Coin)
      → any_repeated (denoms_of pool_assets) ≡ false
      → asset_of d pool_assets ≡ some a
      → share * a.amount ≤ c.amount * total_share
      → c.amount ≤ amount_of d deposits
      → add_deposits deposits pool_assets ≡ ok new_assets
      → x.decimal256.from_ratio share (total_share + share) ≡ some ratio
      → compute_refunds x ratio new_assets ≡ ok refunds
      → amount_of d refunds ≤ amount_of d deposits
  refunded d deposits c a single found minted within added rated computed =
      let held = one_amount d pool_assets (once d (denoms_of pool_assets) single) found in
      let new = add_deposits-amount_of d deposits pool_assets new_assets added in
      let drawn =
        compute_refunds-le x law.decimal256_law d ratio share (total_share + share) new_assets
          refunds (ratio_mul-le x law.decimal256_law share (total_share + share) rated) computed in
      let positive =
        (from_ratio_floor 256 x.decimal256 law.decimal256_law share (total_share + share)
          rated).1 in
      refund_bound (amount_of d pool_assets) (amount_of d deposits) total_share share
        (amount_of d refunds) positive
        (rw held
          (le_times (share * a.amount) c.amount (amount_of d deposits) total_share minted within))
        (rw (sym new) drawn)

-- With lawful libraries, where no denom stands twice in a constant product pool, the LP
-- tokens of a later deposit of two of its assets refund, withdrawn at once, at most what was
-- deposited of each of the two.
pub deposit-withdraw :
    (x : External) (law : Lawful x) (pool_assets new_assets refunds : List Coin)
    (d_0 d_1 a_0 a_1 : Coin) (total_share share ratio : ℕ)
    → any_repeated (denoms_of pool_assets) ≡ false
    → asset_of d_0.denom pool_assets ≡ some a_0
    → asset_of d_1.denom pool_assets ≡ some a_1
    → later_share x constant_product pool_assets (d_0 ∷ d_1 ∷ []) total_share ≡ ok share
    → add_deposits (d_0 ∷ d_1 ∷ []) pool_assets ≡ ok new_assets
    → x.decimal256.from_ratio share (total_share + share) ≡ some ratio
    → compute_refunds x ratio new_assets ≡ ok refunds
    → (amount_of d_0.denom refunds ≤ amount_of d_0.denom (d_0 ∷ d_1 ∷ []))
      × (amount_of d_1.denom refunds ≤ amount_of d_1.denom (d_0 ∷ d_1 ∷ []))
deposit-withdraw x law assets new refunds d_0 d_1 a_0 a_1 total share ratio single e_0 e_1 minted
      added rated computed =
    let (le_0, le_1) = later_share-le x assets d_0 d_1 [] total share a_0 a_1 minted e_0 e_1 in
    (
      refunded x law assets new refunds total share ratio d_0.denom (d_0 ∷ d_1 ∷ []) d_0 a_0 single
          e_0 le_0 (first_in d_0 d_1) added rated computed,
      refunded x law assets new refunds total share ratio d_1.denom (d_0 ∷ d_1 ∷ []) d_1 a_1 single
          e_1 le_1 (second_in d_0 d_1) added rated computed,
    )
