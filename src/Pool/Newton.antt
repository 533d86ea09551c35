-- ===== src/Pool/Newton.antt =====
-- The loops of the stableswap and of the router (pool-manager/src/helpers.rs, router/commands.rs),
-- against what they are for.
use stratosphere_contracts.Base.{
  ℕ, zero, suc, ◌≡◌, refl, sym, Bool, true, ◌&&◌, not, is_empty, is_ok, List, [], ◌∷◌, inl, inr,
  Bool-cases, arith, Result, ok, >>=-eq-ok,
}
use stratosphere_contracts.Base.Text.{Text, text_eq, text_eq_refl}
use stratosphere_contracts.Pool.Data.{ContractError, SwapOperation}
use stratosphere_contracts.Pool.Stable.{near, newton}
use stratosphere_contracts.Pool.Router.{follow_operations, assert_operations}

-- A value that a Newton iteration of the stableswap gives is the next one of a value that is
-- near it by the precision.
pub newton-near :
    (next : ℕ → Result ContractError ℕ) (precision : Result ContractError ℕ) (n start value : ℕ)
    → newton next precision n start ≡ ok value
    → (previous : ℕ) × (unit : ℕ) × (next previous ≡ ok value)
      × (precision ≡ ok unit)
      × (near unit value previous ≡ true)
unfolding newton
newton-near next precision zero start value h = cc
newton-near next precision (suc n) start value h =
    let (v, e1, h1) = >>=-eq-ok (next start) _ h in
    let (unit, e2, h2) = >>=-eq-ok precision _ h1 in
    elim (Bool-cases (near unit v start)) [
      | inl close ↦
          let same : v ≡ value = ground arith in
          (start, unit, rw (sym same) e1, e2, rw (sym same) close)
      | inr far ↦ newton-near next precision n v value (ground arith)
    ]

-- Each operation takes what the one before it gives.
unfoldable pub consecutive : List SwapOperation → Bool
consecutive [] = true
consecutive (o ∷ []) = true
consecutive (o ∷ next ∷ os) =
    text_eq next.token_in_denom o.token_out_denom && consecutive (next ∷ os)

follow_operations-consecutive :
    (previous : Text) (o : SwapOperation) (os : List SwapOperation)
    → is_ok (follow_operations previous (o ∷ os))
      ≡ text_eq o.token_in_denom previous && consecutive (o ∷ os)
unfolding follow_operations consecutive
follow_operations-consecutive previous o [] = ground arith
follow_operations-consecutive previous o (next ∷ os) =
    ground (arith, follow_operations-consecutive o.token_out_denom next os)

-- The check of a route succeeds exactly if there is an operation and each one takes the
-- denom that the one before it gives.
pub assert_operations-consecutive :
    (os : List SwapOperation) → is_ok (assert_operations os) ≡ not (is_empty os) && consecutive os
unfolding assert_operations
assert_operations-consecutive [] = refl
assert_operations-consecutive (o ∷ os) =
    rw (follow_operations-consecutive o.token_in_denom o os)
      (rw (text_eq_refl o.token_in_denom) refl)
