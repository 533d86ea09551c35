-- ===== src/Pool/Deposits.antt =====
-- The stableswap invariant of a deposit: compute_d, compute_next_d, the LP amount of a deposit and
-- compute_y of pool-manager/src/helpers.rs.
use stratosphere_contracts.Base.{
  ℕ, zero, suc, ◌-◌, ◌%◌, ◌^◌, Option, none, some, List, [], ◌∷◌, leb, ◌==◌, if◌then◌else◌, length,
  Result, ok, ◌>>=◌, ok_or, checked_add, checked_mul, checked_sub, checked_div, try_into,
}
use stratosphere_contracts.Base.Text.{codes}
use stratosphere_contracts.Base.Coins.{Coin}
use stratosphere_contracts.Pool.Data.{
  ContractError, panic, overflow_error, divide_by_zero_error, conversion_overflow_error,
}
use stratosphere_contracts.Pool.Stable.{near}

-- The liquidity side works on 512-bit integers and unwraps every result, the `None` of
-- `compute_next_d` too: its one error is the abort.
abbrev unwrap : Option ℕ → Result ContractError ℕ
unwrap value = ok_or value panic

unfoldable pub compute_next_d : ℕ → ℕ → ℕ → ℕ → ℕ → Result ContractError ℕ
compute_next_d amp_factor d_init d_prod sum_x n_coins = do
  ann ← unwrap (checked_mul 64 amp_factor (n_coins % 2 ^ 64))
  leverage ← unwrap (checked_mul 512 sum_x ann)
  d_prod_coins ← unwrap (checked_mul 512 d_prod n_coins)
  weighted ← unwrap (checked_add 512 d_prod_coins leverage)
  numerator ← unwrap (checked_mul 512 d_init weighted)
  ann_less_one ← unwrap (checked_sub ann 1)
  scaled ← unwrap (checked_mul 512 d_init ann_less_one)
  coins_and_one ← unwrap (checked_add 128 n_coins 1)
  rest ← unwrap (checked_mul 512 d_prod coins_and_one)
  denominator ← unwrap (checked_add 512 scaled rest)
  unwrap (checked_div numerator denominator)

-- `d_prod`: the current value times itself over each of the amounts
unfoldable pub fold_d_prod : ℕ → List ℕ → ℕ → Result ContractError ℕ
fold_d_prod d [] d_prod = ok d_prod
fold_d_prod d (amount ∷ amounts) d_prod = do
  product ← unwrap (checked_mul 512 d_prod d)
  quotient ← unwrap (checked_div product amount)
  fold_d_prod d amounts quotient

unfoldable pub next_d : ℕ → List ℕ → ℕ → ℕ → ℕ → Result ContractError ℕ
unfolding fold_d_prod compute_next_d
next_d amp_factor amount_times_coins sum_x n_coins d = do
  d_prod ← fold_d_prod d amount_times_coins d
  compute_next_d amp_factor d d_prod sum_x n_coins

-- The loop ends early when the value moves by one or less, and keeps the last value otherwise.
unfoldable pub settle : (ℕ → Result ContractError ℕ) → ℕ → ℕ → Result ContractError ℕ
unfolding near
settle next zero d = ok d
settle next (suc n) d_prev = do
  d ← next d_prev
  let rest = settle next n d
  if near 1 d d_prev then ok d else rest

unfoldable pub sum_amounts : ℕ → List Coin → ℕ → Result ContractError ℕ
sum_amounts w [] acc = ok acc
sum_amounts w (coin ∷ coins) acc = do
  sum ← unwrap (checked_add w acc coin.amount)
  sum_amounts w coins sum

unfoldable pub times_coins : ℕ → List Coin → Result ContractError (List ℕ)
times_coins n_coins [] = ok []
times_coins n_coins (coin ∷ coins) = do
  amount ← unwrap (checked_mul 128 coin.amount n_coins)
  amounts ← times_coins n_coins coins
  ok (amount ∷ amounts)

unfoldable pub compute_d : ℕ → List Coin → Result ContractError ℕ
unfolding sum_amounts times_coins settle next_d
compute_d amp_factor deposits = do
  sum_x ← sum_amounts 128 deposits 0
  if sum_x == 0 then ok 0 else do
    amount_times_coins ← times_coins (length deposits) deposits
    settle (next_d amp_factor amount_times_coins sum_x (length deposits)) 256 sum_x

unfoldable pub compute_lp_mint_amount_for_stableswap_deposit :
    ℕ → List Coin → List Coin → ℕ → Result ContractError (Option ℕ)
compute_lp_mint_amount_for_stableswap_deposit amp_factor old_pool_assets new_pool_assets supply = do
  d_0 ← compute_d amp_factor old_pool_assets
  d_1 ← compute_d amp_factor new_pool_assets
  if leb d_1 d_0 then ok none else do
    product ← ok_or (checked_mul 512 supply (d_1 - d_0)) overflow_error
    quotient ← ok_or (checked_div product d_0) divide_by_zero_error
    amount ← ok_or (try_into 128 quotient) conversion_overflow_error
    ok (some amount)

-- `compute_y_raw`, whose `None` is an overflow of `ann`; `compute_y` and `swap_to` narrow its result.
unfoldable pub compute_y_raw : ℕ → ℕ → ℕ → ℕ → ℕ → Result ContractError (Option ℕ)
unfolding settle
compute_y_raw n_coins amp_factor swap_in no_swap d = elim (checked_mul 64 amp_factor n_coins) [
  | none ↦ ok none
  | some ann ↦ do
    square ← unwrap (checked_mul 512 d d)
    swap_in_coins ← unwrap (checked_mul 128 swap_in n_coins)
    c_0 ← unwrap (checked_div square swap_in_coins)
    cube ← unwrap (checked_mul 512 c_0 d)
    no_swap_coins ← unwrap (checked_mul 128 no_swap n_coins)
    c_1 ← unwrap (checked_div cube no_swap_coins)
    last ← unwrap (checked_mul 512 c_1 d)
    ann_coins ← unwrap (checked_mul 64 ann n_coins)
    c ← unwrap (checked_div last ann_coins)
    d_over_ann ← unwrap (checked_div d ann)
    b_0 ← unwrap (checked_add 512 d_over_ann swap_in)
    b ← unwrap (checked_add 512 b_0 no_swap)
    y ←
        settle
          (λ y. do
            y_square ← unwrap (checked_mul 512 y y)
            numerator ← unwrap (checked_add 512 y_square c)
            double ← unwrap (checked_mul 512 y 2)
            sum ← unwrap (checked_add 512 double b)
            denominator ← unwrap (checked_sub sum d)
            unwrap (checked_div numerator denominator))
          1000 d
    ok (some y)
]

unfoldable pub compute_y : ℕ → ℕ → ℕ → ℕ → ℕ → Result ContractError (Option ℕ)
unfolding compute_y_raw
compute_y n_coins amp_factor x no_swap d = do
  raw ← compute_y_raw n_coins amp_factor x no_swap d
  elim raw [
    | none ↦ ok none
    | some amount ↦ do narrow ← unwrap (try_into 128 amount); ok (some narrow)
  ]

-- `SwapResult` of helpers.rs
pub record SwapAmounts : Type 0 where
  pub new_source_amount : ℕ
  pub new_destination_amount : ℕ
  pub amount_swapped : ℕ

unfoldable pub swap_to : ℕ → ℕ → ℕ → ℕ → ℕ → ℕ → Result ContractError (Option SwapAmounts)
unfolding compute_y compute_d
swap_to n_coins amp_factor source_amount swap_source_amount swap_destination_amount
      unswaped_amount =
    do
      new_source_amount ← unwrap (checked_add 128 swap_source_amount source_amount)
      d ← compute_d amp_factor (
          record { denom = codes "denom1"; amount = swap_source_amount }
          ∷ record { denom = codes "denom2"; amount = swap_destination_amount }
          ∷ record { denom = codes "denom3"; amount = unswaped_amount }
          ∷ [])
      computed ← compute_y n_coins amp_factor new_source_amount unswaped_amount d
      elim computed [
        | none ↦ ok none
        | some y ↦ do
          less_y ← unwrap (checked_sub swap_destination_amount y)
          amount_swapped ← unwrap (checked_sub less_y 1)
          new_destination_amount ← unwrap (checked_sub swap_destination_amount amount_swapped)
          ok (
              some record {
                new_source_amount = new_source_amount;
                new_destination_amount = new_destination_amount;
                amount_swapped = amount_swapped;
              })
      ]
