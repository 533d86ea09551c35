-- ===== src/Pool/Shares/Refunds.antt =====
-- A withdrawal refunds at most the share of the LP tokens (withdraw_liquidity of
-- pool-manager/src/liquidity/commands.rs).
use native.Mathlib.Nat.{mul-le-mul_right, div-mul-le_self}
use stratosphere_contracts.Base.{
  ℕ, ◌*◌, ◌/◌, ◌≤◌, ◌≡◌, refl, ap, sym, ◌∙◌, some, List, [], ◌∷◌, keep, ltb, arith, ok, >>=-eq-ok,
  ok_or, ok_or-eq-ok, ok-injective, try_into, some-injective,
}
use stratosphere_contracts.Base.Text.{Text, text_eq_refl}
use stratosphere_contracts.Base.Coins.{Coin, MessageInfo, coin_amount, amount_of}
use stratosphere_contracts.Base.Decimals.{IsFixedPoint, one}
use stratosphere_contracts.Base.Rounding.{floor_mul-le, from_whole}
use stratosphere_contracts.Base.Dict.{may_load}
use stratosphere_contracts.Pool.Data.{
  PoolInfo, Message, send, burn_lp_asset, Env, External, panic, overflow_error,
  conversion_overflow_error,
}
use stratosphere_contracts.Pool.Storage.{Storage}
use stratosphere_contracts.Pool.Liquidity.{compute_refunds, withdraw_liquidity}
use stratosphere_contracts.Pool.Books.{Lawful, reserves, sent_to}
use stratosphere_contracts.Pool.Covered.Liquidity.{withdraw_liquidity-IsWithdrawn}

-- The rounded part of a balance, with the ratio rounded before.
part_floor : (a ratio n k : ℕ) → ratio * k ≤ n * one → (a * one * ratio / one / one) * k ≤ a * n
part_floor a ratio n k h =
    let e : a * one * ratio / one ≡ a * ratio = omega arith in
    rw e (floor_mul-le (a * ratio) (a * n) k (omega (arith, mul-le-mul_right a h)))

module _ (x : External) (law : IsFixedPoint 256 x.decimal256) where
  refund_amount :
      (a ratio n k : ℕ) {balance part amount : ℕ}
      → ratio * k ≤ n * one
      → x.decimal256.from_ratio a 1 ≡ some balance
      → x.decimal256.checked_mul balance ratio ≡ some part
      → try_into 128 (x.decimal256.to_uint_floor part) ≡ some amount
      → amount * k ≤ a * n
  refund_amount a ratio n k {balance = balance} {part = part} {amount = amount} h e f g =
      let whole = from_whole 256 x.decimal256 law a e in
      let part_eq : part ≡ a * one * ratio / one =
        grind (arith, law.checked_mul_law balance ratio) in
      let amount_eq : amount ≡ a * one * ratio / one / one =
        grind (arith, law.to_uint_floor_law part) in
      rw amount_eq (part_floor a ratio n k h)

  -- Denom by denom, the refunds times the supply are at most the balances times the LP tokens.
  pub compute_refunds-le :
      (d : Text) (ratio n k : ℕ) (assets refunds : List Coin)
      → ratio * k ≤ n * one
      → compute_refunds x ratio assets ≡ ok refunds
      → amount_of d refunds * k ≤ amount_of d assets * n
  unfolding compute_refunds amount_of coin_amount
  compute_refunds-le d ratio n k [] refunds h e = ground arith
  compute_refunds-le d ratio n k (a ∷ es) refunds h e =
      let (balance, e1, h1) = >>=-eq-ok (ok_or (x.decimal256.from_ratio a.amount 1) panic) _ e in
      let (part, e2, h2) =
        >>=-eq-ok (ok_or (x.decimal256.checked_mul balance ratio) overflow_error) _ h1 in
      let (amount, e3, h3) =
        >>=-eq-ok (ok_or (try_into 128 (x.decimal256.to_uint_floor part)) conversion_overflow_error)
          _ h2 in
      let (rest, e4, h4) = >>=-eq-ok (compute_refunds x ratio es) _ h3 in
      let one_le =
        refund_amount a.amount ratio n k h
          (ok_or-eq-ok (x.decimal256.from_ratio a.amount 1) panic e1)
          (ok_or-eq-ok (x.decimal256.checked_mul balance ratio) overflow_error e2)
          (ok_or-eq-ok (try_into 128 (x.decimal256.to_uint_floor part)) conversion_overflow_error
            e3) in
      let rest_le = compute_refunds-le d ratio n k es rest h e4 in
      rw (sym (ok-injective h4)) (ground (arith, one_le, rest_le))

pub keep-amount_of :
    (d : Text) (cs : List Coin) → amount_of d (keep (λ c. ltb 0 c.amount) cs) ≡ amount_of d cs
unfolding amount_of coin_amount
keep-amount_of d [] = refl
keep-amount_of d (c ∷ cs) = ground (arith, keep-amount_of d cs)

pub ratio_mul-le :
    (x : External) (law : IsFixedPoint 256 x.decimal256) (n k : ℕ) {ratio : ℕ}
    → x.decimal256.from_ratio n k ≡ some ratio
    → ratio * k ≤ n * one
ratio_mul-le x law n k e = grind (arith, law.from_ratio_law n k, div-mul-le_self (n * one) k)

sent_refund :
    (to d : Text) (cs : List Coin) (lp_denom : Text) (amount : ℕ)
    → sent_to to d (send to cs ∷ burn_lp_asset lp_denom amount ∷ []) ≡ amount_of d cs
unfolding sent_to
sent_refund to d cs lp amount = ground (arith, text_eq_refl to)

-- With lawful libraries, what a withdrawal sends the sender of a denom, times the supply of
-- the LP token, is at most the reserves of the pool in that denom times the LP tokens sent.
pub withdraw_liquidity-share :
    (x : External) (law : Lawful x) (env : Env) (info : MessageInfo) (pool_identifier : Text)
    (s s' : Storage) (ms : List Message) (pool : PoolInfo) (amount total_share : ℕ) (d : Text)
    → withdraw_liquidity x env info pool_identifier s ≡ ok (s', ms)
    → may_load pool_identifier s.pools ≡ some pool
    → x.must_pay info.funds pool.lp_denom ≡ some amount
    → env.total_share pool.lp_denom ≡ some total_share
    → sent_to info.sender d ms * total_share ≤ reserves d pool * amount
unfolding reserves
withdraw_liquidity-share x law env info id s s' ms pool amount total d h at pay supply =
    let p = withdraw_liquidity-IsWithdrawn x env info id s (s', ms) h in
    let same : pool ≡ p.pool = some-injective (sym at ∙ p.pool_at) in
    let amount_eq : amount ≡ p.amount =
      some-injective (sym pay ∙ ap (λ q. x.must_pay info.funds q.lp_denom) same ∙ p.burned) in
    let total_eq : total ≡ p.total_share =
      some-injective (sym supply ∙ ap (λ q. env.total_share q.lp_denom) same ∙ p.supply) in
    let refunded =
      compute_refunds-le x law.decimal256_law d p.share_ratio p.amount p.total_share p.pool.assets
        p.refunds (ratio_mul-le x law.decimal256_law p.amount p.total_share p.ratio) p.computed in
    let sent : sent_to info.sender d ms ≡ amount_of d p.refunds =
      ap (sent_to info.sender d) p.messages
      ∙ sent_refund info.sender d (keep (λ c. ltb 0 c.amount) p.refunds) p.pool.lp_denom p.amount
      ∙ keep-amount_of d p.refunds in
    rw (sent, total_eq, amount_eq, same) refunded
