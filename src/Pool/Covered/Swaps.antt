-- ===== src/Pool/Covered/Swaps.antt =====
-- Swaps: perform_swap, swap and execute_swap_operations (pool-manager/src).
use stratosphere_contracts.Base.{ℕ, ◌+◌, ◌≡◌, refl, Option, List, arith, ok}
use stratosphere_contracts.Base.Text.{Text}
use stratosphere_contracts.Base.Coins.{Coin, MessageInfo, coin_amount, amount_of}
use stratosphere_contracts.Pool.Data.{Message, External}
use stratosphere_contracts.Pool.Storage.{Storage}
use stratosphere_contracts.Pool.Swaps.{
  SwapResult, perform_swap, swap, send_coin, burn_coin, nonzero,
}
use stratosphere_contracts.Pool.Reserves.{
  get_asset_indexes_in_pool-IsIndexes, move_balances-amount_of,
}
use stratosphere_contracts.Pool.Performed.{IsPerformed, perform_swap-IsPerformed}
use stratosphere_contracts.Pool.Books.{
  Lawful, reserves, held, paid, payment, paid-append, save_pool-held, save_pool-config,
}

-- What leaves the contract by a swap: the return, the burn fee and the protocol fee.
abbrev pub outgoing : Text → SwapResult → ℕ
outgoing d r =
    coin_amount d r.return_asset
    + coin_amount d r.burn_fee_asset
    + coin_amount d r.protocol_fee_asset

pub same_coin :
    (d denom : Text) (c : Coin)
    → denom ≡ c.denom
    → coin_amount d (record { denom = denom; amount = c.amount }) ≡ coin_amount d c
unfolding coin_amount
same_coin d denom c h = rw h refl

split_coin :
    (d denom : Text) (a b c : ℕ)
    → coin_amount d (record { denom = denom; amount = a + (b + c) })
      ≡ coin_amount d (record { denom = denom; amount = a })
        + coin_amount d (record { denom = denom; amount = b })
        + coin_amount d (record { denom = denom; amount = c })
unfolding coin_amount
split_coin d denom a b c = ground arith

module _ (x : External) (s : Storage) (offer_asset : Coin) (ask pool_identifier : Text)
    (belief_price max_spread : Option ℕ) where
  pub performed-held :
      (out : Storage × SwapResult) (d : Text)
      → IsPerformed x s offer_asset ask pool_identifier belief_price max_spread out
      → held d (out.0) + outgoing d (out.1) ≡ held d s + coin_amount d offer_asset
  unfolding reserves
  performed-held (s', r) d p =
      let indexes =
        get_asset_indexes_in_pool-IsIndexes p.pool offer_asset.denom ask p.found p.indexes in
      let moved =
        move_balances-amount_of d p.pool.assets p.found.offer_index p.found.ask_index
          offer_asset.amount p.amounts.return_amount
          (p.amounts.protocol_fee_amount + p.amounts.burn_fee_amount) indexes.distinct
          indexes.offer_at indexes.ask_at p.moved in
      let saved =
        save_pool-held d pool_identifier p.pool (record p.pool { assets = p.assets }) s s' p.pool_at
          p.saved in
      rw p.result (
        omega (
          arith,
          saved,
          moved,
          same_coin d p.found.offer_asset_in_pool.denom offer_asset indexes.offer_denom,
          split_coin d p.found.ask_asset_in_pool.denom p.amounts.return_amount
              p.amounts.protocol_fee_amount p.amounts.burn_fee_amount,
        ))

pub paid-send_coin :
    (charge : List Coin) (d to : Text) (c : Coin) → paid charge d (send_coin to c) ≡ coin_amount d c
unfolding paid payment send_coin nonzero amount_of coin_amount
paid-send_coin charge d to c = ground arith

pub paid-burn_coin :
    (charge : List Coin) (d : Text) (c : Coin) → paid charge d (burn_coin c) ≡ coin_amount d c
unfolding paid payment burn_coin nonzero coin_amount
paid-burn_coin charge d c = ground arith

performed-config :
    (x : External) (s : Storage) (offer_asset : Coin) (ask pool_identifier : Text)
    (belief_price max_spread : Option ℕ) (out : Storage × SwapResult)
    → IsPerformed x s offer_asset ask pool_identifier belief_price max_spread out
    → (out.0).config ≡ s.config
performed-config x s offer_asset ask id bp m out p =
    save_pool-config id (record p.pool { assets = p.assets }) s (out.0) p.saved

pub perform_swap-held :
    (x : External) (s : Storage) (offer_asset : Coin) (ask pool_identifier : Text)
    (belief_price max_spread : Option ℕ) (s' : Storage) (r : SwapResult) (d : Text)
    → perform_swap x s offer_asset ask pool_identifier belief_price max_spread ≡ ok (s', r)
    → held d s' + outgoing d r ≡ held d s + coin_amount d offer_asset
perform_swap-held x s offer_asset ask id bp m s' r d h =
    performed-held x s offer_asset ask id bp m (s', r) d
      (perform_swap-IsPerformed x s offer_asset ask id bp m (s', r) h)

-- A swap, exactly: what the pools hold after it and what it pays out are what the pools held
-- and the offer.
pub swap-held :
    (x : External) (law : Lawful x) (info : MessageInfo) (ask : Text) (bp m : Option ℕ)
    (receiver : Option Text) (pool_identifier : Text) (s s' : Storage) (ms : List Message)
    (charge : List Coin) (d : Text)
    → swap x info ask bp m receiver pool_identifier s ≡ ok (s', ms)
    → held d s' + paid charge d ms ≡ held d s + amount_of d info.funds
unfolding swap amount_of
swap-held x law info ask bp m receiver id s s' ms charge d h = grind (
  arith,
  law.one_coin_law info.funds,
  perform_swap-held x s,
  paid-append,
  paid-send_coin,
  paid-burn_coin,
)
