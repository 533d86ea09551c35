-- ===== src/Pool/OneSided.antt =====
-- The deposit of a single asset: the swap that it sends, and what its reply provides
-- (liquidity/commands.rs and contract.rs of pool-manager/src).
use stratosphere_contracts.Base.{
  ℕ, ◌/◌, ◌≡◌, refl, ap, sym, ◌∙◌, Option, some, none, List, [], ◌∷◌, ok, >>=-eq-ok, ok-injective,
  some-injective, ensure, not, any, length, ◌==◌, ok_or, find, saturating_sub,
}
use stratosphere_contracts.Base.Text.{Text, text_eq}
use stratosphere_contracts.Base.Coins.{Coin}
use stratosphere_contracts.Base.Dict.{may_load}
use stratosphere_contracts.Pool.Data.{
  PoolInfo, LiquidityProvisionData, SingleSideLiquidityProvisionBuffer, Message, swap_and_reply,
  Env, External, empty_pool_for_single_side_liquidity_provision, asset_mismatch, std_error,
  invalid_pool_assets_for_single_side_liquidity_provision, max_spread_assertion,
}
use stratosphere_contracts.Pool.Storage.{Storage}
use stratosphere_contracts.Pool.Compute.{SwapComputation}
use stratosphere_contracts.Pool.Swaps.{
  SwapResult, query_simulation, perform_swap, aggregate_outgoing_fees,
}
use stratosphere_contracts.Pool.Liquidity.{provide_single_asset}
use stratosphere_contracts.Pool.Covered.Routes.{performed-denom}
use stratosphere_contracts.Pool.Simulated.{
  amounts_of, query_simulation-perform_swap, query_simulation-same,
}

same_return :
    (x : External) (s s_1 s_2 : Storage) (half : Coin) (ask id : Text) (m : Option ℕ)
    (simulated : SwapComputation) (r : SwapResult)
    → query_simulation x s half ask id ≡ ok simulated
    → s_1.pools ≡ s.pools
    → perform_swap x s_1 half ask id none m ≡ ok (s_2, r)
    → record { denom = ask; amount = simulated.return_amount } ≡ r.return_asset
same_return x s s_1 s_2 half ask id m simulated r h same e =
    let before = query_simulation-same x s s_1 half ask id (ap (may_load id) same) in
    let now = query_simulation-perform_swap x s_1 half ask id none m s_2 r e in
    let amounts : simulated ≡ amounts_of r = ok-injective (sym h ∙ sym before ∙ now) in
    let denom = performed-denom x s_1 half ask id none m (s_2, r) e in rw (amounts, sym denom) refl

-- The buffer and the message of a deposit of a single asset.
record IsOneSided (x : External) (s : Storage) (s_1 : Storage) (ms : List Message) : Type 0 where
  half : Coin
  ask : Text
  id : Text
  max_spread : Option ℕ
  simulated : SwapComputation
  buffer : SingleSideLiquidityProvisionBuffer
  same_pools : s_1.pools ≡ s.pools
  simulating : query_simulation x s half ask id ≡ ok simulated
  message : ms ≡ swap_and_reply id ask max_spread (half ∷ []) ∷ []
  stored : s_1.single_side_liquidity_provision_buffer ≡ some buffer
  first_half : buffer.offer_asset_half ≡ half
  second_half : buffer.expected_ask_asset ≡ record { denom = ask; amount = simulated.return_amount }

provide_single_asset-IsOneSided :
    (x : External) (env : Env) (receiver : Text) (provision : LiquidityProvisionData)
    (pool : PoolInfo) (deposit : Coin) (s : Storage) (out : Storage × List Message)
    → provide_single_asset x env receiver provision pool deposit s ≡ ok out
    → IsOneSided x s (out.0) (out.1)
unfolding provide_single_asset
provide_single_asset-IsOneSided x env receiver provision pool deposit s out h =
    let (_, _, h1) =
      >>=-eq-ok
        (ensure (not (any (λ c. c.amount == 0) pool.assets))
          empty_pool_for_single_side_liquidity_provision)
        _ h in
    let (_, _, h2) =
      >>=-eq-ok
        (ensure (length pool.assets == 2) invalid_pool_assets_for_single_side_liquidity_provision) _
        h1 in
    let (ask_asset, _, h3) =
      >>=-eq-ok (ok_or (find (λ c. not (text_eq c.denom deposit.denom)) pool.assets) asset_mismatch)
        _ h2 in
    let half : Coin = record deposit { amount = deposit.amount / 2 } in
    let (simulated, e4, h4) =
      >>=-eq-ok (query_simulation x s half ask_asset.denom provision.pool_identifier) _ h3 in
    let (offer_balance, _, h5) = >>=-eq-ok (ok_or (env.balance deposit.denom) std_error) _ h4 in
    let (ask_balance, _, h6) = >>=-eq-ok (ok_or (env.balance ask_asset.denom) std_error) _ h5 in
    let (fees, _, h7) = >>=-eq-ok (aggregate_outgoing_fees simulated) _ h6 in
    let (_, _, h8) =
      >>=-eq-ok (ensure (not (saturating_sub ask_balance fees == 0)) max_spread_assertion) _ h7 in
    let given = sym (ok-injective h8) in
    record {
      half = half;
      ask = ask_asset.denom;
      id = provision.pool_identifier;
      max_spread = provision.max_spread;
      simulated = simulated;
      buffer = record {
        receiver = receiver;
        expected_offer_asset_balance_in_contract = record {
          denom = deposit.denom;
          amount = offer_balance;
        };
        expected_ask_asset_balance_in_contract = record {
          denom = ask_asset.denom;
          amount = saturating_sub ask_balance fees;
        };
        offer_asset_half = half;
        expected_ask_asset = record { denom = ask_asset.denom; amount = simulated.return_amount };
        liquidity_provision_data = provision;
      };
      same_pools = ap (λ o. o.0.pools) given;
      simulating = e4;
      message = ap (λ o. o.1) given;
      stored = ap (λ o. o.0.single_side_liquidity_provision_buffer) given;
      first_half = refl;
      second_half = refl;
    }

-- When a deposit of a single asset succeeds and the swap that its message asks for is
-- performed on the state it leaves, the two amounts kept for the reply are the coin that is
-- swapped and the asset that the swap returns.
pub provide_single_asset-perform_swap :
    (x : External) (env : Env) (receiver : Text) (provision : LiquidityProvisionData)
    (pool : PoolInfo) (deposit : Coin) (s s_1 s_2 : Storage) (half : Coin) (ask id : Text)
    (m : Option ℕ) (b : SingleSideLiquidityProvisionBuffer) (r : SwapResult)
    → provide_single_asset x env receiver provision pool deposit s
      ≡ ok (s_1, swap_and_reply id ask m (half ∷ []) ∷ [])
    → s_1.single_side_liquidity_provision_buffer ≡ some b
    → perform_swap x s_1 half ask id none m ≡ ok (s_2, r)
    → (b.offer_asset_half ≡ half) × (b.expected_ask_asset ≡ r.return_asset)
provide_single_asset-perform_swap x env receiver provision pool deposit s s_1 s_2 half ask id m b r
      h kept e =
    let p = provide_single_asset-IsOneSided x env receiver provision pool deposit s _ h in
    let message = p.message in
    let same_id : id ≡ p.id = cc in
    let same_ask : ask ≡ p.ask = cc in
    let same_half : half ≡ p.half = cc in
    let buffer : b ≡ p.buffer = some-injective (sym kept ∙ p.stored) in
    let simulating : query_simulation x s half ask id ≡ ok p.simulated =
      rw (same_id, same_ask, same_half) p.simulating in
    let returned = same_return x s s_1 s_2 half ask id m p.simulated r simulating p.same_pools e in
    let expected : b.expected_ask_asset
        ≡ record { denom = ask; amount = p.simulated.return_amount } =
      rw (buffer, same_ask) p.second_half in
    (rw buffer p.first_half ∙ sym same_half, expected ∙ returned)
