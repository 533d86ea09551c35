-- ===== src/Pool/Creation.antt =====
-- The creation of pools: manager/commands.rs, and the validations of helpers.rs it calls
-- (pool-manager/src).
use stratosphere_contracts.Base.{
  ℕ, suc, ◌-◌, Bool, true, false, ◌&&◌, ◌||◌, not, Option, none, some, List, [], ◌∷◌, ◌++◌, map,
  ltb, leb, ◌==◌, if◌then◌else◌, any, all, keep, find, length, is_empty, Result, ok, ◌>>=◌, ◌>>◌,
  ensure, ok_or, unwrap_or, is_ok, checked_add,
}
use stratosphere_contracts.Base.Text.{Text, codes, text_eq, to_string, is_ascii_alphanumeric}
use stratosphere_contracts.Base.Coins.{Coin, MessageInfo}
use stratosphere_contracts.Pool.Data.{
  ContractError, PoolFee, PoolType, Message, send, create_denom, Env, External, std_error,
  payment_error, same_asset, overflow_error, panic, pool_exists, too_many_assets, asset_mismatch,
  invalid_pool_creation_fee, extra_funds_sent, invalid_lp_asset, invalid_pool_identifier,
  token_factory_fee_not_paid,
}
use stratosphere_contracts.Pool.Storage.{Storage, get_pool_by_identifier, save_pool}

abbrev max_assets_per_pool : ℕ
max_assets_per_pool = 4

abbrev min_assets_per_pool : ℕ
min_assets_per_pool = 2

abbrev pub explicit_pool_id_prefix : Text
explicit_pool_id_prefix = codes "o."

abbrev pub auto_pool_id_prefix : Text
auto_pool_id_prefix = codes "p."

-- The length of a text is its number of bytes; the subtraction of the two constants aborts below 0.
unfoldable pub validate_pool_identifier : External → Text → Result ContractError (Unit {0})
validate_pool_identifier x identifier = do
  ensure (leb (length x.lp_symbol) x.factory_max_subdenom_size) panic
  ensure
      (ltb (length identifier) (x.factory_max_subdenom_size - length x.lp_symbol)
        && all (λ c. is_ascii_alphanumeric c || c == b'/' || c == b'.') identifier)
      (invalid_pool_identifier identifier)

-- The funds of a denom, summed from `acc`; `none` where the sum overflows.
unfoldable pub sum_funds : Text → List Coin → ℕ → Option ℕ
sum_funds denom [] acc = some acc
sum_funds denom (fund ∷ funds) acc =
    let skipped = sum_funds denom funds acc in
    if text_eq fund.denom denom
    then elim (checked_add 128 acc fund.amount) [
      | none ↦ none
      | some sum ↦ sum_funds denom funds sum
    ]
    else skipped

unfoldable pub get_paid_pool_fee_amount : MessageInfo → Text → Result ContractError ℕ
unfolding sum_funds
get_paid_pool_fee_amount info pool_fee_denom =
    ok_or (sum_funds pool_fee_denom info.funds 0) overflow_error

-- What is paid towards a token factory fee; an overflow counts as zero.
unfoldable pub paid_towards : MessageInfo → Coin → Coin
unfolding sum_funds
paid_towards info fee = record {
  denom = fee.denom;
  amount = unwrap_or (sum_funds fee.denom info.funds 0) 0;
}

-- `any` and `all` over the token factory's fees, with the coins that their closures push: each
-- stops at the fee that decides.
unfoldable pub pay_any : MessageInfo → List Coin → List Coin → Bool × List Coin
unfolding paid_towards
pay_any info [] total_fees = (false, total_fees)
pay_any info (fee ∷ fees) total_fees =
    let paid = paid_towards info fee in
    let pushed = total_fees ++ paid ∷ [] in
    let rest = pay_any info fees pushed in
    if paid.amount == fee.amount then (true, pushed) else rest

unfoldable pub pay_all : MessageInfo → List Coin → List Coin → Bool × List Coin
unfolding paid_towards
pay_all info [] total_fees = (true, total_fees)
pay_all info (fee ∷ fees) total_fees =
    let paid = paid_towards info fee in
    let pushed = total_fees ++ paid ∷ [] in
    let rest = pay_all info fees pushed in
    if paid.amount == fee.amount then rest else (false, pushed)

-- The pool creation fee in full, as the first of the total fees.
unfoldable pub pay_pool_fee : MessageInfo → Coin → Result ContractError (List Coin)
unfolding get_paid_pool_fee_amount
pay_pool_fee info pool_creation_fee = do
  paid ← get_paid_pool_fee_amount info pool_creation_fee.denom
  ensure (paid == pool_creation_fee.amount)
      (invalid_pool_creation_fee paid pool_creation_fee.amount)
  ok (record { denom = pool_creation_fee.denom; amount = paid } ∷ [])

unfoldable pub validate_fees_are_paid :
    External → Coin → List Coin → MessageInfo → Result ContractError (List Coin)
unfolding pay_pool_fee pay_any pay_all
validate_fees_are_paid x pool_creation_fee denom_creation_fee info = do
  total_fees ← elim (find (λ fee. text_eq fee.denom pool_creation_fee.denom) denom_creation_fee) [
    | some tf_fee ↦
        if length denom_creation_fee == 1
        then (do
          total ← ok_or (checked_add 128 tf_fee.amount pool_creation_fee.amount) overflow_error
          paid ← ok_or (x.must_pay info.funds pool_creation_fee.denom) payment_error
          ensure (paid == total) (invalid_pool_creation_fee paid total)
          ok (record { denom = pool_creation_fee.denom; amount = total } ∷ []))
        else (do
          total_fees ← pay_pool_fee info pool_creation_fee
          let paid = pay_any info denom_creation_fee total_fees
          ensure paid.0 token_factory_fee_not_paid
          ok_or (x.aggregate_coins paid.1) std_error)
    | none ↦ do
      total_fees ← pay_pool_fee info pool_creation_fee
      let paid = pay_all info denom_creation_fee total_fees
      ensure paid.0 token_factory_fee_not_paid
      ok paid.1
  ]
  ok_or (x.aggregate_coins total_fees) std_error

unfoldable pub validate_no_additional_funds_sent_with_pool_creation :
    MessageInfo → List Coin → Result ContractError (Unit {0})
validate_no_additional_funds_sent_with_pool_creation info total_fees =
    ensure
      (is_empty
        (keep (λ fund. not (any (λ fee. text_eq fee.denom fund.denom) total_fees)) info.funds))
      extra_funds_sent

-- `filter(..).count()`
unfoldable pub occurrences : Text → List Text → ℕ
occurrences asset [] = 0
occurrences asset (a ∷ assets) =
    if text_eq a asset then suc (occurrences asset assets) else occurrences asset assets

unfoldable pub any_repeated : List Text → Bool
unfolding occurrences
any_repeated assets = any (λ asset. ltb 1 (occurrences asset assets)) assets

-- The new pool's identifier, and the counter that it may have raised.
unfoldable pub identify : Option Text → ℕ → Result ContractError (Text × ℕ)
identify (some id) pool_counter = ok (explicit_pool_id_prefix ++ id, pool_counter)
identify none pool_counter = do
  counter ← ok_or (checked_add 64 pool_counter 1) panic
  ok (auto_pool_id_prefix ++ to_string counter, counter)

unfoldable pub create_pool :
    External
    → Env
    → MessageInfo
    → List Text
    → List ℕ
    → PoolFee
    → PoolType
    → Option Text
    → Storage
    → Result ContractError (Storage × List Message)
unfolding validate_fees_are_paid validate_no_additional_funds_sent_with_pool_creation any_repeated
    identify validate_pool_identifier get_pool_by_identifier save_pool
create_pool x env info asset_denoms asset_decimals pool_fees pool_type pool_identifier s = do
  ensure
      (not (is_empty asset_denoms)
        && leb min_assets_per_pool (length asset_denoms)
        && (length asset_denoms == length asset_decimals))
      asset_mismatch
  ensure (leb (length asset_denoms) max_assets_per_pool) (too_many_assets (length asset_denoms))
  denom_creation_fee ← ok_or env.denom_creation_fee std_error
  total_fees ← validate_fees_are_paid x s.config.pool_creation_fee denom_creation_fee info
  validate_no_additional_funds_sent_with_pool_creation info total_fees
  ensure (not (any_repeated asset_denoms)) same_asset
  ensure (x.fees_are_valid pool_fees) std_error
  (identifier, pool_counter) ← identify pool_identifier s.pool_counter
  validate_pool_identifier x identifier
  ensure (not (is_ok (get_pool_by_identifier s identifier))) (pool_exists identifier)
  let lp_symbol = identifier ++ codes "." ++ x.lp_symbol
  let lp_asset = codes "factory/" ++ env.contract_address ++ codes "/" ++ lp_symbol
  ensure (x.is_factory_token lp_asset) (invalid_lp_asset lp_asset)
  s' ←
      save_pool identifier
        record {
          pool_identifier = identifier;
          asset_denoms = asset_denoms;
          lp_denom = lp_asset;
          asset_decimals = asset_decimals;
          assets = map (λ denom. record { denom = denom; amount = 0 }) asset_denoms;
          pool_type = pool_type;
          pool_fees = pool_fees;
        }
        (record s { pool_counter = pool_counter })
  ok (
    s',
    (if s.config.pool_creation_fee.amount == 0
          then []
          else send s.config.fee_collector_addr (s.config.pool_creation_fee ∷ []) ∷ [])
        ++ create_denom lp_symbol ∷ [],
  )
