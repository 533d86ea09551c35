-- ===== src/Pool/Tests/World.antt =====
-- Concrete libraries that behave as documented, two pools, and messages (pool-manager/src).
use stratosphere_contracts.Base.{
  ℕ, zero, suc, ◌*◌, ◌/◌, ◌≤◌, ◌≡◌, refl, true, Option, none, some, List, [], ◌∷◌, ◌++◌, leb, ltb,
  ◌&&◌, if◌then◌else◌, is_empty, leb→le, arith, unwrap_or, Result, ok, err,
}
use stratosphere_contracts.Base.Text.{Text, codes, text_eq, text_eq_iff}
use stratosphere_contracts.Base.Coins.{Coin, MessageInfo}
use stratosphere_contracts.Base.Decimals.{one}
use stratosphere_contracts.Farm.Tests.World.{fixed_point, single, single_law}
use stratosphere_contracts.Pool.Data.{
  Config, PoolInfo, PoolFee, constant_product, SwapOperation, Env, External,
}
use stratosphere_contracts.Pool.Storage.{Storage}
use stratosphere_contracts.Pool.Contract.{InstantiateMsg}
use stratosphere_contracts.Pool.Books.{Lawful}

-- The integer square root, one number after the other.
unfoldable pub square_root : ℕ → ℕ
square_root zero = 0
square_root (suc n) = let r = square_root n in if leb (suc r * suc r) (suc n) then suc r else r

square_root_law : (n : ℕ) → square_root n * square_root n ≤ n
unfolding square_root
square_root_law zero = omega arith
square_root_law (suc n) =
    grind (arith, square_root_law n, leb→le (suc (square_root n) * suc (square_root n)) (suc n))

abbrev pub pay_one : List Coin → Text → Option ℕ
pay_one [] d = none
pay_one (c ∷ []) d = if text_eq c.denom d && ltb 0 c.amount then some c.amount else none
pay_one (c ∷ e ∷ cs) d = none

abbrev pub external : External
external = record {
  decimal = fixed_point 128;
  decimal256 = fixed_point 256;
  compute = λ share amount. some (amount * share / one);
  to_decimal_256 = λ share. share;
  fees_are_valid = λ fees. true;
  addr_validate = λ a. some a;
  validate_addr_or_default = λ a d. unwrap_or a d;
  nonpayable = λ funds. is_empty funds;
  one_coin = single;
  must_pay = pay_one;
  is_owner = λ a. text_eq a (codes "owner");
  initialize_owner = λ a. true;
  is_factory_token = λ d. true;
  aggregate_coins = λ cs. some cs;
  add_coins = λ cs es. some (cs ++ es);
  integer_sqrt = square_root;
  minimum_liquidity_amount = 10;
  lp_symbol = codes "LP";
  factory_max_subdenom_size = 44;
}

pay_one_law :
    (funds : List Coin) (d : Text) (a : ℕ)
    → pay_one funds d ≡ some a
    → funds ≡ record { denom = d; amount = a } ∷ []
pay_one_law [] d a h = cc
pay_one_law (c ∷ []) d a h = grind (arith, text_eq_iff c.denom d)
pay_one_law (c ∷ e ∷ cs) d a h = cc

pub external-Lawful : Lawful external
external-Lawful = record {
  decimal256_law = record {
    from_ratio_law = λ n k. refl;
    checked_mul_law = λ a b. refl;
    to_uint_floor_law = λ a. refl;
  };
  one_coin_law = single_law;
  must_pay_law = pay_one_law;
  aggregate_law = λ cs es d h. cc;
  integer_sqrt_law = square_root_law;
}

abbrev pub coin : Text → ℕ → Coin
coin d n = record { denom = d; amount = n }

abbrev pub config : Config
config = record {
  fee_collector_addr = codes "fees";
  farm_manager_addr = codes "farms";
  pool_creation_fee = coin (codes "om") 100;
  feature_toggle = record {
    withdrawals_enabled = true;
    deposits_enabled = true;
    swaps_enabled = true;
  };
}

-- 0.1 %, 0.3 % and 0.1 %
abbrev pub fees : PoolFee
fees = record {
  protocol_fee = 1000000000000000;
  swap_fee = 3000000000000000;
  burn_fee = 1000000000000000;
  extra_fees = [];
}

abbrev pub pool : Text → Text → ℕ → Text → ℕ → PoolInfo
pool identifier a n b m = record {
  pool_identifier = identifier;
  asset_denoms = a ∷ b ∷ [];
  lp_denom = codes "factory/pools/" ++ identifier ++ codes ".LP";
  asset_decimals = 6 ∷ 6 ∷ [];
  assets = coin a n ∷ coin b m ∷ [];
  pool_type = constant_product;
  pool_fees = fees;
}

abbrev pub state : Storage
state = record {
  config = config;
  pool_counter = 0;
  pools =
      (codes "o.ab", pool (codes "o.ab") (codes "a") 1000000 (codes "b") 2000000)
      ∷ (codes "o.bc", pool (codes "o.bc") (codes "b") 1000000 (codes "c") 1000000)
      ∷ [];
  single_side_liquidity_provision_buffer = none;
}

abbrev pub env : Env
env = record {
  contract_address = codes "pools";
  balance = λ d. some 5000000;
  total_share = λ d. some 1000000;
  denom_creation_fee = some (coin (codes "uom") 7 ∷ []);
  positions = λ i. none;
}

abbrev pub alice : List Coin → MessageInfo
alice funds = record { sender = codes "alice"; funds = funds }

abbrev pub route : List SwapOperation
route =
    record {
      token_in_denom = codes "a";
      token_out_denom = codes "b";
      pool_identifier = codes "o.ab";
    }
    ∷ record {
      token_in_denom = codes "b";
      token_out_denom = codes "c";
      pool_identifier = codes "o.bc";
    }
    ∷ []

abbrev pub start : InstantiateMsg
start = record {
  fee_collector_addr = codes "fees";
  farm_manager_addr = codes "farms";
  pool_creation_fee = coin (codes "om") 100;
}

-- The state and the messages that a handler answers with; the state as it was where it refuses.
abbrev pub answer : {E A : Type 0} → Storage → A → Result E (Storage × A) → Storage × A
answer s a (ok out) = out
answer s a (err e) = (s, a)
