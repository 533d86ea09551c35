-- ===== src/Pool/Books.antt =====
-- The books of the pool manager: what its pools hold of a denom, and what its messages pay out.
-- The hypotheses on the libraries that pool-manager/src calls stand here too.
use stratosphere_contracts.Base.{
  ℕ, ◌+◌, ◌*◌, ◌≤◌, ◌≡◌, refl, subst, some, none, List, [], ◌∷◌, ◌++◌, arith, ok, if◌then◌else◌,
  unwrap_or,
}
use stratosphere_contracts.Base.Text.{Text, text_eq}
use stratosphere_contracts.Base.Coins.{Coin, coin_amount, amount_of}
use stratosphere_contracts.Base.Decimals.{IsFixedPoint}
use stratosphere_contracts.Base.Dict.{may_load, save, total, total-save, may_load-save}
use stratosphere_contracts.Pool.Data.{
  PoolInfo, Message, send, burn, mint_lp_token, burn_lp_asset, create_denom, manage_position,
  provide_liquidity_again, swap_and_reply, External, Env,
}
use stratosphere_contracts.Pool.Storage.{Storage, save_pool}

-- The documented behaviour of the libraries, as far as the theorems need it.
pub record Lawful (x : External) : Type 0 where
  pub decimal256_law : IsFixedPoint 256 x.decimal256
  pub one_coin_law : (funds : List Coin) (c : Coin) → x.one_coin funds ≡ some c → funds ≡ c ∷ []
  pub must_pay_law :
      (funds : List Coin) (d : Text) (a : ℕ)
      → x.must_pay funds d ≡ some a
      → funds ≡ record { denom = d; amount = a } ∷ []
  pub aggregate_law :
      (cs es : List Coin) (d : Text)
      → x.aggregate_coins cs ≡ some es
      → amount_of d es ≡ amount_of d cs
  pub integer_sqrt_law : (n : ℕ) → x.integer_sqrt n * x.integer_sqrt n ≤ n

unfoldable pub reserves : Text → PoolInfo → ℕ
reserves d pool = amount_of d pool.assets

-- What all pools hold of a denom.
unfoldable pub held : Text → Storage → ℕ
unfolding reserves
held d s = total (reserves d) s.pools

-- What a message takes from the contract's balance, where the token factory takes `charge` for a
-- new denom; a message to itself takes nothing.
unfoldable pub payment : List Coin → Text → Message → ℕ
payment charge d (send to coins) = amount_of d coins
payment charge d (burn coin) = coin_amount d coin
payment charge d (mint_lp_token denom to amount) = 0
payment charge d (burn_lp_asset denom amount) =
    coin_amount d (record { denom = denom; amount = amount })
payment charge d (create_denom subdenom) = amount_of d charge
payment charge d (manage_position contract action funds) = amount_of d funds
payment charge d (provide_liquidity_again receiver provision funds) = 0
payment charge d (swap_and_reply pool_identifier ask_denom max_spread funds) = 0

unfoldable pub paid : List Coin → Text → List Message → ℕ
unfolding payment
paid charge d [] = 0
paid charge d (m ∷ ms) = payment charge d m + paid charge d ms

-- What a message mints to an address, and all of a list.
unfoldable pub minting : Text → Text → Message → ℕ
minting address d (mint_lp_token denom to amount) =
    if text_eq to address then coin_amount d (record { denom = denom; amount = amount }) else 0
minting address d _ = 0

unfoldable pub minted : Text → Text → List Message → ℕ
unfolding minting
minted address d [] = 0
minted address d (m ∷ ms) = minting address d m + minted address d ms

pub paid-append :
    (charge : List Coin) (d : Text) (ms ns : List Message)
    → paid charge d (ms ++ ns) ≡ paid charge d ms + paid charge d ns
unfolding paid
paid-append charge d [] ns = omega arith
paid-append charge d (m ∷ ms) ns = omega (arith, paid-append charge d ms ns)

pub minted-append :
    (address d : Text) (ms ns : List Message)
    → minted address d (ms ++ ns) ≡ minted address d ms + minted address d ns
unfolding minted
minted-append address d [] ns = omega arith
minted-append address d (m ∷ ms) ns = omega (arith, minted-append address d ms ns)

-- The token factory's fee for a new denom, as the chain answers it.
unfoldable pub factory_charge : Env → List Coin
factory_charge env = unwrap_or env.denom_creation_fee []

-- The books do not lose: what the pools hold after a message, and what is paid out, come from what
-- they held, the message's funds, and the LP tokens minted to the contract.
unfoldable pub PoolsCovered : Env → Text → Storage → List Coin → Storage × List Message → Type 0
unfolding held paid minted factory_charge
PoolsCovered env d s funds (s', ms) =
    held d s' + paid (factory_charge env) d ms
    ≤ held d s + amount_of d funds + minted env.contract_address d ms

-- A saved pool: its own entry, and every other.
pub save_pool-pools :
    (k : Text) (pool : PoolInfo) (s s' : Storage)
    → save_pool k pool s ≡ ok s'
    → s' ≡ record s { pools = save k pool s.pools }
unfolding save_pool
save_pool-pools k pool s s' h = ground arith

pub save_pool-load :
    (k j : Text) (pool : PoolInfo) (s s' : Storage)
    → save_pool k pool s ≡ ok s'
    → may_load j s'.pools ≡ (if text_eq k j then some pool else may_load j s.pools)
save_pool-load k j pool s s' h =
    rw (save_pool-pools k pool s s' h) (may_load-save {V = PoolInfo} k j pool s.pools)

pub save_pool-config :
    (k : Text) (pool : PoolInfo) (s s' : Storage)
    → save_pool k pool s ≡ ok s'
    → s'.config ≡ s.config
save_pool-config k pool s s' h = rw (save_pool-pools k pool s s' h) refl

-- The holdings change by the pool's own reserves.
pub save_pool-held :
    (d k : Text) (old pool : PoolInfo) (s s' : Storage)
    → may_load k s.pools ≡ some old
    → save_pool k pool s ≡ ok s'
    → held d s' + reserves d old ≡ held d s + reserves d pool
unfolding held
save_pool-held d k old pool s s' h e = rw (save_pool-pools k pool s s' e) (
    subst
      (λ o.
        total (reserves d) (save k pool s.pools) + elim o [ none ↦ 0 | some v ↦ reserves d v ]
        ≡ total (reserves d) s.pools + reserves d pool)
      h (total-save (reserves d) k pool s.pools))

-- What the messages send of a denom to one address.
unfoldable pub sent_to : Text → Text → List Message → ℕ
sent_to address d [] = 0
sent_to address d (send to coins ∷ ms) =
    (if text_eq to address then amount_of d coins else 0) + sent_to address d ms
sent_to address d (_ ∷ ms) = sent_to address d ms

pub sent_to-append-le :
    (address d : Text) (ms ns : List Message) → sent_to address d ms ≤ sent_to address d (ms ++ ns)
unfolding sent_to
sent_to-append-le address d [] ns = omega arith
sent_to-append-le address d (send to coins ∷ ms) ns =
    omega (arith, sent_to-append-le address d ms ns)
sent_to-append-le address d (burn c ∷ ms) ns = sent_to-append-le address d ms ns
sent_to-append-le address d (mint_lp_token a b c ∷ ms) ns = sent_to-append-le address d ms ns
sent_to-append-le address d (burn_lp_asset a b ∷ ms) ns = sent_to-append-le address d ms ns
sent_to-append-le address d (create_denom a ∷ ms) ns = sent_to-append-le address d ms ns
sent_to-append-le address d (manage_position a b c ∷ ms) ns = sent_to-append-le address d ms ns
sent_to-append-le address d (provide_liquidity_again a b c ∷ ms) ns =
    sent_to-append-le address d ms ns
sent_to-append-le address d (swap_and_reply a b c e ∷ ms) ns = sent_to-append-le address d ms ns
