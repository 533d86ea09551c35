-- ===== src/Pool/Simulated.antt =====
-- Simulations and swaps agree (query_simulation and simulate_swap_operations of queries.rs,
-- perform_swap.rs and router/commands.rs of pool-manager/src).
use stratosphere_contracts.Base.{
  ℕ, ◌≡◌, refl, ap, sym, ◌∙◌, subst, Option, none, some, true, false, List, [], ◌∷◌, ◌++◌, ◌&&◌,
  not, all, arith, Result, ok, err, ◌>>=◌, >>=-eq-ok, some-injective, ok_or, Bool, head?, last?,
  ok-injective, ensure, ensure-eq-ok,
}
use stratosphere_contracts.Base.Text.{Text, text_eq, text_eq_iff}
use stratosphere_contracts.Base.Coins.{Coin, MessageInfo}
use stratosphere_contracts.Base.Dict.{may_load}
use stratosphere_contracts.Pool.Data.{
  ContractError, SwapOperation, Message, External, non_consecutive_swap_operations,
  no_swap_operations_provided,
}
use stratosphere_contracts.Pool.Storage.{Storage, get_pool_by_identifier}
use stratosphere_contracts.Pool.Compute.{SwapComputation}
use stratosphere_contracts.Pool.Swaps.{
  SwapResult, compute_pool_swap, perform_swap, query_simulation, burn_coin, send_coin,
}
use stratosphere_contracts.Pool.Router.{
  Collected, collect, simulate_in_turn, swap_in_turn, assert_operations, follow_operations,
  aggregate_collected, execute_swap_operations, simulate_swap_operations,
}
use stratosphere_contracts.Pool.Performed.{perform_swap-IsPerformed}
use stratosphere_contracts.Pool.Books.{save_pool-load}
use stratosphere_contracts.Pool.Covered.Routes.{performed-denom, execute_swap_operations-IsRouted}

-- The amounts that a simulation gives, and those that a swap has used.
abbrev pub amounts_of : SwapResult → SwapComputation
amounts_of r = record {
  return_amount = r.return_asset.amount;
  spread_amount = r.spread_amount;
  swap_fee_amount = r.swap_fee_asset.amount;
  protocol_fee_amount = r.protocol_fee_asset.amount;
  burn_fee_amount = r.burn_fee_asset.amount;
  extra_fees_amount = r.extra_fees_asset.amount;
}

-- A swap that is performed has exactly the amounts that the simulation query on the state
-- before it answers.
pub query_simulation-perform_swap :
    (x : External) (s : Storage) (offer_asset : Coin) (ask pool_identifier : Text)
    (belief_price max_spread : Option ℕ) (s' : Storage) (r : SwapResult)
    → perform_swap x s offer_asset ask pool_identifier belief_price max_spread ≡ ok (s', r)
    → query_simulation x s offer_asset ask pool_identifier ≡ ok (amounts_of r)
unfolding query_simulation get_pool_by_identifier compute_pool_swap
query_simulation-perform_swap x s offer_asset ask id bp m s' r h =
    let p = perform_swap-IsPerformed x s offer_asset ask id bp m (s', r) h in
    rw p.result (rw p.pool_at (rw p.indexes (rw p.computed refl)))

-- A swap whose simulation on the same state fails is refused with the same error, whatever
-- spread is allowed.
pub query_simulation-error :
    (x : External) (s : Storage) (offer_asset : Coin) (ask pool_identifier : Text)
    (belief_price max_spread : Option ℕ) (e : ContractError)
    → query_simulation x s offer_asset ask pool_identifier ≡ err e
    → perform_swap x s offer_asset ask pool_identifier belief_price max_spread ≡ err e
unfolding query_simulation perform_swap
query_simulation-error x s offer_asset ask id bp m e h = grind arith

-- The pools of a route are different ones.
unfoldable pub distinct_pools : List SwapOperation → Bool
distinct_pools [] = true
distinct_pools (o ∷ os) =
    all (λ p. not (text_eq o.pool_identifier p.pool_identifier)) os && distinct_pools os

-- A swap leaves the other pools alone.
perform_swap-other :
    (x : External) (s : Storage) (offer_asset : Coin) (ask pool_identifier : Text)
    (belief_price max_spread : Option ℕ) (out : Storage × SwapResult) (other : Text)
    → perform_swap x s offer_asset ask pool_identifier belief_price max_spread ≡ ok out
    → text_eq pool_identifier other ≡ false
    → may_load other (out.0).pools ≡ may_load other s.pools
perform_swap-other x s offer_asset ask id bp m out other h e =
    let p = perform_swap-IsPerformed x s offer_asset ask id bp m out h in
    save_pool-load id other (record p.pool { assets = p.assets }) s (out.0) p.saved ∙ rw e refl

-- The same pools for every operation of a route: its simulation is the same.
unfoldable SamePools : List SwapOperation → Storage → Storage → Type 0
SamePools [] s s' = Unit
SamePools (o ∷ os) s s' =
    (may_load o.pool_identifier s'.pools ≡ may_load o.pool_identifier s.pools) × SamePools os s s'

SamePools-refl : (os : List SwapOperation) (s : Storage) → SamePools os s s
unfolding SamePools
SamePools-refl [] s = tt
SamePools-refl (o ∷ os) s = (refl, SamePools-refl os s)

bind_cong {ℓ κ} :
    {E : Type 0} {A : Type ℓ} {B : Type κ} (r : Result E A) (f g : A → Result E B)
    → ((a : A) → f a ≡ g a)
    → (r >>= f) ≡ (r >>= g)
bind_cong (ok a) f g h = h a
bind_cong (err e) f g h = refl

pub query_simulation-same :
    (x : External) (s s' : Storage) (offer_asset : Coin) (ask pool_identifier : Text)
    → may_load pool_identifier s'.pools ≡ may_load pool_identifier s.pools
    → query_simulation x s' offer_asset ask pool_identifier
      ≡ query_simulation x s offer_asset ask pool_identifier
unfolding query_simulation get_pool_by_identifier
query_simulation-same x s s' offer_asset ask id h = rw h refl

simulate_in_turn-SamePools :
    (x : External) (os : List SwapOperation) (s s' : Storage) (c : Collected)
    → SamePools os s s'
    → simulate_in_turn x s' os c ≡ simulate_in_turn x s os c
unfolding SamePools simulate_in_turn
simulate_in_turn-SamePools x [] s s' c h = refl
simulate_in_turn-SamePools x (o ∷ os) s s' c (same, rest) =
    let offer : Coin = record { denom = o.token_in_denom; amount = c.amount } in
    rw (query_simulation-same x s s' offer o.token_out_denom o.pool_identifier same) (
      bind_cong (query_simulation x s offer o.token_out_denom o.pool_identifier)
        (λ res. simulate_in_turn x s' os (collect o.token_out_denom res.return_amount res c))
        (λ res. simulate_in_turn x s os (collect o.token_out_denom res.return_amount res c))
        (λ res.
          simulate_in_turn-SamePools x os s s' (collect o.token_out_denom res.return_amount res c)
            rest))

perform_swap-SamePools :
    (x : External) (s : Storage) (offer_asset : Coin) (ask pool_identifier : Text)
    (belief_price max_spread : Option ℕ) (out : Storage × SwapResult) (os : List SwapOperation)
    → perform_swap x s offer_asset ask pool_identifier belief_price max_spread ≡ ok out
    → all (λ p. not (text_eq pool_identifier p.pool_identifier)) os ≡ true
    → SamePools os s (out.0)
unfolding SamePools
perform_swap-SamePools x s offer_asset ask id bp m out [] h e = tt
perform_swap-SamePools x s offer_asset ask id bp m out (o ∷ os) h e = (
  perform_swap-other x s offer_asset ask id bp m out o.pool_identifier h (ground arith),
  perform_swap-SamePools x s offer_asset ask id bp m out os h (ground arith),
)

simulated_step :
    (x : External) (s : Storage) (offer_asset : Coin) (ask pool_identifier : Text)
    (belief_price max_spread : Option ℕ) (s' : Storage) (r : SwapResult) (denom : Text) (amount : ℕ)
    → denom ≡ offer_asset.denom
    → amount ≡ offer_asset.amount
    → perform_swap x s offer_asset ask pool_identifier belief_price max_spread ≡ ok (s', r)
    → query_simulation x s (record { denom = denom; amount = amount }) ask pool_identifier
      ≡ ok (amounts_of r)
simulated_step x s offer_asset ask id bp m s' r denom amount e f h =
    rw (e, f) (query_simulation-perform_swap x s offer_asset ask id bp m s' r h)

-- The loop of the simulation follows the loop of the swaps.
simulate_in_turn-swap_in_turn :
    (x : External) (f : Text) (m : Option ℕ) (os : List SwapOperation) (s s' : Storage)
    (offer output : Coin) (fees fees' : List Message) (c : Collected)
    → distinct_pools os ≡ true
    → follow_operations offer.denom os ≡ ok tt
    → c.amount ≡ offer.amount
    → swap_in_turn x f m os s offer fees ≡ ok (s', output, fees')
    → (c' : Collected) × (simulate_in_turn x s os c ≡ ok c') × (c'.amount ≡ output.amount)
unfolding distinct_pools follow_operations swap_in_turn simulate_in_turn collect
simulate_in_turn-swap_in_turn x f m [] s s' offer output fees fees' c d follow same h =
    (c, refl, ground arith)
simulate_in_turn-swap_in_turn x f m (o ∷ os) s s' offer output fees fees' c d follow same h =
    let ((s1, r), e, rest) =
      >>=-eq-ok (perform_swap x s offer o.token_out_denom o.pool_identifier none m) _ h in
    let (_, matching, onward) =
      >>=-eq-ok
        (ensure (text_eq o.token_in_denom offer.denom)
          (non_consecutive_swap_operations offer.denom o.token_in_denom))
        _ follow in
    let token : o.token_in_denom ≡ offer.denom = (text_eq_iff o.token_in_denom offer.denom).0 (
      ensure-eq-ok (text_eq o.token_in_denom offer.denom)
        (non_consecutive_swap_operations offer.denom o.token_in_denom) matching) in
    let one_step =
      simulated_step x s offer o.token_out_denom o.pool_identifier none m s1 r o.token_in_denom
        c.amount token same e in
    let denom = performed-denom x s offer o.token_out_denom o.pool_identifier none m (s1, r) e in
    let c1 : Collected = collect o.token_out_denom r.return_asset.amount (amounts_of r) c in
    let (c', simulated, amount) =
      simulate_in_turn-swap_in_turn x f m os s1 s' r.return_asset output
        (fees ++ burn_coin r.burn_fee_asset ++ send_coin f r.protocol_fee_asset) fees' c1
        (ground arith) (rw denom onward) refl rest in
    let others =
      perform_swap-SamePools x s offer o.token_out_denom o.pool_identifier none m (s1, r) os e
        (ground arith) in
    (c', rw one_step (sym (simulate_in_turn-SamePools x os s s1 c1 others) ∙ simulated), amount)

aggregate_collected-amount :
    (x : External) (c c' : Collected) → aggregate_collected x c ≡ ok c' → c'.amount ≡ c.amount
unfolding aggregate_collected
aggregate_collected-amount x c c' h = ground arith

assert_operations-follow :
    (os : List SwapOperation) (first : SwapOperation)
    → head? os ≡ some first
    → assert_operations os ≡ ok tt
    → follow_operations first.token_in_denom os ≡ ok tt
unfolding assert_operations
assert_operations-follow [] first e h = cc
assert_operations-follow (o ∷ os) first e h =
    subst (λ op. follow_operations op.token_in_denom (o ∷ os) ≡ ok tt) (some-injective e) h

-- A route over different pools that is executed begins its messages with sending the
-- receiver exactly the amount that the simulation of the same operations on the state before
-- gives, where that simulation succeeds.
pub execute_swap_operations-simulated :
    (x : External) (info : MessageInfo) (os : List SwapOperation) (least : Option ℕ)
    (receiver : Option Text) (m : Option ℕ) (s s' : Storage) (ms : List Message)
    (first last : SwapOperation) (offer_amount : ℕ) (c : Collected)
    → execute_swap_operations x info os least receiver m s ≡ ok (s', ms)
    → distinct_pools os ≡ true
    → head? os ≡ some first
    → last? os ≡ some last
    → x.must_pay info.funds first.token_in_denom ≡ some offer_amount
    → simulate_swap_operations x s offer_amount os ≡ ok c
    → (fees : List Message) × (ms
        ≡ send_coin
            (x.validate_addr_or_default receiver info.sender)
            (record { denom = last.token_out_denom; amount = c.amount })
          ++ fees)
unfolding simulate_swap_operations
execute_swap_operations-simulated x info os least receiver m s s' ms first last n c h d hf hl pay
      sim =
    let p = execute_swap_operations-IsRouted x info os least receiver m s (s', ms) h in
    let first_eq : first ≡ p.first = some-injective (sym hf ∙ p.first_at) in
    let last_eq : last ≡ p.last = some-injective (sym hl ∙ p.last_at) in
    let pay' : x.must_pay info.funds p.first.token_in_denom ≡ some n =
      subst (λ o. x.must_pay info.funds o.token_in_denom ≡ some n) first_eq pay in
    let amount_eq : n ≡ p.offer_amount = some-injective (sym pay' ∙ p.offered) in
    let start : Collected = record {
      amount = n;
      spreads = [];
      swap_fees = [];
      protocol_fees = [];
      burn_fees = [];
      extra_fees = [];
    } in
    let (_, _, h1) = >>=-eq-ok (ok_or (head? os) no_swap_operations_provided) _ sim in
    let (collected, e2, h2) = >>=-eq-ok (simulate_in_turn x s os start) _ h1 in
    let (c', e3, out) =
      simulate_in_turn-swap_in_turn x s.config.fee_collector_addr m os s s'
        (record { denom = p.first.token_in_denom; amount = p.offer_amount }) p.output []
        p.fee_messages start d (assert_operations-follow os p.first p.first_at p.asserted) amount_eq
        p.routed in
    let total : c.amount ≡ p.output.amount =
      aggregate_collected-amount x collected c h2
      ∙ ap (λ k. k.amount) (ok-injective (sym e2 ∙ e3))
      ∙ out in
    (p.fee_messages, rw (total, last_eq) p.messages)
