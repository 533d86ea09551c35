-- ===== src/Pool/Covered/Routes.antt =====
-- Routes of swaps: execute_swap_operations of pool-manager/src/router/commands.rs.
use stratosphere_contracts.Base.{
  ℕ, ◌+◌, ◌≤◌, ◌≡◌, ap, ◌∙◌, Option, some, none, List, [], ◌∷◌, ◌++◌, arith, ok, >>=-eq-ok, last?,
  head?, sym, subst, ensure, ok_or, ok_or-eq-ok, ok-injective,
}
use stratosphere_contracts.Base.Text.{Text, codes, text_eq_refl}
use stratosphere_contracts.Base.Coins.{Coin, MessageInfo, coin_amount, amount_of}
use stratosphere_contracts.Pool.Data.{
  SwapOperation, Message, External, operation_disabled, no_swap_operations_provided, payment_error,
}
use stratosphere_contracts.Pool.Storage.{Storage}
use stratosphere_contracts.Pool.Swaps.{SwapResult, perform_swap, send_coin, burn_coin, nonzero}
use stratosphere_contracts.Pool.Router.{
  swap_in_turn, assert_operations, assert_minimum_receive, execute_swap_operations,
}
use stratosphere_contracts.Pool.Reserves.{get_asset_indexes_in_pool-IsIndexes}
use stratosphere_contracts.Pool.Performed.{perform_swap-IsPerformed}
use stratosphere_contracts.Pool.Books.{Lawful, held, paid, paid-append, sent_to, sent_to-append-le}
use stratosphere_contracts.Pool.Covered.Swaps.{
  perform_swap-held, paid-send_coin, paid-burn_coin, same_coin,
}

pub performed-denom :
    (x : External) (s : Storage) (offer_asset : Coin) (ask pool_identifier : Text)
    (belief_price max_spread : Option ℕ) (out : Storage × SwapResult)
    → perform_swap x s offer_asset ask pool_identifier belief_price max_spread ≡ ok out
    → out.1.return_asset.denom ≡ ask
performed-denom x s offer_asset ask id bp m out h =
    let p = perform_swap-IsPerformed x s offer_asset ask id bp m out h in
    let indexes =
      get_asset_indexes_in_pool-IsIndexes p.pool offer_asset.denom ask p.found p.indexes in
    ap (λ r. r.return_asset.denom) p.result ∙ indexes.ask_denom

swap_in_turn-denom :
    (x : External) (fee_collector : Text) (m : Option ℕ) (operations : List SwapOperation)
    (last : SwapOperation) (s s' : Storage) (offer output : Coin) (fees fees' : List Message)
    → last? operations ≡ some last
    → swap_in_turn x fee_collector m operations s offer fees ≡ ok (s', output, fees')
    → output.denom ≡ last.token_out_denom
unfolding swap_in_turn
swap_in_turn-denom x f m [] last s s' offer output fees fees' e h = cc
swap_in_turn-denom x f m (op ∷ []) last s s' offer output fees fees' e h =
    grind (arith, performed-denom x s offer op.token_out_denom op.pool_identifier none m)
swap_in_turn-denom x f m (op ∷ next ∷ ops) last s s' offer output fees fees' e h =
    let (swapped, _, rest) =
      >>=-eq-ok (perform_swap x s offer op.token_out_denom op.pool_identifier none m) _ h in
    swap_in_turn-denom x f m (next ∷ ops) last (swapped.0) s' (swapped.1.return_asset) output
      (fees ++ burn_coin (swapped.1.burn_fee_asset) ++ send_coin f (swapped.1.protocol_fee_asset))
      fees' e rest

swap_in_turn-held :
    (x : External) (fee_collector : Text) (m : Option ℕ) (operations : List SwapOperation)
    (s s' : Storage) (offer output : Coin) (fees fees' : List Message) (charge : List Coin)
    (d : Text)
    → swap_in_turn x fee_collector m operations s offer fees ≡ ok (s', output, fees')
    → held d s' + coin_amount d output + paid charge d fees'
      ≡ held d s + coin_amount d offer + paid charge d fees
unfolding swap_in_turn
swap_in_turn-held x f m [] s s' offer output fees fees' charge d h = ground arith
swap_in_turn-held x f m (op ∷ ops) s s' offer output fees fees' charge d h =
    let ((s1, r), e, rest) =
      >>=-eq-ok (perform_swap x s offer op.token_out_denom op.pool_identifier none m) _ h in
    let fees1 = fees ++ burn_coin r.burn_fee_asset ++ send_coin f r.protocol_fee_asset in
    let paid1 : paid charge d fees1
        ≡ paid charge d fees + coin_amount d r.burn_fee_asset + coin_amount d r.protocol_fee_asset =
      grind (arith, paid-append, paid-send_coin, paid-burn_coin) in
    omega (
      arith,
      paid1,
      perform_swap-held x s offer op.token_out_denom op.pool_identifier none m s1 r d e,
      swap_in_turn-held x f m ops s1 s' r.return_asset output fees1 fees' charge d rest,
    )

-- The steps of a route that has been taken, each with its value.
pub record IsRouted (x : External) (info : MessageInfo) (operations : List SwapOperation)
    (minimum_receive : Option ℕ) (receiver : Option Text) (m : Option ℕ) (s : Storage)
    (out : Storage × List Message) : Type 0 where
  pub first : SwapOperation
  pub last : SwapOperation
  pub offer_amount : ℕ
  pub output : Coin
  pub fee_messages : List Message
  pub first_at : head? operations ≡ some first
  pub last_at : last? operations ≡ some last
  pub offered : x.must_pay info.funds first.token_in_denom ≡ some offer_amount
  pub asserted : assert_operations operations ≡ ok tt
  pub routed :
      swap_in_turn x s.config.fee_collector_addr m operations s
        (record { denom = first.token_in_denom; amount = offer_amount })
        []
      ≡ ok (out.0, output, fee_messages)
  pub received : assert_minimum_receive minimum_receive output.amount ≡ ok tt
  pub messages :
      out.1
      ≡ send_coin
          (x.validate_addr_or_default receiver info.sender)
          (record { denom = last.token_out_denom; amount = output.amount })
        ++ fee_messages

pub execute_swap_operations-IsRouted :
    (x : External) (info : MessageInfo) (operations : List SwapOperation)
    (minimum_receive : Option ℕ) (receiver : Option Text) (m : Option ℕ) (s : Storage)
    (out : Storage × List Message)
    → execute_swap_operations x info operations minimum_receive receiver m s ≡ ok out
    → IsRouted x info operations minimum_receive receiver m s out
unfolding execute_swap_operations
execute_swap_operations-IsRouted x info operations minimum_receive receiver m s out h =
    let (_, _, h0) =
      >>=-eq-ok (ensure s.config.feature_toggle.swaps_enabled (operation_disabled (codes "swap"))) _
        h in
    let (last, e1, h1) = >>=-eq-ok (ok_or (last? operations) no_swap_operations_provided) _ h0 in
    let (first, e2, h2) = >>=-eq-ok (ok_or (head? operations) no_swap_operations_provided) _ h1 in
    let (offer_amount, e3, h3) =
      >>=-eq-ok (ok_or (x.must_pay info.funds first.token_in_denom) payment_error) _ h2 in
    let (_, e4, h4) = >>=-eq-ok (assert_operations operations) _ h3 in
    let ((s', output, fee_messages), e5, h5) =
      >>=-eq-ok
        (swap_in_turn x s.config.fee_collector_addr m operations s
          (record { denom = first.token_in_denom; amount = offer_amount }) [])
        _ h4 in
    let (_, e6, h6) = >>=-eq-ok (assert_minimum_receive minimum_receive output.amount) _ h5 in
    record {
      first = first;
      last = last;
      offer_amount = offer_amount;
      output = output;
      fee_messages = fee_messages;
      first_at = ok_or-eq-ok (head? operations) no_swap_operations_provided e2;
      last_at = ok_or-eq-ok (last? operations) no_swap_operations_provided e1;
      offered = ok_or-eq-ok (x.must_pay info.funds first.token_in_denom) payment_error e3;
      asserted = e4;
      routed =
          subst
            (λ o.
              swap_in_turn x s.config.fee_collector_addr m operations s
                (record { denom = first.token_in_denom; amount = offer_amount }) []
              ≡ ok (o.0, output, fee_messages))
            (ok-injective h6) e5;
      received = e6;
      messages = ap (λ o. o.1) (sym (ok-injective h6));
    }

-- With lawful libraries, what the pools hold of a denom after a route together with what its
-- messages pay out is exactly what the pools held with the funds of the message.
pub execute_swap_operations-held :
    (x : External) (law : Lawful x) (info : MessageInfo) (operations : List SwapOperation)
    (minimum_receive : Option ℕ) (receiver : Option Text) (m : Option ℕ) (s s' : Storage)
    (ms : List Message) (charge : List Coin) (d : Text)
    → execute_swap_operations x info operations minimum_receive receiver m s ≡ ok (s', ms)
    → held d s' + paid charge d ms ≡ held d s + amount_of d info.funds
unfolding amount_of paid
execute_swap_operations-held x law info operations minimum_receive receiver m s s' ms charge d h =
    let p =
      execute_swap_operations-IsRouted x info operations minimum_receive receiver m s (s', ms) h in
    let offer : Coin = record { denom = p.first.token_in_denom; amount = p.offer_amount } in
    let sent : Coin = record { denom = p.last.token_out_denom; amount = p.output.amount } in
    let to = x.validate_addr_or_default receiver info.sender in
    let denom =
      swap_in_turn-denom x s.config.fee_collector_addr m operations p.last s s' offer p.output []
        p.fee_messages p.last_at p.routed in
    rw p.messages (
      rw (law.must_pay_law info.funds p.first.token_in_denom p.offer_amount p.offered) (
        omega (
          arith,
          paid-append charge d (send_coin to sent) p.fee_messages,
          paid-send_coin charge d to sent,
          same_coin d p.last.token_out_denom p.output (sym denom),
          swap_in_turn-held x s.config.fee_collector_addr m operations s s' offer p.output []
              p.fee_messages charge d p.routed,
        )))

sent_to-send_coin :
    (to denom : Text) (amount : ℕ)
    → sent_to to denom (send_coin to (record { denom = denom; amount = amount })) ≡ amount
unfolding sent_to send_coin nonzero amount_of coin_amount
sent_to-send_coin to denom amount = ground (arith, text_eq_refl to, text_eq_refl denom)

assert_minimum_receive-le :
    (least amount : ℕ) → assert_minimum_receive (some least) amount ≡ ok tt → least ≤ amount
unfolding assert_minimum_receive
assert_minimum_receive-le least amount h = ground arith

-- A route that is executed with a minimum to receive sends the receiver at least that much
-- of the denom of its last operation.
pub execute_swap_operations-minimum :
    (x : External) (info : MessageInfo) (operations : List SwapOperation) (least : ℕ)
    (receiver : Option Text) (m : Option ℕ) (s s' : Storage) (ms : List Message)
    (last : SwapOperation)
    → execute_swap_operations x info operations (some least) receiver m s ≡ ok (s', ms)
    → last? operations ≡ some last
    → least ≤ sent_to (x.validate_addr_or_default receiver info.sender) last.token_out_denom ms
execute_swap_operations-minimum x info operations least receiver m s s' ms last h e =
    let p =
      execute_swap_operations-IsRouted x info operations (some least) receiver m s (s', ms) h in
    let to = x.validate_addr_or_default receiver info.sender in
    let found = p.last_at in
    let same : p.last ≡ last = cc in
    rw p.messages (
      rw (sym same) (
        omega (
          arith,
          sent_to-send_coin to p.last.token_out_denom p.output.amount,
          sent_to-append-le to p.last.token_out_denom
              (send_coin to (record { denom = p.last.token_out_denom; amount = p.output.amount }))
              p.fee_messages,
          assert_minimum_receive-le least p.output.amount p.received,
        )))
