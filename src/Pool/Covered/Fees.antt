-- ===== src/Pool/Covered/Fees.antt =====
-- The fees of a new pool are sent with it (validate_fees_are_paid of pool-manager/src/helpers.rs).
use stratosphere_contracts.Base.{
  ℕ, ◌+◌, ◌≤◌, ◌≡◌, refl, sym, some, none, List, [], ◌∷◌, ◌++◌, arith, ok, Bool, true, false, not,
  ◌&&◌, any, find, Option-cases, inl, inr, Bool-cases, ◌>>=◌, ◌>>◌, >>=-eq-ok, ok_or, ensure,
  Result, ◌∙◌,
}
use stratosphere_contracts.Base.Text.{Text, text_eq, text_eq_iff}
use stratosphere_contracts.Base.Coins.{Coin, MessageInfo, coin_amount, amount_of}
use stratosphere_contracts.Pool.Data.{
  External, ContractError, std_error, token_factory_fee_not_paid,
}
use stratosphere_contracts.Pool.Creation.{
  sum_funds, get_paid_pool_fee_amount, paid_towards, pay_all, pay_pool_fee, validate_fees_are_paid,
}
use stratosphere_contracts.Pool.Books.{Lawful}

unfoldable pub has_denom : Text → List Coin → Bool
has_denom d cs = any (λ c. text_eq c.denom d) cs

unfoldable pub distinct_denoms : List Coin → Bool
unfolding has_denom
distinct_denoms [] = true
distinct_denoms (c ∷ cs) = not (has_denom c.denom cs) && distinct_denoms cs

-- The token factory asks for one coin, or for coins of different denoms, none of them the pool
-- creation fee's.
unfoldable pub paid_apart : Coin → List Coin → Bool
unfolding has_denom distinct_denoms
paid_apart fee [] = true
paid_apart fee (c ∷ []) = true
paid_apart fee (c ∷ e ∷ cs) = not (has_denom fee.denom (c ∷ e ∷ cs)) && distinct_denoms (c ∷ e ∷ cs)

unfoldable pub PaidApart : Coin → List Coin → Type 0
unfolding paid_apart
PaidApart fee charge = paid_apart fee charge ≡ true

-- The funds that are summed are those of the denom.
sum_funds-amount_of :
    (d : Text) (funds : List Coin) (acc total : ℕ)
    → sum_funds d funds acc ≡ some total
    → total ≡ acc + amount_of d funds
unfolding sum_funds amount_of coin_amount
sum_funds-amount_of d [] acc total h = ground arith
sum_funds-amount_of d (c ∷ cs) acc total h = grind (arith, sum_funds-amount_of d cs)

pay_pool_fee-amount_of :
    (info : MessageInfo) (fee : Coin) (fees : List Coin)
    → pay_pool_fee info fee ≡ ok fees
    → amount_of fee.denom info.funds ≡ fee.amount
unfolding pay_pool_fee get_paid_pool_fee_amount
pay_pool_fee-amount_of info fee fees h = grind (arith, sum_funds-amount_of fee.denom info.funds 0)

no_denom-amount_of : (d : Text) (cs : List Coin) → has_denom d cs ≡ false → amount_of d cs ≡ 0
unfolding has_denom amount_of coin_amount
no_denom-amount_of d [] h = refl
no_denom-amount_of d (c ∷ cs) h = ground (arith, no_denom-amount_of d cs)

-- What counts as paid towards a fee has been sent.
paid_towards-le :
    (info : MessageInfo) (fee : Coin)
    → (paid_towards info fee).amount ≤ amount_of fee.denom info.funds
unfolding paid_towards
paid_towards-le info fee = grind (
  arith,
  sum_funds-amount_of fee.denom info.funds 0,
  Option-cases (sum_funds fee.denom info.funds 0),
)

distinct_denoms-cons :
    (fee : Coin) (fees : List Coin)
    → distinct_denoms (fee ∷ fees) ≡ true
    → (has_denom fee.denom fees ≡ false) × (distinct_denoms fees ≡ true)
unfolding distinct_denoms
distinct_denoms-cons fee fees h = ground arith

pay_all-cons :
    (info : MessageInfo) (fee : Coin) (fees total out : List Coin)
    → pay_all info (fee ∷ fees) total ≡ (true, out)
    → (fee.amount ≤ amount_of fee.denom info.funds)
      × (pay_all info fees (total ++ paid_towards info fee ∷ []) ≡ (true, out))
unfolding pay_all
pay_all-cons info fee fees total out h = (grind (arith, paid_towards-le info fee), grind arith)

-- If all fees are paid, and their denoms are different, the funds are enough for them together.
pay_all-le :
    (info : MessageInfo) (fees total out : List Coin) (d : Text)
    → distinct_denoms fees ≡ true
    → pay_all info fees total ≡ (true, out)
    → amount_of d fees ≤ amount_of d info.funds
unfolding amount_of coin_amount
pay_all-le info [] total out d apart h = omega arith
pay_all-le info (fee ∷ fees) total out d apart h =
    let (absent, rest_apart) = distinct_denoms-cons fee fees apart in
    let (enough, rest) = pay_all-cons info fee fees total out h in
    let le = pay_all-le info fees (total ++ paid_towards info fee ∷ []) out d rest_apart rest in
    grind (arith, text_eq_iff fee.denom d, no_denom-amount_of fee.denom fees)

no_denom-find :
    (fee : Coin) (charge : List Coin)
    → has_denom fee.denom charge ≡ false
    → find (λ c. text_eq c.denom fee.denom) charge ≡ none
unfolding has_denom
no_denom-find fee [] h = refl
no_denom-find fee (c ∷ cs) h = ground (arith, no_denom-find fee cs)

PaidApart-cons :
    (fee c e : Coin) (cs : List Coin)
    → PaidApart fee (c ∷ e ∷ cs)
    → (has_denom fee.denom (c ∷ e ∷ cs) ≡ false) × (distinct_denoms (c ∷ e ∷ cs) ≡ true)
unfolding PaidApart paid_apart
PaidApart-cons fee c e cs h = ground arith

abbrev settled_all : MessageInfo → List Coin → List Coin → Result ContractError (List Coin)
settled_all info charge total_fees = do
  let paid = pay_all info charge total_fees
  ensure paid.0 token_factory_fee_not_paid
  ok paid.1

all_settled :
    (paid : Bool × List Coin) {out : List Coin}
    → (ensure (paid.0) token_factory_fee_not_paid >> ok (paid.1)) ≡ ok out
    → paid ≡ (true, paid.1)
all_settled (true, cs) h = refl
all_settled (false, cs) h = cc

separate_branch :
    (x : External) (fee : Coin) (charge : List Coin) (info : MessageInfo) (total : List Coin)
    → find (λ c. text_eq c.denom fee.denom) charge ≡ none
    → validate_fees_are_paid x fee charge info ≡ ok total
    → (out : List Coin) × (paid : List Coin) × (pay_pool_fee info fee ≡ ok paid)
      × (pay_all info charge paid ≡ (true, out))
unfolding validate_fees_are_paid
separate_branch x fee charge info total none_found h =
    let branch : validate_fees_are_paid x fee charge info ≡ (
        (pay_pool_fee info fee >>= λ total_fees. settled_all info charge total_fees)
        >>= λ total_fees. ok_or (x.aggregate_coins total_fees) std_error) =
      rw none_found refl in
    let (_, e, _) =
      >>=-eq-ok (pay_pool_fee info fee >>= λ total_fees. settled_all info charge total_fees) _
        (sym branch ∙ h) in
    let (paid, e1, rest) = >>=-eq-ok (pay_pool_fee info fee) _ e in
    ((pay_all info charge paid).1, paid, e1, all_settled (pay_all info charge paid) rest)

-- Where no fee of the token factory has the denom of the pool creation fee.
paid_separately :
    (x : External) (fee : Coin) (charge : List Coin) (info : MessageInfo) (total : List Coin)
    (d : Text)
    → has_denom fee.denom charge ≡ false
    → distinct_denoms charge ≡ true
    → validate_fees_are_paid x fee charge info ≡ ok total
    → coin_amount d fee + amount_of d charge ≤ amount_of d info.funds
unfolding validate_fees_are_paid coin_amount
paid_separately x fee charge info total d absent distinct h =
    let (_, paid, paid_pool, paid_all) =
      separate_branch x fee charge info total (no_denom-find fee charge absent) h in
    grind (
      arith,
      text_eq_iff fee.denom d,
      no_denom-amount_of fee.denom charge absent,
      pay_all-le info charge _ _ d distinct paid_all,
      pay_pool_fee-amount_of info fee paid paid_pool,
    )

no_denom-one :
    (fee c : Coin) → text_eq c.denom fee.denom ≡ false → has_denom fee.denom (c ∷ []) ≡ false
unfolding has_denom
no_denom-one fee c h = ground arith

distinct_one : (c : Coin) → distinct_denoms (c ∷ []) ≡ true
unfolding distinct_denoms has_denom
distinct_one c = refl

-- One fee, of the denom of the pool creation fee: their sum is sent.
one_fee :
    (x : External) (law : Lawful x) (fee c : Coin) (info : MessageInfo) (total : List Coin)
    → text_eq c.denom fee.denom ≡ true
    → validate_fees_are_paid x fee (c ∷ []) info ≡ ok total
    → info.funds ≡ record { denom = fee.denom; amount = c.amount + fee.amount } ∷ []
unfolding validate_fees_are_paid
one_fee x law fee c info total same h = grind (arith, law.must_pay_law info.funds fee.denom)

-- Where the fees are paid apart, the pool creation fee and the token factory's charge have both
-- been sent.
pub validate_fees_are_paid-le :
    (x : External) (law : Lawful x) (fee : Coin) (charge : List Coin) (info : MessageInfo)
    (total : List Coin) (d : Text)
    → PaidApart fee charge
    → validate_fees_are_paid x fee charge info ≡ ok total
    → coin_amount d fee + amount_of d charge ≤ amount_of d info.funds
unfolding coin_amount amount_of has_denom distinct_denoms
validate_fees_are_paid-le x law fee [] info total d apart h =
    paid_separately x fee [] info total d refl refl h
validate_fees_are_paid-le x law fee (c ∷ []) info total d apart h =
    elim (Bool-cases (text_eq c.denom fee.denom)) [
      | inl same ↦
          rw (one_fee x law fee c info total same h) (grind (arith, text_eq_iff c.denom fee.denom))
      | inr other ↦
          paid_separately x fee (c ∷ []) info total d (no_denom-one fee c other) (distinct_one c) h
    ]
validate_fees_are_paid-le x law fee (c ∷ e ∷ cs) info total d apart h =
    let (absent, distinct) = PaidApart-cons fee c e cs apart in
    paid_separately x fee (c ∷ e ∷ cs) info total d absent distinct h
