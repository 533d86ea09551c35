-- ===== src/Farm/Solvency/Books.antt =====
-- What the contract owes in a denom, what its messages pay, and the shape of its maps.
use stratosphere_contracts.Base.{
  ℕ, ◌+◌, ◌-◌, ◌≤◌, ◌≡◌, List, [], ◌∷◌, ◌++◌, arith, if◌then◌else◌, some,
}
use stratosphere_contracts.Base.Text.{Text, text_eq}
use stratosphere_contracts.Base.Coins.{Coin, coin_amount, amount_of}
use stratosphere_contracts.Base.Dict.{total}
use stratosphere_contracts.Base.Decimals.{IsFixedPoint}
use stratosphere_contracts.Farm.Data.{Position, Farm, Send, External}
use stratosphere_contracts.Farm.Storage.{Storage}

-- The LP tokens of one position, in a denom.
unfoldable pub lp_held : Text → Position → ℕ
unfolding coin_amount
lp_held d p = coin_amount d p.lp_asset

-- What a farm still has to give, in a denom.
unfoldable pub unclaimed : Text → Farm → ℕ
unclaimed d f = if text_eq f.farm_asset.denom d then f.farm_asset.amount - f.claimed_amount else 0

unfoldable pub locked : Text → Storage → ℕ
unfolding total
locked d s = total (lp_held d) s.positions

unfoldable pub owed : Text → Storage → ℕ
unfolding total
owed d s = total (unclaimed d) s.farms

unfoldable pub paid : Text → List Send → ℕ
paid d [] = 0
paid d (m ∷ ms) = amount_of d m.amount + paid d ms

pub paid-append : (d : Text) (ms ns : List Send) → paid d (ms ++ ns) ≡ paid d ms + paid d ns
unfolding paid
paid-append d [] ns = omega arith
paid-append d (m ∷ ms) ns = omega (arith, paid-append d ms ns)

-- A call moved no more of a denom out, into messages and new debts, than came in and was owed less.
unfoldable pub Covered : Text → Storage → List Coin → Storage × List Send → Type 0
Covered d s funds (s', messages) =
    locked d s' + owed d s' + paid d messages ≤ locked d s + owed d s + amount_of d funds

-- Documented behaviour of the libraries: `one_coin` returns the only coin sent, `Decimal` is a
-- fixed-point number in 128 bits, and `aggregate_coins` keeps each denom's sum.
pub record Lawful (x : External) : Type 0 where
  pub one_coin_law : (funds : List Coin) (c : Coin) → x.one_coin funds ≡ some c → funds ≡ c ∷ []
  pub decimal_law : IsFixedPoint 128 x.decimal
  pub aggregate_law :
      (cs es : List Coin) (d : Text)
      → x.aggregate_coins cs ≡ some es
      → amount_of d es ≡ amount_of d cs
