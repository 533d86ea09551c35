-- ===== src/Base/Coins.antt =====
-- Coins and the sender's message, as every contract reads them.
use stratosphere_contracts.Base.Text.{Text, text_eq}
use stratosphere_contracts.Base.Checks.{if◌then◌else◌}
use Prim.Native.Nat.{ℕ, ◌+◌}
use mathlib.Core.List.{List, [], ◌∷◌, ◌++◌}
use mathlib.Core.Path.{◌≡◌}
use native.Mathlib.Omega.{arith}

pub record Coin : Type 0 where
  pub denom : Text
  pub amount : ℕ

pub record MessageInfo : Type 0 where
  pub sender : Text
  pub funds : List Coin

-- How much of a denom a coin, and a list of coins, holds.
unfoldable pub coin_amount : Text → Coin → ℕ
coin_amount d c = if text_eq c.denom d then c.amount else 0

unfoldable pub amount_of : Text → List Coin → ℕ
unfolding coin_amount
amount_of d [] = 0
amount_of d (c ∷ cs) = coin_amount d c + amount_of d cs

pub amount_of-append :
    (d : Text) (cs es : List Coin) → amount_of d (cs ++ es) ≡ amount_of d cs + amount_of d es
unfolding amount_of
amount_of-append d [] es = omega arith
amount_of-append d (c ∷ cs) es = omega (arith, amount_of-append d cs es)
