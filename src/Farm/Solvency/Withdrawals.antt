-- ===== src/Farm/Solvency/Withdrawals.antt =====
-- What a withdrawal pays out (withdraw_position of farm-manager/src/position/commands.rs).
use stratosphere_contracts.Base.{
  ℕ, ◌+◌, ◌*◌, ◌≤◌, ◌≡◌, List, [], ◌∷◌, arith, Option, some, ok, Bool, length, if◌then◌else◌,
}
use stratosphere_contracts.Base.Text.{Text, text_eq}
use stratosphere_contracts.Base.Coins.{MessageInfo, coin_amount, amount_of}
use stratosphere_contracts.Base.Dict.{total-remove}
use stratosphere_contracts.Base.Decimals.{Decimals, IsFixedPoint}
use stratosphere_contracts.Base.Rounding.{from_ratio_floor}
use stratosphere_contracts.Farm.Data.{Position, Send, Config, External, Env}
use stratosphere_contracts.Farm.Storage.{
  Storage, get_position, get_farms_by_lp_denom, max_items_limit,
}
use stratosphere_contracts.Farm.Rewards.{unique_texts}
use stratosphere_contracts.Farm.Frame.{update_weights-SameBooks, reconcile-SameBooks}
use stratosphere_contracts.Farm.Positions.{
  create_penalty_share_msg, owner_shares, penalty_messages, penalty_fee_share, emergency_withdraw,
  expired_withdraw, withdraw_position, owners_of,
}
use stratosphere_contracts.Farm.Solvency.Books.{
  lp_held, locked, owed, paid, paid-append, Covered, Lawful,
}

-- Half of a whole number, as a decimal, is not more than it.
module _ (w : ℕ) (d : Decimals) (law : IsFixedPoint w d) where
  pub half_floor :
      (n : ℕ) {r h : ℕ}
      → d.from_ratio n 1 ≡ some r
      → d.checked_mul r penalty_fee_share ≡ some h
      → d.to_uint_floor h ≤ n
  half_floor n e f =
      grind (arith, law.from_ratio_law n 1, law.checked_mul_law, law.to_uint_floor_law)

paid-owner_shares :
    (d lp_denom : Text) (share : ℕ) (owners : List Text)
    → paid d (owner_shares lp_denom share owners)
      ≡ (if text_eq lp_denom d then share * length owners else 0)
unfolding paid owner_shares create_penalty_share_msg amount_of coin_amount
paid-owner_shares d lp_denom share [] = ground arith
paid-owner_shares d lp_denom share (o ∷ owners) =
    ground (arith, paid-owner_shares d lp_denom share owners)

-- What of a denom the penalty's messages send.
abbrev pub within : Text → Text → ℕ → ℕ
within lp_denom d n = if text_eq lp_denom d then n else 0

module _ (x : External) (law : Lawful x) where
  -- With lawful decimals, the messages of an emergency penalty send at most the penalty of
  -- the LP denom, and nothing of any other denom.
  pub paid-penalty_messages :
      (config : Config) (lp_denom d : Text) (owners : List Text) (ms : List Send) (penalty : ℕ)
      → penalty_messages x config lp_denom owners penalty ≡ ok ms
      → paid d ms ≤ within lp_denom d penalty
  unfolding penalty_messages create_penalty_share_msg paid amount_of coin_amount
  paid-penalty_messages config lp_denom d owners ms penalty h = grind (
    arith,
    paid-append,
    paid-owner_shares,
    half_floor 128 x.decimal law.decimal_law penalty,
    from_ratio_floor 128 x.decimal law.decimal_law,
  )

  -- The position that an emergency withdrawal leaves, with what its messages send.
  emergency_withdraw-le :
      (env : Env) (info : MessageInfo) (position : Position) (s : Storage) (d : Text)
      (ms : List Send) (s' : Storage) (p : Position)
      → emergency_withdraw x env info position s ≡ ok (ms, s', p)
      → (paid d ms + lp_held d p ≤ lp_held d position)
        × (s'.positions ≡ s.positions)
        × (s'.farms ≡ s.farms)
  unfolding emergency_withdraw lp_held coin_amount
  emergency_withdraw-le env info position s d ms s' p h = grind (
    arith,
    paid-penalty_messages s.config position.lp_asset.denom d
        (unique_texts []
          (owners_of (get_farms_by_lp_denom s position.lp_asset.denom (some max_items_limit))))
        ms,
    update_weights-SameBooks x env info.sender,
  )

  pub withdraw_position-Covered :
      (env : Env) (info : MessageInfo) (identifier : Text) (emergency : Option Bool) (s : Storage)
      (denom : Text) {out : Storage × List Send}
      → withdraw_position x env info identifier emergency s ≡ ok out
      → Covered denom s info.funds out
  unfolding withdraw_position expired_withdraw get_position Covered locked owed paid lp_held
      amount_of coin_amount
  withdraw_position-Covered env info identifier emergency s denom h = grind (
    arith,
    emergency_withdraw-le,
    reconcile-SameBooks,
    total-remove (lp_held denom) identifier,
    paid-append,
  )
