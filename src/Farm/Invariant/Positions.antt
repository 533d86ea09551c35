-- ===== src/Farm/Invariant/Positions.antt =====
-- The commands of farm-manager/src/position/commands.rs keep positions at their identifiers.
use stratosphere_contracts.Base.{ℕ, ◌≤◌, ◌≡◌, List, arith, Option, some, none, ok, Bool, false, ◌∙◌}
use stratosphere_contracts.Base.Text.{Text}
use stratosphere_contracts.Base.Coins.{Coin, MessageInfo}
use stratosphere_contracts.Base.Dict.{may_load, save}
use stratosphere_contracts.Farm.Data.{Position, Send, External, Env}
use stratosphere_contracts.Farm.Storage.{Storage, get_position}
use stratosphere_contracts.Farm.Weights.{update_weights}
use stratosphere_contracts.Farm.Frame.{books, update_weights-SameBooks, reconcile-SameBooks}
use stratosphere_contracts.Farm.Positions.{
  create_position, expand_position, close_position_partially, close_position_in_full, close_amount,
  close_position, position_identifier, reconcile_user_state, emergency_withdraw, expired_withdraw,
  withdraw_position,
}
use stratosphere_contracts.Farm.Keys.{
  PositionsKept, FarmsKept, auto-Issued, explicit-Issued, save-PositionsKept, remove-PositionsKept,
  position_identifier-kept, position-Issued-kept, Issued-weaken,
}

module _ (x : External) (env : Env) (info : MessageInfo) where
  pub create_position-PositionsKept :
      (identifier : Option Text) (d : ℕ) (receiver : Option Text) (s : Storage)
      (out : Storage × List Send)
      → PositionsKept s.position_id_counter s.positions
      → create_position x env info identifier d receiver s ≡ ok out
      → PositionsKept out.0.position_id_counter out.0.positions × (out.0.farms ≡ s.farms)
  unfolding create_position position_identifier
  create_position-PositionsKept none d receiver s out kept h =
      grind (arith, update_weights-SameBooks, save-PositionsKept, auto-Issued)
  create_position-PositionsKept (some i) d receiver s out kept h =
      grind (
        arith,
        update_weights-SameBooks,
        save-PositionsKept,
        explicit-Issued s.position_id_counter i,
      )

  pub expand_position-PositionsKept :
      (identifier : Text) (s : Storage) (out : Storage × List Send)
      → PositionsKept s.position_id_counter s.positions
      → expand_position x env info identifier s ≡ ok out
      → PositionsKept out.0.position_id_counter out.0.positions × (out.0.farms ≡ s.farms)
  unfolding expand_position get_position
  expand_position-PositionsKept identifier s out kept h = grind (
    arith,
    update_weights-SameBooks,
    save-PositionsKept,
    position_identifier-kept s.position_id_counter identifier,
    position-Issued-kept s.position_id_counter identifier,
  )

  close_amount-PositionsKept :
      (identifier : Text) (position : Position) (asset : Option Coin) (expires_at : ℕ) (s : Storage)
      (out : Position × ℕ × Storage)
      → PositionsKept s.position_id_counter s.positions
      → close_amount position asset expires_at s ≡ ok out
      → PositionsKept out.2.position_id_counter out.2.positions
        × (out.2.farms ≡ s.farms)
        × (s.position_id_counter ≤ out.2.position_id_counter)
        × (out.0.identifier ≡ position.identifier)
  unfolding close_amount close_position_in_full close_position_partially
  close_amount-PositionsKept identifier position none expires_at s out kept h = grind arith
  close_amount-PositionsKept identifier position (some asset) expires_at s out kept h =
      grind (arith, save-PositionsKept, auto-Issued)

  -- After the part is taken: the weights, the position's write and the user's state.
  settle_PositionsKept :
      (user identifier : Text) (asset : Option Coin) (lp_asset : Coin) (unlocking expires_at : ℕ)
      (s : Storage) (position : Position) (closed : Position × ℕ × Storage) (s' s'' : Storage)
      → PositionsKept s.position_id_counter s.positions
      → FarmsKept s.farms
      → may_load identifier s.positions ≡ some position
      → close_amount position asset expires_at s ≡ ok closed
      → update_weights x env user lp_asset unlocking false closed.2 ≡ ok s'
      → reconcile_user_state env user closed.0
          (record s' { positions = save identifier closed.0 s'.positions })
        ≡ ok s''
      → PositionsKept s''.position_id_counter s''.positions × FarmsKept s''.farms
  settle_PositionsKept user identifier asset lp_asset unlocking expires_at s position closed s' s''
        kept farms found took h k =
      let (c, f, le, same) =
        close_amount-PositionsKept identifier position asset expires_at s closed kept took in
      let key : closed.0.identifier ≡ identifier =
        same
        ∙ position_identifier-kept s.position_id_counter identifier position s.positions kept
            found in
      let issued =
        Issued-weaken identifier s.position_id_counter closed.2.position_id_counter le
          (position-Issued-kept s.position_id_counter identifier position s.positions kept found) in
      let (p₁, f₁, _, c₁, _) =
        books (update_weights-SameBooks x env user lp_asset unlocking false closed.2 h) in
      let (p₂, f₂, _, c₂, _) = books (
        reconcile-SameBooks env user closed.0
          (record s' { positions = save identifier closed.0 s'.positions }) k) in
      (
        rw (c₂, p₂, c₁, p₁)
            (save-PositionsKept closed.2.position_id_counter closed.2.position_id_counter identifier
              closed.0 closed.2.positions (omega arith) key issued c),
        rw (f₂, f₁, f) farms,
      )

  settle_farms :
      (user identifier : Text) (asset : Option Coin) (lp_asset : Coin) (unlocking expires_at : ℕ)
      (s : Storage) (position : Position) (closed : Position × ℕ × Storage) (s' s'' : Storage)
      → PositionsKept s.position_id_counter s.positions
      → FarmsKept s.farms
      → may_load identifier s.positions ≡ some position
      → close_amount position asset expires_at s ≡ ok closed
      → update_weights x env user lp_asset unlocking false closed.2 ≡ ok s'
      → reconcile_user_state env user closed.0
          (record s' { positions = save identifier closed.0 s'.positions })
        ≡ ok s''
      → FarmsKept s''.farms
  settle_farms user identifier asset lp_asset unlocking expires_at s position closed s' s'' kept
        farms found took h k =
      (settle_PositionsKept user identifier asset lp_asset unlocking expires_at s position closed s'
        s'' kept farms found took h k).1

  pub close_position-PositionsKept :
      (identifier : Text) (asset : Option Coin) (s : Storage) (out : Storage × List Send)
      → PositionsKept s.position_id_counter s.positions
      → FarmsKept s.farms
      → close_position x env info identifier asset s ≡ ok out
      → PositionsKept out.0.position_id_counter out.0.positions × FarmsKept out.0.farms
  unfolding close_position get_position
  close_position-PositionsKept identifier asset s out kept farms h = (
    grind (arith, settle_PositionsKept info.sender identifier asset),
    grind (arith, settle_farms info.sender identifier asset),
  )

  pub withdraw_position-PositionsKept :
      (identifier : Text) (emergency : Option Bool) (s : Storage) (out : Storage × List Send)
      → PositionsKept s.position_id_counter s.positions
      → withdraw_position x env info identifier emergency s ≡ ok out
      → PositionsKept out.0.position_id_counter out.0.positions × (out.0.farms ≡ s.farms)
  unfolding withdraw_position get_position expired_withdraw emergency_withdraw
  withdraw_position-PositionsKept identifier emergency s out kept h =
      grind (arith, update_weights-SameBooks, reconcile-SameBooks, remove-PositionsKept)
