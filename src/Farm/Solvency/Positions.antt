-- ===== src/Farm/Solvency/Positions.antt =====
-- Opening and expanding a position (farm-manager/src/position/commands.rs) owes what was sent.
use stratosphere_contracts.Base.{
  ℕ, ◌+◌, ◌<◌, ◌≡◌, List, ◌++◌, arith, Option, some, none, ok, ap, false,
}
use stratosphere_contracts.Base.Text.{Text, text_eq_iff, to_string}
use stratosphere_contracts.Base.Coins.{Coin, MessageInfo, coin_amount, amount_of}
use stratosphere_contracts.Base.Dict.{may_load, may_load-save, total, part, save, total-save}
use stratosphere_contracts.Farm.Data.{Position, Send, External, Env}
use stratosphere_contracts.Farm.Storage.{Storage, get_position}
use stratosphere_contracts.Farm.Weights.{update_weights}
use stratosphere_contracts.Farm.Frame.{books, update_weights-SameBooks, reconcile-SameBooks}
use stratosphere_contracts.Farm.Positions.{
  auto_position_id_prefix, create_position, expand_position, close_position_partially,
  close_position_in_full, close_amount, close_position, position_identifier, reconcile_user_state,
}
use stratosphere_contracts.Farm.Solvency.Books.{lp_held, locked, owed, paid, Covered, Lawful}
use stratosphere_contracts.Farm.Keys.{IsKept, position_identifier-kept, next_identifier_free}

module _ (x : External) (law : Lawful x) where
  pub create_position-Covered :
      (env : Env) (info : MessageInfo) (identifier : Option Text) (d : ℕ) (receiver : Option Text)
      (s : Storage) (denom : Text) {out : Storage × List Send}
      → create_position x env info identifier d receiver s ≡ ok out
      → Covered denom s info.funds out
  unfolding create_position position_identifier Covered locked owed paid lp_held get_position
      amount_of
  create_position-Covered env info none d receiver s denom h =
      grind (arith, update_weights-SameBooks, total-save, law.one_coin_law)
  create_position-Covered env info (some i) d receiver s denom h =
      grind (arith, update_weights-SameBooks, total-save, law.one_coin_law)

  pub expand_position-Covered :
      (env : Env) (info : MessageInfo) (identifier : Text) (s : Storage) (denom : Text)
      {out : Storage × List Send}
      → IsKept s
      → expand_position x env info identifier s ≡ ok out
      → Covered denom s info.funds out
  unfolding expand_position Covered locked owed paid lp_held get_position amount_of coin_amount
  expand_position-Covered env info identifier s denom kept h = grind (
    arith,
    update_weights-SameBooks,
    total-save,
    law.one_coin_law,
    position_identifier-kept s.position_id_counter identifier,
    text_eq_iff,
  )

-- What `close_amount` makes of the books: the part that closes is stored, the rest stays.
record Parted (d identifier : Text) (s : Storage) (position : Position)
    (out : Position × ℕ × Storage) : Type 0 where
  balance :
      total (lp_held d) out.2.positions + lp_held d out.0
      ≡ total (lp_held d) s.positions + lp_held d position
  found : may_load identifier out.2.positions ≡ some position
  farms : out.2.farms ≡ s.farms

close_partially-Parted :
    (d identifier : Text) (position : Position) (asset : Coin) (expires_at : ℕ) (s : Storage)
    {out : Position × ℕ × Storage}
    → IsKept s
    → may_load identifier s.positions ≡ some position
    → asset.denom ≡ position.lp_asset.denom
    → asset.amount < position.lp_asset.amount
    → close_position_partially position asset expires_at s ≡ ok out
    → Parted d identifier s position out
unfolding close_position_partially lp_held coin_amount
close_partially-Parted d identifier position asset expires_at s {out = out} kept found same below
      h =
    let free : may_load (auto_position_id_prefix ++ to_string (s.position_id_counter + 1))
          s.positions
        ≡ none =
      next_identifier_free s (s.position_id_counter + 1) kept (omega arith) in
    grind (arith, total-save, may_load-save, text_eq_iff)

close_amount-Parted :
    (d identifier : Text) (position : Position) (asset : Option Coin) (expires_at : ℕ) (s : Storage)
    {out : Position × ℕ × Storage}
    → IsKept s
    → may_load identifier s.positions ≡ some position
    → close_amount position asset expires_at s ≡ ok out
    → Parted d identifier s position out
unfolding close_amount close_position_in_full lp_held
close_amount-Parted d identifier position none expires_at s kept found h = ground arith
close_amount-Parted d identifier position (some asset) expires_at s {out = out} kept found h =
    ground (
      arith,
      close_partially-Parted d identifier position asset expires_at s {out = out} kept found,
      text_eq_iff asset.denom position.lp_asset.denom,
    )

-- After the part is taken, the weights and the user's state change nothing of the books.
close_books :
    (x : External) (env : Env) (user identifier : Text) (asset : Option Coin) (lp_asset : Coin)
    (unlocking expires_at : ℕ) (s : Storage) (position : Position) (d : Text)
    (closed : Position × ℕ × Storage) (s' s'' : Storage)
    → IsKept s
    → may_load identifier s.positions ≡ some position
    → close_amount position asset expires_at s ≡ ok closed
    → update_weights x env user lp_asset unlocking false closed.2 ≡ ok s'
    → reconcile_user_state env user closed.0
        (record s' { positions = save identifier closed.0 s'.positions })
      ≡ ok s''
    → (locked d s'' ≡ locked d s) × (owed d s'' ≡ owed d s)
unfolding locked owed
close_books x env user identifier asset lp_asset unlocking expires_at s position d closed s' s''
      kept found took h k =
    let parted = close_amount-Parted d identifier position asset expires_at s kept found took in
    let (p₁, f₁, _, _, _) =
      books (update_weights-SameBooks x env user lp_asset unlocking false closed.2 h) in
    let (p₂, f₂, _, _, _) = books (
      reconcile-SameBooks env user closed.0
        (record s' { positions = save identifier closed.0 s'.positions }) k) in
    (
      rw p₂ (
          rw p₁ (
            omega (
              arith,
              total-save (lp_held d) identifier closed.0 closed.2.positions,
              ap (part (lp_held d)) parted.found,
              parted.balance,
            ))),
      rw (f₂, f₁, parted.farms),
    )

module _ (x : External) where
  -- Closing a position, in full or in part, moves nothing out and leaves what is owed as it was.
  pub close_position-Covered :
      (env : Env) (info : MessageInfo) (identifier : Text) (asset : Option Coin) (s : Storage)
      (denom : Text) {out : Storage × List Send}
      → IsKept s
      → close_position x env info identifier asset s ≡ ok out
      → Covered denom s info.funds out
  unfolding close_position get_position Covered paid
  close_position-Covered env info identifier asset s denom kept h =
      grind (arith, close_books x env info.sender identifier asset)
