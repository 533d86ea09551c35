-- ===== src/Farm/Solvency/Filling.antt =====
-- What creating and expanding a farm takes and owes (create_farm, expand_farm of
-- farm-manager/src/manager/commands.rs; process_farm_creation_fee, assert_farm_asset of helpers.rs).
use stratosphere_contracts.Base.{
  ◌+◌, ◌≤◌, ◌≡◌, ap, List, [], ◌∷◌, ◌++◌, arith, some, none, ok, find,
}
use stratosphere_contracts.Base.Text.{Text, text_eq, text_eq_iff}
use stratosphere_contracts.Base.Coins.{Coin, MessageInfo, coin_amount, amount_of}
use stratosphere_contracts.Base.Dict.{may_load, save, total, total-save}
use stratosphere_contracts.Farm.Data.{Farm, FarmParams, Send, External, Env, Config}
use stratosphere_contracts.Farm.Storage.{Storage, get_farm_by_identifier}
use stratosphere_contracts.Farm.Manager.{
  process_farm_creation_fee, assert_farm_asset, create_farm, expand_farm, farm_id,
}
use stratosphere_contracts.Farm.Keys.{FarmsKept, farm-kept}
use stratosphere_contracts.Farm.Solvency.Books.{
  unclaimed, locked, owed, paid, paid-append, Covered, Lawful,
}
use stratosphere_contracts.Farm.Solvency.Closing.{close_expired-covers}

-- A coin that is found among those sent is part of what was sent.
find-le :
    (k : Text) (funds : List Coin) {c : Coin}
    → find (λ c. text_eq c.denom k) funds ≡ some c
    → c.amount ≤ amount_of k funds
unfolding amount_of coin_amount
find-le k [] h = cc
find-le k (c ∷ funds) h = grind (arith, find-le k funds)

-- Where the farm creation fee and the farm asset are both accepted, the fee, its refund and
-- the asset together are at most what was sent, in every denom.
pub fee-le :
    (config : Config) (info : MessageInfo) (params : FarmParams) (d : Text) (ms : List Send)
    → process_farm_creation_fee config info params ≡ ok ms
    → assert_farm_asset info config.create_farm_fee params ≡ ok tt
    → paid d ms + coin_amount d params.farm_asset ≤ amount_of d info.funds
unfolding process_farm_creation_fee assert_farm_asset coin_amount paid amount_of
fee-le config info params d ms h k = grind (
  arith,
  find-le config.create_farm_fee.denom info.funds,
  find-le params.farm_asset.denom info.funds,
  text_eq_iff config.create_farm_fee.denom d,
  text_eq_iff params.farm_asset.denom d,
  text_eq_iff config.create_farm_fee.denom params.farm_asset.denom,
)

module _ (x : External) (law : Lawful x) where
  pub expand_farm-Covered :
      (env : Env) (info : MessageInfo) (farm : Farm) (params : FarmParams) (s : Storage)
      (denom : Text) {out : Storage × List Send}
      → FarmsKept s.farms
      → may_load farm.identifier s.farms ≡ some farm
      → expand_farm x env info farm params s ≡ ok out
      → Covered denom s info.funds out
  unfolding expand_farm Covered locked owed paid unclaimed amount_of coin_amount
  expand_farm-Covered env info farm params s denom kept found h = grind (
    arith,
    total-save (unclaimed denom) farm.identifier,
    law.one_coin_law,
    farm-kept farm.identifier farm s.farms,
    text_eq_iff,
  )

-- Without a fee, the farm's asset is among what was sent.
asset-le :
    (config : Config) (info : MessageInfo) (params : FarmParams) (d : Text)
    → assert_farm_asset info config.create_farm_fee params ≡ ok tt
    → coin_amount d params.farm_asset ≤ amount_of d info.funds
unfolding assert_farm_asset coin_amount
asset-le config info params d k = grind (
  arith,
  find-le params.farm_asset.denom info.funds,
  text_eq_iff params.farm_asset.denom d,
  text_eq_iff config.create_farm_fee.denom params.farm_asset.denom,
)

-- A new farm owes its asset.
owed-new :
    (d k : Text) (f : Farm) (s : Storage)
    → f.claimed_amount ≡ 0
    → may_load k s.farms ≡ none
    → total (unclaimed d) (save k f s.farms)
      ≡ total (unclaimed d) s.farms + coin_amount d f.farm_asset
unfolding unclaimed coin_amount
owed-new d k f s fresh absent = ground (arith, total-save (unclaimed d) k f s.farms, absent, fresh)

-- What the closing of farms and the fee's messages pay, with the new farm, is covered.
create_books :
    (d k : Text) (f : Farm) (s s' : Storage) (closed : Storage × List Send) (ms : List Send)
    (funds : List Coin)
    → (owed d closed.0 + paid d closed.1 ≤ owed d s) × (locked d closed.0 ≡ locked d s)
    → s'.farms ≡ closed.0.farms
    → s'.positions ≡ closed.0.positions
    → f.claimed_amount ≡ 0
    → may_load k s'.farms ≡ none
    → paid d ms + coin_amount d f.farm_asset ≤ amount_of d funds
    → Covered d s funds (record s' { farms = save k f s'.farms }, closed.1 ++ ms)
unfolding Covered locked owed
create_books d k f s s' closed ms funds (covers, same) farms positions fresh absent fee =
    rw positions (
      omega (
        arith,
        covers,
        same,
        fee,
        owed-new d k f s' fresh absent,
        paid-append d closed.1 ms,
        ap (total (unclaimed d)) farms,
      ))

module _ (x : External) where
  pub create_farm-Covered :
      (env : Env) (info : MessageInfo) (params : FarmParams) (s : Storage) (denom : Text)
      {out : Storage × List Send}
      → FarmsKept s.farms
      → create_farm x env info params s ≡ ok out
      → Covered denom s info.funds out
  unfolding create_farm farm_id get_farm_by_identifier paid
  create_farm-Covered env info params s denom kept h = grind (
    arith,
    close_expired-covers env denom params.lp_denom (some s.config.max_concurrent_farms) s,
    fee-le s.config info params denom,
    asset-le s.config info params denom,
    create_books denom,
  )
