-- ===== src/Farm/Solvency/Closing.antt =====
-- What closing farms pays back (close_farms and close_farm of
-- farm-manager/src/manager/commands.rs, with the farms that get_farms_by_lp_denom lists).
use stratosphere_contracts.Base.{
  ℕ, ◌+◌, ◌≤◌, ◌≡◌, refl, ap, List, [], ◌∷◌, arith, Option, some, ok, err, Bool, false, keep,
}
use stratosphere_contracts.Base.Text.{Text}
use stratosphere_contracts.Base.Coins.{MessageInfo, coin_amount, amount_of}
use stratosphere_contracts.Base.Dict.{may_load, remove, total, total-remove}
use stratosphere_contracts.Base.Keys.{Entries-remove}
use stratosphere_contracts.Farm.Data.{Farm, Send, External, Env, Config}
use stratosphere_contracts.Farm.Storage.{Storage, get_farms_by_lp_denom, get_farm_by_identifier}
use stratosphere_contracts.Farm.Manager.{
  close_farms, close_farm, partition_expired, expired_or_false, is_farm_expired,
}
use stratosphere_contracts.Farm.Keys.{FarmAtKey, FarmsKept, remove-FarmsKept, farm-kept}
use stratosphere_contracts.Farm.Listing.{Among, Among-remove, Among-keep, listed-Among}
use stratosphere_contracts.Farm.Solvency.Books.{lp_held, unclaimed, locked, owed, paid, Covered}

-- Closing pays each farm's owner what was not claimed, and takes it off what is owed.
pub close_farms-covers :
    (d : Text) (fs : List Farm) (s : Storage)
    → FarmsKept s.farms
    → Among fs s.farms
    → owed d (close_farms fs s).0 + paid d (close_farms fs s).1 ≤ owed d s
unfolding close_farms owed paid unclaimed FarmsKept amount_of coin_amount
close_farms-covers d [] s kept h = omega arith
close_farms-covers d (f ∷ fs) s kept h =
    let (found, rest) = Among-remove f fs s.farms kept h in
    let s' = record s { farms = remove f.identifier s.farms } in
    ground (
      arith,
      total-remove (unclaimed d) f.identifier s.farms,
      found,
      close_farms-covers d fs s' (Entries-remove FarmAtKey f.identifier s.farms kept) rest,
    )

-- Nothing but farms changes, and the farms that are left are kept as they were.
pub close_farms-kept :
    (fs : List Farm) (s : Storage)
    → FarmsKept s.farms
    → FarmsKept (close_farms fs s).0.farms
      × ((close_farms fs s).0.positions ≡ s.positions)
      × ((close_farms fs s).0.position_id_counter ≡ s.position_id_counter)
unfolding close_farms
close_farms-kept [] s kept = (kept, refl, refl)
close_farms-kept (f ∷ fs) s kept =
    close_farms-kept fs (record s { farms = remove f.identifier s.farms })
      (remove-FarmsKept f.identifier s.farms kept)

-- Whether a farm is found to have expired.
abbrev found_expired : Env → Config → Farm → Bool
found_expired env config f = elim (expired_or_false (is_farm_expired env config f)) [
  | ok b ↦ b
  | err e ↦ false
]

partition-keep :
    (env : Env) (config : Config) (fs : List Farm) (parts : List Farm × List Farm)
    → partition_expired env config fs ≡ ok parts
    → parts.0 ≡ keep (found_expired env config) fs
unfolding partition_expired
partition-keep env config [] parts h = ground arith
partition-keep env config (f ∷ fs) parts h = grind (arith, partition-keep env config fs)

-- The expired farms of a denom, closed.
pub close_expired-covers :
    (env : Env) (d lp_denom : Text) (limit : Option ℕ) (s : Storage) (parts : List Farm × List Farm)
    → FarmsKept s.farms
    → partition_expired env s.config (get_farms_by_lp_denom s lp_denom limit) ≡ ok parts
    → (owed d (close_farms parts.0 s).0 + paid d (close_farms parts.0 s).1 ≤ owed d s)
      × (locked d (close_farms parts.0 s).0 ≡ locked d s)
unfolding locked
close_expired-covers env d lp_denom limit s parts kept h = (
  close_farms-covers d parts.0 s kept (
      rw (partition-keep env s.config (get_farms_by_lp_denom s lp_denom limit) parts h) (
        Among-keep (found_expired env s.config) (get_farms_by_lp_denom s lp_denom limit) s.farms
          (listed-Among s lp_denom limit))),
  ap (total (lp_held d)) (close_farms-kept parts.0 s kept).1,
)

-- One farm, found at its identifier.
close_one-covers :
    (d : Text) (k : Text) (f : Farm) (s : Storage)
    → FarmsKept s.farms
    → may_load k s.farms ≡ some f
    → owed d (close_farms (f ∷ []) s).0 + paid d (close_farms (f ∷ []) s).1 ≤ owed d s
unfolding close_farms owed paid unclaimed amount_of coin_amount
close_one-covers d k f s kept found = ground (
  arith,
  total-remove (unclaimed d) f.identifier s.farms,
  found,
  farm-kept k f s.farms kept found,
)

module _ (x : External) where
  pub close_farm-Covered :
      (info : MessageInfo) (farm_identifier : Text) (s : Storage) (denom : Text)
      {out : Storage × List Send}
      → FarmsKept s.farms
      → close_farm x info farm_identifier s ≡ ok out
      → Covered denom s info.funds out
  unfolding close_farm Covered get_farm_by_identifier locked
  close_farm-Covered info farm_identifier s denom kept h =
      grind (arith, close_one-covers denom, close_farms-kept)
