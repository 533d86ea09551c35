-- ===== src/Farm/Terms.antt =====
-- The terms on which farms are created and expanded, and positions weighed (validate_farm_epochs of
-- farm-manager/src/helpers.rs; create_farm, expand_farm of manager/commands.rs;
-- calculate_weight of position/helpers.rs).
use native.Mathlib.Nat.{div-mul-le_self, mul-add, mul_comm}
use stratosphere_contracts.Base.{
  ℕ, ◌+◌, ◌-◌, ◌*◌, ◌/◌, ◌^◌, ◌≤◌, ◌<◌, ◌≡◌, ◌⊎◌, List, [], ◌∷◌, arith, some, ok,
}
use stratosphere_contracts.Base.Text.{Text, text_eq_iff}
use stratosphere_contracts.Base.Coins.{Coin, MessageInfo}
use stratosphere_contracts.Base.Dict.{may_load, remove, may_load-save, may_load-remove}
use stratosphere_contracts.Farm.Data.{Farm, FarmParams, Send, External, Env}
use stratosphere_contracts.Farm.Storage.{Storage}
use stratosphere_contracts.Farm.Manager.{
  validate_farm_epochs, create_farm, expand_farm, close_farms, farm_id,
}
use stratosphere_contracts.Farm.Weights.{calculate_weight, seconds_in_day, seconds_in_year}

-- The epochs that validate_farm_epochs accepts start above zero, end after they start and
-- after the current epoch, and start no later than the buffer allows.
pub validate_farm_epochs-bounds :
    (x : External) (params : FarmParams) (now buffer : ℕ) (first last : ℕ)
    → validate_farm_epochs x params now buffer ≡ ok (first, last)
    → (0 < first) × (first < last) × (now < last) × (first ≤ now + buffer)
unfolding validate_farm_epochs
validate_farm_epochs-bounds x params now buffer first last h = ground arith

-- Emitting at the rate for all epochs does not take more than the farm's asset.
pub record IsFunded (f : Farm) : Type 0 where
  pub funded : f.emission_rate * (f.preliminary_end_epoch - f.start_epoch) ≤ f.farm_asset.amount
  pub lasting : f.start_epoch < f.preliminary_end_epoch

rate-le : (n first last : ℕ) → (n / (last - first)) * (last - first) ≤ n
rate-le n first last = div-mul-le_self n (last - first)

-- An expansion by a multiple of the rate lasts that many epochs more.
expanded-le :
    (rate first last amount more : ℕ)
    → 0 < rate
    → first < last
    → rate * (last - first) ≤ amount
    → rate * (last + more / rate - first) ≤ amount + more
expanded-le rate first last amount more pos below h =
    let q = more / rate in
    let apart : last + q - first ≡ (last - first) + q = omega arith in
    rw apart
      (omega (arith, mul-add rate (last - first) q, mul_comm rate q, div-mul-le_self more rate, h))

-- If a farm starts before its end and its asset pays its emission rate for all its epochs,
-- then so it is with the farm found at its identifier after a successful expand_farm.
pub expand_farm-IsFunded :
    (x : External) (env : Env) (info : MessageInfo) (farm : Farm) (params : FarmParams)
    (s : Storage) {out : Storage × List Send} (f : Farm)
    → IsFunded farm
    → expand_farm x env info farm params s ≡ ok out
    → may_load farm.identifier out.0.farms ≡ some f
    → IsFunded f
unfolding expand_farm
expand_farm-IsFunded x env info farm params s f funded h e = record {
  funded = grind (
    arith,
    may_load-save {V = Farm} farm.identifier farm.identifier,
    text_eq_iff farm.identifier farm.identifier,
    expanded-le farm.emission_rate farm.start_epoch,
    funded.funded,
    funded.lasting,
  );
  lasting = grind (
    arith,
    may_load-save {V = Farm} farm.identifier farm.identifier,
    text_eq_iff farm.identifier farm.identifier,
    funded.lasting,
  );
}

-- Closing farms adds none and changes none.
close_farms-found :
    (fs : List Farm) (s : Storage) (k : Text) (f : Farm)
    → may_load k (close_farms fs s).0.farms ≡ some f
    → may_load k s.farms ≡ some f
unfolding close_farms
close_farms-found [] s k f h = h
close_farms-found (g ∷ fs) s k f h =
    let s' = record s { farms = remove g.identifier s.farms } in
    ground (arith, close_farms-found fs s' k f h, may_load-remove g.identifier k s.farms)

-- A farm found after a successful create_farm was there before just as it is, or it starts
-- before its end, is owned by the sender, holds the asset of the parameters, and its
-- emission rate over its epochs takes no more than that asset.
pub create_farm-IsFunded :
    (x : External) (env : Env) (info : MessageInfo) (params : FarmParams) (s : Storage)
    {out : Storage × List Send} (k : Text) (f : Farm)
    → create_farm x env info params s ≡ ok out
    → may_load k out.0.farms ≡ some f
    → (may_load k s.farms ≡ some f)
      ⊎ ((f.emission_rate * (f.preliminary_end_epoch - f.start_epoch) ≤ f.farm_asset.amount)
          × (f.start_epoch < f.preliminary_end_epoch)
          × (f.farm_asset ≡ params.farm_asset)
          × (f.owner ≡ info.sender))
unfolding create_farm farm_id
create_farm-IsFunded x env info params s k f h e = grind (
  arith,
  close_farms-found,
  may_load-save {V = Farm},
  validate_farm_epochs-bounds x params,
  rate-le,
)

-- For an amount below 2 ^ 128, calculate_weight gives a weight only for an unlocking
-- duration from a day to a year, and the weight is at least the amount and below 2 ^ 128.
pub calculate_weight-bounds :
    (x : External) (asset : Coin) (duration w : ℕ)
    → asset.amount < 2 ^ 128
    → calculate_weight x asset duration ≡ ok w
    → (seconds_in_day ≤ duration)
      × (duration ≤ seconds_in_year)
      × (asset.amount ≤ w)
      × (w < 2 ^ 128)
unfolding calculate_weight
calculate_weight-bounds x asset duration w below h = ground arith
