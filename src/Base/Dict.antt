-- ===== src/Base/Dict.antt =====
-- A storage map with text keys (`Map`, `IndexedMap`): an association list in the order of its keys,
-- which is the order in which the storage iterates.
use stratosphere_contracts.Base.Text.{Text, text_eq, text_lt, text_eq_iff}
use stratosphere_contracts.Base.Checks.{if◌then◌else◌, Bool-cases}
use Prim.Native.Nat.{ℕ, ◌+◌, ◌≤◌}
use mathlib.Core.Path.{◌≡◌, refl}
use mathlib.Core.Logic.{inl, inr}
use mathlib.Core.Bool.{true, false}
use mathlib.Core.List.{List, [], ◌∷◌, map}
use mathlib.Core.Option.{Option, none, some}
use stratosphere_contracts.Base.Results.{is_some}
use native.Mathlib.Omega.{arith}

abbrev pub Dict {ℓ} : Type ℓ → Type ℓ
Dict V = List (Text × V)

module _ {ℓ} {V : Type ℓ} where
  -- `may_load`
  unfoldable pub may_load : Text → Dict V → Option V
  may_load k [] = none
  may_load k ((j, v) ∷ d) = if text_eq j k then some v else may_load k d

  unfoldable pub replace : Text → V → Dict V → Dict V
  replace k v [] = []
  replace k v ((j, w) ∷ d) = if text_eq j k then (k, v) ∷ d else (j, w) ∷ replace k v d

  unfoldable pub insert_in_order : Text → V → Dict V → Dict V
  insert_in_order k v [] = (k, v) ∷ []
  insert_in_order k v ((j, w) ∷ d) =
      if text_lt k j then (k, v) ∷ (j, w) ∷ d else (j, w) ∷ insert_in_order k v d

  -- `save`: in the place of the old value, or where the order wants a new key
  unfoldable pub save : Text → V → Dict V → Dict V
  unfolding may_load replace insert_in_order
  save k v d = if is_some (may_load k d) then replace k v d else insert_in_order k v d

  -- `remove`; a key stands once in a map, and all that it might stand for go
  unfoldable pub remove : Text → Dict V → Dict V
  remove k [] = []
  remove k ((j, w) ∷ d) = if text_eq j k then remove k d else (j, w) ∷ remove k d

  -- the values, as `range(.., Ascending)` gives them
  unfoldable pub values : Dict V → List V
  values d = map (λ e. e.1) d

  pub may_load-replace :
      (k j : Text) (v : V) (d : Dict V)
      → is_some (may_load k d) ≡ true
      → may_load j (replace k v d) ≡ (if text_eq k j then some v else may_load j d)
  unfolding may_load replace
  may_load-replace k j v [] h = cc
  may_load-replace k j v ((i, w) ∷ d) h =
      ground (arith, text_eq_iff k j, text_eq_iff i k, text_eq_iff i j, may_load-replace k j v d)

  pub may_load-insert :
      (k j : Text) (v : V) (d : Dict V)
      → is_some (may_load k d) ≡ false
      → may_load j (insert_in_order k v d) ≡ (if text_eq k j then some v else may_load j d)
  unfolding may_load insert_in_order
  may_load-insert k j v [] h = refl
  may_load-insert k j v ((i, w) ∷ d) h =
      ground (arith, text_eq_iff k j, text_eq_iff i k, text_eq_iff i j, may_load-insert k j v d)

  pub may_load-save :
      (k j : Text) (v : V) (d : Dict V)
      → may_load j (save k v d) ≡ (if text_eq k j then some v else may_load j d)
  unfolding save
  may_load-save k j v d = elim (Bool-cases (is_some (may_load k d))) [
    | inl old ↦ rw old (may_load-replace k j v d old)
    | inr new ↦ rw new (may_load-insert k j v d new)
  ]

  pub may_load-remove :
      (k j : Text) (d : Dict V)
      → may_load j (remove k d) ≡ (if text_eq k j then none else may_load j d)
  unfolding may_load remove
  may_load-remove k j [] = ground arith
  may_load-remove k j ((i, w) ∷ d) =
      ground (arith, text_eq_iff k j, text_eq_iff i k, text_eq_iff i j, may_load-remove k j d)

  -- A quantity summed over the values.
  unfoldable pub total : (V → ℕ) → Dict V → ℕ
  total f [] = 0
  total f ((k, v) ∷ d) = f v + total f d

  -- What an entry contributes, or nothing.
  abbrev pub part : (V → ℕ) → Option V → ℕ
  part f none = 0
  part f (some v) = f v

  total-replace :
      (f : V → ℕ) (k : Text) (v : V) (d : Dict V)
      → is_some (may_load k d) ≡ true
      → total f (replace k v d) + part f (may_load k d) ≡ total f d + f v
  unfolding total may_load replace
  total-replace f k v [] h = cc
  total-replace f k v ((i, w) ∷ d) h = ground (arith, total-replace f k v d)

  total-insert :
      (f : V → ℕ) (k : Text) (v : V) (d : Dict V)
      → total f (insert_in_order k v d) ≡ total f d + f v
  unfolding total insert_in_order
  total-insert f k v [] = omega arith
  total-insert f k v ((i, w) ∷ d) = ground (arith, total-insert f k v d)

  part_none : (f : V → ℕ) (o : Option V) → is_some o ≡ false → part f o ≡ 0
  part_none f none h = refl
  part_none f (some v) h = cc

  -- A write replaces the old contribution by the new one.
  pub total-save :
      (f : V → ℕ) (k : Text) (v : V) (d : Dict V)
      → total f (save k v d) + part f (may_load k d) ≡ total f d + f v
  unfolding save
  total-save f k v d = elim (Bool-cases (is_some (may_load k d))) [
    | inl old ↦ rw old (total-replace f k v d old)
    | inr new ↦ rw new (omega (arith, total-insert f k v d, part_none f (may_load k d) new))
  ]

  total-remove-le : (f : V → ℕ) (k : Text) (d : Dict V) → total f (remove k d) ≤ total f d
  unfolding total remove
  total-remove-le f k [] = omega arith
  total-remove-le f k ((i, w) ∷ d) = ground (arith, total-remove-le f k d)

  -- Removing a key takes its contribution out.
  pub total-remove :
      (f : V → ℕ) (k : Text) (d : Dict V) → total f (remove k d) + part f (may_load k d) ≤ total f d
  unfolding total remove may_load
  total-remove f k [] = omega arith
  total-remove f k ((i, w) ∷ d) = ground (arith, total-remove f k d, total-remove-le f k d)
