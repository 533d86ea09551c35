-- ===== src/Base/Keys.antt =====
-- Maps whose keys each stand once, and whose entries are all of a kind.
use stratosphere_contracts.Base.Text.{Text, text_eq, text_lt, text_eq_iff}
use stratosphere_contracts.Base.Checks.{Bool-cases}
use stratosphere_contracts.Base.Results.{is_some}
use stratosphere_contracts.Base.Dict.{
  Dict, may_load, save, remove, replace, insert_in_order, may_load-replace, may_load-insert,
  may_load-remove,
}
use mathlib.Core.Path.{◌≡◌, refl, subst}
use mathlib.Core.Logic.{inl, inr}
use mathlib.Core.Bool.{true}
use mathlib.Core.List.{[], ◌∷◌}
use mathlib.Core.Option.{none, some}
use native.Mathlib.Omega.{arith}

-- A property of the key and the value of each entry; with the key's absence behind it, keys are
-- distinct.
unfoldable pub Entries : {V : Type 0} → (Text → V → Type 0) → Dict V → Type 0
Entries P [] = Unit
Entries P ((k, v) ∷ d) = P k v × (may_load k d ≡ none) × Entries P d

module _ {V : Type 0} (P : Text → V → Type 0) where
  pub Entries-may_load :
      (k : Text) (v : V) (d : Dict V) → Entries P d → may_load k d ≡ some v → P k v
  unfolding Entries may_load
  Entries-may_load k v [] h e = cc
  Entries-may_load k v ((j, w) ∷ d) (p, fresh, h) e = elim (Bool-cases (text_eq j k)) [
    | inl same ↦ subst (λ i. P i v) ((text_eq_iff j k).0 same) (subst (λ u. P j u) (ground arith) p)
    | inr other ↦ Entries-may_load k v d h (ground arith)
  ]

  Entries-replace :
      (k : Text) (v : V) (d : Dict V)
      → P k v
      → is_some (may_load k d) ≡ true
      → Entries P d
      → Entries P (replace k v d)
  unfolding Entries may_load replace
  Entries-replace k v [] p old h = tt
  Entries-replace k v ((j, w) ∷ d) p old (q, fresh, h) = elim (Bool-cases (text_eq j k)) [
    | inl same ↦ rw same (p, grind (arith, text_eq_iff), h)
    | inr other ↦ rw other (
      q,
      ground (arith, text_eq_iff k j, text_eq_iff j k, may_load-replace k j v d),
      Entries-replace k v d p (ground arith) h,
    )
  ]

  Entries-insert :
      (k : Text) (v : V) (d : Dict V)
      → P k v
      → may_load k d ≡ none
      → Entries P d
      → Entries P (insert_in_order k v d)
  unfolding Entries may_load insert_in_order
  Entries-insert k v [] p new h = (p, refl, tt)
  Entries-insert k v ((j, w) ∷ d) p new (q, fresh, h) = elim (Bool-cases (text_lt k j)) [
    | inl before ↦ rw before (p, new, (q, fresh, h))
    | inr after ↦ rw after (
      q,
      ground (arith, text_eq_iff k j, text_eq_iff j k, may_load-insert k j v d),
      Entries-insert k v d p (ground arith) h,
    )
  ]

  pub Entries-save : (k : Text) (v : V) (d : Dict V) → P k v → Entries P d → Entries P (save k v d)
  unfolding save
  Entries-save k v d p h = elim (Bool-cases (is_some (may_load k d))) [
    | inl old ↦ rw old (Entries-replace k v d p old h)
    | inr new ↦ rw new (Entries-insert k v d p (ground arith) h)
  ]

  pub Entries-remove : (k : Text) (d : Dict V) → Entries P d → Entries P (remove k d)
  unfolding Entries remove
  Entries-remove k [] h = tt
  Entries-remove k ((j, w) ∷ d) (q, fresh, h) = elim (Bool-cases (text_eq j k)) [
    | inl same ↦ rw same (Entries-remove k d h)
    | inr other ↦ rw other (q, ground (arith, may_load-remove k j d), Entries-remove k d h)
  ]
