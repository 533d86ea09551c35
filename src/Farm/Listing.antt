-- ===== src/Farm/Listing.antt =====
-- The farms that get_farms_by_lp_denom of farm-manager/src/state.rs lists stand in the map, each at
-- its identifier.
use stratosphere_contracts.Base.{
  ℕ, zero, suc, ◌≡◌, refl, List, [], ◌∷◌, arith, Option, some, none, Bool, true, false, inl, inr,
  ◌⊎◌, Bool-cases, take, keep,
}
use stratosphere_contracts.Base.Text.{Text, text_eq, text_eq_iff}
use stratosphere_contracts.Base.Dict.{Dict, may_load, remove, values}
use stratosphere_contracts.Base.Keys.{Entries}
use stratosphere_contracts.Farm.Data.{Farm}
use stratosphere_contracts.Farm.Storage.{Storage, get_farms_by_lp_denom}
use stratosphere_contracts.Farm.Keys.{FarmAtKey}

-- The farms are some of a map's values, in the map's order.
unfoldable pub Among : List Farm → Dict Farm → Type 0
Among [] d = Unit
Among (f ∷ fs) [] = ⊥
Among (f ∷ fs) ((k, g) ∷ d) = ((f ≡ g) × Among fs d) ⊎ Among (f ∷ fs) d

values-Among : (d : Dict Farm) → Among (values d) d
unfolding Among values
values-Among [] = tt
values-Among ((k, g) ∷ d) = inl (refl, values-Among d)

-- An entry more in front hides none of them.
Among-cons :
    (fs : List Farm) (k : Text) (g : Farm) (d : Dict Farm) → Among fs d → Among fs ((k, g) ∷ d)
unfolding Among
Among-cons [] k g d h = tt
Among-cons (f ∷ fs) k g d h = inr h

-- A key that the map does not have is removed from nothing.
Among-remove_absent :
    (k : Text) (fs : List Farm) (d : Dict Farm)
    → may_load k d ≡ none
    → Among fs d
    → Among fs (remove k d)
unfolding Among remove may_load
Among-remove_absent k [] d absent h = tt
Among-remove_absent k (f ∷ fs) [] absent h = elim h [ ]
Among-remove_absent k (f ∷ fs) ((j, g) ∷ d) absent h = elim (Bool-cases (text_eq j k)) [
  | inl same ↦ ground arith
  | inr other ↦ rw other (elim h [
    | inl (e, rest) ↦ inl (e, Among-remove_absent k fs d (ground arith) rest)
    | inr rest ↦ inr (Among-remove_absent k (f ∷ fs) d (ground arith) rest)
  ])
]

-- The first of the farms stands at its identifier, and the others are left when it is removed.
pub Among-remove :
    (f : Farm) (fs : List Farm) (d : Dict Farm)
    → Entries FarmAtKey d
    → Among (f ∷ fs) d
    → (may_load f.identifier d ≡ some f) × Among fs (remove f.identifier d)
unfolding Among remove may_load Entries FarmAtKey
Among-remove f fs [] kept h = elim h [ ]
Among-remove f fs ((k, g) ∷ d) ((e, le), fresh, kept) (inl (same, h)) =
    let here : text_eq k f.identifier ≡ true = ground (arith, text_eq_iff k f.identifier) in
    rw here (
      ground arith,
      Among-remove_absent f.identifier fs d (ground (arith, text_eq_iff k f.identifier)) h,
    )
Among-remove f fs ((k, g) ∷ d) ((e, le), fresh, kept) (inr h) =
    let (found, rest) = Among-remove f fs d kept h in
    let other : text_eq k f.identifier ≡ false = ground (arith, text_eq_iff k f.identifier) in
    rw other (found, Among-cons fs k g (remove f.identifier d) rest)

-- Sublists of the farms are among them too.
pub Among-keep :
    (p : Farm → Bool) (fs : List Farm) (d : Dict Farm) → Among fs d → Among (keep p fs) d
unfolding Among
Among-keep p [] d h = tt
Among-keep p (f ∷ fs) [] h = elim h [ ]
Among-keep p (f ∷ fs) ((k, g) ∷ d) (inr h) =
    Among-cons (keep p (f ∷ fs)) k g d (Among-keep p (f ∷ fs) d h)
Among-keep p (f ∷ fs) ((k, g) ∷ d) (inl (e, h)) = elim (Bool-cases (p f)) [
  | inl wanted ↦ rw wanted (inl (e, Among-keep p fs d h))
  | inr other ↦ rw other (Among-cons (keep p fs) k g d (Among-keep p fs d h))
]

Among-take : (n : ℕ) (fs : List Farm) (d : Dict Farm) → Among fs d → Among (take n fs) d
unfolding Among
Among-take zero fs d h = tt
Among-take (suc n) [] d h = tt
Among-take (suc n) (f ∷ fs) [] h = elim h [ ]
Among-take (suc n) (f ∷ fs) ((k, g) ∷ d) (inl (e, h)) = inl (e, Among-take n fs d h)
Among-take (suc n) (f ∷ fs) ((k, g) ∷ d) (inr h) = inr (Among-take (suc n) (f ∷ fs) d h)

pub listed-Among :
    (s : Storage) (lp_denom : Text) (limit : Option ℕ)
    → Among (get_farms_by_lp_denom s lp_denom limit) s.farms
unfolding get_farms_by_lp_denom
listed-Among s lp_denom limit =
    Among-take _ _ s.farms (
      Among-keep (λ f. text_eq f.lp_denom lp_denom) (values s.farms) s.farms (values-Among s.farms))

-- The later farms are among them too.
pub Among-tail : (f : Farm) (fs : List Farm) (d : Dict Farm) → Among (f ∷ fs) d → Among fs d
unfolding Among
Among-tail f fs [] h = elim h [ ]
Among-tail f fs ((k, e) ∷ d) (inl (same, h)) = Among-cons fs k e d h
Among-tail f fs ((k, e) ∷ d) (inr h) = Among-cons fs k e d (Among-tail f fs d h)
