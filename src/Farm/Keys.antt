-- ===== src/Farm/Keys.antt =====
-- The keys of the farm manager's maps: positions and farms stand at their identifiers
-- (POSITIONS and FARMS of farm-manager/src/state.rs, POSITION_ID_COUNTER).
use stratosphere_contracts.Base.{
  ℕ, ◌≤◌, ◌<◌, ◌≡◌, ◌≢◌, refl, ap, [], ◌∷◌, ◌++◌, arith, some, none, Option-cases, inl, inr,
}
use stratosphere_contracts.Base.Text.{Text, to_string, to_string_injective}
use stratosphere_contracts.Base.Dict.{Dict, may_load, save, remove}
use stratosphere_contracts.Base.Keys.{Entries, Entries-may_load, Entries-save, Entries-remove}
use stratosphere_contracts.Farm.Data.{Position, Farm}
use stratosphere_contracts.Farm.Storage.{Storage}
use stratosphere_contracts.Farm.Positions.{auto_position_id_prefix, explicit_position_id_prefix}

-- A key that is no automatic identifier beyond the counter.
unfoldable pub Issued : ℕ → Text → Type 0
Issued counter k = (n : ℕ) → counter < n → k ≢ auto_position_id_prefix ++ to_string n

-- An identifier without its two-character prefix.
abbrev bare : Text → Text
bare (a ∷ b ∷ t) = t
bare t = t

pub auto-Issued : (n : ℕ) → Issued n (auto_position_id_prefix ++ to_string n)
unfolding Issued
auto-Issued n m below e = let same : n ≡ m = to_string_injective n m (ap bare e) in omega arith

pub explicit-Issued : (n : ℕ) (i : Text) → Issued n (explicit_position_id_prefix ++ i)
unfolding Issued
explicit-Issued n i m below e = ground arith

pub Issued-weaken : (k : Text) (n m : ℕ) → n ≤ m → Issued n k → Issued m k
unfolding Issued
Issued-weaken k n m le issued j below e = issued j (omega arith) e

-- A position at its key.
abbrev AtKey : ℕ → Text → Position → Type 0
AtKey counter k p = (p.identifier ≡ k) × Issued counter k

unfoldable pub PositionsKept : ℕ → Dict Position → Type 0
unfolding Entries
PositionsKept counter d = Entries (AtKey counter) d

-- A farm at its key, which gave no more than it has.
unfoldable pub FarmAtKey : Text → Farm → Type 0
FarmAtKey k f = (f.identifier ≡ k) × (f.claimed_amount ≤ f.farm_asset.amount)

unfoldable pub FarmsKept : Dict Farm → Type 0
unfolding Entries
FarmsKept d = Entries FarmAtKey d

-- Keys are identifiers, automatic ones come from the counter, and no farm gave more than it has.
pub record IsKept (s : Storage) : Type 0 where
  pub positions : PositionsKept s.position_id_counter s.positions
  pub farms : FarmsKept s.farms

Entries-weaken : (n m : ℕ) → n ≤ m → (d : Dict Position) → Entries (AtKey n) d → Entries (AtKey m) d
unfolding Entries
Entries-weaken n m le [] h = tt
Entries-weaken n m le ((k, p) ∷ d) ((e, issued), fresh, h) =
    ((e, Issued-weaken k n m le issued), fresh, Entries-weaken n m le d h)

pub save-PositionsKept :
    (n m : ℕ) (k : Text) (p : Position) (d : Dict Position)
    → n ≤ m
    → p.identifier ≡ k
    → Issued m k
    → PositionsKept n d
    → PositionsKept m (save k p d)
unfolding PositionsKept
save-PositionsKept n m k p d le e issued h =
    Entries-save (AtKey m) k p d (e, issued) (Entries-weaken n m le d h)

pub remove-PositionsKept :
    (n : ℕ) (k : Text) (d : Dict Position) → PositionsKept n d → PositionsKept n (remove k d)
unfolding PositionsKept
remove-PositionsKept n k d h = Entries-remove (AtKey n) k d h

pub position_identifier-kept :
    (n : ℕ) (k : Text) (p : Position) (d : Dict Position)
    → PositionsKept n d
    → may_load k d ≡ some p
    → p.identifier ≡ k
unfolding PositionsKept
position_identifier-kept n k p d h e = (Entries-may_load (AtKey n) k p d h e).0

pub position-Issued-kept :
    (n : ℕ) (k : Text) (p : Position) (d : Dict Position)
    → PositionsKept n d
    → may_load k d ≡ some p
    → Issued n k
unfolding PositionsKept
position-Issued-kept n k p d h e = (Entries-may_load (AtKey n) k p d h e).1

-- The next automatic identifier is not in use.
pub next_identifier_free :
    (s : Storage) (n : ℕ)
    → IsKept s
    → s.position_id_counter < n
    → may_load (auto_position_id_prefix ++ to_string n) s.positions ≡ none
unfolding Issued
next_identifier_free s n kept h =
    elim (Option-cases (may_load (auto_position_id_prefix ++ to_string n) s.positions)) [
      | inl e ↦ e
      | inr (p, e) ↦
          absurd
            (position-Issued-kept s.position_id_counter _ p s.positions kept.positions e n h refl)
    ]

pub save-FarmsKept :
    (k : Text) (f : Farm) (d : Dict Farm)
    → f.identifier ≡ k
    → f.claimed_amount ≤ f.farm_asset.amount
    → FarmsKept d
    → FarmsKept (save k f d)
unfolding FarmsKept FarmAtKey
save-FarmsKept k f d e le h = Entries-save FarmAtKey k f d (e, le) h

pub remove-FarmsKept : (k : Text) (d : Dict Farm) → FarmsKept d → FarmsKept (remove k d)
unfolding FarmsKept
remove-FarmsKept k d h = Entries-remove FarmAtKey k d h

pub farm-kept :
    (k : Text) (f : Farm) (d : Dict Farm)
    → FarmsKept d
    → may_load k d ≡ some f
    → (f.identifier ≡ k) × (f.claimed_amount ≤ f.farm_asset.amount)
unfolding FarmsKept FarmAtKey
farm-kept k f d h e = Entries-may_load FarmAtKey k f d h e
