-- ===== src/Pool/Reserves.antt =====
-- The balances of a pool's assets under the writes of perform_swap (pool-manager/src).
use stratosphere_contracts.Base.{
  ℕ, zero, suc, ◌+◌, ◌-◌, ◌≤◌, subst, ◌≡◌, ◌≢◌, refl, sym, ap, Bool, true, some, List, [], ◌∷◌,
  arith, ok, get_elem?, set, position, position_from, Bool-cases, inl, inr,
}
use stratosphere_contracts.Base.Text.{Text, text_eq_iff}
use stratosphere_contracts.Base.Coins.{Coin, coin_amount, amount_of}
use stratosphere_contracts.Pool.Data.{PoolInfo}
use stratosphere_contracts.Pool.Swaps.{Indexes, get_asset_indexes_in_pool, move_balances}

module _ {ℓ} {A : Type ℓ} where
  get_elem?-set :
      (xs : List A) (i : ℕ) (v : A) (j : ℕ) → i ≢ j → get_elem? (set xs i v) j ≡ get_elem? xs j
  get_elem?-set [] i v j h = refl
  get_elem?-set (x ∷ xs) zero v zero h = ground arith
  get_elem?-set (x ∷ xs) zero v (suc j) h = refl
  get_elem?-set (x ∷ xs) (suc i) v zero h = refl
  get_elem?-set (x ∷ xs) (suc i) v (suc j) h = get_elem?-set xs i v j (λ e. h (ap suc e))

  -- What `position` finds is in the list and satisfies the test.
  record IsFound (p : A → Bool) (xs : List A) (i : ℕ) : Type ℓ where
    item : A
    at_index : get_elem? xs i ≡ some item
    satisfies : p item ≡ true

  IsFound-later :
      (p : A → Bool) (x : A) (xs : List A) (n m : ℕ)
      → suc n ≤ m
      → IsFound p xs (m - suc n)
      → IsFound p (x ∷ xs) (m - n)
  IsFound-later p x xs n m h found =
      let e : m - n ≡ suc (m - suc n) = omega arith in
      subst (λ i. IsFound p (x ∷ xs) i) (sym e)
        record { item = found.item; at_index = found.at_index; satisfies = found.satisfies }

  position_from-le : (p : A → Bool) (xs : List A) (n m : ℕ) → position_from n p xs ≡ some m → n ≤ m
  position_from-le p [] n m h = cc
  position_from-le p (x ∷ xs) n m h = grind (arith, position_from-le p xs (suc n) m)

  position_from-IsFound :
      (p : A → Bool) (xs : List A) (n m : ℕ) → position_from n p xs ≡ some m → IsFound p xs (m - n)
  position_from-IsFound p [] n m h = cc
  position_from-IsFound p (x ∷ xs) n m h = elim (Bool-cases (p x)) [
    | inl here ↦
        let e : m - n ≡ 0 = ground arith in
        subst (λ i. IsFound p (x ∷ xs) i) (sym e)
          record { item = x; at_index = refl; satisfies = here }
    | inr later ↦
        let h' : position_from (suc n) p xs ≡ some m = ground arith in
        IsFound-later p x xs n m (position_from-le p xs (suc n) m h')
          (position_from-IsFound p xs (suc n) m h')
  ]

  position-satisfies :
      (p : A → Bool) (xs : List A) (i : ℕ) {a : A}
      → position p xs ≡ some i
      → get_elem? xs i ≡ some a
      → p a ≡ true
  position-satisfies p xs i h e =
      let found = position_from-IsFound p xs 0 i h in
      let at_index = found.at_index in
      let satisfies = found.satisfies in let same : i - 0 ≡ i = omega arith in cc

amount_of-set :
    (d : Text) (cs : List Coin) (i : ℕ) (c : Coin) {old : Coin}
    → get_elem? cs i ≡ some old
    → amount_of d (set cs i c) + coin_amount d old ≡ amount_of d cs + coin_amount d c
unfolding amount_of
amount_of-set d [] i c h = cc
amount_of-set d (e ∷ cs) zero c h = ground arith
amount_of-set d (e ∷ cs) (suc i) c h = omega (arith, amount_of-set d cs i c h)

-- What `get_asset_indexes_in_pool` gives: two different places, with the assets that stand there.
pub record IsIndexes (pool : PoolInfo) (offer ask : Text) (found : Indexes) : Type 0 where
  pub distinct : found.offer_index ≢ found.ask_index
  pub offer_at : get_elem? pool.assets found.offer_index ≡ some found.offer_asset_in_pool
  pub ask_at : get_elem? pool.assets found.ask_index ≡ some found.ask_asset_in_pool
  pub offer_denom : found.offer_asset_in_pool.denom ≡ offer
  pub ask_denom : found.ask_asset_in_pool.denom ≡ ask

pub get_asset_indexes_in_pool-IsIndexes :
    (pool : PoolInfo) (offer ask : Text) (found : Indexes)
    → get_asset_indexes_in_pool pool offer ask ≡ ok found
    → IsIndexes pool offer ask found
unfolding get_asset_indexes_in_pool
get_asset_indexes_in_pool-IsIndexes pool offer ask found h = record {
  distinct = ground arith;
  offer_at = ground arith;
  ask_at = ground arith;
  offer_denom = grind (arith, position-satisfies, text_eq_iff);
  ask_denom = grind (arith, position-satisfies, text_eq_iff);
}

-- The balances after a swap, denom by denom.
pub move_balances-amount_of :
    (d : Text) (assets : List Coin) (i j o r f : ℕ) {a b : Coin} {assets' : List Coin}
    → i ≢ j
    → get_elem? assets i ≡ some a
    → get_elem? assets j ≡ some b
    → move_balances assets i j o r f ≡ ok assets'
    → amount_of d assets' + coin_amount d (record b { amount = r + f })
      ≡ amount_of d assets + coin_amount d (record a { amount = o })
unfolding move_balances coin_amount
move_balances-amount_of d assets i j o r f {a = a} {b = b} h ha hb e = grind (
  arith,
  get_elem?-set assets i (record a { amount = a.amount + o }) j,
  amount_of-set d assets i (record a { amount = a.amount + o }) ha,
  amount_of-set d (set assets i (record a { amount = a.amount + o })) j
      (record b { amount = b.amount - r - f }),
)
