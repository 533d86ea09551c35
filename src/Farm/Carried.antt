-- ===== src/Farm/Carried.antt =====
-- The weights that compute_address_weights of farm-manager/src/farm/commands.rs reads off the history.
use stratosphere_contracts.Base.{
  ℕ, zero, suc, ◌+◌, ◌-◌, ◌≤◌, ◌<◌, ◌≡◌, ◌∙◌, refl, ap, [], ◌∷◌, arith, some, ok, unwrap_or, range,
}
use stratosphere_contracts.Base.Text.{Text}
use stratosphere_contracts.Farm.Storage.{Storage, Entries, entry_at}
use stratosphere_contracts.Farm.Rewards.{fill_weights, compute_address_weights}

-- The weight at the `n`th epoch from `first` on: the entry of that epoch, or the weight of the epoch
-- before it, and `old` before all of them.
unfoldable pub carried : Entries → ℕ → ℕ → ℕ → ℕ
carried history first old zero = unwrap_or (entry_at first history) old
carried history first old (suc n) =
    unwrap_or (entry_at (first + suc n) history) (carried history first old n)

-- The first epoch, and those that come after it.
carried-suc :
    (history : Entries) (first old n : ℕ)
    → carried history (suc first) (carried history first old 0) n
      ≡ carried history first old (suc n)
unfolding carried
carried-suc history first old zero =
    let same : suc first ≡ first + 1 = omega arith in
    ap (λ e. unwrap_or (entry_at e history) (unwrap_or (entry_at first history) old)) same
carried-suc history first old (suc n) =
    let same : suc first + suc n ≡ first + suc (suc n) = omega arith in
    rw (same, carried-suc history first old n) refl

-- Epochs before the loop's are left as they are.
fill_weights-before :
    (history : Entries) (first k old : ℕ) (es : Entries) (e : ℕ)
    → e < first
    → entry_at e (fill_weights history (range first k) old es) ≡ entry_at e es
unfolding fill_weights entry_at
fill_weights-before history first zero old es e below = refl
fill_weights-before history first (suc k) old es e below = ground (
  arith,
  fill_weights-before history (suc first) k (unwrap_or (entry_at first history) old)
      ((first, unwrap_or (entry_at first history) old) ∷ es) e,
)

fill_weights-carried :
    (history : Entries) (first k old : ℕ) (es : Entries) (n : ℕ)
    → n < k
    → entry_at (first + n) (fill_weights history (range first k) old es)
      ≡ some (carried history first old n)
unfolding fill_weights entry_at carried
fill_weights-carried history first zero old es n below = absurd (omega arith)
fill_weights-carried history first (suc k) old es zero below =
    let w = unwrap_or (entry_at first history) old in
    let here : first + 0 ≡ first = omega arith in
    rw here (
      fill_weights-before history (suc first) k w ((first, w) ∷ es) first (omega arith)
      ∙ ground arith)
fill_weights-carried history first (suc k) old es (suc n) below =
    let w = unwrap_or (entry_at first history) old in
    let same : first + suc n ≡ suc first + n = omega arith in
    ap (λ e. entry_at e (fill_weights history (range (suc first) k) w ((first, w) ∷ es))) same
    ∙ fill_weights-carried history (suc first) k w ((first, w) ∷ es) n (omega arith)
    ∙ ap some (carried-suc history first old n)

-- Where compute_address_weights answers, the weight that it gives for an epoch from the one
-- before the start to the current one is that of the latest history entry since the epoch
-- before the start, or zero if there is none.
pub compute_address_weights-carried :
    (s : Storage) (address lp_denom : Text) (start now : ℕ) (weights : Entries) (n : ℕ)
    → compute_address_weights s address lp_denom start now ≡ ok weights
    → start - 1 + n ≤ now
    → entry_at (start - 1 + n) weights
      ≡ some (carried (s.lp_weight_history address lp_denom) (start - 1) 0 n)
unfolding compute_address_weights
compute_address_weights-carried s address lp_denom start now weights n h le =
    let filled =
      fill_weights-carried (s.lp_weight_history address lp_denom) (start - 1)
        (suc now - (start - 1)) 0 [] n (omega arith) in
    grind (arith, filled)
