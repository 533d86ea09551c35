-- ===== src/Farm/Repeat.antt =====
-- A second claim in an epoch (claim of farm-manager/src/farm/commands.rs).
use stratosphere_contracts.Base.{
  ℕ, ◌≡◌, refl, true, some, List, [], ◌∷◌, arith, ok, ap, >>=-eq-ok, ◌∙◌,
}
use stratosphere_contracts.Base.Text.{Text, text_eq_iff}
use stratosphere_contracts.Base.Coins.{Coin, MessageInfo}
use stratosphere_contracts.Base.Dict.{may_load, may_load-save}
use stratosphere_contracts.Farm.Data.{External, Env, Send}
use stratosphere_contracts.Farm.Storage.{Storage, change_history}
use stratosphere_contracts.Farm.Weights.{sync_address_lp_weight_history}
use stratosphere_contracts.Farm.Rewards.{
  calculate_rewards, claim_from_farms, claim_response, claim_denom, claim_denoms, claim,
}

module _ (x : External) (env : Env) (sender : Text) (now : ℕ) where
  sync-last_claimed :
      (lp_denom : Text) (s s' : Storage)
      → sync_address_lp_weight_history sender lp_denom now true s ≡ ok s'
      → s'.last_claimed_epoch ≡ s.last_claimed_epoch
  unfolding sync_address_lp_weight_history change_history
  sync-last_claimed lp_denom s s' h = ground arith

  claim_denom-repeated :
      (lp_denom : Text) (s : Storage) (acc : List Coin × Storage)
      → may_load sender s.last_claimed_epoch ≡ some now
      → claim_denom x env sender now lp_denom ([], s) ≡ ok acc
      → (acc.0 ≡ []) × (acc.1.last_claimed_epoch ≡ s.last_claimed_epoch)
  unfolding claim_denom calculate_rewards claim_response claim_from_farms
  claim_denom-repeated lp_denom s acc last h = grind (arith, sync-last_claimed lp_denom)

  claim_denoms-repeated :
      (lp_denoms : List Text) (rewards : List Coin) (s : Storage) (acc : List Coin × Storage)
      → rewards ≡ []
      → may_load sender s.last_claimed_epoch ≡ some now
      → claim_denoms x env sender now lp_denoms (rewards, s) ≡ ok acc
      → acc.0 ≡ []
  unfolding claim_denoms
  claim_denoms-repeated [] rewards s acc none_yet last h = ground arith
  claim_denoms-repeated (l ∷ ls) [] s acc none_yet last h =
      let (next, e, h') =
        >>=-eq-ok (claim_denom x env sender now l ([], s)) (claim_denoms x env sender now ls) h in
      let (nothing, kept) = claim_denom-repeated l s next last e in
      claim_denoms-repeated ls next.0 next.1 acc nothing (ap (may_load sender) kept ∙ last) h'
  claim_denoms-repeated (l ∷ ls) (c ∷ cs) s acc none_yet last h = cc

-- A claim records its epoch.
claim-records :
    (x : External) (env : Env) (info : MessageInfo) (now : ℕ) (s : Storage)
    {out : Storage × List Send}
    → env.current_epoch ≡ some now
    → claim x env info s ≡ ok out
    → may_load info.sender out.0.last_claimed_epoch ≡ some now
unfolding claim
claim-records x env info now s epoch h =
    grind
      (arith, may_load-save {V = ℕ} info.sender info.sender, text_eq_iff info.sender info.sender)

recorded-claim-nothing :
    (x : External) (env : Env) (info : MessageInfo) (now : ℕ) (s : Storage)
    {out : Storage × List Send}
    → env.current_epoch ≡ some now
    → may_load info.sender s.last_claimed_epoch ≡ some now
    → claim x env info s ≡ ok out
    → out.1 ≡ []
unfolding claim
recorded-claim-nothing x env info now s epoch last h = grind (
  arith,
  λ (ls : List Text) (acc : List Coin × Storage)
        (e : claim_denoms x env info.sender now ls ([], s) ≡ ok acc).
      claim_denoms-repeated x env info.sender now ls [] s acc refl last e,
)

-- If two claims of one sender both succeed while the same epoch is current, the second right
-- after the first, then the second sends no coins.
pub claim-claim-nothing :
    (x : External) (first second : Env) (info : MessageInfo) (now : ℕ) (s : Storage)
    {out again : Storage × List Send}
    → first.current_epoch ≡ some now
    → second.current_epoch ≡ some now
    → claim x first info s ≡ ok out
    → claim x second info out.0 ≡ ok again
    → again.1 ≡ []
claim-claim-nothing x first second info now s {out = out} e f h k =
    recorded-claim-nothing x second info now out.0 f (claim-records x first info now s e h) k
