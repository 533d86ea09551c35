-- ===== src/Farm/Tests/Weights.antt =====
-- The theorem about weights at a concrete history.
use stratosphere_contracts.Base.{◌+◌, ◌-◌, ◌≡◌, refl, some, [], ◌∷◌, ok, arith}
use stratosphere_contracts.Base.Text.{codes}
use stratosphere_contracts.Farm.Storage.{Storage, Entries, entry_at}
use stratosphere_contracts.Farm.Rewards.{fill_weights, compute_address_weights}
use stratosphere_contracts.Farm.Carried.{carried, compute_address_weights-carried}
use stratosphere_contracts.Farm.Tests.World.{empty}

-- A weight of 7 from epoch 4 on, and of 9 from epoch 6 on.
abbrev history : Entries
history = (4, 7) ∷ (6, 9) ∷ []

abbrev weighed : Storage
weighed = record empty { lp_weight_history = λ a d. history }

abbrev weights : Entries
weights = (7, 9) ∷ (6, 9) ∷ (5, 7) ∷ (4, 7) ∷ []

computed : compute_address_weights weighed (codes "alice") (codes "lp") 5 7 ≡ ok weights
unfolding compute_address_weights fill_weights entry_at
computed = refl

compute_address_weights-carried_example :
    entry_at (5 - 1 + 1) weights ≡ some (carried history (5 - 1) 0 1)
compute_address_weights-carried_example =
    compute_address_weights-carried weighed (codes "alice") (codes "lp") 5 7 weights 1 computed
      (omega arith)
