-- ===== src/Farm/Settings.antt =====
-- The configuration that the farm manager starts and continues with (instantiate of
-- farm-manager/src/contract.rs, update_config of manager/commands.rs).
use stratosphere_contracts.Base.{
  ℕ, ◌≤◌, ◌<◌, ◌≡◌, refl, List, [], ◌∷◌, arith, Result, Option, none, some, inl, inr, Result-cases,
  ◌>>=◌, ok, err,
}
use stratosphere_contracts.Base.Coins.{MessageInfo}
use stratosphere_contracts.Base.Decimals.{one}
use stratosphere_contracts.Farm.Data.{ContractError, Config, Send, External}
use stratosphere_contracts.Farm.Storage.{Storage}
use stratosphere_contracts.Farm.Contract.{
  InstantiateMsg, update_addresses, update_buffer, ConfigUpdate, instantiate, update_config,
  update_fields, update_max_farms, update_max_unlocking, update_min_unlocking, update_expiration,
  update_penalty, validate_unlocking_duration, validate_farm_expiration_time,
  validate_emergency_unlock_penalty,
}

-- A configuration that no check of the contract refuses.
pub record IsValid (x : External) (c : Config) : Type 0 where
  pub some_farm : 0 < c.max_concurrent_farms
  pub unlocking_range : c.min_unlocking_duration ≤ c.max_unlocking_duration
  pub expiration : x.month_in_seconds ≤ c.farm_expiration_time
  pub penalty : c.emergency_unlock_penalty ≤ one

-- The state after an update message; a failed one leaves the state as it was.
abbrev after_update : External → MessageInfo → ConfigUpdate → Storage → Storage
after_update x info u s = elim (update_config x info u s) [ ok out ↦ out.0 | err e ↦ s ]

unfoldable pub after_updates : External → List (MessageInfo × ConfigUpdate) → Storage → Storage
after_updates x [] s = s
after_updates x ((info, u) ∷ us) s = after_updates x us (after_update x info u s)

instantiate-IsValid :
    (x : External) (msg : InstantiateMsg) (s : Storage)
    → instantiate x msg ≡ ok s
    → IsValid x s.config
unfolding instantiate validate_unlocking_duration validate_farm_expiration_time
    validate_emergency_unlock_penalty
instantiate-IsValid x msg s h = ground arith

-- A step of the update gives valid configurations only.
record IsSound (x : External) (r : Result ContractError Config) : Type 0 where
  result : (c : Config) → r ≡ ok c → IsValid x c

module _ (x : External) where
  ok-IsSound : (c : Config) → IsValid x c → IsSound x (ok c)
  ok-IsSound c valid = record { result = λ c' h. ground arith }

  bind-IsSound :
      (f : Config → Result ContractError Config)
      → ((c : Config) → IsValid x c → IsSound x (f c))
      → (r : Result ContractError Config) → IsSound x r
      → IsSound x (r >>= f)
  bind-IsSound f g (ok c) h = g c (h.result c refl)
  bind-IsSound f g (err e) h = record { result = λ c k. cc }

  addresses-IsSound :
      (u : ConfigUpdate) (c : Config) → IsValid x c → IsSound x (update_addresses x u c)
  unfolding update_addresses
  addresses-IsSound u c valid = record { result = λ c' h. ground arith }

  max_farms-IsSound : (o : Option ℕ) (c : Config) → IsValid x c → IsSound x (update_max_farms o c)
  unfolding update_max_farms
  max_farms-IsSound none c valid = ok-IsSound c valid
  max_farms-IsSound (some n) c valid = record { result = λ c' h. ground arith }

  buffer-IsSound : (o : Option ℕ) (c : Config) → IsValid x c → IsSound x (update_buffer o c)
  unfolding update_buffer
  buffer-IsSound o c valid = record { result = λ c' h. ground arith }

  max_unlocking-IsSound :
      (o : Option ℕ) (c : Config) → IsValid x c → IsSound x (update_max_unlocking o c)
  unfolding update_max_unlocking validate_unlocking_duration
  max_unlocking-IsSound none c valid = ok-IsSound c valid
  max_unlocking-IsSound (some n) c valid = record { result = λ c' h. ground arith }

  min_unlocking-IsSound :
      (o : Option ℕ) (c : Config) → IsValid x c → IsSound x (update_min_unlocking o c)
  unfolding update_min_unlocking validate_unlocking_duration
  min_unlocking-IsSound none c valid = ok-IsSound c valid
  min_unlocking-IsSound (some n) c valid = record { result = λ c' h. ground arith }

  expiration-IsSound :
      (o : Option ℕ) (c : Config) → IsValid x c → IsSound x (update_expiration x o c)
  unfolding update_expiration validate_farm_expiration_time
  expiration-IsSound none c valid = ok-IsSound c valid
  expiration-IsSound (some n) c valid = record { result = λ c' h. ground arith }

  penalty-IsSound : (o : Option ℕ) (c : Config) → IsValid x c → IsSound x (update_penalty o c)
  unfolding update_penalty validate_emergency_unlock_penalty
  penalty-IsSound none c valid = ok-IsSound c valid
  penalty-IsSound (some n) c valid = record { result = λ c' h. ground arith }

  update_fields-IsSound :
      (u : ConfigUpdate) (c : Config) → IsValid x c → IsSound x (update_fields x u c)
  unfolding update_fields
  update_fields-IsSound u c valid =
      bind-IsSound (update_penalty u.emergency_unlock_penalty)
        (penalty-IsSound u.emergency_unlock_penalty) _
        (bind-IsSound (update_expiration x u.farm_expiration_time)
          (expiration-IsSound u.farm_expiration_time) _
          (bind-IsSound (update_min_unlocking u.min_unlocking_duration)
            (min_unlocking-IsSound u.min_unlocking_duration) _
            (bind-IsSound (update_max_unlocking u.max_unlocking_duration)
              (max_unlocking-IsSound u.max_unlocking_duration) _
              (bind-IsSound (update_buffer u.max_farm_epoch_buffer)
                (buffer-IsSound u.max_farm_epoch_buffer) _
                (bind-IsSound (update_max_farms u.max_concurrent_farms)
                  (max_farms-IsSound u.max_concurrent_farms) _ (addresses-IsSound u c valid))))))

update_config-IsValid :
    (x : External) (info : MessageInfo) (u : ConfigUpdate) (s : Storage) {out : Storage × List Send}
    → IsValid x s.config
    → update_config x info u s ≡ ok out
    → IsValid x out.0.config
unfolding update_config
update_config-IsValid x info u s valid h =
    grind (arith, (update_fields-IsSound x u s.config valid).result)

after_updates-IsValid :
    (x : External) (updates : List (MessageInfo × ConfigUpdate)) (s : Storage)
    → IsValid x s.config
    → IsValid x (after_updates x updates s).config
unfolding after_updates
after_updates-IsValid x [] s valid = valid
after_updates-IsValid x ((info, u) ∷ us) s valid = elim (Result-cases (update_config x info u s)) [
  | inl (out, e) ↦
      after_updates-IsValid x us (after_update x info u s)
        (rw (after_update, e) (update_config-IsValid x info u s valid e))
  | inr (e, f) ↦ after_updates-IsValid x us (after_update x info u s) (rw (after_update, f) valid)
]

-- From the instantiation on, after any configuration updates, failed ones among them, at
-- least one farm per denom is allowed, the unlocking range is not empty, farms expire no
-- sooner than a month, and the emergency penalty is at most one.
pub after_updates-instantiate-IsValid :
    (x : External) (msg : InstantiateMsg) (s : Storage)
    (updates : List (MessageInfo × ConfigUpdate))
    → instantiate x msg ≡ ok s
    → IsValid x (after_updates x updates s).config
after_updates-instantiate-IsValid x msg s updates h =
    after_updates-IsValid x updates s (instantiate-IsValid x msg s h)
