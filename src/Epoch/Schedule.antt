-- ===== src/Epoch/Schedule.antt =====
-- The epochs of epoch-manager/src/queries.rs divide the time from the genesis on.
use native.Mathlib.Nat.{add-mul-div_right}
use stratosphere_contracts.Base.{ℕ, ◌+◌, ◌-◌, ◌*◌, ◌/◌, ◌^◌, ◌≤◌, ◌<◌, ◌≡◌, ok, arith}
use stratosphere_contracts.Epoch.{Config, Epoch, query_epoch, query_current_epoch}

div_mul-le : (n d : ℕ) → 0 < d → (n / d) * d ≤ n
div_mul-le n d h = grind arith

lt-div_mul : (n d : ℕ) → 0 < d → n < (n / d) * d + d
lt-div_mul n d h = grind arith

-- From the genesis on the current epoch is computed without an error, and the block's time lies
-- in it: at or after its start, and less than one duration after it.
pub query_current_epoch_contains :
    (config : Config) (now : ℕ)
    → 0 < config.epoch_config.duration
    → config.epoch_config.genesis_epoch ≤ now
    → now < 2 ^ 64
    → (epoch : Epoch) × (query_current_epoch config now ≡ ok epoch)
      × (epoch.start_time ≤ now)
      × (now < epoch.start_time + config.epoch_config.duration)
unfolding query_current_epoch
query_current_epoch_contains config now pos started fits =
    let k = (now - config.epoch_config.genesis_epoch) / config.epoch_config.duration in
    let below : k * config.epoch_config.duration ≤ now - config.epoch_config.genesis_epoch =
      div_mul-le _ _ pos in
    let above : now - config.epoch_config.genesis_epoch
        < k * config.epoch_config.duration + config.epoch_config.duration =
      lt-div_mul _ _ pos in
    (
      record {
        id = k;
        start_time = config.epoch_config.genesis_epoch + k * config.epoch_config.duration;
      },
      ground arith,
      omega arith,
      omega arith,
    )

later_quotient : (n d k : ℕ) → 0 < d → (n + k * d) / d ≡ n / d + k
later_quotient n d k pos = add-mul-div_right n k pos

-- A current epoch that is answered, field by field.
current_epoch :
    (config : Config) (now : ℕ) (epoch : Epoch)
    → query_current_epoch config now ≡ ok epoch
    → (config.epoch_config.genesis_epoch ≤ now)
      × (0 < config.epoch_config.duration)
      × (epoch.id ≡ (now - config.epoch_config.genesis_epoch) / config.epoch_config.duration)
      × (epoch.start_time
          ≡ config.epoch_config.genesis_epoch + epoch.id * config.epoch_config.duration)
unfolding query_current_epoch query_epoch
current_epoch config now epoch h = grind arith

-- The current epoch any number of durations later, where both are answered, has a number that
-- is larger by that number, and starts so many durations later.
pub query_current_epoch-later :
    (config : Config) (now k : ℕ) (this later : Epoch)
    → query_current_epoch config now ≡ ok this
    → query_current_epoch config (now + k * config.epoch_config.duration) ≡ ok later
    → (later.id ≡ this.id + k)
      × (later.start_time ≡ this.start_time + k * config.epoch_config.duration)
query_current_epoch-later config now k this later p q =
    let (started, pos, id, start) = current_epoch config now this p in
    let d = config.epoch_config.duration in
    let (_, _, id', start') = current_epoch config (now + k * d) later q in
    let regrouped : (now + k * d) - config.epoch_config.genesis_epoch
        ≡ (now - config.epoch_config.genesis_epoch) + k * d =
      omega arith in
    let ids : later.id ≡ this.id + k =
      rw (id', id, regrouped) (later_quotient (now - config.epoch_config.genesis_epoch) d k pos) in
    (ids, rw (start', start, ids) (omega arith))

-- Each epoch ends where the next one starts.
pub query_epoch_next :
    (config : Config) (id : ℕ) {this next : Epoch}
    → query_epoch config id ≡ ok this
    → query_epoch config (id + 1) ≡ ok next
    → next.start_time ≡ this.start_time + config.epoch_config.duration
unfolding query_epoch
query_epoch_next config id p q = ground arith
