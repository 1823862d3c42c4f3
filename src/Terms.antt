-- ===== src/Terms.antt =====
-- Time and period arithmetic of webapp/src/lib/utils.ts: `isExpired`,
-- `isStillCollectibleSubscription` and `recurringAvailable`.
use multi_delegator.Base.{Bool, false, not, Option, some, if◌then◌else◌, or_else}
use multi_delegator.Base.Int.{ℤ, pos, ◌-ℤ◌, ltb_ℤ, leb_ℤ, eqb_ℤ}
use multi_delegator.Js.Number.{number, plus}

abbrev pub time_drift_allowed_secs : ℤ
time_drift_allowed_secs = pos 120

-- `clock` is `Math.floor(Date.now() / 1000)`, read where `nowSec` is left out
unfoldable pub is_expired : ℤ → Option ℤ → ℤ → Bool
is_expired expiry_ts now_sec clock =
    if eqb_ℤ expiry_ts (pos 0)
    then false
    else ltb_ℤ (plus (number expiry_ts) time_drift_allowed_secs) (or_else now_sec clock)

unfoldable pub is_still_collectible_subscription : ℤ → Option ℤ → ℤ → Bool
is_still_collectible_subscription expires_at_ts now_sec clock =
    not (is_expired expires_at_ts now_sec clock)

abbrev past_period_end : Option ℤ → ℤ → Option ℤ → Bool
past_period_end (some start) period_length_s (some block_time) =
    leb_ℤ (plus (number start) (number period_length_s)) block_time
past_period_end _ _ _ = false

unfoldable pub recurring_available : ℤ → ℤ → Option ℤ → ℤ → Option ℤ → ℤ
recurring_available amount_per_period amount_pulled_in_period current_period_start_ts
      period_length_s block_time =
    if past_period_end current_period_start_ts period_length_s block_time
    then amount_per_period
    else (let remaining = amount_per_period -ℤ amount_pulled_in_period in
        if ltb_ℤ (pos 0) remaining then remaining else pos 0)
