-- ===== src/Evm/Limit.antt =====
-- src/evm/rpc/limit.rs: the gate that spaces the requests to one endpoint and backs off when the
-- node limits them. Times and durations are nanoseconds; the current time is an argument.
pub mod Backoff
pub mod Queue
mod Examples
use lp_maker.Base.{
  ℕ, ◌+◌, ◌*◌, ◌^◌, ◌-◌, min, max, Bool, Option, none, some, List, [], ◌∷◌, String, leb, ltb,
  if◌then◌else◌, saturating_add, u32_max, unwrap_or,
}

abbrev pub seconds : ℕ → ℕ
seconds n = n * 1000000000

pub record Gate : Type 0 where
  pub spacing : ℕ
  pub next : ℕ
  pub cooldown : Option ℕ
  pub failures : ℕ  -- u32
  pub healthy_since : Option ℕ

unfoldable pub new : ℕ → ℕ → Gate
new now spacing = record {
  spacing = spacing;
  next = now;
  cooldown = none;
  failures = 0;
  healthy_since = none;
}

-- `Err(RetryAfter(until))` while the cooldown lasts.
pub data Pass : Type 0 where
  pass : Pass
  retry_after : ℕ → Pass

unfoldable pub check_cooldown : Gate → ℕ → Pass
check_cooldown gate now = elim gate.cooldown [
  | none ↦ pass
  | some until ↦ if ltb now until then retry_after until else pass
]

unfoldable pub remaining : Gate → ℕ → ℕ
unfolding check_cooldown
remaining gate now = elim (check_cooldown gate now) [ pass ↦ 0 | retry_after until ↦ until - now ]

-- `30u64 << failures.min(4)`, at most 300 seconds.
unfoldable pub backoff : ℕ → ℕ
backoff failures = seconds (min (30 * 2 ^ min failures 4) 300)

-- Returns the gate and the time before which no request may start.
unfoldable pub limited : Gate → ℕ → Option ℕ → Gate × ℕ
limited gate now hint =
    let delay = max (backoff gate.failures) (unwrap_or hint 0) in
    let until = now + delay in
    (
      record gate {
        failures = saturating_add u32_max gate.failures 1;
        healthy_since = none;
        cooldown = some until;
      },
      until,
    )

unfoldable pub succeeded : Gate → ℕ → Gate
succeeded gate now =
    let healthy = unwrap_or gate.healthy_since now in
    record gate {
      cooldown = none;
      healthy_since = some healthy;
      failures = if leb (seconds 60) (now - healthy) then 0 else gate.failures;
    }

-- The part of `acquire` behind the last check of the cooldown.
unfoldable pub start : Gate → ℕ → Gate
start gate now = record gate { next = now + gate.spacing }

-- `state.spacing.max(spacing)`, for a second client of the same endpoint.
unfoldable pub share : Gate → ℕ → Gate
share gate spacing = record gate { spacing = max gate.spacing spacing }
