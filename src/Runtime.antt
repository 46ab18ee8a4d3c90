-- ===== src/Runtime.antt =====
-- src/runtime.rs: the age of an observation, the retries of reads, and the record of the runner's health.
-- Files are taken to be written and read without an error; a `Duration` is a number of milliseconds. The
-- details in the record of health, which are for the display, are left out.
pub mod Retries
mod Examples
use lp_maker.Base.{
  ℕ, zero, suc, ◌+◌, ◌-◌, ◌*◌, max, min, Bool, true, false, ◌||◌, ◌&&◌, not, Option, none, some,
  List, [], ◌∷◌, String, Result, ok, err, ◌>>=◌, ◌>>◌, ensure, context, ◌==◌, ltb, if◌then◌else◌,
  saturating_add, u64_max, unwrap_or,
}
use text.Mathlib.Text.{◌==◌ as str_eq}

-- The test of `fresh`: the time is missing, in the future or too old.
unfoldable pub expired : ℕ → ℕ → ℕ → Bool
expired source_ms now_ms max_age_seconds =
    (source_ms == 0)
    || ltb (saturating_add u64_max now_ms 5000) source_ms
    || ltb (min u64_max (max_age_seconds * 1000)) (now_ms - source_ms)

unfoldable pub fresh : ℕ → ℕ → ℕ → Result (Unit {0})
unfolding expired
fresh source_ms now_ms max_age_seconds =
    ensure (not (expired source_ms now_ms max_age_seconds))
      "observation expired or timestamp invalid; refresh before acting"

-- The record `runtime_health.json`.
pub record Health : Type 0 where
  pub status : String
  pub updated_ms : ℕ
  pub last_decision_ms : Option ℕ

-- A missing record is an empty one.
abbrev pub last_decision : Option Health → Option ℕ
last_decision none = none
last_decision (some h) = h.last_decision_ms

unfoldable pub status : String → ℕ → Option Health → Health
status state now_ms old = record {
  status = state;
  updated_ms = now_ms;
  last_decision_ms = if str_eq state "running" then some now_ms else last_decision old;
}

unfoldable pub check_health : Option Health → ℕ → ℕ → Result Health
unfolding fresh
check_health file now_ms max_age_seconds = do
  h ← context file "no runtime health record"
  ensure (str_eq h.status "running") "runtime is not healthy"
  fresh (unwrap_or h.last_decision_ms 0) now_ms max_age_seconds
  ok h

-- What an attempt of a task returns: a value, a read that is unavailable with a hint about the time to
-- retry, or any other error.
pub data Attempt {ℓ} (T : Type ℓ) : Type ℓ where
  done : (value : T) → Attempt T
  unavailable : (retry_after : Option ℕ) → Attempt T
  failed : (message : String) → Attempt T

-- The wait after an unavailable read, from the time left until the hint.
abbrev pub retry_delay : Option ℕ → ℕ → ℕ → ℕ
retry_delay none minimum now_ms = minimum
retry_delay (some until) minimum now_ms = max minimum (until - now_ms)

-- The attempts so far: the waits, the latest first, the health that is on disk, and the time.
pub record Waiting : Type 0 where
  pub waits : List ℕ
  pub health : Option Health
  pub now_ms : ℕ

pub record Retried {ℓ} (T : Type ℓ) : Type ℓ where
  pub state : Waiting
  pub outcome : Option (Attempt T)

-- An unavailable read degrades the health, and sleeps.
unfoldable pub wait_for : ℕ → Option ℕ → Waiting → Waiting
unfolding status
wait_for delay hint w =
    let wait = retry_delay hint delay w.now_ms in
    record {
      waits = wait ∷ w.waits;
      health = some (status "degraded" w.now_ms w.health);
      now_ms = w.now_ms + wait;
    }

module _ {ℓ} {T : Type ℓ} where
  abbrev pub after_attempt : ℕ → Bool → Attempt T → (Waiting → Retried T) → Waiting → Retried T
  after_attempt delay once (done value) again w = record { state = w; outcome = some (done value) }
  after_attempt delay once (failed message) again w = record {
    state = w;
    outcome = some (failed message);
  }
  after_attempt delay once (unavailable hint) again w =
      if once
      then record { state = w; outcome = some (unavailable hint) }
      else again (wait_for delay hint w)

  -- The loop, over what the attempts return, from this one on; the source has no bound on their number,
  -- and `none` is the loop that still runs.
  unfoldable pub retry_reads : ℕ → ℕ → Bool → (ℕ → Attempt T) → ℕ → Waiting → Retried T
  unfolding wait_for
  retry_reads zero delay once task n w = record { state = w; outcome = none }
  retry_reads (suc fuel) delay once task n w =
      after_attempt delay once (task n) (retry_reads fuel delay once task (suc n)) w
