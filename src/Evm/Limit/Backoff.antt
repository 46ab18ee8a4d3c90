-- ===== src/Evm/Limit/Backoff.antt =====
-- How long the gate of src/evm/rpc/limit.rs backs off.
use native.Mathlib.Nat.{pow-le-pow_right}
use lp_maker.Base.{
  List, [], ◌∷◌, ◌*◌, ◌^◌, ◌-◌, min, ltb, leb, length, ap, if◌then◌else◌, ℕ, zero, suc, ◌+◌, ◌≤◌,
  ◌≡◌, Option, none, arith, u32_max, max, unwrap_or,
}
use lp_maker.Evm.Limit.{
  Gate, new, seconds, check_cooldown, remaining, backoff, limited, succeeded, pass, retry_after,
}

doubled : (k : ℕ) → k ≤ 4 → (30 ≤ 30 * 2 ^ k) × (30 * 2 ^ k ≤ 480)
doubled zero h = omega arith
doubled (suc zero) h = omega arith
doubled (suc (suc zero)) h = omega arith
doubled (suc (suc (suc zero))) h = omega arith
doubled (suc (suc (suc (suc zero)))) h = omega arith
doubled (suc (suc (suc (suc (suc k))))) h = absurd (omega arith)

-- Between 30 seconds and 5 minutes, whatever the number of failures.
backoff_bounds : (n : ℕ) → (seconds 30 ≤ backoff n) × (backoff n ≤ seconds 300)
unfolding backoff
backoff_bounds n = omega (arith, doubled (min n 4) (omega arith))

power_mono : (a b : ℕ) → a ≤ b → b ≤ 4 → 2 ^ a ≤ 2 ^ b
power_mono a b h k = pow-le-pow_right (omega arith) h

-- One more failure never shortens the wait.
backoff_mono : (a b : ℕ) → a ≤ b → backoff a ≤ backoff b
unfolding backoff
backoff_mono a b h = omega (arith, power_mono (min a 4) (min b 4) (omega arith) (omega arith))

-- A limited gate refuses every caller up to the returned time and lets them pass from then on; the
-- wait is at least 30 seconds, at least what the node asked for, and at most the longer of that and
-- five minutes.
limited_lem :
    (gate : Gate) (now later : ℕ) (hint : Option ℕ)
    → let (after, until) = limited gate now hint in
      (check_cooldown after later ≡ (if ltb later until then retry_after until else pass))
      × (remaining after later ≡ until - later)
      × (now + seconds 30 ≤ until)
      × (now + unwrap_or hint 0 ≤ until)
      × (until ≤ now + max (seconds 300) (unwrap_or hint 0))
unfolding limited check_cooldown remaining
limited_lem gate now later hint = ground (arith, backoff_bounds gate.failures)

-- The gate after one limit at each of the times.
abbrev pub limit_all : Gate → List ℕ → Gate
limit_all gate [] = gate
limit_all gate (now ∷ rest) = limit_all (limited gate now none).0 rest

failures-limit_all :
    (gate : Gate) (times : List ℕ)
    → gate.failures ≤ u32_max
    → (limit_all gate times).failures ≡ min u32_max (gate.failures + length times)
unfolding limited
failures-limit_all gate [] h = omega arith
failures-limit_all gate (now ∷ rest) h =
    omega (arith, failures-limit_all (limited gate now none).0 rest (omega arith))

backoff-min : (n : ℕ) → backoff (min u32_max n) ≡ backoff n
unfolding backoff
backoff-min n = ap (λ k. seconds (min (30 * 2 ^ k) 300)) (omega arith)

failures-limit_all-new :
    (made spacing : ℕ) (times : List ℕ)
    → (limit_all (new made spacing) times).failures ≡ min u32_max (length times)
unfolding new
failures-limit_all-new made spacing times =
    omega (arith, failures-limit_all (new made spacing) times (omega arith))

-- After `n` limits in a row on a fresh gate, the next one waits 30 seconds doubled `n` times, but at
-- most four times, and at most five minutes.
limited-limit_all :
    (made spacing now : ℕ) (times : List ℕ)
    → (limited (limit_all (new made spacing) times) now none).1 ≡ now + backoff (length times)
unfolding limited
limited-limit_all made spacing now times = omega (
  arith,
  ap backoff (failures-limit_all-new made spacing times),
  backoff-min (length times),
  backoff_bounds (length times),
)

-- The first success after a limit lifts the cooldown and keeps the count of failures; a later one
-- clears the count exactly if it comes 60 seconds or more after the first.
succeeded_twice :
    (gate : Gate) (now first second : ℕ) (hint : Option ℕ)
    → let probed = succeeded (limited gate now hint).0 first in
      (probed.failures ≡ (limited gate now hint).0.failures)
      × (probed.cooldown ≡ none)
      × ((succeeded probed second).failures
          ≡ (if leb (seconds 60) (second - first) then 0 else probed.failures))
unfolding limited succeeded
succeeded_twice gate now first second hint = ground arith
