-- ===== src/Runtime/Retries.antt =====
-- How the retries of src/runtime.rs come to a value, and what the record of health says.
use lp_maker.Base.{
  ℕ, zero, suc, ◌+◌, ◌*◌, ◌≤◌, ◌<◌, ◌≡◌, ◌↔◌, refl, false, Option, none, some, ok, arith, length,
  List, [], ◌∷◌, ◌++◌, All, ap, sym, ◌∙◌, ensure-eq-ok, context-eq-ok, >>-eq-ok, ok-injective,
  unwrap_or, u64_max,
}
use mathlib.Core.Path.{subst}
use mathlib.Core.List.{append_assoc}
use text.Mathlib.Text.{◌==◌ as str_eq}
use text.Mathlib.TextEquality.{eq_iff}
use lp_maker.Runtime.{
  Health, Attempt, done, unavailable, Waiting, Retried, retry_reads, retry_delay, wait_for, fresh,
  expired, check_health,
}

-- So many attempts from this one on find the read unavailable.
abbrev pub Unavailable : {T : Type 0} → (ℕ → Attempt T) → ℕ → ℕ → Type 0
Unavailable task n zero = Unit
Unavailable task n (suc k) =
    ((hint : Option ℕ) × (task n ≡ unavailable hint)) × Unavailable task (suc n) k

-- What the loop leaves after so many waits, each as long as the setting at least.
pub record Recovered {T : Type 0} (delay k : ℕ) (w : Waiting) (r : Retried T) : Type 0 where
  pub since : List ℕ
  pub added : r.state.waits ≡ since ++ w.waits
  pub count : length since ≡ k
  pub each : All (λ t. delay ≤ t) since
  pub later : w.now_ms + k * delay ≤ r.state.now_ms

length-snoc : (t : ℕ) (ts : List ℕ) → length (ts ++ t ∷ []) ≡ suc (length ts)
length-snoc t [] = refl
length-snoc t (x ∷ ts) = ap suc (length-snoc t ts)

All-snoc :
    (delay t : ℕ) (ts : List ℕ)
    → delay ≤ t
    → All (λ x. delay ≤ x) ts
    → All (λ x. delay ≤ x) (ts ++ t ∷ [])
All-snoc delay t [] h k = (h, tt)
All-snoc delay t (x ∷ ts) h k = (k.0, All-snoc delay t ts h k.1)

module _ {T : Type 0} (delay : ℕ) (task : ℕ → Attempt T) where
  -- If the first so many reads are unavailable and the next attempt returns a value, a loop that may repeat
  -- and has fuel for these attempts returns that value after exactly so many waits, each of which takes
  -- at least the setting: it neither gives up before nor asks again after.
  pub retry_reads-returns :
      (k n fuel : ℕ) (value : T) (w : Waiting)
      → Unavailable task n k
      → task (n + k) ≡ done value
      → k < fuel
      → ((retry_reads fuel delay false task n w).outcome ≡ some (done value))
        × Recovered delay k w (retry_reads fuel delay false task n w)
  unfolding retry_reads wait_for
  retry_reads-returns k n zero value w u e lt = ground arith
  retry_reads-returns zero n (suc fuel) value w u e lt =
      let here : task n ≡ done value = subst (λ i. task i ≡ done value) (omega arith) e in
      rw here
        (refl, record { since = []; added = refl; count = refl; each = tt; later = omega arith })
  retry_reads-returns (suc k) n (suc fuel) value w ((hint, first), u) e lt =
      let next = wait_for delay hint w in
      let e' : task (suc n + k) ≡ done value = subst (λ i. task i ≡ done value) (omega arith) e in
      let (returned, r) = retry_reads-returns k (suc n) fuel value next u e' (omega (arith, lt)) in
      let wait = retry_delay hint delay w.now_ms in
      rw first (
        returned,
        record {
          since = r.since ++ wait ∷ [];
          added = r.added ∙ sym (append_assoc r.since (wait ∷ []) w.waits);
          count = length-snoc wait r.since ∙ ap suc r.count;
          each = All-snoc delay wait r.since (delay-le-wait hint) r.each;
          later = ground (arith, r.later);
        },
      )
    where
      delay-le-wait : (o : Option ℕ) → delay ≤ retry_delay o delay w.now_ms
      delay-le-wait none = omega arith
      delay-le-wait (some until) = omega arith

-- A time is fresh exactly if there is one, it is at most five seconds ahead, and it is at most as old as
-- the setting allows; the times must be those of a clock that a `u64` holds.
fresh_iff :
    (source_ms now_ms max_age_seconds : ℕ)
    → now_ms + 5000 ≤ u64_max
    → max_age_seconds * 1000 ≤ u64_max
    → (fresh source_ms now_ms max_age_seconds ≡ ok tt) ↔ (
        (0 < source_ms)
        × (source_ms ≤ now_ms + 5000)
        × (now_ms ≤ source_ms + max_age_seconds * 1000))
unfolding fresh expired
fresh_iff source_ms now_ms max_age_seconds h k = (λ e. ground arith, λ e. ground arith)

-- A health check passes only if the last status that was recorded is that of a running program, and its
-- last decision is at most as old as the setting allows.
check_health-Alive :
    (file : Option Health) (now_ms max_age_seconds : ℕ) (h : Health)
    → check_health file now_ms max_age_seconds ≡ ok h
    → (file ≡ some h)
      × (h.status ≡ "running")
      × (time : ℕ) × (h.last_decision_ms ≡ some time)
      × (now_ms ≤ time + max_age_seconds * 1000)
unfolding check_health fresh expired
check_health-Alive file now_ms max_age_seconds h e =
    let (health, there, e₁) = context-eq-ok file _ _ e in
    let (running, e₂) = ensure-eq-ok (str_eq health.status "running") _ _ e₁ in
    let (age, e₃) =
      >>-eq-ok (fresh (unwrap_or health.last_decision_ms 0) now_ms max_age_seconds) _ e₂ in
    let same : health ≡ h = ok-injective e₃ in
    let (time, known, old) = decided health.last_decision_ms age in
    (
      subst (λ x. file ≡ some x) same there,
      subst (λ x. x.status ≡ "running") same ((eq_iff health.status "running").0 running),
      time,
      subst (λ x. x.last_decision_ms ≡ some time) same known,
      old,
    )
  where
    decided :
        (o : Option ℕ)
        → fresh (unwrap_or o 0) now_ms max_age_seconds ≡ ok tt
        → (time : ℕ) × (o ≡ some time) × (now_ms ≤ time + max_age_seconds * 1000)
    decided none age = ground arith
    decided (some time) age = (time, refl, ground arith)
