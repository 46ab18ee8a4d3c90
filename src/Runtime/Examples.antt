-- ===== src/Runtime/Examples.antt =====
-- The theorems about src/runtime.rs at concrete inputs.
use lp_maker.Base.{ℕ, ◌≡◌, refl, false, none, some, [], ok, arith, if◌then◌else◌, ltb}
use lp_maker.Runtime.{
  Health, Attempt, done, unavailable, Waiting, retry_reads, fresh, expired, check_health,
}
use lp_maker.Runtime.Retries.{Recovered, retry_reads-returns}

-- Two reads fail, the second one with a hint; the third one succeeds.
abbrev task : ℕ → Attempt ℕ
task n = if ltb n 2 then unavailable (if ltb n 1 then none else some 9000) else done 7

abbrev idle : Waiting
idle = record { waits = []; health = none; now_ms = 1000 }

retry_reads-returns_example :
    ((retry_reads 5 500 false task 0 idle).outcome ≡ some (done 7))
    × Recovered 500 2 idle (retry_reads 5 500 false task 0 idle)
retry_reads-returns_example =
    retry_reads-returns 500 task 2 0 5 7 idle ((none, refl), ((some 9000, refl), tt)) refl
      (omega arith)

abbrev alive : Health
alive = record { status = "running"; updated_ms = 50000; last_decision_ms = some 50000 }

checked : check_health (some alive) 60000 45 ≡ ok alive
unfolding check_health fresh expired
checked = refl
