-- ===== src/Engine/Feed.antt =====
-- The hourly candles that src/engine/mod.rs asks the exchange for before a decision.
use lp_maker.Base.{ℕ, ◌+◌, ◌-◌, ◌*◌, max, is_some, if◌then◌else◌}
use lp_maker.Strategy.State.{StrategyConfig, wrap64}

module _ {ℓ} {W : Type ℓ} where
  -- How many hours back the request goes.
  unfoldable pub history_count : StrategyConfig W → ℕ
  history_count c =
      max (max (c.vol_long_hours + c.vol_short_hours + 2) (c.ema_slow_hours * 3 + 2))
        (if is_some c.eth_persistent then 74 else 0)

  -- The first time of the request, `now.saturating_sub(count as u64 * 3_600_000)`.
  unfoldable pub history_start : StrategyConfig W → ℕ → ℕ
  unfolding history_count
  history_start c now = now - wrap64 (history_count c * 3600000)
