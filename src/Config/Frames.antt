-- ===== src/Config/Frames.antt =====
-- What a strategy with the settings of `Samples` is shown.
use lp_maker.Base.{ℕ, ◌+◌, ◌-◌, ◌*◌, some, [], ◌∷◌, map}
use lp_maker.Domain.{LpPosition, Portfolio, MarketFrame}
use lp_maker.Strategy.Samples.{hour, snapshot, empty_wallet}
use lp_maker.Strategy.Eth.Feature.{Feature, range_from}
use lp_maker.Strategy.State.{Strategy, active, established, fresh_progress}
use lp_maker.Strategy.Eth.State.{fresh_persistent}
use lp_maker.Config.Samples.{eight}

-- A minute after an hour, over quiet candles at a price of 1.
abbrev pub frame_at : ℕ → ℕ → Portfolio ℕ → MarketFrame ℕ
frame_at hours price portfolio = record {
  now_ms = hours * 3600000 + 60000;
  pool = snapshot (hours * 3600000 + 59000) price;
  hedge_price = 100000000;
  hedge_time_ms = hours * 3600000 + 59000;
  candles =
      map
        (λ h. record (hour h) {
          opening = 100000000;
          high = 100000000;
          low = 100000000;
          close = 100000000;
        })
        (range_from (hours - 80) 80);
  portfolio = portfolio;
}

abbrev held : LpPosition ℕ
held = record {
  layer = "core";
  token_id = some "7";
  lower = 90000000;
  upper = 110000000;
  liquidity = 100000000;
  raw_liquidity = "100000000";
  unclaimed_base = 0;
  unclaimed_quote = 0;
  base = 0;
  quote = 12000000000;
}

abbrev pub invested : Portfolio ℕ
invested = record empty_wallet { positions = held ∷ []; wallet_quote = 8000000000 }

abbrev pub cash : Portfolio ℕ
cash = record empty_wallet { wallet_quote = 20000000000 }

abbrev pub running : Strategy ℕ
running = record {
  eth_persistent = some (record fresh_persistent {
    band = some (record {
      account_origin_equity = some 20000000000;
      risk_equity = 20000000000;
      entered_ms = 30 * 3600000;
      episode_peak = 20000000000;
      entry_drawdown = 0;
      net_exposure_usd = 0;
      pause_threshold = 3000000;
    });
  });
  entry_history = established;
  phase = active;
  peak_equity = 20000000000;
  pause_since = 0;
  last_hour = 0;
  healthy_hours = 0;
  fraction = 100000000;
  last_scale = 0;
  last_decision_bar = 0;
  layers = [];
  recovery_progress = fresh_progress;
}

-- The newest feature of the candles.
abbrev pub calm : Feature ℕ
calm = record {
  time = 100 * 3600000 - 1;
  close = 100000000;
  r1 = 0;
  r6 = 0;
  r24 = 0;
  r72 = 0;
  vol6 = 0;
}
