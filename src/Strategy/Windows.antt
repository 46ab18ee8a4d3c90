-- ===== src/Strategy/Windows.antt =====
-- The candles and windows that the metrics of src/strategy/indicators.rs rest on.
use lp_maker.Base.{
  ℕ, zero, suc, Bool-cases, leb→le, ltb→lt, ◌+◌, ◌-◌, ◌≤◌, ◌<◌, ◌≡◌, inl, inr, Bool, true, some,
  List, [], ◌∷◌, map, ok, ensure-eq-ok, >>-eq-ok, context-eq-ok, ltb, leb, arith, length, drop,
  select, map_pairs, get_elem?, length-drop, length-take, length-map_pairs, length-map, All,
  ok-injective,
}
use mathlib.Core.Path.{subst}
use lp_maker.Float.{F64}
use lp_maker.Domain.{Candle}
use lp_maker.Strategy.State.{StrategyConfig, wrap64}
use lp_maker.Strategy.Indicators.{
  Metrics, needed, baseline_window, recent_window, is_hour, follows, is_sound, check_rows,
  check_order, measure, recent_rows, calculate,
}

module _ {W : Type 0} ⦃f : F64 W⦄ where
  -- Each candle is sound, spans an hour, and opens an hour after the one before it.
  abbrev pub Linked : List (Candle W) → Type 0
  Linked [] = Unit
  Linked (a ∷ []) = Unit
  Linked (a ∷ b ∷ rest) = (b.open_ms ≡ wrap64 (a.open_ms + 3600000)) × Linked (b ∷ rest)

  abbrev pub IsHour : Candle W → Type 0
  IsHour r = (is_sound r ≡ true) × (r.open_ms + 3599999 ≡ r.close_ms)

  check_rows-All : (rows : List (Candle W)) → check_rows rows ≡ ok tt → All IsHour rows
  unfolding check_rows
  check_rows-All [] h = tt
  check_rows-All (r ∷ rest) h =
      let (sound, h₁) = ensure-eq-ok (is_sound r) _ _ h in
      let (hour, h₂) = ensure-eq-ok (is_hour r) _ _ h₁ in
      ((sound, spans hour), check_rows-All rest h₂)
    where
      spans : is_hour r ≡ true → r.open_ms + 3599999 ≡ r.close_ms
      spans e = ground arith

  check_order-Linked : (rows : List (Candle W)) → check_order rows ≡ ok tt → Linked rows
  unfolding check_order
  check_order-Linked [] h = tt
  check_order-Linked (a ∷ []) h = tt
  check_order-Linked (a ∷ b ∷ rest) h =
      let (next, h₁) = ensure-eq-ok (follows a b) _ _ h in
      (opens next, check_order-Linked (b ∷ rest) h₁)
    where
      opens : follows a b ≡ true → b.open_ms ≡ wrap64 (a.open_ms + 3600000)
      opens e = ground arith

  select-All :
      (p : Candle W → Bool) (rows : List (Candle W)) → All (λ r. p r ≡ true) (select p rows)
  select-All p [] = tt
  select-All p (r ∷ rest) = elim (Bool-cases (p r)) [
    | inl e ↦ rw e (e, select-All p rest)
    | inr e ↦ rw e (select-All p rest)
  ]

  All-drop :
      (P : Candle W → Type 0) (n : ℕ) (rows : List (Candle W)) → All P rows → All P (drop n rows)
  All-drop P zero rows h = h
  All-drop P (suc n) [] h = tt
  All-drop P (suc n) (r ∷ rest) h = All-drop P n rest h.1

  All-get_elem? :
      (P : Candle W → Type 0) (rows : List (Candle W)) (i : ℕ) (r : Candle W)
      → All P rows
      → get_elem? rows i ≡ some r
      → P r
  All-get_elem? P [] i r h e = cc
  All-get_elem? P (x ∷ rest) zero r h e = let same : x ≡ r = cc in subst P same h.0
  All-get_elem? P (x ∷ rest) (suc i) r h e = All-get_elem? P rest i r h.1 e

  -- The windows of the volatility are as long as the settings say.
  windows_exact :
      (c : StrategyConfig W) (returns : List W)
      → suc (length returns) ≡ needed c
      → (length (baseline_window c returns) ≡ c.vol_long_hours)
        × (length (recent_window c returns) ≡ c.vol_short_hours)
  unfolding baseline_window recent_window
  windows_exact c returns h = (
    omega (
      arith,
      length-take c.vol_long_hours
          (drop (length returns - c.vol_short_hours - c.vol_long_hours) returns),
      length-drop (length returns - c.vol_short_hours - c.vol_long_hours) returns,
    ),
    omega (arith, length-drop (length returns - c.vol_short_hours) returns),
  )

  -- The metrics are measured on the rows alone.
  calculate-measure :
      (candles : List (Candle W)) (c : StrategyConfig W) (now : ℕ) (m : Metrics W)
      → calculate candles c now ≡ ok m
      → let rows = recent_rows candles c now in
        (last : Candle W) × (get_elem? rows (length rows - 1) ≡ some last)
        × (measure rows c last ≡ m)
  unfolding calculate
  calculate-measure candles c now m h =
      let rows = recent_rows candles c now in
      let completed = select (λ (x : Candle W). ltb x.close_ms now) candles in
      let (_, h₁) = ensure-eq-ok (leb (needed c) (length completed)) _ _ h in
      let (_, h₂) = >>-eq-ok (check_rows rows) _ h₁ in
      let (_, h₃) = >>-eq-ok (check_order rows) _ h₂ in
      let (last, found, h₄) = context-eq-ok (get_elem? rows (length rows - 1)) _ _ h₃ in
      let (_, h₅) = ensure-eq-ok (leb (now - last.close_ms) 3660000) _ _ h₄ in
      (last, found, ok-injective h₅)

  -- What the metrics rest on: the rows are as many as the settings take, hourly and linked, the last of
  -- them is closed and at most 61 minutes old, the volatility windows are whole, and the metrics are those
  -- of these rows.
  pub record IsMeasured (c : StrategyConfig W) (now : ℕ) (m : Metrics W) (rows : List (Candle W))
      : Type 0 where
    pub count : length rows ≡ needed c
    pub hours : All IsHour rows
    pub linked : Linked rows
    pub closed : m.last_close_ms < now
    pub fresh : now ≤ m.last_close_ms + 3660000
    pub windows :
        (g : W → W → W)
        → let returns = map_pairs g (map (λ r. r.close) rows) in
          (length (baseline_window c returns) ≡ c.vol_long_hours)
          × (length (recent_window c returns) ≡ c.vol_short_hours)
    pub last : Candle W
    pub latest : get_elem? rows (length rows - 1) ≡ some last
    pub measured : measure rows c last ≡ m

  returns_exact :
      (c : StrategyConfig W) (rows : List (Candle W)) (g : W → W → W)
      → length rows ≡ needed c
      → let returns = map_pairs g (map (λ r. r.close) rows) in
        (length (baseline_window c returns) ≡ c.vol_long_hours)
        × (length (recent_window c returns) ≡ c.vol_short_hours)
  returns_exact c rows g e = windows_exact c _ (
      omega (
        arith,
        length-map_pairs g (map (λ r. r.close) rows),
        length-map (λ (r : Candle W). r.close) rows,
      ))

  -- Metrics are computed only from the last completed candles: as many as the settings take, each sound
  -- and an hour long, each opening an hour after the one before it, the last closed before now and at most
  -- 61 minutes ago; the two volatility windows then have exactly the configured lengths, and
  -- the metrics are what these candles measure, with the last of them as the newest.
  pub calculate-IsMeasured :
      (candles : List (Candle W)) (c : StrategyConfig W) (now : ℕ) (m : Metrics W)
      → calculate candles c now ≡ ok m
      → IsMeasured c now m (recent_rows candles c now)
  unfolding calculate measure
  calculate-IsMeasured candles c now m h =
      let rows = recent_rows candles c now in
      let (newest, at_end, value) = calculate-measure candles c now m h in
      let completed = select (λ (x : Candle W). ltb x.close_ms now) candles in
      let (enough, h₁) = ensure-eq-ok (leb (needed c) (length completed)) _ _ h in
      let (sound, h₂) = >>-eq-ok (check_rows rows) _ h₁ in
      let (linked, h₃) = >>-eq-ok (check_order rows) _ h₂ in
      let (last, found, h₄) = context-eq-ok (get_elem? rows (length rows - 1)) _ _ h₃ in
      let (recent, h₅) = ensure-eq-ok (leb (now - last.close_ms) 3660000) _ _ h₄ in
      let same : m.last_close_ms ≡ last.close_ms = cc in
      let count : length rows ≡ needed c =
        omega (arith, leb→le _ _ enough, length-drop (length completed - needed c) completed) in
      let done : ltb last.close_ms now ≡ true =
        All-get_elem? (λ r. ltb r.close_ms now ≡ true) rows (length rows - 1) last
          (All-drop _ (length completed - needed c) completed (select-All _ candles)) found in
      record {
        count = count;
        hours = check_rows-All rows sound;
        linked = check_order-Linked rows linked;
        closed = omega (arith, ltb→lt _ _ done);
        fresh = omega (arith, ltb→lt _ _ done, leb→le _ _ recent);
        windows = λ g. returns_exact c rows g count;
        last = newest;
        latest = at_end;
        measured = value;
      }
