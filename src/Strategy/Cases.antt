-- ===== src/Strategy/Cases.antt =====
-- The ways through `Strategy::evaluate_inner`, as rules for the proofs about it.
use lp_maker.Base.{
  ◌≡◌, ◌⊎◌, inl, inr, refl, Bool, true, false, List, Result, ok, err, if◌then◌else◌, is_empty,
  arith, String, Bool-cases,
}
use lp_maker.Float.{F64, lit}
use lp_maker.Domain.{MarketFrame, LpIntent, hold, exit_to_quote, deploy, recenter, base}
use lp_maker.Strategy.State.{
  Strategy, StrategyConfig, Phase, warmup, active, paused, recovering, halted, Reason, is_paused,
  is_halted,
}
use lp_maker.Strategy.Indicators.{Metrics, calculate}
use lp_maker.Strategy.Market.{
  begin, unusable, refuse, mark_drawdown, unsafe_market, blocked_by, after_market,
}
use lp_maker.Strategy.Breakout.{turn_bar}
use lp_maker.Strategy.Phases.{Advance, stop, proceed, advance, waiting}
use lp_maker.Strategy.Evaluate.{
  recheck, account, Evaluated, judge, finish, halt, refused, unmeasured, measured, settle,
  evaluate_inner,
}
use lp_maker.Strategy.Blocks.{
  SameClock, SameClock-trans, Pauses, Gains, Loses-Gains, recheck-Loses, after_market-Loses,
  account-Gains, recheck-SameClock, account-SameClock, after_market-safe, after_market-unsafe,
  account-unsafe,
}

module _ {W : Type 0} ⦃f : F64 W⦄ (c : StrategyConfig W) (frame : MarketFrame W) where
  -- The strategy behind the check of the drawdown.
  abbrev pub checked_equity : Strategy W → Strategy W
  checked_equity s = mark_drawdown c frame (begin c frame s)

  pub evaluate_cases {κ} :
      (P : Evaluated W → Type κ) (continuity : Bool) (s : Strategy W)
      → (unusable c frame ≡ true
          → P (refused c frame (refuse c frame continuity (begin c frame s))))
      → ((reasons : List Reason)
          → unusable c frame ≡ false
          → is_halted (checked_equity s).phase ≡ true
          → P (halt c frame reasons (checked_equity s)))
      → ((message : String)
          → unusable c frame ≡ false
          → is_halted (checked_equity s).phase ≡ false
          → P (unmeasured c frame continuity message (checked_equity s)))
      → ((m : Metrics W)
          → unusable c frame ≡ false
          → is_halted (checked_equity s).phase ≡ false
          → calculate frame.candles c frame.now_ms ≡ ok m
          → P (judge c frame continuity m (checked_equity s)))
      → P (evaluate_inner c frame continuity s)
  unfolding evaluate_inner measured
  evaluate_cases P continuity s stale halts gap good = elim (Bool-cases (unusable c frame)) [
    | inl e ↦ rw e (stale e)
    | inr e ↦ rw e (elim (Bool-cases (is_halted (checked_equity s).phase)) [
      | inl h ↦ rw h (halts _ e h)
      | inr h ↦ rw h (go (calculate frame.candles c frame.now_ms) refl e h)
    ])
  ]
    where
      go :
          (r : Result (Metrics W))
          → calculate frame.candles c frame.now_ms ≡ r
          → unusable c frame ≡ false
          → is_halted (checked_equity s).phase ≡ false
          → P (measured c frame continuity r (checked_equity s))
      go (ok m) q e h = good m e h q
      go (err message) q e h = gap message e h

  -- What a phase may propose: nothing, or the deployment of the fraction that it then records.
  abbrev pub Proposes : Strategy W → LpIntent W → Type 0
  Proposes t hold = Unit
  Proposes t (deploy x) = (t.fraction ≡ x) × ((t.phase ≡ active) ⊎ (t.phase ≡ recovering))
  Proposes t exit_to_quote = ⊥
  Proposes t (recenter layers) = ⊥

  abbrev pub Sound : Advance W → Type 0
  Sound (stop t d) = d.lp ≡ exit_to_quote
  Sound (proceed t lp reasons) = Proposes t lp

  pub advance-Sound :
      (p : Phase) (continuity unsafe healthy : Bool) (reasons : List Reason) (s : Strategy W)
      → Sound (advance c frame p continuity unsafe healthy reasons s)
  unfolding advance
  advance-Sound warmup continuity unsafe healthy reasons s = ground arith
  advance-Sound active continuity unsafe healthy reasons s = tt
  advance-Sound paused continuity unsafe healthy reasons s = ground arith
  advance-Sound recovering continuity unsafe healthy reasons s = ground arith
  advance-Sound halted continuity unsafe healthy reasons s = tt

  pub finish-phase :
      (t : Strategy W) (lp : LpIntent W) (reasons : List Reason)
      → ((finish c frame (proceed t lp reasons)).strategy.phase ≡ t.phase)
        × ((finish c frame (proceed t lp reasons)).strategy.fraction ≡ t.fraction)
  unfolding finish turn_bar
  finish-phase t lp reasons = ground arith

  settle-deploy :
      (lp : LpIntent W) (resets : List String) (x : W)
      → settle c frame lp resets ≡ deploy x
      → lp ≡ deploy x
  settle-deploy hold resets x e = ground arith
  settle-deploy exit_to_quote resets x e = e
  settle-deploy (deploy y) resets x e = e
  settle-deploy (recenter ls) resets x e = e

  Proposes-deploy :
      (u t : Strategy W) (lp : LpIntent W) (x : W)
      → Proposes t lp
      → (u.phase ≡ t.phase) × (u.fraction ≡ t.fraction)
      → lp ≡ deploy x
      → Proposes u (deploy x)
  Proposes-deploy u t lp x sound same e = ground arith

  pub finish-deploy :
      (a : Advance W) (x : W)
      → Sound a
      → (finish c frame a).decision.lp ≡ deploy x
      → Proposes (finish c frame a).strategy (deploy x)
  unfolding finish
  finish-deploy (stop t d) x sound e = cc
  finish-deploy (proceed t lp reasons) x sound e =
      Proposes-deploy (finish c frame (proceed t lp reasons)).strategy t lp x sound
        (finish-phase t lp reasons) (settle-deploy lp _ x e)

  pub advance-unsafe :
      (p : Phase) (continuity unsafe healthy : Bool) (reasons : List Reason) (s : Strategy W)
      → p ≡ paused
      → unsafe ≡ true
      → advance c frame p continuity unsafe healthy reasons s ≡ stop s (waiting c frame reasons s)
  unfolding advance
  advance-unsafe p continuity unsafe healthy reasons s e u = ground arith

  -- What `judge` makes of an unsafe market.
  pub record Withdraws (s : Strategy W) (r : Evaluated W) : Type 0 where
    pub phase : r.strategy.phase ≡ paused
    pub healthy_hours : r.strategy.healthy_hours ≡ 0
    pub entry_history : r.strategy.entry_history ≡ s.entry_history
    pub pause_since :
        r.strategy.pause_since ≡ (if is_paused s.phase then s.pause_since else frame.now_ms)
    pub fraction : r.strategy.fraction ≡ lit 0
    pub lp : r.decision.lp ≡ exit_to_quote
    pub target : r.decision.target_short_base ≡ base frame.portfolio
    pub emergency : r.decision.emergency ≡ true

  pub judge-Withdraws :
      (continuity : Bool) (m : Metrics W) (s : Strategy W)
      → unsafe_market c frame m ≡ true
      → Withdraws s (judge c frame continuity m s)
  unfolding judge finish
  judge-Withdraws continuity m s bad =
      let r = recheck c frame continuity m s in
      let t = account c frame continuity m r.event r.strategy in
      let same : SameClock s r.strategy = recheck-SameClock c frame continuity m s in
      let pauses : Pauses c frame r.strategy (after_market c frame continuity m r.strategy) =
        after_market-unsafe c frame continuity m r.strategy bad in
      let kept : SameClock (after_market c frame continuity m r.strategy) t =
        account-SameClock c frame continuity m r.event r.strategy in
      rw (advance-unsafe t.phase continuity _ _ _ t (ground arith) bad) (record {
        phase = ground arith;
        healthy_hours = account-unsafe c frame continuity m r.event r.strategy bad;
        entry_history = ground arith;
        pause_since = ground arith;
        fraction = ground arith;
        lp = refl;
        target = refl;
        emergency = refl;
      })

  -- The state that the phases are decided on, where the market is safe.
  pub safe-SameClock :
      (continuity : Bool) (m : Metrics W) (s : Strategy W)
      → unsafe_market c frame m ≡ false
      → let r = recheck c frame continuity m s in
        SameClock s (account c frame continuity m r.event r.strategy)
  safe-SameClock continuity m s safe =
      let r = recheck c frame continuity m s in
      let kept : SameClock (after_market c frame continuity m r.strategy)
          (account c frame continuity m r.event r.strategy) =
        account-SameClock c frame continuity m r.event r.strategy in
      SameClock-trans s r.strategy _ (recheck-SameClock c frame continuity m s)
        (rw (after_market-safe c frame continuity m r.strategy safe) at kept)

  judged-Gains :
      (continuity : Bool) (m : Metrics W) (s : Strategy W)
      → let r = recheck c frame continuity m s in
        Gains s (account c frame continuity m r.event r.strategy)
  judged-Gains continuity m s =
      let r = recheck c frame continuity m s in
      Loses-Gains s r.strategy _ (recheck-Loses c frame continuity m s) (
        Loses-Gains r.strategy _ _ (after_market-Loses c frame continuity m r.strategy)
          (account-Gains c frame continuity m r.event r.strategy))

  -- The two ways through `judge`. In a safe market the phases are decided on a strategy `t` whose clocks
  -- are those of before.
  pub judge_cases {κ} :
      (P : Evaluated W → Type κ) (continuity : Bool) (m : Metrics W) (s : Strategy W)
      → ((r : Evaluated W) → unsafe_market c frame m ≡ true → Withdraws s r → P r)
      → ((t : Strategy W) (unsafe : Bool) (reasons : List Reason)
          → unsafe_market c frame m ≡ false
          → unsafe ≡ false
          → SameClock s t
          → Gains s t
          → P (
              finish c frame (
                advance c frame t.phase continuity unsafe
                  (is_empty (blocked_by c frame m))
                  reasons
                  t)))
      → P (judge c frame continuity m s)
  judge_cases P continuity m s bad good = elim (Bool-cases (unsafe_market c frame m)) [
    | inl u ↦ bad _ u (judge-Withdraws continuity m s u)
    | inr u ↦
        unfold judge in
        good _ _ _ u u (safe-SameClock continuity m s u) (judged-Gains continuity m s)
  ]
