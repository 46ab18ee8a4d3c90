-- ===== src/Engine/EntryRearm/Passes.antt =====
-- What a deployment needs under src/engine/entry_rearm.rs, with or without a permit.
use lp_maker.Base.{
  ℕ, String, ◌≡◌, ◌⊎◌, inl, inr, refl, ◌∙◌, sym, ap, Bool, true, false, ◌||◌, not, Option, none,
  some, ok, ◌>>◌, if◌then◌else◌, arith, if_cases, >>=-eq-ok, >>-eq-ok, ensure-eq-ok,
}
use lp_maker.Float.{F64}
use lp_maker.Domain.{MarketFrame, deploy}
use lp_maker.Strategy.State.{Strategy, StrategyConfig, initial, Decision, observe_lp, is_paused}
use lp_maker.Strategy.Indicators.{Metrics, calculate}
use lp_maker.Strategy.Market.{begin, unusable, drawn_down, new_peak, unsafe_market}
use lp_maker.Strategy.Evaluate.{evaluate_inner}
use lp_maker.Strategy.Deployment.{deploy-Cleared}
use lp_maker.Strategy.Eth.State.{PersistentConfig}
use lp_maker.Strategy.Eth.Feature.{Feature}
use lp_maker.Strategy.Eth.Steps.{has_lp, danger_now}
use lp_maker.Strategy.Eth.Cases.{Seen, continuity_cases}
use lp_maker.Strategy.Eth.Evaluate.{evaluate_eth, evaluate_with_continuity}
use lp_maker.Strategy.Eth.Entries.{evaluate_eth-Entry}
use lp_maker.Engine.EntryRearm.{
  canceled, Permit, RearmStore, is_armed, is_deploy, read_permit, settled, write_permit, set_status,
  Asked, flat, ordinary, named, trial, evaluate_armed, with_permit, ask,
}

module _ {W : Type 0} ⦃f : F64 W⦄ (c : StrategyConfig W) (frame : MarketFrame W) where
  -- What the market has to show without a profile for ETH.
  pub record OpenMarket (s : Strategy W) : Type 0 where
    pub no_profile : c.eth_persistent ≡ none
    pub usable : unusable c frame ≡ false
    pub no_drawdown : drawn_down c frame s ≡ false
    pub metrics : Metrics W
    pub measured_ok : calculate frame.candles c frame.now_ms ≡ ok metrics
    pub safe : unsafe_market c frame metrics ≡ false

  -- What it has to show with one.
  pub record OpenInEth (cfg : PersistentConfig W) : Type 0 where
    pub profile : c.eth_persistent ≡ some cfg
    pub feature : Feature W
    pub seen : Seen c frame feature
    pub safe : danger_now c cfg frame feature ≡ none
    pub nothing_held : has_lp frame ≡ false

  -- What it has to show, permit or not.
  abbrev pub Passes : Strategy W → Type 0
  Passes s = OpenMarket s ⊎ ((cfg : PersistentConfig W) × OpenInEth cfg)

  begin_peak : (s : Strategy W) → (begin c frame s).peak_equity ≡ s.peak_equity
  unfolding begin observe_lp
  begin_peak s = ground arith

  drawn_down-begin : (s : Strategy W) → drawn_down c frame (begin c frame s) ≡ drawn_down c frame s
  unfolding drawn_down new_peak
  drawn_down-begin s = rw (begin_peak s) refl

  drawn_down-history :
      (s : Strategy W)
      → drawn_down c frame (record s { entry_history = initial }) ≡ drawn_down c frame s
  unfolding drawn_down new_peak
  drawn_down-history s = refl

  evaluate_inner-OpenMarket :
      (s t : Strategy W) (x : W)
      → drawn_down c frame t ≡ drawn_down c frame s
      → c.eth_persistent ≡ none
      → (evaluate_inner c frame true t).decision.lp ≡ deploy x
      → OpenMarket s
  evaluate_inner-OpenMarket s t x same plain e =
      let k = deploy-Cleared c frame true t x e in
      record {
        no_profile = plain;
        usable = k.usable;
        no_drawdown = sym same ∙ sym (drawn_down-begin t) ∙ k.no_drawdown;
        metrics = k.metrics;
        measured_ok = k.measured_ok;
        safe = k.safe;
      }

  evaluate_eth-OpenInEth :
      (cfg : PersistentConfig W) (t : Strategy W) (x : W)
      → c.eth_persistent ≡ some cfg
      → (evaluate_eth c frame cfg t).decision.lp ≡ deploy x
      → OpenInEth cfg
  evaluate_eth-OpenInEth cfg t x has e =
      let (y, seen, entry) = evaluate_eth-Entry c frame cfg x t e in
      record {
        profile = has;
        feature = y;
        seen = seen;
        safe = entry.safe;
        nothing_held = entry.nothing_held;
      }

  evaluate_with_continuity-Passes :
      (s t : Strategy W) (x : W)
      → drawn_down c frame t ≡ drawn_down c frame s
      → (evaluate_with_continuity c frame t).decision.lp ≡ deploy x
      → Passes s
  evaluate_with_continuity-Passes s t x same =
      continuity_cases c frame (λ r. r.decision.lp ≡ deploy x → Passes s) t
        (λ plain e. inl (evaluate_inner-OpenMarket s t x same plain e))
        (λ cfg has e. inr (cfg, evaluate_eth-OpenInEth cfg t x has e))

  ordinary-Passes :
      (store : RearmStore) (s : Strategy W) (r : Asked W) (x : W)
      → ok (ordinary c frame store s) ≡ ok r
      → r.decision.lp ≡ deploy x
      → Passes s
  ordinary-Passes store s r x h e =
      let same : ordinary c frame store s ≡ r = cc in
      evaluate_with_continuity-Passes s s x refl (ap (λ a. a.decision.lp) same ∙ e)

  named_lp : (id : String) (d : Decision W) → (named id d).lp ≡ d.lp
  named_lp id d =
      if_cases (λ (r : Decision W). r.lp ≡ d.lp) (is_deploy d.lp) (λ _. refl) (λ _. refl)

  trial-Passes :
      (p : Permit) (now : ℕ) (store : RearmStore) (s : Strategy W) (x : W)
      → (trial c frame p now store s).decision.lp ≡ deploy x
      → Passes s
  unfolding trial
  trial-Passes p now store s x e =
      let t = record s { entry_history = initial } in
      evaluate_with_continuity-Passes s t x (drawn_down-history s)
        (sym (named_lp p.id (evaluate_with_continuity c frame t).decision) ∙ e)

  evaluate_armed-Passes :
      (live : Bool) (now : ℕ) (store : RearmStore) (s : Strategy W) (p : Permit) (r : Asked W)
      (x : W)
      → evaluate_armed c frame live now store s p ≡ ok r
      → r.decision.lp ≡ deploy x
      → Passes s
  unfolding evaluate_armed
  evaluate_armed-Passes live now store s p r x h e =
      let (_, h₁) = ensure-eq-ok live _ _ h in split h₁
    where
      cancel : RearmStore
      cancel = write_permit store (set_status p canceled now)

      split :
          (if not (is_paused s.phase) || not (flat frame.portfolio)
              then ok (ordinary c frame cancel s)
              else settled store >> ok (trial c frame p now store s))
            ≡ ok r
          → Passes s
      split =
          if_cases (λ a. a ≡ ok r → Passes s)
            (not (is_paused s.phase) || not (flat frame.portfolio))
            (λ _ q. ordinary-Passes cancel s r x q e)
            (λ _ q.
              let (_, q') = >>-eq-ok (settled store) _ q in
              let same : trial c frame p now store s ≡ r = cc in
              trial-Passes p now store s x (ap (λ a. a.decision.lp) same ∙ e))

  with_permit-Passes :
      (live : Bool) (now : ℕ) (store : RearmStore) (s : Strategy W) (o : Option Permit)
      (r : Asked W) (x : W)
      → with_permit c frame live now store s o ≡ ok r
      → r.decision.lp ≡ deploy x
      → Passes s
  with_permit-Passes live now store s none r x h e = ordinary-Passes store s r x h e
  with_permit-Passes live now store s (some p) r x h e =
      if_cases (λ a. a ≡ ok r → Passes s) (is_armed p.status)
        (λ _ q. evaluate_armed-Passes live now store s p r x q e)
        (λ _ q. ordinary-Passes store s r x q e) h

  -- A permit waives the waiting only: with or without one, liquidity is deployed without a profile in ETH
  -- only on data that can be used, with no drawdown, on complete hourly candles and in a safe market; and
  -- with one only on a fresh observation without danger while nothing is held.
  pub ask-Passes :
      (live : Bool) (bound : String) (now : ℕ) (store : RearmStore) (s : Strategy W) (r : Asked W)
      (x : W)
      → ask c frame live bound now store s ≡ ok r
      → r.decision.lp ≡ deploy x
      → Passes s
  unfolding ask
  ask-Passes live bound now store s r x h e =
      let (found, _, h₁) = >>=-eq-ok (read_permit bound store) _ h in
      with_permit-Passes live now store s found r x h₁ e
