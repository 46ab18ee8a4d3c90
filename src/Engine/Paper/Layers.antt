-- ===== src/Engine/Paper/Layers.antt =====
-- Which layers the book of src/engine/paper.rs holds.
use lp_maker.Base.{
  ℕ, ◌≡◌, refl, false, ◌&&◌, ◌||◌, not, Option, is_some, List, [], ◌∷◌, ◌++◌, String, ok, if_cases,
  if◌then◌else◌, ◌>>=◌, >>=-eq-ok, ensure-eq-ok, context-eq-ok, ok-injective, select, ap, sym, ◌∙◌,
}
use lp_maker.Float.{F64, ◌<f◌, lit}
use lp_maker.Math.{liquidity_for_value}
use lp_maker.Domain.{LpPosition, LpIntent, hold, exit_to_quote, deploy, recenter}
use lp_maker.Config.State.{Config}
use lp_maker.Strategy.State.{Decision, LayerConfig}
use lp_maker.Engine.Paper.{Paper, contains, is_entry, remove, swap_to_base, fill, band_config}
use lp_maker.Engine.Paper.Apply.{
  layers_of, exit_to_cash, find_layer, scale_one, scale_each, bounds_of, open_one, open_each,
  reopen, change_lp, place_order, leaves, apply_with_widths, wanted, set_positions,
}
use lp_maker.Engine.Paper.Held.{
  names_of, held_after, layers-select, names-select, layers-++, ++_assoc, ++_nil, contains_self,
  keeps_each, keeps_none,
}

module _ {W : Type 0} ⦃f : F64 W⦄ (c : Config W) (p : W) where
  scale_one-layer :
      (fraction : W) (pos pos' : LpPosition W) (b b' : Paper W)
      → scale_one c p fraction pos b ≡ ok (pos', b')
      → pos'.layer ≡ pos.layer
  unfolding scale_one
  scale_one-layer fraction pos pos' b b' e =
      let (layer, _, e₁) = context-eq-ok (find_layer pos.layer c.strategy.layers) _ _ e in
      if_cases (λ r. r ≡ ok (pos', b') → pos'.layer ≡ pos.layer)
        (wanted c p fraction pos layer b <f lit 10)
        (λ _ e₂. ap (λ x. x.0.layer) (sym (ok-injective e₂)))
        (λ _ e₂.
          let (_, e₃) = ensure-eq-ok _ _ _ e₂ in
          let (added, _, e₄) = >>=-eq-ok (liquidity_for_value _ pos.lower pos.upper p) _ e₃ in
          let (_, e₅) = ensure-eq-ok _ _ _ e₄ in ap (λ x. x.0.layer) (sym (ok-injective e₅)))
        e₁

  scale_each-layers :
      (fraction : W) (ps ps' : List (LpPosition W)) (b b' : Paper W)
      → scale_each c p fraction ps b ≡ ok (ps', b')
      → layers_of ps' ≡ layers_of ps
  unfolding scale_each
  scale_each-layers fraction [] ps' b b' e = ap (λ x. layers_of (x.0)) (sym (ok-injective e))
  scale_each-layers fraction (pos ∷ rest) ps' b b' e =
      let ((pos₁, b₁), e₁, e₂) = >>=-eq-ok (scale_one c p fraction pos b) _ e in
      let ((rest₁, b₂), e₃, e₄) = >>=-eq-ok (scale_each c p fraction rest b₁) _ e₂ in
      ap (λ x. layers_of (x.0)) (sym (ok-injective e₄))
      ∙ ap (λ n. n ∷ layers_of rest₁) (scale_one-layer fraction pos pos₁ b b₁ e₁)
      ∙ ap (λ l. pos.layer ∷ l) (scale_each-layers fraction rest rest₁ b₁ b₂ e₃)

  open_one-layers :
      (widths : Option (W × W)) (value : W) (l : LayerConfig W) (b b' : Paper W)
      → open_one c p widths value l b ≡ ok b'
      → layers_of b'.portfolio.positions ≡ layers_of b.portfolio.positions ++ l.name ∷ []
  unfolding open_one swap_to_base
  open_one-layers widths value l b b' e =
      let (lower, upper) = bounds_of c p widths l in
      let (liquidity, _, e₁) = >>=-eq-ok (liquidity_for_value value lower upper p) _ e in
      let (_, e₂) = ensure-eq-ok _ _ _ e₁ in
      ap (λ x. layers_of x.portfolio.positions) (sym (ok-injective e₂))
      ∙ layers-++ b.portfolio.positions _

  open_each-layers :
      (widths : Option (W × W)) (budget weight_sum : W) (ls : List (LayerConfig W)) (b b' : Paper W)
      → open_each c p widths budget weight_sum ls b ≡ ok b'
      → layers_of b'.portfolio.positions ≡ layers_of b.portfolio.positions ++ names_of ls
  unfolding open_each
  open_each-layers widths budget weight_sum [] b b' e =
      ap (λ x. layers_of x.portfolio.positions) (sym (ok-injective e))
      ∙ sym (++_nil (layers_of b.portfolio.positions))
  open_each-layers widths budget weight_sum (l ∷ rest) b b' e =
      let (b₁, e₁, e₂) = >>=-eq-ok (open_one c p widths _ l b) _ e in
      open_each-layers widths budget weight_sum rest b₁ b' e₂
      ∙ ap (λ x. x ++ names_of rest) (open_one-layers widths _ l b b₁ e₁)
      ∙ ++_assoc (layers_of b.portfolio.positions) l.name (names_of rest)

  reopen-layers :
      (intent : LpIntent W) (widths : Option (W × W)) (layers : List String) (b b' : Paper W)
      → reopen c p intent widths layers b ≡ ok b'
      → layers_of b'.portfolio.positions
        ≡ select (λ n. not (contains layers n)) (layers_of b.portfolio.positions)
          ++ select (contains layers) (names_of c.strategy.layers)
  unfolding reopen remove
  reopen-layers intent widths layers b b' e =
      open_each-layers widths _ _ (select (λ l. contains layers l.name) c.strategy.layers)
        (remove layers b) b' e
      ∙ ap (λ x. x ++ names_of (select (λ l. contains layers l.name) c.strategy.layers))
          (layers-select (λ n. not (contains layers n)) b.portfolio.positions)
      ∙ ap (λ x. select (λ n. not (contains layers n)) (layers_of b.portfolio.positions) ++ x)
          (names-select (contains layers) c.strategy.layers)

  exit-layers :
      (hedge : W) (b : Paper W) → layers_of (exit_to_cash c p hedge b).portfolio.positions ≡ []
  unfolding exit_to_cash remove swap_to_base fill
  exit-layers hedge b =
      let held = layers_of b.portfolio.positions in
      let none_left : layers_of
            (select (λ pos. not (contains held pos.layer)) b.portfolio.positions)
          ≡ [] =
        layers-select (λ n. not (contains held n)) b.portfolio.positions
        ∙ keeps_none (contains held) held (contains_self [] held) in
      if_cases (λ (x : Paper W). layers_of x.portfolio.positions ≡ [])
        (lit 0 <f b.portfolio.short_base) (λ _. none_left) (λ _. none_left)

  change_lp-layers :
      (intent : LpIntent W) (widths : Option (W × W)) (b b' : Paper W)
      → leaves intent ≡ false
      → change_lp c p intent widths b ≡ ok b'
      → layers_of b'.portfolio.positions
        ≡ held_after (names_of c.strategy.layers) intent (layers_of b.portfolio.positions)
  change_lp-layers hold widths b b' l e =
      ap (λ x. layers_of x.portfolio.positions) (sym (ok-injective e))
  change_lp-layers exit_to_quote widths b b' l e = cc
  change_lp-layers (recenter layers) widths b b' l e =
      reopen-layers (recenter layers) widths layers b b' e
  change_lp-layers (deploy fraction) widths b b' l e = go b.portfolio.positions refl
    where
      names : List String
      names = names_of c.strategy.layers

      go :
          (ps : List (LpPosition W))
          → b.portfolio.positions ≡ ps
          → layers_of b'.portfolio.positions ≡ held_after names (deploy fraction) (layers_of ps)
      go [] at =
          let e₁ : reopen c p (deploy fraction) widths names b ≡ ok b' = rw (← e) (rw at refl) in
          reopen-layers (deploy fraction) widths names b b' e₁
          ∙ ap
              (λ x.
                select (λ n. not (contains names n)) (layers_of x) ++ select (contains names) names)
              at
          ∙ keeps_each (contains names) names (contains_self [] names)
      go (pos ∷ rest) at =
          let e₁ : (scale_each c p fraction b.portfolio.positions b >>= λ (positions, book).
          ok (set_positions positions book))
              ≡ ok b' =
            rw (← e) (rw at refl) in
          let ((ps', b₁), e₂, e₃) =
            >>=-eq-ok (scale_each c p fraction b.portfolio.positions b) _ e₁ in
          ap (λ x. layers_of x.portfolio.positions) (sym (ok-injective e₃))
          ∙ scale_each-layers fraction b.portfolio.positions ps' b b₁ e₂
          ∙ ap layers_of at

module _ {W : Type 0} ⦃f : F64 W⦄ where
  -- The book implements a machine that knows only which layers are held: a step that succeeds leaves the
  -- layers that the decision says, whatever the prices, the budgets and the order of the hedge are.
  pub apply_with_widths-held_after :
      (d : Decision W) (c : Config W) (p hedge : W) (now : ℕ) (widths : Option (W × W))
      (b b' : Paper W)
      → apply_with_widths d c p hedge now widths b ≡ ok b'
      → layers_of b'.portfolio.positions
        ≡ held_after (names_of c.strategy.layers) d.lp (layers_of b.portfolio.positions)
  unfolding apply_with_widths place_order
  apply_with_widths-held_after d c p hedge now widths b b' e =
      let (_, e₁) =
        ensure-eq-ok (not (is_some (band_config c.strategy) && is_entry d.lp) || is_some widths) _ _
          e in
      go d.lp e₁
    where
      names : List String
      names = names_of c.strategy.layers

      stays :
          (intent : LpIntent W)
          → leaves intent ≡ false
          → (change_lp c p intent widths b >>= λ x. ok (place_order d c p hedge now widths x))
            ≡ ok b'
          → layers_of b'.portfolio.positions
            ≡ held_after names intent (layers_of b.portfolio.positions)
      stays intent l h =
          let (x, e₂, e₃) = >>=-eq-ok (change_lp c p intent widths b) _ h in
          ap (λ y. layers_of y.portfolio.positions) (sym (ok-injective e₃))
          ∙ change_lp-layers c p intent widths b x l e₂

      go :
          (intent : LpIntent W)
          → (if leaves intent
              then ok (exit_to_cash c p hedge b)
              else (change_lp c p intent widths b >>= λ x.
                  ok (place_order d c p hedge now widths x)))
            ≡ ok b'
          → layers_of b'.portfolio.positions
            ≡ held_after names intent (layers_of b.portfolio.positions)
      go hold h = stays hold refl h
      go exit_to_quote h =
          ap (λ y. layers_of y.portfolio.positions) (sym (ok-injective h)) ∙ exit-layers c p hedge b
      go (deploy fraction) h = stays (deploy fraction) refl h
      go (recenter layers) h = stays (recenter layers) refl h
