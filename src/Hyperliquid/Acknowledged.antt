-- ===== src/Hyperliquid/Acknowledged.antt =====
-- What an acknowledgement of src/hyperliquid/journal.rs keeps of the ledger.
use lp_maker.Base.{
  ensure, get_elem?, ℕ, ◌≡◌, Bool, not, Option, none, some, List, [], ◌∷◌, String, ok, All,
  if_cases, >>=-eq-ok, >>-eq-ok, ok-injective, suc, context,
}
use mathlib.Core.Path.{subst, sym, ap}
use lp_maker.Hyperliquid.Json.{Json}
use lp_maker.Hyperliquid.Store.{Orders, Files, change}
use lp_maker.Hyperliquid.Journal.{
  is_order, intents, cloid_of, acknowledged, acknowledge_from, acknowledge,
}
use lp_maker.Hyperliquid.Presence.{InLedger, change-Known}

module _ {V : Type 0} ⦃j : Json V⦄ where
  -- What a change by an acknowledgement keeps, the whole acknowledgement keeps.
  module _ (I : Orders V → Type 0) (now : ℕ) where
    Kept : Type 0
    Kept =
        (id : String) (refused : Bool) (ack : V) (l l' : Orders V)
        → change id (acknowledge now refused ack) l ≡ ok l'
        → I l
        → I l'

    acknowledge_from-keeps :
        Kept
        → (refused : Bool) (response : V) (statuses : Option (List V)) (wires : List V) (i : ℕ)
          (l l' : Orders V)
        → acknowledge_from now refused response statuses wires i l ≡ ok l'
        → I l
        → I l'
    unfolding acknowledge_from Kept
    acknowledge_from-keeps kept refused response statuses [] i l l' e h = subst I (ok-injective e) h
    acknowledge_from-keeps kept refused response statuses (wire ∷ rest) i l l' e h =
        let (id, e₀, e₁) = >>=-eq-ok (cloid_of wire) _ e in
        let (ack, e₂, e₃) =
          >>=-eq-ok
            (elim statuses [
              | none ↦ ok response
              | some list ↦ context (get_elem? list i) "index out of bounds"
            ])
            _ e₁ in
        let (l₁, e₄, e₅) = >>=-eq-ok (change id (acknowledge now refused ack) l) _ e₃ in
        acknowledge_from-keeps kept refused response statuses rest (suc i) l₁ l' e₅
          (kept id refused ack l l₁ e₄ h)

    pub acknowledged-keeps :
        ((id : String) (refused : Bool) (ack : V) (l l' : Orders V)
          → change id (acknowledge now refused ack) l ≡ ok l'
          → I l
          → I l')
        → (action response : V) (s s' : Files V) → acknowledged now action response s ≡ ok s'
        → I s.orders
        → I s'.orders
    unfolding acknowledged Kept
    acknowledged-keeps kept action response s s' e h =
        if_cases (λ r. r ≡ ok s' → I s'.orders) (not (is_order action))
          (λ _ e₁. subst (λ t. I t.orders) (ok-injective e₁) h)
          (λ _ e₁.
            let (wires, e₂, e₃) = >>=-eq-ok (intents action) _ e₁ in
            let (_, e₄) = >>-eq-ok (ensure _ _) _ e₃ in
            let (l, e₅, e₆) = >>=-eq-ok (acknowledge_from now _ response _ wires 0 s.orders) _ e₄ in
            subst (λ t. I t.orders) (ok-injective e₆)
              (acknowledge_from-keeps kept _ response _ wires 0 s.orders l e₅ h))
          e

  pub acknowledged-pending :
      (now : ℕ) (action response : V) (s s' : Files V)
      → acknowledged now action response s ≡ ok s'
      → s'.pending ≡ s.pending
  unfolding acknowledged
  acknowledged-pending now action response s s' e =
      if_cases (λ r. r ≡ ok s' → s'.pending ≡ s.pending) (not (is_order action))
        (λ _ e₁. ap (λ t. t.pending) (sym (ok-injective e₁)))
        (λ _ e₁.
          let (wires, e₂, e₃) = >>=-eq-ok (intents action) _ e₁ in
          let (_, e₄) = >>-eq-ok (ensure _ _) _ e₃ in
          let (l, e₅, e₆) = >>=-eq-ok (acknowledge_from now _ response _ wires 0 s.orders) _ e₄ in
          ap (λ t. t.pending) (sym (ok-injective e₆)))
        e

  pub acknowledged-InLedger :
      (now : ℕ) (action response : V) (s s' : Files V) (wires : List V)
      → acknowledged now action response s ≡ ok s'
      → All (InLedger s.orders) wires
      → All (InLedger s'.orders) wires
  acknowledged-InLedger now action response s s' wires e =
      acknowledged-keeps (λ l. All (InLedger l) wires) now
        (λ id refused ack l l' q. each_wire id refused ack l l' q wires) action response s s' e
    where
      each_wire :
          (id : String) (refused : Bool) (ack : V) (l l' : Orders V)
          → change id (acknowledge now refused ack) l ≡ ok l'
          → (ws : List V) → All (InLedger l) ws
          → All (InLedger l') ws
      each_wire id refused ack l l' q [] h = tt
      each_wire id refused ack l l' q (w ∷ ws) ((other, named, k), h) = (
        (other, named, change-Known id other (acknowledge now refused ack) l l' q k),
        each_wire id refused ack l l' q ws h,
      )
