-- ===== src/Hyperliquid/Soundness/OneOrder.antt =====
-- When the changes of one order of the ledger mark it as over.
use lp_maker.Base.{
  ℕ, ◌≡◌, refl, Bool, true, false, ◌&&◌, ◌||◌, not, is_none, String, ok, if_cases, ensure-eq-ok,
  ok-injective, arith,
}
use mathlib.Core.Path.{subst}
use text.Mathlib.Text.{◌==◌ as str_eq}
use lp_maker.Hyperliquid.Json.{Json}
use lp_maker.Hyperliquid.Store.{Order, Orders}
use lp_maker.Hyperliquid.Journal.{terminal_status, prepare_known, new_order, acknowledge}
use lp_maker.Hyperliquid.Journal.Reconcile.{
  withdraw_order, observe_found, observe_missing, observe_order, is_found,
}
use lp_maker.Hyperliquid.Ledger.{Entries}

module _ {V : Type 0} ⦃j : Json V⦄ where
  abbrev pub IsSound : Order V → Type 0
  IsSound o = o.terminal ≡ terminal_status o.status

  abbrev pub AllSound : Orders V → Type 0
  AllSound = Entries IsSound

  pub prepare_known-IsSound :
      (user : String) (nonce : ℕ) (wire : V) (o o' : Order V)
      → prepare_known user nonce wire o ≡ ok o'
      → IsSound o
      → IsSound o'
  unfolding prepare_known
  prepare_known-IsSound user nonce wire o o' e h = ground arith

  pub new_order-IsSound :
      (managed : Bool) (user : String) (nonce : ℕ) (wire : V) (id : String)
      → IsSound (new_order managed user nonce wire id)
  unfolding terminal_status
  new_order-IsSound managed user nonce wire id = refl

  pub acknowledge-IsSound :
      (now : ℕ) (rejected : Bool) (ack : V) (o o' : Order V)
      → acknowledge now rejected ack o ≡ ok o'
      → IsSound o'
  acknowledge-IsSound now rejected ack o o' e =
      let filled : terminal_status "filled" ≡ true = unfold terminal_status in refl in
      let refused : terminal_status "rejected" ≡ true = unfold terminal_status in refl in
      let resting : terminal_status "open" ≡ false = unfold terminal_status in refl in ground arith

  pub withdraw_order-IsSound :
      (now : ℕ) (o o' : Order V) → withdraw_order now o ≡ ok o' → IsSound o → IsSound o'
  unfolding withdraw_order
  withdraw_order-IsSound now o o' e h =
      let (_, e₁) =
        ensure-eq-ok
          (is_none o.oid && (str_eq o.status "prepared" || str_eq o.status "not_submitted")) _ _
          e in
      subst IsSound (ok-injective e₁) (unfold terminal_status in refl)

  pub observe_found-IsSound :
      (now : ℕ) (id : String) (response : V) (o o' : Order V)
      → observe_found now id response o ≡ ok o'
      → IsSound o'
  unfolding observe_found
  observe_found-IsSound now id response o o' e = ground arith

  pub observe_missing-IsSound :
      (now : ℕ) (response : V) (o : Order V) → IsSound o → IsSound (observe_missing now response o)
  unfolding observe_missing
  observe_missing-IsSound now response o h =
      if_cases IsSound (not (is_none o.oid) || o.terminal) (λ _. h)
        (λ _. unfold terminal_status in refl)

  pub observe_order-IsSound :
      (now : ℕ) (id : String) (response : V) (o o' : Order V)
      → observe_order now id response o ≡ ok o'
      → IsSound o
      → IsSound o'
  observe_order-IsSound now id response o o' e h =
      if_cases (λ r. r ≡ ok o' → IsSound o') (is_found response)
        (λ _. observe_found-IsSound now id response o o')
        (λ _ q. subst IsSound (ok-injective q) (observe_missing-IsSound now response o h)) e
