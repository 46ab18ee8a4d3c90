-- ===== src/Hyperliquid/Soundness.antt =====
-- When the operations of src/hyperliquid/journal.rs mark orders as over.
mod OneOrder
pub use OneOrder.*
use lp_maker.Base.{
  ℕ, ◌≡◌, refl, Bool, true, false, ◌&&◌, ◌||◌, not, Option, none, some, is_none, String, Result, ok,
  err, ◌>>=◌, context, if_cases, >>=-eq-ok, ensure-eq-ok, ok-injective, arith, if◌then◌else◌,
}
use mathlib.Core.Path.{subst}
use text.Mathlib.Text.{◌==◌ as str_eq}
use lp_maker.Hyperliquid.Json.{Json}
use lp_maker.Hyperliquid.Store.{Order, Orders, Files, ArchivePolicy, lookup, change}
use lp_maker.Hyperliquid.Journal.{
  terminal_status, each, update_orders, is_order, intents, cloid_of, prepare_known, new_order,
  put_wire, is_managed, or_insert, import_pointer, prepare_wire, prepare, is_unarchived,
  import_legacy, legacy_order, acknowledge, acknowledged,
}
use lp_maker.Hyperliquid.Journal.Reconcile.{
  withdraw_order, withdraw_known, withdraw_wire, not_submitted, observe_found, observe_missing,
  observe_order, observe, observed_files, is_found,
}
use lp_maker.Hyperliquid.Acknowledged.{acknowledged-keeps}
use lp_maker.Hyperliquid.Ledger.{Entries, each-keeps, insert-Entries, change-Entries}

module _ {V : Type 0} ⦃j : Json V⦄ where
  update-AllSound :
      (s s' : Files V) (changed : Result (Orders V))
      → ((l : Orders V) → changed ≡ ok l → AllSound l)
      → update_orders s changed ≡ ok s'
      → AllSound s'.orders
  update-AllSound s s' changed h e =
      let (l, e₁, e₂) = >>=-eq-ok changed _ e in
      subst (λ t. AllSound t.orders) (ok-injective e₂) (h l e₁)

  prepare_wire-AllSound :
      (s : Files V) (user : String) (nonce : ℕ) (wire : V) (l l' : Orders V)
      → prepare_wire s user nonce wire l ≡ ok l'
      → AllSound l
      → AllSound l'
  unfolding prepare_wire
  prepare_wire-AllSound s user nonce wire l l' e h =
      let (id, e₀, e₁) = >>=-eq-ok (cloid_of wire) _ e in go id (lookup id l) e₁
    where
      go :
          (id : String) (o : Option (Order V))
          → put_wire
              (new_order (is_managed s id) user nonce wire id)
              (prepare_known user nonce wire)
              id
              l
              o
            ≡ ok l'
          → AllSound l'
      go id none q =
          subst AllSound (ok-injective q) (
            insert-Entries IsSound id _ l (new_order-IsSound (is_managed s id) user nonce wire id)
              h)
      go id (some old) q =
          change-Entries IsSound id (prepare_known user nonce wire)
            (prepare_known-IsSound user nonce wire) l l' q h

  pub prepare-AllSound :
      (p : ArchivePolicy V) (action : V) (user : String) (nonce : ℕ) (s s' : Files V)
      → prepare p action user nonce s ≡ ok s'
      → AllSound s.orders
      → AllSound s'.orders
  unfolding prepare
  prepare-AllSound p action user nonce s s' e h =
      if_cases (λ r. r ≡ ok s' → AllSound s'.orders) (not (is_order action))
        (λ _ e₁. subst (λ t. AllSound t.orders) (ok-injective e₁) h)
        (λ _ e₁.
          let (wires, e₂, e₃) = >>=-eq-ok (intents action) _ e₁ in
          let (u, e₄, e₅) = >>=-eq-ok (each (λ wire _. is_unarchived p s wire) wires tt) _ e₃ in
          update-AllSound s s' (each (prepare_wire s user nonce) wires s.orders)
            (λ l q.
              each-keeps AllSound (prepare_wire s user nonce) (prepare_wire-AllSound s user nonce)
                wires s.orders l q h)
            e₅)
        e

  pub import-AllSound :
      (user : String) (s s' : Files V)
      → import_legacy user s ≡ ok s'
      → AllSound s.orders
      → AllSound s'.orders
  unfolding import_legacy
  import-AllSound user s s' = pointed s.hedge_order
    where
      put :
          (id : String) (o : Option (Order V))
          → AllSound s.orders
          → AllSound (or_insert id (legacy_order user id) s.orders o)
      put id none h = insert-Entries IsSound id _ s.orders (unfold terminal_status in refl) h
      put id (some old) h = h

      pointed :
          (v : Option V) → import_pointer user s v ≡ ok s' → AllSound s.orders → AllSound s'.orders
      pointed none e h = subst (λ t. AllSound t.orders) (ok-injective e) h
      pointed (some v) e h =
          let (id, e₁, e₂) = >>=-eq-ok (context (j.as_str (j.at v "cloid")) _) _ e in
          subst (λ t. AllSound t.orders) (ok-injective e₂) (put id (lookup id s.orders) h)

  pub acknowledged-AllSound :
      (now : ℕ) (action response : V) (s s' : Files V)
      → acknowledged now action response s ≡ ok s'
      → AllSound s.orders
      → AllSound s'.orders
  acknowledged-AllSound now = acknowledged-keeps AllSound now (λ id refused ack l l' q h.
      change-Entries IsSound id (acknowledge now refused ack)
        (λ o o' r _. acknowledge-IsSound now refused ack o o' r) l l' q h)

  withdraw_wire-AllSound :
      (now : ℕ) (wire : V) (l l' : Orders V)
      → withdraw_wire now wire l ≡ ok l'
      → AllSound l
      → AllSound l'
  withdraw_wire-AllSound now wire l l' e h =
      let (id, e₀, e₁) = >>=-eq-ok (cloid_of wire) _ e in go id (lookup id l) e₁
    where
      go : (id : String) (o : Option (Order V)) → withdraw_known now id l o ≡ ok l' → AllSound l'
      go id none q = subst AllSound (ok-injective q) h
      go id (some o) q =
          change-Entries IsSound id (withdraw_order now) (withdraw_order-IsSound now) l l' q h

  pub not_submitted-AllSound :
      (now : ℕ) (action : V) (s s' : Files V)
      → not_submitted now action s ≡ ok s'
      → AllSound s.orders
      → AllSound s'.orders
  unfolding not_submitted
  not_submitted-AllSound now action s s' e h =
      let (t, e₁, e₂) =
        >>=-eq-ok
          (if is_order action
            then (intents action >>= λ wires.
                update_orders s (each (withdraw_wire now) wires s.orders))
            else ok s)
          _ e in
      subst (λ u. AllSound u.orders) (ok-injective e₂) (written t e₁)
    where
      written :
          (t : Files V)
          → (if is_order action
              then (intents action >>= λ wires.
                  update_orders s (each (withdraw_wire now) wires s.orders))
              else ok s)
            ≡ ok t
          → AllSound t.orders
      written t =
          if_cases (λ r. r ≡ ok t → AllSound t.orders) (is_order action)
            (λ _ q.
              let (wires, _, q₁) = >>=-eq-ok (intents action) _ q in
              update-AllSound s t (each (withdraw_wire now) wires s.orders)
                (λ l r.
                  each-keeps AllSound (withdraw_wire now) (withdraw_wire-AllSound now) wires
                    s.orders l r h)
                q₁)
            (λ _ q. subst (λ u. AllSound u.orders) (ok-injective q) h)

  pub observe-AllSound :
      (now : ℕ) (id : String) (response : V) (s : Files V)
      → AllSound s.orders
      → AllSound (observe now id response s).files.orders
  unfolding observe
  observe-AllSound now id response s h =
      go (change id (observe_order now id response) s.orders) refl
    where
      go :
          (r : Result (Orders V))
          → change id (observe_order now id response) s.orders ≡ r
          → AllSound (observed_files s r response).files.orders
      go (err message) e = h
      go (ok l) e =
          change-Entries IsSound id (observe_order now id response)
            (observe_order-IsSound now id response) s.orders l e h
