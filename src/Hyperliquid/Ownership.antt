-- ===== src/Hyperliquid/Ownership.antt =====
-- Which open orders src/hyperliquid/journal.rs takes for the strategy's own.
use lp_maker.Base.{
  ℕ, ◌≡◌, ◌⊎◌, true, false, ◌&&◌, ◌||◌, not, some, List, [], ◌∷◌, String, ok, All, any, all,
  >>=-eq-ok, ensure-eq-ok, context-eq-ok, ok-injective, arith,
}
use mathlib.Core.Path.{subst}
use text.Mathlib.Text.{◌==◌ as str_eq}
use lp_maker.Hyperliquid.Json.{Json, is_text}
use lp_maker.Hyperliquid.Store.{Order, Orders, Files}
use lp_maker.Hyperliquid.Journal.Reconcile.{find_oid, own_order, own_orders, managed_open_orders}

module _ {V : Type 0} ⦃j : Json V⦄ (ledger : Orders V) (coin : String) where
  -- This row of the exchange is this order of the strategy, which is not over.
  pub record IsOwn (row : V) (id : String) : Type 0 where
    pub number : ℕ
    pub order : Order V
    pub numbered : j.as_u64 (j.at row "oid") ≡ some number
    pub found : find_oid number ledger ≡ some order
    pub same_number : order.oid ≡ some number
    pub managed : order.managed_hedge ≡ true
    pub same_coin : is_text (j.at row "coin") coin ≡ true
    pub unresolved : order.terminal ≡ false
    pub named : order.cloid ≡ id

  pub data Owned : List V → List String → Type 0 where
    no_more : Owned [] []
    one_more :
        {row : V} {id : String} {rows : List V} {ids : List String}
        → IsOwn row id
        → Owned rows ids
        → Owned (row ∷ rows) (id ∷ ids)

  oid-find_oid : (n : ℕ) (l : Orders V) (o : Order V) → find_oid n l ≡ some o → o.oid ≡ some n
  unfolding find_oid
  oid-find_oid n [] o e = ground arith
  oid-find_oid n ((k, v) ∷ rest) o e = ground (arith, oid-find_oid n rest o)

  own_order-IsOwn : (row : V) (id : String) → own_order ledger coin row ≡ ok id → IsOwn row id
  unfolding own_order
  own_order-IsOwn row id e =
      let (n, numbered, e₁) = context-eq-ok (j.as_u64 (j.at row "oid")) _ _ e in
      let (o, found, e₂) = context-eq-ok (find_oid n ledger) _ _ e₁ in
      let (own, e₃) = ensure-eq-ok (o.managed_hedge && is_text (j.at row "coin") coin) _ _ e₂ in
      let (unresolved, e₄) = ensure-eq-ok (not o.terminal) _ _ e₃ in
      record {
        number = n;
        order = o;
        numbered = numbered;
        found = found;
        same_number = oid-find_oid n ledger o found;
        managed = ground arith;
        same_coin = ground arith;
        unresolved = ground arith;
        named = ok-injective e₄;
      }

  own_orders-Owned :
      (rows : List V) (ids : List String) → own_orders ledger coin rows ≡ ok ids → Owned rows ids
  unfolding own_orders
  own_orders-Owned [] ids e = subst (Owned []) (ok-injective e) no_more
  own_orders-Owned (row ∷ rest) ids e =
      let (id, e₁, e₂) = >>=-eq-ok (own_order ledger coin row) _ e in
      let (tail, e₃, e₄) = >>=-eq-ok (own_orders ledger coin rest) _ e₂ in
      subst (Owned (row ∷ rest)) (ok-injective e₄)
        (one_more (own_order-IsOwn row id e₁) (own_orders-Owned rest tail e₃))

  all-All :
      (ids : List String) (l : Orders V)
      → all (λ entry. entry.1.terminal || any (λ id. str_eq id entry.1.cloid) ids) l ≡ true
      → All
          (λ entry. (entry.1.terminal ≡ true) ⊎ (any (λ id. str_eq id entry.1.cloid) ids ≡ true))
          l
  all-All ids [] e = tt
  all-All ids (entry ∷ rest) e = (ground arith, all-All ids rest (ground arith))

-- The open orders that may be cancelled at a start are all that the exchange lists: each is, by its number,
-- an unresolved hedge order of the ledger for this coin, and no unresolved order of the ledger is missing.
pub managed_open_orders-Owned :
    {V : Type 0} ⦃j : Json V⦄ (s : Files V) (listed : V) (coin : String) (ids : List String)
    → managed_open_orders s listed coin ≡ ok ids
    → (rows : List V) × (j.as_array listed ≡ some rows)
      × Owned s.orders coin rows ids
      × All
          (λ entry. (entry.1.terminal ≡ true) ⊎ (any (λ id. str_eq id entry.1.cloid) ids ≡ true))
          s.orders
unfolding managed_open_orders
managed_open_orders-Owned ⦃j = j⦄ s listed coin ids e =
    let (rows, there, e₁) = context-eq-ok (j.as_array listed) _ _ e in
    let (own, e₂, e₃) = >>=-eq-ok (own_orders s.orders coin rows) _ e₁ in
    let (complete, e₄) =
      ensure-eq-ok
        (all (λ entry. entry.1.terminal || any (λ id. str_eq id entry.1.cloid) own) s.orders) _ _
        e₃ in
    let same : own ≡ ids = ok-injective e₄ in
    (
      rows,
      there,
      subst (Owned s.orders coin rows) same (own_orders-Owned s.orders coin rows own e₂),
      all-All s.orders coin ids s.orders (rw (← same) complete),
    )
