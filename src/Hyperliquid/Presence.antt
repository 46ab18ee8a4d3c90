-- ===== src/Hyperliquid/Presence.antt =====
-- The writes of src/hyperliquid/journal.rs that keep the orders of the ledger; `compact`, which prunes them,
-- is not among them.
use Prim.Native.Nat.{lt, eq, gt}
use Prim.Native.String.{compare as str_compare}
use lp_maker.Base.{
  ◌>>◌, ℕ, ◌≡◌, refl, true, Option, none, some, List, [], ◌∷◌, String, Result, ok, All, >>=-eq-ok,
  >>-eq-ok, ok-injective, Bool-cases, inl, inr,
}
use mathlib.Core.Path.{subst}
use text.Mathlib.Text.{◌==◌ as str_eq}
use text.Mathlib.TextEquality.{eq_iff, path_by_compare}
use lp_maker.Hyperliquid.Json.{Json}
use lp_maker.Hyperliquid.Store.{Order, Orders, Files, ArchivePolicy, lookup, insert, change}
use lp_maker.Hyperliquid.Journal.{
  each, prepare, prepare_wire, prepare_known, put_wire, new_order, is_managed, is_order, intents,
  cloid_of, is_unarchived, update_orders,
}
use lp_maker.Hyperliquid.Ledger.{each-keeps, change-Changed, lookup-change}

abbrev pub Known {ℓ} : {A : Type ℓ} → String → List (String × A) → Type ℓ
Known {A = A} id l = (v : A) × (lookup id l ≡ some v)

module _ {A : Type 0} where
  pub change-Known :
      (id other : String) (f : A → Result A) (l l' : List (String × A))
      → change id f l ≡ ok l'
      → Known other l
      → Known other l'
  change-Known id other f l l' e (v, there) =
      let (v', there', _) =
        lookup-change (λ _. Unit {0}) id f (λ _ _ _ _. tt) other l l' v e there tt in
      (v', there')

  cons-Known :
      (other key : String) (w : A) (rest : List (String × A))
      → Known other rest
      → Known other ((key, w) ∷ rest)
  unfolding lookup
  cons-Known other key w rest k = elim (Bool-cases (str_eq key other)) [
    | inl t ↦ (w, rw t refl)
    | inr t ↦ (k.0, rw t (k.1))
  ]

  head-Known : (key : String) (w : A) (rest : List (String × A)) → Known key ((key, w) ∷ rest)
  unfolding lookup
  head-Known key w rest = (w, rw ((eq_iff key key).1 refl) refl)

  -- The value of an entry does not matter.
  same_head-Known :
      (other key : String) (w v : A) (rest : List (String × A))
      → Known other ((key, w) ∷ rest)
      → Known other ((key, v) ∷ rest)
  unfolding lookup
  same_head-Known other key w v rest (u, there) = elim (Bool-cases (str_eq key other)) [
    | inl t ↦ (v, rw t refl)
    | inr t ↦ (u, rw t (rw t at there))
  ]

  later-Known :
      (other key : String) (w : A) (rest rest' : List (String × A))
      → (Known other rest → Known other rest')
      → Known other ((key, w) ∷ rest)
      → Known other ((key, w) ∷ rest')
  unfolding lookup
  later-Known other key w rest rest' f (u, there) = elim (Bool-cases (str_eq key other)) [
    | inl t ↦ (w, rw t refl)
    | inr t ↦ (let (u', there') = f (u, rw t at there) in (u', rw t there'))
  ]

  insert-Known :
      (id other : String) (v : A) (l : List (String × A))
      → Known other l
      → Known other (insert id v l)
  unfolding insert
  insert-Known id other v [] k = cons-Known other id v [] k
  insert-Known id other v ((key, w) ∷ rest) k =
      elim (str_compare id key)
        as (λ o. Known other (elim o [
          | lt ↦ (id, v) ∷ (key, w) ∷ rest
          | eq ↦ (key, v) ∷ rest
          | gt ↦ (key, w) ∷ insert id v rest
        ])) [
          | lt ↦ cons-Known other id v ((key, w) ∷ rest) k
          | eq ↦ same_head-Known other key w v rest k
          | gt ↦ later-Known other key w rest (insert id v rest) (insert-Known id other v rest) k
        ]

  insert-there : (id : String) (v : A) (l : List (String × A)) → Known id (insert id v l)
  unfolding insert
  insert-there id v [] = head-Known id v []
  insert-there id v ((key, w) ∷ rest) = go (str_compare id key) refl (insert-there id v rest)
    where
      go :
          (o : Prim.Native.Nat.Ordering)
          → str_compare id key ≡ o
          → Known id (insert id v rest)
          → Known id (elim o [
            | lt ↦ (id, v) ∷ (key, w) ∷ rest
            | eq ↦ (key, v) ∷ rest
            | gt ↦ (key, w) ∷ insert id v rest
          ])
      go lt e k = head-Known id v ((key, w) ∷ rest)
      go eq e k =
          subst (λ s. Known id ((s, v) ∷ rest)) (path_by_compare id key e) (head-Known id v rest)
      go gt e k = cons-Known id key w (insert id v rest) k

module _ {V : Type 0} ⦃j : Json V⦄ where
  put_wire-Known :
      (s : Files V) (user : String) (nonce : ℕ) (wire : V) (id other : String) (l l' : Orders V)
      (o : Option (Order V))
      → lookup id l ≡ o
      → put_wire
          (new_order (is_managed s id) user nonce wire id)
          (prepare_known user nonce wire)
          id
          l
          o
        ≡ ok l'
      → (Known other l → Known other l') × Known id l'
  put_wire-Known s user nonce wire id other l l' none there e =
      let same = ok-injective e in
      let fresh = new_order (is_managed s id) user nonce wire id in
      (
        λ k. subst (Known other) same (insert-Known id other fresh l k),
        subst (Known id) same (insert-there id fresh l),
      )
  put_wire-Known s user nonce wire id other l l' (some old) there e =
      let c = change-Changed id (prepare_known user nonce wire) l l' e in
      (change-Known id other (prepare_known user nonce wire) l l' e, (c.new, c.new_there))

  -- The order of an intent is in a ledger.
  abbrev pub InLedger : Orders V → V → Type 0
  InLedger l wire = (id : String) × (cloid_of wire ≡ ok id) × Known id l

  prepare_wire-keeps :
      (s : Files V) (user : String) (nonce : ℕ) (other : String) (wire : V) (l l' : Orders V)
      → prepare_wire s user nonce wire l ≡ ok l'
      → Known other l
      → Known other l'
  unfolding prepare_wire
  prepare_wire-keeps s user nonce other wire l l' e =
      let (id, _, e₁) = >>=-eq-ok (cloid_of wire) _ e in
      (put_wire-Known s user nonce wire id other l l' (lookup id l) refl e₁).0

  prepare_wire-InLedger :
      (s : Files V) (user : String) (nonce : ℕ) (wire : V) (l l' : Orders V)
      → prepare_wire s user nonce wire l ≡ ok l'
      → InLedger l' wire
  unfolding prepare_wire
  prepare_wire-InLedger s user nonce wire l l' e =
      let (id, named, e₁) = >>=-eq-ok (cloid_of wire) _ e in
      (id, named, (put_wire-Known s user nonce wire id id l l' (lookup id l) refl e₁).1)

  each-InLedger :
      (s : Files V) (user : String) (nonce : ℕ) (wires : List V) (l l' : Orders V)
      → each (prepare_wire s user nonce) wires l ≡ ok l'
      → All (InLedger l') wires
  each-InLedger s user nonce [] l l' e = tt
  each-InLedger s user nonce (wire ∷ rest) l l' e =
      let (m, e₁, e₂) = >>=-eq-ok (prepare_wire s user nonce wire l) (each _ rest) e in
      let (id, named, k) = prepare_wire-InLedger s user nonce wire l m e₁ in
      (
        (
          id,
          named,
          each-keeps (Known id) (prepare_wire s user nonce) (prepare_wire-keeps s user nonce id)
              rest m l' e₂ k,
        ),
        each-InLedger s user nonce rest m l' e₂,
      )

  -- After `prepare` every intent of the action is in the ledger.
  pub prepare-InLedger :
      (p : ArchivePolicy V) (action : V) (user : String) (nonce : ℕ) (s s' : Files V)
      (wires : List V)
      → is_order action ≡ true
      → intents action ≡ ok wires
      → prepare p action user nonce s ≡ ok s'
      → All (InLedger s'.orders) wires
  unfolding prepare
  prepare-InLedger p action user nonce s s' wires order named e =
      let e₁ : (each (λ wire _. is_unarchived p s wire) wires tt
            >> update_orders s (each (prepare_wire s user nonce) wires s.orders))
          ≡ ok s' =
        rw (← e) (rw (order, named) refl) in
      let (_, e₂) = >>-eq-ok (each (λ wire _. is_unarchived p s wire) wires tt) _ e₁ in
      let (l, e₃, e₄) = >>=-eq-ok (each (prepare_wire s user nonce) wires s.orders) _ e₂ in
      subst (λ t. All (InLedger t.orders) wires) (ok-injective e₄)
        (each-InLedger s user nonce wires s.orders l e₃)
