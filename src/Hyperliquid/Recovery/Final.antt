-- ===== src/Hyperliquid/Recovery/Final.antt =====
-- When a search for the final status of an order succeeds.
use lp_maker.Base.{
  ℕ, ◌≡◌, ◌⊎◌, refl, true, false, some, String, Result, ok, err, ensure-eq-ok, context-eq-ok, arith,
}
use lp_maker.Hyperliquid.Json.{Json}
use lp_maker.Hyperliquid.Store.{Order, Orders, Files, lookup, change}
use lp_maker.Hyperliquid.Journal.{terminal_status}
use lp_maker.Hyperliquid.Journal.Reconcile.{
  observe, observe_found, observe_order, observed_files, settle_order, is_found,
}
use lp_maker.Hyperliquid.Ledger.{change-Changed}
use lp_maker.Hyperliquid.Recovery.{Answers, resolve, is_open}
use lp_maker.Hyperliquid.Recovery.Writes.{resolve-Q}

module _ {V : Type 0} ⦃j : Json V⦄ where
  -- The ledger says that this order is over, with a final status.
  pub record Over (id : String) (s : Files V) : Type 0 where
    pub order : Order V
    pub there : lookup id s.orders ≡ some order
    pub over : order.terminal ≡ true
    pub final : terminal_status order.status ≡ true

  -- An answer that settles an order which is not open has a final status.
  settled-found :
      (response : V)
      → settle_order response ≡ ok tt
      → (is_found response ≡ true)
        × (status : String) × (j.as_str (j.at (j.at response "order") "status") ≡ some status)
        × ((is_open response ≡ true) ⊎ (terminal_status status ≡ true))
  unfolding settle_order
  settled-found response e =
      let (found, e₁) = ensure-eq-ok (is_found response) _ _ e in
      let (status, there, e₂) =
        context-eq-ok (j.as_str (j.at (j.at response "order") "status")) _ _ e₁ in
      (found, status, there, ground arith)

  pub found-status :
      (now : ℕ) (id : String) (response : V) (o o' : Order V)
      → observe_found now id response o ≡ ok o'
      → (j.as_str (j.at (j.at response "order") "status") ≡ some o'.status)
        × (o'.terminal ≡ terminal_status o'.status)
  unfolding observe_found
  found-status now id response o o' e = (ground arith, ground arith)

  observed-Over :
      (now : ℕ) (id : String) (response : V) (s : Files V) (r : Result (Orders V))
      → change id (observe_order now id response) s.orders ≡ r
      → (observed_files s r response).result ≡ ok tt
      → is_open response ≡ false
      → Over id (observed_files s r response).files
  observed-Over now id response s (err message) c e closed = cc
  observed-Over now id response s (ok orders) c e closed =
      let (found, status, there, last) = settled-found response e in
      let k = change-Changed id (observe_order now id response) s.orders orders c in
      let says : observe_found now id response k.old ≡ ok k.new =
        rw (← k.changed) (rw found refl) in
      let (named, sound) = found-status now id response k.old k.new says in
      record { order = k.new; there = k.new_there; over = ground arith; final = ground arith }

  pub observe-Over :
      (now : ℕ) (id : String) (response : V) (s : Files V)
      → (observe now id response s).result ≡ ok tt
      → is_open response ≡ false
      → Over id (observe now id response s).files
  unfolding observe
  observe-Over now id response s =
      observed-Over now id response s (change id (observe_order now id response) s.orders) refl

  -- What settles an order names it.
  pub observe-is_found :
      (now : ℕ) (id : String) (response : V) (s : Files V)
      → (observe now id response s).result ≡ ok tt
      → is_found response ≡ true
  unfolding observe
  observe-is_found now id response s = go (change id (observe_order now id response) s.orders)
    where
      go :
          (r : Result (Orders V))
          → (observed_files s r response).result ≡ ok tt
          → is_found response ≡ true
      go (err message) e = cc
      go (ok orders) e = (settled-found response e).0

  pub resolve-Over :
      (answers : Answers V) (now : ℕ) (id : String) (s : Files V) (v : V)
      → (resolve answers now id true s).result ≡ ok v
      → Over id (resolve answers now id true s).files
  resolve-Over answers now id s v e =
      resolve-Q (λ _. Unit) (λ t r. (u : V) → r ≡ ok u → Over id t) answers now id true
        (record {
          fails = λ t message _ u h. cc;
          observes = λ response t _. tt;
          answers_ok =
              λ response t _ settled at u h. observe-Over now id response t settled (ground arith);
          lists = λ t u _. tt;
          knows = λ t o _ there over final u h. record {
            order = o;
            there = there;
            over = over;
            final = final;
          };
        })
        s tt v e
