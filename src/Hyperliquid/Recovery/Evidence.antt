-- ===== src/Hyperliquid/Recovery/Evidence.antt =====
-- What was learnt of an order, while it or another one is looked for.
use lp_maker.Base.{
  ℕ, ◌≡◌, ◌⊎◌, inr, refl, Bool, true, ◌||◌, not, none, some, is_none, String, Result, ok, err,
  arith, if_cases, ok-injective,
}
use mathlib.Core.Path.{subst}
use text.Mathlib.Text.{◌==◌ as str_eq}
use text.Mathlib.TextEquality.{eq_iff}
use lp_maker.Hyperliquid.Json.{Json}
use lp_maker.Hyperliquid.Store.{Order, Orders, Files, lookup, change}
use lp_maker.Hyperliquid.Journal.{terminal_status}
use lp_maker.Hyperliquid.Journal.Reconcile.{
  observe, observe_found, observe_missing, observe_order, observed_files, is_found,
}
use lp_maker.Hyperliquid.Ledger.{lookup-change}
use lp_maker.Hyperliquid.Recovery.{Answers, resolve}
use lp_maker.Hyperliquid.Recovery.Writes.{resolve-Q}
use lp_maker.Hyperliquid.Soundness.{IsSound}

module _ {V : Type 0} ⦃j : Json V⦄ (o : Order V) where
  -- A later entry with the same final status and, once it is known, the same number of the exchange.
  pub record Confirms (o' : Order V) : Type 0 where
    pub status : o'.status ≡ o.status
    pub over : o'.terminal ≡ true
    pub number : (o.oid ≡ none) ⊎ (o'.oid ≡ o.oid)

  -- An answer that is recorded agrees with what was known.
  found-agrees :
      (now : ℕ) (id : String) (response : V) (v v' : Order V)
      → observe_found now id response v ≡ ok v'
      → v.terminal ≡ true
      → (str_eq v.status v'.status ≡ true)
        × ((v.oid ≡ none) ⊎ (v'.oid ≡ v.oid))
        × (v'.terminal ≡ terminal_status v'.status)
  unfolding observe_found
  found-agrees now id response v v' e over = (ground arith, ground arith, ground arith)

  observe_found-Confirms :
      (now : ℕ) (id : String) (response : V) (v v' : Order V)
      → terminal_status o.status ≡ true
      → observe_found now id response v ≡ ok v'
      → Confirms v
      → Confirms v'
  observe_found-Confirms now id response v v' final e h =
      let (says, number, sound) = found-agrees now id response v v' e h.over in
      let same : v.status ≡ v'.status = (eq_iff v.status v'.status).0 says in
      record { status = cc; over = cc; number = ground (arith, number, h.number) }

  observe_order-Confirms :
      (now : ℕ) (id : String) (response : V) (v v' : Order V)
      → terminal_status o.status ≡ true
      → observe_order now id response v ≡ ok v'
      → Confirms v
      → Confirms v'
  unfolding observe_missing
  observe_order-Confirms now id response v v' final e h =
      if_cases (λ r. r ≡ ok v' → Confirms v') (is_found response)
        (λ _ q. observe_found-Confirms now id response v v' final q h)
        (λ _ q. subst Confirms (ok-injective q) (
          if_cases Confirms (not (is_none v.oid) || v.terminal) (λ _. h)
            (λ c. ground (arith, h.over))))
        e

  abbrev ConfirmedIn : String → Files V → Type 0
  ConfirmedIn id t = (o' : Order V) × (lookup id t.orders ≡ some o') × Confirms o'

  observe-ConfirmedIn :
      (now : ℕ) (id other : String) (response : V) (s : Files V)
      → terminal_status o.status ≡ true
      → ConfirmedIn other s
      → ConfirmedIn other (observe now id response s).files
  unfolding observe
  observe-ConfirmedIn now id other response s final (v, there, h) =
      go (change id (observe_order now id response) s.orders) refl
    where
      go :
          (r : Result (Orders V))
          → change id (observe_order now id response) s.orders ≡ r
          → ConfirmedIn other (observed_files s r response).files
      go (err message) e = (v, there, h)
      go (ok l) e =
          lookup-change Confirms id (observe_order now id response)
            (λ w w' q. observe_order-Confirms now id response w w' final q) other s.orders l v e
            there h

  -- Whatever the exchange answers while an order is looked for, an order that the ledger has with a final
  -- status stays in it, over and with that status, and under the same number of the exchange if one is
  -- known.
  pub resolve-Confirms :
      (answers : Answers V) (now : ℕ) (id other : String) (terminal_only : Bool) (s : Files V)
      → lookup other s.orders ≡ some o
      → o.terminal ≡ true
      → IsSound o
      → (o' : Order V) × (lookup other (resolve answers now id terminal_only s).files.orders
          ≡ some o')
        × Confirms o'
  resolve-Confirms answers now id other terminal_only s there over sound =
      let final : terminal_status o.status ≡ true = ground (arith, over, sound) in
      resolve-Q (ConfirmedIn other) (λ t r. ConfirmedIn other t) answers now id terminal_only
        (record {
          fails = λ t message k. k;
          observes = λ response t k. observe-ConfirmedIn now id other response t final k;
          answers_ok = λ response t k _ _. observe-ConfirmedIn now id other response t final k;
          lists = λ t v k. k;
          knows = λ t v k _ _ _. k;
        })
        s (o, there, record { status = refl; over = over; number = inr refl })
