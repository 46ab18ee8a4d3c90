-- ===== src/Hyperliquid/Runs.antt =====
-- The marks of the ledger over the sequences of `History`.
use lp_maker.Base.{
  ℕ, ◌≡◌, refl, Bool, false, not, List, [], ◌∷◌, String, Result, ok, err, if_cases, ok-injective,
}
use mathlib.Core.Path.{subst}
use lp_maker.Hyperliquid.Json.{Json, eq_ignore_ascii_case}
use lp_maker.Hyperliquid.Store.{Order, Orders, Files, ArchivePolicy, Done, remove}
use lp_maker.Hyperliquid.Journal.{prepare, acknowledged, import_legacy}
use lp_maker.Hyperliquid.Journal.Reconcile.{
  not_submitted, prune, prune_next, prune_step, compact, pruned_files, prune_files, is_pending,
}
use lp_maker.Hyperliquid.Recovery.{
  Answers, resolve, refresh_order, refresh_all, and_go_on, after_import, refresh,
}
use lp_maker.Hyperliquid.Recovery.Writes.{resolve-Q}
use lp_maker.Hyperliquid.Ledger.{remove-Entries}
use lp_maker.Hyperliquid.History.{
  Event, to_prepare, to_acknowledge, to_import, to_withdraw, to_observe, to_resolve, to_refresh,
  to_compact, written, after, run,
}
use lp_maker.Hyperliquid.Soundness.{
  IsSound, AllSound, prepare-AllSound, acknowledged-AllSound, import-AllSound,
  not_submitted-AllSound, observe-AllSound,
}

module _ {V : Type 0} ⦃j : Json V⦄ where
  resolve-AllSound :
      (answers : Answers V) (now : ℕ) (id : String) (terminal_only : Bool) (s : Files V)
      → AllSound s.orders
      → AllSound (resolve answers now id terminal_only s).files.orders
  resolve-AllSound answers now id terminal_only s h =
      resolve-Q (λ t. AllSound t.orders) (λ t r. AllSound t.orders) answers now id terminal_only
        (record {
          fails = λ t message k. k;
          observes = λ response t k. observe-AllSound now id response t k;
          answers_ok = λ response t k _ _. observe-AllSound now id response t k;
          lists = λ t v k. k;
          knows = λ t o k _ _ _. k;
        })
        s h

  refresh_order-AllSound :
      (answers : String → Answers V) (user : String) (now : ℕ) (o : Order V) (s : Files V)
      → AllSound s.orders
      → AllSound (refresh_order answers user now o s).files.orders
  refresh_order-AllSound answers user now o s h =
      if_cases (λ (d : Done V (Unit {0})). AllSound d.files.orders)
        (not (eq_ignore_ascii_case o.user user)) (λ _. h)
        (λ _.
          if_cases (λ (d : Done V (Unit {0})). AllSound d.files.orders) o.terminal (λ _. h)
            (λ _. resolve-AllSound (answers o.cloid) now o.cloid false s h))

  refresh_all-AllSound :
      (answers : String → Answers V) (user : String) (now : ℕ) (l : Orders V) (s : Files V)
      → AllSound s.orders
      → AllSound (refresh_all answers user now l s).files.orders
  unfolding refresh_all
  refresh_all-AllSound answers user now [] s h = h
  refresh_all-AllSound answers user now ((k, o) ∷ rest) s h =
      let d = refresh_order answers user now o s in
      let kept = refresh_order-AllSound answers user now o s h in
      go d.result kept (refresh_all-AllSound answers user now rest d.files kept)
    where
      go :
          (r : Result (Unit {0}))
          → AllSound (refresh_order answers user now o s).files.orders
          → AllSound
              (refresh_all answers user now rest
                (refresh_order answers user now o s).files).files.orders
          → AllSound
              (and_go_on
                (refresh_order answers user now o s)
                (refresh_all answers user now rest)
                r).files.orders
      go (err message) k n = k
      go (ok _) k n = n

  refresh-AllSound :
      (answers : String → Answers V) (user : String) (now : ℕ) (s : Files V)
      → AllSound s.orders
      → AllSound (refresh answers user now s).files.orders
  unfolding refresh
  refresh-AllSound answers user now s h = go (import_legacy user s) refl
    where
      go :
          (r : Result (Files V))
          → import_legacy user s ≡ r
          → AllSound (after_import answers user now s r).files.orders
      go (err message) e = h
      go (ok t) e = refresh_all-AllSound answers user now t.orders t (import-AllSound user s t e h)

  module _ (p : ArchivePolicy V) where
    prune-AllSound :
        (ids : List (ℕ × String)) (archive : List (String × V)) (ledger l : Orders V)
        → (prune p ids archive ledger).result ≡ ok l
        → AllSound ledger
        → AllSound l
    unfolding prune
    prune-AllSound [] archive ledger l e h = subst AllSound (ok-injective e) h
    prune-AllSound ((t, id) ∷ rest) archive ledger l e h =
        go (prune_step p id archive ledger)
          (λ archive'. prune-AllSound rest archive' (remove id ledger) l) e
      where
        go :
            (r : Result (List (String × V)))
            → ((archive' : List (String × V))
                → (prune p rest archive' (remove id ledger)).result ≡ ok l
                → AllSound (remove id ledger)
                → AllSound l)
            → (prune_next p (λ archive'. prune p rest archive' (remove id ledger)) archive r).result
              ≡ ok l
            → AllSound l
        go (err message) k q = cc
        go (ok archive') k q = k archive' q (remove-Entries IsSound id ledger h)

    prune_files-AllSound :
        (ids : List (ℕ × String)) (s : Files V)
        → AllSound s.orders
        → AllSound (prune_files p ids s).files.orders
    prune_files-AllSound ids s h = go (prune p ids s.archive s.orders).result refl
      where
        go :
            (r : Result (Orders V))
            → (prune p ids s.archive s.orders).result ≡ r
            → AllSound
                (pruned_files p
                  (record s { archive = (prune p ids s.archive s.orders).archive })
                  r).files.orders
        go (err message) e = h
        go (ok l) e = prune-AllSound ids s.archive s.orders l e h

    compact-AllSound : (s : Files V) → AllSound s.orders → AllSound (compact p s).files.orders
    unfolding compact
    compact-AllSound s h =
        if_cases (λ (d : Done V (Unit {0})). AllSound d.files.orders) (is_pending p s) (λ _. h)
          (λ _. prune_files-AllSound _ s h)

    written-AllSound :
        (s : Files V) (r : Result (Files V))
        → AllSound s.orders
        → ((t : Files V) → r ≡ ok t → AllSound t.orders)
        → AllSound (written p s r).orders
    written-AllSound s (err message) h k = h
    written-AllSound s (ok t) h k = k t refl

    after-AllSound : (e : Event V) (s : Files V) → AllSound s.orders → AllSound (after p e s).orders
    after-AllSound (to_prepare action user nonce) s h =
        written-AllSound s (prepare p action user nonce s) h
          (λ t q. prepare-AllSound p action user nonce s t q h)
    after-AllSound (to_acknowledge now action response) s h =
        written-AllSound s (acknowledged now action response s) h
          (λ t q. acknowledged-AllSound now action response s t q h)
    after-AllSound (to_import user) s h =
        written-AllSound s (import_legacy user s) h (λ t q. import-AllSound user s t q h)
    after-AllSound (to_withdraw now action) s h =
        written-AllSound s (not_submitted now action s) h
          (λ t q. not_submitted-AllSound now action s t q h)
    after-AllSound (to_observe now id response) s h = observe-AllSound now id response s h
    after-AllSound (to_resolve answers now id terminal_only) s h =
        resolve-AllSound answers now id terminal_only s h
    after-AllSound (to_refresh answers user now) s h = refresh-AllSound answers user now s h
    after-AllSound to_compact s h = compact-AllSound s h

    -- Whatever is prepared, acknowledged, imported, withdrawn, observed, searched for, refreshed or
    -- compacted, in any order and with any answers: every order of the ledger is marked as over exactly if
    -- its status is a final one.
    pub run-AllSound :
        (events : List (Event V)) (s : Files V)
        → AllSound s.orders
        → AllSound (run p events s).orders
    run-AllSound [] s h = h
    run-AllSound (e ∷ rest) s h = run-AllSound rest (after p e s) (after-AllSound e s h)
