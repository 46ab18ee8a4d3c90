-- ===== src/Hyperliquid/Examples.antt =====
-- The theorems about the journal at concrete inputs.
use lp_maker.Base.{◌≡◌, ◌⊎◌, refl, true, some, List, [], ◌∷◌, ok, All, any}
use text.Mathlib.Text.{◌==◌ as str_eq}
use lp_maker.Hyperliquid.Store.{Order, lookup}
use lp_maker.Hyperliquid.Journal.{terminal_status}
use lp_maker.Hyperliquid.Journal.Reconcile.{managed_open_orders, own_order, own_orders, find_oid}
use lp_maker.Hyperliquid.Recovery.{resolve}
use lp_maker.Hyperliquid.Recovery.Evidence.{Confirms, resolve-Confirms}
use lp_maker.Hyperliquid.Ownership.{Owned, managed_open_orders-Owned}
use lp_maker.Hyperliquid.Soundness.{AllSound}
use lp_maker.Hyperliquid.History.{Event, to_resolve, to_compact, to_observe, run}
use lp_maker.Hyperliquid.Runs.{run-AllSound}
use lp_maker.Hyperliquid.Samples.{Doc, docs, policy, order, files, answer, answers, listing}

resolve-Confirms_example :
    (o' : Order Doc) × (lookup "0xb" (resolve answers 5 "0xa" true files).files.orders ≡ some o')
    × Confirms (order "0xb" 8 "filled" true) o'
resolve-Confirms_example =
    resolve-Confirms (order "0xb" 8 "filled" true) answers 5 "0xa" "0xb" true files
      (unfold lookup in refl) refl (unfold terminal_status in refl)

owned : managed_open_orders files listing "ETH" ≡ ok ("0xa" ∷ [])
unfolding managed_open_orders own_orders own_order find_oid
owned = refl

managed_open_orders-Owned_example :
    (rows : List Doc) × (docs.as_array listing ≡ some rows)
    × Owned files.orders "ETH" rows ("0xa" ∷ [])
    × All
        (λ entry.
          (entry.1.terminal ≡ true) ⊎ (any (λ id. str_eq id entry.1.cloid) ("0xa" ∷ []) ≡ true))
        files.orders
managed_open_orders-Owned_example = managed_open_orders-Owned files listing "ETH" ("0xa" ∷ []) owned

abbrev events : List (Event Doc)
events = to_observe 4 "0xa" (answer "open") ∷ to_resolve answers 5 "0xa" true ∷ to_compact ∷ []

run-AllSound_example : AllSound (run policy events files).orders
run-AllSound_example =
    run-AllSound policy events files (unfold terminal_status in (refl, (refl, tt)))
