-- ===== src/Hyperliquid/Hedge/Synced.antt =====
-- What a synchronization of the orders in src/hyperliquid/hedge.rs leaves.
use lp_maker.Base.{
  ◌-◌, ◌≡◌, refl, Bool, ◌||◌, Option, none, some, List, [], ◌∷◌, String, Result, ok, err, if_cases,
  is_empty, length, take, >>=-eq-ok,
}
use lp_maker.Hyperliquid.Json.{Json}
use lp_maker.Hyperliquid.Store.{Files, Orders, ArchivePolicy, Done}
use lp_maker.Hyperliquid.Journal.Reconcile.{
  compact, prunable, prune, pruned_files, is_pending, managed_open_orders,
}
use lp_maker.Hyperliquid.Recovery.{refresh}
use lp_maker.Hyperliquid.Exchange.{Disk, set_files}
use lp_maker.Hyperliquid.Hedge.{
  Ran, Syncing, and_next, write_open, cancel_each, check_rows, check_last, cancel_listed,
  with_second, with_first, sync_orders,
}

module _ {V : Type 0} ⦃j : Json V⦄ where
  compact-hedge_order :
      (p : ArchivePolicy V) (s : Files V) → (compact p s).files.hedge_order ≡ s.hedge_order
  unfolding compact
  compact-hedge_order p s =
      if_cases (λ (d : Done V (Unit {0})). d.files.hedge_order ≡ s.hedge_order) (is_pending p s)
        (λ _. refl)
        (λ _.
          let ids = take (length (prunable p s) - p.terminal_orders_keep) (prunable p s) in
          go (record s { archive = (prune p ids s.archive s.orders).archive })
            (prune p ids s.archive s.orders).result)
    where
      go :
          (t : Files V) (r : Result (Orders V))
          → (pruned_files p t r).files.hedge_order ≡ t.hedge_order
      go t (err message) = refl
      go t (ok orders) = refl

  module _ (e : Syncing V) where
    -- Nothing is open at the exchange, and no order of the strategy is outstanding.
    pub record Synced (r : Ran V) : Type 0 where
      pub listed : V
      pub asked : e.last_list ≡ ok listed
      pub nothing_open : j.as_array listed ≡ some []
      pub cleared : r.disk.files.hedge_order ≡ none

    abbrev Leaves : Ran V → Type 0
    Leaves r = r.result ≡ ok tt → Synced r

    next-Leaves :
        (d : Disk V) (r : Result (Unit {0})) (next : Disk V → Ran V)
        → ((d : Disk V) → Leaves (next d))
        → Leaves (and_next d r next)
    next-Leaves d (err message) next k h = cc
    next-Leaves d (ok _) next k h = k d h

    check_last-Leaves : (d : Disk V) → Leaves (check_last e d e.last_list)
    check_last-Leaves d = go e.last_list refl
      where
        rows :
            (listed : V) (o : Option (List V))
            → e.last_list ≡ ok listed
            → j.as_array listed ≡ o
            → Leaves (check_rows e listed (write_open e listed d) o)
        rows listed none a b h = cc
        rows listed (some []) a b h = record {
          listed = listed;
          asked = a;
          nothing_open = b;
          cleared = compact-hedge_order e.policy _;
        }
        rows listed (some (row ∷ rest)) a b h =
            let (ids, _, h') = >>=-eq-ok (managed_open_orders _ listed e.coin) _ h in cc

        go : (r : Result V) → e.last_list ≡ r → Leaves (check_last e d r)
        go (err message) a h = cc
        go (ok listed) a h = rows listed (j.as_array listed) a refl h

    cancel_listed-Leaves :
        (recover_managed : Bool) (d : Disk V) (r : Result (List String))
        → Leaves (cancel_listed e recover_managed d r)
    cancel_listed-Leaves recover_managed d (err message) = λ h. cc
    cancel_listed-Leaves recover_managed d (ok ids) =
        if_cases Leaves (recover_managed || is_empty ids)
          (λ _.
            let r = cancel_each e ids d in
            next-Leaves r.disk r.result (λ d'. check_last e d' e.last_list) check_last-Leaves)
          (λ _ h. cc)

    with_second-Leaves :
        (recover_managed : Bool) (d : Disk V) (r : Result V)
        → Leaves (with_second e recover_managed d r)
    with_second-Leaves recover_managed d (err message) = λ h. cc
    with_second-Leaves recover_managed d (ok listed) =
        cancel_listed-Leaves recover_managed (write_open e listed d) _

    -- A synchronization succeeds only if the last list of open orders that the exchange gave is empty; no
    -- hedge order is then outstanding on disk.
    sync_orders-Synced :
        (recover_managed : Bool) (d : Disk V)
        → (sync_orders e recover_managed d).result ≡ ok tt
        → Synced (sync_orders e recover_managed d)
    unfolding sync_orders
    sync_orders-Synced recover_managed d = go e.first_list
      where
        go : (r : Result V) → Leaves (with_first e recover_managed d r)
        go (err message) = λ h. cc
        go (ok listed) =
            let d' = write_open e listed d in
            let r = refresh e.status_of e.user e.now d'.files in
            next-Leaves (set_files d' r.files) r.result
              (λ d''. with_second e recover_managed d'' e.second_list)
              (λ d''. with_second-Leaves recover_managed d'' e.second_list)
