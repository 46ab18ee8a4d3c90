-- ===== src/Hyperliquid/Hedge/Settled.antt =====
-- What src/hyperliquid/hedge.rs knows after its orders were cancelled.
use lp_maker.Base.{
  ℕ, ◌≡◌, refl, true, false, ◌&&◌, none, is_some, String, Result, ok, err, if_cases, ok-injective,
  arith,
}
use mathlib.Core.Path.{subst, sym}
use lp_maker.Hyperliquid.Json.{Json}
use lp_maker.Hyperliquid.Store.{Files}
use lp_maker.Hyperliquid.Journal.Reconcile.{is_found, observe}
use lp_maker.Hyperliquid.Recovery.{Answers, resolve, is_open}
use lp_maker.Hyperliquid.Recovery.Writes.{resolve-Q}
use lp_maker.Hyperliquid.Recovery.Final.{Over, resolve-Over, observe-Over, observe-is_found}
use lp_maker.Hyperliquid.Exchange.{
  Disk, Answer, accepted, rejected, failed, exchange_inner, cancel_action, set_files,
}
use lp_maker.Hyperliquid.Hedge.{
  Ran, Cancelling, confirm_final, resolve_final, after_cancel, cancel, when_resolved,
  cancel_if_open,
}

module _ {V : Type 0} ⦃j : Json V⦄ where
  -- A status that is found and is not that of an open order is the last one.
  resolve-closed :
      (answers : Answers V) (now : ℕ) (id : String) (s : Files V) (v : V)
      → (resolve answers now id false s).result ≡ ok v
      → (is_found v && is_open v) ≡ false
      → Over id (resolve answers now id false s).files
  resolve-closed answers now id s v e closed =
      resolve-Q (λ _. Unit {0})
        (λ t r. (u : V) → r ≡ ok u → (is_found u && is_open u) ≡ false → Over id t) answers now id
        false
        (record {
          fails = λ t message _ u h. cc;
          observes = λ response t _. tt;
          answers_ok = λ response t _ settled at u h shut.
              observe-Over now id response t settled (found_closed response t settled u h shut);
          lists = λ t u _. tt;
          knows = λ t o _ there over final u h shut. record {
            order = o;
            there = there;
            over = over;
            final = final;
          };
        })
        s tt v e closed
    where
      found_closed :
          (response : V) (t : Files V)
          → (observe now id response t).result ≡ ok tt
          → (u : V) → ok response ≡ ok u
          → (is_found u && is_open u) ≡ false
          → is_open response ≡ false
      found_closed response t settled u h shut =
          let same : response ≡ u = ok-injective h in
          let found = observe-is_found now id response t settled in
          let shut' : (is_found response && is_open response) ≡ false =
            subst (λ w. (is_found w && is_open w) ≡ false) (sym same) shut in
          ground (arith, found, shut')

  module _ (c : Cancelling V) (cloid : String) where
    confirmed-Over :
        (d : Disk V)
        → (resolve_final c cloid d).result ≡ ok tt
        → Over cloid (resolve_final c cloid d).disk.files
    unfolding resolve_final
    confirmed-Over d = go (resolve c.later c.now cloid true d.files).result refl
      where
        files : Files V
        files = (resolve c.later c.now cloid true d.files).files

        go :
            (r : Result V)
            → (resolve c.later c.now cloid true d.files).result ≡ r
            → (confirm_final c cloid (set_files d files) r).result ≡ ok tt
            → Over cloid (confirm_final c cloid (set_files d files) r).disk.files
        go (err message) e h = cc
        go (ok v) e h = resolve-Over c.later c.now cloid d.files v e

    after_cancel-Over :
        (d : Disk V) (a : Answer V)
        → (after_cancel c cloid d a).result ≡ ok tt
        → Over cloid (after_cancel c cloid d a).disk.files
    after_cancel-Over d (accepted response) h = confirmed-Over d h
    after_cancel-Over d (rejected message) h =
        if_cases (λ (r : Ran V). r.result ≡ ok tt → Over cloid r.disk.files)
          (is_some d.files.pending) (λ _ e. cc) (λ _ e. confirmed-Over d e) h
    after_cancel-Over d (failed message) h = cc

    cancel-Over :
        (d : Disk V) (asset : Result ℕ)
        → (cancel c cloid d asset).result ≡ ok tt
        → Over cloid (cancel c cloid d asset).disk.files
    cancel-Over d (err message) h = cc
    cancel-Over d (ok asset) h =
        let course = exchange_inner c.gateway (cancel_action asset cloid) none d in
        after_cancel-Over course.disk course.answer h

    -- A cancellation that succeeds leaves the order in the ledger as over, with a final status: whether it
    -- was open at first, whether the exchange took, refused or raced the cancellation, and whatever it
    -- answers in between.
    pub cancel_if_open-Over :
        (d : Disk V)
        → (cancel_if_open c cloid d).result ≡ ok tt
        → Over cloid (cancel_if_open c cloid d).disk.files
    unfolding cancel_if_open
    cancel_if_open-Over d = go (resolve c.before c.now cloid false d.files).result refl
      where
        d' : Disk V
        d' = set_files d (resolve c.before c.now cloid false d.files).files

        go :
            (r : Result V)
            → (resolve c.before c.now cloid false d.files).result ≡ r
            → (when_resolved c cloid d' r).result ≡ ok tt
            → Over cloid (when_resolved c cloid d' r).disk.files
        go (err message) e h = cc
        go (ok v) e h =
            if_cases (λ (r : Ran V). r.result ≡ ok tt → Over cloid r.disk.files)
              (is_found v && is_open v) (λ _ q. cancel-Over d' c.asset q)
              (λ closed _. resolve-closed c.before c.now cloid d.files v e closed) h
