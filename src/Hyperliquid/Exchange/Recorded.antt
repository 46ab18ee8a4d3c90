-- ===== src/Hyperliquid/Exchange/Recorded.antt =====
-- Which orders of a request of src/hyperliquid/mod.rs are in the ledger when it leaves.
use lp_maker.Base.{ℕ, ◌≡◌, refl, true, false, Option, List, Result, ok, err, All, arith}
use lp_maker.Hyperliquid.Json.{Json}
use lp_maker.Hyperliquid.Store.{Files}
use lp_maker.Hyperliquid.Journal.{is_order, intents, prepare, acknowledged}
use lp_maker.Hyperliquid.Presence.{InLedger, prepare-InLedger}
use lp_maker.Hyperliquid.Acknowledged.{acknowledged-InLedger}
use lp_maker.Hyperliquid.Exchange.{
  Disk, Gateway, Moment, set_files, check_quote, receive, when_enveloped, when_acknowledged, finish,
  check_envelope, dispatch, when_rechecked, when_prepared, record_intent, may_begin, when_begun,
  when_signed, sign_request, when_guarded, guards, exchange_inner,
}

module _ {V : Type 0} ⦃j : Json V⦄ (wires : List V) where
  -- Once the request has left, the ledger has its orders.
  abbrev pub Recorded : Moment V → Type 0
  Recorded m = m.sent ≡ true → All (InLedger m.disk.files.orders) wires

  module _ (g : Gateway V) (action : V) (hedge : Option V) (order : is_order action ≡ true)
      (named : intents action ≡ ok wires) where
    when_acknowledged-Recorded :
        (response : V) (d : Disk V) (r : Result (Files V))
        → acknowledged g.acknowledged_ms action response d.files ≡ r
        → All (InLedger d.files.orders) wires
        → All Recorded (when_acknowledged g action hedge response d r).moments
    unfolding finish
    when_acknowledged-Recorded response d (err message) e h = (λ u. h, tt)
    when_acknowledged-Recorded response d (ok files) e h =
        let k = acknowledged-InLedger g.acknowledged_ms action response d.files files wires e h in
        (λ u. k, (λ u. k, tt))

    receive-Recorded :
        (d : Disk V) (r : Result V)
        → All (InLedger d.files.orders) wires
        → All Recorded (receive g action hedge d r).moments
    unfolding receive
    receive-Recorded d (err message) h = (λ u. h, tt)
    receive-Recorded d (ok response) h = go (check_envelope response)
      where
        go :
            (r : Result (Unit {0}))
            → All Recorded (when_enveloped g action hedge response d r).moments
        go (err message) = (λ u. h, tt)
        go (ok _) = when_acknowledged-Recorded response d _ refl h

    dispatch-Recorded :
        (request : V) (d : Disk V)
        → All (InLedger d.files.orders) wires
        → All Recorded (dispatch g action hedge request d).moments
    unfolding dispatch
    dispatch-Recorded request d h = (λ u. h, (λ u. h, receive-Recorded _ (g.post request) h))

    unsent : (d : Disk V) → Recorded (record { disk = d; sent = false })
    unsent d u = ground arith

    record_intent-Recorded :
        (n : ℕ) (request : V) (d : Disk V)
        → All Recorded (record_intent g action hedge n request d).moments
    unfolding record_intent
    record_intent-Recorded n request d = (λ u. ground arith, (λ u. ground arith, prepared _ _ refl))
      where
        rechecked :
            (d : Disk V) (r : Result (Unit {0}))
            → All (InLedger d.files.orders) wires
            → All Recorded (when_rechecked g action hedge request d r).moments
        rechecked d (err message) h = (unsent d, tt)
        rechecked d (ok _) h = dispatch-Recorded request d h

        prepared :
            (d : Disk V) (r : Result (Files V))
            → prepare g.policy action g.user n d.files ≡ r
            → All Recorded (when_prepared g action hedge request d r).moments
        prepared d (err message) e = (unsent d, tt)
        prepared d (ok files) e = (
          λ u. ground arith,
          rechecked (set_files d files) (check_quote g.rechecked_ms hedge)
              (prepare-InLedger g.policy action g.user n d.files files wires order named e),
        )

    -- Wherever a call of the exchange with orders stops: once its request has left, each of the orders is
    -- in the ledger on disk, so no order can be at the exchange that a restart does not know of.
    pub exchange_inner-Recorded :
        (d : Disk V) → All Recorded (exchange_inner g action hedge d).moments
    unfolding exchange_inner
    exchange_inner-Recorded d = guarded (guards g action hedge d)
      where
        began :
            (n : ℕ) (request : V) (d : Disk V) (r : Result (Unit {0}))
            → All Recorded (when_begun g action hedge n request d r).moments
        began n request d (err message) = (unsent d, tt)
        began n request d (ok _) = record_intent-Recorded n request d

        signed :
            (n : ℕ) (d : Disk V) (r : Result V)
            → All Recorded (when_signed g action hedge n d r).moments
        signed n d (err message) = (unsent d, tt)
        signed n d (ok request) = began n request d (may_begin g action hedge d)

        guarded : (r : Result (Unit {0})) → All Recorded (when_guarded g action hedge d r).moments
        guarded (err message) = (unsent d, tt)
        guarded (ok _) = (λ u. ground arith, signed _ _ (sign_request g action hedge _))
