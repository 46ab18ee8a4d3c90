-- ===== src/Hyperliquid/Exchange/Ahead.antt =====
-- What is on disk when a request leaves in `exchange_inner` of src/hyperliquid/mod.rs.
use lp_maker.Base.{
  ℕ, ◌≡◌, refl, Bool, true, false, Option, none, some, List, [], ◌∷◌, String, Result, ok, err, All,
  select, arith,
}
use text.Mathlib.Text.{◌==◌ as str_eq}
use lp_maker.Hyperliquid.Json.{Json, is_text}
use lp_maker.Hyperliquid.Store.{Files}
use lp_maker.Hyperliquid.Journal.{prepare, acknowledged}
use lp_maker.Hyperliquid.Acknowledged.{acknowledged-pending}
use lp_maker.Hyperliquid.Exchange.{
  Disk, Gateway, Moment, check_quote, pending_of, receive, when_enveloped, when_acknowledged,
  finish, check_envelope, dispatch, when_rechecked, when_prepared, record_intent, may_begin,
  when_begun, when_signed, sign_request, when_guarded, guards, exchange_inner,
}

-- What serde_json documents of a value that was written: a field that stands once in an object is read as
-- it was written, and a text is a text.
pub record ReadsBack {V : Type 0} (j : Json V) : Type 0 where
  pub object_at :
      (fields : List (String × V)) (key : String) (v : V)
      → select (λ e. str_eq e.0 key) fields ≡ (key, v) ∷ []
      → j.at (j.object fields) key ≡ v
  pub text_as : (s : String) → j.as_str (j.text s) ≡ some s

module _ {V : Type 0} ⦃j : Json V⦄ where
  -- The test by which `reconcile` takes a pending operation for one that was never sent.
  abbrev pub is_unsent : Option V → Bool
  is_unsent none = false
  is_unsent (some v) = is_text (j.at v "dispatch_state") "prepared"

  -- A moment that looks unsent is one.
  abbrev pub Honest : Moment V → Type 0
  Honest m = is_unsent m.disk.files.pending ≡ true → m.sent ≡ false

  module _ (reads : ReadsBack j) (g : Gateway V) (action : V) (hedge : Option V) where
    submitting-is_unsent :
        (request : V) → is_unsent (some (pending_of g action hedge request "submitting")) ≡ false
    submitting-is_unsent request =
        rw (reads.object_at _ "dispatch_state" (j.text "submitting") refl)
          (rw (reads.text_as "submitting", is_text) refl)

    when_acknowledged-Honest :
        (response : V) (d : Disk V) (r : Result (Files V))
        → acknowledged g.acknowledged_ms action response d.files ≡ r
        → is_unsent d.files.pending ≡ false
        → All Honest (when_acknowledged g action hedge response d r).moments
    unfolding finish
    when_acknowledged-Honest response d (err message) e h = (λ u. ground arith, tt)
    when_acknowledged-Honest response d (ok files) e h =
        let same = acknowledged-pending g.acknowledged_ms action response d.files files e in
        (λ u. ground (arith, same), (λ u. ground arith, tt))

    receive-Honest :
        (d : Disk V) (r : Result V)
        → is_unsent d.files.pending ≡ false
        → All Honest (receive g action hedge d r).moments
    unfolding receive
    receive-Honest d (err message) h = (λ u. ground arith, tt)
    receive-Honest d (ok response) h = go (check_envelope response)
      where
        go :
            (r : Result (Unit {0}))
            → All Honest (when_enveloped g action hedge response d r).moments
        go (err message) = (λ u. ground arith, tt)
        go (ok _) = when_acknowledged-Honest response d _ refl h

    dispatch-Honest :
        (request : V) (d : Disk V) → All Honest (dispatch g action hedge request d).moments
    unfolding dispatch
    dispatch-Honest request d =
        let quiet = submitting-is_unsent request in
        (λ u. refl, (λ u. ground arith, receive-Honest _ (g.post request) quiet))

    record_intent-Honest :
        (n : ℕ) (request : V) (d : Disk V)
        → All Honest (record_intent g action hedge n request d).moments
    unfolding record_intent
    record_intent-Honest n request d = (λ u. refl, (λ u. refl, prepared _ (prepare _ _ _ n _)))
      where
        rechecked :
            (d : Disk V) (r : Result (Unit {0}))
            → All Honest (when_rechecked g action hedge request d r).moments
        rechecked d (err message) = (λ u. refl, tt)
        rechecked d (ok _) = dispatch-Honest request d

        prepared :
            (d : Disk V) (r : Result (Files V))
            → All Honest (when_prepared g action hedge request d r).moments
        prepared d (err message) = (λ u. refl, tt)
        prepared d (ok files) = (λ u. refl, rechecked _ (check_quote g.rechecked_ms hedge))

    -- If what was written as JSON is read back as it was: wherever a call of the exchange stops, an
    -- operation that is still marked as prepared has not left the program, so to withdraw its orders
    -- forgets nothing that the exchange could have done.
    pub exchange_inner-Honest : (d : Disk V) → All Honest (exchange_inner g action hedge d).moments
    unfolding exchange_inner
    exchange_inner-Honest d = guarded (guards g action hedge d)
      where
        began :
            (n : ℕ) (request : V) (d : Disk V) (r : Result (Unit {0}))
            → All Honest (when_begun g action hedge n request d r).moments
        began n request d (err message) = (λ u. refl, tt)
        began n request d (ok _) = record_intent-Honest n request d

        signed :
            (n : ℕ) (d : Disk V) (r : Result V)
            → All Honest (when_signed g action hedge n d r).moments
        signed n d (err message) = (λ u. refl, tt)
        signed n d (ok request) = began n request d (may_begin g action hedge d)

        guarded : (r : Result (Unit {0})) → All Honest (when_guarded g action hedge d r).moments
        guarded (err message) = (λ u. refl, tt)
        guarded (ok _) = (λ u. refl, signed _ _ (sign_request g action hedge _))
