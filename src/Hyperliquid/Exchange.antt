-- ===== src/Hyperliquid/Exchange.antt =====
-- `exchange_inner` of src/hyperliquid/mod.rs, with each durable write in its place, and the actions that go
-- through it. What the program stops at is a moment: what is on disk, and whether the request has left.
-- The exchange, the signer and the clock are arguments, and so is the check of the signer's identity,
-- whose files are its own; a write to disk is taken to succeed.
pub mod Ahead
pub mod Recorded
use lp_maker.Base.{
  ℕ, ◌+◌, max, Bool, true, false, ◌&&◌, ◌||◌, not, Option, none, some, List, [], ◌∷◌, String,
  Result, ok, err, ◌>>=◌, ◌>>◌, ensure, context, unwrap_or, any,
}
use lp_maker.Runtime.{fresh}
use lp_maker.Hyperliquid.Json.{Json, is_text}
use lp_maker.Hyperliquid.Store.{Files, ArchivePolicy}
use lp_maker.Hyperliquid.Journal.{validate_new_ids, prepare, acknowledged}
pub use lp_maker.Hyperliquid.Course.{
  Disk, Gateway, Moment, Answer, accepted, rejected, failed, Course,
}
unfoldable pub use lp_maker.Hyperliquid.Course.{
  next_nonce, ended, after, set_files, set_pending, set_hedge,
}

module _ {ℓ} {V : Type ℓ} ⦃j : Json V⦄ where
  -- `validate_response`.
  abbrev first_error : List V → Answer V → Answer V
  first_error [] otherwise = otherwise
  first_error (s ∷ rest) otherwise =
      let others = first_error rest otherwise in
      elim (j.has s "error") [ true ↦ rejected "exchange action rejected" | false ↦ others ]

  abbrev status_errors : Option (List V) → Answer V → Answer V
  status_errors none otherwise = otherwise
  status_errors (some statuses) otherwise = first_error statuses otherwise

  unfoldable pub validate_response : V → Answer V
  validate_response v = elim (is_text (j.at v "status") "err") [
    | true ↦ rejected "exchange rejected"
    | false ↦ elim (is_text (j.at v "status") "ok") [
      | false ↦ failed "unrecognized exchange response"
      | true ↦
          status_errors (j.as_array (j.at (j.at (j.at v "response") "data") "statuses"))
            (accepted v)
    ]
  ]

  -- The quote that a hedge was decided on is still fresh.
  abbrev pub check_quote : ℕ → Option V → Result (Unit {0})
  check_quote now none = ok tt
  check_quote now (some h) = do
    quote ← context (j.as_u64 (j.at h "quote_ms")) "quote time"
    age ← context (j.as_u64 (j.at h "max_age_seconds")) "quote lifetime"
    fresh quote now age

  unfoldable pub check_envelope : V → Result (Unit {0})
  check_envelope response = do
    ensure (is_text (j.at response "status") "ok" || is_text (j.at response "status") "err")
        "unknown exchange envelope; pending operation retained"
    ensure
        (not (is_text (j.at response "status") "ok")
          || any (is_text (j.at (j.at response "response") "type"))
              ("default" ∷ "order" ∷ "cancel" ∷ []))
        "unknown exchange response type; pending operation retained"

  abbrev pub intent_value : Option V → V
  intent_value none = j.null
  intent_value (some h) = h

  module _ (g : Gateway V) (action : V) (hedge : Option V) where
    abbrev pub request_of : ℕ → V → V → V
    request_of n vault signature = j.object (
        ("action", action)
        ∷ ("nonce", j.number n)
        ∷ ("signature", signature)
        ∷ ("vaultAddress", vault)
        ∷ ("expiresAfter", j.number (n + 60000))
        ∷ [])

    abbrev pub pending_of : V → String → V
    pending_of request state = j.object (
        ("venue", j.text "hyperliquid")
        ∷ ("request", request)
        ∷ ("user", j.text g.user)
        ∷ ("dispatch_state", j.text state)
        ∷ ("hedge_intent", intent_value hedge)
        ∷ [])

    -- Before anything is written.
    unfoldable pub guards : Disk V → Result (Unit {0})
    guards d = do
      validate_new_ids g.policy d.files action >>= λ _. ok tt
      ensure g.has_signer "signing disabled; explicit live mode required"
      g.identity
      check_quote g.checked_ms hedge

    -- The response was journaled, and the operation is over.
    unfoldable pub finish : V → Disk V → Course V
    unfolding validate_response
    finish response d = ended true (validate_response response) (set_pending d none)

    abbrev pub when_acknowledged : V → Disk V → Result (Files V) → Course V
    when_acknowledged response d (err message) = ended true (failed message) d
    when_acknowledged response d (ok files) =
        after true (set_files d files) (finish response (set_files d files))

    abbrev pub when_enveloped : V → Disk V → Result (Unit {0}) → Course V
    when_enveloped response d (err message) = ended true (failed message) d
    when_enveloped response d (ok _) =
        when_acknowledged response d (acknowledged g.acknowledged_ms action response d.files)

    unfoldable pub receive : Disk V → Result V → Course V
    unfolding check_envelope finish
    receive d (err message) = ended true (failed message) d
    receive d (ok response) = when_enveloped response d (check_envelope response)

    -- The last write before the request leaves.
    unfoldable pub dispatch : V → Disk V → Course V
    unfolding receive
    dispatch request d =
        let submitting = set_pending d (some (pending_of request "submitting")) in
        after false submitting (after true submitting (receive submitting (g.post request)))

    abbrev pub when_rechecked : V → Disk V → Result (Unit {0}) → Course V
    when_rechecked request d (err message) = ended false (failed message) d
    when_rechecked request d (ok _) = dispatch request d

    abbrev pub when_prepared : V → Disk V → Result (Files V) → Course V
    when_prepared request d (err message) = ended false (failed message) d
    when_prepared request d (ok files) =
        after false (set_files d files)
          (when_rechecked request (set_files d files) (check_quote g.rechecked_ms hedge))

    -- From `begin` on: the operation, the intent of the hedge, and the orders in the ledger.
    unfoldable pub record_intent : ℕ → V → Disk V → Course V
    unfolding dispatch
    record_intent n request d =
        let begun = set_pending d (some (pending_of request "prepared")) in
        let intended = set_hedge begun hedge in
        after false begun (
          after false intended
            (when_prepared request intended (prepare g.policy action g.user n intended.files)))

    -- `Store::begin` refuses while another operation is unresolved.
    abbrev pub may_begin : Disk V → Result (Unit {0})
    may_begin d = do
      ensure g.has_space "state disk reserve reached; no new operation can be prepared"
      ensure (elim d.files.pending [ none ↦ true | some v ↦ false ]) "unresolved operation"

    abbrev pub when_begun : ℕ → V → Disk V → Result (Unit {0}) → Course V
    when_begun n request d (err message) = ended false (failed message) d
    when_begun n request d (ok _) = record_intent n request d

    abbrev pub when_signed : ℕ → Disk V → Result V → Course V
    when_signed n d (err message) = ended false (failed message) d
    when_signed n d (ok request) = when_begun n request d (may_begin d)

    unfoldable pub sign_request : ℕ → Result V
    sign_request n = do
      vault ← g.vault
      signature ← g.sign action n (n + 60000)
      ok (request_of n vault signature)

    abbrev pub when_guarded : Disk V → Result (Unit {0}) → Course V
    when_guarded d (err message) = ended false (failed message) d
    when_guarded d (ok _) =
        let n = next_nonce g.nonce_ms d.nonce in
        let numbered = record d { nonce = some n } in
        after false numbered (when_signed n numbered (sign_request n))

    unfoldable pub exchange_inner : Disk V → Course V
    unfolding guards next_nonce record_intent sign_request
    exchange_inner d = when_guarded d (guards d)

  -- `cancel`: the asset is looked up first.
  abbrev pub cancel_action : ℕ → String → V
  cancel_action asset cloid = j.object (
      ("type", j.text "cancelByCloid")
      ∷ (
        "cancels",
        j.array (j.object (("asset", j.number asset) ∷ ("cloid", j.text cloid) ∷ []) ∷ []),
      )
      ∷ [])
