-- ===== src/Hyperliquid/SendingExamples.antt =====
-- The theorems about requests and their reconciliation at concrete inputs.
use lp_maker.Base.{
  ◌≡◌, refl, true, none, some, List, [], ◌∷◌, String, ok, All, select, Bool-cases, inl, inr,
}
use text.Mathlib.Text.{◌==◌ as str_eq}
use lp_maker.Hyperliquid.Json.{eq_ignore_ascii_case}
use lp_maker.Hyperliquid.Store.{lookup, change, insert, archived_order, lookup_archive}
use lp_maker.Hyperliquid.Journal.{
  terminal_status, prepare, prepare_wire, validate_new_ids, acknowledged, acknowledge_from,
  import_legacy,
}
use lp_maker.Hyperliquid.Journal.Reconcile.{
  managed_open_orders, own_order, own_orders, find_oid, observe, observe_found, settle_order,
  compact, prunable, prune,
}
use lp_maker.Hyperliquid.Recovery.{
  resolve, attempts_from, attempt_once, query_all, record_answer, search_open, refresh, refresh_all,
}
use lp_maker.Hyperliquid.Recovery.Final.{Over}
use lp_maker.Hyperliquid.Exchange.{
  Disk, Gateway, accepted, exchange_inner, guards, next_nonce, sign_request, record_intent,
  dispatch, receive, check_envelope, finish, validate_response,
}
use lp_maker.Hyperliquid.Exchange.Ahead.{ReadsBack, Honest, exchange_inner-Honest}
use lp_maker.Hyperliquid.Exchange.Recorded.{Recorded, exchange_inner-Recorded}
use lp_maker.Hyperliquid.Hedge.{
  Cancelling, Syncing, cancel_if_open, resolve_final, cancel_each, sync_orders,
}
use lp_maker.Hyperliquid.Hedge.Settled.{cancel_if_open-Over}
use lp_maker.Hyperliquid.Interrupted.{Inquiry, reconcile}
use lp_maker.Hyperliquid.Interrupted.Retained.{Retains, reconcile-Retains}
use lp_maker.Hyperliquid.Samples.{
  Doc, nothing, no_items, word, number, field, item, docs, policy, files, answer, answers,
}

docs-ReadsBack : ReadsBack docs
docs-ReadsBack = record { object_at = found; text_as = λ s. refl }
  where
    found :
        (fields : List (String × Doc)) (key : String) (v : Doc)
        → select (λ e. str_eq e.0 key) fields ≡ (key, v) ∷ []
        → docs.at (docs.object fields) key ≡ v
    found [] key v e = cc
    found ((k, w) ∷ rest) key v e = elim (Bool-cases (str_eq k key)) [
      | inl t ↦ rw t (let e' = rw t at e in cc)
      | inr t ↦ rw t (found rest key v (rw t at e))
    ]

-- The exchange takes one new order.
abbrev new_order : Doc
new_order = docs.object (
    ("type", word "order")
    ∷ ("orders", item (field "c" (word "0xcccccccccccccccccccccccccccccccc") nothing) nothing)
    ∷ [])

abbrev reply : Doc
reply = docs.object (
    ("status", word "ok")
    ∷ (
      "response",
      docs.object (
          ("type", word "order")
          ∷ (
            "data",
            field "statuses"
                (item (field "resting" (field "oid" (number 9) nothing) nothing) nothing) nothing,
          )
          ∷ []),
    )
    ∷ [])

abbrev gateway : Doc → Gateway Doc
gateway response = record {
  policy = policy;
  user = "0xme";
  has_signer = true;
  identity = ok tt;
  checked_ms = 1;
  nonce_ms = 2;
  rechecked_ms = 3;
  acknowledged_ms = 4;
  vault = ok nothing;
  sign = λ action n expires. ok (word "signed");
  has_space = true;
  post = λ request. ok response;
}

abbrev disk : Disk Doc
disk = record { files = files; nonce = some 1 }

exchange_inner-Honest_example :
    All Honest (exchange_inner (gateway reply) new_order none disk).moments
exchange_inner-Honest_example =
    exchange_inner-Honest docs-ReadsBack (gateway reply) new_order none disk

exchange_inner-Recorded_example :
    All
      (Recorded (field "c" (word "0xcccccccccccccccccccccccccccccccc") nothing ∷ []))
      (exchange_inner (gateway reply) new_order none disk).moments
exchange_inner-Recorded_example =
    exchange_inner-Recorded (field "c" (word "0xcccccccccccccccccccccccccccccccc") nothing ∷ [])
      (gateway reply) new_order none refl refl disk

-- The order 7 is open at first, and gone after its cancellation.
abbrev cancelling : Cancelling Doc
cancelling = record {
  before = record answers { order_status = λ attempt q. ok (answer "open") };
  asset = ok 3;
  gateway = gateway (
      docs.object
        (("status", word "ok") ∷ ("response", field "type" (word "cancel") nothing) ∷ []));
  later = record answers { order_status = λ attempt q. ok (answer "canceled") };
  now = 5;
}

cancelled : (cancel_if_open cancelling "0xa" disk).result ≡ ok tt
unfolding cancel_if_open resolve_final resolve attempts_from attempt_once query_all record_answer
    search_open lookup change observe observe_found settle_order terminal_status
    eq_ignore_ascii_case exchange_inner guards next_nonce sign_request record_intent dispatch
    receive check_envelope finish validate_response validate_new_ids prepare acknowledged
cancelled = refl

cancel_if_open-Over_example : Over "0xa" (cancel_if_open cancelling "0xa" disk).disk.files
cancel_if_open-Over_example = cancel_if_open-Over cancelling "0xa" disk cancelled

-- A request that has left without an answer, and the reconciliation of its order.
abbrev waiting : Doc
waiting = docs.object (
    ("venue", word "hyperliquid")
    ∷ ("user", word "0xme")
    ∷ ("dispatch_state", word "submitting")
    ∷ ("request", docs.object (("action", new_order) ∷ ("nonce", number 2) ∷ []))
    ∷ [])

abbrev inquiry : Inquiry Doc
inquiry = record {
  user = "0xme";
  hedge_coin = "ETH";
  now = 6;
  policy = policy;
  answers = λ id. answers;
  open_orders = ok no_items;
  asset = ok 3;
  active = ok nothing;
}

reconcile-Retains_example :
    Retains (some waiting) (reconcile inquiry (record files { pending = some waiting }))
reconcile-Retains_example =
    reconcile-Retains inquiry waiting (record files { pending = some waiting }) refl

abbrev syncing : Syncing Doc
syncing = record {
  first_list = ok no_items;
  second_list = ok (item (field "oid" (number 7) (field "coin" (word "ETH") nothing)) nothing);
  last_list = ok no_items;
  status_of = λ id. record answers { order_status = λ attempt q. ok (answer "open") };
  cancelling = λ id. cancelling;
  user = "0xme";
  coin = "ETH";
  now = 5;
  policy = policy;
}

synced : (sync_orders syncing true disk).result ≡ ok tt
unfolding sync_orders cancel_each refresh refresh_all import_legacy managed_open_orders own_order
    own_orders find_oid compact prunable prune cancel_if_open resolve_final resolve attempts_from
    attempt_once query_all record_answer search_open lookup change observe observe_found
    settle_order terminal_status eq_ignore_ascii_case exchange_inner guards next_nonce sign_request
    record_intent dispatch receive check_envelope finish validate_response validate_new_ids prepare
    acknowledged
synced = refl

-- The whole call: the request leaves, its order is open, and nothing is left to reconcile.
answered : (exchange_inner (gateway reply) new_order none disk).answer ≡ accepted reply
unfolding exchange_inner guards next_nonce sign_request record_intent dispatch receive
    check_envelope finish validate_response validate_new_ids prepare prepare_wire insert
    archived_order lookup_archive acknowledged acknowledge_from change lookup eq_ignore_ascii_case
answered = refl
