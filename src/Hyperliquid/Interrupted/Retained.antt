-- ===== src/Hyperliquid/Interrupted/Retained.antt =====
-- What `reconcile` of src/hyperliquid/hedge.rs leaves of an interrupted operation.
use lp_maker.Base.{
  ℕ, ◌≡◌, refl, Bool, false, not, Option, none, some, List, [], ◌∷◌, ◌++◌, String, Result, ok, err,
  if_cases, >>=-eq-ok, >>-eq-ok, ok-injective, context, any,
}
use mathlib.Core.Path.{subst, sym, ap, ◌∙◌}
use lp_maker.Hyperliquid.Json.{Json, is_text}
use lp_maker.Hyperliquid.Store.{Files, Orders, change}
use lp_maker.Hyperliquid.Journal.{each, prepare, prepare_wire, is_order, intents, is_unarchived}
use lp_maker.Hyperliquid.Journal.Reconcile.{not_submitted, observe, observe_order, observed_files}
use lp_maker.Hyperliquid.Recovery.{Answers, Resolved, resolve}
use lp_maker.Hyperliquid.Recovery.Writes.{resolve-Q}
use lp_maker.Hyperliquid.Interrupted.{
  Inquiry, reconcile, reconcile_pending, continue_with, when_owned, check_owner, when_unsent,
  when_withdrawn, when_order, when_listed, when_named, when_found, resolve_each, check_effect,
  when_checked, check_cancelled, check_leverage, prepare_again,
}

module _ {V : Type 0} ⦃j : Json V⦄ where
  prepare-pending :
      (q : Inquiry V) (pending : V) (s s' : Files V)
      → prepare_again q pending s ≡ ok s'
      → s'.pending ≡ s.pending
  unfolding prepare
  prepare-pending q pending s s' e =
      let action = j.at (j.at pending "request") "action" in
      let (nonce, _, e₁) =
        >>=-eq-ok (context (j.as_u64 (j.at (j.at pending "request") "nonce")) _) _ e in
      if_cases (λ r. r ≡ ok s' → s'.pending ≡ s.pending) (not (is_order action))
        (λ _ e₂. ap (λ t. t.pending) (sym (ok-injective e₂)))
        (λ _ e₂.
          let (wires, _, e₃) = >>=-eq-ok (intents action) _ e₂ in
          let (_, e₄) = >>-eq-ok (each (λ wire _. is_unarchived q.policy s wire) wires tt) _ e₃ in
          let (l, _, e₅) = >>=-eq-ok (each (prepare_wire s q.user nonce) wires s.orders) _ e₄ in
          ap (λ t. t.pending) (sym (ok-injective e₅)))
        e₁

  observe-pending :
      (now : ℕ) (id : String) (response : V) (s : Files V)
      → (observe now id response s).files.pending ≡ s.pending
  unfolding observe
  observe-pending now id response s = go (change id (observe_order now id response) s.orders)
    where
      go : (r : Result (Orders V)) → (observed_files s r response).files.pending ≡ s.pending
      go (err message) = refl
      go (ok l) = refl

  pub resolve-pending :
      (answers : Answers V) (now : ℕ) (id : String) (terminal_only : Bool) (s : Files V)
      → (resolve answers now id terminal_only s).files.pending ≡ s.pending
  resolve-pending answers now id terminal_only s =
      resolve-Q (λ t. t.pending ≡ s.pending) (λ t _. t.pending ≡ s.pending) answers now id
        terminal_only
        (record {
          fails = λ t message k. k;
          observes = λ response t k. observe-pending now id response t ∙ k;
          answers_ok = λ response t k _ _. observe-pending now id response t ∙ k;
          lists = λ t v k. k;
          knows = λ t o k _ _ _. k;
        })
        s refl

  -- The operation stays on disk when it is not reconciled, and goes when it is.
  pub record Retains (before : Option V) (r : Resolved V) : Type 0 where
    pub kept : (message : String) → r.result ≡ err message → r.files.pending ≡ before
    pub done : (v : V) → r.result ≡ ok v → r.files.pending ≡ none

  module _ (q : Inquiry V) (pending : V) where
    when_found-Retains :
        (found : List V) (next : List V → Files V → Resolved V) (s : Files V) (r : Result V)
        → s.pending ≡ some pending
        → ((found : List V) (s : Files V)
            → s.pending ≡ some pending
            → Retains (some pending) (next found s))
        → Retains (some pending) (when_found q found next s r)
    when_found-Retains found next s (err message) k h = record { kept = λ _ _. k; done = λ v e. cc }
    when_found-Retains found next s (ok status) k h = h (found ++ status ∷ []) s k

    resolve_each-Retains :
        (orders found : List V) (s : Files V)
        → s.pending ≡ some pending
        → Retains (some pending) (resolve_each q orders found s)
    unfolding resolve_each
    resolve_each-Retains [] found s k = record { kept = λ m e. cc; done = λ _ _. refl }
    resolve_each-Retains (order ∷ rest) found s k =
        named (context (j.as_str (j.at order "c")) "pending order has no client ID")
          (resolve_each-Retains rest)
      where
        named :
            (r : Result String)
            → ((found : List V) (s : Files V)
                → s.pending ≡ some pending
                → Retains (some pending) (resolve_each q rest found s))
            → Retains (some pending) (when_named q found (resolve_each q rest) s r)
        named (err message) h = record { kept = λ _ _. k; done = λ v e. cc }
        named (ok id) h =
            let r = resolve (q.answers id) q.now id false s in
            when_found-Retains found (resolve_each q rest) r.files r.result
              (resolve-pending (q.answers id) q.now id false s ∙ k) h

    withdrawn-Retains :
        (s : Files V) (r : Result (Files V))
        → s.pending ≡ some pending
        → Retains (some pending) (when_withdrawn q s r)
    withdrawn-Retains s (err message) k = record { kept = λ _ _. k; done = λ v e. cc }
    withdrawn-Retains s (ok s') k = record { kept = λ m e. cc; done = λ _ _. refl }

    unsent-Retains :
        (action : V) (s : Files V) (r : Result (Files V))
        → prepare_again q pending s ≡ r
        → s.pending ≡ some pending
        → Retains (some pending) (when_unsent q action s r)
    unsent-Retains action s (err message) e k = record { kept = λ _ _. k; done = λ v e. cc }
    unsent-Retains action s (ok s') e k =
        withdrawn-Retains s' (not_submitted q.now action s') (prepare-pending q pending s s' e ∙ k)

    order-Retains :
        (action : V) (s : Files V) (r : Result (Files V))
        → prepare_again q pending s ≡ r
        → s.pending ≡ some pending
        → Retains (some pending) (when_order q action s r)
    order-Retains action s (err message) e k = record { kept = λ _ _. k; done = λ v e. cc }
    order-Retains action s (ok s') e k =
        listed (context (j.as_array (j.at action "orders")) "pending orders")
      where
        listed : (r : Result (List V)) → Retains (some pending) (when_listed q s' r)
        listed (err message) = record {
          kept = λ _ _. prepare-pending q pending s s' e ∙ k;
          done = λ v e. cc;
        }
        listed (ok orders) =
            resolve_each-Retains orders [] s' (prepare-pending q pending s s' e ∙ k)

    checked-Retains :
        (s : Files V) (r : Result V)
        → s.pending ≡ some pending
        → Retains (some pending) (when_checked q s r)
    checked-Retains s (err message) k = record { kept = λ _ _. k; done = λ v e. cc }
    checked-Retains s (ok v) k = record { kept = λ m e. cc; done = λ _ _. refl }

    effect-Retains :
        (action : V) (s : Files V)
        → s.pending ≡ some pending
        → Retains (some pending) (check_effect q action s)
    unfolding check_effect
    effect-Retains action s k =
        if_cases (Retains (some pending))
          (any (is_text (j.at action "type")) ("cancel" ∷ "cancelByCloid" ∷ "scheduleCancel" ∷ []))
          (λ _. checked-Retains s (check_cancelled q) k)
          (λ _.
            if_cases (Retains (some pending)) (is_text (j.at action "type") "updateLeverage")
              (λ _. checked-Retains s (check_leverage q action) k)
              (λ _. record { kept = λ _ _. k; done = λ v e. cc }))

    -- An operation that is on disk stays there, as it was, whenever its reconciliation fails, whatever the
    -- reason; it goes exactly when the reconciliation succeeds.
    pub reconcile-Retains :
        (s : Files V) → s.pending ≡ some pending → Retains (some pending) (reconcile q s)
    unfolding reconcile continue_with
    reconcile-Retains s k =
        subst (λ o. Retains (some pending) (reconcile_pending q o s)) (sym k)
          (owned (check_owner q pending))
      where
        owned : (r : Result (Unit {0})) → Retains (some pending) (when_owned q pending s r)
        owned (err message) = record { kept = λ _ _. k; done = λ v e. cc }
        owned (ok _) =
            let action = j.at (j.at pending "request") "action" in
            if_cases (Retains (some pending)) (is_text (j.at pending "dispatch_state") "prepared")
              (λ _. unsent-Retains action s (prepare_again q pending s) refl k)
              (λ _.
                if_cases (Retains (some pending)) (is_text (j.at action "type") "order")
                  (λ _. order-Retains action s (prepare_again q pending s) refl k)
                  (λ _. effect-Retains action s k))
