-- ===== src/Hyperliquid/Recovery/Writes.antt =====
-- What src/hyperliquid/order_recovery.rs keeps and returns, by rules for its observations.
use lp_maker.Base.{
  ℕ, zero, suc, ◌≡◌, ◌⊎◌, inl, inr, refl, Bool, true, false, ◌||◌, not, Option, none, some, List,
  [], ◌∷◌, String, Result, ok, err, if_cases, select, Bool-cases, arith,
}
use lp_maker.Hyperliquid.Json.{Json, is_text, eq_ignore_ascii_case}
use lp_maker.Hyperliquid.Store.{Order, Files, lookup}
use lp_maker.Hyperliquid.Journal.{terminal_status}
use lp_maker.Hyperliquid.Journal.Reconcile.{observe, is_found}
use lp_maker.Hyperliquid.Recovery.{
  Answers, Step, returned, going_on, Resolved, record_answer, answered, and_then, or_again,
  after_query, query_all, match_open, search_rows, search_open, unless_open, with_open_orders,
  known_order, attempt_on, attempt_once, attempts_from, resolve, is_open, queries, listed, is_ours,
  durable,
}

module _ {V : Type 0} ⦃j : Json V⦄ (I : Files V → Type 0) (Q : Files V → Result V → Type 0)
    (answers : Answers V) (now : ℕ) (id : String) (terminal_only : Bool) where
  -- `I` holds while the order is looked for, `Q` of what is returned.
  pub record Rules : Type 0 where
    pub fails : (s : Files V) (message : String) → I s → Q s (err message)
    pub observes : (response : V) (s : Files V) → I s → I (observe now id response s).files
    pub answers_ok :
        (response : V) (s : Files V)
        → I s
        → (observe now id response s).result ≡ ok tt
        → (terminal_only ≡ false) ⊎ (is_open response ≡ false)
        → Q (observe now id response s).files (ok response)
    pub lists : (s : Files V) (v : V) → I s → I (record s { open_orders = some v })
    pub knows :
        (s : Files V) (o : Order V)
        → I s
        → lookup id s.orders ≡ some o
        → o.terminal ≡ true
        → terminal_status o.status ≡ true
        → Q s (ok (durable id o))

  abbrev Holds : Step V → Type 0
  Holds (returned s r) = Q s r
  Holds (going_on s known_open) = I s

  module _ (rules : Rules) where
    answered-Holds :
        (still_open : Bool) (response : V) (s : Files V) (r : Result (Unit {0}))
        → (still_open ≡ false → is_open response ≡ false)
        → I s
        → (r ≡ ok tt → (terminal_only ≡ false) ⊎ (is_open response ≡ false) → Q s (ok response))
        → Holds (answered terminal_only still_open response s r)
    answered-Holds still_open response s (err message) at i q = rules.fails s message i
    answered-Holds true response s (ok _) at i q =
        if_cases Holds (not terminal_only || not true) (λ e. q refl (inl (ground arith))) (λ _. i)
    answered-Holds false response s (ok _) at i q =
        if_cases Holds (not terminal_only || not false) (λ e. q refl (inr (at refl))) (λ _. i)

    record_answer-Holds :
        (still_open : Bool) (response : V) (s : Files V)
        → (still_open ≡ false → is_open response ≡ false)
        → I s
        → Holds (record_answer now id terminal_only still_open response s)
    unfolding record_answer
    record_answer-Holds still_open response s at i =
        let seen = observe now id response s in
        answered-Holds still_open response seen.files seen.result at (rules.observes response s i)
          (λ e. rules.answers_ok response s i e)

    and_then-Holds :
        (t : Step V) (next : Bool → Files V → Step V)
        → Holds t
        → ((known_open : Bool) (s : Files V) → I s → Holds (next known_open s))
        → Holds (and_then t next)
    and_then-Holds (returned s r) next h k = h
    and_then-Holds (going_on s known_open) next h k = k known_open s h

    after_query-Holds :
        (answer : Result V) (known_open : Bool) (s : Files V)
        → I s
        → Holds (after_query answers now id terminal_only answer known_open s)
    after_query-Holds (err message) known_open s i = rules.fails s message i
    after_query-Holds (ok response) known_open s i =
        if_cases Holds (is_found response)
          (λ _. record_answer-Holds (is_open response) response s (λ e. e) i)
          (λ _.
            if_cases Holds (is_text (j.at response "status") "unknownOid") (λ _. i)
              (λ _. rules.fails s _ i))

    query_all-Holds :
        (attempt : ℕ) (qs : List V) (known_open : Bool) (s : Files V)
        → I s
        → Holds (query_all answers now id terminal_only attempt qs known_open s)
    unfolding query_all
    query_all-Holds attempt [] known_open s i = i
    query_all-Holds attempt (q ∷ rest) known_open s i =
        and_then-Holds
          (after_query answers now id terminal_only (answers.order_status attempt q) known_open s)
          (query_all answers now id terminal_only attempt rest)
          (after_query-Holds (answers.order_status attempt q) known_open s i)
          (query_all-Holds attempt rest)

    match_open-Holds :
        (rows : List V) (s : Files V) → I s → Holds (match_open answers now id terminal_only rows s)
    match_open-Holds [] s i = i
    match_open-Holds (row ∷ []) s i = record_answer-Holds true (listed row) s (λ e. ground arith) i
    match_open-Holds (row ∷ other ∷ rest) s i = rules.fails s _ i

    search_rows-Holds :
        (o : Order V) (rows : Option (List V)) (s : Files V)
        → I s
        → Holds (search_rows answers now id terminal_only o rows s)
    search_rows-Holds o none s i = rules.fails s _ i
    search_rows-Holds o (some rows) s i =
        match_open-Holds (select (is_ours answers now id terminal_only o) rows) s i

    search_open-Holds :
        (o : Order V) (answer : Result V) (s : Files V)
        → I s
        → Holds (search_open answers now id terminal_only o answer s)
    unfolding search_open
    search_open-Holds o (err message) s i = rules.fails s message i
    search_open-Holds o (ok answer) s i =
        search_rows-Holds o (j.as_array answer)
          (with_open_orders answers now id terminal_only answer s) (rules.lists s _ i)

    unless_open-Holds :
        (attempt : ℕ) (o : Order V) (known_open : Bool) (s : Files V)
        → I s
        → Holds (unless_open answers now id terminal_only attempt o known_open s)
    unless_open-Holds attempt o true s i = i
    unless_open-Holds attempt o false s i = search_open-Holds o (answers.open_orders attempt) s i

    known_order-Holds :
        (attempt : ℕ) (o : Order V) (s : Files V)
        → lookup id s.orders ≡ some o
        → I s
        → Holds (known_order answers now id terminal_only attempt o s)
    known_order-Holds attempt o s there i =
        if_cases Holds (not (eq_ignore_ascii_case o.user answers.user)) (λ _. rules.fails s _ i)
          (λ _.
            if_cases Holds o.terminal
              (λ over. elim (Bool-cases (terminal_status o.status)) [
                | inl e ↦ rw e (rules.knows s o i there over e)
                | inr e ↦ rw e (rules.fails s _ i)
              ])
              (λ _.
                and_then-Holds
                  (query_all answers now id terminal_only attempt (queries id o) false s)
                  (unless_open answers now id terminal_only attempt o)
                  (query_all-Holds attempt (queries id o) false s i) (unless_open-Holds attempt o)))

    attempt_on-Holds :
        (attempt : ℕ) (s : Files V) (o : Option (Order V))
        → lookup id s.orders ≡ o
        → I s
        → Holds (attempt_on answers now id terminal_only attempt s o)
    attempt_on-Holds attempt s none there i = rules.fails s _ i
    attempt_on-Holds attempt s (some o) there i = known_order-Holds attempt o s there i

    or_again-Q :
        (t : Step V) (again : Files V → Resolved V)
        → Holds t
        → ((s : Files V) → I s → Q (again s).files (again s).result)
        → Q (or_again t again).files (or_again t again).result
    or_again-Q (returned s r) again h k = h
    or_again-Q (going_on s known_open) again h k = k s h

    attempts_from-Q :
        (left attempt : ℕ) (s : Files V)
        → I s
        → let r = attempts_from answers now id terminal_only left attempt s in Q r.files r.result
    unfolding attempts_from attempt_once
    attempts_from-Q zero attempt s i = rules.fails s _ i
    attempts_from-Q (suc left) attempt s i =
        or_again-Q (attempt_on answers now id terminal_only attempt s (lookup id s.orders))
          (attempts_from answers now id terminal_only left (suc attempt))
          (attempt_on-Holds attempt s (lookup id s.orders) refl i)
          (attempts_from-Q left (suc attempt))

    pub resolve-Q :
        (s : Files V) → I s → let r = resolve answers now id terminal_only s in Q r.files r.result
    unfolding resolve
    resolve-Q s i = attempts_from-Q 5 0 s i
