-- ===== src/Hyperliquid/History.antt =====
-- The journal of src/hyperliquid/journal.rs over any sequence of its operations.
use lp_maker.Base.{ℕ, Bool, List, [], ◌∷◌, String, Result, ok, err}
use lp_maker.Hyperliquid.Json.{Json}
use lp_maker.Hyperliquid.Store.{Files, ArchivePolicy}
use lp_maker.Hyperliquid.Journal.{prepare, acknowledged, import_legacy}
use lp_maker.Hyperliquid.Journal.Reconcile.{not_submitted, observe, compact}
use lp_maker.Hyperliquid.Recovery.{Answers, resolve, refresh}

pub data Event (V : Type 0) : Type 0 where
  to_prepare : (action : V) (user : String) (nonce : ℕ) → Event V
  to_acknowledge : (now : ℕ) (action response : V) → Event V
  to_import : (user : String) → Event V
  to_withdraw : (now : ℕ) (action : V) → Event V
  to_observe : (now : ℕ) (id : String) (response : V) → Event V
  to_resolve : (answers : Answers V) (now : ℕ) (id : String) (terminal_only : Bool) → Event V
  to_refresh : (answers : String → Answers V) (user : String) (now : ℕ) → Event V
  to_compact : Event V

module _ {V : Type 0} ⦃j : Json V⦄ (p : ArchivePolicy V) where
  -- A failed write leaves the files as they were.
  abbrev pub written : Files V → Result (Files V) → Files V
  written s (err message) = s
  written s (ok s') = s'

  abbrev pub after : Event V → Files V → Files V
  after (to_prepare action user nonce) s = written s (prepare p action user nonce s)
  after (to_acknowledge now action response) s = written s (acknowledged now action response s)
  after (to_import user) s = written s (import_legacy user s)
  after (to_withdraw now action) s = written s (not_submitted now action s)
  after (to_observe now id response) s = (observe now id response s).files
  after (to_resolve answers now id terminal_only) s = (resolve answers now id terminal_only s).files
  after (to_refresh answers user now) s = (refresh answers user now s).files
  after to_compact s = (compact p s).files

  -- The files after these operations.
  abbrev pub run : List (Event V) → Files V → Files V
  run [] s = s
  run (e ∷ rest) s = run rest (after e s)
