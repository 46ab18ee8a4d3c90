-- ===== src/Hyperliquid/Course.antt =====
-- A call of the exchange as the moments that it passes: what is on disk, and whether the request has left.
use lp_maker.Base.{ℕ, ◌+◌, max, Bool, Option, none, some, List, [], ◌∷◌, String, Result, unwrap_or}
use lp_maker.Hyperliquid.Store.{Files, ArchivePolicy}

-- The files of the order journal, and `nonce.json`.
pub record Disk {ℓ} (V : Type ℓ) : Type ℓ where
  pub files : Files V
  pub nonce : Option ℕ

-- What one call meets outside of the journal.
pub record Gateway {ℓ} (V : Type ℓ) : Type ℓ where
  pub policy : ArchivePolicy V
  pub user : String
  pub has_signer : Bool
  pub identity : Result (Unit {0})
  -- The clock at the two checks of the quote, at the nonce and at the acknowledgement.
  pub checked_ms : ℕ
  pub nonce_ms : ℕ
  pub rechecked_ms : ℕ
  pub acknowledged_ms : ℕ
  -- The address of the vault, if there is one, as a value; and the signature of an action.
  pub vault : Result V
  pub sign : V → ℕ → ℕ → Result V
  pub has_space : Bool
  -- The answer to the request, or no answer that can be read.
  pub post : V → Result V

pub record Moment {ℓ} (V : Type ℓ) : Type ℓ where
  pub disk : Disk V
  pub sent : Bool

-- An answer of the exchange, a rejection by it (`ExchangeRejected`), or any other error.
pub data Answer {ℓ} (V : Type ℓ) : Type ℓ where
  accepted : (response : V) → Answer V
  rejected : (message : String) → Answer V
  failed : (message : String) → Answer V

-- The moments of a call, and how it ends.
pub record Course {ℓ} (V : Type ℓ) : Type ℓ where
  pub moments : List (Moment V)
  pub disk : Disk V
  pub answer : Answer V

-- `Store::next_nonce`.
unfoldable pub next_nonce : ℕ → Option ℕ → ℕ
next_nonce now last = max now (unwrap_or last 0 + 1)

module _ {ℓ} {V : Type ℓ} where
  abbrev pub ended : Bool → Answer V → Disk V → Course V
  ended sent answer d = record {
    moments = record { disk = d; sent = sent } ∷ [];
    disk = d;
    answer = answer;
  }

  -- A moment before the rest of the call.
  abbrev pub after : Bool → Disk V → Course V → Course V
  after sent d rest = record {
    moments = record { disk = d; sent = sent } ∷ rest.moments;
    disk = rest.disk;
    answer = rest.answer;
  }

  abbrev pub set_files : Disk V → Files V → Disk V
  set_files d files = record d { files = files }

  abbrev pub set_pending : Disk V → Option V → Disk V
  set_pending d v = record d { files = (let files = d.files in record files { pending = v }) }

  abbrev pub set_hedge : Disk V → Option V → Disk V
  set_hedge d none = d
  set_hedge d (some h) = record d {
    files = (let files = d.files in record files { hedge_order = some h });
  }
