-- ===== src/Hyperliquid/Store.antt =====
-- The files of src/store.rs that the order journal reads and writes.
use lp_maker.Base.{
  ℕ, Bool, ◌&&◌, Option, none, some, List, [], ◌∷◌, String, Result, ok, err, ◌>>=◌, ◌>>◌, ensure,
  ◌==◌, if◌then◌else◌,
}
use Prim.Native.Nat.{lt, eq, gt}
use Prim.Native.String.{len, compare as str_compare}
use text.Mathlib.Text.{◌==◌ as str_eq, starts_with}
use lp_maker.Hyperliquid.Json.{Json, eq_ignore_ascii_case}

pub record Order {ℓ} (V : Type ℓ) : Type ℓ where
  pub cloid : String
  pub oid : Option ℕ  -- u64
  pub user : String
  pub managed_hedge : Bool
  pub submitted_ms : ℕ
  pub observed_ms : ℕ
  pub wire : V
  pub status : String
  pub terminal : Bool
  pub exchange : V

-- `Orders`, in the order of the keys where the code reads them in order.
abbrev pub Orders {ℓ} : Type ℓ → Type ℓ
Orders V = List (String × Order V)

-- `orders.json`, `hedge_order.json`, `pending.json`, `open_orders.json` and the archived orders.
pub record Files {ℓ} (V : Type ℓ) : Type ℓ where
  pub orders : Orders V
  pub hedge_order : Option V
  pub pending : Option V
  pub open_orders : Option V
  pub archive : List (String × V)

-- What the archive takes from outside: whether `hex::decode` takes an identifier without its prefix, an
-- order as a JSON value, whether the budget of bytes has room for a value, and the settings.
pub record ArchivePolicy {ℓ} (V : Type ℓ) : Type ℓ where
  pub decodes : String → Bool
  pub order_value : Order V → V
  pub has_room : List (String × V) → V → Bool
  pub terminal_orders_keep : ℕ

-- A method that may have written before it fails.
pub record Done {ℓ} (V : Type ℓ) (T : Type 0) : Type ℓ where
  pub files : Files V
  pub result : Result T

module _ {ℓ} {A : Type ℓ} where
  unfoldable pub lookup : String → List (String × A) → Option A
  lookup id [] = none
  lookup id ((k, v) ∷ rest) = if str_eq k id then some v else lookup id rest

  -- A new entry, before the first greater key.
  unfoldable pub insert : String → A → List (String × A) → List (String × A)
  insert id v [] = (id, v) ∷ []
  insert id v ((k, w) ∷ rest) =
      let rest' = insert id v rest in
      elim (str_compare id k) [
        | lt ↦ (id, v) ∷ (k, w) ∷ rest
        | eq ↦ (k, v) ∷ rest
        | gt ↦ (k, w) ∷ rest'
      ]

  unfoldable pub remove : String → List (String × A) → List (String × A)
  remove id [] = []
  remove id ((k, v) ∷ rest) =
      let rest' = remove id rest in if str_eq k id then rest' else (k, v) ∷ rest'

  -- What a successful change of an entry leaves: `get_mut`, and `?` in the closure of `update`.
  unfoldable pub change : String → (A → Result A) → List (String × A) → Result (List (String × A))
  change id f [] = err "unknown local order"
  change id f ((k, v) ∷ rest) =
      let rest' = change id f rest in
      if str_eq k id then (f v >>= λ v'. ok ((k, v') ∷ rest)) else (rest' >>= λ r. ok ((k, v) ∷ r))

  unfoldable pub lookup_archive : String → List (String × A) → Option A
  lookup_archive id [] = none
  lookup_archive id ((k, v) ∷ rest) =
      if eq_ignore_ascii_case k id then some v else lookup_archive id rest

module _ {ℓ} {V : Type ℓ} ⦃j : Json V⦄ (p : ArchivePolicy V) where
  abbrev pub archive_name : String → Result (Unit {0})
  archive_name id =
      ensure ((len id == 34) && starts_with id "0x" && p.decodes id) "invalid archived client ID"

  unfoldable pub archived_order : Files V → String → Result (Option V)
  archived_order s id = archive_name id >> ok (lookup_archive id s.archive)

  -- `archive_order`: what is archived is never overwritten.
  unfoldable pub archive_order : List (String × V) → String → V → Result (List (String × V))
  archive_order archive id value = archive_name id >> (elim (lookup_archive id archive) [
    | some old ↦
        ensure (j.same old value) "archived order differs; stop before pruning active ledger"
        >> ok archive
    | none ↦
        ensure (p.has_room archive value) "order archive capacity reached"
        >> ok ((id, value) ∷ archive)
  ])
