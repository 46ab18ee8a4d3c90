-- ===== src/Hyperliquid/Samples.antt =====
-- Concrete JSON values and orders for the tests of src/hyperliquid.
use lp_maker.Base.{
  ℕ, Bool, true, false, Option, none, some, List, [], ◌∷◌, String, ok, ◌==◌, if◌then◌else◌,
}
use text.Mathlib.Text.{◌==◌ as str_eq}
use lp_maker.Hyperliquid.Json.{Json}
use lp_maker.Hyperliquid.Store.{Order, Files, ArchivePolicy}
use lp_maker.Hyperliquid.Recovery.{Answers}

-- An object is its fields, an array its items; both end in `nothing`, and an empty array is `no_items`.
pub data Doc : Type 0 where
  nothing no_items : Doc
  word : String → Doc
  number : ℕ → Doc
  truth : Bool → Doc
  field : String → Doc → Doc → Doc
  item : Doc → Doc → Doc

abbrev field_of : Doc → String → Doc
field_of (field k v rest) key = let other = field_of rest key in if str_eq k key then v else other
field_of _ key = nothing

abbrev is_nothing : Doc → Bool
is_nothing nothing = true
is_nothing _ = false

abbrev items_of : Doc → List Doc
items_of (item v rest) = v ∷ items_of rest
items_of _ = []

abbrev from_fields : List (String × Doc) → Doc
from_fields [] = nothing
from_fields ((k, v) ∷ rest) = field k v (from_fields rest)

abbrev from_items : List Doc → Doc
from_items [] = no_items
from_items (v ∷ rest) = item v (from_items rest)

abbrev word_of : Doc → Option String
word_of (word s) = some s
word_of _ = none

abbrev number_of : Doc → Option ℕ
number_of (number n) = some n
number_of _ = none

abbrev array_of : Doc → Option (List Doc)
array_of no_items = some []
array_of (item v rest) = some (v ∷ items_of rest)
array_of _ = none

instance abbrev pub docs : Json Doc
docs = record {
  at = field_of;
  has = λ v key. if is_nothing (field_of v key) then false else true;
  as_str = word_of;
  as_u64 = number_of;
  as_array = array_of;
  is_null = is_nothing;
  same = λ v w. false;
  null = nothing;
  text = word;
  number = number;
  object = from_fields;
  array = from_items;
  boolean = truth;
}

abbrev pub policy : ArchivePolicy Doc
policy = record {
  decodes = λ s. true;
  order_value = λ o. word o.cloid;
  has_room = λ archive v. true;
  terminal_orders_keep = 2;
}

abbrev pub order : String → ℕ → String → Bool → Order Doc
order id oid status terminal = record {
  cloid = id;
  oid = some oid;
  user = "0xme";
  managed_hedge = true;
  submitted_ms = 1;
  observed_ms = 1;
  wire = nothing;
  status = status;
  terminal = terminal;
  exchange = nothing;
}

-- An open order, and one that was filled.
abbrev pub files : Files Doc
files = record {
  orders = ("0xa", order "0xa" 7 "open" false) ∷ ("0xb", order "0xb" 8 "filled" true) ∷ [];
  hedge_order = none;
  pending = none;
  open_orders = none;
  archive = [];
}

-- What the exchange says of the order 7.
abbrev pub answer : String → Doc
answer status = field "status" (word "order") (
    field "order"
      (field "status" (word status)
        (field "order" (field "oid" (number 7) (field "cloid" (word "0xa") nothing)) nothing))
      nothing)

abbrev pub answers : Answers Doc
answers = record {
  order_status = λ attempt q. ok (if attempt == 0 then answer "open" else answer "canceled");
  open_orders = λ attempt. ok nothing;
  user = "0xME";
}

abbrev pub listing : Doc
listing = item (field "oid" (number 7) (field "coin" (word "ETH") nothing)) nothing
