-- ===== src/Hyperliquid/Json.antt =====
-- The JSON values of serde_json, by the operations that src/hyperliquid uses, over any type of values.
use Prim.Native.Char.{code}
use Prim.Native.String.{[], ◌∷◌}
use lp_maker.Base.{
  ℕ, ◌+◌, ◌≡◌, refl, arith, Bool, true, false, ◌&&◌, Option, none, some, List, String, ◌==◌, leb,
  if◌then◌else◌,
}
use text.Mathlib.Text.{◌==◌ as str_eq}

pub record Json {ℓ} (V : Type ℓ) : Type ℓ where
  -- `v["key"]`, null where there is no such field.
  pub at : V → String → V
  -- `v.get("key").is_some()`.
  pub has : V → String → Bool
  pub as_str : V → Option String
  pub as_u64 : V → Option ℕ
  pub as_array : V → Option (List V)
  pub is_null : V → Bool
  -- `==` of two values.
  pub same : V → V → Bool
  pub null : V
  pub text : String → V
  pub number : ℕ → V
  pub object : List (String × V) → V
  pub array : List V → V
  pub boolean : Bool → V

abbrev fold_case : ℕ → ℕ
fold_case n = if leb 65 n && leb n 90 then n + 32 else n

-- `eq_ignore_ascii_case`.
unfoldable pub eq_ignore_ascii_case : String → String → Bool
eq_ignore_ascii_case [] [] = true
eq_ignore_ascii_case [] (d ∷ t) = false
eq_ignore_ascii_case (c ∷ s) [] = false
eq_ignore_ascii_case (c ∷ s) (d ∷ t) =
    (fold_case (code c) == fold_case (code d)) && eq_ignore_ascii_case s t

==_sym : (a b : ℕ) → (a == b) ≡ true → (b == a) ≡ true
==_sym a b h = ground arith

pub eq_ignore_ascii_case_sym :
    (s t : String) → eq_ignore_ascii_case s t ≡ true → eq_ignore_ascii_case t s ≡ true
unfolding eq_ignore_ascii_case
eq_ignore_ascii_case_sym [] [] h = refl
eq_ignore_ascii_case_sym [] (d ∷ t) h = ground arith
eq_ignore_ascii_case_sym (c ∷ s) [] h = ground arith
eq_ignore_ascii_case_sym (c ∷ s) (d ∷ t) h =
    let same : ((fold_case (code c) == fold_case (code d)) ≡ true)
        × (eq_ignore_ascii_case s t ≡ true) =
      ground arith in
    rw (==_sym (fold_case (code c)) (fold_case (code d)) same.0)
      (eq_ignore_ascii_case_sym s t same.1)

module _ {ℓ} {V : Type ℓ} ⦃j : Json V⦄ where
  -- `v == "text"`.
  abbrev pub is_text : V → String → Bool
  is_text v s = elim (j.as_str v) [ none ↦ false | some t ↦ str_eq t s ]

  -- `v.as_u64() == Some(n)`.
  abbrev pub is_number : V → ℕ → Bool
  is_number v n = elim (j.as_u64 v) [ none ↦ false | some m ↦ m == n ]

  -- `v.as_str().is_some_and(|t| t.eq_ignore_ascii_case(s))`.
  abbrev pub names : V → String → Bool
  names v s = elim (j.as_str v) [ none ↦ false | some t ↦ eq_ignore_ascii_case t s ]
