-- ===== src/Base/Outcome.antt =====
-- `anyhow::Result` with its message, `?` as a bind, and the helpers `ensure!` and `context`.
use Prim.Native.String.{String}
use mathlib.Core.Path.{◌≡◌, refl}
use mathlib.Core.Logic.{◌⊎◌, inl, inr}
use mathlib.Core.Bool.{Bool, true, false}
use mathlib.Core.Option.{Option, none, some}

-- The message stands for the whole error.
pub data Result {a} (T : Type a) : Type a where
  err : (message : String) → Result T
  ok : (value : T) → Result T

module _ {a} {T : Type a} where
  -- `ok_or`, under the name of `anyhow`.
  abbrev pub context : Option T → String → Result T
  context (some value) message = ok value
  context none message = err message

  infixl 5 ◌>>=◌
  abbrev pub ◌>>=◌ {b} : {U : Type b} → Result T → (T → Result U) → Result U
  (err message) >>= next = err message
  (ok value) >>= next = next value

  abbrev pub is_ok : Result T → Bool
  is_ok (err message) = false
  is_ok (ok value) = true

  -- A chain that succeeds did so at its first step, and the rest went on from there.
  pub >>=-eq-ok {b} :
      {U : Type b} (first : Result T) (next : T → Result U) {u : U}
      → (first >>= next) ≡ ok u
      → (value : T) × (first ≡ ok value) × (next value ≡ ok u)
  >>=-eq-ok (err message) next e = cc
  >>=-eq-ok (ok value) next e = (value, refl, e)

  pub Result-cases :
      (r : Result T) → ((message : String) × (r ≡ err message)) ⊎ ((value : T) × (r ≡ ok value))
  Result-cases (err message) = inl (message, refl)
  Result-cases (ok value) = inr (value, refl)

infixl 5 ◌>>◌
abbrev pub ◌>>◌ {a} : {T : Type a} → Result (Unit {0}) → Result T → Result T
first >> rest = first >>= λ _. rest

abbrev pub ensure : Bool → String → Result (Unit {0})
ensure false message = err message
ensure true message = ok tt

-- A guarded step that succeeds: its test held, and the rest went on.
pub ensure-eq-ok {a} :
    {T : Type a} (test : Bool) (message : String) (rest : Result T) {t : T}
    → (ensure test message >> rest) ≡ ok t
    → (test ≡ true) × (rest ≡ ok t)
ensure-eq-ok true message rest e = (refl, e)
ensure-eq-ok false message rest e = cc

pub >>-eq-ok {a} :
    {T : Type a} (first : Result (Unit {0})) (rest : Result T) {t : T}
    → (first >> rest) ≡ ok t
    → (first ≡ ok tt) × (rest ≡ ok t)
>>-eq-ok (ok value) rest e = (refl, e)
>>-eq-ok (err message) rest e = cc

pub context-eq-ok {a b} :
    {T : Type a} {U : Type b} (o : Option T) (message : String) (next : T → Result U) {u : U}
    → (context o message >>= next) ≡ ok u
    → (value : T) × (o ≡ some value) × (next value ≡ ok u)
context-eq-ok (some value) message next e = (value, refl, e)
context-eq-ok none message next e = cc

pub ok-injective {a} : {T : Type a} {x y : T} → ok x ≡ ok y → x ≡ y
ok-injective e = cc
