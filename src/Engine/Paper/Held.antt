-- ===== src/Engine/Paper/Held.antt =====
-- Which layers the decisions say are held, for the book of src/engine/paper.rs.
use lp_maker.Base.{
  ◌≡◌, refl, Bool, true, not, List, [], ◌∷◌, ◌++◌, map, String, if◌then◌else◌, is_empty, select,
  Bool-cases, inl, inr, All, ap,
}
use mathlib.Core.Path.{subst}
use text.Mathlib.Text.{◌==◌ as str_eq}
use text.Mathlib.TextEquality.{eq_iff}
use lp_maker.Domain.{LpPosition, LpIntent, hold, exit_to_quote, deploy, recenter}
use lp_maker.Strategy.State.{LayerConfig}
use lp_maker.Engine.Paper.{contains}
use lp_maker.Engine.Paper.Apply.{layers_of}

module _ {W : Type 0} where
  abbrev pub names_of : List (LayerConfig W) → List String
  names_of layers = map (λ l. l.name) layers

  -- The layers that are held after a decision, by those that were held: all go in an exit, the configured
  -- ones are opened if there are none, and a layer that moves goes behind those that stay.
  abbrev pub held_after : List String → LpIntent W → List String → List String
  held_after configured hold held = held
  held_after configured exit_to_quote held = []
  held_after configured (deploy fraction) held = if is_empty held then configured else held
  held_after configured (recenter layers) held =
      select (λ n. not (contains layers n)) held ++ select (contains layers) configured

  pub layers-select :
      (t : String → Bool) (positions : List (LpPosition W))
      → layers_of (select (λ pos. t pos.layer) positions) ≡ select t (layers_of positions)
  layers-select t [] = refl
  layers-select t (pos ∷ rest) = elim (Bool-cases (t pos.layer)) [
    | inl e ↦ rw e (ap (λ l. pos.layer ∷ l) (layers-select t rest))
    | inr e ↦ rw e (layers-select t rest)
  ]

  pub names-select :
      (t : String → Bool) (layers : List (LayerConfig W))
      → names_of (select (λ l. t l.name) layers) ≡ select t (names_of layers)
  names-select t [] = refl
  names-select t (l ∷ rest) = elim (Bool-cases (t l.name)) [
    | inl e ↦ rw e (ap (λ x. l.name ∷ x) (names-select t rest))
    | inr e ↦ rw e (names-select t rest)
  ]

  pub layers-++ : (a b : List (LpPosition W)) → layers_of (a ++ b) ≡ layers_of a ++ layers_of b
  layers-++ [] b = refl
  layers-++ (pos ∷ rest) b = ap (λ l. pos.layer ∷ l) (layers-++ rest b)

pub ++_assoc : (a : List String) (x : String) (b : List String) → (a ++ x ∷ []) ++ b ≡ a ++ x ∷ b
++_assoc [] x b = refl
++_assoc (y ∷ a) x b = ap (λ l. y ∷ l) (++_assoc a x b)

pub ++_nil : (a : List String) → a ++ [] ≡ a
++_nil [] = refl
++_nil (y ∷ a) = ap (λ l. y ∷ l) (++_nil a)

pub contains_self :
    (before names : List String) → All (λ n. contains (before ++ names) n ≡ true) names
contains_self before [] = tt
contains_self before (n ∷ rest) = (
  there before,
  subst (λ l. All (λ m. contains l m ≡ true) rest) (++_assoc before n rest)
      (contains_self (before ++ n ∷ []) rest),
)
  where
    there : (l : List String) → contains (l ++ n ∷ rest) n ≡ true
    there [] = rw ((eq_iff n n).1 refl) refl
    there (m ∷ l) = elim (Bool-cases (str_eq n m)) [ inl e ↦ rw e refl | inr e ↦ rw e (there l) ]

pub keeps_each : (t : String → Bool) (l : List String) → All (λ n. t n ≡ true) l → select t l ≡ l
keeps_each t [] h = refl
keeps_each t (n ∷ rest) h = rw (h.0) (ap (λ l. n ∷ l) (keeps_each t rest h.1))

pub keeps_none :
    (t : String → Bool) (l : List String) → All (λ n. t n ≡ true) l → select (λ n. not (t n)) l ≡ []
keeps_none t [] h = refl
keeps_none t (n ∷ rest) h = rw (h.0) (keeps_none t rest h.1)
