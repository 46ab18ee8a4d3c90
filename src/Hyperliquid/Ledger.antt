-- ===== src/Hyperliquid/Ledger.antt =====
-- What the changes of the order ledger keep.
use Prim.Native.Nat.{lt, eq, gt}
use Prim.Native.String.{compare as str_compare}
use lp_maker.Base.{
  ◌≡◌, refl, true, false, some, List, [], ◌∷◌, String, Result, ok, All, if_cases, Bool-cases, inl,
  inr, >>=-eq-ok, ok-injective,
}
use mathlib.Core.Path.{subst, subst⁻¹, ap}
use text.Mathlib.Text.{◌==◌ as str_eq}
use lp_maker.Hyperliquid.Store.{insert, remove, change, lookup}
use lp_maker.Hyperliquid.Journal.{each}

-- A predicate of every entry.
abbrev pub Entries {ℓ κ} : {A : Type ℓ} → (A → Type κ) → List (String × A) → Type κ
Entries P l = All (λ entry. P entry.1) l

-- A loop keeps what each round keeps.
pub each-keeps {ℓ κ μ} :
    {A : Type ℓ} {S : Type κ} (I : S → Type μ) (f : A → S → Result S)
    → ((x : A) (s s' : S) → f x s ≡ ok s' → I s → I s')
    → (xs : List A) (s s' : S) → each f xs s ≡ ok s'
    → I s
    → I s'
each-keeps I f h [] s s' e i = subst I (ok-injective e) i
each-keeps I f h (x ∷ xs) s s' e i =
    let (t, e₁, e₂) = >>=-eq-ok (f x s) (each f xs) e in each-keeps I f h xs t s' e₂ (h x s t e₁ i)

module _ {ℓ κ} {A : Type ℓ} (P : A → Type κ) where
  pub insert-Entries :
      (id : String) (v : A) (l : List (String × A)) → P v → Entries P l → Entries P (insert id v l)
  unfolding insert
  insert-Entries id v [] p h = (p, tt)
  insert-Entries id v ((k, w) ∷ rest) p h =
      elim (str_compare id k)
        as (λ o. Entries P (elim o [
          | lt ↦ (id, v) ∷ (k, w) ∷ rest
          | eq ↦ (k, v) ∷ rest
          | gt ↦ (k, w) ∷ insert id v rest
        ])) [ lt ↦ (p, h) | eq ↦ (p, h.1) | gt ↦ (h.0, insert-Entries id v rest p h.1) ]

  pub remove-Entries : (id : String) (l : List (String × A)) → Entries P l → Entries P (remove id l)
  unfolding remove
  remove-Entries id [] h = tt
  remove-Entries id ((k, v) ∷ rest) h =
      if_cases (Entries P) (str_eq k id) (λ _. remove-Entries id rest h.1)
        (λ _. (h.0, remove-Entries id rest h.1))

  pub change-Entries :
      (id : String) (f : A → Result A)
      → ((v v' : A) → f v ≡ ok v' → P v → P v')
      → (l l' : List (String × A)) → change id f l ≡ ok l'
      → Entries P l
      → Entries P l'
  unfolding change
  change-Entries id f keeps [] l' e h = cc
  change-Entries id f keeps ((k, v) ∷ rest) l' e h =
      if_cases (λ r. r ≡ ok l' → Entries P l') (str_eq k id)
        (λ _ e₁.
          let (v', q, e₂) = >>=-eq-ok (f v) _ e₁ in
          subst (Entries P) (ok-injective e₂) (keeps v v' q h.0, h.1))
        (λ _ e₁.
          let (r, q, e₂) = >>=-eq-ok (change id f rest) _ e₁ in
          subst (Entries P) (ok-injective e₂) (h.0, change-Entries id f keeps rest r q h.1))
        e

-- The entry that a change was made to, before and after it.
pub record Changed {ℓ} {A : Type ℓ} (id : String) (f : A → Result A) (l l' : List (String × A))
    : Type ℓ where
  pub old : A
  pub new : A
  pub old_there : lookup id l ≡ some old
  pub new_there : lookup id l' ≡ some new
  pub changed : f old ≡ ok new

pub change-Changed {ℓ} :
    {A : Type ℓ} (id : String) (f : A → Result A) (l l' : List (String × A))
    → change id f l ≡ ok l'
    → Changed id f l l'
unfolding change lookup
change-Changed id f [] l' e = cc
change-Changed id f ((k, v) ∷ rest) l' e =
    if_cases (λ r. r ≡ ok l' → Changed id f ((k, v) ∷ rest) l') (str_eq k id)
      (λ t e₁.
        let (v', q, e₂) = >>=-eq-ok (f v) (λ w. ok ((k, w) ∷ rest)) e₁ in
        record {
          old = v;
          new = v';
          old_there = rw t refl;
          new_there = rw (← ok-injective e₂, t) refl;
          changed = q;
        })
      (λ t e₁.
        let (r, q, e₂) = >>=-eq-ok (change id f rest) (λ r. ok ((k, v) ∷ r)) e₁ in
        let c = change-Changed id f rest r q in
        record {
          old = c.old;
          new = c.new;
          old_there = rw t c.old_there;
          new_there = rw (← ok-injective e₂, t) c.new_there;
          changed = c.changed;
        })
      e

found-here {ℓ} :
    {A : Type ℓ} (other k : String) (w v : A) (rest : List (String × A))
    → str_eq k other ≡ true
    → lookup other ((k, w) ∷ rest) ≡ some v
    → w ≡ v
unfolding lookup
found-here other k w v rest t e = let same : some w ≡ some v = rw (← e) (rw t refl) in cc

found-later {ℓ} :
    {A : Type ℓ} (other k : String) (w v : A) (rest : List (String × A))
    → str_eq k other ≡ false
    → lookup other ((k, w) ∷ rest) ≡ some v
    → lookup other rest ≡ some v
unfolding lookup
found-later other k w v rest t e = rw (← e) (rw t refl)

-- A change keeps of every entry what it keeps of the one that it changes.
pub lookup-change {ℓ κ} :
    {A : Type ℓ} (P : A → Type κ) (id : String) (f : A → Result A)
    → ((v v' : A) → f v ≡ ok v' → P v → P v')
    → (other : String) (l l' : List (String × A)) (v : A) → change id f l ≡ ok l'
    → lookup other l ≡ some v
    → P v
    → (v' : A) × (lookup other l' ≡ some v') × P v'
unfolding change lookup
lookup-change P id f keeps other [] l' v e there p = cc
lookup-change {A = A} P id f keeps other ((k, w) ∷ rest) l' v e there p =
    if_cases (λ r. r ≡ ok l' → (v' : A) × (lookup other l' ≡ some v') × P v') (str_eq k id)
      (λ t e₁.
        let (w', q, e₂) = >>=-eq-ok (f w) (λ w. ok ((k, w) ∷ rest)) e₁ in
        elim (Bool-cases (str_eq k other)) [
          | inl u ↦ (
            w',
            rw (← ok-injective e₂, u) refl,
            keeps w w' q (subst⁻¹ P (found-here other k w v rest u there) p),
          )
          | inr u ↦ (v, rw (← ok-injective e₂, u) (found-later other k w v rest u there), p)
        ])
      (λ t e₁.
        let (r, q, e₂) = >>=-eq-ok (change id f rest) (λ r. ok ((k, w) ∷ r)) e₁ in
        elim (Bool-cases (str_eq k other)) [
          | inl u ↦
              (v, rw (← ok-injective e₂, u) (ap some (found-here other k w v rest u there)), p)
          | inr u ↦
              let (v', there', p') =
                lookup-change P id f keeps other rest r v q (found-later other k w v rest u there)
                  p in
              (v', rw (← ok-injective e₂, u) there', p')
        ])
      e
