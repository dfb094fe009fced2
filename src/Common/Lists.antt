-- ===== src/Common/Lists.antt =====
-- Lists measured by native numbers, under the library's names, and predicates on all elements.
use Prim.Native.Nat.{ℕ, zero, suc, ◌+◌, ◌-◌, min}
use mathlib.Core.Path.{◌≡◌, refl, ap, subst}
use mathlib.Core.Logic.{inl, inr}
use mathlib.Core.Bool.{Bool, true, false}
use mathlib.Core.Option.{Option, none, some}
use azure_sdk_for_go.Common.Tests.{if◌then◌else◌, Bool-cases}
use mathlib.Core.List.{List, [], ◌∷◌, ◌++◌}
use native.Mathlib.Omega.{arith}

module _ {ℓ} {A : Type ℓ} where
  abbrev pub length : List A → ℕ
  length [] = 0
  length (x ∷ xs) = suc (length xs)

  abbrev pub take : ℕ → List A → List A
  take zero xs = []
  take (suc n) [] = []
  take (suc n) (x ∷ xs) = x ∷ take n xs

  abbrev pub drop : ℕ → List A → List A
  drop zero xs = xs
  drop (suc n) [] = []
  drop (suc n) (x ∷ xs) = drop n xs

  abbrev pub replicate : ℕ → A → List A
  replicate zero a = []
  replicate (suc n) a = a ∷ replicate n a

  abbrev pub All {κ} : (A → Type κ) → List A → Type κ
  All P [] = Unit {κ}
  All P (x ∷ xs) = P x × All P xs

  pub length-append : (xs ys : List A) → length (xs ++ ys) ≡ length xs + length ys
  length-append [] ys = omega arith
  length-append (x ∷ xs) ys = omega (arith, length-append xs ys)

  pub take-append-drop : (n : ℕ) (xs : List A) → take n xs ++ drop n xs ≡ xs
  take-append-drop zero xs = refl
  take-append-drop (suc n) [] = refl
  take-append-drop (suc n) (x ∷ xs) = rw (take-append-drop n xs)

  pub length-take : (n : ℕ) (xs : List A) → length (take n xs) ≡ min n (length xs)
  length-take zero xs = omega arith
  length-take (suc n) [] = omega arith
  length-take (suc n) (x ∷ xs) = omega (arith, length-take n xs)

  pub length-drop : (n : ℕ) (xs : List A) → length (drop n xs) ≡ length xs - n
  length-drop zero xs = omega arith
  length-drop (suc n) [] = omega arith
  length-drop (suc n) (x ∷ xs) = omega (arith, length-drop n xs)

  pub length-replicate : (n : ℕ) (a : A) → length (replicate n a) ≡ n
  length-replicate zero a = refl
  length-replicate (suc n) a = ap suc (length-replicate n a)

  -- The first element that passes a test: a loop that goes on at the others and returns at this one.
  abbrev pub find_first : (A → Bool) → List A → Option A
  find_first p [] = none
  find_first p (x ∷ xs) = let rest = find_first p xs in if p x then some x else rest

  -- An element that passes, with none before it.
  abbrev pub IsFirst : (A → Bool) → List A → A → Type ℓ
  IsFirst p xs x =
      (before : List A) × (after : List A) × (xs ≡ before ++ (x ∷ after))
      × All (λ y. p y ≡ false) before
      × (p x ≡ true)

  IsFirst-cons :
      (p : A → Bool) {y x : A} {xs : List A} → p y ≡ false → IsFirst p xs x → IsFirst p (y ∷ xs) x
  IsFirst-cons p {y} f (before, after, e, a, t) = (y ∷ before, after, ap (◌∷◌ y) e, (f, a), t)

  pub find_first-IsFirst :
      (p : A → Bool) (xs : List A) {x : A} → find_first p xs ≡ some x → IsFirst p xs x
  find_first-IsFirst p [] e = cc
  find_first-IsFirst p (y ∷ xs) {x} e = elim (Bool-cases (p y)) [
    | inl t ↦
        let same : y ≡ x = some_injective (rw t at e) in
        ([], xs, ap (λ (z : A). z ∷ xs) same, tt, subst (λ z. p z ≡ true) same t)
    | inr t ↦ IsFirst-cons p t (find_first-IsFirst p xs (rw t at e))
  ]
    where
      some_injective : {a b : A} → ◌≡◌ {A = Option A} (some a) (some b) → a ≡ b
      some_injective q = cc

  pub find_first-none :
      (p : A → Bool) (xs : List A) → find_first p xs ≡ none → All (λ y. p y ≡ false) xs
  find_first-none p [] e = tt
  find_first-none p (y ∷ xs) e = elim (Bool-cases (p y)) [
    | inl t ↦ absurd (some-ne-none (rw t at e))
    | inr t ↦ (t, find_first-none p xs (rw t at e))
  ]
    where
      some-ne-none : {a : A} → ◌≡◌ {A = Option A} (some a) none → ⊥
      some-ne-none q = cc
