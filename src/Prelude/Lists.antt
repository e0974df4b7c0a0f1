-- ===== src/Prelude/Lists.antt =====
-- Lists over native numbers, under the library's names.
use Prim.Native.Nat.{ℕ, zero, suc, ◌+◌, ◌<◌}
use mathlib.Core.Path.{◌≡◌, refl, ap}
use mathlib.Core.Logic.{◌⊎◌, inl, inr}
use mathlib.Core.List.{List, [], ◌∷◌, ◌++◌}
use native.Mathlib.Omega.{arith}

module _ {ℓ} {A : Type ℓ} where
  abbrev pub length : List A → ℕ
  length [] = 0
  length (x ∷ xs) = suc (length xs)

  abbrev pub take : ℕ → List A → List A
  take zero xs = []
  take (suc n) [] = []
  take (suc n) (x ∷ xs) = x ∷ take n xs

  abbrev pub drop : ℕ → List A → List A
  drop zero xs = xs
  drop (suc n) [] = []
  drop (suc n) (x ∷ xs) = drop n xs

  pub length-append : (xs ys : List A) → length (xs ++ ys) ≡ length xs + length ys
  length-append [] ys = omega arith
  length-append (x ∷ xs) ys = omega (arith, length-append xs ys)

  -- A list is too short, or has a front of some length.
  pub split-cases :
      (n : ℕ) (xs : List A)
      → (length xs < n)
        ⊎ ((front : List A) × (back : List A) × (xs ≡ front ++ back) × (length front ≡ n))
  split-cases zero xs = inr ([], xs, refl, refl)
  split-cases (suc n) [] = inl (omega arith)
  split-cases (suc n) (x ∷ xs) = elim (split-cases n xs) [
    | inl short ↦ inl (omega arith)
    | inr (front, back, e, l) ↦ inr (x ∷ front, back, ap (◌∷◌ x) e, omega arith)
  ]

  pub take-append : (xs ys : List A) → take (length xs) (xs ++ ys) ≡ xs
  take-append [] ys = refl
  take-append (x ∷ xs) ys = ap (◌∷◌ x) (take-append xs ys)

  pub drop-append : (xs ys : List A) → drop (length xs) (xs ++ ys) ≡ ys
  drop-append [] ys = refl
  drop-append (x ∷ xs) ys = drop-append xs ys
