-- ===== src/Prelude/Counting.antt =====
-- How many elements of a list pass a test, and what a write or a removal at a place does to that.
use Prim.Native.Nat.{ℕ, zero, suc, ◌+◌, ◌≤◌}
use mathlib.Core.Path.{◌≡◌, refl, ap}
use mathlib.Core.Bool.{Bool, true, false}
use mathlib.Core.Option.{some}
use mathlib.Core.List.{List, [], ◌∷◌, ◌++◌}
use mathlib.Core.Logic.{inl, inr}
use native.Mathlib.Omega.{arith}
use resenhazord.Prelude.Tests.{Bool-cases}
use resenhazord.Prelude.Lists.{get_elem?, set}

abbrev pub one_if : Bool → ℕ
one_if true = 1
one_if false = 0

module _ {ℓ} {A : Type ℓ} where
  unfoldable pub count_if : (A → Bool) → List A → ℕ
  count_if test [] = 0
  count_if test (x ∷ xs) = one_if (test x) + count_if test xs

  unfoldable pub remove_at : List A → ℕ → List A
  remove_at [] i = []
  remove_at (x ∷ xs) zero = xs
  remove_at (x ∷ xs) (suc i) = x ∷ remove_at xs i

  pub count_if-set :
      (test : A → Bool) (l : List A) (i : ℕ) (a b : A)
      → get_elem? l i ≡ some a
      → count_if test (set l i b) + one_if (test a) ≡ count_if test l + one_if (test b)
  unfolding count_if
  count_if-set test [] i a b h = cc
  count_if-set test (x ∷ l) zero a b h = ground (arith, h)
  count_if-set test (x ∷ l) (suc i) a b h = omega (arith, count_if-set test l i a b h)

  pub count_if-remove_at :
      (test : A → Bool) (l : List A) (i : ℕ) (a : A)
      → get_elem? l i ≡ some a
      → count_if test (remove_at l i) + one_if (test a) ≡ count_if test l
  unfolding count_if remove_at
  count_if-remove_at test [] i a h = cc
  count_if-remove_at test (x ∷ l) zero a h = ground (arith, h)
  count_if-remove_at test (x ∷ l) (suc i) a h = omega (arith, count_if-remove_at test l i a h)

  pub count_if-append :
      (test : A → Bool) (l : List A) (a : A)
      → count_if test (l ++ a ∷ []) ≡ count_if test l + one_if (test a)
  unfolding count_if
  count_if-append test [] a = ground arith
  count_if-append test (x ∷ l) a = omega (arith, count_if-append test l a)

  pub count_if-pos :
      (test : A → Bool) (l : List A) (i : ℕ) (a : A)
      → get_elem? l i ≡ some a
      → test a ≡ true
      → 1 ≤ count_if test l
  unfolding count_if
  count_if-pos test [] i a h t = cc
  count_if-pos test (x ∷ l) zero a h t = ground (arith, h, t)
  count_if-pos test (x ∷ l) (suc i) a h t = omega (arith, count_if-pos test l i a h t)

  pub count_if-found :
      (test : A → Bool) (l : List A)
      → 1 ≤ count_if test l
      → (i : ℕ) × (a : A) × (get_elem? l i ≡ some a) × (test a ≡ true)
  unfolding count_if
  count_if-found test [] h = absurd (omega (arith, h))
  count_if-found test (x ∷ l) h = elim (Bool-cases (test x)) [
    | inl here ↦ (0, x, refl, here)
    | inr other ↦
        let (i, a, found, passes) = count_if-found test l (omega (arith, h, ap one_if other)) in
        (suc i, a, found, passes)
  ]
