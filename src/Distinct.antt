-- ===== src/Distinct.antt =====
-- Lists in which nothing stands twice, and Python's and MongoDB's ways to build them.
use resenhazord.Prelude.{
  ◌≡◌, refl, inl, inr, Bool, false, ◌||◌, List, [], ◌∷◌, ◌++◌, arith, if◌then◌else◌, Bool-cases, Eq,
  ◌==◌, beq_self, beq_ne, string_eq, nat_eq, pair_eq,
}
use resenhazord.Command.Run.{contains}

module _ {ℓ} {A : Type ℓ} ⦃e : Eq A⦄ where
  abbrev pub AllDistinct : List A → Type 0
  AllDistinct [] = Unit
  AllDistinct (x ∷ xs) = (contains x xs ≡ false) × AllDistinct xs

  pub contains-append :
      (a : A) (xs : List A) (x : A) → contains a (xs ++ x ∷ []) ≡ contains a xs || x == a
  unfolding contains
  contains-append a [] x = ground arith
  contains-append a (y ∷ xs) x = ground (arith, contains-append a xs x)

module _ {ℓ} {A : Type ℓ} ⦃e : Eq A⦄ where
  pub append-AllDistinct :
      (xs : List A) (x : A) → AllDistinct xs → contains x xs ≡ false → AllDistinct (xs ++ x ∷ [])
  unfolding contains
  append-AllDistinct [] x h new = (refl, omega arith)
  append-AllDistinct (y ∷ xs) x h new =
      let other : (x == y) ≡ false = beq_ne x y (λ e. cc (beq_self y, new, e)) in
      (rw (contains-append y xs x, h.0) other, append-AllDistinct xs x h.1 (ground (arith, new)))

  -- One element of `$addToSet`; a key of `dict.fromkeys`.
  unfoldable pub add_to_set : List A → A → List A
  unfolding contains
  add_to_set xs x = if contains x xs then xs else xs ++ x ∷ []

  unfoldable pub add_all : List A → List A → List A
  unfolding add_to_set
  add_all xs [] = xs
  add_all xs (y ∷ ys) = add_all (add_to_set xs y) ys

  add_to_set-AllDistinct : (xs : List A) (x : A) → AllDistinct xs → AllDistinct (add_to_set xs x)
  unfolding add_to_set
  add_to_set-AllDistinct xs x h = elim (Bool-cases (contains x xs)) [
    | inl old ↦ rw (old, add_to_set) h
    | inr new ↦ rw (new, add_to_set) (append-AllDistinct xs x h new)
  ]

  pub add_all-AllDistinct : (ys xs : List A) → AllDistinct xs → AllDistinct (add_all xs ys)
  unfolding add_all
  add_all-AllDistinct [] xs h = h
  add_all-AllDistinct (y ∷ ys) xs h =
      add_all-AllDistinct ys (add_to_set xs y) (add_to_set-AllDistinct xs y h)

  -- What `$pull` leaves: the elements that fail a test.
  unfoldable pub without : (A → Bool) → List A → List A
  without test [] = []
  without test (x ∷ xs) = let rest = without test xs in if test x then rest else x ∷ rest

  contains-without :
      (test : A → Bool) (a : A) (xs : List A)
      → contains a xs ≡ false
      → contains a (without test xs) ≡ false
  unfolding contains without
  contains-without test a [] h = refl
  contains-without test a (x ∷ xs) h = elim (Bool-cases (test x)) [
    | inl e ↦ rw (e, without) (contains-without test a xs (ground (arith, h)))
    | inr e ↦ rw (e, without) (ground (arith, h, contains-without test a xs (ground (arith, h))))
  ]

  pub without-AllDistinct :
      (test : A → Bool) (xs : List A) → AllDistinct xs → AllDistinct (without test xs)
  unfolding without
  without-AllDistinct test [] h = h
  without-AllDistinct test (x ∷ xs) h = elim (Bool-cases (test x)) [
    | inl e ↦ rw (e, without) (without-AllDistinct test xs h.1)
    | inr e ↦ rw (e, without) (contains-without test x xs h.0, without-AllDistinct test xs h.1)
  ]
