-- ===== src/SelfTime/Union.antt =====
-- The union of intervals, against a count of the instants that some interval covers.
use resenhazord.Prelude.{
  ℕ, zero, suc, ◌+◌, ◌-◌, ◌≤◌, ◌<◌, max, ◌≡◌, refl, ap, subst, inl, inr, Bool, true, false, ◌&&◌,
  ◌||◌, List, [], ◌∷◌, arith, ltb, leb, Bool-cases, one_if,
}
use resenhazord.SelfTime.{Interval, interval_leb, insert_interval, sorted, union_loop, union}

-- The instant is in one of the intervals: from their start on, before their end.
abbrev pub covers : ℕ → List Interval → Bool
covers t [] = false
covers t ((a, b) ∷ l) = leb a t && ltb t b || covers t l

-- How many of the `n` instants from `lo` on are covered.
unfoldable pub covered_count : ℕ → ℕ → List Interval → ℕ
covered_count lo zero l = 0
covered_count lo (suc n) l = one_if (covers lo l) + covered_count (lo + 1) n l

covered_count-split :
    (lo m n : ℕ) (l : List Interval)
    → covered_count lo (m + n) l ≡ covered_count lo m l + covered_count (lo + m) n l
unfolding covered_count
covered_count-split lo zero n l = ground arith
covered_count-split lo (suc m) n l =
    subst (λ k. covered_count lo k l ≡ covered_count lo (suc m) l + covered_count (lo + suc m) n l)
      {x = suc (m + n)} (omega arith)
      (omega (
        arith,
        covered_count-split (lo + 1) m n l,
        ap (λ k. covered_count k n l) {x = lo + 1 + m} {y = lo + suc m} (omega arith),
      ))

pub covered_count_le : (lo n : ℕ) (l : List Interval) → covered_count lo n l ≤ n
unfolding covered_count
covered_count_le lo zero l = omega arith
covered_count_le lo (suc n) l = ground (arith, covered_count_le (lo + 1) n l)

-- Where the instants of a range agree, so do the counts.
covered_count-agree :
    (lo n : ℕ) (l k : List Interval)
    → ((t : ℕ) → lo ≤ t → t < lo + n → covers t l ≡ covers t k)
    → covered_count lo n l ≡ covered_count lo n k
unfolding covered_count
covered_count-agree lo zero l k h = refl
covered_count-agree lo (suc n) l k h = ground (
  arith,
  h lo (omega arith) (omega arith),
  covered_count-agree (lo + 1) n l k (λ t a b. h t (omega arith) (omega arith)),
)

covered_count-none :
    (lo n : ℕ) (l : List Interval)
    → ((t : ℕ) → lo ≤ t → t < lo + n → covers t l ≡ false)
    → covered_count lo n l ≡ 0
unfolding covered_count
covered_count-none lo zero l h = refl
covered_count-none lo (suc n) l h = ground (
  arith,
  h lo (omega arith) (omega arith),
  covered_count-none (lo + 1) n l (λ t a b. h t (omega arith) (omega arith)),
)

covered_count-all :
    (lo n : ℕ) (l : List Interval)
    → ((t : ℕ) → lo ≤ t → t < lo + n → covers t l ≡ true)
    → covered_count lo n l ≡ n
unfolding covered_count
covered_count-all lo zero l h = refl
covered_count-all lo (suc n) l h = ground (
  arith,
  h lo (omega arith) (omega arith),
  covered_count-all (lo + 1) n l (λ t a b. h t (omega arith) (omega arith)),
)

-- Every start is at `a` or later; every end is at `b` or earlier.
abbrev pub StartFrom : ℕ → List Interval → Type 0
StartFrom a [] = Unit
StartFrom a ((c, d) ∷ l) = (a ≤ c) × StartFrom a l

abbrev pub EndBy : ℕ → List Interval → Type 0
EndBy b [] = Unit
EndBy b ((c, d) ∷ l) = (d ≤ b) × EndBy b l

abbrev pub IsSorted : List Interval → Type 0
IsSorted [] = Unit
IsSorted ((c, d) ∷ l) = StartFrom c l × IsSorted l

StartFrom-covers : (a t : ℕ) (l : List Interval) → StartFrom a l → t < a → covers t l ≡ false
StartFrom-covers a t [] h g = refl
StartFrom-covers a t ((c, d) ∷ l) (h, hs) g = ground (arith, StartFrom-covers a t l hs g)

module _ (c d : ℕ) (l : List Interval) (from : StartFrom c l) where
  -- The instants from `reached` on, where the next interval adds some.
  covered_count-grows :
      (reached n : ℕ)
      → max c reached < d
      → covered_count reached ((max c reached - reached) + ((d - max c reached) + n)) ((c, d) ∷ l)
        ≡ (d - max c reached) + covered_count d n l
  covered_count-grows reached n h =
      let top = max c reached in
      let all = (c, d) ∷ l in
      omega (
        arith,
        covered_count-split reached (top - reached) ((d - top) + n) all,
        covered_count-split (reached + (top - reached)) (d - top) n all,
        covered_count-none reached (top - reached) all
            (λ t a b. ground (arith, StartFrom-covers c t l from)),
        covered_count-all (reached + (top - reached)) (d - top) all (λ t a b. ground arith),
        ap (λ k. covered_count k n all) {x = reached + (top - reached) + (d - top)} {y = d}
            (omega arith),
        covered_count-agree d n all l (λ t a b. ground arith),
      )

  -- Where the next interval adds none, it covers nothing from `reached` on.
  covered_count-keeps :
      (reached n : ℕ)
      → d ≤ max c reached
      → covered_count reached n ((c, d) ∷ l) ≡ covered_count reached n l
  covered_count-keeps reached n h =
      covered_count-agree reached n ((c, d) ∷ l) l (λ t a b. ground arith)

union_loop-covered :
    (total reached n : ℕ) (l : List Interval)
    → IsSorted l
    → EndBy (reached + n) l
    → union_loop total reached l ≡ total + covered_count reached n l
unfolding union_loop
union_loop-covered total reached n [] h g =
    omega (arith, covered_count-none reached n [] (λ t a b. refl))
union_loop-covered total reached n ((c, d) ∷ l) (from, h) (by, g) =
    elim (Bool-cases (ltb (max c reached) d)) [
      | inl grows ↦
          let higher : max c reached < d = ground (arith, grows) in
          let left : ℕ = reached + n - d in
          let rest =
            union_loop-covered (total + (d - max c reached)) d left l h
              (subst (λ k. EndBy k l) {x = reached + n} (omega arith) g) in
          rw (grows, union_loop)
            (omega (
              arith,
              rest,
              covered_count-grows c d l from reached left higher,
              ap (λ k. covered_count reached k ((c, d) ∷ l)) {x = n}
                  {y = (max c reached - reached) + ((d - max c reached) + left)} (omega arith),
            ))
      | inr keeps ↦
          rw (keeps, union_loop)
            (omega (
              arith,
              union_loop-covered total reached n l h g,
              covered_count-keeps c d l from reached n (ground (arith, keeps)),
            ))
    ]

insert_interval-covers :
    (t : ℕ) (x : Interval) (l : List Interval) → covers t (insert_interval x l) ≡ covers t (x ∷ l)
unfolding insert_interval
insert_interval-covers t x [] = refl
insert_interval-covers t x (y ∷ l) = ground (arith, insert_interval-covers t x l)

sorted-covers : (t : ℕ) (l : List Interval) → covers t (sorted l) ≡ covers t l
unfolding sorted
sorted-covers t [] = refl
sorted-covers t (x ∷ l) = ground (arith, insert_interval-covers t x (sorted l), sorted-covers t l)

insert_interval-EndBy :
    (b : ℕ) (x : Interval) (l : List Interval) → x.1 ≤ b → EndBy b l → EndBy b (insert_interval x l)
unfolding insert_interval
insert_interval-EndBy b x [] h g = (h, g)
insert_interval-EndBy b x (y ∷ l) h (g, gs) = elim (Bool-cases (interval_leb x y)) [
  | inl first ↦ rw (first, insert_interval) (h, (g, gs))
  | inr later ↦ rw (later, insert_interval) (g, insert_interval-EndBy b x l h gs)
]

sorted-EndBy : (b : ℕ) (l : List Interval) → EndBy b l → EndBy b (sorted l)
unfolding sorted
sorted-EndBy b [] h = h
sorted-EndBy b (x ∷ l) (h, hs) = insert_interval-EndBy b x (sorted l) h (sorted-EndBy b l hs)

StartFrom-later : (a b : ℕ) (l : List Interval) → a ≤ b → StartFrom b l → StartFrom a l
StartFrom-later a b [] h g = g
StartFrom-later a b ((c, d) ∷ l) h (g, gs) = (omega arith, StartFrom-later a b l h gs)

insert_interval-StartFrom :
    (a : ℕ) (x : Interval) (l : List Interval)
    → a ≤ x.0
    → StartFrom a l
    → StartFrom a (insert_interval x l)
unfolding insert_interval
insert_interval-StartFrom a x [] h g = (h, g)
insert_interval-StartFrom a x (y ∷ l) h (g, gs) = elim (Bool-cases (interval_leb x y)) [
  | inl first ↦ rw (first, insert_interval) (h, (g, gs))
  | inr later ↦ rw (later, insert_interval) (g, insert_interval-StartFrom a x l h gs)
]

insert_interval-IsSorted :
    (x : Interval) (l : List Interval) → IsSorted l → IsSorted (insert_interval x l)
unfolding insert_interval
insert_interval-IsSorted x [] h = (h, h)
insert_interval-IsSorted x (y ∷ l) (h, hs) = elim (Bool-cases (interval_leb x y)) [
  | inl first ↦
      let before : x.0 ≤ y.0 = ground (arith, first) in
      rw (first, insert_interval) ((before, StartFrom-later x.0 y.0 l before h), (h, hs))
  | inr later ↦
      rw (later, insert_interval)
        (
          insert_interval-StartFrom y.0 x l (ground (arith, later)) h,
          insert_interval-IsSorted x l hs,
        )
]

sorted-IsSorted : (l : List Interval) → IsSorted (sorted l)
unfolding sorted
sorted-IsSorted [] = omega arith
sorted-IsSorted (x ∷ l) = insert_interval-IsSorted x (sorted l) (sorted-IsSorted l)

-- What `_union` adds up is the number of instants, from the start of the parent on, at which some
-- child ran, in whatever order the children ended and however they overlap. The `n` instants counted
-- reach as far as the last child.
pub union-covered :
    (intervals : List Interval) (start n : ℕ)
    → EndBy (start + n) intervals
    → union intervals start ≡ covered_count start n intervals
unfolding union
union-covered intervals start n h = omega (
  arith,
  union_loop-covered 0 start n (sorted intervals) (sorted-IsSorted intervals)
      (sorted-EndBy (start + n) intervals h),
  covered_count-agree start n (sorted intervals) intervals (λ t a b. sorted-covers t intervals),
)

pub union_le :
    (intervals : List Interval) (start end : ℕ)
    → EndBy end intervals
    → start ≤ end
    → start + union intervals start ≤ end
union_le intervals start end h g = omega (
  arith,
  union-covered intervals start (end - start)
      (subst (λ k. EndBy k intervals) {x = end} (omega arith) h),
  covered_count_le start (end - start) intervals,
)
