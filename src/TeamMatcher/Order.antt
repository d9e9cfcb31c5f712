-- ===== src/TeamMatcher/Order.antt =====
-- The order in which the pairs of clubs are tried.
use resenhazord.Prelude.{
  ℕ, String, ◌≡◌, sym, subst, inl, inr, true, false, List, [], ◌∷◌, ◌++◌, arith, Bool-cases, ◌==◌,
  eq_of_beq, string_eq, nat_eq, pair_eq,
}
use resenhazord.Command.Run.{contains}
use resenhazord.TeamMatcher.{
  Score, Entry, score_leb, score_of, comes_first, insert_scored, sort_scored, with_candidates,
  entries,
}

pub score_leb_refl : (a : Score) → score_leb a a ≡ true
score_leb_refl a = ground arith

pub score_leb_trans :
    (a b c : Score) → score_leb a b ≡ true → score_leb b c ≡ true → score_leb a c ≡ true
score_leb_trans a b c h g = ground arith

score_leb_total : (a b : Score) → score_leb a b ≡ false → score_leb b a ≡ true
score_leb_total a b h = ground arith

abbrev pub All : (Entry → Type 0) → List Entry → Type 0
All P [] = Unit
All P (e ∷ l) = P e × All P l

pub All-map :
    {P Q : Entry → Type 0} (l : List Entry) → ((e : Entry) → P e → Q e) → All P l → All Q l
All-map [] f h = h
All-map (e ∷ l) f h = (f e h.0, All-map l f h.1)

module _ (score : String → String → Score) (min_score : ℕ) where
  abbrev pub IsBelow : Entry → Entry → Type 0
  IsBelow e f = score_leb (score_of score min_score f) (score_of score min_score e) ≡ true

  abbrev pub IsDescending : List Entry → Type 0
  IsDescending [] = Unit
  IsDescending (e ∷ l) = All (IsBelow e) l × IsDescending l

  abbrev pub score' : Entry → Score
  score' = score_of score min_score

  equal-IsBelow : (e f : Entry) → (score' e == score' f) ≡ true → IsBelow e f × IsBelow f e
  equal-IsBelow e f h =
      let same : score' e ≡ score' f = eq_of_beq (score' e) (score' f) h in
      (
        subst (λ b. score_leb (score' f) b ≡ true) (sym same) (score_leb_refl (score' f)),
        subst (λ b. score_leb b (score' f) ≡ true) (sym same) (score_leb_refl (score' f)),
      )

  comes_first-IsBelow : (e f : Entry) → comes_first score min_score e f ≡ true → IsBelow e f
  unfolding comes_first
  comes_first-IsBelow e f h = elim (Bool-cases (score' e == score' f)) [
    | inl same ↦ (equal-IsBelow e f same).0
    | inr other ↦ rw (other, comes_first) at h
  ]

  not_first-IsBelow : (e f : Entry) → comes_first score min_score e f ≡ false → IsBelow f e
  unfolding comes_first
  not_first-IsBelow e f h = elim (Bool-cases (score' e == score' f)) [
    | inl same ↦ (equal-IsBelow e f same).1
    | inr other ↦ score_leb_total (score' f) (score' e) (rw (other, comes_first) at h)
  ]

  -- What holds of all entries holds of them in any order.
  insert_scored-All :
      (P : Entry → Type 0) (e : Entry) (l : List Entry)
      → P e
      → All P l
      → All P (insert_scored score min_score e l)
  unfolding insert_scored
  insert_scored-All P e [] p h = (p, h)
  insert_scored-All P e (f ∷ l) p h = elim (Bool-cases (comes_first score min_score e f)) [
    | inl first ↦ rw (first, insert_scored) (p, h)
    | inr after ↦ rw (after, insert_scored) (h.0, insert_scored-All P e l p h.1)
  ]

  All-insert_scored :
      (P : Entry → Type 0) (e : Entry) (l : List Entry)
      → All P (insert_scored score min_score e l)
      → P e × All P l
  unfolding insert_scored
  All-insert_scored P e [] h = h
  All-insert_scored P e (f ∷ l) h = elim (Bool-cases (comes_first score min_score e f)) [
    | inl first ↦ let all : All P (e ∷ f ∷ l) = rw (first, insert_scored) at h in all
    | inr after ↦
        let all : All P (f ∷ insert_scored score min_score e l) = rw (after, insert_scored) at h in
        let (p, rest) = All-insert_scored P e l all.1 in (p, (all.0, rest))
  ]

  pub All-sort_scored :
      (P : Entry → Type 0) (l : List Entry) → All P (sort_scored score min_score l) → All P l
  unfolding sort_scored
  All-sort_scored P [] h = h
  All-sort_scored P (e ∷ l) h =
      let (p, rest) = All-insert_scored P e (sort_scored score min_score l) h in
      (p, All-sort_scored P l rest)

  insert_scored-IsDescending :
      (e : Entry) (l : List Entry)
      → IsDescending l
      → IsDescending (insert_scored score min_score e l)
  unfolding insert_scored
  insert_scored-IsDescending e [] h = (omega arith, h)
  insert_scored-IsDescending e (f ∷ l) h = elim (Bool-cases (comes_first score min_score e f)) [
    | inl first ↦
        let above = comes_first-IsBelow e f first in
        rw (first, insert_scored)
          (
            (
              above,
              All-map l (λ x q. score_leb_trans (score' x) (score' f) (score' e) q above) h.0,
            ),
            h,
          )
    | inr after ↦
        rw (after, insert_scored)
          (
            insert_scored-All (IsBelow f) e l (not_first-IsBelow e f after) h.0,
            insert_scored-IsDescending e l h.1,
          )
  ]

  pub sort_scored-IsDescending : (l : List Entry) → IsDescending (sort_scored score min_score l)
  unfolding sort_scored
  sort_scored-IsDescending [] = omega arith
  sort_scored-IsDescending (e ∷ l) =
      insert_scored-IsDescending e (sort_scored score min_score l) (sort_scored-IsDescending l)

  All-append : (P : Entry → Type 0) (l m : List Entry) → All P (l ++ m) → All P l × All P m
  All-append P [] m h = (omega arith, h)
  All-append P (e ∷ l) m h = let (a, b) = All-append P l m h.1 in ((h.0, a), b)

  All-with_candidates :
      (P : Entry → Type 0) (name c : String) (candidates : List String)
      → All P (with_candidates score min_score name candidates)
      → contains c candidates ≡ true
      → P (name, c)
  unfolding contains
  All-with_candidates P name c [] h e = cc
  All-with_candidates P name c (x ∷ candidates) h e = elim (Bool-cases (x == c)) [
    | inl same ↦ subst (λ j. P (name, j)) (eq_of_beq x c same) h.0
    | inr other ↦ All-with_candidates P name c candidates h.1 (rw other at e)
  ]

  -- Every name is tried with every candidate.
  pub All-entries :
      (P : Entry → Type 0) (name c : String) (names candidates : List String)
      → All P (entries score min_score names candidates)
      → contains name names ≡ true
      → contains c candidates ≡ true
      → P (name, c)
  unfolding contains
  All-entries P name c [] candidates h e g = cc
  All-entries P name c (x ∷ names) candidates h e g =
      let (first, later) = All-append P (with_candidates score min_score x candidates) _ h in
      elim (Bool-cases (x == name)) [
        | inl same ↦
            subst (λ j. P (j, c)) (eq_of_beq x name same)
              (All-with_candidates P x c candidates first g)
        | inr other ↦ All-entries P name c names candidates later (rw other at e) g
      ]
