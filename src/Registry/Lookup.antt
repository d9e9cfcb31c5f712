-- ===== src/Registry/Lookup.antt =====
-- Which command `get_strategy` finds.
use resenhazord.Prelude.{
  ℕ, zero, suc, ◌+◌, ◌<◌, String, ◌≡◌, refl, subst, inl, inr, true, Option, none, some, List, [],
  ◌∷◌, arith, Bool-cases, string_eq, get_elem?,
}
use resenhazord.Command.Run.{Command}
use resenhazord.Registry.{is_candidate, first_match, first_named}

module _ {W : Type 0} (text : String) where
  -- A place of a list whose command matches, counted from `i`; each earlier one that matches is the
  -- candidate.
  pub record FirstAt (candidate : Option ℕ) (i : ℕ) (l : List (Command W)) (k : ℕ) : Type 0 where
    pub place : ℕ
    pub cmd : Command W
    pub offset : k ≡ i + place
    pub at : get_elem? l place ≡ some cmd
    pub hit : cmd.matches text ≡ true
    pub earlier :
        (n : ℕ) (c : Command W)
        → n < place
        → get_elem? l n ≡ some c
        → c.matches text ≡ true
        → is_candidate candidate (i + n) ≡ true

  earlier-cons :
      (candidate : Option ℕ) (i : ℕ) (x : Command W) (l : List (Command W)) (k : ℕ)
      → (x.matches text ≡ true → is_candidate candidate i ≡ true)
      → (f : FirstAt candidate (suc i) l k) (n : ℕ) (c : Command W) → n < suc f.place
      → get_elem? (x ∷ l) n ≡ some c
      → c.matches text ≡ true
      → is_candidate candidate (i + n) ≡ true
  earlier-cons candidate i x l k first f zero c small e hit =
      subst (λ j. is_candidate candidate j ≡ true) (omega arith) (first (cc (e, hit)))
  earlier-cons candidate i x l k first f (suc n) c small e hit =
      subst (λ j. is_candidate candidate j ≡ true) (omega arith) (f.earlier n c (omega arith) e hit)

  FirstAt-cons :
      (candidate : Option ℕ) (i : ℕ) (x : Command W) (l : List (Command W)) (k : ℕ)
      → (x.matches text ≡ true → is_candidate candidate i ≡ true)
      → FirstAt candidate (suc i) l k
      → FirstAt candidate i (x ∷ l) k
  FirstAt-cons candidate i x l k first f = record {
    place = suc f.place;
    cmd = f.cmd;
    offset = omega (arith, f.offset);
    at = f.at;
    hit = f.hit;
    earlier = earlier-cons candidate i x l k first f;
  }

  pub first_match-some :
      (candidate : Option ℕ) (i : ℕ) (l : List (Command W)) (k : ℕ)
      → first_match candidate text i l ≡ some k
      → FirstAt candidate i l k
  unfolding first_match
  first_match-some candidate i [] k h = cc
  first_match-some candidate i (x ∷ l) k h = elim (Bool-cases (is_candidate candidate i)) [
    | inl skip ↦
        FirstAt-cons candidate i x l k (λ e. skip)
          (first_match-some candidate (suc i) l k (rw skip at h))
    | inr other ↦ elim (Bool-cases (x.matches text)) [
      | inl hit ↦ record {
        place = 0;
        cmd = x;
        offset = ground (arith, h, other, hit);
        at = refl;
        hit = hit;
        earlier = λ n c small. absurd (omega arith);
      }
      | inr miss ↦
          FirstAt-cons candidate i x l k (λ e. cc)
            (first_match-some candidate (suc i) l k (rw (other, miss) at h))
    ]
  ]

  -- The first loop finds nothing: whatever matches is the candidate.
  pub first_match-none :
      (candidate : Option ℕ) (i : ℕ) (l : List (Command W)) (n : ℕ) (c : Command W)
      → first_match candidate text i l ≡ none
      → get_elem? l n ≡ some c
      → c.matches text ≡ true
      → is_candidate candidate (i + n) ≡ true
  unfolding first_match
  first_match-none candidate i [] n c h e hit = cc
  first_match-none candidate i (x ∷ l) zero c h e hit =
      let head : is_candidate candidate i ≡ true = ground (arith, h, e, hit) in
      subst (λ j. is_candidate candidate j ≡ true) {x = i} (omega arith) head
  first_match-none candidate i (x ∷ l) (suc n) c h e hit =
      subst (λ j. is_candidate candidate j ≡ true) (omega arith)
        (first_match-none candidate (suc i) l n c (ground (arith, h)) e hit)

  pub first_named-none :
      (i : ℕ) (l : List (Command W)) (n : ℕ) (c : Command W)
      → first_named text i l ≡ none
      → get_elem? l n ≡ some c
      → (c.parse text).command_name ≡ ""
  unfolding first_named
  first_named-none i [] n c h e = cc
  first_named-none i (x ∷ l) zero c h e =
      ground (arith, h, e, string_eq.beq_iff (x.parse text).command_name "")
  first_named-none i (x ∷ l) (suc n) c h e = first_named-none (suc i) l n c (ground (arith, h)) e
