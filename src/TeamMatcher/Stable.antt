-- ===== src/TeamMatcher/Stable.antt =====
-- The pairing is a stable matching: no two clubs that like each other better are left apart.
use resenhazord.Prelude.{
  ℕ, ◌≤◌, String, ◌≡◌, sym, ap, ◌∙◌, subst, ◌⊎◌, inl, inr, true, false, none, some, List, [], ◌∷◌,
  arith, ltb, Bool-cases, Option-cases, string_eq, ◌==◌, eq_of_beq, nat_eq, pair_eq,
}
use resenhazord.Prelude.Dict
use resenhazord.Prelude.Dict.{Dict, get-put-some, get-put_self, get-put_ne, get-empty}
use resenhazord.Command.Run.{contains}
use resenhazord.Parser.{has_option}
use resenhazord.TeamMatcher.{Score, Entry, entries, sort_scored, is_skipped, pair_up, pair}
use resenhazord.TeamMatcher.Order.{
  score_leb_refl, All, IsBelow, IsDescending, score', All-sort_scored, sort_scored-IsDescending,
  All-entries,
}

abbrev pub Pairs : Type 0
Pairs = Dict String String

abbrev pub Grows : Pairs → Pairs → Type 0
Grows p q = (n c : String) → Dict.get p n ≡ some c → Dict.get q n ≡ some c

has_option-none : (p : Pairs) (n : String) → has_option p n ≡ false → Dict.get p n ≡ none
has_option-none p n h = elim (Option-cases (Dict.get p n)) [
  | inl e ↦ e
  | inr (c, e) ↦ absurd (cc (rw (e, has_option) at h))
]

put-Grows : (p : Pairs) (k v : String) → Dict.get p k ≡ none → Grows p (Dict.put p k v)
put-Grows p k v free n c h =
    get-put_ne p k n v (λ same. cc (subst (λ j. Dict.get p j ≡ some c) (sym same) h, free)) ∙ h

module _ (score : String → String → Score) (min_score : ℕ) where
  abbrev pub IsEnough : Entry → Type 0
  IsEnough e = ltb (score e.0 e.1).0 min_score ≡ false

  -- One of the two has a partner at least as good as the other.
  abbrev pub IsSettled : Pairs → Entry → Type 0
  IsSettled p e =
      ((c : String) × (Dict.get p e.0 ≡ some c) × IsBelow score min_score (e.0, c) e)
      ⊎ ((n : String) × (Dict.get p n ≡ some e.1) × IsBelow score min_score (n, e.1) e)

  abbrev pub Settles : Pairs → Entry → Type 0
  Settles p e = IsEnough e → IsSettled p e

  abbrev pub IsFloor : Pairs → Entry → Type 0
  IsFloor p f = (n c : String) → Dict.get p n ≡ some c → IsBelow score min_score (n, c) f

  pub record IsMatching (p : Pairs) (taken : List String) : Type 0 where
    pub held : (n c : String) → Dict.get p n ≡ some c → contains c taken ≡ true
    pub owned : (c : String) → contains c taken ≡ true → (n : String) × (Dict.get p n ≡ some c)
    pub single : (n m c : String) → Dict.get p n ≡ some c → Dict.get p m ≡ some c → n ≡ m
    pub enough : (n c : String) → Dict.get p n ≡ some c → IsEnough (n, c)

  empty-IsMatching : IsMatching [] []
  unfolding contains
  empty-IsMatching = record {
    held = λ n c h. absurd (cc (get-empty n, h));
    owned = λ c h. absurd (cc h);
    single = λ n m c h g. absurd (cc (get-empty n, h));
    enough = λ n c h. absurd (cc (get-empty n, h));
  }

  -- What the guard of the loop says of an entry that is taken.
  not_skipped :
      (e : Entry) (p : Pairs) (taken : List String)
      → is_skipped score min_score e p taken ≡ false
      → IsEnough e × (Dict.get p e.0 ≡ none) × (contains e.1 taken ≡ false)
  unfolding is_skipped
  not_skipped e p taken h =
      (ground (arith, h), has_option-none p e.0 (ground (arith, h)), ground (arith, h))

  put-IsMatching :
      (e : Entry) (p : Pairs) (taken : List String)
      → IsMatching p taken
      → is_skipped score min_score e p taken ≡ false
      → IsMatching (Dict.put p e.0 e.1) (e.1 ∷ taken)
  unfolding contains
  put-IsMatching e p taken h chosen =
      let (enough, free, untaken) = not_skipped e p taken chosen in
      record {
        held = λ n c g. elim (get-put-some p e.0 n g) [
          | inl (same, this) ↦ ground (arith, (string_eq.beq_iff e.1 c).1 this)
          | inr (ne, that) ↦ ground (arith, h.held n c that)
        ];
        owned = λ c g. elim (Bool-cases (e.1 == c)) [
          | inl same ↦ (e.0, get-put_self p e.0 e.1 ∙ ap some (eq_of_beq e.1 c same))
          | inr other ↦
              let (n, there) = h.owned c (rw other at g) in (n, put-Grows p e.0 e.1 free n c there)
        ];
        single = λ n m c g k. elim (get-put-some p e.0 n g) [
          | inl (n_is, c_is) ↦ elim (get-put-some p e.0 m k) [
            | inl (m_is, also) ↦ sym n_is ∙ m_is
            | inr (ne, that) ↦
                absurd (cc (h.held m c that, subst (λ j. contains j taken ≡ false) c_is untaken))
          ]
          | inr (n_ne, there) ↦ elim (get-put-some p e.0 m k) [
            | inl (m_is, c_is) ↦
                absurd (cc (h.held n c there, subst (λ j. contains j taken ≡ false) c_is untaken))
            | inr (m_ne, that) ↦ h.single n m c there that
          ]
        ];
        enough = λ n c g. elim (get-put-some p e.0 n g) [
          | inl (n_is, c_is) ↦
              subst (λ j. IsEnough (j, c)) n_is (subst (λ j. IsEnough (e.0, j)) c_is enough)
          | inr (ne, that) ↦ h.enough n c that
        ];
      }

  All-both :
      {P Q R : Entry → Type 0} (l : List Entry)
      → ((f : Entry) → P f → Q f → R f)
      → All P l
      → All Q l
      → All R l
  All-both [] h a b = omega arith
  All-both (f ∷ l) h a b = (h f a.0 b.0, All-both l h a.1 b.1)

  put-IsFloor :
      (e : Entry) (p : Pairs) (f : Entry)
      → IsBelow score min_score e f
      → IsFloor p f
      → IsFloor (Dict.put p e.0 e.1) f
  put-IsFloor e p f below h n c g = elim (get-put-some p e.0 n g) [
    | inl (n_is, c_is) ↦
        subst (λ j. IsBelow score min_score (j, c) f) n_is
          (subst (λ j. IsBelow score min_score (e.0, j) f) c_is below)
    | inr (ne, that) ↦ h n c that
  ]

  skipped-Settles :
      (e : Entry) (p : Pairs) (taken : List String)
      → IsMatching p taken
      → IsFloor p e
      → is_skipped score min_score e p taken ≡ true
      → Settles p e
  unfolding is_skipped
  skipped-Settles e p taken h floor skip enough = elim (Option-cases (Dict.get p e.0)) [
    | inr (c, there) ↦ inl (c, there, floor e.0 c there)
    | inl free ↦
        let (n, there) = h.owned e.1 (ground (arith, skip, enough, free)) in
        inr (n, there, floor n e.1 there)
  ]

  Settles-Grows : (p q : Pairs) (e : Entry) → Grows p q → Settles p e → Settles q e
  Settles-Grows p q e grows h enough = elim (h enough) [
    | inl (c, there, above) ↦ inl (c, grows e.0 c there, above)
    | inr (n, there, above) ↦ inr (n, grows n e.1 there, above)
  ]

  -- What the loop makes of the pairs that it begins with.
  pub record IsOutcome (l : List Entry) (p q : Pairs) : Type 0 where
    pub grown : Grows p q
    pub taken : List String
    pub matching : IsMatching q taken
    pub settled : All (Settles q) l

  pair_up-IsOutcome :
      (l : List Entry) (p : Pairs) (taken : List String)
      → IsMatching p taken
      → IsDescending score min_score l
      → All (IsFloor p) l
      → IsOutcome l p (pair_up score min_score l p taken)
  unfolding pair_up
  pair_up-IsOutcome [] p taken h d floor = record {
    grown = λ n c g. g;
    taken = taken;
    matching = h;
    settled = omega arith;
  }
  pair_up-IsOutcome (e ∷ l) p taken h d floor =
      elim (Bool-cases (is_skipped score min_score e p taken)) [
        | inl skip ↦
            let rest = pair_up-IsOutcome l p taken h d.1 floor.1 in
            rw (skip, pair_up)
              (record {
                grown = rest.grown;
                taken = rest.taken;
                matching = rest.matching;
                settled = (
                  Settles-Grows p (pair_up score min_score l p taken) e rest.grown
                      (skipped-Settles e p taken h floor.0 skip),
                  rest.settled,
                );
              })
        | inr chosen ↦
            let (enough, free, untaken) = not_skipped e p taken chosen in
            let p' : Pairs = Dict.put p e.0 e.1 in
            let rest =
              pair_up-IsOutcome l p' (e.1 ∷ taken) (put-IsMatching e p taken h chosen) d.1
                (All-both l (λ f below floor. put-IsFloor e p f below floor) d.0 floor.1) in
            rw (chosen, pair_up)
              (record {
                grown = λ n c g. rest.grown n c (put-Grows p e.0 e.1 free n c g);
                taken = rest.taken;
                matching = rest.matching;
                settled = (
                  (λ need. inl (
                    e.1,
                    rest.grown e.0 e.1 (get-put_self p e.0 e.1),
                    score_leb_refl (score' score min_score e),
                  )),
                  rest.settled,
                );
              })
      ]

  empty-IsFloor : (l : List Entry) → All (IsFloor []) l
  empty-IsFloor [] = omega arith
  empty-IsFloor (f ∷ l) = (λ n c h. absurd (cc (get-empty n, h)), empty-IsFloor l)

  -- The pairing of any two lists of clubs: no candidate is given to two names, every pair is alike
  -- enough, and the pairing is stable: where a name and a candidate of the lists are alike enough, the
  -- name has a candidate, or the candidate a name, that is at least as good for it as the other is.
  pub pair-IsStable :
      (names candidates : List String)
      → let q = pair score min_score names candidates in
        ((n m c : String) → Dict.get q n ≡ some c → Dict.get q m ≡ some c → n ≡ m)
        × ((n c : String) → Dict.get q n ≡ some c → min_score ≤ (score n c).0)
        × ((n c : String)
            → contains n names ≡ true
            → contains c candidates ≡ true
            → min_score ≤ (score n c).0
            → IsSettled q (n, c))
  unfolding pair
  pair-IsStable names candidates =
      let l = sort_scored score min_score (entries score min_score names candidates) in
      let out =
        pair_up-IsOutcome l [] [] empty-IsMatching
          (sort_scored-IsDescending score min_score (entries score min_score names candidates))
          (empty-IsFloor l) in
      (
        out.matching.single,
        (λ n c g. let e = out.matching.enough n c g in ground (arith, e)),
        (λ n c a b enough.
            let all =
              All-sort_scored score min_score (Settles (pair score min_score names candidates))
                (entries score min_score names candidates) out.settled in
            All-entries score min_score (Settles (pair score min_score names candidates)) n c names
              candidates all a b (ground (arith, enough))),
      )
