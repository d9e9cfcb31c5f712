-- ===== src/Score/Groups.antt =====
-- The groups of `group_by_competition`: each holds the matches of one name.
use resenhazord.Prelude.{
  String, ◌≡◌, refl, sym, ap, ◌∙◌, subst, ◌⊎◌, inl, inr, none, some, List, [], ◌∷◌, ◌++◌, arith,
  if◌then◌else◌, Bool-cases, ◌==◌, eq_of_beq, beq_self, beq_ne, append_assoc, append_nil, string_eq,
  nat_eq, pair_eq,
}
use resenhazord.Prelude.Dict
use resenhazord.Score.{TmLiveMatch, Groups, group_of, group_of-put, add_match, groups_from, values}

-- The matches of one competition, in their order.
unfoldable pub of_name : String → List TmLiveMatch → List TmLiveMatch
of_name name [] = []
of_name name (m ∷ matches) =
    let rest = of_name name matches in if m.competition_name == name then m ∷ rest else rest

pub of_name-append :
    (name : String) (xs ys : List TmLiveMatch)
    → of_name name (xs ++ ys) ≡ of_name name xs ++ of_name name ys
unfolding of_name
of_name-append name [] ys = refl
of_name-append name (m ∷ xs) ys = elim (Bool-cases (m.competition_name == name)) [
  | inl same ↦ rw (same, of_name) (ap (λ l. m ∷ l) (of_name-append name xs ys))
  | inr other ↦ rw (other, of_name) (of_name-append name xs ys)
]

of_name-of_name :
    (name other : String) (matches : List TmLiveMatch)
    → of_name name (of_name other matches) ≡ (if other == name then of_name other matches else [])
unfolding of_name
of_name-of_name name other [] = ground arith
of_name-of_name name other (m ∷ matches) =
    let ih = of_name-of_name name other matches in
    elim (Bool-cases (m.competition_name == other)) [
      | inl same ↦
          let equal : (m.competition_name == name) ≡ (other == name) =
            ap (λ s. s == name) (eq_of_beq m.competition_name other same) in
          elim (Bool-cases (other == name)) [
            | inl here ↦ rw (same, of_name, equal, here) (ap (λ l. m ∷ l) (rw here at ih))
            | inr there ↦ rw (same, of_name, equal, there) (rw there at ih)
          ]
      | inr away ↦ rw (away, of_name) ih
    ]

-- The groups of the matches are the matches of each competition.
group_of-add_match :
    (groups : Groups) (m : TmLiveMatch) (name : String)
    → group_of (add_match groups m) name ≡ group_of groups name ++ of_name name (m ∷ [])
unfolding add_match of_name
group_of-add_match groups m name =
    let groups' = group_of groups m.competition_name in
    elim (Bool-cases (m.competition_name == name)) [
      | inl same ↦
          rw (group_of-put groups m.competition_name (groups' ++ m ∷ []) name, same, add_match)
            (ap (λ s. group_of groups s ++ m ∷ []) (eq_of_beq m.competition_name name same))
      | inr other ↦
          rw (group_of-put groups m.competition_name (groups' ++ m ∷ []) name, other, add_match)
            (sym (append_nil (group_of groups name)))
    ]

pub group_of-groups_from :
    (matches : List TmLiveMatch) (groups : Groups) (name : String)
    → group_of (groups_from groups matches) name ≡ group_of groups name ++ of_name name matches
unfolding groups_from of_name
group_of-groups_from [] groups name = sym (append_nil (group_of groups name))
group_of-groups_from (m ∷ matches) groups name =
    group_of-groups_from matches (add_match groups m) name
    ∙ ap (λ l. l ++ of_name name matches) (group_of-add_match groups m name)
    ∙ append_assoc (group_of groups name) (of_name name (m ∷ [])) (of_name name matches)
    ∙ ap (λ l. group_of groups name ++ l) (sym (of_name-append name (m ∷ []) matches))

-- No key stands twice.
abbrev pub IsKeyed : Groups → Type 0
IsKeyed [] = Unit
IsKeyed ((key, group) ∷ groups) = (Dict.get groups key ≡ none) × IsKeyed groups

put-IsKeyed :
    (groups : Groups) (key : String) (group : List TmLiveMatch)
    → IsKeyed groups
    → IsKeyed (Dict.put groups key group)
unfolding Dict.put
put-IsKeyed [] key group h = (Dict.get-empty key, omega arith)
put-IsKeyed ((k, old) ∷ groups) key group h = elim (Bool-cases (k == key)) [
  | inl same ↦ rw (same, Dict.put) h
  | inr other ↦
      rw (other, Dict.put)
        (
          rw (Dict.get-put groups key k group, beq_ne key k (λ e. cc (beq_self k, other, e))) h.0,
          put-IsKeyed groups key group h.1,
        )
]

pub groups_from-IsKeyed :
    (matches : List TmLiveMatch) (groups : Groups)
    → IsKeyed groups
    → IsKeyed (groups_from groups matches)
unfolding groups_from add_match
groups_from-IsKeyed [] groups h = h
groups_from-IsKeyed (m ∷ matches) groups h =
    groups_from-IsKeyed matches (add_match groups m)
      (put-IsKeyed groups m.competition_name (group_of groups m.competition_name ++ m ∷ []) h)

-- Of one competition: nothing in any of the groups; the whole in one of them and nothing in the others.
abbrev pub IsAbsent : String → List (List TmLiveMatch) → Type 0
IsAbsent name [] = Unit
IsAbsent name (group ∷ groups) = (of_name name group ≡ []) × IsAbsent name groups

abbrev pub IsOnce : String → List TmLiveMatch → List (List TmLiveMatch) → Type 0
IsOnce name all [] = Unit
IsOnce name all (group ∷ groups) =
    ((of_name name group ≡ []) × IsOnce name all groups)
    ⊎ ((of_name name group ≡ all) × IsAbsent name groups)

-- The groups of a list, each of them the matches that `all` gives for its key.
pub get-here :
    (groups : Groups) (key : String) (group : List TmLiveMatch)
    → Dict.get ((key, group) ∷ groups) key ≡ some group
unfolding Dict.get
get-here groups key group = rw (beq_self key) refl

pub get-later :
    (groups : Groups) (key : String) (old : List TmLiveMatch) (name : String)
    (group : List TmLiveMatch)
    → Dict.get groups key ≡ none
    → Dict.get groups name ≡ some group
    → Dict.get ((key, old) ∷ groups) name ≡ some group
unfolding Dict.get
get-later groups key old name group fresh found = elim (Bool-cases (key == name)) [
  | inl same ↦ cc (fresh, found, ap (Dict.get groups) (eq_of_beq key name same))
  | inr other ↦ rw other found
]

module _ (matches : List TmLiveMatch) (name : String) where
  abbrev pub IsOf : Groups → Type 0
  IsOf groups =
      (key : String) (group : List TmLiveMatch)
      → Dict.get groups key ≡ some group
      → group ≡ of_name key matches

  of_group :
      (groups : Groups) (key : String) (group : List TmLiveMatch)
      → IsOf ((key, group) ∷ groups)
      → of_name name group ≡ (if key == name then of_name key matches else [])
  of_group groups key group h =
      rw (h key group (get-here groups key group)) (of_name-of_name name key matches)

  values-IsAbsent :
      (groups : Groups)
      → IsKeyed groups
      → IsOf groups
      → Dict.get groups name ≡ none
      → IsAbsent name (values groups)
  unfolding values Dict.get
  values-IsAbsent [] d h out = omega arith
  values-IsAbsent ((key, group) ∷ groups) d h out =
      let later : IsOf groups = λ k v found. h k v (get-later groups key group k v d.0 found) in
      let at = of_group groups key group h in
      elim (Bool-cases (key == name)) [
        | inl same ↦ cc (rw same at out)
        | inr other ↦ (rw other at at, values-IsAbsent groups d.1 later (rw other at out))
      ]

  pub values-IsOnce :
      (groups : Groups)
      → IsKeyed groups
      → IsOf groups
      → IsOnce name (of_name name matches) (values groups)
  unfolding values
  values-IsOnce [] d h = omega arith
  values-IsOnce ((key, group) ∷ groups) d h =
      let later : IsOf groups = λ k v found. h k v (get-later groups key group k v d.0 found) in
      let at = of_group groups key group h in
      elim (Bool-cases (key == name)) [
        | inl same ↦
            let equal : key ≡ name = eq_of_beq key name same in
            inr (
              (rw same at at) ∙ ap (λ s. of_name s matches) equal,
              values-IsAbsent groups d.1 later (subst (λ s. Dict.get groups s ≡ none) equal d.0),
            )
        | inr other ↦ inl (rw other at at, values-IsOnce groups d.1 later)
      ]
