-- ===== src/Score/Whole.antt =====
-- What `apply_soft_cap` keeps of each competition.
use resenhazord.Prelude.{
  ℕ, String, ◌≡◌, refl, sym, ap, ◌∙◌, ◌⊎◌, inl, inr, List, [], ◌∷◌, ◌++◌, arith, leb, Bool-cases,
  length, append_nil, string_eq, nat_eq, pair_eq,
}
use resenhazord.Prelude.Dict
use resenhazord.Score.{
  TmLiveMatch, or_nil, groups_from, values, group_by_competition, key_of, key_leb, insert_group,
  sort_groups, pick, apply_soft_cap,
}
use resenhazord.Score.Groups.{
  of_name, of_name-append, IsAbsent, IsOnce, IsOf, values-IsOnce, group_of-groups_from,
  groups_from-IsKeyed,
}

module _ (name : String) where
  insert_group-IsAbsent :
      (group : List TmLiveMatch) (groups : List (List TmLiveMatch))
      → of_name name group ≡ []
      → IsAbsent name groups
      → IsAbsent name (insert_group group groups)
  unfolding insert_group
  insert_group-IsAbsent group [] h absent = (h, absent)
  insert_group-IsAbsent group (other ∷ groups) h absent =
      elim (Bool-cases (key_leb (key_of group) (key_of other))) [
        | inl first ↦ rw (first, insert_group) (h, absent)
        | inr after ↦
            rw (after, insert_group) (absent.0, insert_group-IsAbsent group groups h absent.1)
      ]

  sort_groups-IsAbsent :
      (groups : List (List TmLiveMatch)) → IsAbsent name groups → IsAbsent name (sort_groups groups)
  unfolding sort_groups
  sort_groups-IsAbsent [] absent = absent
  sort_groups-IsAbsent (group ∷ groups) absent =
      insert_group-IsAbsent group (sort_groups groups) absent.0
        (sort_groups-IsAbsent groups absent.1)

  module _ (all : List TmLiveMatch) where
    insert_group-IsOnce_whole :
        (group : List TmLiveMatch) (groups : List (List TmLiveMatch))
        → of_name name group ≡ all
        → IsAbsent name groups
        → IsOnce name all (insert_group group groups)
    unfolding insert_group
    insert_group-IsOnce_whole group [] h absent = inr (h, absent)
    insert_group-IsOnce_whole group (other ∷ groups) h absent =
        elim (Bool-cases (key_leb (key_of group) (key_of other))) [
          | inl first ↦ rw (first, insert_group) (inr (h, absent))
          | inr after ↦
              rw (after, insert_group)
                (inl (absent.0, insert_group-IsOnce_whole group groups h absent.1))
        ]

    insert_group-IsOnce :
        (group : List TmLiveMatch) (groups : List (List TmLiveMatch))
        → of_name name group ≡ []
        → IsOnce name all groups
        → IsOnce name all (insert_group group groups)
    unfolding insert_group
    insert_group-IsOnce group [] h once = inl (h, once)
    insert_group-IsOnce group (other ∷ groups) h once =
        elim (Bool-cases (key_leb (key_of group) (key_of other))) [
          | inl first ↦ rw (first, insert_group) (inl (h, once))
          | inr after ↦
              rw (after, insert_group)
                (elim once [
                  | inl (out, later) ↦ inl (out, insert_group-IsOnce group groups h later)
                  | inr (here, absent) ↦ inr (here, insert_group-IsAbsent group groups h absent)
                ])
        ]

    sort_groups-IsOnce :
        (groups : List (List TmLiveMatch))
        → IsOnce name all groups
        → IsOnce name all (sort_groups groups)
    unfolding sort_groups
    sort_groups-IsOnce [] once = once
    sort_groups-IsOnce (group ∷ groups) once = elim once [
      | inl (out, later) ↦
          insert_group-IsOnce group (sort_groups groups) out (sort_groups-IsOnce groups later)
      | inr (here, absent) ↦
          insert_group-IsOnce_whole group (sort_groups groups) here
            (sort_groups-IsAbsent groups absent)
    ]

  of_name-pick :
      (soft_cap : ℕ) (groups : List (List TmLiveMatch)) (picked : List TmLiveMatch)
      → IsAbsent name groups
      → of_name name (pick soft_cap picked groups) ≡ of_name name picked
  unfolding pick
  of_name-pick soft_cap [] picked absent = refl
  of_name-pick soft_cap (group ∷ groups) picked absent =
      elim (Bool-cases (leb soft_cap (length picked))) [
        | inl full ↦ rw (full, pick) refl
        | inr more ↦
            rw (more, pick)
              (of_name-pick soft_cap groups (picked ++ group) absent.1
                ∙ of_name-append name picked group
                ∙ ap (λ l. of_name name picked ++ l) absent.0
                ∙ append_nil (of_name name picked))
      ]

  pick-whole :
      (soft_cap : ℕ) (all : List TmLiveMatch) (groups : List (List TmLiveMatch))
      (picked : List TmLiveMatch)
      → of_name name picked ≡ []
      → IsOnce name all groups
      → (of_name name (pick soft_cap picked groups) ≡ all)
        ⊎ (of_name name (pick soft_cap picked groups) ≡ [])
  unfolding pick
  pick-whole soft_cap all [] picked nothing once = inr nothing
  pick-whole soft_cap all (group ∷ groups) picked nothing once =
      let joined = of_name-append name picked group in
      elim (Bool-cases (leb soft_cap (length picked))) [
        | inl full ↦ rw (full, pick) (inr nothing)
        | inr more ↦
            rw (more, pick)
              (elim once [
                | inl (out, later) ↦
                    pick-whole soft_cap all groups (picked ++ group) (rw (nothing, out) at joined)
                      later
                | inr (here, absent) ↦ inl (
                    of_name-pick soft_cap groups (picked ++ group) absent
                    ∙ rw (nothing, here) at joined)
              ])
      ]

-- A competition is shown as a whole or not at all: the matches of a name that are kept are all matches
-- of that name, in their order, or none.
pub apply_soft_cap-whole :
    (matches : List TmLiveMatch) (soft_cap : ℕ) (name : String)
    → (of_name name (apply_soft_cap matches soft_cap) ≡ of_name name matches)
      ⊎ (of_name name (apply_soft_cap matches soft_cap) ≡ [])
unfolding apply_soft_cap group_by_competition of_name Dict.get
apply_soft_cap-whole matches soft_cap name =
    let groups = groups_from [] matches in
    let of : IsOf matches name groups =
      λ key group found. sym (ap or_nil found) ∙ group_of-groups_from matches [] key in
    pick-whole name soft_cap (of_name name matches) (sort_groups (values groups)) [] refl (
      sort_groups-IsOnce name (of_name name matches) (values groups)
        (values-IsOnce matches name groups (groups_from-IsKeyed matches [] (omega arith)) of))
