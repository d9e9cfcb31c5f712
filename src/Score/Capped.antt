-- ===== src/Score/Capped.antt =====
-- How many matches `apply_soft_cap` keeps.
use resenhazord.Prelude.{
  ℕ, suc, ◌+◌, ◌≤◌, ◌<◌, min, String, ◌≡◌, refl, sym, ap, ◌∙◌, ◌⊎◌, inl, inr, List, [], ◌∷◌, ◌++◌,
  arith, leb, Bool-cases, ◌==◌, length, length-append, string_eq, nat_eq, pair_eq,
}
use resenhazord.Prelude.Dict
use resenhazord.Score.{
  TmLiveMatch, Groups, group_of, group_of-cons, or_nil, add_match, groups_from, values,
  group_by_competition, key_of, key_leb, insert_group, sort_groups, pick, apply_soft_cap,
}
use resenhazord.Score.Groups.{
  of_name, IsOf, IsKeyed, get-here, get-later, group_of-groups_from, groups_from-IsKeyed,
}

abbrev pub total : List (List TmLiveMatch) → ℕ
total [] = 0
total (group ∷ groups) = length group + total groups

total-insert_group :
    (group : List TmLiveMatch) (groups : List (List TmLiveMatch))
    → total (insert_group group groups) ≡ length group + total groups
unfolding insert_group
total-insert_group group [] = refl
total-insert_group group (other ∷ groups) =
    let ih = total-insert_group group groups in
    elim (Bool-cases (key_leb (key_of group) (key_of other))) [
      | inl first ↦ rw (first, insert_group) refl
      | inr after ↦ rw (after, insert_group) (omega arith)
    ]

total-sort_groups : (groups : List (List TmLiveMatch)) → total (sort_groups groups) ≡ total groups
unfolding sort_groups
total-sort_groups [] = refl
total-sort_groups (group ∷ groups) =
    total-insert_group group (sort_groups groups)
    ∙ ap (λ n. length group + n) (total-sort_groups groups)

total-put :
    (groups : Groups) (key : String) (group : List TmLiveMatch)
    → total (values (Dict.put groups key group)) + length (group_of groups key)
      ≡ total (values groups) + length group
unfolding values Dict.put Dict.get
total-put [] key group = omega arith
total-put ((k, old) ∷ groups) key group =
    let ih = total-put groups key group in
    elim (Bool-cases (k == key)) [
      | inl same ↦ rw (group_of-cons k old groups key, same, Dict.put) (omega arith)
      | inr other ↦ rw (group_of-cons k old groups key, other, Dict.put) (omega arith)
    ]

total-add_match :
    (groups : Groups) (m : TmLiveMatch)
    → total (values (add_match groups m)) ≡ suc (total (values groups))
unfolding add_match
total-add_match groups m =
    let group = group_of groups m.competition_name in
    let grown = total-put groups m.competition_name (group ++ m ∷ []) in
    let one = length-append group (m ∷ []) in omega arith

total-groups_from :
    (matches : List TmLiveMatch) (groups : Groups)
    → total (values (groups_from groups matches)) ≡ total (values groups) + length matches
unfolding groups_from
total-groups_from [] groups = omega arith
total-groups_from (m ∷ matches) groups =
    let ih = total-groups_from matches (add_match groups m) in
    let one = total-add_match groups m in omega arith

length-pick :
    (soft_cap : ℕ) (groups : List (List TmLiveMatch)) (picked : List TmLiveMatch)
    → min soft_cap (length picked + total groups) ≤ length (pick soft_cap picked groups)
unfolding pick
length-pick soft_cap [] picked = omega arith
length-pick soft_cap (group ∷ groups) picked =
    let ih = length-pick soft_cap groups (picked ++ group) in
    let joined = length-append picked group in
    elim (Bool-cases (leb soft_cap (length picked))) [
      | inl full ↦ rw (full, pick) (ground (arith, full))
      | inr more ↦ rw (more, pick) (omega arith)
    ]

module _ (matches : List TmLiveMatch) where
  -- The groups are all the matches of a name.
  abbrev AreParts : List (List TmLiveMatch) → Type 0
  AreParts [] = Unit
  AreParts (group ∷ groups) = ((name : String) × (group ≡ of_name name matches)) × AreParts groups

  values-AreParts :
      (groups : Groups) → IsKeyed groups → IsOf matches "" groups → AreParts (values groups)
  unfolding values
  values-AreParts [] d h = omega arith
  values-AreParts ((key, group) ∷ groups) d h = (
    (key, h key group (get-here groups key group)),
    values-AreParts groups d.1 (λ k v found. h k v (get-later groups key group k v d.0 found)),
  )

  insert_group-AreParts :
      (group : List TmLiveMatch) (groups : List (List TmLiveMatch))
      → (name : String) × (group ≡ of_name name matches)
      → AreParts groups
      → AreParts (insert_group group groups)
  unfolding insert_group
  insert_group-AreParts group [] part parts = (part, parts)
  insert_group-AreParts group (other ∷ groups) part parts =
      elim (Bool-cases (key_leb (key_of group) (key_of other))) [
        | inl first ↦ rw (first, insert_group) (part, parts)
        | inr after ↦
            rw (after, insert_group) (parts.0, insert_group-AreParts group groups part parts.1)
      ]

  sort_groups-AreParts :
      (groups : List (List TmLiveMatch)) → AreParts groups → AreParts (sort_groups groups)
  unfolding sort_groups
  sort_groups-AreParts [] parts = parts
  sort_groups-AreParts (group ∷ groups) parts =
      insert_group-AreParts group (sort_groups groups) parts.0 (sort_groups-AreParts groups parts.1)

  -- Nothing is there, or what is there is fewer than the cap without the matches of one name.
  abbrev IsUnder : ℕ → List TmLiveMatch → Type 0
  IsUnder soft_cap kept =
      (kept ≡ []) ⊎ ((name : String) × (length kept < soft_cap + length (of_name name matches)))

  pick-IsUnder :
      (soft_cap : ℕ) (groups : List (List TmLiveMatch)) (picked : List TmLiveMatch)
      → AreParts groups
      → IsUnder soft_cap picked
      → IsUnder soft_cap (pick soft_cap picked groups)
  unfolding pick
  pick-IsUnder soft_cap [] picked parts under = under
  pick-IsUnder soft_cap (group ∷ groups) picked parts under =
      let (name, same) = parts.0 in
      let joined = length-append picked group in
      elim (Bool-cases (leb soft_cap (length picked))) [
        | inl full ↦ rw (full, pick) under
        | inr more ↦
            let few : length picked < soft_cap = ground (arith, more) in
            rw (more, pick)
              (pick-IsUnder soft_cap groups (picked ++ group) parts.1
                (inr (name, omega (arith, joined, few, ap length same))))
      ]

  -- The matches that are kept are at least as many as the cap, or all of them where there are fewer;
  -- and, unless none is kept, without the matches of one competition they are fewer than the cap: the
  -- loop stops with the competition that reaches it.
  pub length-apply_soft_cap :
      (soft_cap : ℕ)
      → (min soft_cap (length matches) ≤ length (apply_soft_cap matches soft_cap))
        × ((apply_soft_cap matches soft_cap ≡ [])
            ⊎ ((name : String) × (length (apply_soft_cap matches soft_cap)
                  < soft_cap + length (of_name name matches))))
  unfolding apply_soft_cap group_by_competition Dict.get
  length-apply_soft_cap soft_cap =
      let groups = groups_from [] matches in
      let kept = length-pick soft_cap (sort_groups (values groups)) [] in
      let all = total-sort_groups (values groups) ∙ total-groups_from matches [] in
      let of : IsOf matches "" groups =
        λ key group found. sym (ap or_nil found) ∙ group_of-groups_from matches [] key in
      let parts = values-AreParts groups (groups_from-IsKeyed matches [] (omega arith)) of in
      (
        omega (arith, kept, all),
        pick-IsUnder soft_cap (sort_groups (values groups)) []
            (sort_groups-AreParts (values groups) parts) (inl refl),
      )
