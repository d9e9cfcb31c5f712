-- ===== src/Lineup/Assigned.antt =====
-- Nobody plays twice.
use resenhazord.Prelude.{
  ℕ, zero, suc, ◌+◌, ◌≤◌, String, ◌≡◌, refl, subst, inl, inr, Bool, false, Option, none, some, List,
  [], ◌∷◌, arith, Bool-cases, Option-cases, ◌==◌, eq_of_beq, length, get_elem?, set, replicate,
  one_if, count_if, string_eq, nat_eq, pair_eq,
}
use resenhazord.Prelude.Dict
use resenhazord.Prelude.Dict.{Dict}
use resenhazord.Command.Run.{contains}
use resenhazord.Lineup.{
  Slot, group_of, is_in_group, slot_order, first_unused, first_in_group, or_empty_pool, find_player,
  use_name, assign_loop, assign_slots,
}

module _ {P : Type 0} (name_of : P → String) where
  abbrev pub has_name : String → Option P → Bool
  has_name n none = false
  has_name n (some p) = name_of p == n

  -- The name of the player found is not in use.
  abbrev pub IsUnused : List String → Option P → Type 0
  IsUnused used none = Unit
  IsUnused used (some p) = contains (name_of p) used ≡ false

  first_unused-IsUnused :
      (used : List String) (pool : List P) → IsUnused used (first_unused name_of used pool)
  unfolding first_unused
  first_unused-IsUnused used [] = omega arith
  first_unused-IsUnused used (p ∷ pool) = elim (Bool-cases (contains (name_of p) used)) [
    | inl taken ↦ rw (taken, first_unused) (first_unused-IsUnused used pool)
    | inr free ↦ rw (free, first_unused) free
  ]

  first_in_group-IsUnused :
      (used : List String) (group : String) (pools : Dict String (List P))
      → IsUnused used (first_in_group name_of used group pools)
  unfolding first_in_group
  first_in_group-IsUnused used group [] = omega arith
  first_in_group-IsUnused used group ((role, pool) ∷ pools) =
      elim (Bool-cases (is_in_group group role)) [
        | inr other ↦ rw (other, first_in_group) (first_in_group-IsUnused used group pools)
        | inl same ↦ elim (Option-cases (first_unused name_of used pool)) [
          | inl missing ↦
              rw (same, missing, first_in_group) (first_in_group-IsUnused used group pools)
          | inr (p, found) ↦
              rw (same, found, first_in_group)
                (subst (IsUnused used) found (first_unused-IsUnused used pool))
        ]
      ]

  find_player-IsUnused :
      (slot : Slot) (pools : Dict String (List P)) (used : List String)
      → IsUnused used (find_player name_of slot pools used)
  unfolding find_player
  find_player-IsUnused slot pools used =
      let pool : List P = or_empty_pool name_of (Dict.get pools slot.specific) in
      elim (Option-cases (first_unused name_of used pool)) [
        | inl missing ↦
            rw (missing, find_player)
              (first_in_group-IsUnused used (group_of slot.specific slot.role) pools)
        | inr (p, found) ↦
            rw (found, find_player) (subst (IsUnused used) found (first_unused-IsUnused used pool))
      ]

  use_name-count :
      (n : String) (used : List String) (player : Option P)
      → IsUnused used player
      → one_if (contains n used) + one_if (has_name n player)
        ≤ one_if (contains n (use_name name_of player used))
  unfolding contains
  use_name-count n used none h = omega arith
  use_name-count n used (some p) h = elim (Bool-cases (name_of p == n)) [
    | inl same ↦
        let free : contains n used ≡ false =
          subst (λ m. contains m used ≡ false) (eq_of_beq (name_of p) n same) h in
        ground (arith, same, free)
    | inr other ↦ ground (arith, other)
  ]

  set-count :
      (n : String) (l : List (Option P)) (i : ℕ) (x : Option P)
      → count_if (has_name n) (set l i x) ≤ count_if (has_name n) l + one_if (has_name n x)
  unfolding count_if
  set-count n [] i x = omega arith
  set-count n (y ∷ l) zero x = omega arith
  set-count n (y ∷ l) (suc i) x = omega (arith, set-count n l i x)

  assign_loop-count :
      (n : String) (slots : List Slot) (pools : Dict String (List P)) (places : List (ℕ × ℕ))
      (ordered : List (Option P)) (used : List String)
      → count_if (has_name n) ordered ≤ one_if (contains n used)
      → count_if (has_name n) (assign_loop name_of slots pools places ordered used) ≤ 1
  unfolding assign_loop
  assign_loop-count n slots pools [] ordered used h = ground (arith, h)
  assign_loop-count n slots pools ((key, i) ∷ places) ordered used h =
      elim (Option-cases (get_elem? slots i)) [
        | inl outside ↦
            rw (outside, assign_loop) (assign_loop-count n slots pools places ordered used h)
        | inr (slot, found) ↦
            let player : Option P = find_player name_of slot pools used in
            rw (found, assign_loop)
              (assign_loop-count n slots pools places (set ordered i player)
                (use_name name_of player used)
                (omega (
                  arith,
                  h,
                  set-count n ordered i player,
                  use_name-count n used player (find_player-IsUnused slot pools used),
                )))
      ]

  replicate-count : (n : String) (k : ℕ) → count_if (has_name n) (replicate k none) ≡ 0
  unfolding count_if
  replicate-count n zero = refl
  replicate-count n (suc k) = omega (arith, replicate-count n k)

  -- Whatever the pools are, and even where a player is in several of them, no two slots of the lineup
  -- hold players of one name.
  pub assign_slots-once :
      (n : String) (slots : List Slot) (pools : Dict String (List P))
      → count_if (has_name n) (assign_slots name_of slots pools) ≤ 1
  unfolding assign_slots
  assign_slots-once n slots pools =
      assign_loop-count n slots pools (slot_order 0 slots) (replicate (length slots) none) []
        (omega (arith, replicate-count n (length slots)))
