-- ===== src/Lineup.antt =====
-- bot/domain/services/lineup_assigner.py: which player stands in which slot of a formation. A slot is
-- its label, which `specific_roles` derives, and its role; a player is anything that has a name.
pub mod Assigned
use resenhazord.Prelude.{
  ℕ, ◌+◌, String, Bool, false, Option, none, some, List, [], ◌∷◌, leb, if◌then◌else◌, ◌==◌, length,
  get_elem?, set, replicate, string_eq, nat_eq, pair_eq,
}
use resenhazord.Prelude.Dict
use resenhazord.Prelude.Dict.{Dict}
use resenhazord.Command.Run.{contains}

pub record Slot : Type 0 where
  pub specific : String
  pub role : String

-- ROLE_GROUPS
abbrev pub role_groups : Dict String String
role_groups =
    ("GK", "GK")
    ∷ ("CB", "DEF")
    ∷ ("LB", "DEF")
    ∷ ("RB", "DEF")
    ∷ ("DM", "MID")
    ∷ ("CM", "MID")
    ∷ ("AM", "MID")
    ∷ ("LW", "ATT")
    ∷ ("ST", "ATT")
    ∷ ("RW", "ATT")
    ∷ []

-- SCARCITY_ORDER, with the default of the assigner
abbrev pub scarcity_order : Dict String ℕ
scarcity_order =
    ("LB", 0) ∷ ("RB", 0) ∷ ("LW", 0) ∷ ("RW", 0) ∷ ("AM", 1) ∷ ("DM", 1) ∷ ("GK", 2) ∷ []

abbrev pub or_default : ℕ → Option ℕ → ℕ
or_default n none = n
or_default n (some k) = k

abbrev pub scarcity : String → ℕ
scarcity specific = or_default 3 (Dict.get scarcity_order specific)

abbrev pub group_of : String → String → String
group_of specific role = elim (Dict.get role_groups specific) [ none ↦ role | some group ↦ group ]

abbrev pub is_in_group : String → String → Bool
is_in_group group role = elim (Dict.get role_groups role) [ none ↦ false | some g ↦ g == group ]

-- A stable sort by the key: the elements are inserted from the last on, each before its equals.
unfoldable pub insert_by : (ℕ × ℕ) → List (ℕ × ℕ) → List (ℕ × ℕ)
insert_by x [] = x ∷ []
insert_by x (y ∷ ys) = let rest = insert_by x ys in if leb x.0 y.0 then x ∷ y ∷ ys else y ∷ rest

-- The places of the slots from `i` on, each with its scarcity, sorted by it.
unfoldable pub slot_order : ℕ → List Slot → List (ℕ × ℕ)
unfolding insert_by
slot_order i [] = []
slot_order i (slot ∷ slots) = insert_by (scarcity slot.specific, i) (slot_order (i + 1) slots)

module _ {P : Type 0} (name_of : P → String) where
  -- next((p for p in pool if p.name not in used), None)
  unfoldable pub first_unused : List String → List P → Option P
  first_unused used [] = none
  first_unused used (p ∷ pool) =
      let rest = first_unused used pool in if contains (name_of p) used then rest else some p

  -- The first unused player of the pools whose role is in the group.
  unfoldable pub first_in_group : List String → String → Dict String (List P) → Option P
  unfolding first_unused
  first_in_group used group [] = none
  first_in_group used group ((role, pool) ∷ pools) =
      let rest = first_in_group used group pools in
      if is_in_group group role
      then elim (first_unused used pool) [ none ↦ rest | some p ↦ some p ]
      else rest

  abbrev pub or_empty_pool : Option (List P) → List P
  or_empty_pool none = []
  or_empty_pool (some pool) = pool

  -- _find_player
  unfoldable pub find_player : Slot → Dict String (List P) → List String → Option P
  unfolding first_in_group
  find_player slot pools used =
      elim (first_unused used (or_empty_pool (Dict.get pools slot.specific))) [
        | some p ↦ some p
        | none ↦ first_in_group used (group_of slot.specific slot.role) pools
      ]

  abbrev pub use_name : Option P → List String → List String
  use_name none used = used
  use_name (some p) used = name_of p ∷ used

  -- The loop of `assign_slots` over the places that are left, with the slots and the names in use.
  unfoldable pub assign_loop :
      List Slot
      → Dict String (List P)
      → List (ℕ × ℕ)
      → List (Option P)
      → List String
      → List (Option P)
  unfolding find_player
  assign_loop slots pools [] ordered used = ordered
  assign_loop slots pools ((key, i) ∷ places) ordered used = elim (get_elem? slots i) [
    | none ↦ assign_loop slots pools places ordered used
    | some slot ↦
        let player = find_player slot pools used in
        assign_loop slots pools places (set ordered i player) (use_name player used)
  ]

  -- assign_slots
  unfoldable pub assign_slots : List Slot → Dict String (List P) → List (Option P)
  unfolding assign_loop slot_order
  assign_slots slots pools =
      assign_loop slots pools (slot_order 0 slots) (replicate (length slots) none) []
