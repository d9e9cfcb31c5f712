-- ===== src/Tests/Football.antt =====
-- A lineup at concrete inputs.
use resenhazord.Prelude.{
  ◌≤◌, String, ◌≡◌, refl, none, some, List, [], ◌∷◌, count_if, string_eq, nat_eq, pair_eq,
}
use resenhazord.Prelude.Dict
use resenhazord.Prelude.Dict.{Dict}
use resenhazord.Command.Run.{contains}
use resenhazord.Lineup.{Slot, assign_slots, slot_order, find_player}
use resenhazord.Lineup.Assigned.{has_name, assign_slots-once}

abbrev own_name : String → String
own_name s = s

abbrev slots : List Slot
slots =
    record { specific = "GK"; role = "GK" }
    ∷ record { specific = "CB"; role = "DEF" }
    ∷ record { specific = "LB"; role = "DEF" }
    ∷ []

-- one player is in two pools
abbrev pools : Dict String (List String)
pools = ("CB", "Ana" ∷ "Bia" ∷ []) ∷ ("LB", "Ana" ∷ []) ∷ []

assign_slots-once_example :
    count_if (has_name own_name "Ana") (assign_slots own_name slots pools) ≤ 1
assign_slots-once_example = assign_slots-once own_name "Ana" slots pools

assign_slots_run : assign_slots own_name slots pools ≡ none ∷ some "Bia" ∷ some "Ana" ∷ []
unfolding assign_slots slot_order find_player contains Dict.get
assign_slots_run = refl
