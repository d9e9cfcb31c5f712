-- ===== src/Mentions.antt =====
-- The mention lists of a group chat: the requests of the operations in
-- bot/domain/services/mentions/ to the database, and bot/domain/models/removal_targets.py. The collection is the
-- dictionary of its documents, and each request is written out as MongoDB documents it: one document
-- is changed at once.
pub mod Service
pub mod Texts
pub mod Command
pub mod Tidy
pub mod Requests
pub mod Kept
pub mod Created
use resenhazord.Prelude.{
  ℕ, ◌-◌, String, Bool, true, false, ◌&&◌, Option, none, some, List, [], ◌∷◌, ◌++◌, ltb, leb,
  if◌then◌else◌, ◌==◌, length, get_elem?, string_eq, nat_eq, pair_eq,
}
use resenhazord.Prelude.Dict
use resenhazord.Prelude.Dict.{Dict}
use resenhazord.Text.{Unicode, concat}
use resenhazord.Jid.{normalize_jid, normalize_jids}
use resenhazord.Command.Run.{contains}
use resenhazord.Distinct.{add_all, without}

pub record Group : Type 0 where
  pub name : String
  pub participants : List String

-- The documents by their `_id`, the chat, each with its field `groups`.
abbrev pub Docs : Type 0
Docs = Dict String (List Group)

abbrev pub names : List Group → List String
names [] = []
names (g ∷ gs) = g.name ∷ names gs

-- next((g for g in doc['groups'] if g['name'] == group_name), None), and the projection `groups.$`
unfoldable pub find_group : String → List Group → Option Group
find_group name [] = none
find_group name (g ∷ gs) = if g.name == name then some g else find_group name gs

abbrev pub groups_of : Docs → String → List Group
groups_of docs chat = elim (Dict.get docs chat) [ none ↦ [] | some gs ↦ gs ]

-- An update of the document that has a group of the name: the new document, or none where the filter
-- finds nothing.
unfoldable pub update_group : Docs → String → String → (List Group → List Group) → Option Docs
unfolding contains
update_group docs chat name change = elim (Dict.get docs chat) [
  | none ↦ none
  | some gs ↦ if contains name (names gs) then some (Dict.put docs chat (change gs)) else none
]

-- `groups.$`: the first group that the filter found.
unfoldable pub change_first : String → (List String → List String) → List Group → List Group
change_first name change [] = []
change_first name change (g ∷ gs) =
    let rest = change_first name change gs in
    if g.name == name then record g { participants = change g.participants } ∷ gs else g ∷ rest

-- `$pull` of the groups of a name
unfoldable pub pull_group : String → List Group → List Group
pull_group name [] = []
pull_group name (g ∷ gs) =
    let rest = pull_group name gs in if g.name == name then rest else g ∷ rest

-- `groups.$[target].name`, for every target of the old name
unfoldable pub set_name : String → String → List Group → List Group
set_name old new [] = []
set_name old new (g ∷ gs) =
    let rest = set_name old new gs in
    if g.name == old then record g { name = new } ∷ rest else g ∷ rest

-- update_one(query, update) of `_push_unless_taken`: the new documents, none if nothing matched
unfoldable pub push_unless_taken : Docs → String → Group → Option Docs
unfolding contains
push_unless_taken docs chat group = elim (Dict.get docs chat) [
  | none ↦ none
  | some gs ↦
      if contains group.name (names gs) then none else some (Dict.put docs chat (gs ++ group ∷ []))
]

-- The same with upsert=True: a chat without a document gets one. Where the filter misses the document
-- that is there, inserting another with its id is refused: none is the DuplicateKeyError.
unfoldable pub upsert_unless_taken : Docs → String → Group → Option Docs
unfolding push_unless_taken
upsert_unless_taken docs chat group = elim (Dict.get docs chat) [
  | none ↦ some (Dict.put docs chat (group ∷ []))
  | some gs ↦ push_unless_taken docs chat group
]

-- The dictionary that an operation returns: {'ok': False, 'message': …} or its own fields.
pub data Outcome : Type 0 where
  refused : String → Outcome
  -- group_name
  named : String → Outcome
  -- group_name and self_only
  changed : String → Bool → Outcome
  -- old_name and new_name
  renamed : String → String → Outcome
  listed : List Group → Outcome
  -- name and participants
  shown : String → List String → Outcome
  -- participants
  members : List String → Outcome

abbrev pub about : String → String → Outcome
about start name = refused (concat start (concat "*" (concat name "* 😔")))

abbrev pub no_group : String → Outcome
no_group name = about "Não existe um grupo com o nome " name

abbrev pub taken : String → Outcome
taken name = about "Já existe um grupo com o nome " name

abbrev pub no_groups : Outcome
no_groups = refused "Você não tem grupos 😔"

-- RemovalTargets
pub record RemovalTargets : Type 0 where
  pub indices : List ℕ
  pub mentioned : List String

abbrev pub is_empty {ℓ} : {A : Type ℓ} → List A → Bool
is_empty [] = true
is_empty (x ∷ xs) = false

abbrev pub is_self_exit : RemovalTargets → Bool
is_self_exit targets = is_empty targets.indices && is_empty targets.mentioned

-- participants[i - 1] for the indices in range
unfoldable pub by_index : List ℕ → List String → List String
by_index [] participants = []
by_index (i ∷ is) participants =
    let rest = by_index is participants in
    if ltb 0 i && leb i (length participants)
    then elim (get_elem? participants (i - 1)) [ none ↦ rest | some p ↦ p ∷ rest ]
    else rest

abbrev pub normalized : Unicode → List String → List String
normalized u [] = []
normalized u (jid ∷ jids) = normalize_jid u jid ∷ normalized u jids

unfoldable pub among : Unicode → List String → List String → List String
unfolding normalize_jid contains
among u wanted [] = []
among u wanted (p ∷ participants) =
    let rest = among u wanted participants in
    if contains (normalize_jid u p) wanted then p ∷ rest else rest

-- RemovalTargets.resolve
unfoldable pub resolve : Unicode → RemovalTargets → List String → List String
unfolding by_index among
resolve u targets participants =
    by_index targets.indices participants ++ among u (normalized u targets.mentioned) participants
