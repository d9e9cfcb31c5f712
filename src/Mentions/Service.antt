-- ===== src/Mentions/Service.antt =====
-- The operations of bot/domain/services/group_mentions.py, in bot/domain/services/mentions/. Between
-- two requests of a call others may write: `meanwhile`. A request that gets no answer is one for which
-- `up` is false; it has changed nothing.
use resenhazord.Prelude.{
  ℕ, String, Bool, true, false, not, ◌&&◌, none, some, List, [], ◌∷◌, map, if◌then◌else◌, ◌==◌,
  length, string_eq, nat_eq, pair_eq,
}
use resenhazord.Prelude.Dict
use resenhazord.Text.{Unicode}
use resenhazord.Jid.{normalize_jid, normalize_jids}
use resenhazord.Command.Run.{contains}
use resenhazord.Distinct.{add_all, without}
use resenhazord.Mentions.{
  Group, Docs, names, find_group, groups_of, update_group, change_first, pull_group, set_name,
  push_unless_taken, upsert_unless_taken, Outcome, refused, named, changed, renamed, listed, shown,
  members, about, no_group, taken, no_groups, RemovalTargets, is_empty, is_self_exit, among,
  resolve,
}

module _ (u : Unicode) (up : ℕ → Bool) (meanwhile : Docs → Docs) where
  abbrev pub new_group : String → String → List String → Group
  new_group sender name mentioned = record {
    name = name;
    participants = add_all [] (normalize_jid u sender ∷ normalize_jids u (map some mentioned));
  }

  -- CreateMentionList.execute
  unfoldable pub create : Docs → String → String → String → List String → Docs × Outcome
  unfolding normalize_jid normalize_jids add_all push_unless_taken upsert_unless_taken
  create docs chat sender name mentioned =
      let group = new_group sender name mentioned in
      let failed = about "Não consegui criar o grupo " name in
      if not (up 0) then (docs, failed) else elim (upsert_unless_taken docs chat group) [
        | some docs' ↦ (docs', named name)
        | none ↦
            if not (up 1)
            then (meanwhile docs, failed)
            else elim (push_unless_taken (meanwhile docs) chat group) [
              | none ↦ (meanwhile docs, taken name)
              | some docs' ↦ (docs', named name)
            ]
      ]

  -- RenameMentionList.execute
  unfoldable pub rename : Docs → String → String → String → Docs × Outcome
  unfolding contains set_name
  rename docs chat old new =
      let failed = about "Não consegui renomear o grupo " old in
      let gs = groups_of docs chat in
      if not (up 0)
      then (docs, failed)
      else if contains old (names gs) && not (contains new (names gs))
      then (Dict.put docs chat (set_name old new gs), renamed old new)
      else if not (up 1)
      then (meanwhile docs, failed)
      else if contains old (names (groups_of (meanwhile docs) chat))
      then (meanwhile docs, taken new)
      else (meanwhile docs, no_group old)

  -- DeleteMentionList.execute
  unfoldable pub delete : Docs → String → String → Docs × Outcome
  unfolding update_group pull_group
  delete docs chat name =
      if not (up 0)
      then (docs, about "Não consegui deletar o grupo " name)
      else elim (update_group docs chat name (pull_group name)) [
        | none ↦ (docs, no_group name)
        | some docs' ↦ (docs', named name)
      ]

  -- AddToMentionList.execute
  abbrev pub added : String → List String → List String
  added sender [] = normalize_jid u sender ∷ []
  added sender (p ∷ participants) = normalize_jids u (map some (p ∷ participants))

  unfoldable pub add : Docs → String → String → String → List String → Docs × Outcome
  unfolding update_group change_first add_all normalize_jid normalize_jids
  add docs chat name sender participants =
      if not (up 0)
      then (docs, refused "Não consegui adicionar os participantes 😔")
      else elim (update_group docs chat name
          (change_first name (λ old. add_all old (added sender participants)))) [
            | none ↦ (docs, no_group name)
            | some docs' ↦ (docs', changed name (is_empty participants))
          ]

  -- _matching_participants
  abbrev pub matching_participants : String → List String → List String
  matching_participants sender participants = among u (normalize_jid u sender ∷ []) participants

  -- _pull: what is removed of the group as it stands by then, and whether anything was
  unfoldable pub pull : Docs → String → String → List String → Docs × Bool
  unfolding change_first without contains find_group
  pull docs chat name to_remove =
      let gs = groups_of docs chat in
      let gone = λ (p : String). contains p to_remove in
      elim (find_group name gs) [
        | none ↦ (docs, false)
        | some g ↦
            if length (without gone g.participants) == length g.participants
            then (docs, false)
            else (Dict.put docs chat (change_first name (without gone) gs), true)
      ]

  abbrev pub nobody : Bool → String → Outcome
  nobody true name = about "Você não está no grupo " name
  nobody false name = refused "Nenhum participante encontrado para remover 😔"

  abbrev pub exit_reply : RemovalTargets → String → Docs × Bool → Docs × Outcome
  exit_reply targets name (docs, true) = (docs, changed name (is_self_exit targets))
  exit_reply targets name (docs, false) = (docs, nobody (is_self_exit targets) name)

  abbrev pub to_remove : String → RemovalTargets → List String → List String
  to_remove sender targets participants =
      if is_self_exit targets
      then matching_participants sender participants
      else resolve u targets participants

  -- ExitMentionList.execute
  unfoldable pub exit : Docs → String → String → String → RemovalTargets → Docs × Outcome
  unfolding find_group pull resolve among normalize_jid
  exit docs chat name sender targets =
      let failed = refused "Não consegui remover os participantes 😔" in
      if not (up 0) then (docs, failed) else elim (find_group name (groups_of docs chat)) [
        | none ↦ (docs, no_group name)
        | some g ↦ elim (to_remove sender targets g.participants) [
          | [] ↦ exit_reply targets name (docs, false)
          | p ∷ ps ↦
              if not (up 1)
              then (meanwhile docs, failed)
              else exit_reply targets name (pull (meanwhile docs) chat name (p ∷ ps))
        ]
      ]

  -- ListMentionLists.execute
  unfoldable pub list_all : Docs → String → Outcome
  list_all docs chat =
      if not (up 0)
      then refused "Não consegui listar os grupos 😔"
      else elim (groups_of docs chat) [ [] ↦ no_groups | g ∷ gs ↦ listed (g ∷ gs) ]

  -- What GetMentionList and MentionGroup share: the group, or the refusal.
  unfoldable pub lookup : (Group → Outcome) → String → Docs → String → String → Outcome
  unfolding find_group
  lookup answer failed docs chat name =
      if not (up 0) then refused failed else elim (groups_of docs chat) [
        | [] ↦ no_groups
        | g ∷ gs ↦ elim (find_group name (g ∷ gs)) [
          | none ↦ no_group name
          | some found ↦ answer found
        ]
      ]

  -- GetMentionList.execute
  abbrev pub list_one : Docs → String → String → Outcome
  list_one = lookup (λ g. shown g.name g.participants) "Não consegui listar os grupos 😔"

  -- MentionGroup.execute
  abbrev pub mention : Docs → String → String → Outcome
  mention = lookup (λ g. members g.participants) "Não consegui marcar os participantes 😔"

-- A call of GroupMentionsService.
pub data Call : Type 0 where
  create_list : String → String → String → List String → Call
  rename_list : String → String → String → Call
  delete_list : String → String → Call
  list_lists : String → Call
  list_one_of : String → String → Call
  add_to : String → String → String → List String → Call
  exit_from : String → String → String → RemovalTargets → Call
  mention_list : String → String → Call

unfoldable pub perform : Unicode → (ℕ → Bool) → (Docs → Docs) → Docs → Call → Docs × Outcome
unfolding create rename delete list_all lookup add exit
perform u up meanwhile docs (create_list chat sender name mentioned) =
    create u up meanwhile docs chat sender name mentioned
perform u up meanwhile docs (rename_list chat old new) = rename u up meanwhile docs chat old new
perform u up meanwhile docs (delete_list chat name) = delete u up meanwhile docs chat name
perform u up meanwhile docs (list_lists chat) = (docs, list_all u up meanwhile docs chat)
perform u up meanwhile docs (list_one_of chat name) = (docs, list_one u up meanwhile docs chat name)
perform u up meanwhile docs (add_to chat name sender participants) =
    add u up meanwhile docs chat name sender participants
perform u up meanwhile docs (exit_from chat name sender targets) =
    exit u up meanwhile docs chat name sender targets
perform u up meanwhile docs (mention_list chat name) = (docs, mention u up meanwhile docs chat name)
