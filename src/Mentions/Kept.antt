-- ===== src/Mentions/Kept.antt =====
-- Every operation on the mention lists keeps the documents tidy.
use resenhazord.Prelude.{
  ℕ, String, ◌≡◌, refl, inl, inr, Bool, true, false, not, ◌&&◌, some, List, [], ◌∷◌, map, arith,
  Bool-cases, Option-cases, ◌==◌, length, List-cases, string_eq, nat_eq, pair_eq,
}
use resenhazord.Text.{Unicode}
use resenhazord.Jid.{normalize_jid, normalize_jids}
use resenhazord.Command.Run.{contains}
use resenhazord.Distinct.{AllDistinct, add_all, add_all-AllDistinct, without, without-AllDistinct}
use resenhazord.Mentions.{
  Group, Docs, names, find_group, groups_of, update_group, change_first, pull_group, set_name,
  push_unless_taken, upsert_unless_taken, RemovalTargets,
}
use resenhazord.Mentions.Service.{
  new_group, create, rename, delete, added, add, pull, exit_reply, to_remove, exit, Call,
  create_list, rename_list, delete_list, list_lists, list_one_of, add_to, exit_from, mention_list,
  perform,
}
use resenhazord.Mentions.Requests.{
  update_group-IsTidy, push_unless_taken-IsTidy, upsert_unless_taken-IsTidy,
}
use resenhazord.Mentions.Tidy.{
  IsTidy, put-IsTidy, groups_of-AreTidy, change_first-AreTidy, pull_group-AreTidy, set_name-AreTidy,
}

module _ (u : Unicode) (up : ℕ → Bool) (meanwhile : Docs → Docs)
    (others : (docs : Docs) → IsTidy docs → IsTidy (meanwhile docs)) where
  create-IsTidy :
      (docs : Docs) (chat sender name : String) (mentioned : List String)
      → IsTidy docs
      → IsTidy (create u up meanwhile docs chat sender name mentioned).0
  unfolding create
  create-IsTidy docs chat sender name mentioned h =
      let g = new_group u up meanwhile sender name mentioned in
      let distinct : AllDistinct g.participants =
        add_all-AllDistinct (normalize_jid u sender ∷ normalize_jids u (map some mentioned)) []
          (omega arith) in
      elim (Bool-cases (up 0)) [
        | inr down ↦ rw (down, create) h
        | inl first ↦ elim (Option-cases (upsert_unless_taken docs chat g)) [
          | inr (docs', e) ↦
              rw (first, e, create) (upsert_unless_taken-IsTidy docs chat g docs' h distinct e)
          | inl e ↦ elim (Bool-cases (up 1)) [
            | inr down ↦ rw (first, e, down, create) (others docs h)
            | inl second ↦ elim (Option-cases (push_unless_taken (meanwhile docs) chat g)) [
              | inl taken ↦ rw (first, e, second, taken, create) (others docs h)
              | inr (docs', pushed) ↦
                  rw (first, e, second, pushed, create)
                    (push_unless_taken-IsTidy (meanwhile docs) chat g docs' (others docs h) distinct
                      pushed)
            ]
          ]
        ]
      ]

  rename-IsTidy :
      (docs : Docs) (chat old new : String)
      → IsTidy docs
      → IsTidy (rename u up meanwhile docs chat old new).0
  unfolding rename
  rename-IsTidy docs chat old new h =
      let gs = groups_of docs chat in
      elim (Bool-cases (up 0)) [
        | inr down ↦ rw (down, rename) h
        | inl first ↦ elim (Bool-cases (contains old (names gs) && not (contains new (names gs)))) [
          | inl e ↦
              rw (first, e, rename)
                (put-IsTidy docs chat (set_name old new gs) h
                  (set_name-AreTidy old new gs (ground (arith, e)) (groups_of-AreTidy docs chat h)))
          | inr e ↦ elim (Bool-cases (up 1)) [
            | inr down ↦ rw (first, e, down, rename) (others docs h)
            | inl second ↦
                elim (Bool-cases (contains old (names (groups_of (meanwhile docs) chat)))) [
                  | inl there ↦ rw (first, e, second, there, rename) (others docs h)
                  | inr gone ↦ rw (first, e, second, gone, rename) (others docs h)
                ]
          ]
        ]
      ]

  delete-IsTidy :
      (docs : Docs) (chat name : String)
      → IsTidy docs
      → IsTidy (delete u up meanwhile docs chat name).0
  unfolding delete
  delete-IsTidy docs chat name h = elim (Bool-cases (up 0)) [
    | inr down ↦ rw (down, delete) h
    | inl first ↦ elim (Option-cases (update_group docs chat name (pull_group name))) [
      | inl e ↦ rw (first, e, delete) h
      | inr (docs', e) ↦
          rw (first, e, delete)
            (update_group-IsTidy docs chat name (pull_group name) docs' h (pull_group-AreTidy name)
              e)
    ]
  ]

  add-IsTidy :
      (docs : Docs) (chat name sender : String) (participants : List String)
      → IsTidy docs
      → IsTidy (add u up meanwhile docs chat name sender participants).0
  unfolding add
  add-IsTidy docs chat name sender participants h =
      let new = added u up meanwhile sender participants in
      let change : List Group → List Group = change_first name (λ old. add_all old new) in
      elim (Bool-cases (up 0)) [
        | inr down ↦ rw (down, add) h
        | inl first ↦ elim (Option-cases (update_group docs chat name change)) [
          | inl e ↦ rw (first, e, add) h
          | inr (docs', e) ↦
              rw (first, e, add)
                (update_group-IsTidy docs chat name change docs' h
                  (λ gs.
                    change_first-AreTidy name (λ old. add_all old new) gs
                      (λ xs. add_all-AllDistinct new xs))
                  e)
        ]
      ]

  pull-IsTidy :
      (docs : Docs) (chat name : String) (gone : List String)
      → IsTidy docs
      → IsTidy (pull u up meanwhile docs chat name gone).0
  unfolding pull
  pull-IsTidy docs chat name gone h =
      let gs = groups_of docs chat in
      let test : String → Bool = λ p. contains p gone in
      elim (Option-cases (find_group name gs)) [
        | inl e ↦ rw (e, pull) h
        | inr (g, e) ↦
            elim (Bool-cases (length (without test g.participants) == length g.participants)) [
              | inl same ↦ rw (e, same, pull) h
              | inr less ↦
                  rw (e, less, pull)
                    (put-IsTidy docs chat (change_first name (without test) gs) h (
                      change_first-AreTidy name (without test) gs (without-AllDistinct test)
                        (groups_of-AreTidy docs chat h)))
            ]
      ]

  exit_reply-docs :
      (targets : RemovalTargets) (name : String) (p : Docs × Bool)
      → (exit_reply u up meanwhile targets name p).0 ≡ p.0
  exit_reply-docs targets name (docs, true) = refl
  exit_reply-docs targets name (docs, false) = refl

  exit-IsTidy :
      (docs : Docs) (chat name sender : String) (targets : RemovalTargets)
      → IsTidy docs
      → IsTidy (exit u up meanwhile docs chat name sender targets).0
  unfolding exit
  exit-IsTidy docs chat name sender targets h = elim (Bool-cases (up 0)) [
    | inr down ↦ rw (down, exit) h
    | inl first ↦ elim (Option-cases (find_group name (groups_of docs chat))) [
      | inl e ↦ rw (first, e, exit) h
      | inr (g, e) ↦ elim (List-cases (to_remove u up meanwhile sender targets g.participants)) [
        | inl none_left ↦
            rw (first, e, none_left, exit, exit_reply-docs targets name (docs, false)) h
        | inr (p, ps, some_left) ↦ elim (Bool-cases (up 1)) [
          | inr down ↦ rw (first, e, some_left, down, exit) (others docs h)
          | inl second ↦
              let after = pull u up meanwhile (meanwhile docs) chat name (p ∷ ps) in
              rw (first, e, some_left, second, exit, exit_reply-docs targets name after)
                (pull-IsTidy (meanwhile docs) chat name (p ∷ ps) (others docs h))
        ]
      ]
    ]
  ]

  -- Every call of the service leaves documents in which no two lists of a chat share a name and
  -- nobody stands twice in a list, if they were so before and whatever others write between the
  -- requests of the call leaves them so; this holds also of the calls whose requests fail.
  pub perform-IsTidy :
      (docs : Docs) (call : Call) → IsTidy docs → IsTidy (perform u up meanwhile docs call).0
  unfolding perform
  perform-IsTidy docs (create_list chat sender name mentioned) h =
      create-IsTidy docs chat sender name mentioned h
  perform-IsTidy docs (rename_list chat old new) h = rename-IsTidy docs chat old new h
  perform-IsTidy docs (delete_list chat name) h = delete-IsTidy docs chat name h
  perform-IsTidy docs (list_lists chat) h = h
  perform-IsTidy docs (list_one_of chat name) h = h
  perform-IsTidy docs (add_to chat name sender participants) h =
      add-IsTidy docs chat name sender participants h
  perform-IsTidy docs (exit_from chat name sender targets) h =
      exit-IsTidy docs chat name sender targets h
  perform-IsTidy docs (mention_list chat name) h = h
