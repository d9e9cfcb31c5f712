-- ===== src/Mentions/Created.antt =====
-- A list that was made is found by its name.
use resenhazord.Prelude.{
  ℕ, String, ◌≡◌, refl, subst, inl, inr, Bool, true, false, some, List, [], ◌∷◌, ◌++◌, map, arith,
  Bool-cases, Option-cases, ◌==◌, beq_self, List-cases, string_eq, nat_eq, pair_eq,
}
use resenhazord.Prelude.Dict
use resenhazord.Prelude.Dict.{get-put_self}
use resenhazord.Text.{Unicode}
use resenhazord.Jid.{normalize_jid, normalize_jids}
use resenhazord.Command.Run.{contains}
use resenhazord.Distinct.{add_all}
use resenhazord.Mentions.{
  Group, Docs, names, find_group, groups_of, push_unless_taken, upsert_unless_taken, Outcome, named,
  shown, taken,
}
use resenhazord.Mentions.Service.{new_group, create, lookup, list_one}

find_group-append :
    (gs : List Group) (g : Group)
    → contains g.name (names gs) ≡ false
    → find_group g.name (gs ++ g ∷ []) ≡ some g
unfolding find_group contains
find_group-append [] g h = rw (beq_self g.name) refl
find_group-append (x ∷ gs) g h =
    let other : (x.name == g.name) ≡ false = ground (arith, h) in
    rw other (find_group-append gs g (ground (arith, h)))

groups_of-put :
    (docs : Docs) (chat : String) (gs : List Group) → groups_of (Dict.put docs chat gs) chat ≡ gs
groups_of-put docs chat gs = rw (get-put_self docs chat gs, groups_of) refl

push_unless_taken-found :
    (docs : Docs) (chat : String) (g : Group) (docs' : Docs)
    → push_unless_taken docs chat g ≡ some docs'
    → find_group g.name (groups_of docs' chat) ≡ some g
unfolding push_unless_taken
push_unless_taken-found docs chat g docs' e = elim (Option-cases (Dict.get docs chat)) [
  | inl missing ↦ absurd (cc (rw (missing, push_unless_taken) at e))
  | inr (gs, found) ↦ elim (Bool-cases (contains g.name (names gs))) [
    | inl taken ↦ absurd (cc (rw (found, taken, push_unless_taken) at e))
    | inr free ↦
        let p : Dict.put docs chat (gs ++ g ∷ []) ≡ docs' =
          cc (rw (found, free, push_unless_taken) at e) in
        subst (λ d. find_group g.name (groups_of d chat) ≡ some g) p
          (rw (groups_of-put docs chat (gs ++ g ∷ [])) (find_group-append gs g free))
  ]
]

upsert_unless_taken-found :
    (docs : Docs) (chat : String) (g : Group) (docs' : Docs)
    → upsert_unless_taken docs chat g ≡ some docs'
    → find_group g.name (groups_of docs' chat) ≡ some g
unfolding upsert_unless_taken contains
upsert_unless_taken-found docs chat g docs' e = elim (Option-cases (Dict.get docs chat)) [
  | inl missing ↦
      let p : Dict.put docs chat (g ∷ []) ≡ docs' = cc (rw (missing, upsert_unless_taken) at e) in
      subst (λ d. find_group g.name (groups_of d chat) ≡ some g) p
        (rw (groups_of-put docs chat (g ∷ [])) (find_group-append [] g refl))
  | inr (gs, found) ↦
      push_unless_taken-found docs chat g docs' (rw (found, upsert_unless_taken) at e)
]

module _ (u : Unicode) (up : ℕ → Bool) (meanwhile : Docs → Docs) where
  lookup-found :
      (answer : Group → Outcome) (failed : String) (docs : Docs) (chat name : String) (g : Group)
      → up 0 ≡ true
      → find_group name (groups_of docs chat) ≡ some g
      → lookup u up meanwhile answer failed docs chat name ≡ answer g
  unfolding lookup find_group
  lookup-found answer failed docs chat name g first e = elim (List-cases (groups_of docs chat)) [
    | inl empty ↦ absurd (cc (rw empty at e))
    | inr (x, xs, more) ↦ let there = rw more at e in rw (first, more, lookup) (rw there refl)
  ]

  create-found :
      (docs : Docs) (chat sender name : String) (mentioned : List String)
      → (create u up meanwhile docs chat sender name mentioned).1 ≡ named name
      → find_group name (groups_of (create u up meanwhile docs chat sender name mentioned).0 chat)
        ≡ some (new_group u up meanwhile sender name mentioned)
  unfolding create
  create-found docs chat sender name mentioned ok =
      let g = new_group u up meanwhile sender name mentioned in
      elim (Bool-cases (up 0)) [
        | inr down ↦ absurd (cc (rw (down, create) at ok))
        | inl first ↦ elim (Option-cases (upsert_unless_taken docs chat g)) [
          | inr (docs', e) ↦ rw (first, e, create) (upsert_unless_taken-found docs chat g docs' e)
          | inl e ↦ elim (Bool-cases (up 1)) [
            | inr down ↦ absurd (cc (rw (first, e, down, create) at ok))
            | inl second ↦ elim (Option-cases (push_unless_taken (meanwhile docs) chat g)) [
              | inl busy ↦ absurd (cc (rw (first, e, second, busy, create) at ok))
              | inr (docs', pushed) ↦
                  rw (first, e, second, pushed, create)
                    (push_unless_taken-found (meanwhile docs) chat g docs' pushed)
            ]
          ]
        ]
      ]

  -- After a creation that says it made the list, the list is read back by its name,
  -- with its request answered as the first was: its participants are the sender and those mentioned, each once, by their normalised
  -- ids. This holds whatever the chat's other lists are and whatever was written between the requests.
  pub create-list_one :
      (docs : Docs) (chat sender name : String) (mentioned : List String)
      → (create u up meanwhile docs chat sender name mentioned).1 ≡ named name
      → list_one u up meanwhile (create u up meanwhile docs chat sender name mentioned).0 chat name
        ≡ shown name (add_all [] (normalize_jid u sender ∷ normalize_jids u (map some mentioned)))
  unfolding create
  create-list_one docs chat sender name mentioned ok = elim (Bool-cases (up 0)) [
    | inr down ↦ absurd (cc (rw (down, create) at ok))
    | inl first ↦
        lookup-found _ "Não consegui listar os grupos 😔"
          (create u up meanwhile docs chat sender name mentioned).0 chat name
          (new_group u up meanwhile sender name mentioned) first
          (create-found docs chat sender name mentioned ok)
  ]
