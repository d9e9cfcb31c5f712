-- ===== src/Mentions/Requests.antt =====
-- Every request that writes the mention lists keeps the documents tidy.
use resenhazord.Prelude.{
  String, ◌≡◌, refl, subst, inl, inr, some, List, [], ◌∷◌, ◌++◌, arith, Bool-cases, Option-cases,
  string_eq, nat_eq, pair_eq,
}
use resenhazord.Prelude.Dict
use resenhazord.Command.Run.{contains}
use resenhazord.Distinct.{AllDistinct, append-AllDistinct}
use resenhazord.Mentions.{Group, Docs, names, update_group, push_unless_taken, upsert_unless_taken}
use resenhazord.Mentions.Tidy.{AreTidy, IsTidy, put-IsTidy, names-append, append-EachDistinct}

pub update_group-IsTidy :
    (docs : Docs) (chat name : String) (change : List Group → List Group) (docs' : Docs)
    → IsTidy docs
    → ((gs : List Group) → AreTidy gs → AreTidy (change gs))
    → update_group docs chat name change ≡ some docs'
    → IsTidy docs'
unfolding update_group IsTidy
update_group-IsTidy docs chat name change docs' h keeps e =
    elim (Option-cases (Dict.get docs chat)) [
      | inl missing ↦ absurd (cc (rw (missing, update_group) at e))
      | inr (gs, found) ↦ elim (Bool-cases (contains name (names gs))) [
        | inr no_name ↦ absurd (cc (rw (found, no_name, update_group) at e))
        | inl has_name ↦
            let p : Dict.put docs chat (change gs) ≡ docs' =
              cc (rw (found, has_name, update_group) at e) in
            subst IsTidy p (put-IsTidy docs chat (change gs) h (keeps gs (h chat gs found)))
      ]
    ]

pub push_unless_taken-IsTidy :
    (docs : Docs) (chat : String) (g : Group) (docs' : Docs)
    → IsTidy docs
    → AllDistinct g.participants
    → push_unless_taken docs chat g ≡ some docs'
    → IsTidy docs'
unfolding push_unless_taken IsTidy
push_unless_taken-IsTidy docs chat g docs' h distinct e = elim (Option-cases (Dict.get docs chat)) [
  | inl missing ↦ absurd (cc (rw (missing, push_unless_taken) at e))
  | inr (gs, found) ↦ elim (Bool-cases (contains g.name (names gs))) [
    | inl taken ↦ absurd (cc (rw (found, taken, push_unless_taken) at e))
    | inr free ↦
        let p : Dict.put docs chat (gs ++ g ∷ []) ≡ docs' =
          cc (rw (found, free, push_unless_taken) at e) in
        let (ds, each) = h chat gs found in
        subst IsTidy p (
          put-IsTidy docs chat (gs ++ g ∷ []) h (
            rw (names-append gs g) (append-AllDistinct (names gs) g.name ds free),
            append-EachDistinct gs g each distinct,
          ))
  ]
]

pub upsert_unless_taken-IsTidy :
    (docs : Docs) (chat : String) (g : Group) (docs' : Docs)
    → IsTidy docs
    → AllDistinct g.participants
    → upsert_unless_taken docs chat g ≡ some docs'
    → IsTidy docs'
unfolding upsert_unless_taken
upsert_unless_taken-IsTidy docs chat g docs' h distinct e =
    elim (Option-cases (Dict.get docs chat)) [
      | inl missing ↦
          let p : Dict.put docs chat (g ∷ []) ≡ docs' =
            cc (rw (missing, upsert_unless_taken) at e) in
          let single : AllDistinct (g.name ∷ []) =
            append-AllDistinct [] g.name (omega arith) refl in
          subst IsTidy p (put-IsTidy docs chat (g ∷ []) h (single, (distinct, omega arith)))
      | inr (gs, found) ↦
          push_unless_taken-IsTidy docs chat g docs' h distinct
            (rw (found, upsert_unless_taken) at e)
    ]
