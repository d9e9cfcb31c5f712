-- ===== src/Mentions/Tidy.antt =====
-- In every document no two lists share a name, and in every list nobody stands twice.
use resenhazord.Prelude.{
  String, ◌≡◌, refl, subst, inl, inr, false, some, List, [], ◌∷◌, ◌++◌, arith, Bool-cases,
  Option-cases, ◌==◌, eq_of_beq, beq_self, beq_ne, string_eq, nat_eq, pair_eq,
}
use resenhazord.Prelude.Dict
use resenhazord.Prelude.Dict.{get-put-some}
use resenhazord.Command.Run.{contains}
use resenhazord.Distinct.{AllDistinct}
use resenhazord.Mentions.{Group, Docs, names, groups_of, change_first, pull_group, set_name}

abbrev pub EachDistinct : List Group → Type 0
EachDistinct [] = Unit
EachDistinct (g ∷ gs) = AllDistinct g.participants × EachDistinct gs

abbrev pub AreTidy : List Group → Type 0
AreTidy gs = AllDistinct (names gs) × EachDistinct gs

unfoldable pub IsTidy : Docs → Type 0
IsTidy docs = (chat : String) (gs : List Group) → Dict.get docs chat ≡ some gs → AreTidy gs

pub put-IsTidy :
    (docs : Docs) (chat : String) (gs : List Group)
    → IsTidy docs
    → AreTidy gs
    → IsTidy (Dict.put docs chat gs)
unfolding IsTidy
put-IsTidy docs chat gs h tidy other found e = elim (get-put-some docs chat other e) [
  | inl (same, this) ↦ subst AreTidy this tidy
  | inr (ne, that) ↦ h other found that
]

pub groups_of-AreTidy : (docs : Docs) (chat : String) → IsTidy docs → AreTidy (groups_of docs chat)
unfolding IsTidy
groups_of-AreTidy docs chat h = elim (Option-cases (Dict.get docs chat)) [
  | inl e ↦ rw (e, groups_of) (omega arith, omega arith)
  | inr (gs, e) ↦ rw (e, groups_of) (h chat gs e)
]

pub names-append : (gs : List Group) (g : Group) → names (gs ++ g ∷ []) ≡ names gs ++ g.name ∷ []
names-append [] g = refl
names-append (x ∷ gs) g = rw (names-append gs g)

pub append-EachDistinct :
    (gs : List Group) (g : Group)
    → EachDistinct gs
    → AllDistinct g.participants
    → EachDistinct (gs ++ g ∷ [])
append-EachDistinct [] g h d = (d, omega arith)
append-EachDistinct (x ∷ gs) g h d = (h.0, append-EachDistinct gs g h.1 d)

change_first-names :
    (name : String) (change : List String → List String) (gs : List Group)
    → names (change_first name change gs) ≡ names gs
unfolding change_first
change_first-names name change [] = refl
change_first-names name change (g ∷ gs) = elim (Bool-cases (g.name == name)) [
  | inl e ↦ rw (e, change_first) refl
  | inr e ↦ rw (e, change_first) (rw (change_first-names name change gs))
]

change_first-EachDistinct :
    (name : String) (change : List String → List String) (gs : List Group)
    → ((xs : List String) → AllDistinct xs → AllDistinct (change xs))
    → EachDistinct gs
    → EachDistinct (change_first name change gs)
unfolding change_first
change_first-EachDistinct name change [] keeps h = h
change_first-EachDistinct name change (g ∷ gs) keeps h = elim (Bool-cases (g.name == name)) [
  | inl e ↦ rw (e, change_first) (keeps g.participants h.0, h.1)
  | inr e ↦ rw (e, change_first) (h.0, change_first-EachDistinct name change gs keeps h.1)
]

pub change_first-AreTidy :
    (name : String) (change : List String → List String) (gs : List Group)
    → ((xs : List String) → AllDistinct xs → AllDistinct (change xs))
    → AreTidy gs
    → AreTidy (change_first name change gs)
change_first-AreTidy name change gs keeps h =
    (rw (change_first-names name change gs) h.0, change_first-EachDistinct name change gs keeps h.1)

contains-pull_group :
    (name other : String) (gs : List Group)
    → contains other (names gs) ≡ false
    → contains other (names (pull_group name gs)) ≡ false
unfolding contains pull_group
contains-pull_group name other [] h = refl
contains-pull_group name other (g ∷ gs) h = elim (Bool-cases (g.name == name)) [
  | inl e ↦ rw (e, pull_group) (contains-pull_group name other gs (ground (arith, h)))
  | inr e ↦
      rw (e, pull_group) (ground (arith, h, contains-pull_group name other gs (ground (arith, h))))
]

pub pull_group-AreTidy :
    (name : String) (gs : List Group) → AreTidy gs → AreTidy (pull_group name gs)
unfolding pull_group
pull_group-AreTidy name [] h = h
pull_group-AreTidy name (g ∷ gs) h =
    let (distinct, each) = pull_group-AreTidy name gs (h.0.1, h.1.1) in
    elim (Bool-cases (g.name == name)) [
      | inl e ↦ rw (e, pull_group) (distinct, each)
      | inr e ↦
          rw (e, pull_group) ((contains-pull_group name g.name gs h.0.0, distinct), (h.1.0, each))
    ]

-- Where no list has the old name, a renaming changes nothing.
contains-set_name :
    (old new other : String) (gs : List Group)
    → contains other (names gs) ≡ false
    → (new == other) ≡ false
    → contains other (names (set_name old new gs)) ≡ false
unfolding contains set_name
contains-set_name old new other [] h ne = refl
contains-set_name old new other (g ∷ gs) h ne =
    let rest = contains-set_name old new other gs (ground (arith, h)) ne in
    elim (Bool-cases (g.name == old)) [
      | inl e ↦ rw (e, set_name) (ground (arith, h, rest, ne))
      | inr e ↦ rw (e, set_name) (ground (arith, h, rest))
    ]

set_name-absent :
    (old new : String) (gs : List Group)
    → contains old (names gs) ≡ false
    → set_name old new gs ≡ gs
unfolding contains set_name
set_name-absent old new [] h = refl
set_name-absent old new (g ∷ gs) h = elim (Bool-cases (g.name == old)) [
  | inl e ↦ absurd (ground (arith, h, e))
  | inr e ↦ rw (e, set_name) (rw (set_name-absent old new gs (ground (arith, h))))
]

pub set_name-AreTidy :
    (old new : String) (gs : List Group)
    → contains new (names gs) ≡ false
    → AreTidy gs
    → AreTidy (set_name old new gs)
unfolding contains set_name
set_name-AreTidy old new [] free h = h
set_name-AreTidy old new (g ∷ gs) free h = elim (Bool-cases (g.name == old)) [
  | inl e ↦
      let absent : contains old (names gs) ≡ false =
        subst (λ n. contains n (names gs) ≡ false) (eq_of_beq g.name old e) h.0.0 in
      rw (e, set_name) (rw (set_name-absent old new gs absent) ((ground (arith, free), h.0.1), h.1))
  | inr e ↦
      let (distinct, each) = set_name-AreTidy old new gs (ground (arith, free)) (h.0.1, h.1.1) in
      let ne : (new == g.name) ≡ false = beq_ne new g.name (λ p. cc (free, p, beq_self g.name)) in
      rw (e, set_name) ((contains-set_name old new g.name gs h.0.0 ne, distinct), (h.1.0, each))
]
