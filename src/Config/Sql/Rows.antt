-- ===== src/Config/Sql/Rows.antt =====
-- What `_upsert_chat` of bot/infrastructure/config_store.py leaves in the tables, and what `load` then
-- shows.
use resenhazord.Prelude.{
  ℕ, ◌≤◌, ◌<◌, String, ◌≡◌, refl, sym, ◌∙◌, subst, ◌≢◌, inl, inr, Bool, true, Option, none, some,
  [], ◌∷◌, arith, if◌then◌else◌, Bool-cases, Option-cases, eq_of_beq, pair_beq_iff, string_eq,
  nat_eq, pair_eq,
}
use resenhazord.Prelude.Dict
use resenhazord.Prelude.Dict.{
  Dict, get-empty, get-put-some, get-put_self, get-put_ne, get-put, get-remove,
}
use resenhazord.Config.{ChatPolicy, open_policy, ChatKey, override_for}
use resenhazord.Config.Store.{is_chat}
use resenhazord.Config.Sql.{
  ChatRow, Tables, reference, overrides_of, policy_or, upserted_row, next_after, load, upsert_chat,
  IsValid, no_tables,
}

get-overrides_of :
    (i : ℕ) (rows : Dict (ℕ × String) Bool) (name : String)
    → Dict.get (overrides_of i rows) name ≡ Dict.get rows (i, name)
unfolding overrides_of Dict.get
get-overrides_of i [] name = refl
get-overrides_of i (((j, k), on) ∷ rows) name = ground (arith, get-overrides_of i rows name)

-- What `load` shows of one command.
pub override-load :
    (db : Tables) (p n d : String)
    → override_for (load db p n) d
      ≡ elim (Dict.get db.chats (p, n)) [ none ↦ none | some r ↦ Dict.get db.overrides (r.id, d) ]
unfolding load
override-load db p n d = elim (Option-cases (Dict.get db.chats (p, n))) [
  | inl e ↦ rw (e, load) (get-empty d)
  | inr (r, e) ↦ rw (e, load) (get-overrides_of r.id db.overrides d)
]

pub policy-load :
    (db : Tables) (p n : String)
    → (load db p n).policy
      ≡ elim (Dict.get db.chats (p, n)) [ none ↦ open_policy | some r ↦ r.default_policy ]
unfolding load
policy-load db p n = ground arith

pub IsValid-no_tables : IsValid no_tables
unfolding Dict.get
IsValid-no_tables = record {
  ids_below = λ k r h. cc;
  ids_apart = λ k j r q h g e. cc;
  no_orphans = λ i name h. refl;
}

-- A row under a key that no other row's id contradicts keeps the tables valid.
pub put-IsValid :
    (db : Tables) (k : String × String) (r : ChatRow) (n : ℕ)
    → IsValid db
    → db.next_id ≤ n
    → r.id < n
    → ((j : String × String) (q : ChatRow) → Dict.get db.chats j ≡ some q → q.id ≡ r.id → j ≡ k)
    → IsValid (record db { chats = Dict.put db.chats k r; next_id = n })
put-IsValid db k r n v grows below alone = record {
  ids_below = λ j q h. elim (get-put-some db.chats k j h) [
    | inl (_, same) ↦ subst (λ (x : ChatRow). x.id < n) same below
    | inr (_, old) ↦ omega (arith, v.ids_below j q old)
  ];
  ids_apart = λ i j q s h g same. elim (get-put-some db.chats k i h) [
    | inl (ei, eq) ↦ elim (get-put-some db.chats k j g) [
      | inl (ej, _) ↦ sym ei ∙ ej
      | inr (_, old) ↦ sym ei ∙ sym (alone j s old (cc))
    ]
    | inr (_, first) ↦ elim (get-put-some db.chats k j g) [
      | inl (ej, es) ↦ alone i q first (cc) ∙ ej
      | inr (_, old) ↦ v.ids_apart i j q s first old same
    ]
  ];
  no_orphans = λ i name h. v.no_orphans i name (omega arith);
}

-- The row that the statement leaves, against what was found.
module _ (db : Tables) (v : IsValid db) (key : ChatKey) (fields : Option ChatPolicy) where
  abbrev pub row_of : ChatRow
  row_of = upserted_row db key fields (Dict.get db.chats (reference key))

  pub row-IsFree :
      (o : Option ChatRow)
      → Dict.get db.chats (reference key) ≡ o
      → (db.next_id ≤ next_after db o)
        × ((upserted_row db key fields o).id < next_after db o)
        × ((j : String × String) (q : ChatRow)
            → Dict.get db.chats j ≡ some q
            → q.id ≡ (upserted_row db key fields o).id
            → j ≡ reference key)
  unfolding upserted_row next_after
  row-IsFree none e =
      (omega arith, omega arith, λ j q h same. absurd (omega (arith, v.ids_below j q h)))
  row-IsFree (some r) e = (
    omega arith,
    v.ids_below (reference key) r e,
    λ j q h same. v.ids_apart j (reference key) q r h e same,
  )

  pub upsert-IsValid : IsValid (upsert_chat db key fields).1
  unfolding upsert_chat
  upsert-IsValid =
      let (grows, below, alone) = row-IsFree (Dict.get db.chats (reference key)) refl in
      put-IsValid db (reference key) row_of _ v grows below alone

  -- The overrides of the row are those that the chat showed before.
  overrides-row :
      (o : Option ChatRow)
      → Dict.get db.chats (reference key) ≡ o
      → (d : String)
      → Dict.get db.overrides ((upserted_row db key fields o).id, d)
        ≡ elim o [ none ↦ none | some r ↦ Dict.get db.overrides (r.id, d) ]
  unfolding upserted_row
  overrides-row none e d = v.no_orphans db.next_id d (omega arith)
  overrides-row (some r) e d = refl

policy-row :
    (db : Tables) (key : ChatKey) (fields : Option ChatPolicy) (o : Option ChatRow)
    → (upserted_row db key fields o).default_policy
      ≡ policy_or fields (elim o [ none ↦ open_policy | some r ↦ r.default_policy ])
unfolding upserted_row
policy-row db key fields none = refl
policy-row db key fields (some r) = refl

-- Writing the row does not touch what the other chats show, and no other chat has its id.
module _ (db : Tables) (v : IsValid db) (key : ChatKey) (fields : Option ChatPolicy) where
  pub override-written :
      (rows : Dict (ℕ × String) Bool) (p n d : String)
      → ((r : ChatRow)
          → r.id ≢ (row_of db v key fields).id
          → Dict.get rows (r.id, d) ≡ Dict.get db.overrides (r.id, d))
      → override_for (load (record (upsert_chat db key fields).1 { overrides = rows }) p n) d ≡ (
          if is_chat key p n
          then Dict.get rows ((row_of db v key fields).id, d)
          else override_for (load db p n) d)
  unfolding upsert_chat
  override-written rows p n d kept =
      let row = row_of db v key fields in
      let free = row-IsFree db v key fields (Dict.get db.chats (reference key)) refl in
      rw (override-load, override-load db p n d)
        (elim (Bool-cases (is_chat key p n)) [
          | inl same ↦ rw (get-put db.chats (reference key) (p, n) row, same) refl
          | inr other ↦
              rw (get-put db.chats (reference key) (p, n) row, other)
                (elim (Option-cases (Dict.get db.chats (p, n))) [
                  | inl e ↦ rw e
                  | inr (r, e) ↦ rw e (
                      kept r (λ ids. cc (
                        other,
                        (pair_beq_iff (reference key) (p, n)).1 (sym (free.2 (p, n) r e ids)),
                      )))
                ])
        ])

  pub policy-written :
      (rows : Dict (ℕ × String) Bool) (p n : String)
      → (load (record (upsert_chat db key fields).1 { overrides = rows }) p n).policy
        ≡ (if is_chat key p n then policy_or fields (load db p n).policy else (load db p n).policy)
  unfolding upsert_chat
  policy-written rows p n =
      rw (policy-load, policy-load db p n)
        (elim (Bool-cases (is_chat key p n)) [
          | inl same ↦
              rw (get-put db.chats (reference key) (p, n) (row_of db v key fields), same)
                (rw (policy-row, eq_of_beq (reference key) (p, n) same))
          | inr other ↦ rw (get-put db.chats (reference key) (p, n) (row_of db v key fields), other)
        ])

  pub shown-row :
      (p n d : String)
      → is_chat key p n ≡ true
      → Dict.get db.overrides ((row_of db v key fields).id, d) ≡ override_for (load db p n) d
  shown-row p n d same =
      overrides-row db v key fields (Dict.get db.chats (reference key)) refl d
      ∙ rw (eq_of_beq (reference key) (p, n) same) (sym (override-load db p n d))
