-- ===== src/Config/Sql/Laws.antt =====
-- The tables keep their keys, and what `load` shows after each statement.
use resenhazord.Prelude.{
  ℕ, String, ◌≡◌, refl, sym, ap, ◌∙◌, inl, inr, Bool, true, false, ◌&&◌, none, some, arith,
  if◌then◌else◌, Bool-cases, Option-cases, string_eq, ◌==◌, eq_of_beq, beq_ne, pair_beq_iff, nat_eq,
  pair_eq,
}
use resenhazord.Prelude.Dict
use resenhazord.Prelude.Dict.{
  Dict, get-empty, get-put-some, get-put_self, get-put_ne, get-put, get-remove,
}
use resenhazord.Config.{ChatPolicy, ChatKey, override_for}
use resenhazord.Config.Store.{StoreLaws, is_chat}
use resenhazord.Config.Sql.{
  ChatRow, Tables, reference, load, upsert_chat, set_override, clear_override, set_policy,
  sql_store, IsValid,
}
use resenhazord.Config.Sql.Rows.{
  override-load, policy-load, row_of, row-IsFree, upsert-IsValid, override-written, policy-written,
  shown-row,
}

module _ (db : Tables) (k : ChatKey) (name : String) (on : Bool) (v : IsValid db) where
  set_override-IsValid : IsValid (set_override db k name on)
  unfolding set_override upsert_chat
  set_override-IsValid =
      let after = (upsert_chat db k none).1 in
      let u : IsValid after = upsert-IsValid db v k none in
      let below = (row-IsFree db v k none (Dict.get db.chats (reference k)) refl).1 in
      record {
        ids_below = u.ids_below;
        ids_apart = u.ids_apart;
        no_orphans = λ i d h.
            get-put_ne db.overrides (_, name) (i, d) on
              (λ e. absurd (omega (arith, h, below, ap (λ (x : ℕ × String). x.0) e)))
            ∙ u.no_orphans i d h;
      }

  override-set_override_lem :
      (p n d : String)
      → override_for (load (set_override db k name on) p n) d
        ≡ (if is_chat k p n && name == d then some on else override_for (load db p n) d)
  unfolding set_override upsert_chat
  override-set_override_lem p n d =
      let row = row_of db v k none in
      override-written db v k none (Dict.put db.overrides (row.id, name) on) p n d (λ r ne.
        get-put_ne db.overrides (row.id, name) (r.id, d) on
          (λ e. ne (sym (ap (λ (x : ℕ × String). x.0) e))))
      ∙ ground (
        arith,
        get-put db.overrides (row.id, name) (row.id, d) on,
        shown-row db v k none p n d,
        string_eq.beq_iff name d,
      )

  policy-set_override_lem :
      (p n : String) → (load (set_override db k name on) p n).policy ≡ (load db p n).policy
  unfolding set_override upsert_chat
  policy-set_override_lem p n =
      policy-written db v k none (Dict.put db.overrides ((row_of db v k none).id, name) on) p n
      ∙ ground arith

module _ (db : Tables) (k : ChatKey) (name : String) (v : IsValid db) where
  found-same :
      (p n : String)
      → is_chat k p n ≡ true
      → Dict.get db.chats (p, n) ≡ Dict.get db.chats (reference k)
  found-same p n same = ap (Dict.get db.chats) (sym (eq_of_beq (reference k) (p, n) same))

  -- An override of a chat other than the one cleared is kept.
  kept-remove :
      (r : ChatRow) (p n d : String)
      → Dict.get db.chats (reference k) ≡ some r
      → is_chat k p n ≡ false
      → (q : ChatRow) → Dict.get db.chats (p, n) ≡ some q
      → Dict.get (Dict.remove db.overrides (r.id, name)) (q.id, d) ≡ Dict.get db.overrides (q.id, d)
  kept-remove r p n d e other q f =
      get-remove db.overrides (r.id, name) (q.id, d)
      ∙ rw (
          beq_ne {A = ℕ × String} (r.id, name) (q.id, d)
            (λ g. cc (
              other,
              (pair_beq_iff (reference k) (p, n)).1
                  (v.ids_apart (reference k) (p, n) r q e f (ap (λ (x : ℕ × String). x.0) g)),
            )))

  clear_override-IsValid : IsValid (clear_override db k name)
  unfolding clear_override
  clear_override-IsValid = elim (Option-cases (Dict.get db.chats (reference k))) [
    | inl e ↦ rw (e, clear_override) v
    | inr (r, e) ↦
        rw (e, clear_override)
          record {
            ids_below = v.ids_below;
            ids_apart = v.ids_apart;
            no_orphans = λ i d h.
                get-remove db.overrides (r.id, name) (i, d) ∙ ground (arith, v.no_orphans i d h);
          }
  ]

  override-clear_override_lem :
      (p n d : String)
      → override_for (load (clear_override db k name) p n) d
        ≡ (if is_chat k p n && name == d then none else override_for (load db p n) d)
  unfolding clear_override
  override-clear_override_lem p n d = elim (Option-cases (Dict.get db.chats (reference k))) [
    | inl e ↦ rw (e, clear_override) (ground (arith, override-load db p n d, found-same p n))
    | inr (r, e) ↦
        rw (e, clear_override)
          (rw (override-load, override-load db p n d)
            (elim (Bool-cases (is_chat k p n)) [
              | inl same ↦
                  rw (found-same p n same, e, same)
                    (ground (
                      arith,
                      get-remove db.overrides (r.id, name) (r.id, d),
                      string_eq.beq_iff name d,
                    ))
              | inr other ↦ rw other (elim (Option-cases (Dict.get db.chats (p, n))) [
                | inl f ↦ rw f
                | inr (q, f) ↦ rw f (kept-remove r p n d e other q f)
              ])
            ]))
  ]

  policy-clear_override_lem :
      (p n : String) → (load (clear_override db k name) p n).policy ≡ (load db p n).policy
  unfolding clear_override
  policy-clear_override_lem p n = elim (Option-cases (Dict.get db.chats (reference k))) [
    | inl e ↦ rw (e, clear_override)
    | inr (r, e) ↦ rw (e, clear_override) (rw (policy-load, policy-load db p n))
  ]

module _ (db : Tables) (k : ChatKey) (q : ChatPolicy) (v : IsValid db) where
  set_policy-IsValid : IsValid (set_policy db k q)
  unfolding set_policy
  set_policy-IsValid = upsert-IsValid db v k (some q)

  override-set_policy_lem :
      (p n d : String)
      → override_for (load (set_policy db k q) p n) d ≡ override_for (load db p n) d
  unfolding set_policy upsert_chat
  override-set_policy_lem p n d =
      override-written db v k (some q) db.overrides p n d (λ r ne. refl)
      ∙ ground (arith, shown-row db v k (some q) p n d)

  policy-set_policy_lem :
      (p n : String)
      → (load (set_policy db k q) p n).policy ≡ (if is_chat k p n then q else (load db p n).policy)
  unfolding set_policy upsert_chat
  policy-set_policy_lem p n = policy-written db v k (some q) db.overrides p n

-- The tables implement the contract of the store.
pub sql_store-StoreLaws : StoreLaws sql_store IsValid
sql_store-StoreLaws = record {
  set_override_valid = set_override-IsValid;
  clear_override_valid = clear_override-IsValid;
  set_policy_valid = set_policy-IsValid;
  override-set_override = λ s k name on p n d v. override-set_override_lem s k name on v p n d;
  policy-set_override = λ s k name on p n v. policy-set_override_lem s k name on v p n;
  override-clear_override = λ s k name p n d v. override-clear_override_lem s k name v p n d;
  policy-clear_override = λ s k name p n v. policy-clear_override_lem s k name v p n;
  override-set_policy = λ s k q p n d v. override-set_policy_lem s k q v p n d;
  policy-set_policy = λ s k q p n v. policy-set_policy_lem s k q v p n;
}
