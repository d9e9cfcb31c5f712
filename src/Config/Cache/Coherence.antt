-- ===== src/Config/Cache/Coherence.antt =====
-- What the cache answers, against the store under it.
use resenhazord.Prelude.{
  ℕ, ◌+◌, ◌≤◌, ◌<◌, String, ◌≡◌, refl, ◌∙◌, subst, ◌⊎◌, inl, inr, false, Option, none, some, arith,
  Bool-cases, Option-cases, string_eq, nat_eq, pair_eq,
}
use resenhazord.Prelude.Dict
use resenhazord.Prelude.Dict.{get-remove, get-put-some}
use resenhazord.Config.{ChatKey, ChatConfig, override_for}
use resenhazord.Config.Store.{ConfigStore, is_chat}
use resenhazord.Config.Cache.{Cached, ttl, fresh, load, invalidate}

-- What a reader can tell of a configuration.
pub record SameConfig (a b : ChatConfig) : Type 0 where
  pub policies : a.policy ≡ b.policy
  pub overrides : (d : String) → override_for a d ≡ override_for b d

pub SameConfig-refl : (a : ChatConfig) → SameConfig a a
SameConfig-refl a = record { policies = refl; overrides = λ d. refl }

pub SameConfig-trans : {a b c : ChatConfig} → SameConfig a b → SameConfig b c → SameConfig a c
SameConfig-trans h g = record {
  policies = h.policies ∙ g.policies;
  overrides = λ d. h.overrides d ∙ g.overrides d;
}

module _ {S : Type 0} (c : ConfigStore S) where
  -- Entries loaded from the time `since` on show what the store shows; `since` 0 is all entries.
  pub record IsCoherent (since : ℕ) (s : Cached S) : Type 0 where
    pub entries :
        (p n : String) (t : ℕ) (config : ChatConfig)
        → Dict.get s.cache (p, n) ≡ some (t, config)
        → since ≤ t
        → SameConfig config (c.load s.store p n)

  pub fresh-some :
      (now : ℕ) (o : Option (ℕ × ChatConfig)) (config : ChatConfig)
      → fresh c now o ≡ some config
      → (t : ℕ) × (o ≡ some (t, config)) × (now < t + ttl)
  unfolding fresh
  fresh-some now none config h = cc
  fresh-some now (some (at, old)) config h = (at, ground (arith), ground arith)

  -- A load of an entry that is recent enough, or of one that is loaded anew, is the store's.
  pub load-SameConfig :
      (since now : ℕ) (s : Cached S) (p n : String)
      → IsCoherent since s
      → (since ≡ 0) ⊎ (since + ttl ≤ now)
      → SameConfig (load c s now p n).0 (c.load s.store p n)
  unfolding load
  load-SameConfig since now s p n h young =
      elim (Option-cases (fresh c now (Dict.get s.cache (p, n)))) [
        | inl e ↦ rw (e, load) (SameConfig-refl _)
        | inr (config, e) ↦
            let (t, found, recent) = fresh-some now (Dict.get s.cache (p, n)) config e in
            rw (e, load) (h.entries p n t config found (omega (arith, recent, young)))
      ]

  pub load-IsCoherent :
      (since now : ℕ) (s : Cached S) (p n : String)
      → IsCoherent since s
      → IsCoherent since (load c s now p n).1
  unfolding load
  load-IsCoherent since now s p n h = elim (Option-cases (fresh c now (Dict.get s.cache (p, n)))) [
    | inl e ↦
        rw (e, load)
          (record {
            entries = λ q m t config found young. elim (get-put-some s.cache (p, n) (q, m) found) [
              | inl (k, v) ↦
                  subst (λ (x : ℕ × ChatConfig). SameConfig x.1 (c.load s.store q m)) v
                    (subst
                      (λ (x : String × String).
                        SameConfig (c.load s.store p n) (c.load s.store x.0 x.1))
                      k (SameConfig-refl (c.load s.store p n)))
              | inr (_, old) ↦ h.entries q m t config old young
            ];
          })
    | inr (config, e) ↦ rw (e, load) h
  ]

  pub store-load : (now : ℕ) (s : Cached S) (p n : String) → (load c s now p n).1.store ≡ s.store
  unfolding load
  store-load now s p n = ground arith

  -- A write that changes nothing for other chats keeps the entries that it leaves.
  module _ (since : ℕ) (s : Cached S) (k : ChatKey) (after : S) (h : IsCoherent since s)
      (kept : (p n : String)
        → is_chat k p n ≡ false
        → SameConfig (c.load s.store p n) (c.load after p n)) where
    pub invalidate-IsCoherent : IsCoherent since (invalidate c (record s { store = after }) k)
    unfolding invalidate
    invalidate-IsCoherent = record {
      entries = λ p n t config found young.
          let g = rw (get-remove s.cache (k.platform, k.native_id) (p, n)) at found in
          elim (Bool-cases (is_chat k p n)) [
            | inl same ↦ cc (same, g)
            | inr other ↦
                SameConfig-trans (h.entries p n t config (rw other at g) young) (kept p n other)
          ];
    }
