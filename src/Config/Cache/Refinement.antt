-- ===== src/Config/Cache/Refinement.antt =====
-- Reads and writes through the cache that follow one another, against the same reads and writes on the
-- store alone. Recent is about calls that overlap.
use resenhazord.Prelude.{
  ℕ, String, ◌≡◌, refl, sym, ◌∙◌, subst, inl, Bool, List, [], ◌∷◌, arith, string_eq, nat_eq,
  pair_eq,
}
use resenhazord.Prelude.Dict
use resenhazord.Config.{ChatPolicy, ChatKey}
use resenhazord.Config.Store.{ConfigStore, StoreLaws}
use resenhazord.Config.Cache.{Cached, load, set_override, clear_override, set_policy}
use resenhazord.Config.Cache.Coherence.{
  SameConfig, IsCoherent, load-SameConfig, load-IsCoherent, store-load, invalidate-IsCoherent,
}

-- One call of the port; a load carries the time at which it is made.
pub data Call : Type 0 where
  read : ℕ → String → String → Call
  write_override : ChatKey → String → Bool → Call
  erase_override : ChatKey → String → Call
  write_policy : ChatKey → ChatPolicy → Call

module _ {S : Type 0} (c : ConfigStore S) where
  abbrev pub call_store : S → Call → S
  call_store s (read now p n) = s
  call_store s (write_override k name on) = c.set_override s k name on
  call_store s (erase_override k name) = c.clear_override s k name
  call_store s (write_policy k q) = c.set_policy s k q

  abbrev pub call_cache : Cached S → Call → Cached S
  call_cache s (read now p n) = (load c s now p n).1
  call_cache s (write_override k name on) = set_override c s k name on
  call_cache s (erase_override k name) = clear_override c s k name
  call_cache s (write_policy k q) = set_policy c s k q

  unfoldable pub run_store : S → List Call → S
  run_store s [] = s
  run_store s (o ∷ os) = run_store (call_store s o) os

  unfoldable pub run_cache : Cached S → List Call → Cached S
  run_cache s [] = s
  run_cache s (o ∷ os) = run_cache (call_cache s o) os

module _ {S : Type 0} (c : ConfigStore S) (V : S → Type 0) (laws : StoreLaws c V) where
  call_store-valid : (s : S) (o : Call) → V s → V (call_store c s o)
  call_store-valid s (read now p n) v = v
  call_store-valid s (write_override k name on) v = laws.set_override_valid s k name on v
  call_store-valid s (erase_override k name) v = laws.clear_override_valid s k name v
  call_store-valid s (write_policy k q) v = laws.set_policy_valid s k q v

  -- The cache sends each write on to the store.
  store-call_cache : (s : Cached S) (o : Call) → (call_cache c s o).store ≡ call_store c s.store o
  unfolding set_override clear_override set_policy
  store-call_cache s (read now p n) = store-load c now s p n
  store-call_cache s (write_override k name on) = refl
  store-call_cache s (erase_override k name) = refl
  store-call_cache s (write_policy k q) = refl

  call_cache-IsCoherent :
      (since : ℕ) (s : Cached S) (o : Call)
      → V s.store
      → IsCoherent c since s
      → IsCoherent c since (call_cache c s o)
  unfolding set_override clear_override set_policy
  call_cache-IsCoherent since s (read now p n) v h = load-IsCoherent c since now s p n h
  call_cache-IsCoherent since s (write_override k name on) v h =
      invalidate-IsCoherent c since s k _ h (λ p n other. record {
        policies = sym (laws.policy-set_override s.store k name on p n v);
        overrides =
            λ d. ground (arith, other, laws.override-set_override s.store k name on p n d v);
      })
  call_cache-IsCoherent since s (erase_override k name) v h =
      invalidate-IsCoherent c since s k _ h (λ p n other. record {
        policies = sym (laws.policy-clear_override s.store k name p n v);
        overrides = λ d. ground (arith, other, laws.override-clear_override s.store k name p n d v);
      })
  call_cache-IsCoherent since s (write_policy k q) v h =
      invalidate-IsCoherent c since s k _ h (λ p n other. record {
        policies = ground (arith, other, laws.policy-set_policy s.store k q p n v);
        overrides = λ d. sym (laws.override-set_policy s.store k q p n d v);
      })

  run-IsCoherent :
      (since : ℕ) (s : Cached S) (os : List Call)
      → V s.store
      → IsCoherent c since s
      → IsCoherent c since (run_cache c s os) × ((run_cache c s os).store ≡ run_store c s.store os)
  unfolding run_cache run_store
  run-IsCoherent since s [] v h = (h, refl)
  run-IsCoherent since s (o ∷ os) v h =
      let e = store-call_cache s o in
      let (coherent, stores) =
        run-IsCoherent since (call_cache c s o) os (rw e (call_store-valid s.store o v))
          (call_cache-IsCoherent since s o v h) in
      (coherent, stores ∙ rw e)

  -- For a store that keeps its contract, from a valid state and an empty cache, after any calls
  -- through the cache that follow one another, each begun after the one before it ended: a load by
  -- the cache has the policy and the overrides that the same writes made directly on the store would
  -- show.
  pub run_cache-load :
      (s : S) (os : List Call) (now : ℕ) (p n : String)
      → V s
      → SameConfig
          (load c (run_cache c (record { store = s; cache = [] }) os) now p n).0
          (c.load (run_store c s os) p n)
  unfolding Dict.get
  run_cache-load s os now p n v =
      let start : Cached S = record { store = s; cache = [] } in
      let (coherent, stores) =
        run-IsCoherent 0 start os v (record { entries = λ q m t config found young. cc }) in
      subst (λ (x : S). SameConfig (load c (run_cache c start os) now p n).0 (c.load x p n)) stores
        (load-SameConfig c 0 now (run_cache c start os) p n coherent (inl refl))
