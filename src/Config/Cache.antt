-- ===== src/Config/Cache.antt =====
-- bot/infrastructure/cached_config_store.py: a store that remembers what it loaded. Time is a
-- monotonic clock, counted in milliseconds. The cache stands over any store, so the section takes
-- its operations; two processes never share one cache.
pub mod Coherence
pub mod Refinement
pub mod Overlap
pub mod Recent
use resenhazord.Prelude.{
  ℕ, ◌+◌, String, Bool, Option, none, some, ltb, if◌then◌else◌, string_eq, nat_eq, pair_eq,
}
use resenhazord.Prelude.Dict
use resenhazord.Prelude.Dict.{Dict}
use resenhazord.Config.{ChatPolicy, ChatKey, ChatConfig}
use resenhazord.Config.Store.{ConfigStore}

-- _TTL_SECONDS
abbrev pub ttl : ℕ
ttl = 3600000

abbrev pub Entries : Type 0
Entries = Dict (String × String) (ℕ × ChatConfig)

pub record Cached (S : Type 0) : Type 0 where
  pub store : S
  pub cache : Entries

module _ {S : Type 0} (c : ConfigStore S) where
  -- `cached is not None and now - cached[0] < self._TTL_SECONDS`; the clock never goes back
  unfoldable pub fresh : ℕ → Option (ℕ × ChatConfig) → Option ChatConfig
  fresh now none = none
  fresh now (some (at, config)) = if ltb now (at + ttl) then some config else none

  -- self._cache[cache_key] = (now, config), with the time at which the load began
  abbrev pub keep : Cached S → String → String → ℕ → ChatConfig → Cached S
  keep s platform native_id now config = record s {
    cache = Dict.put s.cache (platform, native_id) (now, config);
  }

  -- The answer, and the cache with what was loaded, of a load that no other call interrupts. Overlap
  -- has its parts as steps, between which others may write.
  unfoldable pub load : Cached S → ℕ → String → String → ChatConfig × Cached S
  load s now platform native_id = elim (fresh now (Dict.get s.cache (platform, native_id))) [
    | some config ↦ (config, s)
    | none ↦
        let config = c.load s.store platform native_id in
        (config, keep s platform native_id now config)
  ]

  unfoldable pub invalidate : Cached S → ChatKey → Cached S
  invalidate s key = record s { cache = Dict.remove s.cache (key.platform, key.native_id) }

  unfoldable pub set_override : Cached S → ChatKey → String → Bool → Cached S
  unfolding invalidate
  set_override s key command_name enabled =
      invalidate (record s { store = c.set_override s.store key command_name enabled }) key

  unfoldable pub clear_override : Cached S → ChatKey → String → Cached S
  unfolding invalidate
  clear_override s key command_name =
      invalidate (record s { store = c.clear_override s.store key command_name }) key

  unfoldable pub set_policy : Cached S → ChatKey → ChatPolicy → Cached S
  unfolding invalidate
  set_policy s key policy = invalidate (record s { store = c.set_policy s.store key policy }) key
