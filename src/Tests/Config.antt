-- ===== src/Tests/Config.antt =====
-- The configuration of chats at concrete inputs.
use resenhazord.Prelude.{
  ℕ, ◌+◌, ◌<◌, String, ◌≡◌, refl, true, none, some, List, [], ◌∷◌, get_elem?, string_eq, nat_eq,
  pair_eq,
}
use resenhazord.Prelude.Dict
use resenhazord.Config.{ChatKey, ChatConfig, group_chat, override_for, curated_policy}
use resenhazord.Config.Sql.{
  Tables, no_tables, sql_store, load, set_override, upsert_chat, upserted_row, overrides_of,
  IsValid,
}
use resenhazord.Config.Sql.Rows.{IsValid-no_tables}
use resenhazord.Config.Sql.Laws.{sql_store-StoreLaws}
use resenhazord.Config.Cache.{ttl, fresh, invalidate}
use resenhazord.Config.Cache as Cache
use resenhazord.Config.Cache.Coherence.{SameConfig}
use resenhazord.Config.Cache.Refinement.{
  Call, read, write_override, erase_override, write_policy, run_store, run_cache, run_cache-load,
}
use resenhazord.Config.Cache.Overlap.{
  Loading, Overlapping, begin_load, give, end_load, misses, gives, ends, writes, invalidates, Reach,
  here, next, WasShown,
}
use resenhazord.Config.Cache.Recent.{started, Reach-recent}

abbrev chat : ChatKey
chat = record { platform = "whatsapp"; native_id = "1@g.us"; type = group_chat }

abbrev calls : List Call
calls =
    read 10 "whatsapp" "1@g.us"
    ∷ write_override chat "hentai" true
    ∷ write_policy chat curated_policy
    ∷ read 20 "whatsapp" "1@g.us"
    ∷ erase_override chat "car"
    ∷ []

load_run :
    override_for (load (set_override no_tables chat "hentai" true) "whatsapp" "1@g.us") "hentai"
    ≡ some true
unfolding load set_override upsert_chat upserted_row overrides_of Dict.get Dict.put
load_run = refl

run_cache-load_example :
    SameConfig
      (Cache.load sql_store
        (run_cache sql_store (record { store = no_tables; cache = [] }) calls)
        30
        "whatsapp"
        "1@g.us").0
      (load (run_store sql_store no_tables calls) "whatsapp" "1@g.us")
run_cache-load_example =
    run_cache-load sql_store IsValid sql_store-StoreLaws no_tables calls 30 "whatsapp" "1@g.us"
      IsValid-no_tables

-- A load reads the store, then `hentai` is switched on and the entry is invalidated, and only then the
-- load makes its entry: it is stale.
abbrev at_start : Overlapping Tables
at_start = started sql_store no_tables 10

abbrev asked : Loading
asked = record { platform = "whatsapp"; native_id = "1@g.us"; now = 10; given = none }

abbrev given : Loading
given = record asked { given = some (load no_tables "whatsapp" "1@g.us") }

abbrev written : Overlapping Tables
written =
    let s = give sql_store (begin_load sql_store at_start "whatsapp" "1@g.us") 0 asked in
    record s { cached = record s.cached { store = set_override no_tables chat "hentai" true } }

abbrev invalidated : Overlapping Tables
invalidated = record written { cached = invalidate sql_store written.cached chat }

abbrev stale : Overlapping Tables
stale = end_load sql_store invalidated 0 given (load no_tables "whatsapp" "1@g.us")

overlapped : Reach sql_store at_start stale
unfolding begin_load give Dict.get fresh
overlapped =
    next
      (next
        (next (next (next here (misses "whatsapp" "1@g.us" refl)) (gives 0 asked refl refl))
          (writes (set_override no_tables chat "hentai" true)))
        (invalidates chat))
      (ends 0 given (load no_tables "whatsapp" "1@g.us") refl refl)

Reach-recent_example :
    ((p n : String) (config : ChatConfig)
      → fresh sql_store 10 (Dict.get stale.cached.cache (p, n)) ≡ some config
      → (t : ℕ) × (10 < t + ttl) × WasShown sql_store overlapped t p n config)
    × ((i : ℕ) (l : Loading) (config : ChatConfig)
        → get_elem? stale.loading i ≡ some l
        → l.given ≡ some config
        → WasShown sql_store overlapped l.now l.platform l.native_id config)
unfolding begin_load give end_load
Reach-recent_example = Reach-recent sql_store no_tables 10 stale overlapped
