-- ===== src/Config/Cache/Overlap.antt =====
-- Calls of the cache that overlap: a load awaits the store between its look into the cache and its
-- entry, and a write awaits it before its invalidation. Each stretch between two waits is one step, and
-- the store may also change behind the cache.
use resenhazord.Prelude.{
  ℕ, zero, suc, ◌≤◌, String, ◌≡◌, subst, ◌⊎◌, Option, none, some, List, [], ◌∷◌, ◌++◌, get_elem?,
  set, remove_at, string_eq, nat_eq, pair_eq,
}
use resenhazord.Prelude.Dict
use resenhazord.Prelude.Dict.{get-put-some, get-remove}
use resenhazord.Config.{ChatKey, ChatConfig}
use resenhazord.Config.Store.{ConfigStore}
use resenhazord.Config.Cache.{Cached, fresh, keep, invalidate}

-- A load that found no fresh entry: its chat, its `now`, and what the store has given it.
pub record Loading : Type 0 where
  pub platform : String
  pub native_id : String
  pub now : ℕ
  pub given : Option ChatConfig

pub record Overlapping (S : Type 0) : Type 0 where
  pub cached : Cached S
  pub loading : List Loading
  pub clock : ℕ

abbrev pub All : (Loading → Type 0) → List Loading → Type 0
All P [] = Unit
All P (l ∷ ls) = P l × All P ls

pub All-at :
    (P : Loading → Type 0) (ls : List Loading) (i : ℕ) (l : Loading)
    → All P ls
    → get_elem? ls i ≡ some l
    → P l
All-at P [] i l h e = cc
All-at P (x ∷ ls) zero l h e = let same : x ≡ l = cc e in subst P same h.0
All-at P (x ∷ ls) (suc i) l h e = All-at P ls i l h.1 e

pub All-set :
    (P : Loading → Type 0) (ls : List Loading) (i : ℕ) (l : Loading)
    → All P ls
    → P l
    → All P (set ls i l)
All-set P [] i l h p = h
All-set P (x ∷ ls) zero l h p = (p, h.1)
All-set P (x ∷ ls) (suc i) l h p = (h.0, All-set P ls i l h.1 p)

pub All-remove_at :
    (P : Loading → Type 0) (ls : List Loading) (i : ℕ) → All P ls → All P (remove_at ls i)
unfolding remove_at
All-remove_at P [] i h = h
All-remove_at P (x ∷ ls) zero h = h.1
All-remove_at P (x ∷ ls) (suc i) h = (h.0, All-remove_at P ls i h.1)

pub All-append :
    (P : Loading → Type 0) (ls : List Loading) (l : Loading) → All P ls → P l → All P (ls ++ l ∷ [])
All-append P [] l h p = (p, h)
All-append P (x ∷ ls) l h p = (h.0, All-append P ls l h.1 p)

pub All-map :
    (P Q : Loading → Type 0) (ls : List Loading) → ((l : Loading) → P l → Q l) → All P ls → All Q ls
All-map P Q [] f h = h
All-map P Q (x ∷ ls) f h = (f x h.0, All-map P Q ls f h.1)

module _ {S : Type 0} (c : ConfigStore S) where
  -- Time passes; a load begins and finds nothing; the store answers it; it makes its entry and returns;
  -- the store changes, by the write of a call or behind the cache; a call that has written invalidates.
  unfoldable pub begin_load : Overlapping S → String → String → Overlapping S
  begin_load s platform native_id = record s {
    loading =
        s.loading
        ++ record { platform = platform; native_id = native_id; now = s.clock; given = none } ∷ [];
  }

  unfoldable pub give : Overlapping S → ℕ → Loading → Overlapping S
  give s i l = record s {
    loading =
        set s.loading i (record l { given = some (c.load s.cached.store l.platform l.native_id) });
  }

  unfoldable pub end_load : Overlapping S → ℕ → Loading → ChatConfig → Overlapping S
  end_load s i l config = record s {
    cached = keep c s.cached l.platform l.native_id l.now config;
    loading = remove_at s.loading i;
  }

  pub data Step (s : Overlapping S) : Overlapping S → Type 0 where
    passes : (t : ℕ) → s.clock ≤ t → Step s (record s { clock = t })
    misses :
        (p n : String)
        → fresh c s.clock (Dict.get s.cached.cache (p, n)) ≡ none
        → Step s (begin_load s p n)
    gives :
        (i : ℕ) (l : Loading)
        → get_elem? s.loading i ≡ some l
        → l.given ≡ none
        → Step s (give s i l)
    ends :
        (i : ℕ) (l : Loading) (config : ChatConfig)
        → get_elem? s.loading i ≡ some l
        → l.given ≡ some config
        → Step s (end_load s i l config)
    writes : (store : S) → Step s (record s { cached = record s.cached { store = store } })
    invalidates : (key : ChatKey) → Step s (record s { cached = invalidate c s.cached key })

  pub data Reach (start : Overlapping S) : Overlapping S → Type 0 where
    here : Reach start start
    next : {s s' : Overlapping S} → Reach start s → Step s s' → Reach start s'

  -- The run passes the state `m`.
  abbrev pub Passes : {start s : Overlapping S} → Reach start s → Overlapping S → Type 0
  Passes {start} here m = m ≡ start
  Passes (next {s} {s'} r step) m = (m ≡ s') ⊎ Passes r m

  -- At some state of the run, at the time `since` or later, the store showed the configuration.
  abbrev pub WasShown :
      {start s : Overlapping S} → Reach start s → ℕ → String → String → ChatConfig → Type 0
  WasShown r since p n config =
      (m : Overlapping S) × Passes r m × (since ≤ m.clock) × (config ≡ c.load m.cached.store p n)
