-- ===== src/Config/Cache/Recent.antt =====
-- How old an answer of the cache can be, whatever overlaps.
use resenhazord.Prelude.{
  ℕ, ◌+◌, ◌≤◌, ◌<◌, String, ◌≡◌, refl, subst, inl, inr, some, List, [], arith, Bool-cases, ◌==◌,
  get_elem?, string_eq, nat_eq, pair_eq,
}
use resenhazord.Prelude.Dict
use resenhazord.Prelude.Dict.{get-put-some, get-remove}
use resenhazord.Config.{ChatConfig}
use resenhazord.Config.Store.{ConfigStore}
use resenhazord.Config.Cache.{Entries, ttl, fresh, invalidate}
use resenhazord.Config.Cache.Coherence.{fresh-some}
use resenhazord.Config.Cache.Overlap.{
  Loading, Overlapping, All, All-at, All-set, All-remove_at, All-append, All-map, begin_load, give,
  end_load, Step, passes, misses, gives, ends, writes, invalidates, Reach, here, next, Passes,
  WasShown,
}

module _ {S : Type 0} (c : ConfigStore S) where
  abbrev pub IsLoading : {start s : Overlapping S} → Reach c start s → ℕ → Loading → Type 0
  IsLoading r clock l =
      (l.now ≤ clock)
      × ((config : ChatConfig)
          → l.given ≡ some config
          → WasShown c r l.now l.platform l.native_id config)

  pub record IsShown {start s : Overlapping S} (r : Reach c start s) : Type 0 where
    pub entries :
        (p n : String) (t : ℕ) (config : ChatConfig)
        → Dict.get s.cached.cache (p, n) ≡ some (t, config)
        → WasShown c r t p n config
    pub loads : All (IsLoading r s.clock) s.loading

  later :
      {start s s' : Overlapping S} (r : Reach c start s) (step : Step c s s') {since : ℕ}
      {p n : String} {config : ChatConfig}
      → WasShown c r since p n config
      → WasShown c (next r step) since p n config
  later r step (m, at, young, shown) = (m, inr at, young, shown)

  kept-get :
      (d : Entries) (k j : String × String) (v : ℕ × ChatConfig)
      → Dict.get (Dict.remove d k) j ≡ some v
      → Dict.get d j ≡ some v
  kept-get d k j v h =
      let g = rw (get-remove d k j) at h in
      elim (Bool-cases (k == j)) [ inl same ↦ cc (rw same at g) | inr other ↦ rw other at g ]

  Reach-here : {start s : Overlapping S} (r : Reach c start s) → Passes c r s
  Reach-here here = refl
  Reach-here (next r step) = inl refl

  module _ {start s s' : Overlapping S} (r : Reach c start s) (step : Step c s s')
      (v : IsShown r) where
    -- A step that keeps the clock keeps what is known of the loads; so does one that lets it go on.
    loading-later :
        (clock : ℕ) (ls : List Loading)
        → s.clock ≤ clock
        → All (IsLoading r s.clock) ls
        → All (IsLoading (next r step) clock) ls
    loading-later clock ls h =
        All-map (IsLoading r s.clock) (IsLoading (next r step) clock) ls
          (λ l known. (omega (arith, known.0, h), λ config e. later r step (known.1 config e)))

    entries-later :
        (p n : String) (t : ℕ) (config : ChatConfig)
        → Dict.get s.cached.cache (p, n) ≡ some (t, config)
        → WasShown c (next r step) t p n config
    entries-later p n t config e = later r step (v.entries p n t config e)

  Step-IsShown :
      {start s s' : Overlapping S} (r : Reach c start s) (step : Step c s s')
      → IsShown r
      → IsShown (next r step)
  unfolding begin_load give end_load invalidate
  Step-IsShown {s = s} r (passes t h) v = record {
    entries = entries-later r (passes t h) v;
    loads = loading-later r (passes t h) v t s.loading h v.loads;
  }
  Step-IsShown {s = s} r (misses p n e) v =
      let step = misses p n e in
      record {
        entries = entries-later r step v;
        loads =
            All-append (IsLoading (next r step) s.clock) s.loading _
              (loading-later r step v s.clock s.loading (omega arith) v.loads)
              (omega arith, λ config g. cc);
      }
  Step-IsShown {s = s} r (gives i l e g) v =
      let step = gives i l e g in
      let known = All-at (IsLoading r s.clock) s.loading i l v.loads e in
      record {
        entries = entries-later r step v;
        loads =
            All-set (IsLoading (next r step) s.clock) s.loading i _
              (loading-later r step v s.clock s.loading (omega arith) v.loads)
              (known.0, λ config g'. (s, inr (Reach-here r), known.0, cc g'));
      }
  Step-IsShown {s = s} r (ends i l config e g) v =
      let step = ends i l config e g in
      let known = All-at (IsLoading r s.clock) s.loading i l v.loads e in
      record {
        entries = λ p n t other found.
            elim (get-put-some s.cached.cache (l.platform, l.native_id) (p, n) found) [
              | inl (k, new) ↦
                  let moved : WasShown c r t l.platform l.native_id other =
                    subst (λ (x : ℕ × ChatConfig). WasShown c r x.0 l.platform l.native_id x.1) new
                      (known.1 config g) in
                  later r step
                    (subst (λ (x : String × String). WasShown c r t x.0 x.1 other) k moved)
              | inr (_, old) ↦ entries-later r step v p n t other old
            ];
        loads =
            All-remove_at (IsLoading (next r step) s.clock) s.loading i
              (loading-later r step v s.clock s.loading (omega arith) v.loads);
      }
  Step-IsShown {s = s} r (writes store) v = record {
    entries = entries-later r (writes store) v;
    loads = loading-later r (writes store) v s.clock s.loading (omega arith) v.loads;
  }
  Step-IsShown {s = s} r (invalidates key) v = record {
    entries = λ p n t config found.
        entries-later r (invalidates key) v p n t config
          (kept-get s.cached.cache (key.platform, key.native_id) (p, n) (t, config) found);
    loads = loading-later r (invalidates key) v s.clock s.loading (omega arith) v.loads;
  }

  abbrev pub started : S → ℕ → Overlapping S
  started store clock = record {
    cached = record { store = store; cache = [] };
    loading = [];
    clock = clock;
  }

  Reach-IsShown :
      (store : S) (clock : ℕ) {s : Overlapping S} (r : Reach c (started store clock) s) → IsShown r
  unfolding Dict.get
  Reach-IsShown store clock here = record { entries = λ p n t config e. cc; loads = omega arith }
  Reach-IsShown store clock (next r step) = Step-IsShown r step (Reach-IsShown store clock r)

  -- From an empty cache, however loads and writes overlap and whatever is written behind the cache: what
  -- a load answers from the cache is what the store showed of that chat at some moment less than an hour
  -- before, and what a load answers from the store is what it showed at some moment since that load
  -- began. An edit is seen by every load an hour later, whoever made it.
  pub Reach-recent :
      (store : S) (clock : ℕ) (s : Overlapping S) (r : Reach c (started store clock) s)
      → ((p n : String) (config : ChatConfig)
          → fresh c s.clock (Dict.get s.cached.cache (p, n)) ≡ some config
          → (t : ℕ) × (s.clock < t + ttl) × WasShown c r t p n config)
        × ((i : ℕ) (l : Loading) (config : ChatConfig)
            → get_elem? s.loading i ≡ some l
            → l.given ≡ some config
            → WasShown c r l.now l.platform l.native_id config)
  Reach-recent store clock s r =
      let v = Reach-IsShown store clock r in
      (
        λ p n config e.
            let (t, found, recent) =
              fresh-some c s.clock (Dict.get s.cached.cache (p, n)) config e in
            (t, recent, v.entries p n t config found),
        λ i l config e g. (All-at (IsLoading r s.clock) s.loading i l v.loads e).1 config g,
      )
