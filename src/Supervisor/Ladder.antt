-- ===== src/Supervisor/Ladder.antt =====
-- The waits of the supervisor, and how its loop ends.
use resenhazord.Prelude.{
  ℕ, zero, suc, ◌*◌, ◌^◌, ◌<◌, min, String, ◌≡◌, refl, sym, ap, ◌∙◌, ◌≢◌, true, false, some, List,
  [], ◌∷◌, ◌++◌, arith, get_elem?, append_assoc, append_nil, replicate, string_eq, nat_eq, pair_eq,
}
use resenhazord.Prelude.Dict
use native.Mathlib.Numerals.{unary_clauses}
use resenhazord.Supervisor.{
  Status, starting, retrying, up, failed, Attempt, connected, rejected, broken, initial_backoff,
  max_backoff, Supervisor, start, attempt, is_over, supervise_loop, supervise,
}

-- The waits of `k` attempts that break, from one wait on.
unfoldable pub waits : String → ℕ → ℕ → List (String × ℕ)
waits name backoff zero = []
waits name backoff (suc k) = (name, backoff) ∷ waits name (min (backoff * 2) max_backoff) k

-- The state after `k` attempts that break.
abbrev pub after_broken : Supervisor → String → ℕ → ℕ → Supervisor
after_broken s name backoff zero = s
after_broken s name backoff (suc k) =
    after_broken (attempt s name broken backoff) name (min (backoff * 2) max_backoff) k

-- What is waited next, after `k` waits.
abbrev pub backoff_after : ℕ → ℕ → ℕ
backoff_after backoff zero = backoff
backoff_after backoff (suc k) = backoff_after (min (backoff * 2) max_backoff) k

after_broken-slept :
    (s : Supervisor) (name : String) (backoff k : ℕ)
    → (after_broken s name backoff k).slept ≡ s.slept ++ waits name backoff k
unfolding waits attempt
after_broken-slept s name backoff zero = sym (append_nil s.slept)
after_broken-slept s name backoff (suc k) =
    after_broken-slept (attempt s name broken backoff) name (min (backoff * 2) max_backoff) k
    ∙ append_assoc s.slept ((name, backoff) ∷ []) (waits name (min (backoff * 2) max_backoff) k)

double_power : (b k : ℕ) → b * 2 * 2 ^ k ≡ b * 2 ^ suc k
double_power b k = simp unary_clauses (omega arith)

backoff_after-power :
    (backoff k : ℕ) → backoff_after (min backoff max_backoff) k ≡ min (backoff * 2 ^ k) max_backoff
backoff_after-power backoff zero = simp unary_clauses (omega arith)
backoff_after-power backoff (suc k) =
    ap (λ b. backoff_after b k) {y = min (backoff * 2) max_backoff} (omega arith)
    ∙ backoff_after-power (backoff * 2) k
    ∙ ap (λ b. min b max_backoff) (double_power backoff k)

waits-backoff :
    (name : String) (backoff k i : ℕ)
    → i < k
    → get_elem? (waits name backoff k) i ≡ some (name, backoff_after backoff i)
unfolding waits
waits-backoff name backoff zero i h = absurd (omega (arith, h))
waits-backoff name backoff (suc k) zero h = refl
waits-backoff name backoff (suc k) (suc i) h =
    waits-backoff name (min (backoff * 2) max_backoff) k i (omega arith)

-- The loop does nothing more once the platform is up or failed.
supervise_loop-over :
    (s : Supervisor) (name : String) (backoff : ℕ) (l : List Attempt)
    → is_over (Dict.get s.statuses name) ≡ true
    → supervise_loop s name backoff l ≡ s
unfolding supervise_loop
supervise_loop-over s name backoff [] h = refl
supervise_loop-over s name backoff (a ∷ l) h = rw h refl

abbrev pub status_after : Attempt → Status
status_after connected = up
status_after rejected = failed
status_after broken = retrying

attempt-status :
    (s : Supervisor) (name : String) (a : Attempt) (b : ℕ)
    → Dict.get (attempt s name a b).statuses name ≡ some (status_after a)
unfolding attempt
attempt-status s name connected b = Dict.get-put_self s.statuses name up
attempt-status s name rejected b = Dict.get-put_self s.statuses name failed
attempt-status s name broken b = Dict.get-put_self s.statuses name retrying

attempt-other :
    (s : Supervisor) (name : String) (a : Attempt) (b : ℕ) (other : String)
    → name ≢ other
    → Dict.get (attempt s name a b).statuses other ≡ Dict.get s.statuses other
unfolding attempt
attempt-other s name connected b other h = Dict.get-put_ne s.statuses name other up h
attempt-other s name rejected b other h = Dict.get-put_ne s.statuses name other failed h
attempt-other s name broken b other h = Dict.get-put_ne s.statuses name other retrying h

attempt-over :
    (s : Supervisor) (name : String) (a : Attempt) (b : ℕ)
    → a ≢ broken
    → is_over (Dict.get (attempt s name a b).statuses name) ≡ true
attempt-over s name connected b h = rw (attempt-status s name connected b)
attempt-over s name rejected b h = rw (attempt-status s name rejected b)
attempt-over s name broken b h = absurd (h refl)

supervise_loop-ends :
    (s : Supervisor) (name : String) (backoff k : ℕ) (a : Attempt) (more : List Attempt)
    → is_over (Dict.get s.statuses name) ≡ false
    → a ≢ broken
    → supervise_loop s name backoff (replicate k broken ++ a ∷ more)
      ≡ attempt (after_broken s name backoff k) name a (backoff_after backoff k)
unfolding supervise_loop
supervise_loop-ends s name backoff zero a more h g = rw h (
    supervise_loop-over (attempt s name a backoff) name (min (backoff * 2) max_backoff) more
      (attempt-over s name a backoff g))
supervise_loop-ends s name backoff (suc k) a more h g = rw h (
    supervise_loop-ends (attempt s name broken backoff) name (min (backoff * 2) max_backoff) k a
      more (rw (attempt-status s name broken backoff)) g)

after_broken-other :
    (s : Supervisor) (name : String) (backoff k : ℕ) (other : String)
    → name ≢ other
    → Dict.get (after_broken s name backoff k).statuses other ≡ Dict.get s.statuses other
after_broken-other s name backoff zero other h = refl
after_broken-other s name backoff (suc k) other h =
    after_broken-other (attempt s name broken backoff) name (min (backoff * 2) max_backoff) k other
      h
    ∙ attempt-other s name broken backoff other h

after_broken-shutdowns :
    (s : Supervisor) (name : String) (backoff k : ℕ)
    → (after_broken s name backoff k).shutdowns ≡ s.shutdowns
unfolding attempt
after_broken-shutdowns s name backoff zero = refl
after_broken-shutdowns s name backoff (suc k) =
    after_broken-shutdowns (attempt s name broken backoff) name (min (backoff * 2) max_backoff) k

abbrev pub kept_open : Attempt → String → List String
kept_open connected name = name ∷ []
kept_open rejected name = []
kept_open broken name = []

attempt-shutdowns :
    (s : Supervisor) (name : String) (a : Attempt) (b : ℕ)
    → (attempt s name a b).shutdowns ≡ s.shutdowns ++ kept_open a name
unfolding attempt
attempt-shutdowns s name connected b = refl
attempt-shutdowns s name rejected b = sym (append_nil s.shutdowns)
attempt-shutdowns s name broken b = sym (append_nil s.shutdowns)

attempt-slept :
    (s : Supervisor) (name : String) (a : Attempt) (b : ℕ)
    → a ≢ broken
    → (attempt s name a b).slept ≡ s.slept
unfolding attempt
attempt-slept s name connected b h = refl
attempt-slept s name rejected b h = refl
attempt-slept s name broken b h = absurd (h refl)

-- A platform that is started and breaks `k` times before it connects or is turned away ends there,
-- whatever would have followed: it is up or failed, it waited once for each attempt that broke, it has
-- something to shut down exactly if it connected, and no other platform has another status.
pub supervise-ends :
    (s : Supervisor) (name : String) (k : ℕ) (a : Attempt) (more : List Attempt)
    → a ≢ broken
    → (Dict.get (supervise s name (replicate k broken ++ a ∷ more)).statuses name
        ≡ some (status_after a))
      × ((supervise s name (replicate k broken ++ a ∷ more)).slept
          ≡ s.slept ++ waits name initial_backoff k)
      × ((supervise s name (replicate k broken ++ a ∷ more)).shutdowns
          ≡ s.shutdowns ++ kept_open a name)
      × ((other : String)
          → name ≢ other
          → Dict.get (supervise s name (replicate k broken ++ a ∷ more)).statuses other
            ≡ Dict.get s.statuses other)
unfolding supervise start
supervise-ends s name k a more h =
    let s0 : Supervisor = start s name in
    let last : Supervisor = after_broken s0 name initial_backoff k in
    let b : ℕ = backoff_after initial_backoff k in
    rw
      (supervise_loop-ends s0 name initial_backoff k a more
        (rw (Dict.get-put_self s.statuses name starting)) h)
      (
        attempt-status last name a b,
        attempt-slept last name a b h ∙ after_broken-slept s0 name initial_backoff k,
        attempt-shutdowns last name a b
            ∙ ap (λ l. l ++ kept_open a name) (after_broken-shutdowns s0 name initial_backoff k),
        λ other ne.
            attempt-other last name a b other ne
            ∙ after_broken-other s0 name initial_backoff k other ne
            ∙ Dict.get-put_ne s.statuses name other starting ne,
      )

-- Where nothing slept before, the wait after the attempt number `i`, counted from 0, of those that
-- break is five seconds times two to the power `i`, and five minutes at most.
pub supervise-backoff :
    (s : Supervisor) (name : String) (k i : ℕ) (a : Attempt) (more : List Attempt)
    → s.slept ≡ []
    → a ≢ broken
    → i < k
    → get_elem? (supervise s name (replicate k broken ++ a ∷ more)).slept i
      ≡ some (name, min (initial_backoff * 2 ^ i) max_backoff)
supervise-backoff s name k i a more fresh h small = rw ((supervise-ends s name k a more h).1) (
    rw fresh (
      waits-backoff name initial_backoff k i small
      ∙ ap (λ b. some (name, b)) (backoff_after-power initial_backoff i)))
