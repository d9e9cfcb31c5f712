-- ===== src/Supervisor.antt =====
-- bot/infrastructure/platform_supervisor.py: the connection of each chat platform. What `connect`
-- does at each attempt is an argument; times are seconds. The tasks of two platforms share nothing
-- but the table of statuses, where each writes its own.
pub mod Ladder
use resenhazord.Prelude.{
  ℕ, ◌*◌, min, String, Bool, true, false, Option, none, some, List, [], ◌∷◌, ◌++◌, if◌then◌else◌,
  string_eq, nat_eq, pair_eq,
}
use resenhazord.Prelude.Dict
use resenhazord.Prelude.Dict.{Dict}

-- PlatformStatus
pub data Status : Type 0 where
  starting retrying up failed : Status

-- How an attempt ends: `connect` returns, it is turned away, or it raises anything else.
pub data Attempt : Type 0 where
  connected rejected broken : Attempt

abbrev pub initial_backoff : ℕ
initial_backoff = 5

abbrev pub max_backoff : ℕ
max_backoff = 300

pub record Supervisor : Type 0 where
  pub statuses : Dict String Status
  -- the platforms that have something to shut down
  pub shutdowns : List String
  -- how long it slept, each time
  pub slept : List (String × ℕ)

-- start, up to the task
unfoldable pub start : Supervisor → String → Supervisor
start s name = record s { statuses = Dict.put s.statuses name starting }

-- _attempt
unfoldable pub attempt : Supervisor → String → Attempt → ℕ → Supervisor
attempt s name connected backoff = record s {
  shutdowns = s.shutdowns ++ name ∷ [];
  statuses = Dict.put s.statuses name up;
}
attempt s name rejected backoff = record s { statuses = Dict.put s.statuses name failed }
attempt s name broken backoff = record s {
  statuses = Dict.put s.statuses name retrying;
  slept = s.slept ++ (name, backoff) ∷ [];
}

-- the status is `up` or `failed`; a platform that was started has one
abbrev pub is_over : Option Status → Bool
is_over (some up) = true
is_over (some failed) = true
is_over (some starting) = false
is_over (some retrying) = false
is_over none = false

-- The loop of `_supervise`, for the attempts that were made so far.
unfoldable pub supervise_loop : Supervisor → String → ℕ → List Attempt → Supervisor
unfolding attempt
supervise_loop s name backoff [] = s
supervise_loop s name backoff (a ∷ attempts) =
    let rest =
      supervise_loop (attempt s name a backoff) name (min (backoff * 2) max_backoff) attempts in
    if is_over (Dict.get s.statuses name) then s else rest

-- start, with its task
unfoldable pub supervise : Supervisor → String → List Attempt → Supervisor
unfolding start supervise_loop
supervise s name attempts = supervise_loop (start s name) name initial_backoff attempts
