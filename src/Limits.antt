-- ===== src/Limits.antt =====
-- Counters that are kept in services outside: bot/infrastructure/agent_rate_limiter.py on Redis and
-- bot/infrastructure/idempotent_counter.py on MongoDB. The stores are what the requests make of them,
-- as the services document it; times are seconds.
pub mod Turns
pub mod Redelivery
use resenhazord.Prelude.{
  ℕ, ◌+◌, ◌-◌, String, Bool, true, not, Option, none, some, List, [], ◌∷◌, ◌++◌, leb, if◌then◌else◌,
  length, drop, string_eq, nat_eq, pair_eq,
}
use resenhazord.Prelude.Dict
use resenhazord.Prelude.Dict.{Dict}
use resenhazord.Text.{concat}
use resenhazord.Command.Run.{contains}

-- A key of the limiter: its counter, and when it expires.
pub record Window : Type 0 where
  pub turns : ℕ
  pub until : ℕ

abbrev pub Windows : Type 0
Windows = Dict String Window

abbrev pub max_turns : ℕ
max_turns = 8

abbrev pub window_seconds : ℕ
window_seconds = 600

-- What `conversation` is counted under.
unfoldable pub turns_key : String → String
turns_key conversation = concat "agent_turns" (concat ":" conversation)

abbrev pub fresh_window : ℕ → Window
fresh_window now = record { turns = 0; until = now + window_seconds }

-- SET key 0 EX NX: a key that has expired is not there
unfoldable pub open_window : ℕ → Option Window → Window
open_window now none = fresh_window now
open_window now (some w) = if leb w.until now then fresh_window now else w

-- INCR, which keeps the time to live
abbrev pub increased : Window → Window
increased w = record w { turns = w.turns + 1 }

-- AgentRateLimiter.allow. Without an answer of Redis the turn is allowed.
unfoldable pub allow : Bool → ℕ → Windows → String → Bool × Windows
unfolding open_window turns_key
allow up now windows conversation =
    let w = increased (open_window now (Dict.get windows (turns_key conversation))) in
    if not up
    then (true, windows)
    else (leb w.turns max_turns, Dict.put windows (turns_key conversation) w)

-- The document of an IdempotentCounter: none before the first call.
pub record Counted : Type 0 where
  pub count : ℕ
  pub recent_keys : List String

abbrev pub recent_limit : ℕ
recent_limit = 50

-- $slice: -n
abbrev pub last_of : ℕ → List String → List String
last_of n keys = drop (length keys - n) keys

-- find_one_and_update with upsert and $inc, where the filter is the document's id only
abbrev pub step_by : ℕ → Option Counted → Counted
step_by step none = record { count = step; recent_keys = [] }
step_by step (some c) = record c { count = c.count + step }

-- With the key in the filter and in `$push`: none is the DuplicateKeyError.
unfoldable pub count_key : String → Option Counted → Option Counted
unfolding contains
count_key key none = some (record { count = 1; recent_keys = last_of recent_limit (key ∷ []) })
count_key key (some c) =
    if contains key c.recent_keys
    then none
    else some (record {
      count = c.count + 1;
      recent_keys = last_of recent_limit (c.recent_keys ++ key ∷ []);
    })

-- IdempotentCounter.increment: the document after it, whose count is the answer
unfoldable pub increment : Option Counted → Option String → Counted
unfolding count_key
increment doc none = step_by 1 doc
increment doc (some key) = elim (count_key key doc) [ none ↦ step_by 0 doc | some c ↦ c ]

unfoldable pub increments : Counted → List (Option String) → Counted
unfolding increment
increments c [] = c
increments c (key ∷ keys) = increments (increment (some c) key) keys
