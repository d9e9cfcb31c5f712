-- ===== src/Broker.antt =====
-- The envelopes of the command queue, and what decides how they are delivered:
-- bot/adapters/broker/delivery_guard.py and retry_router.py, with bot/infrastructure/command_inbox.py
-- and scripts/replay_dlq.py.
pub mod Ladder
pub mod Consumer
use resenhazord.Prelude.{
  ℕ, ◌+◌, String, Bool, true, false, Option, none, some, List, [], ◌∷◌, ltb, if◌then◌else◌, ◌==◌,
  string_eq, nat_eq, pair_eq,
}
use resenhazord.Text.{concat}
use resenhazord.Command.Run.{contains, ErrorClass, is_download}

pub record Envelope : Type 0 where
  pub id : String
  pub jid : String
  pub message_id : Option String
  pub attempts : ℕ
  pub replayed : Bool

-- DeliveryGuard._key
unfoldable pub key_of : Envelope → Option String
key_of e = elim e.message_id [
  | none ↦ none
  | some m ↦ if m == "" then none else some (concat e.jid (concat ":" m))
]

-- The key that a claim takes: a replay neither checks nor takes it.
unfoldable pub claim_key : Envelope → Option String
unfolding key_of
claim_key e = if e.replayed then none else key_of e

-- `key in self._running`, where no key is never in it
abbrev pub is_running : Option String → List String → Bool
is_running none running = false
is_running (some k) running = contains k running

-- self._running.discard(key)
unfoldable pub discard : Option String → List String → List String
discard none running = running
discard (some k) [] = []
discard (some k) (x ∷ running) =
    let rest = discard (some k) running in if x == k then rest else x ∷ rest

-- RedisCommandInbox.is_done and mark_done. `up` is whether Redis answers: where it does not, nothing
-- is done and nothing is marked.
unfoldable pub is_done : Bool → List String → String → Bool
is_done up done k = if up then contains k done else false

unfoldable pub mark_done : Bool → List String → String → List String
mark_done up done k = if up then k ∷ done else done

-- already_answered; an inbox that is None is one that is never up
unfoldable pub already_answered : Bool → Envelope → List String → Bool
unfolding key_of is_done
already_answered up e done =
    if e.replayed then false else elim (key_of e) [ none ↦ false | some k ↦ is_done up done k ]

-- mark_answered
unfoldable pub mark_answered : Bool → Envelope → List String → List String
unfolding key_of mark_done
mark_answered up e done = elim (key_of e) [ none ↦ done | some k ↦ mark_done up done k ]

-- MAX_ATTEMPTS, DOWNLOAD_MAX_ATTEMPTS and _max_attempts
abbrev pub max_attempts : ErrorClass → ℕ
max_attempts error = if is_download error then 1 else 3

-- Where RetryRouter.route sends the envelope.
pub data Route : Type 0 where
  retried dead_lettered : Envelope → Route

unfoldable pub route : Envelope → ErrorClass → Route
route e error =
    let attempts = e.attempts + 1 in
    if ltb attempts (max_attempts error)
    then retried (record e { attempts = attempts })
    else dead_lettered e

-- DlqReplayer.replay, for one envelope
abbrev pub replay : Envelope → Envelope
replay e = record e { attempts = 0; replayed = true }
