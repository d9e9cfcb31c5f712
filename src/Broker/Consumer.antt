-- ===== src/Broker/Consumer.antt =====
-- bot/adapters/broker/command_consumer.py: the deliveries of the command queue. The tasks interleave
-- where the code awaits, so each stretch between two waits is one step. Redis may fail at any request
-- of the inbox, a key of it expires after a day, and a publication may raise. A crash of the process
-- is not a step here, nor is a body that is no command, which raises before the claim.
pub mod Exclusive
pub mod Steps
pub mod Answered
pub mod Lane
pub mod Runs
pub mod Weights
pub mod Drain
use resenhazord.Prelude.{
  ℕ, String, ◌≡◌, Bool, true, false, not, Option, none, some, List, [], ◌∷◌, ◌++◌, if◌then◌else◌,
  get_elem?, set, remove_at,
}
use resenhazord.Command.{CommandConfig}
use resenhazord.Command.Run.{
  contains, ErrorClass, is_external, Raised, bot, unexpected, Result, ok, raised,
}
use resenhazord.Message.{BotMessage}
use resenhazord.Broker.{
  Envelope, claim_key, is_running, discard, already_answered, mark_answered, Route, retried,
  dead_lettered, route,
}

-- How far a delivery has come: it holds its claim, the handler looks for its command, it waits for the
-- exclusive lane, its command runs, its reply is published.
pub data Stage : Type 0 where
  claimed running waiting executing replied : Stage

pub record Delivery : Type 0 where
  pub envelope : Envelope
  pub stage : Stage
  -- the command that was matched is exclusive
  pub exclusive : Bool
  -- it holds the exclusive lane
  pub in_lane : Bool

pub record Consumer : Type 0 where
  pub active : List Delivery
  -- DeliveryGuard._running, and what the inbox remembers
  pub keys : List String
  pub done : List String
  -- whether the lock of the exclusive lane is taken
  pub lane : Bool
  -- what was published: the envelopes answered, and the two queues
  pub replies : List Envelope
  pub retry_queue : List Envelope
  pub dead_letters : List Envelope

abbrev pub idle_consumer : Consumer
idle_consumer = record {
  active = [];
  keys = [];
  done = [];
  lane = false;
  replies = [];
  retry_queue = [];
  dead_letters = [];
}

abbrev pub add_key : Option String → List String → List String
add_key none keys = keys
add_key (some k) keys = k ∷ keys

-- The claim of `_process`: a duplicate of a running command is skipped.
unfoldable pub arrive : Consumer → Envelope → Consumer
arrive c e = if is_running (claim_key e) c.keys then c else record c {
  keys = add_key (claim_key e) c.keys;
  active =
      c.active ++ record { envelope = e; stage = claimed; exclusive = false; in_lane = false } ∷ [];
}

-- The end of a delivery: its claim is released, and the lane with it.
unfoldable pub release : Consumer → ℕ → Delivery → Consumer
release c i d = record c {
  active = remove_at c.active i;
  keys = discard (claim_key d.envelope) c.keys;
  lane = if d.in_lane then false else c.lane;
}

-- `_answer` up to the handler: a command that was answered is dropped. `up` is whether there is an
-- inbox that answers.
unfoldable pub begin : Consumer → ℕ → Delivery → Bool → Consumer
unfolding release
begin c i d up =
    if already_answered up d.envelope c.done
    then release c i d
    else record c { active = set c.active i (record d { stage = running }) }

-- _enter_lane of the command that the handler matched, up to the lock
unfoldable pub match_command : Consumer → ℕ → Delivery → CommandConfig → Consumer
match_command c i d config =
    if not config.exclusive
    then record c { active = set c.active i (record d { stage = executing }) }
    else record c { active = set c.active i (record d { stage = waiting; exclusive = true }) }

-- _enter_lane once the lock is free
unfoldable pub enter_lane : Consumer → ℕ → Delivery → Consumer
enter_lane c i d = record c {
  active = set c.active i (record d { stage = executing; in_lane = true });
  lane = true;
}

-- _publish_reply up to the publication; where that raises, the delivery ends
unfoldable pub publish_reply : Consumer → ℕ → Delivery → Bool → Consumer
unfolding release
publish_reply c i d published = if not published then release c i d else record c {
  active = set c.active i (record d { stage = replied });
  replies = d.envelope ∷ c.replies;
}

-- What follows from the answer of the command handler: a reply, a retry, or a dead letter and a
-- reply. `routed` and `published` are whether the router and the reply can be published.
unfoldable pub answer :
    Consumer → ℕ → Delivery → Result (Option (List BotMessage)) → Bool → Bool → Consumer
unfolding publish_reply release
answer c i d (ok messages) routed published = publish_reply c i d published
answer c i d (raised unexpected) routed published = publish_reply c i d published
answer c i d (raised (bot error message)) routed published =
    if not (is_external error)
    then publish_reply c i d published
    else if not routed
    then release c i d
    else elim (route d.envelope error) [
      | retried e ↦ release (record c { retry_queue = e ∷ c.retry_queue }) i d
      | dead_lettered e ↦
          publish_reply (record c { dead_letters = e ∷ c.dead_letters }) i d published
    ]

-- mark_answered, and the end
unfoldable pub finish : Consumer → ℕ → Delivery → Bool → Consumer
unfolding release
finish c i d up = release (record c { done = mark_answered up d.envelope c.done }) i d

-- A key of the inbox expires.
unfoldable pub forget : Consumer → String → Consumer
forget c k = record c { done = discard (some k) c.done }

-- The handler can come back: it has matched no command, or the hook has returned.
abbrev pub is_at_work : Stage → Bool
is_at_work running = true
is_at_work executing = true
is_at_work _ = false

-- One step of the event loop. `i` is the place of the delivery that goes on.
pub data Step (c : Consumer) : Consumer → Type 0 where
  arrives : (e : Envelope) → Step c (arrive c e)
  begins :
      (i : ℕ) (d : Delivery) (up : Bool)
      → get_elem? c.active i ≡ some d
      → d.stage ≡ claimed
      → Step c (begin c i d up)
  matches :
      (i : ℕ) (d : Delivery) (config : CommandConfig)
      → get_elem? c.active i ≡ some d
      → d.stage ≡ running
      → Step c (match_command c i d config)
  enters :
      (i : ℕ) (d : Delivery)
      → get_elem? c.active i ≡ some d
      → d.stage ≡ waiting
      → c.lane ≡ false
      → Step c (enter_lane c i d)
  answers :
      (i : ℕ) (d : Delivery) (result : Result (Option (List BotMessage))) (routed published : Bool)
      → get_elem? c.active i ≡ some d
      → is_at_work d.stage ≡ true
      → Step c (answer c i d result routed published)
  finishes :
      (i : ℕ) (d : Delivery) (up : Bool)
      → get_elem? c.active i ≡ some d
      → d.stage ≡ replied
      → Step c (finish c i d up)
  forgets : (k : String) → Step c (forget c k)

pub data Reach (start : Consumer) : Consumer → Type 0 where
  here : Reach start start
  next : {c c' : Consumer} → Reach start c → Step c c' → Reach start c'
