-- ===== src/Broker/Consumer/Steps.antt =====
-- The steps of the consumer keep each key exclusive.
use resenhazord.Prelude.{
  ℕ, String, ◌≡◌, refl, ap, inl, inr, Bool, true, false, Option, some, List, [], ◌∷◌, ◌++◌, arith,
  Bool-cases, get_elem?, set, one_if, count_if, count_if-set, count_if-remove_at, count_if-append,
}
use resenhazord.Command.{CommandConfig}
use resenhazord.Command.Run.{Result, ok, raised, bot, unexpected, is_external}
use resenhazord.Message.{BotMessage}
use resenhazord.Broker.{
  Envelope, claim_key, is_running, discard, already_answered, route, Route, retried, dead_lettered,
}
use resenhazord.Broker.Consumer.{
  claimed, running, waiting, executing, Delivery, Consumer, idle_consumer, add_key, arrive, release,
  begin, match_command, enter_lane, publish_reply, answer, finish, forget, Step, arrives, begins,
  matches, enters, answers, finishes, forgets, Reach, here, next,
}
use resenhazord.Broker.Consumer.Exclusive.{
  claims, holds, key_count, key_count-add_key, key_count-discard, key_count-is_running, IsExclusive,
  IsExclusive-idle,
}

module _ (k : String) (c : Consumer) (v : IsExclusive k c) where
  arrive-IsExclusive : (e : Envelope) → IsExclusive k (arrive c e)
  unfolding arrive
  arrive-IsExclusive e = elim (Bool-cases (is_running (claim_key e) c.keys)) [
    | inl busy ↦ rw (busy, arrive) v
    | inr free ↦
        let fresh : Delivery = record {
          envelope = e;
          stage = claimed;
          exclusive = false;
          in_lane = false;
        } in
        let after : IsExclusive k
            (record c { keys = add_key (claim_key e) c.keys; active = c.active ++ fresh ∷ [] }) =
          record {
            counted = omega (
              arith,
              v.counted,
              count_if-append (holds k) c.active fresh,
              key_count-add_key k (claim_key e) c.keys,
            );
            once = ground (
              arith,
              v.once,
              key_count-add_key k (claim_key e) c.keys,
              key_count-is_running k (claim_key e) c.keys free,
            );
          } in
        rw (free, arrive) after
  ]

  module _ (i : ℕ) (d : Delivery) (here_it : get_elem? c.active i ≡ some d) where
    -- A change of the stage alone keeps the claims.
    holds-set :
        (d' : Delivery)
        → d'.envelope ≡ d.envelope
        → count_if (holds k) (set c.active i d') ≡ key_count k c.keys
    holds-set d' e = omega (
      arith,
      v.counted,
      count_if-set (holds k) c.active i d d' here_it,
      ap (λ x. one_if (claims k x)) e,
    )

    release-IsExclusive : IsExclusive k (release c i d)
    unfolding release
    release-IsExclusive = record {
      counted = ground (
        arith,
        v.counted,
        v.once,
        count_if-remove_at (holds k) c.active i d here_it,
        key_count-discard k (claim_key d.envelope) c.keys,
      );
      once = ground (arith, v.once, key_count-discard k (claim_key d.envelope) c.keys);
    }

    begin-IsExclusive : (up : Bool) → IsExclusive k (begin c i d up)
    unfolding begin
    begin-IsExclusive up = elim (Bool-cases (already_answered up d.envelope c.done)) [
      | inl answered ↦ rw (answered, begin) release-IsExclusive
      | inr fresh ↦
          let after : IsExclusive k
              (record c { active = set c.active i (record d { stage = running }) }) =
            record { counted = holds-set _ refl; once = v.once } in
          rw (fresh, begin) after
    ]

    match_command-IsExclusive :
        (config : CommandConfig) → IsExclusive k (match_command c i d config)
    unfolding match_command
    match_command-IsExclusive config =
        let free : IsExclusive k
            (record c { active = set c.active i (record d { stage = executing }) }) =
          record { counted = holds-set _ refl; once = v.once } in
        let queued : IsExclusive k (record c {
          active = set c.active i (record d { stage = waiting; exclusive = true });
        }) =
          record { counted = holds-set _ refl; once = v.once } in
        elim (Bool-cases config.exclusive) [
          | inl alone ↦ rw (alone, match_command) queued
          | inr shared ↦ rw (shared, match_command) free
        ]

    enter_lane-IsExclusive : IsExclusive k (enter_lane c i d)
    unfolding enter_lane
    enter_lane-IsExclusive = record { counted = holds-set _ refl; once = v.once }

    publish_reply-IsExclusive : (published : Bool) → IsExclusive k (publish_reply c i d published)
    unfolding publish_reply
    publish_reply-IsExclusive true = record { counted = holds-set _ refl; once = v.once }
    publish_reply-IsExclusive false = release-IsExclusive

-- What the consumer sends to the other queues, and what the inbox holds, is no matter of its keys.
other-IsExclusive :
    (k : String) (c : Consumer) (retry_queue dead_letters : List Envelope) (done : List String)
    → IsExclusive k c
    → IsExclusive k
        (record c { retry_queue = retry_queue; dead_letters = dead_letters; done = done })
other-IsExclusive k c retry_queue dead_letters done v = record {
  counted = v.counted;
  once = v.once;
}

answer-IsExclusive :
    (k : String) (c : Consumer) (v : IsExclusive k c) (i : ℕ) (d : Delivery)
    → get_elem? c.active i ≡ some d
    → (result : Result (Option (List BotMessage))) (routed published : Bool)
    → IsExclusive k (answer c i d result routed published)
unfolding answer
answer-IsExclusive k c v i d e (ok messages) routed published =
    publish_reply-IsExclusive k c v i d e published
answer-IsExclusive k c v i d e (raised unexpected) routed published =
    publish_reply-IsExclusive k c v i d e published
answer-IsExclusive k c v i d e (raised (bot error message)) routed published =
    elim (Bool-cases (is_external error)) [
      | inr own ↦ rw (own, answer) (publish_reply-IsExclusive k c v i d e published)
      | inl external ↦ elim (Bool-cases routed) [
        | inr lost ↦ rw (external, lost, answer) (release-IsExclusive k c v i d e)
        | inl sent ↦ rw (external, sent, answer) (queued (route d.envelope error))
      ]
    ]
  where
    queued :
        (r : Route)
        → IsExclusive k (elim r [
          | retried x ↦ release (record c { retry_queue = x ∷ c.retry_queue }) i d
          | dead_lettered x ↦
              publish_reply (record c { dead_letters = x ∷ c.dead_letters }) i d published
        ])
    queued (retried x) =
        release-IsExclusive k (record c { retry_queue = x ∷ c.retry_queue })
          (other-IsExclusive k c (x ∷ c.retry_queue) c.dead_letters c.done v) i d e
    queued (dead_lettered x) =
        publish_reply-IsExclusive k (record c { dead_letters = x ∷ c.dead_letters })
          (other-IsExclusive k c c.retry_queue (x ∷ c.dead_letters) c.done v) i d e published

pub Step-IsExclusive :
    (k : String) {c c' : Consumer} → IsExclusive k c → Step c c' → IsExclusive k c'
unfolding finish forget
Step-IsExclusive k {c} v (arrives e) = arrive-IsExclusive k c v e
Step-IsExclusive k {c} v (begins i d up e h) = begin-IsExclusive k c v i d e up
Step-IsExclusive k {c} v (matches i d config e h) = match_command-IsExclusive k c v i d e config
Step-IsExclusive k {c} v (enters i d e h l) = enter_lane-IsExclusive k c v i d e
Step-IsExclusive k {c} v (answers i d result routed published e h) =
    answer-IsExclusive k c v i d e result routed published
Step-IsExclusive k {c} v (finishes i d up e h) =
    release-IsExclusive k (record c { done = _ })
      (other-IsExclusive k c c.retry_queue c.dead_letters _ v) i d e
Step-IsExclusive k {c} v (forgets j) =
    other-IsExclusive k c c.retry_queue c.dead_letters (discard (some j) c.done) v

pub Reach-IsExclusive : (k : String) {c : Consumer} → Reach idle_consumer c → IsExclusive k c
Reach-IsExclusive k here = IsExclusive-idle k
Reach-IsExclusive k (next r s) = Step-IsExclusive k (Reach-IsExclusive k r) s
