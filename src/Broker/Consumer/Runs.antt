-- ===== src/Broker/Consumer/Runs.antt =====
-- What holds of each command in every state that the consumer of the command queue reaches.
use resenhazord.Prelude.{
  ℕ, ◌≤◌, String, ◌≡◌, refl, ap, inl, inr, true, false, some, arith, Bool-cases, get_elem?,
  count_if, count_if-append,
}
use resenhazord.Command.{CommandConfig}
use resenhazord.Broker.{Envelope}
use resenhazord.Broker.Consumer.{
  claimed, waiting, executing, Delivery, Consumer, idle_consumer, arrive, match_command, enter_lane,
  Step, arrives, begins, matches, enters, answers, finishes, forgets, Reach, here, next,
}
use resenhazord.Broker.Consumer.Exclusive.{
  claims, stage_index, holds, holds_at, IsExclusive, IsAnsweredOnce, IsAnsweredOnce-idle,
}
use resenhazord.Broker.Consumer.Steps.{Reach-IsExclusive}
use resenhazord.Broker.Consumer.Answered.{
  at_work-index, begin-IsAnsweredOnce, at_work-IsAnsweredOnce, answer-IsAnsweredOnce,
  finish-IsAnsweredOnce, is_remembered,
}

arrive-IsAnsweredOnce :
    (k : String) (c : Consumer)
    → IsAnsweredOnce k c
    → (e : Envelope) → IsAnsweredOnce k (arrive c e)
unfolding arrive
arrive-IsAnsweredOnce k c v e =
    let fresh : Delivery = record {
      envelope = e;
      stage = claimed;
      exclusive = false;
      in_lane = false;
    } in
    record {
      unanswered = ground (arith, v.unanswered, count_if-append (holds_at k 1) c.active fresh);
      remembered = ground (arith, v.remembered, count_if-append (holds_at k 2) c.active fresh);
    }

match_command-IsAnsweredOnce :
    (k : String) (c : Consumer) (v : IsAnsweredOnce k c) (i : ℕ) (d : Delivery)
    → get_elem? c.active i ≡ some d
    → stage_index d.stage ≡ 1
    → (config : CommandConfig) → IsAnsweredOnce k (match_command c i d config)
unfolding match_command
match_command-IsAnsweredOnce k c v i d e h config = elim (Bool-cases config.exclusive) [
  | inl alone ↦
      rw (alone, match_command)
        (at_work-IsAnsweredOnce k c v i d e (record d { stage = waiting; exclusive = true }) refl h
          refl)
  | inr shared ↦
      rw (shared, match_command)
        (at_work-IsAnsweredOnce k c v i d e (record d { stage = executing }) refl h refl)
]

Step-IsAnsweredOnce :
    (k : String) {c c' : Consumer}
    → IsExclusive k c
    → IsAnsweredOnce k c
    → (s : Step c c') → is_remembered s ≡ true
    → IsAnsweredOnce k c'
unfolding enter_lane
Step-IsAnsweredOnce k {c} x v (arrives e) h = arrive-IsAnsweredOnce k c v e
Step-IsAnsweredOnce k {c} x v (begins i d true e g) h =
    begin-IsAnsweredOnce k c v i d e x (ap stage_index g)
Step-IsAnsweredOnce k {c} x v (begins i d false e g) h = cc
Step-IsAnsweredOnce k {c} x v (matches i d config e g) h =
    match_command-IsAnsweredOnce k c v i d e (ap stage_index g) config
Step-IsAnsweredOnce k {c} x v (enters i d e g l) h =
    let w =
      at_work-IsAnsweredOnce k c v i d e (record d { stage = executing; in_lane = true }) refl
        (ap stage_index g) refl in
    record { unanswered = w.unanswered; remembered = w.remembered }
Step-IsAnsweredOnce k {c} x v (answers i d result routed published e g) h =
    answer-IsAnsweredOnce k c v i d e (at_work-index d.stage g) result routed published
Step-IsAnsweredOnce k {c} x v (finishes i d true e g) h =
    finish-IsAnsweredOnce k c v i d e (ap stage_index g)
Step-IsAnsweredOnce k {c} x v (finishes i d false e g) h = cc
Step-IsAnsweredOnce k {c} x v (forgets j) h = cc

-- Redis answered at every request of the inbox so far, and no key expired.
abbrev pub IsRemembered : {start c : Consumer} → Reach start c → Type 0
IsRemembered here = Unit
IsRemembered (next r s) = IsRemembered r × (is_remembered s ≡ true)

Reach-IsAnsweredOnce :
    (k : String) {c : Consumer} (r : Reach idle_consumer c) → IsRemembered r → IsAnsweredOnce k c
Reach-IsAnsweredOnce k here h = IsAnsweredOnce-idle k
Reach-IsAnsweredOnce k (next r s) h =
    Step-IsAnsweredOnce k (Reach-IsExclusive k r) (Reach-IsAnsweredOnce k r h.0) s h.1

-- In whatever order deliveries arrive, wait, fail and end, and whether or not Redis answers, at most
-- one delivery that is not a replay is in progress for a command.
pub Reach-one_run :
    (k : String) (c : Consumer) → Reach idle_consumer c → count_if (holds k) c.active ≤ 1
Reach-one_run k c r = let v = Reach-IsExclusive k r in omega (arith, v.counted, v.once)

-- While there is an inbox, Redis answers its requests and none of its keys expires: in whatever order
-- deliveries arrive, wait, fail and end, at most one reply is published for a command that has a key,
-- replays aside.
pub Reach-one_reply :
    (k : String) (c : Consumer) (r : Reach idle_consumer c)
    → IsRemembered r
    → count_if (claims k) c.replies ≤ 1
Reach-one_reply k c r h = let v = Reach-IsAnsweredOnce k r h in omega (arith, v.unanswered)
