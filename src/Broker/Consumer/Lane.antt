-- ===== src/Broker/Consumer/Lane.antt =====
-- Who holds the exclusive lane: _enter_lane of bot/adapters/broker/command_consumer.py under the steps.
use resenhazord.Prelude.{
  ℕ, ◌≡◌, refl, ap, subst, inl, inr, Bool, true, false, not, ◌&&◌, Option, some, List, ◌∷◌, arith,
  if◌then◌else◌, Bool-cases, get_elem?, set, one_if, count_if, count_if-set, count_if-remove_at,
  count_if-append, count_if-pos,
}
use resenhazord.Command.{CommandConfig}
use resenhazord.Command.Run.{Result, ok, raised, bot, unexpected, is_external}
use resenhazord.Message.{BotMessage}
use resenhazord.Broker.{Envelope, already_answered, route, Route, retried, dead_lettered}
use resenhazord.Broker.Consumer.{
  Stage, claimed, running, waiting, executing, replied, Delivery, Consumer, idle_consumer, arrive,
  release, begin, match_command, enter_lane, publish_reply, answer, finish, forget, is_at_work,
  Step, arrives, begins, matches, enters, answers, finishes, forgets, Reach, here, next,
}

-- The delivery is past the hook, and its command is exclusive.
abbrev pub runs_exclusive : Delivery → Bool
runs_exclusive d = elim d.stage [
  | claimed ↦ false
  | running ↦ false
  | waiting ↦ false
  | executing ↦ d.exclusive
  | replied ↦ d.exclusive
]

-- A delivery holds the lane exactly while its exclusive command runs; it is exclusive from the hook on,
-- and only exclusive ones wait.
abbrev pub is_orderly_at : Stage → Bool → Bool → Bool
is_orderly_at claimed exclusive in_lane = not exclusive && not in_lane
is_orderly_at running exclusive in_lane = not exclusive && not in_lane
is_orderly_at waiting exclusive in_lane = exclusive && not in_lane
is_orderly_at executing exclusive in_lane = if exclusive then in_lane else not in_lane
is_orderly_at replied exclusive in_lane = if exclusive then in_lane else not in_lane

abbrev pub is_orderly : Delivery → Bool
is_orderly d = is_orderly_at d.stage d.exclusive d.in_lane

at_work-orderly :
    (s : Stage) (exclusive in_lane : Bool)
    → is_at_work s ≡ true
    → is_orderly_at s exclusive in_lane ≡ true
    → is_orderly_at replied exclusive in_lane ≡ true
at_work-orderly claimed exclusive in_lane h g = cc
at_work-orderly running exclusive in_lane h g = ground (arith, g)
at_work-orderly waiting exclusive in_lane h g = cc
at_work-orderly executing exclusive in_lane h g = g
at_work-orderly replied exclusive in_lane h g = cc

abbrev pub is_astray : Delivery → Bool
is_astray d = not (is_orderly d)

abbrev pub holds_lane : Delivery → Bool
holds_lane d = d.in_lane

pub record IsLane (c : Consumer) : Type 0 where
  pub locked : count_if holds_lane c.active ≡ one_if c.lane
  pub orderly : count_if is_astray c.active ≡ 0

orderly-one :
    (l : List Delivery) (i : ℕ) (d : Delivery)
    → count_if is_astray l ≡ 0
    → get_elem? l i ≡ some d
    → is_orderly d ≡ true
orderly-one l i d h e = elim (Bool-cases (is_orderly d)) [
  | inl well ↦ well
  | inr astray ↦ absurd (omega (arith, h, count_if-pos is_astray l i d e (ap not astray)))
]

module _ (c : Consumer) (v : IsLane c) (i : ℕ) (d : Delivery)
    (e : get_elem? c.active i ≡ some d) where
  pub IsLane-orderly : is_orderly d ≡ true
  IsLane-orderly = orderly-one c.active i d v.orderly e

  orderly_in : (s : Stage) → d.stage ≡ s → is_orderly_at s d.exclusive d.in_lane ≡ true
  orderly_in s h = subst (λ t. is_orderly_at t d.exclusive d.in_lane ≡ true) h IsLane-orderly

  release-IsLane : IsLane (release c i d)
  unfolding release
  release-IsLane = record {
    locked = ground (arith, v.locked, count_if-remove_at holds_lane c.active i d e);
    orderly = omega (arith, v.orderly, count_if-remove_at is_astray c.active i d e);
  }

  -- A change that leaves the delivery orderly, and the lane as it is.
  set-IsLane :
      (d' : Delivery)
      → d'.in_lane ≡ d.in_lane
      → is_orderly d' ≡ true
      → IsLane (record c { active = set c.active i d' })
  set-IsLane d' h well = record {
    locked = omega (arith, v.locked, count_if-set holds_lane c.active i d d' e, ap one_if h);
    orderly =
        omega (
          arith,
          v.orderly,
          count_if-set is_astray c.active i d d' e,
          ap (λ b. one_if (not b)) well,
        );
  }

  begin-IsLane : (up : Bool) → d.stage ≡ claimed → IsLane (begin c i d up)
  unfolding begin
  begin-IsLane up h = elim (Bool-cases (already_answered up d.envelope c.done)) [
    | inl old ↦ rw (old, begin) release-IsLane
    | inr fresh ↦
        rw (fresh, begin) (set-IsLane (record d { stage = running }) refl (orderly_in claimed h))
  ]

  match_command-IsLane :
      (config : CommandConfig) → d.stage ≡ running → IsLane (match_command c i d config)
  unfolding match_command
  match_command-IsLane config h = elim (Bool-cases config.exclusive) [
    | inl alone ↦
        rw (alone, match_command)
          (set-IsLane (record d { stage = waiting; exclusive = true }) refl
            (ground (arith, orderly_in running h)))
    | inr shared ↦
        rw (shared, match_command)
          (set-IsLane (record d { stage = executing }) refl (ground (arith, orderly_in running h)))
  ]

  enter_lane-IsLane : d.stage ≡ waiting → c.lane ≡ false → IsLane (enter_lane c i d)
  unfolding enter_lane
  enter_lane-IsLane h l =
      let d' : Delivery = record d { stage = executing; in_lane = true } in
      record {
        locked =
            ground
              (arith, v.locked, l, orderly_in waiting h, count_if-set holds_lane c.active i d d' e);
        orderly =
            ground
              (arith, v.orderly, orderly_in waiting h, count_if-set is_astray c.active i d d' e);
      }

  publish_reply-IsLane :
      (published : Bool) → is_at_work d.stage ≡ true → IsLane (publish_reply c i d published)
  unfolding publish_reply
  publish_reply-IsLane false h = release-IsLane
  publish_reply-IsLane true h =
      let w =
        set-IsLane (record d { stage = replied }) refl
          (at_work-orderly d.stage d.exclusive d.in_lane h IsLane-orderly) in
      record { locked = w.locked; orderly = w.orderly }

answer-IsLane :
    (c : Consumer) (v : IsLane c) (i : ℕ) (d : Delivery)
    → get_elem? c.active i ≡ some d
    → is_at_work d.stage ≡ true
    → (result : Result (Option (List BotMessage))) (routed published : Bool)
    → IsLane (answer c i d result routed published)
unfolding answer
answer-IsLane c v i d e h (ok messages) routed published =
    publish_reply-IsLane c v i d e published h
answer-IsLane c v i d e h (raised unexpected) routed published =
    publish_reply-IsLane c v i d e published h
answer-IsLane c v i d e h (raised (bot error message)) routed published =
    elim (Bool-cases (is_external error)) [
      | inr own ↦ rw (own, answer) (publish_reply-IsLane c v i d e published h)
      | inl external ↦ elim (Bool-cases routed) [
        | inr lost ↦ rw (external, lost, answer) (release-IsLane c v i d e)
        | inl sent ↦ rw (external, sent, answer) (queued (route d.envelope error))
      ]
    ]
  where
    queued :
        (r : Route)
        → IsLane (elim r [
          | retried x ↦ release (record c { retry_queue = x ∷ c.retry_queue }) i d
          | dead_lettered x ↦
              publish_reply (record c { dead_letters = x ∷ c.dead_letters }) i d published
        ])
    queued (retried x) =
        release-IsLane (record c { retry_queue = x ∷ c.retry_queue })
          (record { locked = v.locked; orderly = v.orderly }) i d e
    queued (dead_lettered x) =
        publish_reply-IsLane (record c { dead_letters = x ∷ c.dead_letters })
          (record { locked = v.locked; orderly = v.orderly }) i d e published h

arrive-IsLane : (c : Consumer) → IsLane c → (e : Envelope) → IsLane (arrive c e)
unfolding arrive
arrive-IsLane c v e =
    let fresh : Delivery = record {
      envelope = e;
      stage = claimed;
      exclusive = false;
      in_lane = false;
    } in
    record {
      locked = ground (arith, v.locked, count_if-append holds_lane c.active fresh);
      orderly = ground (arith, v.orderly, count_if-append is_astray c.active fresh);
    }

Step-IsLane : {c c' : Consumer} → IsLane c → Step c c' → IsLane c'
unfolding finish forget
Step-IsLane {c} v (arrives e) = arrive-IsLane c v e
Step-IsLane {c} v (begins i d up e h) = begin-IsLane c v i d e up h
Step-IsLane {c} v (matches i d config e h) = match_command-IsLane c v i d e config h
Step-IsLane {c} v (enters i d e h l) = enter_lane-IsLane c v i d e h l
Step-IsLane {c} v (answers i d result routed published e h) =
    answer-IsLane c v i d e h result routed published
Step-IsLane {c} v (finishes i d up e h) =
    release-IsLane (record c { done = _ }) (record { locked = v.locked; orderly = v.orderly }) i d e
Step-IsLane {c} v (forgets k) = record { locked = v.locked; orderly = v.orderly }

pub Reach-IsLane : {c : Consumer} → Reach idle_consumer c → IsLane c
unfolding count_if
Reach-IsLane here = record { locked = refl; orderly = refl }
Reach-IsLane (next r s) = Step-IsLane (Reach-IsLane r) s
