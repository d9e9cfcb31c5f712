-- ===== src/Broker/Consumer/Weights.antt =====
-- How much the deliveries of the consumer still have to do, and that each step leaves less.
use resenhazord.Prelude.{
  ℕ, zero, suc, ◌+◌, ◌*◌, ◌≤◌, String, ◌≡◌, ap, inl, inr, Bool, true, false, Option, some, List, [],
  ◌∷◌, arith, Bool-cases, length, get_elem?, set, remove_at,
}
use resenhazord.Command.{CommandConfig}
use resenhazord.Command.Run.{Result, ok, raised, bot, unexpected, is_external}
use resenhazord.Message.{BotMessage}
use resenhazord.Broker.{already_answered, mark_answered, route, Route, retried, dead_lettered}
use resenhazord.Broker.Consumer.{
  Stage, claimed, running, waiting, executing, replied, Delivery, Consumer, idle_consumer, release,
  begin, match_command, enter_lane, publish_reply, answer, finish, forget, is_at_work, Step,
  arrives, begins, matches, enters, answers, finishes, forgets, Reach, next,
}

-- How many steps a delivery can still take.
abbrev pub weight_at : Stage → ℕ
weight_at claimed = 5
weight_at running = 4
weight_at waiting = 3
weight_at executing = 2
weight_at replied = 1

abbrev pub weight : Delivery → ℕ
weight d = weight_at d.stage

unfoldable pub total : List Delivery → ℕ
total [] = 0
total (d ∷ ds) = weight d + total ds

total-set :
    (ds : List Delivery) (i : ℕ) (d d' : Delivery)
    → get_elem? ds i ≡ some d
    → total (set ds i d') + weight d ≡ total ds + weight d'
unfolding total
total-set [] i d d' h = cc
total-set (x ∷ ds) zero d d' h = let e : x ≡ d = cc h in omega (arith, ap weight e)
total-set (x ∷ ds) (suc i) d d' h = omega (arith, total-set ds i d d' h)

total-remove_at :
    (ds : List Delivery) (i : ℕ) (d : Delivery)
    → get_elem? ds i ≡ some d
    → total (remove_at ds i) + weight d ≡ total ds
unfolding total remove_at
total-remove_at [] i d h = cc
total-remove_at (x ∷ ds) zero d h = let e : x ≡ d = cc h in omega (arith, ap weight e)
total-remove_at (x ∷ ds) (suc i) d h = omega (arith, total-remove_at ds i d h)

pub total_le : (ds : List Delivery) → total ds ≤ 5 * length ds
unfolding total
total_le [] = omega arith
total_le (d ∷ ds) = omega (arith, total_le ds, weight_le d)
  where
    weight_le : (d : Delivery) → weight d ≤ 5
    weight_le d = ground arith

weight_pos : (d : Delivery) → 1 ≤ weight d
weight_pos d = ground arith

at_work-weight : (s : Stage) → is_at_work s ≡ true → 2 ≤ weight_at s
at_work-weight claimed h = omega arith
at_work-weight running h = omega arith
at_work-weight waiting h = omega arith
at_work-weight executing h = omega arith
at_work-weight replied h = cc

-- A step of a delivery that is in progress.
abbrev pub is_progress : {c c' : Consumer} → Step c c' → Bool
is_progress (arrives e) = false
is_progress (forgets k) = false
is_progress _ = true

-- So many steps of deliveries, without an arrival.
pub data Work (start : Consumer) : ℕ → Consumer → Type 0 where
  rested : Work start 0 start
  expired : {n : ℕ} {c : Consumer} → Work start n c → (k : String) → Work start n (forget c k)
  worked :
      {n : ℕ} {c c' : Consumer}
      → Work start n c
      → (s : Step c c') → is_progress s ≡ true
      → Work start (suc n) c'

pub Work-Reach :
    {c : Consumer}
    → Reach idle_consumer c
    → {n : ℕ} {c' : Consumer} → Work c n c'
    → Reach idle_consumer c'
Work-Reach r rested = r
Work-Reach r (expired w k) = next (Work-Reach r w) (forgets k)
Work-Reach r (worked w s e) = next (Work-Reach r w) s

module _ (c : Consumer) (i : ℕ) (d : Delivery) (e : get_elem? c.active i ≡ some d) where
  release-total : suc (total (release c i d).active) ≤ total c.active
  unfolding release
  release-total = omega (arith, total-remove_at c.active i d e, weight_pos d)

  -- The delivery goes on to a stage that leaves less to do.
  set-total :
      (d' : Delivery)
      → suc (weight d') ≤ weight d
      → suc (total (set c.active i d')) ≤ total c.active
  set-total d' less = omega (arith, total-set c.active i d d' e, less)

  publish_reply-total :
      (published : Bool)
      → is_at_work d.stage ≡ true
      → suc (total (publish_reply c i d published).active) ≤ total c.active
  unfolding publish_reply
  publish_reply-total false h = release-total
  publish_reply-total true h = set-total (record d { stage = replied }) (at_work-weight d.stage h)

  begin-total :
      (up : Bool) → d.stage ≡ claimed → suc (total (begin c i d up).active) ≤ total c.active
  unfolding begin
  begin-total up h = elim (Bool-cases (already_answered up d.envelope c.done)) [
    | inl old ↦ rw (old, begin) release-total
    | inr fresh ↦
        rw (fresh, begin) (set-total (record d { stage = running }) (omega (arith, ap weight_at h)))
  ]

  match_command-total :
      (config : CommandConfig)
      → d.stage ≡ running
      → suc (total (match_command c i d config).active) ≤ total c.active
  unfolding match_command
  match_command-total config h = elim (Bool-cases config.exclusive) [
    | inl alone ↦
        rw (alone, match_command)
          (set-total (record d { stage = waiting; exclusive = true })
            (omega (arith, ap weight_at h)))
    | inr shared ↦
        rw (shared, match_command)
          (set-total (record d { stage = executing }) (omega (arith, ap weight_at h)))
  ]

  enter_lane-total : d.stage ≡ waiting → suc (total (enter_lane c i d).active) ≤ total c.active
  unfolding enter_lane
  enter_lane-total h =
      set-total (record d { stage = executing; in_lane = true }) (omega (arith, ap weight_at h))

answer-total :
    (c : Consumer) (i : ℕ) (d : Delivery)
    → get_elem? c.active i ≡ some d
    → is_at_work d.stage ≡ true
    → (result : Result (Option (List BotMessage))) (routed published : Bool)
    → suc (total (answer c i d result routed published).active) ≤ total c.active
unfolding answer release publish_reply
answer-total c i d e h (ok messages) routed published = publish_reply-total c i d e published h
answer-total c i d e h (raised unexpected) routed published =
    publish_reply-total c i d e published h
answer-total c i d e h (raised (bot error message)) routed published =
    elim (Bool-cases (is_external error)) [
      | inr own ↦ rw (own, answer) (publish_reply-total c i d e published h)
      | inl external ↦ elim (Bool-cases routed) [
        | inr lost ↦ rw (external, lost, answer) (release-total c i d e)
        | inl sent ↦ rw (external, sent, answer) (queued (route d.envelope error))
      ]
    ]
  where
    queued :
        (r : Route)
        → suc (
            total
              (elim r as (λ x. Consumer) [
                | retried x ↦ release (record c { retry_queue = x ∷ c.retry_queue }) i d
                | dead_lettered x ↦
                    publish_reply (record c { dead_letters = x ∷ c.dead_letters }) i d published
              ]).active)
          ≤ total c.active
    queued (retried x) = release-total (record c { retry_queue = x ∷ c.retry_queue }) i d e
    queued (dead_lettered x) =
        publish_reply-total (record c { dead_letters = x ∷ c.dead_letters }) i d e published h

-- Each step of a delivery leaves less to do.
Step-total :
    {c c' : Consumer} (s : Step c c')
    → is_progress s ≡ true
    → suc (total c'.active) ≤ total c.active
unfolding finish
Step-total (arrives e) h = cc
Step-total {c} (begins i d up e h) f = begin-total c i d e up h
Step-total {c} (matches i d config e h) f = match_command-total c i d e config h
Step-total {c} (enters i d e h l) f = enter_lane-total c i d e h
Step-total {c} (answers i d result routed published e h) f =
    answer-total c i d e h result routed published
Step-total {c} (finishes i d up e h) f =
    release-total (record c { done = mark_answered up d.envelope c.done }) i d e
Step-total (forgets k) h = cc

pub Work-total :
    {c : Consumer} {n : ℕ} {c' : Consumer} → Work c n c' → n + total c'.active ≤ total c.active
unfolding forget
Work-total rested = omega arith
Work-total (expired w k) = Work-total w
Work-total (worked w s f) = omega (arith, Work-total w, Step-total s f)
