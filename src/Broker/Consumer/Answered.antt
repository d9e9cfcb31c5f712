-- ===== src/Broker/Consumer/Answered.antt =====
-- A key is answered at most once, while the inbox answers and remembers.
use resenhazord.Prelude.{
  ℕ, ◌+◌, ◌≤◌, String, ◌≡◌, refl, ap, ◌≢◌, inl, inr, Bool, true, false, Option, some, List, ◌∷◌,
  arith, Bool-cases, nat_eq, get_elem?, set, one_if, count_if, remove_at, count_if-set,
  count_if-remove_at,
}
use resenhazord.Command.Run.{Result, ok, raised, bot, unexpected, is_external}
use resenhazord.Message.{BotMessage}
use resenhazord.Broker.{Envelope, already_answered, route, Route, retried, dead_lettered}
use resenhazord.Broker.Consumer.{
  Stage, claimed, running, waiting, executing, replied, Delivery, Consumer, release, begin,
  publish_reply, answer, finish, is_at_work, Step, begins, finishes, forgets,
}
use resenhazord.Broker.Consumer.Exclusive.{
  claims, stage_index, holds_at, holds-sum, already_answered-claims, contains-mark_answered,
  IsExclusive, IsAnsweredOnce,
}

not_at : (k : String) (n : ℕ) (d : Delivery) → stage_index d.stage ≢ n → one_if (holds_at k n d) ≡ 0
not_at k n d h = ground (arith, nat_eq.beq_iff (stage_index d.stage) n)

at_stage :
    (k : String) (n : ℕ) (d : Delivery)
    → stage_index d.stage ≡ n
    → one_if (holds_at k n d) ≡ one_if (claims k d.envelope)
at_stage k n d h = ground (arith, nat_eq.beq_iff (stage_index d.stage) n)

pub at_work-index : (s : Stage) → is_at_work s ≡ true → stage_index s ≡ 1
at_work-index claimed h = cc
at_work-index running h = refl
at_work-index waiting h = cc
at_work-index executing h = refl
at_work-index replied h = cc

module _ (k : String) (c : Consumer) (v : IsAnsweredOnce k c) (i : ℕ) (d : Delivery)
    (here_it : get_elem? c.active i ≡ some d) where
  -- The place `i` as the lists count it, at each stage.
  set_at :
      (n : ℕ) (d' : Delivery)
      → count_if (holds_at k n) (set c.active i d') + one_if (holds_at k n d)
        ≡ count_if (holds_at k n) c.active + one_if (holds_at k n d')
  set_at n d' = count_if-set (holds_at k n) c.active i d d' here_it

  removed_at :
      (n : ℕ)
      → count_if (holds_at k n) (remove_at c.active i) + one_if (holds_at k n d)
        ≡ count_if (holds_at k n) c.active
  removed_at n = count_if-remove_at (holds_at k n) c.active i d here_it

  -- A delivery that has not published its reply ends.
  release-IsAnsweredOnce : stage_index d.stage ≢ 2 → IsAnsweredOnce k (release c i d)
  unfolding release
  release-IsAnsweredOnce h = record {
    unanswered = omega (arith, v.unanswered, removed_at 1);
    remembered = omega (arith, v.remembered, removed_at 2, not_at k 2 d h);
  }

  -- A command that is not remembered was not answered.
  begin-unanswered :
      IsExclusive k c
      → stage_index d.stage ≡ 0
      → already_answered true d.envelope c.done ≡ false
      → count_if (claims k) c.replies
          + count_if (holds_at k 1) c.active
          + one_if (claims k d.envelope)
        ≤ 1
  begin-unanswered x h fresh = elim (Bool-cases (claims k d.envelope)) [
    | inl claim ↦ omega (
      arith,
      x.counted,
      x.once,
      v.remembered,
      holds-sum k c.active,
      removed_at 0,
      at_stage k 0 d h,
      ap one_if (rw (already_answered-claims k d.envelope c.done claim) at fresh),
      ap one_if claim,
    )
    | inr other ↦ omega (arith, v.unanswered, ap one_if other)
  ]

  pub begin-IsAnsweredOnce :
      IsExclusive k c → stage_index d.stage ≡ 0 → IsAnsweredOnce k (begin c i d true)
  unfolding begin
  begin-IsAnsweredOnce x h = elim (Bool-cases (already_answered true d.envelope c.done)) [
    | inl answered ↦ rw (answered, begin) (release-IsAnsweredOnce (λ e. omega (arith, e, h)))
    | inr fresh ↦
        let d' : Delivery = record d { stage = running } in
        let after : IsAnsweredOnce k (record c { active = set c.active i d' }) = record {
          unanswered = omega (arith, begin-unanswered x h fresh, set_at 1 d', at_stage k 1 d' refl);
          remembered = omega (
            arith,
            v.remembered,
            set_at 2 d',
            not_at k 2 d' (λ e. omega (arith, e)),
            not_at k 2 d (λ e. omega (arith, e, h)),
          );
        } in
        rw (fresh, begin) after
  ]

  -- While a command runs, waits or executes, nothing is answered.
  pub at_work-IsAnsweredOnce :
      (d' : Delivery)
      → d'.envelope ≡ d.envelope
      → stage_index d.stage ≡ 1
      → stage_index d'.stage ≡ 1
      → IsAnsweredOnce k (record c { active = set c.active i d' })
  at_work-IsAnsweredOnce d' same h h' = record {
    unanswered = omega (
      arith,
      v.unanswered,
      set_at 1 d',
      at_stage k 1 d h,
      at_stage k 1 d' h',
      ap (λ x. one_if (claims k x)) same,
    );
    remembered = omega (
      arith,
      v.remembered,
      set_at 2 d',
      not_at k 2 d (λ e. omega (arith, e, h)),
      not_at k 2 d' (λ e. omega (arith, e, h')),
    );
  }

  publish_reply-IsAnsweredOnce :
      (published : Bool)
      → stage_index d.stage ≡ 1
      → IsAnsweredOnce k (publish_reply c i d published)
  unfolding publish_reply count_if
  publish_reply-IsAnsweredOnce false h = release-IsAnsweredOnce (λ e. omega (arith, e, h))
  publish_reply-IsAnsweredOnce true h =
      let d' : Delivery = record d { stage = replied } in
      record {
        unanswered = omega (
          arith,
          v.unanswered,
          set_at 1 d',
          at_stage k 1 d h,
          not_at k 1 d' (λ e. omega (arith, e)),
        );
        remembered = omega (
          arith,
          v.remembered,
          set_at 2 d',
          at_stage k 2 d' refl,
          not_at k 2 d (λ e. omega (arith, e, h)),
        );
      }

  pub finish-IsAnsweredOnce : stage_index d.stage ≡ 2 → IsAnsweredOnce k (finish c i d true)
  unfolding finish release
  finish-IsAnsweredOnce h = record {
    unanswered = omega (arith, v.unanswered, removed_at 1);
    remembered = elim (Bool-cases (claims k d.envelope)) [
      | inl claim ↦ omega (
        arith,
        v.unanswered,
        v.remembered,
        removed_at 2,
        at_stage k 2 d h,
        ap one_if claim,
        rw claim at (contains-mark_answered k d.envelope c.done),
      )
      | inr other ↦ omega (
        arith,
        v.remembered,
        removed_at 2,
        at_stage k 2 d h,
        ap one_if other,
        rw other at (contains-mark_answered k d.envelope c.done),
      )
    ];
  }

-- What the consumer sends to the other queues is no matter of its answers.
queued-IsAnsweredOnce :
    (k : String) (c : Consumer) (retry_queue dead_letters : List Envelope)
    → IsAnsweredOnce k c
    → IsAnsweredOnce k (record c { retry_queue = retry_queue; dead_letters = dead_letters })
queued-IsAnsweredOnce k c retry_queue dead_letters v = record {
  unanswered = v.unanswered;
  remembered = v.remembered;
}

pub answer-IsAnsweredOnce :
    (k : String) (c : Consumer) (v : IsAnsweredOnce k c) (i : ℕ) (d : Delivery)
    → get_elem? c.active i ≡ some d
    → stage_index d.stage ≡ 1
    → (result : Result (Option (List BotMessage))) (routed published : Bool)
    → IsAnsweredOnce k (answer c i d result routed published)
unfolding answer
answer-IsAnsweredOnce k c v i d e h (ok messages) routed published =
    publish_reply-IsAnsweredOnce k c v i d e published h
answer-IsAnsweredOnce k c v i d e h (raised unexpected) routed published =
    publish_reply-IsAnsweredOnce k c v i d e published h
answer-IsAnsweredOnce k c v i d e h (raised (bot error message)) routed published =
    elim (Bool-cases (is_external error)) [
      | inr own ↦ rw (own, answer) (publish_reply-IsAnsweredOnce k c v i d e published h)
      | inl external ↦ elim (Bool-cases routed) [
        | inr lost ↦
            rw (external, lost, answer)
              (release-IsAnsweredOnce k c v i d e (λ x. omega (arith, x, h)))
        | inl sent ↦ rw (external, sent, answer) (queued (route d.envelope error))
      ]
    ]
  where
    queued :
        (r : Route)
        → IsAnsweredOnce k (elim r [
          | retried x ↦ release (record c { retry_queue = x ∷ c.retry_queue }) i d
          | dead_lettered x ↦
              publish_reply (record c { dead_letters = x ∷ c.dead_letters }) i d published
        ])
    queued (retried x) =
        release-IsAnsweredOnce k (record c { retry_queue = x ∷ c.retry_queue })
          (queued-IsAnsweredOnce k c (x ∷ c.retry_queue) c.dead_letters v) i d e
          (λ y. omega (arith, y, h))
    queued (dead_lettered x) =
        publish_reply-IsAnsweredOnce k (record c { dead_letters = x ∷ c.dead_letters })
          (queued-IsAnsweredOnce k c c.retry_queue (x ∷ c.dead_letters) v) i d e published h

-- The inbox answers in the step, and forgets nothing.
abbrev pub is_remembered : {c c' : Consumer} → Step c c' → Bool
is_remembered (begins i d up e h) = up
is_remembered (finishes i d up e h) = up
is_remembered (forgets k) = false
is_remembered _ = true
