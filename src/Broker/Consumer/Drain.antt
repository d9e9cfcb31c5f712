-- ===== src/Broker/Consumer/Drain.antt =====
-- Without new arrivals the consumer comes to rest.
use resenhazord.Prelude.{
  ℕ, zero, ◌*◌, ◌≤◌, ◌≡◌, refl, sym, ap, subst, ◌≢◌, ◌⊎◌, inl, inr, true, false, none, some, [],
  arith, Bool-cases, beq_self, length, get_elem?, List-cases, one_if, count_if, count_if-found,
}
use resenhazord.Command.Run.{ok}
use resenhazord.Broker.Consumer.{
  Stage, claimed, running, waiting, executing, replied, Delivery, Consumer, idle_consumer,
  is_at_work, Step, begins, enters, answers, finishes, Reach,
}
use resenhazord.Broker.Consumer.Exclusive.{key_count}
use resenhazord.Broker.Consumer.Steps.{Reach-IsExclusive}
use resenhazord.Broker.Consumer.Lane.{holds_lane, is_orderly_at, IsLane-orderly, Reach-IsLane}
use resenhazord.Broker.Consumer.Weights.{total_le, is_progress, Work, Work-Reach, Work-total}

abbrev pub IsResting : Consumer → Type 0
IsResting c = (c.active ≡ []) × (c.lane ≡ false) × (c.keys ≡ [])

abbrev pub CanWork : Consumer → Type 0
CanWork c = (c' : Consumer) × (s : Step c c') × (is_progress s ≡ true)

-- Nobody holds a key that no delivery holds.
no_keys : (c : Consumer) → Reach idle_consumer c → c.active ≡ [] → c.keys ≡ []
unfolding count_if
no_keys c r e = elim (List-cases c.keys) [
  | inl empty ↦ empty
  | inr (k, keys, some_key) ↦
      let v = Reach-IsExclusive k r in
      let counted : 0 ≡ key_count k c.keys = rw e at v.counted in
      absurd (omega (arith, counted, ap (key_count k) some_key, ap one_if (beq_self k)))
]

free_at_rest : (c : Consumer) → Reach idle_consumer c → c.active ≡ [] → c.lane ≡ false
unfolding count_if
free_at_rest c r e =
    let counted = rw e at (Reach-IsLane r).locked in
    elim (Bool-cases c.lane) [
      | inr free ↦ free
      | inl taken ↦ let one : zero ≡ 1 = rw taken at counted in absurd (omega (arith, one))
    ]

-- A delivery that does not wait can go on.
unqueued_works :
    (c : Consumer) (i : ℕ) (d : Delivery) (s : Stage)
    → get_elem? c.active i ≡ some d
    → d.stage ≡ s
    → s ≢ waiting
    → CanWork c
unqueued_works c i d claimed e h w = (_, begins i d true e h, refl)
unqueued_works c i d running e h w =
    (_, answers i d (ok none) true true e (subst (λ s. is_at_work s ≡ true) (sym h) refl), refl)
unqueued_works c i d waiting e h w = absurd (w refl)
unqueued_works c i d executing e h w =
    (_, answers i d (ok none) true true e (subst (λ s. is_at_work s ≡ true) (sym h) refl), refl)
unqueued_works c i d replied e h w = (_, finishes i d true e h, refl)

-- Whoever holds the lane does not wait for it.
holder_works :
    (c : Consumer) (i : ℕ) (d : Delivery)
    → Reach idle_consumer c
    → get_elem? c.active i ≡ some d
    → d.in_lane ≡ true
    → CanWork c
holder_works c i d r e h =
    let orderly = IsLane-orderly c (Reach-IsLane r) i d e in
    unqueued_works c i d d.stage e refl (λ w.
      let at_lock : is_orderly_at waiting d.exclusive d.in_lane ≡ true =
        subst (λ s. is_orderly_at s d.exclusive d.in_lane ≡ true) w orderly in
      absurd (ground (arith, at_lock, h)))

-- The delivery in front goes on, or takes the lane, or waits for one that goes on.
front_works :
    (c : Consumer) (d : Delivery) (s : Stage)
    → Reach idle_consumer c
    → get_elem? c.active 0 ≡ some d
    → d.stage ≡ s
    → CanWork c
front_works c d waiting r e h = elim (Bool-cases c.lane) [
  | inr free ↦ (_, enters 0 d e h free, refl)
  | inl taken ↦
      let locked = rw taken at (Reach-IsLane r).locked in
      let (i, d', found, holder) = count_if-found holds_lane c.active (omega (arith, locked)) in
      holder_works c i d' r found holder
]
front_works c d claimed r e h = unqueued_works c 0 d claimed e h (λ w. cc)
front_works c d running r e h = unqueued_works c 0 d running e h (λ w. cc)
front_works c d executing r e h = unqueued_works c 0 d executing e h (λ w. cc)
front_works c d replied r e h = unqueued_works c 0 d replied e h (λ w. cc)

work_or_rest : (c : Consumer) → Reach idle_consumer c → IsResting c ⊎ CanWork c
work_or_rest c r = elim (List-cases c.active) [
  | inl e ↦ inl (e, free_at_rest c r e, no_keys c r e)
  | inr (d, ds, e) ↦ inr (front_works c d d.stage r (ap (λ l. get_elem? l 0) e) refl)
]

-- From any reachable state, while nothing new arrives, the deliveries in progress take at most five
-- steps each in whatever order they go on. They never wait for each other for good: they stop only in
-- a state where no delivery is in progress, the exclusive lane is free and no key is claimed.
pub Reach-drains :
    (c : Consumer)
    → Reach idle_consumer c
    → (n : ℕ) (c' : Consumer) → Work c n c'
    → (n ≤ 5 * length c.active) × (IsResting c' ⊎ CanWork c')
Reach-drains c r n c' w =
    (omega (arith, Work-total w, total_le c.active), work_or_rest c' (Work-Reach r w))
