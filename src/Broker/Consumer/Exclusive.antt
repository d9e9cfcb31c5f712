-- ===== src/Broker/Consumer/Exclusive.antt =====
-- At most one delivery of a command runs at a time, and it is answered at most once:
-- bot/adapters/broker/delivery_guard.py under the steps of the consumer.
use resenhazord.Prelude.{
  ℕ, ◌+◌, ◌*◌, ◌≤◌, String, ◌≡◌, refl, ap, subst, inl, inr, Bool, true, false, ◌&&◌, Option, none,
  some, List, [], ◌∷◌, arith, if◌then◌else◌, Bool-cases, Option-cases, string_eq, ◌==◌, eq_of_beq,
  one_if, count_if, nat_eq, pair_eq,
}
use resenhazord.Command.Run.{contains}
use resenhazord.Broker.{
  Envelope, key_of, claim_key, is_running, discard, already_answered, mark_answered,
}
use resenhazord.Broker.Consumer.{
  Stage, claimed, running, waiting, executing, replied, Delivery, Consumer, add_key, idle_consumer,
}

abbrev pub is_key : String → Option String → Bool
is_key k none = false
is_key k (some j) = j == k

-- The delivery claims the key: a replay claims none.
abbrev pub claims : String → Envelope → Bool
claims k e = is_key k (claim_key e)

abbrev pub stage_index : Stage → ℕ
stage_index claimed = 0
stage_index running = 1
stage_index waiting = 1
stage_index executing = 1
stage_index replied = 2

abbrev pub holds : String → Delivery → Bool
holds k d = claims k d.envelope

abbrev pub holds_at : String → ℕ → Delivery → Bool
holds_at k stage d = claims k d.envelope && stage_index d.stage == stage

abbrev pub key_count : String → List String → ℕ
key_count k keys = count_if (λ j. j == k) keys

holds-sum_one :
    (k : String) (d : Delivery)
    → one_if (holds k d)
      ≡ one_if (holds_at k 0 d) + one_if (holds_at k 1 d) + one_if (holds_at k 2 d)
holds-sum_one k d = ground arith

-- Every delivery that claims the key is at one of the three stages.
pub holds-sum :
    (k : String) (l : List Delivery)
    → count_if (holds k) l
      ≡ count_if (holds_at k 0) l + count_if (holds_at k 1) l + count_if (holds_at k 2) l
unfolding count_if
holds-sum k [] = omega arith
holds-sum k (d ∷ l) = omega (arith, holds-sum k l, holds-sum_one k d)

pub key_count-add_key :
    (k : String) (o : Option String) (keys : List String)
    → key_count k (add_key o keys) ≡ one_if (is_key k o) + key_count k keys
unfolding count_if
key_count-add_key k none keys = omega arith
key_count-add_key k (some j) keys = refl

pub key_count-discard :
    (k : String) (o : Option String) (keys : List String)
    → key_count k (discard o keys) ≡ (if is_key k o then 0 else key_count k keys)
unfolding count_if discard
key_count-discard k none keys = refl
key_count-discard k (some j) [] = ground arith
key_count-discard k (some j) (x ∷ keys) = ground (
  arith,
  string_eq.beq_iff j k,
  string_eq.beq_iff x j,
  string_eq.beq_iff x k,
  key_count-discard k (some j) keys,
)

key_count-contains :
    (k : String) (keys : List String) → contains k keys ≡ false → key_count k keys ≡ 0
unfolding count_if contains
key_count-contains k [] h = refl
key_count-contains k (x ∷ keys) h = ground (arith, key_count-contains k keys)

-- A key that is not among the running ones is not counted.
pub key_count-is_running :
    (k : String) (o : Option String) (keys : List String)
    → is_running o keys ≡ false
    → is_key k o ≡ true
    → key_count k keys ≡ 0
key_count-is_running k none keys h e = cc
key_count-is_running k (some j) keys h e =
    key_count-contains k keys (subst (λ i. contains i keys ≡ false) (eq_of_beq j k e) h)

-- A command that claims its key looks that key up, and leaves it with the inbox.
pub already_answered-claims :
    (k : String) (e : Envelope) (done : List String)
    → claims k e ≡ true
    → already_answered true e done ≡ contains k done
unfolding claim_key already_answered
already_answered-claims k e done h = elim (Bool-cases e.replayed) [
  | inl r ↦ cc (rw r at h)
  | inr n ↦ elim (Option-cases (key_of e)) [
    | inl o ↦ cc (rw (n, o) at h)
    | inr (j, o) ↦ rw (n, o) (ap (λ i. contains i done) (eq_of_beq j k (rw (n, o) at h)))
  ]
]

pub contains-mark_answered :
    (k : String) (e : Envelope) (done : List String)
    → one_if (contains k done) + one_if (claims k e)
      ≤ one_if (contains k (mark_answered true e done))
        + one_if (contains k done) * one_if (claims k e)
unfolding mark_answered contains claim_key
contains-mark_answered k e done = ground arith

-- One key: as many deliveries hold it as the guard counts, at most one.
pub record IsExclusive (k : String) (c : Consumer) : Type 0 where
  pub counted : count_if (holds k) c.active ≡ key_count k c.keys
  pub once : key_count k c.keys ≤ 1

pub IsExclusive-idle : (k : String) → IsExclusive k idle_consumer
unfolding count_if
IsExclusive-idle k = omega arith

-- Of the answers to a key, together with the runs that may still answer, there is at most one, which
-- the inbox remembers.
pub record IsAnsweredOnce (k : String) (c : Consumer) : Type 0 where
  pub unanswered : count_if (claims k) c.replies + count_if (holds_at k 1) c.active ≤ 1
  pub remembered :
      count_if (claims k) c.replies ≤ count_if (holds_at k 2) c.active + one_if (contains k c.done)

pub IsAnsweredOnce-idle : (k : String) → IsAnsweredOnce k idle_consumer
unfolding count_if contains
IsAnsweredOnce-idle k = omega arith
