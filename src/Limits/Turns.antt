-- ===== src/Limits/Turns.antt =====
-- How many turns of one conversation the limiter allows.
use resenhazord.Prelude.{
  ℕ, ◌+◌, ◌-◌, ◌*◌, ◌≤◌, ◌<◌, String, ◌≡◌, ap, subst, inl, inr, true, Option, none, some, List, [],
  ◌∷◌, arith, ltb, leb, if◌then◌else◌, Bool-cases, string_eq, ◌==◌, eq_of_beq, one_if, nat_eq,
  pair_eq,
}
use resenhazord.Prelude.Dict
use resenhazord.Prelude.Dict.{get-put_self, get-put_ne}
use resenhazord.Limits.{
  Window, Windows, max_turns, window_seconds, turns_key, open_window, increased, allow,
}

-- A call: its time and its conversation.
abbrev pub Call : Type 0
Call = ℕ × String

-- How many of the calls with the key are allowed, where Redis answers each.
unfoldable pub allowed : String → Windows → List Call → ℕ
unfolding allow
allowed key windows [] = 0
allowed key windows ((now, c) ∷ calls) =
    let (yes', after) = allow true now windows c in
    (if turns_key c == key then one_if yes' else 0) + allowed key after calls

-- All calls are made in the window of time that begins at `start`.
abbrev pub InSpan : ℕ → List Call → Type 0
InSpan start [] = Unit
InSpan start ((now, c) ∷ calls) =
    (start ≤ now) × (now < start + window_seconds) × InSpan start calls

-- How many calls can still be allowed before `end`.
abbrev pub left : ℕ → Option Window → ℕ
left end none = max_turns
left end (some w) = (max_turns - w.turns) + (if ltb w.until end then max_turns else 0)

left_le : (end : ℕ) (o : Option Window) → left end o ≤ 2 * max_turns
left_le end none = omega arith
left_le end (some w) = ground arith

left-opened :
    (start now : ℕ) (o : Option Window)
    → start ≤ now
    → now < start + window_seconds
    → one_if (leb (increased (open_window now o)).turns max_turns)
        + left (start + window_seconds) (some (increased (open_window now o)))
      ≤ left (start + window_seconds) o
unfolding open_window
left-opened start now none h g = ground (arith, h, g)
left-opened start now (some w) h g = ground (arith, h, g)

allowed-left :
    (start : ℕ) (key : String) (calls : List Call) (windows : Windows)
    → InSpan start calls
    → allowed key windows calls ≤ left (start + window_seconds) (Dict.get windows key)
unfolding allowed allow
allowed-left start key [] windows h = omega arith
allowed-left start key ((now, c) ∷ calls) windows h =
    let w = increased (open_window now (Dict.get windows (turns_key c))) in
    let after = Dict.put windows (turns_key c) w in
    let rest = allowed-left start key calls after h.2 in
    elim (Bool-cases (turns_key c == key)) [
      | inl same ↦
          let p : turns_key c ≡ key = eq_of_beq (turns_key c) key same in
          let before = ap (λ k. left (start + window_seconds) (Dict.get windows k)) p in
          let found : Dict.get after key ≡ some w =
            subst (λ k. Dict.get after k ≡ some w) p (get-put_self windows (turns_key c) w) in
          let opened = left-opened start now (Dict.get windows (turns_key c)) h.0 h.1 in
          let here = rw found at rest in rw same (omega (arith, here, before, opened))
      | inr other ↦
          let kept : Dict.get after key ≡ Dict.get windows key =
            get-put_ne windows (turns_key c) key w
              (λ e. cc ((string_eq.beq_iff (turns_key c) key).1 e, other)) in
          rw other (omega (arith, rw kept at rest))
    ]

-- While Redis answers, calls that fall into ten minutes are allowed at most 16 times for one key,
-- whatever the windows are before and whatever other conversations are counted in between. A call
-- for which Redis fails is let through uncounted.
pub allowed_le :
    (start : ℕ) (conversation : String) (calls : List Call) (windows : Windows)
    → InSpan start calls
    → allowed (turns_key conversation) windows calls ≤ 2 * max_turns
allowed_le start conversation calls windows h = omega (
  arith,
  allowed-left start (turns_key conversation) calls windows h,
  left_le (start + window_seconds) (Dict.get windows (turns_key conversation)),
)
