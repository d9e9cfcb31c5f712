-- ===== src/SelfTime.antt =====
-- bot/infrastructure/self_time.py: what a span spent on its own. Times are nanoseconds. The histogram
-- is the list of what was recorded, the last first; the lock makes each call one step.
pub mod Union
pub mod Runs
use resenhazord.Prelude.{
  ℕ, ◌+◌, ◌-◌, max, Bool, ◌&&◌, ◌||◌, Option, none, some, List, [], ◌∷◌, ◌++◌, ltb, leb,
  if◌then◌else◌, ◌==◌, string_eq, nat_eq, pair_eq,
}
use resenhazord.Prelude.Dict
use resenhazord.Prelude.Dict.{Dict}

abbrev pub Interval : Type 0
Interval = ℕ × ℕ

-- The order of pairs: by the first, then by the second.
abbrev pub interval_leb : Interval → Interval → Bool
interval_leb a b = ltb a.0 b.0 || a.0 == b.0 && leb a.1 b.1

unfoldable pub insert_interval : Interval → List Interval → List Interval
insert_interval x [] = x ∷ []
insert_interval x (y ∷ ys) =
    let rest = insert_interval x ys in if interval_leb x y then x ∷ y ∷ ys else y ∷ rest

-- sorted(intervals)
unfoldable pub sorted : List Interval → List Interval
unfolding insert_interval
sorted [] = []
sorted (x ∷ xs) = insert_interval x (sorted xs)

-- The loop of `_union`, from the total and the time it has reached.
unfoldable pub union_loop : ℕ → ℕ → List Interval → ℕ
union_loop total reached [] = total
union_loop total reached ((child_start, child_end) ∷ rest) =
    let start = max child_start reached in
    let grows = ltb start child_end in
    union_loop (if grows then total + (child_end - start) else total)
      (if grows then child_end else reached) rest

-- _union
unfoldable pub union : List Interval → ℕ → ℕ
unfolding union_loop sorted
union intervals parent_start = union_loop 0 parent_start (sorted intervals)

-- What is recorded of a span: its end, and the sum of its start and the time its children took. The
-- self time is their difference.
pub record Recorded : Type 0 where
  pub end : ℕ
  pub start_and_busy : ℕ

pub record SelfTime : Type 0 where
  pub children : Dict ℕ (List Interval)
  pub histogram : List Recorded

pub record Span : Type 0 where
  pub id : ℕ
  pub parent : Option ℕ
  pub start : ℕ
  pub end : ℕ

unfoldable pub on_start : SelfTime → ℕ → SelfTime
on_start s id = record s { children = Dict.put s.children id [] }

abbrev pub siblings_of : Option ℕ → Dict ℕ (List Interval) → Option (ℕ × List Interval)
siblings_of none open_spans = none
siblings_of (some p) open_spans = elim (Dict.get open_spans p) [
  | none ↦ none
  | some siblings ↦ some (p, siblings)
]

abbrev pub or_no_intervals : Option (List Interval) → List Interval
or_no_intervals none = []
or_no_intervals (some l) = l

-- Only an open parent collects the interval of its child.
unfoldable pub collect : Span → Dict ℕ (List Interval) → Dict ℕ (List Interval)
collect span open_spans = elim (siblings_of span.parent open_spans) [
  | none ↦ open_spans
  | some (p, siblings) ↦ Dict.put open_spans p (siblings ++ (span.start, span.end) ∷ [])
]

unfoldable pub on_end : SelfTime → Span → SelfTime
unfolding collect union
on_end s span =
    let own = or_no_intervals (Dict.get s.children span.id) in
    record {
      children = collect span (Dict.remove s.children span.id);
      histogram =
          record { end = span.end; start_and_busy = span.start + union own span.start }
          ∷ s.histogram;
    }
