-- ===== src/SelfTime/Runs.antt =====
-- The spans of a process, as its clock goes on.
use resenhazord.Prelude.{
  ℕ, ◌≤◌, ◌≡◌, subst, inl, inr, Option, none, some, List, [], ◌∷◌, ◌++◌, arith, Option-cases,
  string_eq, nat_eq, pair_eq,
}
use resenhazord.Prelude.Dict
use resenhazord.Prelude.Dict.{Dict}
use resenhazord.SelfTime.{
  Interval, Recorded, SelfTime, Span, on_start, on_end, collect, siblings_of, or_no_intervals,
}
use resenhazord.SelfTime.Union.{EndBy, union_le}

abbrev pub no_spans : SelfTime
no_spans = record { children = []; histogram = [] }

-- The processor after some spans started and ended, the last of them at the time `now`: a span ends
-- no sooner than the spans that ended before it, and no sooner than it started.
pub data Run : ℕ → SelfTime → Type 0 where
  idle : Run 0 no_spans
  starts : {now : ℕ} {s : SelfTime} → Run now s → (id : ℕ) → Run now (on_start s id)
  ends :
      {now : ℕ} {s : SelfTime}
      → Run now s
      → (span : Span) → now ≤ span.end
      → span.start ≤ span.end
      → Run span.end (on_end s span)

-- No recorded self time is below zero.
abbrev pub IsNonNegative : List Recorded → Type 0
IsNonNegative [] = Unit
IsNonNegative (r ∷ l) = (r.start_and_busy ≤ r.end) × IsNonNegative l

-- Every interval that an open span holds ended by `now`.
abbrev pub AllEndBy : ℕ → Dict ℕ (List Interval) → Type 0
AllEndBy now d = (id : ℕ) (l : List Interval) → Dict.get d id ≡ some l → EndBy now l

EndBy-later : (a b : ℕ) (l : List Interval) → a ≤ b → EndBy a l → EndBy b l
EndBy-later a b [] h g = g
EndBy-later a b ((c, d) ∷ l) h (g, gs) = (omega arith, EndBy-later a b l h gs)

EndBy-append :
    (b : ℕ) (l : List Interval) (x : Interval) → EndBy b l → x.1 ≤ b → EndBy b (l ++ x ∷ [])
EndBy-append b [] x h g = (g, h)
EndBy-append b (y ∷ l) x (h, hs) g = (h, EndBy-append b l x hs g)

siblings_of-get :
    (o : Option ℕ) (d : Dict ℕ (List Interval)) (p : ℕ) (l : List Interval)
    → siblings_of o d ≡ some (p, l)
    → Dict.get d p ≡ some l
siblings_of-get none d p l h = cc
siblings_of-get (some q) d p l h = elim (Option-cases (Dict.get d q)) [
  | inl missing ↦ cc (rw (missing, siblings_of) at h)
  | inr (k, found) ↦ cc (rw (found, siblings_of) at h, found)
]

collect-AllEndBy :
    (b : ℕ) (span : Span) (d : Dict ℕ (List Interval))
    → span.end ≤ b
    → AllEndBy b d
    → AllEndBy b (collect span d)
unfolding collect
collect-AllEndBy b span d g v id l h = elim (Option-cases (siblings_of span.parent d)) [
  | inl closed ↦ v id l (rw (closed, collect) at h)
  | inr ((p, siblings), open_parent) ↦
      elim (Dict.get-put-some d p id (rw (open_parent, collect) at h)) [
        | inl (same, written) ↦ subst (EndBy b) written (
            EndBy-append b siblings (span.start, span.end)
              (v p siblings (siblings_of-get span.parent d p siblings open_parent)) g)
        | inr (ne, kept) ↦ v id l kept
      ]
]

remove-AllEndBy :
    (b i : ℕ) (d : Dict ℕ (List Interval)) → AllEndBy b d → AllEndBy b (Dict.remove d i)
remove-AllEndBy b i d v id l h = v id l (ground (arith, Dict.get-remove d i id, h))

later-AllEndBy : (a b : ℕ) (d : Dict ℕ (List Interval)) → a ≤ b → AllEndBy a d → AllEndBy b d
later-AllEndBy a b d g v id l h = EndBy-later a b l g (v id l h)

or_no_intervals-EndBy :
    (b i : ℕ) (d : Dict ℕ (List Interval)) → AllEndBy b d → EndBy b (or_no_intervals (Dict.get d i))
or_no_intervals-EndBy b i d v = elim (Option-cases (Dict.get d i)) [
  | inl missing ↦ rw missing (omega arith)
  | inr (l, found) ↦ rw found (v i l found)
]

Run-AllEndBy : {now : ℕ} {s : SelfTime} → Run now s → AllEndBy now s.children
unfolding on_start on_end Dict.get
Run-AllEndBy idle id l h = cc
Run-AllEndBy (starts {now} {s} r i) id l h = elim (Dict.get-put-some s.children i id h) [
  | inl (same, written) ↦ subst (EndBy now) written (omega arith)
  | inr (ne, kept) ↦ Run-AllEndBy r id l kept
]
Run-AllEndBy (ends {now} {s} r span g k) id l h =
    collect-AllEndBy span.end span (Dict.remove s.children span.id) (omega arith)
      (remove-AllEndBy span.end span.id s.children
        (later-AllEndBy now span.end s.children g (Run-AllEndBy r)))
      id l h

-- Whatever spans start and end, nested or side by side, on a clock that does not go back, no recorded
-- self time is below zero: a span is never charged for more than its own duration.
pub Run-IsNonNegative : {now : ℕ} {s : SelfTime} → Run now s → IsNonNegative s.histogram
unfolding on_start on_end
Run-IsNonNegative idle = omega arith
Run-IsNonNegative (starts r i) = Run-IsNonNegative r
Run-IsNonNegative (ends {now} {s} r span g k) = (
  union_le (or_no_intervals (Dict.get s.children span.id)) span.start span.end
      (or_no_intervals-EndBy span.end span.id s.children
        (later-AllEndBy now span.end s.children g (Run-AllEndBy r)))
      k,
  Run-IsNonNegative r,
)
