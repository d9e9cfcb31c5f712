-- ===== src/Tests/Infrastructure.antt =====
-- Self times and the supervisor at concrete inputs.
use resenhazord.Prelude.{
  String, ◌≡◌, refl, ◌≢◌, none, some, List, [], ◌∷◌, ◌++◌, arith, get_elem?, string_eq, nat_eq,
  pair_eq,
}
use resenhazord.Prelude.Dict
use resenhazord.SelfTime.{Interval, SelfTime, Span, on_start, on_end, union}
use resenhazord.SelfTime.Union.{covered_count, union-covered}
use resenhazord.SelfTime.Runs.{no_spans, Run, idle, starts, ends, IsNonNegative, Run-IsNonNegative}
use resenhazord.Supervisor.{up, connected, broken, initial_backoff, Supervisor, supervise}
use resenhazord.Supervisor.Ladder.{waits, supervise-backoff, supervise-ends}

-- two children that overlap, one that started before its parent, and an empty one
abbrev children : List Interval
children = (30, 50) ∷ (5, 20) ∷ (40, 60) ∷ (55, 55) ∷ []

union-covered_example : union children 10 ≡ covered_count 10 60 children
union-covered_example = union-covered children 10 60 (omega arith)

union_run : union children 10 ≡ 40
unfolding union
union_run = refl

abbrev inner : Span
inner = record { id = 2; parent = some 1; start = 20; end = 50 }

abbrev outer : Span
outer = record { id = 1; parent = none; start = 10; end = 90 }

abbrev opened : SelfTime
opened = on_start (on_start no_spans 1) 2

closed : Run 90 (on_end (on_end opened inner) outer)
closed =
    ends (ends (starts (starts idle 1) 2) inner (omega arith) (omega arith)) outer (omega arith)
      (omega arith)

Run-IsNonNegative_example : IsNonNegative (on_end (on_end opened inner) outer).histogram
Run-IsNonNegative_example = Run-IsNonNegative closed

abbrev no_platforms : Supervisor
no_platforms = record { statuses = ("discord", up) ∷ []; shutdowns = "discord" ∷ []; slept = [] }

supervise-backoff_example :
    get_elem?
      (supervise
        (record no_platforms { slept = [] })
        "telegram"
        (broken ∷ broken ∷ connected ∷ [])).slept
      1
    ≡ some ("telegram", 10)
supervise-backoff_example =
    supervise-backoff (record no_platforms { slept = [] }) "telegram" 2 1 connected [] refl
      (λ e. cc) (omega arith)

supervise-ends_example :
    (Dict.get
        (supervise no_platforms "telegram" (broken ∷ broken ∷ connected ∷ broken ∷ [])).statuses
        "telegram"
      ≡ some up)
    × ((supervise no_platforms "telegram" (broken ∷ broken ∷ connected ∷ broken ∷ [])).slept
        ≡ [] ++ waits "telegram" initial_backoff 2)
    × ((supervise no_platforms "telegram" (broken ∷ broken ∷ connected ∷ broken ∷ [])).shutdowns
        ≡ "discord" ∷ "telegram" ∷ [])
    × ((other : String)
        → "telegram" ≢ other
        → Dict.get
            (supervise no_platforms "telegram" (broken ∷ broken ∷ connected ∷ broken ∷ [])).statuses
            other
          ≡ Dict.get no_platforms.statuses other)
supervise-ends_example = supervise-ends no_platforms "telegram" 2 connected (broken ∷ []) (λ e. cc)
