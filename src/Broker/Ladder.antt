-- ===== src/Broker/Ladder.antt =====
-- The retry ladder of bot/adapters/broker/retry_router.py, for a command that keeps failing.
use resenhazord.Prelude.{ℕ, zero, suc, ◌+◌, ◌-◌, ◌≤◌, max, ◌≡◌, ◌∙◌, Option, none, some, arith}
use resenhazord.Command.Run.{ErrorClass}
use resenhazord.Broker.{Envelope, max_attempts, retried, dead_lettered, route, replay}

-- The runs of an envelope whose command fails each time with an error of the class: how many runs
-- there were when it was dead-lettered, with the envelope in the dead-letter queue.
unfoldable pub failing_runs : ℕ → ErrorClass → ℕ → Envelope → Option (ℕ × Envelope)
failing_runs zero error runs e = none
failing_runs (suc fuel) error runs e = elim (route e error) [
  | retried e' ↦ failing_runs fuel error (runs + 1) e'
  | dead_lettered e' ↦ some (runs + 1, e')
]

failing_runs-from :
    (fuel : ℕ) (error : ErrorClass) (runs : ℕ) (e : Envelope)
    → max_attempts error ≤ e.attempts + fuel
    → 1 ≤ fuel
    → failing_runs fuel error runs e
      ≡ some (
        runs + max 1 (max_attempts error - e.attempts),
        record e { attempts = max e.attempts (max_attempts error - 1) },
      )
unfolding failing_runs route
failing_runs-from zero error runs e h g = absurd (omega arith)
failing_runs-from (suc zero) error runs e h g = ground arith
failing_runs-from (suc (suc fuel)) error runs e h g =
    ground (
      arith,
      failing_runs-from (suc fuel) error (runs + 1) (record e { attempts = e.attempts + 1 }),
    )

-- Three deliveries are enough for any envelope: a command that fails every time is dead-lettered
-- after as many runs as its attempts leave of the maximum for the class of its error, and after one
-- run if they leave none. The dead letter keeps the attempts that the last retry wrote.
pub failing_runs-total :
    (error : ErrorClass) (e : Envelope)
    → failing_runs 3 error 0 e
      ≡ some (
        max 1 (max_attempts error - e.attempts),
        record e { attempts = max e.attempts (max_attempts error - 1) },
      )
failing_runs-total error e =
    failing_runs-from 3 error 0 e (ground arith) (omega arith) ∙ ground arith

-- A dead letter that is replayed starts on a full ladder again.
pub failing_runs-replay :
    (error : ErrorClass) (e : Envelope)
    → failing_runs 3 error 0 (replay e)
      ≡ some (max_attempts error, record (replay e) { attempts = max_attempts error - 1 })
failing_runs-replay error e = failing_runs-total error (replay e) ∙ ground arith
