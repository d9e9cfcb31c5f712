-- ===== src/Tests/Broker.antt =====
-- The broker at concrete inputs.
use resenhazord.Prelude.{
  ◌*◌, ◌≤◌, String, ◌≡◌, refl, ◌⊎◌, true, false, none, some, [], ◌∷◌, arith, count_if, remove_at,
  string_eq, nat_eq, pair_eq,
}
use resenhazord.Command.Run.{contains, ErrorClass, external_service, ok}
use resenhazord.Broker.{Envelope, claim_key, already_answered, discard, mark_answered}
use resenhazord.Broker.Ladder.{failing_runs, failing_runs-total}
use resenhazord.Command.{CommandConfig, default_config}
use resenhazord.Broker.Consumer.{
  Stage, claimed, running, waiting, replied, Delivery, Consumer, idle_consumer, arrive, begin,
  match_command, enter_lane, answer, finish, arrives, begins, answers, finishes, Reach, here, next,
}
use resenhazord.Broker.Consumer.Exclusive.{claims, holds}
use resenhazord.Broker.Consumer.Weights.{rested, worked}
use resenhazord.Broker.Consumer.Drain.{IsResting, CanWork, Reach-drains}
use resenhazord.Broker.Consumer.Runs.{Reach-one_run, Reach-one_reply}

abbrev first : Envelope
first = record { id = "c1"; jid = "1@g.us"; message_id = some "m1"; attempts = 0; replayed = false }

abbrev key : String
key = "1@g.us:m1"

abbrev external_error : ErrorClass
external_error = external_service

failing_runs-total_example :
    failing_runs 3 external_error 0 first ≡ some (3, record first { attempts = 2 })
failing_runs-total_example = failing_runs-total external_error first

abbrev delivery : Stage → Delivery
delivery stage = record { envelope = first; stage = stage; exclusive = false; in_lane = false }

-- A command arrives, is answered, and arrives again.
abbrev at_work : Consumer
at_work = begin (arrive idle_consumer first) 0 (delivery claimed) true

abbrev done_once : Consumer
done_once =
    finish (answer at_work 0 (delivery running) (ok none) true true) 0 (delivery replied) true

abbrev again : Consumer
again = begin (arrive (arrive done_once first) first) 0 (delivery claimed) true

began : Reach idle_consumer at_work
unfolding arrive claim_key contains
began = next (next here (arrives first)) (begins 0 (delivery claimed) true refl refl)

abbrev ended : Reach idle_consumer done_once
unfolding arrive claim_key contains begin answer already_answered
ended =
    next
      (next (next (next here (arrives first)) (begins 0 (delivery claimed) true refl refl))
        (answers 0 (delivery running) (ok none) true true refl refl))
      (finishes 0 (delivery replied) true refl refl)

abbrev arrived_again : Reach idle_consumer again
unfolding arrive claim_key contains begin answer already_answered finish discard mark_answered
    remove_at
arrived_again =
    next (next (next ended (arrives first)) (arrives first))
      (begins 0 (delivery claimed) true refl refl)

Reach-one_run_example : count_if (holds key) at_work.active ≤ 1
Reach-one_run_example = Reach-one_run key at_work began

Reach-one_reply_example : count_if (claims key) again.replies ≤ 1
unfolding arrived_again ended
Reach-one_reply_example =
    Reach-one_reply key again arrived_again
      (((((((omega arith, refl), refl), refl), refl), refl), refl), refl)

-- The second arrival is dropped; where Redis fails in between, it is not.
again_run : again.active ≡ []
unfolding arrive claim_key contains begin answer already_answered finish discard mark_answered
    remove_at
again_run = refl

lost_run :
    (begin (arrive done_once first) 0 (delivery claimed) false).active ≡ (delivery running ∷ [])
unfolding arrive claim_key contains begin answer already_answered finish discard mark_answered
    remove_at
lost_run = refl

-- A second command, and both are exclusive: the one holds the lane, the other waits.
abbrev second : Envelope
second = record first { id = "c2"; message_id = some "m2" }

abbrev exclusive_config : CommandConfig
exclusive_config = record (default_config "dl") { exclusive = true }

abbrev of_second : Stage → Delivery
of_second stage = record { envelope = second; stage = stage; exclusive = false; in_lane = false }

abbrev queued : Delivery → Delivery
queued d = record d { stage = waiting; exclusive = true }

abbrev both_begun : Consumer
both_begun =
    begin (begin (arrive (arrive idle_consumer first) second) 0 (delivery claimed) true) 1
      (of_second claimed) true

abbrev both_wait : Consumer
both_wait =
    match_command (match_command both_begun 0 (delivery running) exclusive_config) 1
      (of_second running) exclusive_config

abbrev one_in_lane : Consumer
one_in_lane = enter_lane both_wait 1 (queued (of_second running))

-- The delivery at work is answered and ends.
Reach-drains_example : (2 ≤ 5 * 1) × (IsResting done_once ⊎ CanWork done_once)
unfolding arrive claim_key contains begin answer already_answered
Reach-drains_example = Reach-drains at_work began 2 done_once (
    worked (worked rested (answers 0 (delivery running) (ok none) true true refl refl) refl)
      (finishes 0 (delivery replied) true refl refl) refl)
