-- ===== src/Tests/Queue.antt =====
-- The click queue at concrete inputs.
use shortq.Prelude.{
  ◌≡◌, ◌<◌, ◌≤◌, refl, arith, List, [], ◌∷◌, Text, true, false, text_eq, lower, none, some,
}
use shortq.Clicks.{is_recorded, record_clicks}
use shortq.Clicks.Again.{AreNamed}
use shortq.Queue.Decode.{is_valid, decode_event}
use shortq.Queue.Recorder.{unconfirmed, marshal_event, scrubbed, record_event}
use shortq.Queue.Delivery.{Delivery, WorkerConfig, new_config, PendingDelivery, Metrics}
use shortq.Queue.Worker.{State, Input, arrived, fired, round, rounds, run}
use shortq.Queue.Loss.{AreKept, IsSafe, run-IsSafe}
use shortq.Queue.Bounds.{IsReady, rounds-bounds, fired-IsFlushed}
use shortq.Queue.Account.{EndsAccounted, run-EndsAccounted}
use shortq.Queue.Once.{CountsOnce, decode_event-marshal_event, record_event-CountsOnce}
use shortq.Queue.Retries.{IsGivenUpAfter, fail_all, fail_all-IsGivenUpAfter}
use shortq.Tests.Clicks.{visit, open_row, new_tables, steady, unsteady, first_id}

abbrev config : WorkerConfig
config = record { batch_size = 2; flush_interval = 250; max_retries = 5 }

-- A scrubber that drops the whole address.
abbrev blank : Text → Text
blank url = []

-- The delivery of a first visit, and one that is not JSON.
abbrev good : Delivery
good = record {
  body = some (marshal_event blank (visit first_id 1));
  retry_count = none;
  acks = true;
  nacks = true;
  rejects = true;
  retries = true;
}

abbrev bad : Delivery
bad = record good { body = none }

abbrev no_metrics : Metrics
no_metrics = record {
  received = 0;
  committed_events = 0;
  duplicate = 0;
  invalid_messages = 0;
  requeue = 0;
  dlq = 0;
  failures = 0;
  batches = 0;
  batch_events = 0;
}

abbrev idle : State
idle = record {
  batch = [];
  timer_set = false;
  tables = new_tables;
  metrics = no_metrics;
  answers = [];
}

abbrev inputs : List Input
inputs =
    arrived steady good
    ∷ arrived steady bad
    ∷ arrived unsteady good
    ∷ fired steady
    ∷ arrived steady good
    ∷ []

-- The second batch is told that it failed, and the third finds its event in the table.
run_metrics : (run config true inputs steady idle).1.metrics ≡ (record no_metrics {
  received = 4;
  committed_events = 0;
  duplicate = 1;
  invalid_messages = 1;
  requeue = 2;
  dlq = 1;
  failures = 1;
  batches = 2;
  batch_events = 3;
})
unfolding run text_eq lower marshal_event decode_event record_clicks
run_metrics = refl

run-IsSafe_example : IsSafe (run config true inputs steady idle).1
unfolding AreKept AreNamed
run-IsSafe_example = run-IsSafe config true inputs steady idle (tt, tt)

rounds-bounds_example :
    (0 < (new_config config).batch_size)
    × ((new_config config).batch_size ≤ 200)
    × IsReady (new_config config) (rounds (new_config config) true inputs idle).1
unfolding new_config
rounds-bounds_example = rounds-bounds config true inputs idle (omega arith, refl)

abbrev waiting : State
waiting = record idle {
  batch = record { delivery = good; event = visit first_id 1 } ∷ [];
  timer_set = true;
}

fired-IsFlushed_example : (round config true (fired steady) waiting).1.batch ≡ []
fired-IsFlushed_example = fired-IsFlushed config true steady waiting (omega arith, refl)

run-EndsAccounted_example : EndsAccounted 0 (run config true inputs steady idle)
run-EndsAccounted_example = run-EndsAccounted config true inputs steady idle refl

abbrev doomed : PendingDelivery
doomed = record { delivery = good; event = visit first_id 1 }

fail_all-IsGivenUpAfter_example : IsGivenUpAfter 4 idle (fail_all 5 config doomed idle)
fail_all-IsGivenUpAfter_example =
    fail_all-IsGivenUpAfter config doomed 4 idle refl refl refl refl refl (omega arith)

decode_event-marshal_event_example :
    decode_event (some (marshal_event blank (visit first_id 1)))
    ≡ some (scrubbed blank (visit first_id 1))
unfolding is_valid marshal_event
decode_event-marshal_event_example = decode_event-marshal_event blank (visit first_id 1) refl

record_event-CountsOnce_example : CountsOnce steady 1 open_row (
    record_event blank
      (some unconfirmed)
      steady
      (visit first_id 1)
      true
      none
      (record { tables = new_tables; queue = [] }))
unfolding is_valid is_recorded marshal_event
record_event-CountsOnce_example =
    record_event-CountsOnce blank (some unconfirmed) steady steady (visit first_id 1) open_row
      new_tables refl refl refl refl refl refl refl
