-- ===== src/Queue/Worker.antt =====
-- internal/clickqueue/worker.go, `Worker`, on the store of internal/store: it takes deliveries from
-- the queue, writes their events in batches and answers each delivery.
use shortq.Prelude.{
  ℕ, suc, ◌+◌, ◌-◌, ◌*◌, ◌%◌, List, [], ◌∷◌, ◌++◌, Bool, true, false, not, ◌&&◌, ltb, leb,
  if◌then◌else◌, is_empty, map, length, Option, none, some,
}
use shortq.Clicks.Event.{ClickEvent}
use shortq.Clicks.{Tables, Turn, Returned, value, error, record_clicks}
use shortq.Queue.Delivery.{
  Header, number, other, Delivery, WorkerConfig, PendingDelivery, Answer, committed, retried,
  replaced, returned, dead, invalid, Metrics,
}
use shortq.Queue.Decode.{decode_event, two_to_63}

-- The state of `Run`, with the tables behind `BatchStore`.
pub record State : Type 0 where
  pub batch : List PendingDelivery
  pub timer_set : Bool
  pub tables : Tables
  pub metrics : Metrics
  -- The broker's answers, from the last.
  pub answers : List Answer

-- What a function of the worker returns: nil or an error.
pub data Ended : Type 0 where
  ok failed : Ended

abbrev pub say : Answer → State → State
say a s = record s { answers = a ∷ s.answers }

abbrev pub count_dlq : State → State
count_dlq s = record s { metrics = record s.metrics { dlq = suc s.metrics.dlq } }

abbrev pub count_requeue : State → State
count_requeue s = record s { metrics = record s.metrics { requeue = suc s.metrics.requeue } }

-- `retryCount(headers)`
unfoldable pub retry_count_of : Option Header → ℕ
retry_count_of none = 0
retry_count_of (some (number n)) = n % (2 * two_to_63)
retry_count_of (some other) = 0

-- `retryCount(headers) + 1`, which wraps around.
unfoldable pub attempt_of : Delivery → ℕ
unfolding retry_count_of
attempt_of d = suc (retry_count_of d.retry_count) % (2 * two_to_63)

-- `attempt >= w.config.MaxRetries`, where a pattern from 2^63 is negative.
unfoldable pub is_exhausted : WorkerConfig → Delivery → Bool
unfolding attempt_of
is_exhausted config d = ltb (attempt_of d) two_to_63 && leb config.max_retries (attempt_of d)

-- A call that the broker carries out or refuses, with what follows on success.
abbrev pub told : Bool → Answer → (State → State) → State → Ended × State
told true a next s = (ok, next (say a s))
told false a next s = (failed, s)

-- What `retryBatch` does with one delivery; `retryer` says whether there is a `RetryPublisher`.
unfoldable pub retry_one : WorkerConfig → Bool → PendingDelivery → State → Ended × State
unfolding is_exhausted attempt_of
retry_one config retryer p s =
    if is_exhausted config p.delivery
    then told p.delivery.rejects (dead p) (λ s. s) (count_dlq s)
    else if not retryer
    then told p.delivery.nacks (returned p) count_requeue s
    else if not p.delivery.retries
    then told p.delivery.rejects (dead p) (λ s. s) (count_dlq s)
    else told p.delivery.acks (replaced p) count_requeue (say (retried (attempt_of p.delivery) p) s)

-- A step, and the next one unless it failed.
abbrev pub then_ : Ended × State → (State → Ended × State) → Ended × State
then_ (ok, s) next = next s
then_ (failed, s) next = (failed, s)

-- `retryBatch`
unfoldable pub retry_batch : WorkerConfig → Bool → List PendingDelivery → State → Ended × State
unfolding retry_one
retry_batch config retryer [] s = (ok, s)
retry_batch config retryer (p ∷ ps) s =
    then_ (retry_one config retryer p s) (retry_batch config retryer ps)

-- The acknowledgements of a batch that is committed.
unfoldable pub ack_batch : List PendingDelivery → State → Ended × State
ack_batch [] s = (ok, s)
ack_batch (p ∷ ps) s = then_ (told p.delivery.acks (committed p) (λ s. s) s) (ack_batch ps)

-- `observeBatch`, without the duration.
abbrev pub observe_batch : ℕ → State → State
observe_batch size s = record s {
  metrics = record s.metrics {
    batches = suc s.metrics.batches;
    batch_events = s.metrics.batch_events + size;
  };
}

abbrev pub event_of_pending : PendingDelivery → ClickEvent
event_of_pending p = p.event

-- The part of `flush` after `RecordClicks`.
unfoldable pub end_flush :
    WorkerConfig → Bool → List PendingDelivery → Returned ℕ → State → Ended × State
unfolding retry_batch ack_batch
end_flush config retryer ps error s =
    retry_batch config retryer ps
      (record s { metrics = record s.metrics { failures = suc s.metrics.failures } })
end_flush config retryer ps (value n) s = ack_batch ps (record s {
  metrics = record s.metrics {
    committed_events = s.metrics.committed_events + n;
    duplicate = s.metrics.duplicate + (length ps - n);
  };
})

-- `flush(ctx, batch)`
unfoldable pub flush_batch :
    WorkerConfig → Bool → Turn → List PendingDelivery → State → Ended × State
unfolding end_flush
flush_batch config retryer turn ps s =
    let written = record_clicks turn (map event_of_pending ps) s.tables in
    end_flush config retryer ps (written.0)
      (observe_batch (length ps) (record s { tables = written.1 }))

-- The function `flush` of `Run`.
unfoldable pub flush : WorkerConfig → Bool → Turn → State → Ended × State
unfolding flush_batch
flush config retryer turn s =
    let stopped = record s { timer_set = false } in
    if is_empty s.batch
    then (ok, stopped)
    else flush_batch config retryer turn s.batch (record stopped { batch = [] })

-- `batch = append(batch, …)`, the timer, and the flush of a full batch.
unfoldable pub append : WorkerConfig → Bool → Turn → PendingDelivery → State → Ended × State
unfolding flush
append config retryer turn p s =
    let longer = record s { batch = s.batch ++ p ∷ []; timer_set = true } in
    if leb config.batch_size (length longer.batch)
    then flush config retryer turn longer
    else (ok, longer)

-- What `accept` does with the result of `DecodeEvent`.
unfoldable pub accept_decoded :
    WorkerConfig → Bool → Turn → Delivery → Option ClickEvent → State → Ended × State
unfolding append
accept_decoded config retryer turn d none s =
    told d.rejects (invalid d) (λ s. s)
      (record s {
        metrics = record s.metrics {
          invalid_messages = suc s.metrics.invalid_messages;
          dlq = suc s.metrics.dlq;
        };
      })
accept_decoded config retryer turn d (some e) s =
    append config retryer turn (record { delivery = d; event = e }) s

-- The function `accept` of `Run`.
unfoldable pub accept : WorkerConfig → Bool → Turn → Delivery → State → Ended × State
unfolding accept_decoded
accept config retryer turn d s =
    accept_decoded config retryer turn d (decode_event d.body)
      (record s { metrics = record s.metrics { received = suc s.metrics.received } })

-- What the loop of `Run` waits for, with what a flush finds if it comes to one.
pub data Input : Type 0 where
  arrived : Turn → Delivery → Input
  fired : Turn → Input

-- One round of the loop; a timer that is not set does not fire.
unfoldable pub round : WorkerConfig → Bool → Input → State → Ended × State
unfolding accept flush
round config retryer (arrived turn d) s = accept config retryer turn d s
round config retryer (fired turn) s = if s.timer_set then flush config retryer turn s else (ok, s)

-- The loop of `Run` over what comes, before the channel is closed.
unfoldable pub rounds : WorkerConfig → Bool → List Input → State → Ended × State
unfolding round
rounds config retryer [] s = (ok, s)
rounds config retryer (i ∷ is) s = then_ (round config retryer i s) (rounds config retryer is)

-- `Run`: the channel is closed after the inputs, or the worker is stopped, which takes the deliveries
-- that are there and flushes.
unfoldable pub run : WorkerConfig → Bool → List Input → Turn → State → Ended × State
unfolding rounds flush
run config retryer is turn s = then_ (rounds config retryer is s) (flush config retryer turn)
