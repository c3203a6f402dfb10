-- ===== src/Queue/Delivery.antt =====
-- internal/clickqueue/worker.go, the deliveries that the worker takes, its configuration and its
-- counters.
use shortq.Prelude.{ℕ, Bool, ◌||◌, ◌==◌, ltb, if◌then◌else◌, Option}
use shortq.Clicks.Event.{ClickEvent}
use shortq.Queue.Decode.{EventPayload}

-- The header `x-shortq-retry-count`: the 64 bits of `int(value)` for a number of one of the types in
-- the source's switch, or a value of another type.
pub data Header : Type 0 where
  number : ℕ → Header
  other : Header

-- A delivery as `bridgeDeliveries` makes it, with its three functions: its body as the JSON decoder
-- takes it, its header, and whether the broker carries out what it is told of the delivery.
pub record Delivery : Type 0 where
  pub body : Option EventPayload
  pub retry_count : Option Header
  pub acks : Bool
  pub nacks : Bool
  pub rejects : Bool
  pub retries : Bool

-- `WorkerConfig`; 0 stands for a number that is not positive.
pub record WorkerConfig : Type 0 where
  pub batch_size : ℕ
  pub flush_interval : ℕ
  pub max_retries : ℕ

abbrev pub default_batch_size : ℕ
default_batch_size = 200

-- The fields of `NewWorker`. The interval is in milliseconds.
unfoldable pub new_config : WorkerConfig → WorkerConfig
new_config config = record {
  batch_size =
      if config.batch_size == 0 || ltb default_batch_size config.batch_size
      then default_batch_size
      else config.batch_size;
  flush_interval = if config.flush_interval == 0 then 250 else config.flush_interval;
  max_retries = if config.max_retries == 0 then 5 else config.max_retries;
}

-- `pendingDelivery`
pub record PendingDelivery : Type 0 where
  pub delivery : Delivery
  pub event : ClickEvent

-- What the broker is told, in order.
pub data Answer : Type 0 where
  -- `Ack` of a delivery whose batch is committed.
  committed : PendingDelivery → Answer
  -- `Retry` with the attempt's number.
  retried : ℕ → PendingDelivery → Answer
  -- `Ack` of a delivery whose replacement is in the retry queue.
  replaced : PendingDelivery → Answer
  -- `Nack(true)`
  returned : PendingDelivery → Answer
  -- `Reject` of a delivery that is given up.
  dead : PendingDelivery → Answer
  -- `Reject` of a delivery that is not a valid event.
  invalid : Delivery → Answer

-- `WorkerMetrics`, without those of times.
pub record Metrics : Type 0 where
  pub received : ℕ
  pub committed_events : ℕ
  pub duplicate : ℕ
  pub invalid_messages : ℕ
  pub requeue : ℕ
  pub dlq : ℕ
  pub failures : ℕ
  pub batches : ℕ
  pub batch_events : ℕ
