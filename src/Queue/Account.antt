-- ===== src/Queue/Account.antt =====
-- The worker's counters: each delivery is counted where it ends.
use shortq.Prelude.{
  ℕ, suc, ◌+◌, ◌≡◌, ◌≤◌, refl, ap, arith, List, [], ◌∷◌, ◌++◌, Bool, true, false, not, leb,
  is_empty, length, map, if-holds, Option, none, some,
}
use mathlib.Core.Path.{subst}
use shortq.Clicks.Event.{ClickEvent}
use shortq.Clicks.{Turn, Returned, value, error, record_clicks}
use shortq.Clicks.Count.{IsWithin, record_clicks-IsWithin}
use shortq.Queue.Decode.{decode_event}
use shortq.Queue.Steps.{longer_batch}
use shortq.Queue.Delivery.{
  Delivery, WorkerConfig, PendingDelivery, Answer, committed, retried, replaced, returned, dead,
  invalid,
}
use shortq.Queue.Worker.{
  State, Ended, ok, failed, say, told, then_, count_dlq, count_requeue, attempt_of, is_exhausted,
  retry_one, retry_batch, ack_batch, event_of_pending, end_flush, flush_batch, flush, append,
  accept_decoded, accept, Input, arrived, fired, round, rounds, run,
}

-- Every delivery that was received was committed, found to be a duplicate, sent back or given up, or
-- waits in the batch, or is one of the `k` in hand.
abbrev pub IsAccounted : ℕ → State → Type 0
IsAccounted k s =
    s.metrics.received
    ≡ s.metrics.committed_events
      + s.metrics.duplicate
      + s.metrics.requeue
      + s.metrics.dlq
      + length s.batch
      + k

-- No delivery is counted twice, and none that was not received.
abbrev pub IsWithinReceived : State → Type 0
IsWithinReceived s =
    s.metrics.committed_events
      + s.metrics.duplicate
      + s.metrics.requeue
      + s.metrics.dlq
      + length s.batch
    ≤ s.metrics.received

-- The same of a step, which, where it fails, may leave deliveries in hand that it has not counted.
abbrev pub EndsAccounted : ℕ → Ended × State → Type 0
EndsAccounted k (ok, s) = IsAccounted k s
EndsAccounted k (failed, s) = IsWithinReceived s

told-accounted :
    (k : ℕ) (b : Bool) (a : Answer) (next : State → State) (s : State)
    → IsAccounted k (next (say a s))
    → IsWithinReceived s
    → EndsAccounted k (told b a next s)
told-accounted k true a next s held before = held
told-accounted k false a next s held before = before

then-accounted :
    (k m : ℕ) (r : Ended × State) (next : State → Ended × State)
    → EndsAccounted k r
    → ((s : State) → IsAccounted k s → EndsAccounted m (next s))
    → EndsAccounted m (then_ r next)
then-accounted k m (ok, s) next held rest = rest s held
then-accounted k m (failed, s) next held rest = held

length-map : (ps : List PendingDelivery) → length (map event_of_pending ps) ≡ length ps
length-map [] = refl
length-map (p ∷ ps) = ap suc (length-map ps)

length-append :
    (ps : List PendingDelivery) (p : PendingDelivery) → length (ps ++ p ∷ []) ≡ suc (length ps)
length-append [] p = refl
length-append (q ∷ ps) p = ap suc (length-append ps p)

module _ (config : WorkerConfig) (retryer : Bool) where
  retry_one-accounted :
      (k : ℕ) (p : PendingDelivery) (s : State)
      → IsAccounted (suc k) s
      → EndsAccounted k (retry_one config retryer p s)
  unfolding retry_one
  retry_one-accounted k p s held =
      if-holds (EndsAccounted k) (is_exhausted config p.delivery)
        (λ spent.
          told-accounted k p.delivery.rejects (dead p) (λ s. s) (count_dlq s) (omega arith)
            (omega arith))
        (λ left.
          if-holds (EndsAccounted k) (not retryer)
            (λ alone.
              told-accounted k p.delivery.nacks (returned p) count_requeue s (omega arith)
                (omega arith))
            (λ backed.
              if-holds (EndsAccounted k) (not p.delivery.retries)
                (λ refused.
                  told-accounted k p.delivery.rejects (dead p) (λ s. s) (count_dlq s) (omega arith)
                    (omega arith))
                (λ sent.
                  told-accounted k p.delivery.acks (replaced p) count_requeue
                    (say (retried (attempt_of p.delivery) p) s) (omega arith) (omega arith))))

  retry_batch-accounted :
      (ps : List PendingDelivery) (s : State)
      → IsAccounted (length ps) s
      → EndsAccounted 0 (retry_batch config retryer ps s)
  unfolding retry_batch
  retry_batch-accounted [] s held = held
  retry_batch-accounted (p ∷ ps) s held =
      then-accounted (length ps) 0 (retry_one config retryer p s) (retry_batch config retryer ps)
        (retry_one-accounted (length ps) p s held) (retry_batch-accounted ps)

  ack_batch-accounted :
      (ps : List PendingDelivery) (s : State) → IsAccounted 0 s → EndsAccounted 0 (ack_batch ps s)
  unfolding ack_batch
  ack_batch-accounted [] s held = held
  ack_batch-accounted (p ∷ ps) s held =
      then-accounted 0 0 (told p.delivery.acks (committed p) (λ s. s) s) (ack_batch ps)
        (told-accounted 0 p.delivery.acks (committed p) (λ s. s) s held (omega arith))
        (ack_batch-accounted ps)

  end_flush-accounted :
      (ps : List PendingDelivery) (r : Returned ℕ) (s : State)
      → IsWithin (length ps) r
      → IsAccounted (length ps) s
      → EndsAccounted 0 (end_flush config retryer ps r s)
  unfolding end_flush
  end_flush-accounted ps error s within held = retry_batch-accounted ps _ held
  end_flush-accounted ps (value n) s within held = ack_batch-accounted ps _ (omega arith)

  flush-accounted :
      (turn : Turn) (s : State) → IsAccounted 0 s → EndsAccounted 0 (flush config retryer turn s)
  unfolding flush flush_batch
  flush-accounted turn s held =
      if-holds (EndsAccounted 0) (is_empty s.batch) (λ idle. held)
        (λ full.
          end_flush-accounted s.batch _ _
            (subst
              (λ n. IsWithin n ((record_clicks turn (map event_of_pending s.batch) s.tables).0))
              (length-map s.batch)
              (record_clicks-IsWithin turn (map event_of_pending s.batch) s.tables))
            (omega arith))

  append-accounted :
      (turn : Turn) (p : PendingDelivery) (s : State)
      → IsAccounted 1 s
      → EndsAccounted 0 (append config retryer turn p s)
  unfolding append
  append-accounted turn p s held =
      let longer : IsAccounted 0 (longer_batch p s) =
        omega (arith, length-append s.batch p, held) in
      if-holds (EndsAccounted 0) (leb config.batch_size (length (s.batch ++ p ∷ [])))
        (λ full. flush-accounted turn (longer_batch p s) longer) (λ room. longer)

  accept_decoded-accounted :
      (turn : Turn) (d : Delivery) (o : Option ClickEvent) (s : State)
      → IsAccounted 1 s
      → EndsAccounted 0 (accept_decoded config retryer turn d o s)
  unfolding accept_decoded
  accept_decoded-accounted turn d none s held =
      told-accounted 0 d.rejects (invalid d) (λ s. s) _ (omega arith) (omega arith)
  accept_decoded-accounted turn d (some e) s held = append-accounted turn _ s held

  round-accounted :
      (i : Input) (s : State) → IsAccounted 0 s → EndsAccounted 0 (round config retryer i s)
  unfolding round accept
  round-accounted (arrived turn d) s held =
      accept_decoded-accounted turn d (decode_event d.body) _ (omega arith)
  round-accounted (fired turn) s held =
      if-holds (EndsAccounted 0) s.timer_set (λ set. flush-accounted turn s held) (λ unset. held)

  rounds-accounted :
      (is : List Input) (s : State) → IsAccounted 0 s → EndsAccounted 0 (rounds config retryer is s)
  unfolding rounds
  rounds-accounted [] s held = held
  rounds-accounted (i ∷ is) s held =
      then-accounted 0 0 (round config retryer i s) (rounds config retryer is)
        (round-accounted i s held) (rounds-accounted is)

-- If every delivery that the worker received is committed, a duplicate, sent back or given up by its
-- counters, or waits in the batch, then the same holds when the worker has run until its channel is
-- closed, whatever the database does, unless the run ends in an error; then what the counters and
-- the batch hold is at most what was received.
pub run-EndsAccounted :
    (config : WorkerConfig) (retryer : Bool) (is : List Input) (turn : Turn) (s : State)
    → IsAccounted 0 s
    → EndsAccounted 0 (run config retryer is turn s)
unfolding run
run-EndsAccounted config retryer is turn s held =
    then-accounted 0 0 (rounds config retryer is s) (flush config retryer turn)
      (rounds-accounted config retryer is s held) (flush-accounted config retryer turn)
