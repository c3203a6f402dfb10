-- ===== src/Queue/Bounds.antt =====
-- The size of the worker's batch and its timer.
use shortq.Prelude.{
  ℕ, ◌≤◌, ◌<◌, ◌≡◌, refl, arith, List, [], ◌∷◌, ◌++◌, Bool, true, false, ◌||◌, ◌==◌, ltb, leb,
  is_empty, length, if-holds, Option, none, some,
}
use shortq.Clicks.Event.{ClickEvent}
use shortq.Clicks.{Turn, Returned, value, error}
use shortq.Queue.Decode.{decode_event}
use shortq.Queue.Steps.{longer_batch, told-holds, then-holds, retry_batch-holds}
use shortq.Queue.Delivery.{
  Delivery, WorkerConfig, new_config, default_batch_size, PendingDelivery, committed, invalid,
}
use shortq.Queue.Worker.{
  State, Ended, told, ack_batch, end_flush, flush_batch, flush, append, accept_decoded, accept,
  Input, arrived, fired, round, rounds,
}

-- The batch is not full, and while something waits in it the timer is set.
abbrev pub IsReady : WorkerConfig → State → Type 0
IsReady config s = (length s.batch < config.batch_size) × ((is_empty s.batch || s.timer_set) ≡ true)

abbrev IsFlushed : State → Type 0
IsFlushed s = s.batch ≡ []

abbrev EndsFlushed : Ended × State → Type 0
EndsFlushed r = IsFlushed r.1

ack_batch-IsFlushed :
    (ps : List PendingDelivery) (s : State) → IsFlushed s → EndsFlushed (ack_batch ps s)
unfolding ack_batch
ack_batch-IsFlushed [] s done = done
ack_batch-IsFlushed (p ∷ ps) s done =
    then-holds IsFlushed (told p.delivery.acks (committed p) (λ s. s) s) (ack_batch ps)
      (told-holds IsFlushed p.delivery.acks (committed p) (λ s. s) s done done)
      (ack_batch-IsFlushed ps)

end_flush-IsFlushed :
    (config : WorkerConfig) (retryer : Bool) (ps : List PendingDelivery) (r : Returned ℕ)
    (s : State)
    → IsFlushed s
    → EndsFlushed (end_flush config retryer ps r s)
unfolding end_flush
end_flush-IsFlushed config retryer ps error s done =
    retry_batch-holds IsFlushed (λ s done. done) (λ s done. done) (λ a s h done. done) config
      retryer ps _ done
end_flush-IsFlushed config retryer ps (value n) s done = ack_batch-IsFlushed ps _ done

no_items {ℓ} : {A : Type ℓ} (xs : List A) → is_empty xs ≡ true → xs ≡ []
no_items [] h = refl
no_items (x ∷ xs) h = cc

-- The batch is empty after `flush`, whatever becomes of what was in it.
pub flush-IsFlushed :
    (config : WorkerConfig) (retryer : Bool) (turn : Turn) (s : State)
    → (flush config retryer turn s).1.batch ≡ []
unfolding flush flush_batch
flush-IsFlushed config retryer turn s =
    if-holds EndsFlushed (is_empty s.batch) (λ idle. no_items s.batch idle)
      (λ full. end_flush-IsFlushed config retryer s.batch _ _ refl)

module _ (config : WorkerConfig) (retryer : Bool) (room : 0 < config.batch_size) where
  flushed-IsReady : (s : State) → IsFlushed s → IsReady config s
  flushed-IsReady s done = rw (done) (room, refl)

  flush-IsReady : (turn : Turn) (s : State) → IsReady config (flush config retryer turn s).1
  flush-IsReady turn s =
      flushed-IsReady (flush config retryer turn s).1 (flush-IsFlushed config retryer turn s)

  abbrev EndsReady : Ended × State → Type 0
  EndsReady r = IsReady config r.1

  or_true : (b : Bool) → (b || true) ≡ true
  or_true true = refl
  or_true false = refl

  append-IsReady :
      (turn : Turn) (p : PendingDelivery) (s : State) → EndsReady (append config retryer turn p s)
  unfolding append
  append-IsReady turn p s =
      if-holds EndsReady (leb config.batch_size (length (s.batch ++ p ∷ [])))
        (λ full. flush-IsReady turn (longer_batch p s)) (λ left. (ground arith, or_true _))

  accept_decoded-IsReady :
      (turn : Turn) (d : Delivery) (o : Option ClickEvent) (s : State)
      → IsReady config s
      → EndsReady (accept_decoded config retryer turn d o s)
  unfolding accept_decoded
  accept_decoded-IsReady turn d none s ready =
      told-holds (IsReady config) d.rejects (invalid d) (λ s. s) _ ready ready
  accept_decoded-IsReady turn d (some e) s ready = append-IsReady turn _ s

  round-IsReady : (i : Input) (s : State) → IsReady config s → EndsReady (round config retryer i s)
  unfolding round accept
  round-IsReady (arrived turn d) s ready =
      accept_decoded-IsReady turn d (decode_event d.body) _ ready
  round-IsReady (fired turn) s ready =
      if-holds EndsReady s.timer_set (λ set. flush-IsReady turn s) (λ unset. ready)

  rounds-IsReady :
      (is : List Input) (s : State) → IsReady config s → EndsReady (rounds config retryer is s)
  unfolding rounds
  rounds-IsReady [] s ready = ready
  rounds-IsReady (i ∷ is) s ready =
      then-holds (IsReady config) (round config retryer i s) (rounds config retryer is)
        (round-IsReady i s ready) (rounds-IsReady is)

-- When the timer fires, nothing is left in the batch, if the timer was set while something waited.
pub fired-IsFlushed :
    (config : WorkerConfig) (retryer : Bool) (turn : Turn) (s : State)
    → IsReady config s
    → (round config retryer (fired turn) s).1.batch ≡ []
unfolding round
fired-IsFlushed config retryer turn s ready =
    if-holds EndsFlushed s.timer_set (λ set. flush-IsFlushed config retryer turn s)
      (λ unset. no_items s.batch (waits_not s.batch s.timer_set unset (ready.1)))
  where
    waits_not :
        (ps : List PendingDelivery) (b : Bool)
        → b ≡ false
        → (is_empty ps || b) ≡ true
        → is_empty ps ≡ true
    waits_not [] b unset h = refl
    waits_not (p ∷ ps) true unset h = cc
    waits_not (p ∷ ps) false unset h = h

new_config-bounds :
    (config : WorkerConfig)
    → (0 < (new_config config).batch_size) × ((new_config config).batch_size ≤ 200)
unfolding new_config
new_config-bounds config =
    if-holds Within (config.batch_size == 0 || ltb default_batch_size config.batch_size)
      (λ wrong. (ground arith, ground arith)) (λ right. (ground arith, ground arith))
  where
    Within : ℕ → Type 0
    Within n = (0 < n) × (n ≤ 200)

-- A worker's batches take from 1 to 200 deliveries, whatever it is configured with; and if its batch
-- is not full, and its timer set while a delivery waits in it, then the same holds after any
-- deliveries and timers, also where they end in an error.
pub rounds-bounds :
    (config : WorkerConfig) (retryer : Bool) (is : List Input) (s : State)
    → IsReady (new_config config) s
    → (0 < (new_config config).batch_size)
      × ((new_config config).batch_size ≤ 200)
      × IsReady (new_config config) (rounds (new_config config) retryer is s).1
rounds-bounds config retryer is s ready =
    let size = new_config-bounds config in
    (size.0, size.1, rounds-IsReady (new_config config) retryer (size.0) is s ready)
