-- ===== src/Queue/Loss.antt =====
-- The worker against the loss of events.
use shortq.Prelude.{
  ℕ, ◌≡◌, List, [], ◌∷◌, ◌++◌, Bool, true, false, not, leb, is_empty, length, map, if-holds, Option,
  none, some,
}
use shortq.Clicks.Event.{ClickEvent}
use shortq.Clicks.{Tables, Turn, Returned, value, error, is_recorded, record_clicks}
use shortq.Clicks.Again.{Keeps, AreStored, AreNamed, AfterBatch, record_clicks-AfterBatch}
use shortq.Queue.Decode.{EventPayload, is_valid, decode_event}
use shortq.Queue.Steps.{longer_batch, told-holds, then-holds, is_commit, retry_batch-holds}
use shortq.Queue.Names.{named_append, named_payload}
use shortq.Queue.Delivery.{
  Delivery, WorkerConfig, PendingDelivery, Answer, committed, retried, replaced, returned, dead,
  invalid,
}
use shortq.Queue.Worker.{
  State, Ended, say, told, then_, ack_batch, observe_batch, event_of_pending, end_flush,
  flush_batch, flush, append, accept_decoded, accept, Input, arrived, fired, round, rounds, run,
}

-- What the tables hold for an answer.
abbrev pub IsKept : Tables → Answer → Type 0
IsKept t (committed p) = is_recorded p.event.event_id t.clicks ≡ true
IsKept t _ = Unit {0}

unfoldable pub AreKept : Tables → List Answer → Type 0
AreKept t [] = Unit {0}
AreKept t (a ∷ rest) = IsKept t a × AreKept t rest

-- Every event whose delivery was acknowledged as committed is in the tables, and what waits in the
-- batch has an id.
abbrev pub IsSafe : State → Type 0
IsSafe s = AreKept s.tables s.answers × AreNamed (map event_of_pending s.batch)

abbrev EndsSafe : Ended × State → Type 0
EndsSafe r = IsSafe r.1

said-IsSafe : (a : Answer) (s : State) → is_commit a ≡ false → IsSafe s → IsSafe (say a s)
unfolding AreKept
said-IsSafe (committed p) s h safe = cc
said-IsSafe (retried n p) s h safe = ((tt, safe.0), safe.1)
said-IsSafe (replaced p) s h safe = ((tt, safe.0), safe.1)
said-IsSafe (returned p) s h safe = ((tt, safe.0), safe.1)
said-IsSafe (dead p) s h safe = ((tt, safe.0), safe.1)
said-IsSafe (invalid d) s h safe = ((tt, safe.0), safe.1)

-- Rows that are not gone keep their answers.
still-kept : (a b : Tables) (rest : List Answer) → Keeps a b → AreKept a rest → AreKept b rest
unfolding AreKept
still-kept a b [] keeps kept = tt
still-kept a b (x ∷ rest) keeps kept = (still x (kept.0), still-kept a b rest keeps (kept.1))
  where
    still : (x : Answer) → IsKept a x → IsKept b x
    still (committed p) h = keeps p.event.event_id h
    still (retried n p) h = tt
    still (replaced p) h = tt
    still (returned p) h = tt
    still (dead p) h = tt
    still (invalid d) h = tt

ack_batch-IsSafe :
    (ps : List PendingDelivery) (s : State)
    → AreStored (map event_of_pending ps) s.tables
    → IsSafe s
    → IsSafe (ack_batch ps s).1
unfolding ack_batch AreStored AreKept
ack_batch-IsSafe [] s stored safe = safe
ack_batch-IsSafe (p ∷ ps) s stored safe =
    ack_rest p.delivery.acks
      (ack_batch-IsSafe ps (say (committed p) s) (stored.1) ((stored.0.0, safe.0), safe.1))
  where
    ack_rest :
        (b : Bool)
        → IsSafe (ack_batch ps (say (committed p) s)).1
        → IsSafe (then_ (told b (committed p) (λ s. s) s) (ack_batch ps)).1
    ack_rest true rest = rest
    ack_rest false rest = safe

end_flush-IsSafe :
    (config : WorkerConfig) (retryer : Bool) (ps : List PendingDelivery) (t : Tables)
    (written : Returned ℕ × Tables) (s : State)
    → AfterBatch (map event_of_pending ps) t written
    → AreKept t s.answers
    → AreNamed (map event_of_pending s.batch)
    → IsSafe
        (end_flush config retryer ps
          (written.0)
          (observe_batch (length ps) (record s { tables = written.1 }))).1
unfolding end_flush
end_flush-IsSafe config retryer ps t (error, after) s held kept named =
    retry_batch-holds IsSafe (λ s safe. safe) (λ s safe. safe) said-IsSafe config retryer ps _
      (still-kept t after s.answers held kept, named)
end_flush-IsSafe config retryer ps t (value n, after) s held kept named =
    ack_batch-IsSafe ps _ (held.1) (still-kept t after s.answers (held.0) kept, named)

flush-IsSafe :
    (config : WorkerConfig) (retryer : Bool) (turn : Turn) (s : State)
    → IsSafe s
    → IsSafe (flush config retryer turn s).1
unfolding flush flush_batch AreNamed
flush-IsSafe config retryer turn s safe =
    if-holds EndsSafe (is_empty s.batch) (λ idle. safe)
      (λ full.
        end_flush-IsSafe config retryer s.batch s.tables
          (record_clicks turn (map event_of_pending s.batch) s.tables)
          (record s { timer_set = false; batch = [] })
          (record_clicks-AfterBatch turn (map event_of_pending s.batch) s.tables (safe.1)) (safe.0)
          tt)

append-IsSafe :
    (config : WorkerConfig) (retryer : Bool) (turn : Turn) (p : PendingDelivery) (s : State)
    → not (is_empty p.event.event_id) ≡ true
    → IsSafe s
    → IsSafe (append config retryer turn p s).1
unfolding append
append-IsSafe config retryer turn p s named safe =
    if-holds EndsSafe (leb config.batch_size (length (s.batch ++ p ∷ [])))
      (λ full.
        flush-IsSafe config retryer turn (longer_batch p s)
          (safe.0, named_append s.batch p named (safe.1)))
      (λ room. (safe.0, named_append s.batch p named (safe.1)))

accept_decoded-IsSafe :
    (config : WorkerConfig) (retryer : Bool) (turn : Turn) (d : Delivery)
    (body : Option EventPayload) (s : State)
    → IsSafe s
    → IsSafe (accept_decoded config retryer turn d (decode_event body) s).1
unfolding accept_decoded decode_event AreKept
accept_decoded-IsSafe config retryer turn d none s safe =
    told-holds IsSafe d.rejects (invalid d) (λ s. s) _ safe ((tt, safe.0), safe.1)
accept_decoded-IsSafe config retryer turn d (some payload) s safe =
    if-holds (λ (o : Option ClickEvent). EndsSafe (accept_decoded config retryer turn d o s))
      (is_valid payload)
      (λ passed. append-IsSafe config retryer turn _ s (named_payload payload passed) safe)
      (λ refused. told-holds IsSafe d.rejects (invalid d) (λ s. s) _ safe ((tt, safe.0), safe.1))

round-IsSafe :
    (config : WorkerConfig) (retryer : Bool) (i : Input) (s : State)
    → IsSafe s
    → IsSafe (round config retryer i s).1
unfolding round accept
round-IsSafe config retryer (arrived turn d) s safe =
    accept_decoded-IsSafe config retryer turn d d.body _ safe
round-IsSafe config retryer (fired turn) s safe =
    if-holds EndsSafe s.timer_set (λ set. flush-IsSafe config retryer turn s safe) (λ unset. safe)

rounds-IsSafe :
    (config : WorkerConfig) (retryer : Bool) (is : List Input) (s : State)
    → IsSafe s
    → IsSafe (rounds config retryer is s).1
unfolding rounds
rounds-IsSafe config retryer [] s safe = safe
rounds-IsSafe config retryer (i ∷ is) s safe =
    then-holds IsSafe (round config retryer i s) (rounds config retryer is)
      (round-IsSafe config retryer i s safe) (rounds-IsSafe config retryer is)

-- Whatever deliveries come and whatever the database and the broker do, if every event whose
-- delivery was acknowledged as committed is in the table of clicks before the worker runs, and what
-- waits in its batch has an id, then the same holds after it, even where the run ends in an error.
pub run-IsSafe :
    (config : WorkerConfig) (retryer : Bool) (is : List Input) (turn : Turn) (s : State)
    → IsSafe s
    → IsSafe (run config retryer is turn s).1
unfolding run
run-IsSafe config retryer is turn s safe =
    then-holds IsSafe (rounds config retryer is s) (flush config retryer turn)
      (rounds-IsSafe config retryer is s safe) (flush-IsSafe config retryer turn)
