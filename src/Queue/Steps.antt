-- ===== src/Queue/Steps.antt =====
-- What a property of the worker's state needs to hold after the answers to a batch.
use shortq.Prelude.{◌≡◌, refl, List, [], ◌∷◌, ◌++◌, Bool, true, false, not, if-holds}
use shortq.Queue.Delivery.{
  WorkerConfig, PendingDelivery, Answer, committed, retried, replaced, returned, dead,
}
use shortq.Queue.Worker.{
  State, Ended, ok, failed, say, told, then_, count_dlq, count_requeue, attempt_of, is_exhausted,
  retry_one, retry_batch,
}

-- The state with one more delivery in the batch.
abbrev pub longer_batch : PendingDelivery → State → State
longer_batch p s = record s { batch = s.batch ++ p ∷ []; timer_set = true }

pub told-holds {ℓ} :
    (P : State → Type ℓ) (b : Bool) (a : Answer) (next : State → State) (s : State)
    → P s
    → P (next (say a s))
    → P (told b a next s).1
told-holds P true a next s before after = after
told-holds P false a next s before after = before

pub then-holds {ℓ} :
    (P : State → Type ℓ) (r : Ended × State) (next : State → Ended × State)
    → P r.1
    → ((s : State) → P s → P (next s).1)
    → P (then_ r next).1
then-holds P (ok, s) next held rest = rest s held
then-holds P (failed, s) next held rest = held

abbrev pub is_commit : Answer → Bool
is_commit (committed p) = true
is_commit _ = false

module _ {ℓ} (P : State → Type ℓ) (dlq-holds : (s : State) → P s → P (count_dlq s))
    (requeue-holds : (s : State) → P s → P (count_requeue s))
    (say-holds : (a : Answer) (s : State) → is_commit a ≡ false → P s → P (say a s))
    (config : WorkerConfig) (retryer : Bool) where
  abbrev After : Ended × State → Type ℓ
  After r = P r.1

  given_up :
      (p : PendingDelivery) (s : State)
      → P s
      → After (told p.delivery.rejects (dead p) (λ s. s) (count_dlq s))
  given_up p s held =
      let counted = dlq-holds s held in
      told-holds P p.delivery.rejects (dead p) (λ s. s) (count_dlq s) counted
        (say-holds (dead p) (count_dlq s) refl counted)

  retry_one-holds : (p : PendingDelivery) (s : State) → P s → After (retry_one config retryer p s)
  unfolding retry_one
  retry_one-holds p s held =
      if-holds After (is_exhausted config p.delivery) (λ spent. given_up p s held)
        (λ left.
          if-holds After (not retryer)
            (λ alone.
              told-holds P p.delivery.nacks (returned p) count_requeue s held
                (requeue-holds _ (say-holds (returned p) s refl held)))
            (λ backed.
              if-holds After (not p.delivery.retries) (λ refused. given_up p s held)
                (λ sent.
                  let again = say-holds (retried (attempt_of p.delivery) p) s refl held in
                  told-holds P p.delivery.acks (replaced p) count_requeue _ again
                    (requeue-holds _ (say-holds (replaced p) _ refl again)))))

  pub retry_batch-holds :
      (ps : List PendingDelivery) (s : State) → P s → After (retry_batch config retryer ps s)
  unfolding retry_batch
  retry_batch-holds [] s held = held
  retry_batch-holds (p ∷ ps) s held =
      then-holds P (retry_one config retryer p s) (retry_batch config retryer ps)
        (retry_one-holds p s held) (retry_batch-holds ps)
