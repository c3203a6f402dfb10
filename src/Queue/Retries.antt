-- ===== src/Queue/Retries.antt =====
-- internal/clickqueue: a delivery whose batches keep failing, through the retry queue until it is
-- given up.
use shortq.Prelude.{
  ℕ, zero, suc, ◌+◌, ◌-◌, ◌*◌, ◌%◌, ◌≤◌, ◌<◌, ◌≡◌, refl, sym, ap, ◌∙◌, arith, List, [], ◌∷◌, Bool,
  true, false, ◌&&◌, ltb, leb, if◌then◌else◌, if-holds, none, some,
}
use mathlib.Core.Path.{subst}
use shortq.Queue.Decode.{two_to_63}
use shortq.Queue.Delivery.{number, WorkerConfig, PendingDelivery, Answer, retried, replaced, dead}
use shortq.Queue.Worker.{
  State, Ended, ok, failed, say, then_, count_dlq, count_requeue, retry_count_of, attempt_of,
  is_exhausted, retry_one, retry_batch,
}

abbrev pub two_to_31 : ℕ
two_to_31 = 2_147_483_648

abbrev two_to_32 : ℕ
two_to_32 = 4_294_967_296

-- The 64 bits of `int(int32(n))`.
unfoldable pub int32 : ℕ → ℕ
int32 n =
    let low = n % two_to_32 in if ltb low two_to_31 then low else low + (2 * two_to_63 - two_to_32)

-- The message that `Retry` publishes, when the broker delivers it again. Its expiration, the delay
-- after which the broker does so, is not modelled: `baseRetryDelay << (attempt - 1)`, which is not
-- positive from the 37th attempt on; whether the broker takes the message is `retries`.
-- The consumer of worker_rabbitmq.go has a limit of five attempts.
unfoldable pub redelivered : PendingDelivery → PendingDelivery
unfolding int32 attempt_of
redelivered p = record p {
  delivery = record p.delivery { retry_count = some (number (int32 (attempt_of p.delivery))) };
}

-- A delivery alone in batches that all fail, at most so many times; `failed` when that is not enough.
unfoldable pub fail_all : ℕ → WorkerConfig → PendingDelivery → State → Ended × State
unfolding redelivered retry_batch is_exhausted
fail_all zero config p s = (failed, s)
fail_all (suc n) config p s =
    let rest = fail_all n config (redelivered p) in
    if is_exhausted config p.delivery
    then retry_batch config true (p ∷ []) s
    else then_ (retry_batch config true (p ∷ []) s) rest

-- How often `Retry` was called.
unfoldable pub retries_in : List Answer → ℕ
retries_in [] = 0
retries_in (retried n p ∷ rest) = suc (retries_in rest)
retries_in (_ ∷ rest) = retries_in rest

-- Whether the last answer gives a delivery up.
abbrev pub is_dead : List Answer → Bool
is_dead (dead p ∷ rest) = true
is_dead _ = false

wrap-small : (n : ℕ) → n < two_to_63 → n % (2 * two_to_63) ≡ n
wrap-small n small = omega arith

int32-small : (n : ℕ) → n < two_to_31 → int32 n ≡ n
unfolding int32
int32-small n small =
    let low : n % two_to_32 ≡ n = omega arith in
    if-holds (λ (m : ℕ). m ≡ n) (ltb (n % two_to_32) two_to_31) (λ below. low)
      (λ above. ground arith)

-- A delivery that the broker answers as it is told, after so many retries.
record IsTaken (p : PendingDelivery) (count : ℕ) : Type 0 where
  acks : p.delivery.acks ≡ true
  rejects : p.delivery.rejects ≡ true
  retries : p.delivery.retries ≡ true
  tried : retry_count_of p.delivery.retry_count ≡ count

attempt_of-taken :
    (p : PendingDelivery) (count : ℕ)
    → IsTaken p count
    → suc count < two_to_63
    → attempt_of p.delivery ≡ suc count
unfolding attempt_of
attempt_of-taken p count taken small =
    ap (λ n. suc n % (2 * two_to_63)) taken.tried ∙ wrap-small (suc count) small

redelivered-IsTaken :
    (p : PendingDelivery) (count : ℕ)
    → IsTaken p count
    → suc count < two_to_31
    → IsTaken (redelivered p) (suc count)
unfolding redelivered retry_count_of
redelivered-IsTaken p count taken small = record {
  acks = taken.acks;
  rejects = taken.rejects;
  retries = taken.retries;
  tried =
      let attempt = attempt_of-taken p count taken (omega arith) in
      let header : int32 (attempt_of p.delivery) ≡ suc count =
        ap int32 attempt ∙ int32-small (suc count) small in
      ap (λ n. n % (2 * two_to_63)) header ∙ wrap-small (suc count) (omega arith);
}

module _ (config : WorkerConfig) (p : PendingDelivery) (count : ℕ) (taken : IsTaken p count)
    (small : suc count < two_to_63) where
  exhausted_iff : is_exhausted config p.delivery ≡ leb config.max_retries (suc count)
  unfolding is_exhausted
  exhausted_iff =
      let below : ltb (suc count) two_to_63 ≡ true = ground arith in
      ap (λ n. ltb n two_to_63 && leb config.max_retries n) (attempt_of-taken p count taken small)
      ∙ ap (λ b. b && leb config.max_retries (suc count)) below

  retry_batch-spent :
      (s : State)
      → is_exhausted config p.delivery ≡ true
      → retry_batch config true (p ∷ []) s ≡ (ok, say (dead p) (count_dlq s))
  unfolding retry_batch retry_one
  retry_batch-spent s spent = rw (spent, taken.rejects) refl

  retry_batch-left :
      (s : State)
      → is_exhausted config p.delivery ≡ false
      → retry_batch config true (p ∷ []) s
        ≡ (ok, count_requeue (say (replaced p) (say (retried (attempt_of p.delivery) p) s)))
  unfolding retry_batch retry_one
  retry_batch-left s left = rw (left, taken.retries, taken.acks) refl

-- The delivery was given up, after so many calls of `Retry`.
abbrev pub IsGivenUpAfter : ℕ → State → Ended × State → Type 0
IsGivenUpAfter n s r =
    (r.0 ≡ ok) × (is_dead r.1.answers ≡ true) × (retries_in r.1.answers ≡ n + retries_in s.answers)

fail_all-spent :
    (config : WorkerConfig) (n : ℕ) (p : PendingDelivery) (s : State)
    → is_exhausted config p.delivery ≡ true
    → fail_all (suc n) config p s ≡ retry_batch config true (p ∷ []) s
unfolding fail_all
fail_all-spent config n p s spent = rw spent refl

fail_all-left :
    (config : WorkerConfig) (n : ℕ) (p : PendingDelivery) (s : State)
    → is_exhausted config p.delivery ≡ false
    → fail_all (suc n) config p s
      ≡ then_ (retry_batch config true (p ∷ []) s) (fail_all n config (redelivered p))
unfolding fail_all
fail_all-left config n p s left = rw left refl

given_up_after :
    (config : WorkerConfig) (n : ℕ) (p : PendingDelivery) (count : ℕ) (s : State)
    → IsTaken p count
    → suc (n + count) ≡ config.max_retries
    → config.max_retries ≤ two_to_31
    → IsGivenUpAfter n s (fail_all (suc n) config p s)
unfolding retries_in
given_up_after config zero p count s taken limit small =
    let spent : is_exhausted config p.delivery ≡ true =
      exhausted_iff config p count taken (omega arith) ∙ last count config.max_retries limit in
    let ended : fail_all 1 config p s ≡ (ok, say (dead p) (count_dlq s)) =
      fail_all-spent config 0 p s spent
      ∙ retry_batch-spent config p count taken (omega arith) s spent in
    subst (IsGivenUpAfter 0 s) (sym ended) (refl, refl, omega arith)
  where
    last : (c m : ℕ) → suc (0 + c) ≡ m → leb m (suc c) ≡ true
    last c m h = ground arith
given_up_after config (suc n) p count s taken limit small =
    let left : is_exhausted config p.delivery ≡ false =
      exhausted_iff config p count taken (omega arith) ∙ more n count config.max_retries limit in
    let next = count_requeue (say (replaced p) (say (retried (attempt_of p.delivery) p) s)) in
    let ended : fail_all (suc (suc n)) config p s ≡ fail_all (suc n) config (redelivered p) next =
      fail_all-left config (suc n) p s left
      ∙ ap (λ r. then_ r (fail_all (suc n) config (redelivered p)))
          (retry_batch-left config p count taken (omega arith) s left) in
    let ih =
      given_up_after config n (redelivered p) (suc count) next
        (redelivered-IsTaken p count taken (omega arith)) (omega arith) small in
    subst (IsGivenUpAfter (suc n) s) (sym ended) (ih.0, ih.1, ih.2 ∙ omega arith)
  where
    more : (n c m : ℕ) → suc (suc n + c) ≡ m → leb m (suc c) ≡ false
    more n c m h = ground arith

-- A new delivery whose batches all fail is given up after one call of `Retry` less than the limit, and
-- as many batches as the limit are enough, if the broker does what it is told and the limit is from
-- 1 to 2^31.
pub fail_all-IsGivenUpAfter :
    (config : WorkerConfig) (p : PendingDelivery) (n : ℕ) (s : State)
    → p.delivery.retry_count ≡ none
    → p.delivery.acks ≡ true
    → p.delivery.rejects ≡ true
    → p.delivery.retries ≡ true
    → config.max_retries ≡ suc n
    → suc n ≤ two_to_31
    → IsGivenUpAfter n s (fail_all config.max_retries config p s)
unfolding retry_count_of
fail_all-IsGivenUpAfter config p n s first acks rejects retries limit small =
    let after =
      given_up_after config n p 0 s
        (record {
          acks = acks;
          rejects = rejects;
          retries = retries;
          tried = ap retry_count_of first;
        })
        (omega arith) (omega arith) in
    subst (λ m. IsGivenUpAfter n s (fail_all m config p s)) (sym limit) after
