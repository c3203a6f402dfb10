-- ===== src/Redirect/Attempts.antt =====
-- internal/handlers/handlers.go, the limit on wrong passwords of `passwordGate`. Times are in seconds;
-- the map of the attempts is given by what it has for a key, and its size is a parameter.
use shortq.Prelude.{
  ℕ, suc, ◌+◌, ◌%◌, List, [], ◌∷◌, ◌++◌, Text, Bool, true, false, not, ◌&&◌, ◌==◌, ltb, leb,
  if◌then◌else◌, is_empty, length, text_eq,
}

-- `h.attempts` and `h.attemptOps`.
pub record AttemptLog : Type 0 where
  pub times : Text → List ℕ
  pub ops : ℕ

-- What a request finds: `time.Now()`, and `len(h.attempts)` before and after the pruning.
pub record Moment : Type 0 where
  pub now : ℕ
  pub size : ℕ
  pub pruned_size : ℕ

-- The attempts that are `After` the cutoff of 15 minutes.
unfoldable pub recent : ℕ → List ℕ → List ℕ
recent now [] = []
recent now (t ∷ ts) = let rest = recent now ts in if ltb now (t + 900) then t ∷ rest else rest

abbrev pub set_times : Text → List ℕ → AttemptLog → AttemptLog
set_times key ts a = record a { times = λ k. if text_eq k key then ts else a.times k }

-- `pruneAttemptsLocked`
unfoldable pub prune_attempts : Moment → AttemptLog → AttemptLog
unfolding recent
prune_attempts m a =
    if not (a.ops % 256 == 0) && ltb m.size 10_000
    then a
    else record a { times = λ k. recent m.now (a.times k) }

-- `tooManyAttempts`, behind the pruning.
unfoldable pub too_many_pruned : Moment → Text → AttemptLog → Bool × AttemptLog
unfolding recent
too_many_pruned m key a =
    if leb 100_000 m.pruned_size && is_empty (a.times key)
    then (true, a)
    else (leb 5 (length (recent m.now (a.times key))), set_times key (recent m.now (a.times key)) a)

-- `tooManyAttempts`
unfoldable pub too_many_attempts : Moment → Text → AttemptLog → Bool × AttemptLog
unfolding prune_attempts too_many_pruned
too_many_attempts m key a = too_many_pruned m key (prune_attempts m (record a { ops = suc a.ops }))

-- `addAttempt` and `clearAttempts`
unfoldable pub add_attempt : ℕ → Text → AttemptLog → AttemptLog
add_attempt now key a = set_times key (a.times key ++ now ∷ []) a

unfoldable pub clear_attempts : Text → AttemptLog → AttemptLog
clear_attempts key a = set_times key [] a

-- The answer to a password: too many attempts, the access, or the page once more.
pub data PasswordAnswer : Type 0 where
  too_many granted wrong : PasswordAnswer

-- `passwordGate` on POST; `right` is what `CheckSecret` says of the password, which is looked at only
-- where the attempts are not too many.
unfoldable pub answer_password :
    Moment → Text → Bool → Bool × AttemptLog → PasswordAnswer × AttemptLog
unfolding add_attempt clear_attempts
answer_password m key right (true, a) = (too_many, a)
answer_password m key true (false, a) = (granted, clear_attempts key a)
answer_password m key false (false, a) = (wrong, add_attempt m.now key a)

unfoldable pub post_password : Moment → Text → Bool → AttemptLog → PasswordAnswer × AttemptLog
unfolding too_many_attempts answer_password
post_password m key right a = answer_password m key right (too_many_attempts m key a)
