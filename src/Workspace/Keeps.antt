-- ===== src/Workspace/Keeps.antt =====
-- The rules by which a handler of the scripts leaves a part of the state alone.
use shortq.Prelude.{Bool, true, false, ◌≡◌, refl, ◌∙◌}
use shortq.State.{App}
use shortq.State.Monad.{
  Env, M, Result, ok, throw, ◌>>=◌, then_run, joined, second, both, when, ignored, detach, outcome,
  attempt,
}

module _ {B : Type 0} (part : App → B) where
  -- A handler that keeps the part.
  abbrev pub Keeps {ℓ} : {A : Type ℓ} → M A → Type 0
  Keeps m = (env : Env) (s : App) → part (m env s).1 ≡ part s

  then-Keeps {ℓ κ} :
      {A : Type ℓ} {C : Type κ} (k : A → M C) (env : Env) (r : Result A × App)
      → ((a : A) → Keeps (k a))
      → part (then_run env r k).1 ≡ part r.1
  then-Keeps k env (ok a, s) h = h a env s
  then-Keeps k env (throw e, s) h = refl

  pub bind-Keeps {ℓ κ} :
      {A : Type ℓ} {C : Type κ} (m : M A) (k : A → M C)
      → Keeps m
      → ((a : A) → Keeps (k a))
      → Keeps (m >>= k)
  bind-Keeps m k h g env s = then-Keeps k env (m env s) g ∙ h env s

  part-joined {ℓ κ} :
      {A : Type ℓ} {C : Type κ} (r : Result A) (q : Result C × App) → part (joined r q).1 ≡ part q.1
  part-joined (ok a) (ok c, s) = refl
  part-joined (ok a) (throw e, s) = refl
  part-joined (throw e) (r, s) = refl

  second-Keeps {ℓ κ} :
      {A : Type ℓ} {C : Type κ} (env : Env) (r : Result A × App) (n : M C)
      → Keeps n
      → part (second env r n).1 ≡ part r.1
  second-Keeps env (r, s) n h = part-joined r (n env s) ∙ h env s

  pub both-Keeps {ℓ κ} :
      {A : Type ℓ} {C : Type κ} (m : M A) (n : M C) → Keeps m → Keeps n → Keeps (both m n)
  both-Keeps m n g h env s = second-Keeps env (m env s) n h ∙ g env s

  pub when-Keeps : (b : Bool) (m : M (Unit {0})) → Keeps m → Keeps (when b m)
  when-Keeps true m h env s = h env s
  when-Keeps false m h env s = refl

  part-ignored : (r : Result (Unit {0}) × App) → part (ignored r).1 ≡ part r.1
  part-ignored (r, s) = refl

  pub detach-Keeps : (m : M (Unit {0})) → Keeps m → Keeps (detach m)
  detach-Keeps m h env s = part-ignored (m env s) ∙ h env s

  part-outcome {ℓ} : {A : Type ℓ} (r : Result A × App) → part (outcome r).1 ≡ part r.1
  part-outcome (ok a, s) = refl
  part-outcome (throw e, s) = refl

  pub attempt-Keeps {ℓ} : {A : Type ℓ} (m : M A) → Keeps m → Keeps (attempt m)
  attempt-Keeps m h env s = part-outcome (m env s) ∙ h env s
