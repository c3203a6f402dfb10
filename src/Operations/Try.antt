-- ===== src/Operations/Try.antt =====
-- Handlers of web/app.js whose `try` asks the server: how it ends and what it leaves.
use shortq.Prelude.{◌≡◌, refl, ◌∙◌}
use shortq.State.{App, Body, Request}
use shortq.State.Monad.{
  Env, M, Result, ok, throw, Thrown, value, type_error, then_run, caught, try_catch, ◌>>=◌,
}
use shortq.Api.{api, show_msg, show_thrown, show_body}
use shortq.Workspace.Frame.{Frame, frame, Frames, api-Frames}

thrown-Frames : (e : Thrown) → Frames (show_thrown e)
unfolding show_thrown show_body show_msg
thrown-Frames (value body) env s = refl
thrown-Frames type_error env s = refl

thrown_ends : (e : Thrown) (env : Env) (s : App) → (show_thrown e env s).0 ≡ ok tt
unfolding show_thrown show_body show_msg
thrown_ends (value body) env s = refl
thrown_ends type_error env s = refl

-- A `try` whose `catch` shows what was thrown ends, with the frame that its body left.
pub caught_shown :
    (env : Env) (r : Result (Unit {0}) × App)
    → ((caught env r show_thrown).0 ≡ ok tt) × (frame (caught env r show_thrown).1 ≡ frame r.1)
caught_shown env (ok a, s) = (refl, refl)
caught_shown env (throw e, s) = (thrown_ends e env s, thrown-Frames e env s)

-- What the rest of a handler leaves of a part of the state, once a value has come.
pub answered_part :
    {B : Type 0} (part : App → B) (k : Body → M (Unit {0})) (env : Env) (x : Result Body × App)
    (body : Body) (v : B)
    → x.0 ≡ ok body
    → part (k body env x.1).1 ≡ v
    → part (then_run env x k).1 ≡ v
answered_part part k env (ok b, t) body v h rest = rw (body_of h) rest
  where
    body_of : {a b : Body} → ok a ≡ ok b → a ≡ b
    body_of h = cc
answered_part part k env (throw e, t) body v h rest = cc

-- A `try` that asks the server ends. Where the server answers, it leaves what the rest leaves;
-- where it refuses, the frame is as before.
module _ (q : Request) (k : Body → M (Unit {0})) (env : Env) (s : App) where
  refused :
      (x : Result Body × App) (e : Thrown)
      → x.0 ≡ throw e
      → frame x.1 ≡ frame s
      → frame (then_run env x k).1 ≡ frame s
  refused (ok b, t) e h same = cc
  refused (throw e', t) e h same = same

  pub try_api-answered :
      (body : Body) (f : Frame)
      → (api q env s).0 ≡ ok body
      → ((t : App) → frame t ≡ frame s → frame (k body env t).1 ≡ f)
      → ((try_catch (api q >>= k) show_thrown env s).0 ≡ ok tt)
        × (frame (try_catch (api q >>= k) show_thrown env s).1 ≡ f)
  try_api-answered body f h rest =
      let (ends, same) = caught_shown env (then_run env (api q env s) k) in
      (
        ends,
        same
            ∙ answered_part frame k env (api q env s) body f h
                (rest (api q env s).1 (api-Frames q env s)),
      )

  pub try_api-refused :
      (e : Thrown)
      → (api q env s).0 ≡ throw e
      → ((try_catch (api q >>= k) show_thrown env s).0 ≡ ok tt)
        × (frame (try_catch (api q >>= k) show_thrown env s).1 ≡ frame s)
  try_api-refused e h =
      let (ends, same) = caught_shown env (then_run env (api q env s) k) in
      (ends, same ∙ refused (api q env s) e h (api-Frames q env s))
