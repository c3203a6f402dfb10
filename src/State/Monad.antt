-- ===== src/State/Monad.antt =====
-- A handler of the scripts: it reads and changes the variables and the page, sends requests, and
-- ends or throws. A handler runs to its end before the next one starts; Pager/Race has the
-- interleavings in which a reply is awaited.
use shortq.Prelude.{List, [], ◌∷◌, Text, String, Bool, true, false, Option, none, some}
use shortq.State.Platform.{Numbers, Calendar}
use shortq.State.LinkForm.{Json}
use shortq.State.{App, Dom, Body, Request, Reply}

-- What the program does not implement: the server, which may answer by all that was sent
-- before; the browser's date format, `JSON.stringify(x, null, 2)`; the
-- `toString` of `URLSearchParams`; numbers and dates. `iso` is `new Date(t).toISOString()`, `none`
-- where it throws; `parse_json` is `JSON.parse`; `kept` is the text that the control of a name in
-- the form of a link keeps of a text that is assigned to it; `picked` is whether a file has been
-- chosen in a field, and `now` is `Date.now()`.
pub record Env : Type 0 where
  pub answer : Request → List Request → Reply
  pub locale_date : Text → Text
  pub stringify : Body → Text
  pub encode : List (Text × Text) → Text
  pub numbers : Numbers
  pub calendar : Calendar
  pub iso : Text → Option Text
  pub parse_json : Text → Option Json
  pub kept : Text → Text → Text
  pub picked : String → Bool
  pub now : Text

-- What is thrown: a value of `api`'s or of the scripts, or an error of the platform, such as a
-- `TypeError` or the `RangeError` of an invalid date.
pub data Thrown : Type 0 where
  value : Body → Thrown
  type_error : Thrown

pub data Result {ℓ} (A : Type ℓ) : Type ℓ where
  ok : A → Result A
  throw : Thrown → Result A

abbrev pub M {ℓ} : Type ℓ → Type ℓ
M A = Env → App → Result A × App

abbrev pub pure {ℓ} : {A : Type ℓ} → A → M A
pure a env s = (ok a, s)

abbrev pub raise {ℓ} : {A : Type ℓ} → Thrown → M A
raise e env s = (throw e, s)

abbrev pub then_run {ℓ κ} :
    {A : Type ℓ} {B : Type κ} → Env → Result A × App → (A → M B) → Result B × App
then_run env (ok a, s) k = k a env s
then_run env (throw e, s) k = (throw e, s)

infixl 5 ◌>>=◌ ◌>>◌
abbrev pub ◌>>=◌ {ℓ κ} : {A : Type ℓ} {B : Type κ} → M A → (A → M B) → M B
◌>>=◌ m k env s = then_run env (m env s) k

abbrev pub ◌>>◌ {ℓ} : {B : Type ℓ} → M (Unit {0}) → M B → M B
m >> k = m >>= λ _. k

abbrev pub caught :
    Env → Result (Unit {0}) × App → (Thrown → M (Unit {0})) → Result (Unit {0}) × App
caught env (ok a, s) h = (ok a, s)
caught env (throw e, s) h = h e env s

-- `try { m } catch (e) { h(e) }`
abbrev pub try_catch : M (Unit {0}) → (Thrown → M (Unit {0})) → M (Unit {0})
try_catch m h env s = caught env (m env s) h

abbrev pub ignored : Result (Unit {0}) × App → Result (Unit {0}) × App
ignored (r, s) = (ok tt, s)

-- A call that is not awaited: whatever it throws is lost.
abbrev pub detach : M (Unit {0}) → M (Unit {0})
detach m env s = ignored (m env s)

abbrev pub outcome {ℓ} : {A : Type ℓ} → Result A × App → Result (Option A) × App
outcome (ok a, s) = (ok (some a), s)
outcome (throw e, s) = (ok none, s)

-- A call under a `try` whose `catch` does not look at what was thrown.
abbrev pub attempt {ℓ} : {A : Type ℓ} → M A → M (Option A)
attempt m env s = outcome (m env s)

abbrev pub joined {ℓ κ} :
    {A : Type ℓ} {B : Type κ} → Result A → Result B × App → Result (A × B) × App
joined (ok a) (ok b, s) = (ok (a, b), s)
joined (ok a) (throw e, s) = (throw e, s)
joined (throw e) (r, s) = (throw e, s)

abbrev pub second {ℓ κ} :
    {A : Type ℓ} {B : Type κ} → Env → Result A × App → M B → Result (A × B) × App
second env (r, s) n = joined r (n env s)

-- `Promise.all([m, n])`: both run, and the first to throw decides.
abbrev pub both {ℓ κ} : {A : Type ℓ} {B : Type κ} → M A → M B → M (A × B)
both m n env s = second env (m env s) n

abbrev pub when : Bool → M (Unit {0}) → M (Unit {0})
when true m = m
when false m = λ env s. (ok tt, s)

-- Statements one after another, each awaited.
unfoldable pub run_all : List (M (Unit {0})) → M (Unit {0})
run_all [] = pure tt
run_all (m ∷ ms) = m >> run_all ms

abbrev pub modify : (App → App) → M (Unit {0})
modify f env s = (ok tt, f s)

abbrev pub gets {ℓ} : {A : Type ℓ} → (App → A) → M A
gets f env s = (ok (f s), s)

abbrev pub page : (Dom → Dom) → M (Unit {0})
page f = modify λ s. record s { dom = f s.dom }

abbrev pub fetch : Request → M Reply
fetch q env s = (ok (env.answer q s.sent), record s { sent = q ∷ s.sent })

abbrev pub locale : M (Text → Text)
locale env s = (ok env.locale_date, s)
