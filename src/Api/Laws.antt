-- ===== src/Api/Laws.antt =====
-- What a caller of `api` can rely on.
use shortq.Prelude.{
  Option, ℕ, [], ◌∷◌, Text, true, false, ◌≡◌, ◌≢◌, inl, inr, refl, arith, is_empty, ap, not, ◌&&◌,
  ◌==◌, Bool-cases,
}
use shortq.State.{App, Body, null, plain_text, Request, Reply, unreachable, response}
use shortq.State.Monad.{Env, Result, ok, throw, Thrown, value, type_error}
use shortq.Api.{api, settle, finish, is_falsy, or_status, read_body, is_ok, login_url}

-- The server answered with a status of success, and this is the body of its answer.
pub record IsAnswer (reply : Reply) (body : Body) : Type 0 where
  pub status : ℕ
  pub content_type : Text
  pub json : Option Body
  pub words : Text
  pub status_text : Text
  pub came : reply ≡ response status content_type json words status_text
  pub success : is_ok status ≡ true
  pub read : body ≡ read_body content_type json words

-- The server answered with a status that is no success, and this is the body of its answer, or its
-- status text where the body is falsy.
pub record IsRefusal (reply : Reply) (body : Body) : Type 0 where
  pub status : ℕ
  pub content_type : Text
  pub json : Option Body
  pub words : Text
  pub status_text : Text
  pub came : reply ≡ response status content_type json words status_text
  pub failure : is_ok status ≡ false
  pub read : body ≡ or_status (read_body content_type json words) status_text
  pub truthy : is_falsy body ≡ false

-- What a thrown value tells of the reply: a refusal, or a server that could not be reached.
unfoldable pub IsFailure : Reply → Thrown → Type 0
IsFailure reply (value body) = IsRefusal reply body
IsFailure reply type_error = reply ≡ unreachable

finish-ok :
    (status : ℕ) (came : Body) (st : Text) (env : Env) (s : App) (body : Body)
    → (finish status came st env s).0 ≡ ok body
    → body ≢ null
    → (is_ok status ≡ true) × (body ≡ came) × ((finish status came st env s).1 ≡ s)
unfolding finish
finish-ok status came st env s body h ne =
    elim (Bool-cases (status == 401 && not (is_empty (login_url came)))) [
      | inl login ↦ absurd (ne (ground arith))
      | inr plain ↦ elim (Bool-cases (is_ok status)) [
        | inl good ↦ (good, ground arith, rw (plain, good))
        | inr bad ↦ cc (ap (λ (r : Result Body × App). r.0) (refused plain bad))
      ]
    ]
  where
    refused :
        (status == 401 && not (is_empty (login_url came))) ≡ false
        → is_ok status ≡ false
        → finish status came st env s ≡ (throw (value (or_status came st)), s)
    refused plain bad = rw (plain, bad)

settle-ok :
    (reply : Reply) (env : Env) (s : App) (body : Body)
    → (settle reply env s).0 ≡ ok body
    → body ≢ null
    → IsAnswer reply body × ((settle reply env s).1 ≡ s)
unfolding settle
settle-ok unreachable env s body h ne = cc
settle-ok (response status ct json words st) env s body h ne = elim (Bool-cases (status == 204)) [
  | inl empty ↦ absurd (ne (ground arith))
  | inr full ↦
      let (good, same, kept) =
        finish-ok status (read_body ct json words) st env s body (rw full at h) ne in
      (
        record {
          status = status;
          content_type = ct;
          json = json;
          words = words;
          status_text = st;
          came = refl;
          success = good;
          read = same;
        },
        rw full kept,
      )
]

or_status-truthy : (body : Body) (st : Text) → is_falsy (or_status body st) ≡ false
or_status-truthy null st = refl
or_status-truthy (plain_text []) st = refl
or_status-truthy (plain_text (c ∷ s)) st = refl
or_status-truthy _ st = refl

finish-throw :
    (status : ℕ) (came : Body) (st : Text) (env : Env) (s : App) (e : Thrown)
    → (finish status came st env s).0 ≡ throw e
    → (is_ok status ≡ false) × (e ≡ value (or_status came st))
unfolding finish
finish-throw status came st env s e h = ground arith

refusal :
    (status : ℕ) (ct : Text) (json : Option Body) (words st : Text) (e : Thrown)
    → is_ok status ≡ false
    → e ≡ value (or_status (read_body ct json words) st)
    → IsFailure (response status ct json words st) e
unfolding IsFailure
refusal status ct json words st (value body) bad same =
    let read : body ≡ or_status (read_body ct json words) st = cc in
    record {
      status = status;
      content_type = ct;
      json = json;
      words = words;
      status_text = st;
      came = refl;
      failure = bad;
      read = read;
      truthy = rw read (or_status-truthy (read_body ct json words) st);
    }
refusal status ct json words st type_error bad same = cc

settle-throw :
    (reply : Reply) (env : Env) (s : App) (e : Thrown)
    → (settle reply env s).0 ≡ throw e
    → IsFailure reply e
unfolding settle IsFailure
settle-throw unreachable env s (value body) h = cc
settle-throw unreachable env s type_error h = refl
settle-throw (response status ct json words st) env s e h =
    let (bad, same) = finish-throw status (read_body ct json words) st env s e (ground arith) in
    refusal status ct json words st e bad same

-- The state in which the answer arrives: the request is on record.
abbrev pub asked : Request → App → App
asked q s = record s { sent = q ∷ s.sent }

-- A value that `api` hands over, other than nothing at all, is the body of an answer with a
-- status of success, read by its content type; and then nothing but the one request has happened.
pub api-IsAnswer :
    (q : Request) (env : Env) (s : App) (body : Body)
    → (api q env s).0 ≡ ok body
    → body ≢ null
    → IsAnswer (env.answer q s.sent) body × ((api q env s).1 ≡ asked q s)
unfolding api
api-IsAnswer q env s body h ne = settle-ok (env.answer q s.sent) env (asked q s) body h ne

-- Whatever `api` throws: a value comes of an answer whose status is no success, and is the body of
-- that answer, or its status text where the body is falsy; it is never falsy itself. An error of the
-- browser's comes of a server that could not be reached.
pub api-IsFailure :
    (q : Request) (env : Env) (s : App) (e : Thrown)
    → (api q env s).0 ≡ throw e
    → IsFailure (env.answer q s.sent) e
unfolding api
api-IsFailure q env s e h = settle-throw (env.answer q s.sent) env (asked q s) e h
