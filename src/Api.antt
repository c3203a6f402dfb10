-- ===== src/Api.antt =====
-- web/app.js, `api` and `showMsg`: a request and its outcome, and the message line. The headers
-- and the credentials mode, which are the same for every request, are left out. The page has the
-- element `#msg`.
pub mod Laws
use shortq.Prelude.{
  ℕ, List, [], ◌∷◌, ◌++◌, Text, codes, Bool, true, false, not, ◌&&◌, ◌||◌, ◌==◌, ltb, leb, is_empty,
  or_text, if◌then◌else◌, occurs_in, String, Option, none, some,
}
use shortq.State.{
  App, Dom, Body, null, plain_text, object, Request, Payload, Reply, unreachable, response, put,
}
use shortq.State.Monad.{
  Env, M, Result, ok, throw, Thrown, value, type_error, pure, raise, then_run, ◌>>=◌, ◌>>◌, modify,
  page, fetch,
}

-- Whether a value is falsy.
abbrev pub is_falsy : Body → Bool
is_falsy null = true
is_falsy (plain_text t) = is_empty t
is_falsy _ = false

-- `x.login_url` and `x.error`, empty where the value has no such field.
abbrev pub login_url : Body → Text
login_url (object error url) = url
login_url _ = []

abbrev pub error_of : Body → Text
error_of (object error url) = error
error_of _ = []

-- `body || { error: r.statusText }`
abbrev pub or_status : Body → Text → Body
or_status body status_text = if is_falsy body then object status_text [] else body

-- `r.json().catch(() => ({}))`
abbrev pub or_fieldless : Option Body → Body
or_fieldless none = object [] []
or_fieldless (some body) = body

abbrev pub read_body : Text → Option Body → Text → Body
read_body content_type json words =
    if occurs_in (codes "application/json") content_type
    then or_fieldless json
    else plain_text words

-- `r.ok`
abbrev pub is_ok : ℕ → Bool
is_ok status = leb 200 status && ltb status 300

abbrev go_to : Text → M (Unit {0})
go_to url = modify λ s. record s { href = url }

-- `api` once the body has been read.
finish : ℕ → Body → Text → M Body
finish status body status_text =
    if status == 401 && not (is_empty (login_url body))
    then (do go_to (login_url body); pure null)
    else if is_ok status
    then pure body
    else raise (value (or_status body status_text))

-- `api` once `fetch` has settled.
settle : Reply → M Body
unfolding finish
settle unreachable = raise type_error
settle (response status content_type json words status_text) =
    if status == 204
    then pure null
    else finish status (read_body content_type json words) status_text

unfoldable pub api : Request → M Body
unfolding settle
api q = do settle (← fetch q)

-- `api(path)`
abbrev pub get_request : Text → List (Text × Text) → Request
get_request path query = record {
  method = codes "GET";
  path = path;
  query = query;
  payload = Payload.empty;
}

abbrev pub request_of : String → Text → Payload → Request
request_of method path payload = record {
  method = codes method;
  path = path;
  query = [];
  payload = payload;
}

-- `showMsg(text, kind)`
unfoldable pub show_msg : Text → String → M (Unit {0})
show_msg text kind = page λ d. record d {
  content = put "msg" text d.content;
  class_name =
      put "msg" (if is_empty text then codes "notice" else codes "notice " ++ codes kind)
        d.class_name;
}

-- The text of a thrown or answered value: `JSON.stringify` writes an `Error` as `{}`.
unfoldable pub message_of : (Body → Text) → Body → Text
message_of stringify (plain_text t) = t
message_of stringify null = []
message_of stringify body = or_text (error_of body) (stringify body)

-- `showMsg(x, kind)` of a value of `api`'s.
unfoldable pub show_body : Body → String → M (Unit {0})
unfolding message_of show_msg
show_body body kind env s = show_msg (message_of env.stringify body) kind env s

-- `showMsg(x)` in a `catch`.
unfoldable pub show_thrown : Thrown → M (Unit {0})
unfolding show_body show_msg
show_thrown (value body) = show_body body "error"
show_thrown type_error = show_msg (codes "{}") "error"
