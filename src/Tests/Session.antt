-- ===== src/Tests/Session.antt =====
-- Tests of signing in and of the modes.
use shortq.Prelude.{
  true, some, [], ◌≡◌, refl, codes, false, text_eq, includes, split, lower, all, occurs_in,
}
use shortq.State.{User, object, user, response}
use shortq.State.Monad.{Env, ok, throw, value}
use shortq.Api.{api}
use shortq.Workspace.Frame.{frame}
use shortq.Router.Target.{
  workspace, target, target_of, workspace_target, choose_view, choose_admin_view, admin_allowed,
  report_match,
}
use shortq.Session.{
  me_request, mode_request, show_dash, restore_session, render_dashboard, set_dashboard_mode,
}
use shortq.Session.Start.{
  Entered, Restored, Welcomed, Started, render_dashboard-Entered, restore_session-Started,
}
use shortq.Session.Mode.{
  announced, Left, outcome, thrown, nothing, set_dashboard_mode-Entered, set_dashboard_mode-refused,
}
use shortq.Tests.Samples.{ann, signed_in, one_link, refusing, fixed_date, plain_numbers, january}

-- The same user in the other mode, and a server that answers every request with her.
abbrev ann_as_user : User
ann_as_user = record ann { dashboard_mode = codes "user" }

abbrev welcoming : Env
welcoming = record {
  answer =
      λ q sent. response 200 (codes "application/json") (some (user ann_as_user)) [] (codes "OK");
  locale_date = fixed_date;
  stringify = λ b. [];
  encode = λ q. [];
  numbers = plain_numbers;
  calendar = january;
  iso = some;
  parse_json = λ t. some (record { text = t });
  kept = λ k t. t;
  picked = λ k. true;
  now = codes "0";
}

sessions : Unit {0}
unfolding api target target_of workspace_target choose_view choose_admin_view admin_allowed
    report_match includes split lower text_eq all occurs_in
sessions = tt

links_of_ann : target ann signed_in.hash ≡ workspace (codes "links") (codes "users")
unfolding sessions
links_of_ann = refl

links_of_user : target ann_as_user signed_in.hash ≡ workspace (codes "links") (codes "users")
unfolding sessions
links_of_user = refl

known : (api me_request welcoming signed_in).0 ≡ ok (user ann_as_user)
unfolding sessions
known = refl

granted :
    (api (mode_request (codes "user")) welcoming (announced welcoming signed_in)).0
    ≡ ok (user ann_as_user)
unfolding sessions
granted = refl

forbidden :
    (api (mode_request (codes "user")) refusing (announced refusing signed_in)).0
    ≡ throw (value (object (codes "forbidden") []))
unfolding sessions
forbidden = refl

other_mode : text_eq ann.dashboard_mode (codes "user") ≡ false
unfolding sessions
other_mode = refl

render_dashboard-Entered_example :
    Entered ann (codes "links") (codes "users") (render_dashboard one_link signed_in).1
render_dashboard-Entered_example =
    render_dashboard-Entered ann one_link (codes "links") (codes "users") signed_in refl
      links_of_ann

restore_session-Started_example :
    ((restore_session welcoming signed_in).0 ≡ ok tt)
    × Started signed_in
        (api me_request welcoming signed_in).1
        (api me_request welcoming signed_in).0
        (show_dash welcoming signed_in).0
        (restore_session welcoming signed_in)
restore_session-Started_example = restore_session-Started welcoming signed_in

-- So the user whom the server names is signed in, at the view of the address.
restored :
    Restored ann_as_user
      (codes "links")
      (codes "users")
      (show_dash welcoming signed_in).0
      (restore_session welcoming signed_in)
unfolding sessions Started Welcomed
restored = (restore_session-Started welcoming signed_in).1

set_dashboard_mode-Entered_example :
    ((set_dashboard_mode (codes "user") welcoming signed_in).0 ≡ ok tt)
    × Entered ann_as_user
        (codes "links")
        (codes "users")
        (set_dashboard_mode (codes "user") welcoming signed_in).1
set_dashboard_mode-Entered_example =
    set_dashboard_mode-Entered ann (codes "user") welcoming signed_in refl other_mode ann_as_user
      (codes "links") (codes "users") granted links_of_user

-- A session that has ended: the server names the page to sign in at.
abbrev expired : Env
expired = record welcoming {
  answer = λ q sent.
      response 401 (codes "application/json") (some (object (codes "sso required") (codes "/sso")))
        [] (codes "Unauthorized");
}

sent_away :
    (api (mode_request (codes "user")) expired (announced expired signed_in)).0 ≡ outcome nothing
unfolding sessions outcome
sent_away = refl

set_dashboard_mode-refused_example :
    ((set_dashboard_mode (codes "user") expired signed_in).0 ≡ ok tt)
    × Left nothing signed_in
        (api (mode_request (codes "user")) expired (announced expired signed_in)).1
        (set_dashboard_mode (codes "user") expired signed_in).1
set_dashboard_mode-refused_example =
    set_dashboard_mode-refused ann (codes "user") expired signed_in refl other_mode nothing
      sent_away

kept_when_forbidden :
    frame (set_dashboard_mode (codes "user") refusing signed_in).1 ≡ frame signed_in
unfolding outcome Left
kept_when_forbidden =
    (set_dashboard_mode-refused ann (codes "user") refusing signed_in refl other_mode
      (thrown (value (object (codes "forbidden") []))) forbidden).1
