-- ===== src/Session/Start.antt =====
-- How the dashboard starts: what is shown to the user who has signed in, and what the failure of
-- the first view leaves.
use shortq.Prelude.{
  ◌≡◌, refl, ◌∙◌, ap, Text, String, Bool, true, false, not, Option, none, some, ◌⊎◌, inl, inr,
}
use shortq.State.{App, User, Body, null, user}
use shortq.State.Monad.{Env, Result, ok, throw, Thrown, value, type_error, then_run, when, caught}
use shortq.Api.{api, show_thrown, show_body, show_msg}
use shortq.Workspace.Frame.{Frame, frame, api-Frames}
use shortq.Workspace.{wanted}
use shortq.Router.Target.{Target, workspace, report, target, admin_allowed, is_named}
use shortq.Router.Show.{show_workspace, show_report, route_view}
use shortq.Router.Show.Reported.{route_view-show_report}
use shortq.Router.Show.Shown.{Shows, shown_part, route_view-Shows}
use shortq.Session.{
  me_request, mode_page, app_page, clear_dashboard, enter, render_dashboard, show_dash, store_me,
  render_if_known, sign_out, restore_session, is_worth_showing, login_page,
}

-- The dashboard of a user who has signed in, at a view that the user may see: the navigation has
-- the admin view exactly for those who may see it.
pub record Entered (u : User) (view admin_view : Text) (s : App) : Type 0 where
  pub shows : Shows u view admin_view s
  pub known : s.current_user ≡ some u
  pub dash : s.dom.hidden "dash" ≡ false
  pub forms : s.dom.hidden "forms" ≡ true
  pub admin_nav : s.dom.hidden "adminNavItem" ≡ not (admin_allowed u)
  pub audit_nav : s.dom.hidden "auditSubnav" ≡ not (is_named u.role "superadmin")
  pub runtime_nav : s.dom.hidden "runtimeSubnav" ≡ not (is_named u.role "superadmin")

-- The state in which `renderDashboard` routes.
abbrev at_dashboard : User → App → App
at_dashboard u s = clear_dashboard u (record s { dom = mode_page (some u) (app_page s.dom) })

module _ (u : User) (env : Env) where
  rendered : Option User → App → Result (Unit {0}) × App
  rendered o s =
      then_run env (wanted o env (record s { dom = mode_page o (app_page s.dom) })) (enter)

  renders :
      (s : App)
      → s.current_user ≡ some u
      → render_dashboard env s ≡ route_view env (at_dashboard u s)
  unfolding render_dashboard rendered enter
  renders s signed_in = ap (λ o. rendered o s) signed_in

  module _ (view admin_view : Text) (s : App) (signed_in : s.current_user ≡ some u)
      (to : target u s.hash ≡ workspace view admin_view) where
    -- However the loaders end, `renderDashboard` leaves the dashboard of the user at the view that
    -- the address names, where it names a view of the workspace; the sign-in form is hidden, and
    -- the items of the navigation are those of the views and panes that the user may see.
    pub render_dashboard-Entered : Entered u view admin_view (render_dashboard env s).1
    unfolding clear_dashboard show_workspace admin_allowed
    render_dashboard-Entered = rw (renders s signed_in) (record {
      shows = route_view-Shows u view admin_view env (at_dashboard u s) signed_in to;
      known =
          shown_part (λ f. f.current_user) u view admin_view env (at_dashboard u s) (λ _ _. refl)
            signed_in to
          ∙ signed_in;
      dash =
          shown_part (λ f. f.dash_hidden) u view admin_view env (at_dashboard u s) (λ _ _. refl)
            signed_in to;
      forms =
          shown_part (λ f. f.forms_hidden) u view admin_view env (at_dashboard u s) (λ _ _. refl)
            signed_in to;
      admin_nav =
          shown_part (λ f. f.admin_nav_hidden) u view admin_view env (at_dashboard u s)
            (λ _ _. refl) signed_in to;
      audit_nav =
          shown_part (λ f. f.audit_nav_hidden) u view admin_view env (at_dashboard u s)
            (λ _ _. refl) signed_in to;
      runtime_nav =
          shown_part (λ f. f.runtime_nav_hidden) u view admin_view env (at_dashboard u s)
            (λ _ _. refl) signed_in to;
    })

-- Showing what was thrown ends, and changes the message line alone.
record Quiet (r : Result (Unit {0}) × App) (s : App) : Type 0 where
  ends : r.0 ≡ ok tt
  who : r.1.current_user ≡ s.current_user
  what : r.1.dom.hidden ≡ s.dom.hidden

shown-Quiet : (b : Bool) (e : Thrown) (env : Env) (s : App) → Quiet (when b (show_thrown e) env s) s
unfolding show_thrown show_body show_msg
shown-Quiet false e env s = record { ends = refl; who = refl; what = refl }
shown-Quiet true (value body) env s = record { ends = refl; who = refl; what = refl }
shown-Quiet true type_error env s = record { ends = refl; who = refl; what = refl }

-- What `restoreSession` leaves for a user whom the server knows, by how `showDash` ended.
pub record Restored (u : User) (view admin_view : Text) (dash : Result (Unit {0}))
    (r : Result (Unit {0}) × App) : Type 0 where
  pub ends : r.0 ≡ ok tt
  pub known : r.1.current_user ≡ some u
  pub outcome :
      ((dash ≡ ok tt) × Entered u view admin_view r.1)
      ⊎ ((e : Thrown) × (dash ≡ throw e)
          × (r.1.dom.hidden "dash" ≡ true)
          × (r.1.dom.hidden "forms" ≡ false))

caught-Restored :
    (u : User) (view admin_view : Text) (env : Env) (r : Result (Unit {0}) × App)
    → Entered u view admin_view r.1
    → Restored u view admin_view r.0 (caught env r sign_out)
caught-Restored u view admin_view env (ok a, s) entered = record {
  ends = refl;
  known = entered.known;
  outcome = inl (refl, entered);
}
caught-Restored u view admin_view env (throw e, s) entered =
    let quiet = shown-Quiet (is_worth_showing e) e env (record s { dom = login_page s.dom }) in
    unfold sign_out in
    record {
      ends = quiet.ends;
      known = quiet.who ∙ entered.known;
      outcome = inr (
        e,
        refl,
        ap (λ (f : String → Bool). f "dash") quiet.what,
        ap (λ (f : String → Bool). f "forms") quiet.what,
      );
    }

-- The report page of a user who has signed in.
pub record AtReport (u : User) (kind id : Text) (s : App) : Type 0 where
  pub known : s.current_user ≡ some u
  pub dash : s.dom.hidden "dash" ≡ false
  pub forms : s.dom.hidden "forms" ≡ true
  pub no_view : (v : Text) → s.dom.view_hidden v ≡ true
  pub report_shown : s.dom.hidden "reportView" ≡ false
  pub state : s.report_state ≡ some (record { kind = kind; id = id })

-- What `restoreSession` leaves for a user whom the server knows, by the target of the address.
unfoldable pub Welcomed : User → Target → Result (Unit {0}) → Result (Unit {0}) × App → Type 0
Welcomed u (workspace view admin_view) dash r = Restored u view admin_view dash r
Welcomed u (report kind id) dash r = (r.0 ≡ ok tt) × AtReport u kind id r.1

-- What it leaves by the outcome of the request for `/me`; `t` is the state in which the answer came.
-- Of a body of another shape nothing is said.
unfoldable pub Started :
    (s t : App) → Result Body → Result (Unit {0}) → Result (Unit {0}) × App → Type 0
unfolding Welcomed
Started s t (ok (user u)) dash r = Welcomed u (target u s.hash) dash r
Started s t (ok null) dash r = r ≡ (ok tt, record t { current_user = none })
Started s t (ok _) dash r = Unit {0}
Started s t (throw e) dash r =
    (r.1.dom.hidden "dash" ≡ true)
    × (r.1.dom.hidden "forms" ≡ false)
    × (r.1.current_user ≡ s.current_user)

module _ (env : Env) (s : App) where
  welcomed :
      (u : User) (to : Target) (t : App)
      → target u s.hash ≡ to
      → t.current_user ≡ some u
      → t.hash ≡ s.hash
      → ((caught env (render_dashboard env t) sign_out).0 ≡ ok tt)
        × Welcomed u to (render_dashboard env t).0 (caught env (render_dashboard env t) sign_out)
  unfolding Welcomed show_report clear_dashboard
  welcomed u (workspace view admin_view) t to signed_in same =
      let restored =
        caught-Restored u view admin_view env (render_dashboard env t)
          (render_dashboard-Entered u env view admin_view t signed_in (rw same to)) in
      (restored.ends, restored)
  welcomed u (report kind id) t to signed_in same =
      let (ends, page) =
        route_view-show_report kind id env (at_dashboard u t) u signed_in (rw same to) in
      let ended : (render_dashboard env t).0 ≡ ok tt =
        ap (λ (r : Result (Unit {0}) × App). r.0) (renders u env t signed_in) ∙ ends in
      let left : frame (render_dashboard env t).1 ≡ frame (show_report kind id (at_dashboard u t)) =
        ap (λ (r : Result (Unit {0}) × App). frame r.1) (renders u env t signed_in) ∙ page in
      let (caught_ends, caught_same) = uncaught (render_dashboard env t) ended in
      let all = caught_same ∙ left in
      (
        caught_ends,
        (
          caught_ends,
          record {
            known = ap (λ (f : Frame). f.current_user) all ∙ signed_in;
            dash = ap (λ (f : Frame). f.dash_hidden) all;
            forms = ap (λ (f : Frame). f.forms_hidden) all;
            no_view = λ v. ap (λ (f : Frame). f.view_hidden v) all;
            report_shown = ap (λ (f : Frame). f.report_hidden) all;
            state = ap (λ (f : Frame). f.report_state) all;
          },
        ),
      )
    where
      uncaught :
          (r : Result (Unit {0}) × App)
          → r.0 ≡ ok tt
          → ((caught env r sign_out).0 ≡ ok tt) × (frame (caught env r sign_out).1 ≡ frame r.1)
      uncaught (ok a, t') h = (refl, refl)
      uncaught (throw e, t') h = cc

  started :
      (x : Result Body × App)
      → frame x.1 ≡ frame s
      → ((caught env (then_run env x (store_me)) sign_out).0 ≡ ok tt)
        × Started s x.1 x.0
            (then_run env x (store_me)).0
            (caught env (then_run env x (store_me)) sign_out)
  unfolding Started store_me render_if_known sign_out
  started (ok (user u), t) same =
      welcomed u (target u s.hash) (record t { current_user = some u }) refl refl
        (ap (λ (f : Frame). f.hash) same)
  started (ok null, t) same = (refl, refl)
  started (ok _, t) same = (refl, tt)
  started (throw e, t) same =
      let quiet = shown-Quiet (is_worth_showing e) e env (record t { dom = login_page t.dom }) in
      (
        quiet.ends,
        (
          ap (λ (f : String → Bool). f "dash") quiet.what,
          ap (λ (f : String → Bool). f "forms") quiet.what,
          quiet.who ∙ ap (λ (f : Frame). f.current_user) same,
        ),
      )

  -- `restoreSession` does not throw, whatever the server answers and the address says. Where the
  -- request for `/me` throws, the sign-in form is shown in place of the dashboard. Where it hands
  -- over nothing, as when the browser is sent to the sign-in page, the page is as `api` left it and
  -- nobody is signed in. Where it names a user, that user is signed in: an
  -- address of a report shows that report; for an address of a view, the dashboard shows the view
  -- where its loaders end, and where one of them throws, the sign-in form stands in its place,
  -- though the user is signed in.
  pub restore_session-Started :
      ((restore_session env s).0 ≡ ok tt)
      × Started s
          (api me_request env s).1
          (api me_request env s).0
          (show_dash env s).0
          (restore_session env s)
  unfolding restore_session show_dash
  restore_session-Started = started (api me_request env s) (api-Frames me_request env s)
