-- ===== src/Session/Mode.antt =====
-- `setDashboardMode`: the switch between the modes of the dashboard.
use shortq.Prelude.{
  ◌≡◌, refl, sym, ◌∙◌, ap, ◌++◌, Text, String, codes, false, not, true, text_eq, none, some,
}
use mathlib.Core.Path.{subst}
use shortq.State.{App, User, Body, null, user}
use shortq.State.Monad.{
  Env, M, Result, ok, throw, Thrown, value, type_error, then_run, caught, when, ◌>>◌,
}
use shortq.Api.{api, show_thrown, show_body, show_msg}
use shortq.Workspace.Frame.{Frame, frame, api-Frames}
use shortq.Router.Target.{workspace, target}
use shortq.Session.{
  mode_request, render_dashboard, store_mode, switch_mode, change_mode, set_dashboard_mode,
  is_in_other_mode,
}
use shortq.Session.Start.{Entered, render_dashboard-Entered}

-- The state in which the new mode is asked for.
abbrev pub announced : Env → App → App
announced env s = (show_msg (codes "Switching dashboard mode...") "ok" env s).1

Entered-show_msg :
    (u : User) (view admin_view : Text) (t : Text) (kind : String) (env : Env) (s : App)
    → Entered u view admin_view s
    → Entered u view admin_view (show_msg t kind env s).1
unfolding show_msg
Entered-show_msg u view admin_view t kind env s e = record {
  shows = record {
    may = e.shows.may;
    view_alone = e.shows.view_alone;
    pane_alone = e.shows.pane_alone;
    kept_hash = e.shows.kept_hash;
    no_report = e.shows.no_report;
    report_hidden = e.shows.report_hidden;
    nav_shown = e.shows.nav_shown;
  };
  known = e.known;
  dash = e.dash;
  forms = e.forms;
  admin_nav = e.admin_nav;
  audit_nav = e.audit_nav;
  runtime_nav = e.runtime_nav;
}

-- `await renderDashboard(); showMsg(…)` under the `try`.
finished :
    (u : User) (view admin_view : Text) (t : Text) (env : Env) (r : Result (Unit {0}) × App)
    → Entered u view admin_view r.1
    → ((caught env (then_run env r (λ _. show_msg t "ok")) show_thrown).0 ≡ ok tt)
      × Entered u view admin_view (caught env (then_run env r (λ _. show_msg t "ok")) show_thrown).1
unfolding show_msg show_thrown show_body
finished u view admin_view t env (ok a, s) e =
    (refl, Entered-show_msg u view admin_view t "ok" env s e)
finished u view admin_view t env (throw (value body), s) e =
    (refl, Entered-show_msg u view admin_view _ "error" env s e)
finished u view admin_view t env (throw type_error, s) e =
    (refl, Entered-show_msg u view admin_view _ "error" env s e)

refused :
    (env : Env) (e : Thrown) (s : App)
    → ((show_thrown e env s).0 ≡ ok tt) × (frame (show_thrown e env s).1 ≡ frame s)
unfolding show_thrown show_body show_msg
refused env (value body) s = (refl, refl)
refused env type_error s = (refl, refl)

-- How `api` refuses: it throws, or it hands over nothing, having sent the browser to the sign-in page.
pub data Refusal : Type 0 where
  thrown : Thrown → Refusal
  nothing : Refusal

unfoldable pub outcome : Refusal → Result Body
outcome (thrown e) = throw e
outcome nothing = ok null

-- The dashboard without a user: `t` is what `api` left.
pub record UserLost (s t after : App) : Type 0 where
  pub nobody : after.current_user ≡ none
  pub place : after.href ≡ t.href
  pub sends : after.sent ≡ t.sent
  pub views : after.dom.view_hidden ≡ s.dom.view_hidden
  pub panes : after.dom.pane_hidden ≡ s.dom.pane_hidden
  pub loaded : after.loaded_views ≡ s.loaded_views
  pub fragment : after.last_workspace_hash ≡ s.last_workspace_hash
  pub dash : after.dom.hidden "dash" ≡ false
  pub forms : after.dom.hidden "forms" ≡ true
  pub admin_nav : after.dom.hidden "adminNavItem" ≡ true

-- What a refusal leaves.
unfoldable pub Left : Refusal → (s t after : App) → Type 0
Left (thrown e) s t after = frame after ≡ frame s
Left nothing s t after = UserLost s t after

lost :
    (env : Env) (s t : App) (text : Text)
    → frame t ≡ frame s
    → ((caught env (then_run env (store_mode null env t) (λ _. show_msg text "ok")) show_thrown).0
        ≡ ok tt)
      × Left nothing s t
          (caught env
            (then_run env (store_mode null env t) (λ _. show_msg text "ok"))
            show_thrown).1
unfolding store_mode render_dashboard show_thrown show_body show_msg Left
lost env s t text same = (
  refl,
  record {
    nobody = refl;
    place = refl;
    sends = refl;
    views = ap (λ (f : Frame). f.view_hidden) same;
    panes = ap (λ (f : Frame). f.pane_hidden) same;
    loaded = ap (λ (f : Frame). f.loaded_views) same;
    fragment = ap (λ (f : Frame). f.last_workspace_hash) same;
    dash = refl;
    forms = refl;
    admin_nav = refl;
  },
)

then_run-then_run :
    {A B : Type 0} (env : Env) (x : Result A × App) (m : A → M (Unit {0})) (k : M B)
    → then_run env x (λ a. m a >> k) ≡ then_run env (then_run env x m) (λ _. k)
then_run-then_run env (ok a, s) m k = refl
then_run-then_run env (throw e, s) m k = refl

module _ (u : User) (mode : Text) (env : Env) (s : App) (signed_in : s.current_user ≡ some u)
    (other : text_eq u.dashboard_mode mode ≡ false) where
  -- The message that ends the switch.
  abbrev done : Text
  done = codes "Now acting as " ++ mode ++ codes "."

  abbrev after : Result (Unit {0}) × App → Result (Unit {0}) × App
  after r = then_run env r (λ _. show_msg done "ok")

  changes :
      set_dashboard_mode mode env s
      ≡ caught env
          (after (then_run env (api (mode_request mode) env (announced env s)) (store_mode)))
          show_thrown
  unfolding set_dashboard_mode change_mode switch_mode show_msg
  changes =
      ap (λ o. when (is_in_other_mode mode o) (change_mode mode) env s) signed_in
      ∙ ap (λ b. when (not b) (change_mode mode) env s) other
      ∙ ap (λ r. caught env r show_thrown)
          (then_run-then_run env (api (mode_request mode) env (announced env s)) (store_mode)
            (show_msg done "ok"))

  stored :
      (v : User) (x : Result Body × App)
      → x.0 ≡ ok (user v)
      → then_run env x (store_mode) ≡ render_dashboard env (record x.1 { current_user = some v })
  unfolding store_mode
  stored v (ok b, s) h = let same : b ≡ user v = cc in ap (λ b'. store_mode b' env s) same
  stored v (throw e, s) h = cc

  -- Where the server grants a mode other than the current one, `setDashboardMode` does not throw,
  -- and leaves the dashboard of the user that the server names, at the view of the address,
  -- however the loaders end.
  pub set_dashboard_mode-Entered :
      (v : User) (view admin_view : Text)
      → (api (mode_request mode) env (announced env s)).0 ≡ ok (user v)
      → target v s.hash ≡ workspace view admin_view
      → ((set_dashboard_mode mode env s).0 ≡ ok tt)
        × Entered v view admin_view (set_dashboard_mode mode env s).1
  set_dashboard_mode-Entered v view admin_view granted to =
      let x = api (mode_request mode) env (announced env s) in
      rw (changes, stored v x granted)
        (finished v view admin_view done env
          (render_dashboard env (record x.1 { current_user = some v }))
          (render_dashboard-Entered v env view admin_view (record x.1 { current_user = some v })
            refl
            (rw (ap (λ (f : Frame). f.hash) (api-Frames (mode_request mode) env (announced env s)))
              (unfold show_msg in to))))

  -- Where the server does not grant the mode, `setDashboardMode` does not throw. Where `api` throws,
  -- the user is the same as before, and so are the view that is shown and what has been loaded.
  -- Where `api` sends the browser to the sign-in page instead, as for a session that has ended, or
  -- the answer has no content, the current user is lost, and the dashboard stays at the view that
  -- was shown, with what has been loaded.
  pub set_dashboard_mode-refused :
      (r : Refusal)
      → (api (mode_request mode) env (announced env s)).0 ≡ outcome r
      → ((set_dashboard_mode mode env s).0 ≡ ok tt)
        × Left r s
            (api (mode_request mode) env (announced env s)).1
            (set_dashboard_mode mode env s).1
  set_dashboard_mode-refused r refusal = rw changes (
      kept r (api (mode_request mode) env (announced env s)) refusal
        (unfold show_msg in api-Frames (mode_request mode) env (announced env s)))
    where
      kept :
          (r : Refusal) (x : Result Body × App)
          → x.0 ≡ outcome r
          → frame x.1 ≡ frame s
          → ((caught env (after (then_run env x (store_mode))) show_thrown).0 ≡ ok tt)
            × Left r s x.1 (caught env (after (then_run env x (store_mode))) show_thrown).1
      kept (thrown e) (ok b, s') h same = unfold outcome in cc
      kept (thrown e) (throw e', s') h same =
          unfold Left in ((refused env e' s').0, (refused env e' s').1 ∙ same)
      kept nothing (ok b, s') h same =
          unfold outcome in
          let empty : b ≡ null = cc in
          subst
            (λ b.
              ((caught env (after (then_run env (ok b, s') (store_mode))) show_thrown).0 ≡ ok tt)
              × Left nothing s s'
                  (caught env (after (then_run env (ok b, s') (store_mode))) show_thrown).1)
            (sym empty) (lost env s s' done same)
      kept nothing (throw e, s') h same = unfold outcome in cc
