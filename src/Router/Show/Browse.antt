-- ===== src/Router/Show/Browse.antt =====
-- web/reports.js, the listener of `hashchange`, through any sequence of addresses.
use shortq.Prelude.{◌≡◌, refl, ◌∙◌, ap, List, [], ◌∷◌, ◌++◌, Text, some}
use shortq.State.{App, User}
use shortq.State.Monad.{Env, Result}
use shortq.Workspace.Frame.{Frame, frame}
use shortq.Operations.Try.{caught_shown}
use shortq.Router.Target.{Target, report, workspace, target}
use shortq.Router.Show.{route_view, on_hash_change, show_workspace}
use shortq.Router.Show.Shown.{Shows, route_view-Shows, shown_part}
use shortq.Router.Show.Reported.{report_keeps_user}

-- The address gets a new fragment, and the listener runs.
abbrev pub visit : Text → Env → App → Result (Unit {0}) × App
visit hash env s = on_hash_change env (record s { hash = hash })

abbrev pub browse : List Text → Env → App → App
browse [] env s = s
browse (hash ∷ hashes) env s = browse hashes env (visit hash env s).1

abbrev at : Text → App → App
at hash s = record s { hash = hash }

listener :
    (hash : Text) (env : Env) (s : App)
    → frame (visit hash env s).1 ≡ frame (route_view env (at hash s)).1
unfolding on_hash_change
listener hash env s = (caught_shown env (route_view env (at hash s))).1

routed_user :
    (t : Target) (u : User) (env : Env) (s : App)
    → s.current_user ≡ some u
    → target u s.hash ≡ t
    → (route_view env s).1.current_user ≡ some u
unfolding show_workspace
routed_user (report kind id) u env s signed_in to = report_keeps_user kind id env s u signed_in to
routed_user (workspace view admin_view) u env s signed_in to =
    shown_part (λ f. f.current_user) u view admin_view env s (λ _ _. refl) signed_in to ∙ signed_in

visit_keeps_user :
    (hash : Text) (u : User) (env : Env) (s : App)
    → s.current_user ≡ some u
    → (visit hash env s).1.current_user ≡ some u
visit_keeps_user hash u env s signed_in =
    ap (λ (f : Frame). f.current_user) (listener hash env s)
    ∙ routed_user (target u hash) u env (at hash s) signed_in refl

Shows-frame :
    (u : User) (view admin_view : Text) (s t : App)
    → frame t ≡ frame s
    → Shows u view admin_view s
    → Shows u view admin_view t
Shows-frame u view admin_view s t same shows = record {
  may = shows.may;
  view_alone = λ v. ap (λ (f : Frame). f.view_hidden v) same ∙ shows.view_alone v;
  pane_alone = λ p. ap (λ (f : Frame). f.pane_hidden p) same ∙ shows.pane_alone p;
  kept_hash = ap (λ (f : Frame). f.last_workspace_hash) same ∙ shows.kept_hash;
  no_report = ap (λ (f : Frame). f.report_state) same ∙ shows.no_report;
  report_hidden = ap (λ (f : Frame). f.report_hidden) same ∙ shows.report_hidden;
  nav_shown = ap (λ (f : Frame). f.workspace_nav_hidden) same ∙ shows.nav_shown;
}

-- After a signed-in user has gone through any addresses, of views or reports, whatever the server
-- has answered, an address of a view shows that view.
pub browse-Shows :
    (hashes : List Text) (hash : Text) (u : User) (view admin_view : Text) (env : Env) (s : App)
    → s.current_user ≡ some u
    → target u hash ≡ workspace view admin_view
    → Shows u view admin_view (browse (hashes ++ (hash ∷ [])) env s)
browse-Shows [] hash u view admin_view env s signed_in to =
    Shows-frame u view admin_view (route_view env (at hash s)).1 (visit hash env s).1
      (listener hash env s) (route_view-Shows u view admin_view env (at hash s) signed_in to)
browse-Shows (h ∷ hashes) hash u view admin_view env s signed_in to =
    browse-Shows hashes hash u view admin_view env (visit h env s).1
      (visit_keeps_user h u env s signed_in) to
