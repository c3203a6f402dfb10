-- ===== src/Router/Show/Shown.antt =====
-- What the page shows after routing, however the loading of the view ends.
use shortq.Prelude.{◌≡◌, refl, true, false, ◌∙◌, ap, Text, not, text_eq, Option, none, some}
use shortq.State.{App, User}
use shortq.State.Monad.{Env, Result}
use shortq.Workspace.Frame.{Frame, frame}
use shortq.Workspace.Load.{load_workspace_view, add_view}
use shortq.Workspace.Load.Once.{load_workspace_view-keeps}
use shortq.Router.Target.{Target, workspace, target, view_hash}
use shortq.Router.Laws.{MayShow, target-MayShow}
use shortq.Router.Show.{show_workspace, follow, route, route_view, pane_id}

-- The page of a view that the user may see.
pub record Shows (u : User) (view admin_view : Text) (s : App) : Type 0 where
  pub may : MayShow u view admin_view
  pub view_alone : (v : Text) → s.dom.view_hidden v ≡ not (text_eq v view)
  pub pane_alone : (p : Text) → s.dom.pane_hidden p ≡ not (text_eq p (pane_id admin_view))
  pub kept_hash : s.last_workspace_hash ≡ view_hash view admin_view
  pub no_report : s.report_state ≡ none
  pub report_hidden : s.dom.hidden "reportView" ≡ true
  pub nav_shown : s.dom.hidden "workspaceNav" ≡ false

goes_to_view :
    (u : User) (view admin_view : Text) (env : Env) (s : App)
    → s.current_user ≡ some u
    → target u s.hash ≡ workspace view admin_view
    → route_view env s ≡ load_workspace_view view admin_view env (show_workspace view admin_view s)
unfolding route_view
goes_to_view u view admin_view env s signed_in to =
    ap (λ (o : Option User). route o env s) signed_in ∙ ap (λ (t : Target). follow t env s) to

-- A part of the page that routing sets and the loaders leave alone.
pub shown_part :
    {B : Type 0} (part : Frame → B) (u : User) (view admin_view : Text) (env : Env) (s : App)
    → ((key : Text) (s' : App) → part (frame (add_view key s')) ≡ part (frame s'))
    → s.current_user ≡ some u
    → target u s.hash ≡ workspace view admin_view
    → part (frame (route_view env s).1) ≡ part (frame (show_workspace view admin_view s))
shown_part part u view admin_view env s h signed_in to =
    ap (λ (r : Result (Unit {0}) × App). part (frame r.1))
      (goes_to_view u view admin_view env s signed_in to)
    ∙ load_workspace_view-keeps part h view admin_view env (show_workspace view admin_view s)

-- For a signed-in user, routing to a view of the workspace leaves that view alone visible, and
-- that pane among the admin panes, with the navigation and without the report page; it remembers
-- the fragment of the view and no report; and the user may see the view. This holds whatever the server answers and whether or not the loaders throw.
pub route_view-Shows :
    (u : User) (view admin_view : Text) (env : Env) (s : App)
    → s.current_user ≡ some u
    → target u s.hash ≡ workspace view admin_view
    → Shows u view admin_view (route_view env s).1
unfolding show_workspace
route_view-Shows u view admin_view env s signed_in to = record {
  may = target-MayShow u s.hash view admin_view to;
  view_alone =
      λ v. shown_part (λ f. f.view_hidden v) u view admin_view env s (λ _ _. refl) signed_in to;
  pane_alone =
      λ p. shown_part (λ f. f.pane_hidden p) u view admin_view env s (λ _ _. refl) signed_in to;
  kept_hash =
      shown_part (λ f. f.last_workspace_hash) u view admin_view env s (λ _ _. refl) signed_in to;
  no_report = shown_part (λ f. f.report_state) u view admin_view env s (λ _ _. refl) signed_in to;
  report_hidden =
      shown_part (λ f. f.report_hidden) u view admin_view env s (λ _ _. refl) signed_in to;
  nav_shown =
      shown_part (λ f. f.workspace_nav_hidden) u view admin_view env s (λ _ _. refl) signed_in to;
}
