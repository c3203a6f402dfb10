-- ===== src/Router/Show.antt =====
-- web/reports.js, `routeView`: the page shows what the address asks for.
pub mod Reported
pub mod Shown
pub mod Browse
use shortq.Prelude.{
  List, [], ◌∷◌, ◌++◌, Text, codes, Bool, true, false, not, text_eq, is_empty, upper, if◌then◌else◌,
  Option, none, some,
}
use shortq.State.{App, Dom, User, Body, Request, ReportState, set_content, set_hidden}
use shortq.State.Monad.{Env, M, Thrown, pure, ◌>>=◌, ◌>>◌, modify, gets, page, try_catch, when}
use shortq.Api.{show_thrown}
use shortq.Report.{load_current_report, set_dates}
use shortq.Workspace.Load.{load_workspace_view}
use shortq.Router.Target.{Target, report, workspace, target, view_hash}

-- `admin${adminView[0].toUpperCase() + adminView.slice(1)}Pane`
abbrev pub capital : Text → Text
capital [] = []
capital (c ∷ s) = upper c ∷ s

abbrev pub pane_id : Text → Text
pane_id admin_view = codes "admin" ++ capital admin_view ++ codes "Pane"

-- The page of a view: its section alone, its item in the navigation, and its pane.
abbrev pub show_view : Text → Text → Dom → Dom
show_view view admin_view d =
    record (set_hidden "reportView" true (set_hidden "workspaceNav" false d)) {
      view_hidden = λ v. not (text_eq v view);
      view_active = λ v. text_eq v view;
      pane_hidden = λ p. not (text_eq p (pane_id admin_view));
      admin_view_active = λ a. text_eq a admin_view;
    }

unfoldable pub show_workspace : Text → Text → App → App
show_workspace view admin_view s = record s {
  report_state = none;
  last_workspace_hash = view_hash view admin_view;
  dom = show_view view admin_view s.dom;
}

unfoldable pub show_report : Text → Text → App → App
show_report kind id s = record s {
  report_state = some (record { kind = kind; id = id });
  dom = record (set_hidden "reportView" false (set_hidden "workspaceNav" true s.dom)) {
    view_hidden = λ v. true;
  };
}

-- The dates of the last 30 days are filled in where there are none.
fill_dates : M (Unit {0})
fill_dates = do
  s ← gets (λ s. s)
  when (is_empty (s.dom.value "reportFrom")) (set_dates (codes "30"))

follow : Target → M (Unit {0})
unfolding fill_dates
follow (report kind id) = do modify (show_report kind id); fill_dates; load_current_report
follow (workspace view admin_view) = do
  modify (show_workspace view admin_view)
  load_workspace_view view admin_view

route : Option User → M (Unit {0})
route none = pure tt
route (some u) = do s ← gets (λ s. s); follow (target u s.hash)

unfoldable pub route_view : M (Unit {0})
unfolding follow route
route_view = do u ← gets (λ s. s.current_user); route u

-- The listener of `hashchange`.
unfoldable pub on_hash_change : M (Unit {0})
unfolding route_view
on_hash_change = try_catch route_view show_thrown
