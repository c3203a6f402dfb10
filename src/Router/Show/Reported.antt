-- ===== src/Router/Show/Reported.antt =====
-- What the page shows after routing to a report.
use shortq.Prelude.{
  ◌≡◌, refl, ◌∙◌, ap, ◌∷◌, Text, codes, Bool, true, false, is_empty, if◌then◌else◌, Option, some,
}
use shortq.State.{App, Dom, User, Request, ReportState}
use shortq.State.Monad.{Env, Result, ok, then_run, when}
use shortq.Api.{get_request}
use shortq.Workspace.Frame.{Frame, frame}
use shortq.Report.Dates.{preset_dates, report_query}
use shortq.Report.{report_base_path, load_report, load_current_report, report_request, set_dates}
use shortq.Report.Frame.{load_report-lem}
use shortq.Router.Target.{Target, report, target}
use shortq.Router.Show.{show_report, follow, fill_dates, route, route_view}

-- The dates for which a report is asked: those in the form, or the last 30 days.
abbrev pub dated : Env → Dom → Dom
dated env d =
    if is_empty (d.value "reportFrom") then preset_dates env.calendar (codes "30") d else d

-- The page of a report, and the request that was sent for it.
pub record ShowsReport (kind id : Text) (env : Env) (before : App) (r : Result (Unit {0}) × App)
    : Type 0 where
  pub ends : r.0 ≡ ok tt
  pub no_view : (v : Text) → r.1.dom.view_hidden v ≡ true
  pub report_shown : r.1.dom.hidden "reportView" ≡ false
  pub nav_hidden : r.1.dom.hidden "workspaceNav" ≡ true
  pub state : r.1.report_state ≡ some (record { kind = kind; id = id })
  pub back : r.1.last_workspace_hash ≡ before.last_workspace_hash
  pub asked :
      r.1.sent
      ≡ get_request
          (report_base_path (some (record { kind = kind; id = id })))
          (report_query env.calendar (dated env before.dom))
        ∷ before.sent

module _ (kind id : Text) (env : Env) (s : App) where
  abbrev this : ReportState
  this = record { kind = kind; id = id }

  -- The state in which the report is loaded.
  abbrev at_report : Bool → App
  at_report empty =
      let t = show_report kind id s in
      record t { dom = if empty then preset_dates env.calendar (codes "30") t.dom else t.dom }

  fill_and_load :
      (empty : Bool)
      → then_run env
          (when empty (set_dates (codes "30")) env (show_report kind id s))
          (λ _. load_current_report)
        ≡ load_report (some this) env (at_report empty)
  unfolding load_current_report show_report
  fill_and_load true = refl
  fill_and_load false = refl

  follow_report :
      follow (report kind id) env s
      ≡ load_report (some this) env (at_report (is_empty (s.dom.value "reportFrom")))
  unfolding follow fill_dates show_report
  follow_report = fill_and_load (is_empty (s.dom.value "reportFrom"))

  routed :
      (u : User)
      → s.current_user ≡ some u
      → target u s.hash ≡ report kind id
      → route_view env s
        ≡ load_report (some this) env (at_report (is_empty (s.dom.value "reportFrom")))
  unfolding route_view route
  routed u signed_in to =
      ap (λ (o : Option User). route o env s) signed_in
      ∙ ap (λ (t : Target). follow t env s) to
      ∙ follow_report

  at_report-frame : (empty : Bool) → frame (at_report empty) ≡ frame (show_report kind id s)
  unfolding show_report preset_dates
  at_report-frame true = refl
  at_report-frame false = refl

  asks :
      (empty : Bool)
      → report_request env (at_report empty)
        ≡ get_request (report_base_path (some this)) (
            report_query env.calendar
              (if empty then preset_dates env.calendar (codes "30") s.dom else s.dom))
  unfolding report_request report_query show_report preset_dates
  asks true = refl
  asks false = refl

  reported :
      (empty : Bool) (r : Result (Unit {0}) × App)
      → r ≡ load_report (some this) env (at_report empty)
      → (r.0 ≡ ok tt)
        × (frame r.1 ≡ frame (show_report kind id s))
        × (r.1.sent
            ≡ get_request (report_base_path (some this)) (
                report_query env.calendar
                  (if empty then preset_dates env.calendar (codes "30") s.dom else s.dom))
              ∷ s.sent)
  unfolding show_report
  reported empty r e =
      let (ends, same, sends) = load_report-lem this env (at_report empty) in
      (
        ap (λ (q : Result (Unit {0}) × App). q.0) e ∙ ends,
        ap (λ (q : Result (Unit {0}) × App). frame q.1) e ∙ same ∙ at_report-frame empty,
        ap (λ (q : Result (Unit {0}) × App). q.1.sent) e
            ∙ sends
            ∙ ap (λ (q : Request). q ∷ (at_report empty).sent) (asks empty),
      )

  -- For a signed-in user, routing to a report shows the report page alone, without the navigation,
  -- and asks for that report once: for the dates in the form, or for the last 30 days where the
  -- form is empty. It does not throw, whatever the server answers, and the view to go back to is
  -- kept.
  pub route_view-ShowsReport :
      (u : User)
      → s.current_user ≡ some u
      → target u s.hash ≡ report kind id
      → ShowsReport kind id env s (route_view env s)
  unfolding show_report
  route_view-ShowsReport u signed_in to =
      let (ends, same, sends) =
        reported (is_empty (s.dom.value "reportFrom")) (route_view env s) (routed u signed_in to) in
      record {
        ends = ends;
        no_view = λ v. ap (λ (f : Frame). f.view_hidden v) same;
        report_shown = ap (λ (f : Frame). f.report_hidden) same;
        nav_hidden = ap (λ (f : Frame). f.workspace_nav_hidden) same;
        state = ap (λ (f : Frame). f.report_state) same;
        back = ap (λ (f : Frame). f.last_workspace_hash) same;
        asked = sends;
      }

  -- Routing to a report does not throw, and changes what `showReport` changes.
  pub route_view-show_report :
      (u : User)
      → s.current_user ≡ some u
      → target u s.hash ≡ report kind id
      → ((route_view env s).0 ≡ ok tt)
        × (frame (route_view env s).1 ≡ frame (show_report kind id s))
  route_view-show_report u signed_in to =
      let (ends, same, sends) =
        reported (is_empty (s.dom.value "reportFrom")) (route_view env s) (routed u signed_in to) in
      (ends, same)

  -- Routing to a report keeps the user.
  pub report_keeps_user :
      (u : User)
      → s.current_user ≡ some u
      → target u s.hash ≡ report kind id
      → (route_view env s).1.current_user ≡ some u
  unfolding show_report
  report_keeps_user u signed_in to =
      let (ends, same, sends) =
        reported (is_empty (s.dom.value "reportFrom")) (route_view env s) (routed u signed_in to) in
      ap (λ (f : Frame). f.current_user) same ∙ signed_in
