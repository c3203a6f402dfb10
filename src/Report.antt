-- ===== src/Report.antt =====
-- web/reports.js, the report page: `setReportPreset`, `loadCurrentReport` and `downloadReport`.
pub mod Dates
pub mod Frame
pub mod Period
pub mod Bounds
pub mod Charts
pub mod Lines
pub mod Render
pub mod Safety
use shortq.Prelude.{
  List, [], ◌∷◌, ◌++◌, Text, String, codes, Bool, true, false, text_eq, is_empty, if◌then◌else◌,
  not, Option, none, some,
}
use shortq.State.{App, Dom, Body, Request, ReportState, set_content}
use shortq.State.Monad.{
  Env, M, Thrown, pure, ◌>>=◌, ◌>>◌, modify, gets, page, try_catch, when, detach,
}
use shortq.Api.{api, get_request, show_thrown}
use shortq.Report.Dates.{preset_dates, report_query}
use shortq.Report.Render.{render_report}

-- `reportBasePath`
unfoldable pub report_base_path : Option ReportState → Text
report_base_path none = []
report_base_path (some r) =
    codes "/api/v1/reports/"
    ++ ((if text_eq r.kind (codes "link") then codes "links" else codes "users") ++ (b'/' ∷ r.id))

unfoldable pub announce : Dom → Dom
announce d = set_content "reportCharts" [] (
    set_content "reportSummary" (codes "<div class=\"empty\">Loading metrics...</div>")
      (set_content "reportSubtitle" [] (set_content "reportTitle" (codes "Loading report...") d)))

unfoldable pub report_failed : Thrown → M (Unit {0})
report_failed e = do
  page
      λ d. set_content "reportSummary" [] (set_content "reportTitle" (codes "Report unavailable") d)
  show_thrown e

unfoldable pub report_request : Env → App → Request
report_request env s =
    get_request (report_base_path s.report_state) (report_query env.calendar s.dom)

-- The `try` block.
unfoldable pub ask_report : M (Unit {0})
unfolding report_request
ask_report env s = (api (report_request env s) >>= render_report) env s

unfoldable pub load_report : Option ReportState → M (Unit {0})
unfolding announce report_failed ask_report
load_report none = pure tt
load_report (some r) = do page announce; try_catch ask_report report_failed

unfoldable pub load_current_report : M (Unit {0})
unfolding load_report
load_current_report = do r ← gets (λ s. s.report_state); load_report r

-- The dates of `setReportPreset(value, false)`, for a value other than `custom`.
abbrev pub set_dates : Text → M (Unit {0})
set_dates v env s = page (preset_dates env.calendar v) env s

abbrev pub reload_report : Option ReportState → M (Unit {0})
reload_report none = pure tt
reload_report (some r) = detach load_current_report

-- `setReportPreset(value)`, which does not await the report.
unfoldable pub set_report_preset : Text → M (Unit {0})
unfolding load_current_report preset_dates
set_report_preset v =
    when (not (text_eq v (codes "custom")))
      (do set_dates v; r ← gets (λ s. s.report_state); reload_report r)

report_url : Env → App → Text → Text
report_url env s format =
    report_base_path s.report_state
    ++ (b'/' ∷ (format ++ (b'?' ∷ env.encode (report_query env.calendar s.dom))))

abbrev go_to_report : Text → M (Unit {0})
go_to_report format env s = modify (λ s. record s { href = report_url env s format }) env s

download_of : Text → Option ReportState → M (Unit {0})
unfolding report_url
download_of format none = pure tt
download_of format (some r) = go_to_report format

-- `downloadReport`
unfoldable pub download_report : Text → M (Unit {0})
unfolding download_of
download_report format = do r ← gets (λ s. s.report_state); download_of format r
