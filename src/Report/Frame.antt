-- ===== src/Report/Frame.antt =====
-- What loading a report leaves alone, and what it sends.
use shortq.Prelude.{◌≡◌, refl, ◌∙◌, ap, List, ◌∷◌, some}
use shortq.State.{App, null, Body, report, Request, ReportState}
use shortq.State.Monad.{Env, Result, ok, throw, Thrown, value, type_error, then_run, caught}
use shortq.Api.{api, show_thrown, show_body, show_msg}
use shortq.Workspace.Frame.{Frame, frame, api-Frames}
use shortq.Workspace.Paging.Requests.{sent-api}
use shortq.Report.{announce, ask_report, report_failed, report_request, load_report}
use shortq.Report.Dates.{report_query}
use shortq.Report.Render.{render_report}

abbrev Kept : Type 0
Kept = Frame × List Request

abbrev kept : App → Kept
kept s = (frame s, s.sent)

kept-render_report : (b : Body) (env : Env) (s : App) → kept (render_report b env s).1 ≡ kept s
unfolding render_report
kept-render_report (report r) env s = refl
kept-render_report null env s = refl
kept-render_report _ env s = refl

kept-report_failed :
    (e : Thrown) (env : Env) (s : App)
    → ((report_failed e env s).0 ≡ ok tt) × (kept (report_failed e env s).1 ≡ kept s)
unfolding report_failed show_thrown show_body show_msg
kept-report_failed (value body) env s = (refl, refl)
kept-report_failed type_error env s = (refl, refl)

kept-caught :
    (env : Env) (r : Result (Unit {0}) × App)
    → ((caught env r report_failed).0 ≡ ok tt) × (kept (caught env r report_failed).1 ≡ kept r.1)
kept-caught env (ok a, s) = (refl, refl)
kept-caught env (throw e, s) = kept-report_failed e env s

kept-rendered :
    (env : Env) (x : Result Body × App) → kept (then_run env x render_report).1 ≡ kept x.1
kept-rendered env (ok b, s) = kept-render_report b env s
kept-rendered env (throw e, s) = refl

kept-ask_report :
    (env : Env) (s : App) → kept (ask_report env s).1 ≡ (frame s, report_request env s ∷ s.sent)
unfolding ask_report
kept-ask_report env s =
    kept-rendered env (api (report_request env s) env s)
    ∙ ap (λ (f : Frame). (f, (api (report_request env s) env s).1.sent))
        (api-Frames (report_request env s) env s)
    ∙ ap (λ (qs : List Request). (frame s, qs)) (sent-api (report_request env s) env s)

-- Loading a report does not throw, sends the one request, and keeps the frame.
pub load_report-lem :
    (r : ReportState) (env : Env) (s : App)
    → ((load_report (some r) env s).0 ≡ ok tt)
      × (frame (load_report (some r) env s).1 ≡ frame s)
      × ((load_report (some r) env s).1.sent ≡ report_request env s ∷ s.sent)
unfolding load_report announce report_request report_query
load_report-lem r env s =
    let t : App = record s { dom = announce s.dom } in
    let (ends, same) = kept-caught env (ask_report env t) in
    let all : kept (caught env (ask_report env t) report_failed).1
        ≡ (frame s, report_request env t ∷ s.sent) =
      same ∙ kept-ask_report env t in
    (ends, ap (λ (k : Kept). k.0) all, ap (λ (k : Kept). k.1) all)
