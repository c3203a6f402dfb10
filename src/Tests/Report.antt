-- ===== src/Tests/Report.antt =====
-- Tests of the report page.
use shortq.Prelude.{
  ℕ, ◌+◌, ◌≤◌, ◌≡◌, refl, arith, [], ◌∷◌, Text, codes, true, false, some, text_eq, includes, split,
  lower, all, value, show_ℕ,
}
use shortq.State.{App, ReportState, report, response}
use shortq.State.ReportData.{Point, Report}
use shortq.State.Monad.{Env}
use shortq.Api.{get_request}
use shortq.Views.Safety.{Confined}
use shortq.Router.Target.{
  Target, target, target_of, workspace_target, choose_view, choose_admin_view, admin_allowed,
  report_match,
}
use shortq.Router.Show.{route_view}
use shortq.Router.Show.Reported.{ShowsReport, route_view-ShowsReport}
use shortq.Report.{report_base_path, set_report_preset}
use shortq.Report.Dates.{local_date_value, two_digits, preset_days}
use shortq.Report.Charts.{clicks_of, max_clicks}
use shortq.Report.Render.{charts_html}
use shortq.Report.Period.{days_query, set_report_preset-days}
use shortq.Report.Safety.{PlainNumbers}
use shortq.Report.Safety.Blank.{blank_report}
use shortq.Report.Safety.Charts.{charts_html-Confined}
use shortq.Tests.Samples.{ann, signed_in, plain_numbers, january, fixed_date}

-- A report in which every text tries to close its element.
abbrev evil : Text
evil = codes "\"><script>"

abbrev evil_point : Point
evil_point = record { label = evil; clicks = 3 }

abbrev evil_report : Report
evil_report = record {
  subject = record {
    type = codes "link";
    title = evil;
    slug = evil;
    visibility = evil;
    owner_name = evil;
    name = evil;
    email = evil;
  };
  from = codes "2026-01-01";
  to = codes "2026-01-31";
  timezone = codes "Asia/Jakarta";
  detail_retained_days = 90;
  summary = record {
    all_time_clicks = 9;
    period_clicks = 6;
    human_clicks = 4;
    bot_clicks = 2;
    estimated_unique_visitors = 3;
    expired_attempts = 0;
    average_clicks_per_day = record { bits = 0 };
    peak_day = evil;
    peak_day_clicks = 3;
    previous_period_clicks = some 3;
    change_percent = some (record { bits = 1 });
    active_links = 1;
    deleted_links = 0;
  };
  daily = evil_point ∷ evil_point ∷ [];
  breakdown = λ key. evil_point ∷ [];
  top_links =
      record {
        id = 5;
        slug = evil;
        title = evil;
        visibility = evil;
        period_clicks = 6;
        all_time_clicks = 9;
        deleted_at = [];
      }
      ∷ [];
  recent_events =
      record {
        created_at = evil;
        slug = evil;
        country_code = evil;
        device = evil;
        browser = evil;
        os = evil;
        referrer_host = evil;
        utm_campaign = evil;
        is_bot = true;
        route_type = evil;
        status_code = 302;
      }
      ∷ [];
}

-- A server that answers every request with the report.
abbrev reporting : Env
reporting = record {
  answer =
      λ q sent. response 200 (codes "application/json") (some (report evil_report)) [] (codes "OK");
  locale_date = fixed_date;
  stringify = λ b. [];
  encode = λ q. [];
  numbers = plain_numbers;
  calendar = january;
  iso = some;
  parse_json = λ t. some (record { text = t });
  kept = λ k t. t;
  picked = λ k. true;
  now = codes "0";
}

abbrev link_5 : ReportState
link_5 = record { kind = codes "link"; id = codes "5" }

abbrev on_report : App
on_report = record signed_in { report_state = some link_5; hash = codes "#report/link/5" }

targets : Unit {0}
unfolding target target_of workspace_target choose_view choose_admin_view admin_allowed report_match
    includes split lower text_eq all
targets = tt

plain_numbers-PlainNumbers : PlainNumbers plain_numbers
unfolding targets
plain_numbers-PlainNumbers = record {
  to_text = λ x. refl;
  to_fixed = λ d x. refl;
  to_locale = λ d x. refl;
}

-- The maximum is at least 1, and only the first, middle and last days are labelled.
most_of_evil : max_clicks evil_report.daily ≡ 3
unfolding max_clicks
most_of_evil = refl

no_clicks : max_clicks [] ≡ 1
unfolding max_clicks
no_clicks = refl

two_humans : clicks_of (codes "human") 0 (record { label = codes "human"; clicks = 2 } ∷ []) ≡ 2
unfolding clicks_of text_eq
two_humans = refl

today_text : local_date_value january 20000 ≡ codes "2026-01-30"
unfolding local_date_value two_digits show_ℕ
today_text = refl

is_a_number : text_eq (codes "7") (codes "custom") ≡ false
unfolding text_eq
is_a_number = refl

week : preset_days (codes "7") ≤ 20000 + 1
unfolding value
week = omega arith

charts_html-Confined_example :
    Confined
      (charts_html plain_numbers evil_report)
      (charts_html plain_numbers (blank_report evil_report))
charts_html-Confined_example =
    charts_html-Confined plain_numbers plain_numbers-PlainNumbers evil_report

set_report_preset-days_example :
    (first : ℕ) × ((set_report_preset (codes "7") reporting on_report).1.sent
      ≡ get_request (report_base_path (some link_5)) (days_query january first 20001) ∷ [])
    × (first + preset_days (codes "7") ≡ 20001)
set_report_preset-days_example =
    set_report_preset-days (codes "7") reporting on_report link_5 refl is_a_number refl week

to_report : target ann on_report.hash ≡ Target.report (codes "link") (codes "5")
unfolding targets
to_report = refl

route_view-ShowsReport_example :
    ShowsReport (codes "link") (codes "5") reporting on_report (route_view reporting on_report)
route_view-ShowsReport_example =
    route_view-ShowsReport (codes "link") (codes "5") reporting on_report ann refl to_report
