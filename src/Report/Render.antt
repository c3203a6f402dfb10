-- ===== src/Report/Render.antt =====
-- web/reports.js, `renderReport`: the page of a report that came.
use shortq.Prelude.{
  ℕ, ◌+◌, List, [], ◌∷◌, ◌++◌, String, Text, codes, Bool, if◌then◌else◌, is_empty, or_text, show_ℕ,
  text_eq, Option, none, some,
}
use shortq.State.{Dom, Body, report, null, set_content, set_hidden}
use shortq.State.Platform.{Double, Numbers}
use shortq.State.ReportData.{Report, Subject, Summary, Point, RankedLink, SafeEvent}
use shortq.State.Monad.{M, type_error, raise, ◌>>◌, page}
use shortq.Html.{Piece, lit, escaped, num, shown}
use shortq.Views.{rows, or_else, sharing}
use shortq.Api.{show_msg}
use shortq.Workspace.{set_html}
use shortq.Report.Charts.{
  report_number, count_text, report_card, bar_chart_card, composition_chart_card,
}
use shortq.Report.Lines.{line_chart_card}

abbrev pub is_link : Subject → Bool
is_link s = text_eq s.type (codes "link")

abbrev title_of : Subject → Text
title_of s = if is_link s then or_text s.title (b'/' ∷ s.slug) else s.name

abbrev subtitle_of : Subject → Text
subtitle_of s =
    if is_link s
    then b'/'
      ∷ (s.slug
          ++ (codes " · " ++ (sharing s.visibility ++ (codes " · owned by " ++ s.owner_name))))
    else s.email ++ codes " · owned-link performance"

abbrev coverage : (from to timezone days : Text) → Text
coverage from to timezone days =
    codes "Showing "
    ++ (from
        ++ (codes " through the day before "
            ++ (to
                ++ (codes " in "
                    ++ (timezone
                        ++ (codes ". Detailed events are retained for "
                            ++ (days
                                ++ codes
                                    " days. Unique visitors are estimated from distinct non-bot IP addresses; deleted links remain in owner reports.")))))))

abbrev coverage_of : Report → Text
coverage_of r = coverage r.from r.to r.timezone (show_ℕ r.detail_retained_days)

-- The ten breakdowns that are shown as bars: key, title and subtitle.
abbrev pub bar_charts : List (String × String × String)
bar_charts =
    ("country", "Countries", "Cloudflare country signal for successful redirects.")
    ∷ ("device", "Devices", "Client device class for successful redirects.")
    ∷ ("browser", "Browsers", "Detected browser family.")
    ∷ ("os", "Operating systems", "Detected operating-system family.")
    ∷ ("referrer", "Referrer hosts", "Unknown includes direct and privacy-restricted traffic.")
    ∷ ("utm_source", "UTM sources", "Source parameter present on resolved destinations.")
    ∷ ("utm_medium", "UTM media", "Medium parameter present on resolved destinations.")
    ∷ ("campaign", "UTM campaigns", "Campaign parameter present on resolved destinations.")
    ∷ ("route", "Routing outcomes", "Default, device, country, and expired routing decisions.")
    ∷ ("status", "HTTP outcomes", "Tracked redirect and expired status codes.")
    ∷ []

module _ (n : Numbers) where
  abbrev or_zero : Option Double → Double
  or_zero none = n.of_nat 0
  or_zero (some x) = x

  -- The note on the clicks of the period, by those of the period before.
  change_note : Option ℕ → Option Double → Text
  change_note none change = codes "Successful redirects"
  change_note (some before) change = report_number n 1 (or_zero change) ++ codes "% vs prior period"

  unfoldable pub summary_cards : Bool → Summary → List (Text × Text × Text)
  unfolding change_note
  summary_cards of_link s =
      (
        codes "Period clicks",
        count_text n s.period_clicks,
        change_note s.previous_period_clicks s.change_percent,
      )
      ∷ (
        codes "All-time clicks",
        count_text n s.all_time_clicks,
        (if of_link then codes "Successful redirects" else codes "Across owned links"),
      )
      ∷ (codes "Human clicks", count_text n s.human_clicks, codes "Heuristic non-bot traffic")
      ∷ (
        codes "Estimated visitors",
        count_text n s.estimated_unique_visitors,
        codes "Distinct non-bot IPs",
      )
      ∷ (codes "Bot clicks", count_text n s.bot_clicks, codes "User-agent heuristic")
      ∷ (
        codes "Expired attempts",
        count_text n s.expired_attempts,
        codes "Tracked unavailable redirects",
      )
      ∷ (
        codes "Daily average",
        report_number n 1 s.average_clicks_per_day,
        codes "Successful redirects per day",
      )
      ∷ (
        codes "Peak day",
        or_text s.peak_day (codes "—"),
        count_text n s.peak_day_clicks ++ codes " clicks",
      )
      ∷ (if of_link
          then []
          else (
            codes "Owned links",
            count_text n (s.active_links + s.deleted_links),
            count_text n s.active_links
                ++ (codes " active · " ++ (count_text n s.deleted_links ++ codes " deleted")),
          )
            ∷ [])

  unfoldable pub summary_html : Report → List Piece
  unfolding summary_cards rows report_card
  summary_html r = rows report_card (summary_cards (is_link r.subject) r.summary)

  unfoldable pub breakdown_card : (Text → List Point) → String × String × String → List Piece
  breakdown_card breakdown (key, title, subtitle) =
      bar_chart_card n title subtitle (breakdown (codes key))

  unfoldable pub charts_html : Report → List Piece
  unfolding breakdown_card rows
  charts_html r =
      line_chart_card n "Clicks by day" "Successful redirects in the selected local-time period."
        r.daily
      ++ (composition_chart_card n "Human and bot traffic"
            "Successful redirects classified from user-agent strings."
            (r.breakdown (codes "traffic"))
          ++ rows (breakdown_card r.breakdown) bar_charts)

  unfoldable pub top_link_row : RankedLink → List Piece
  top_link_row x =
      lit "<div class=\"row one-action\"><div><b>"
      ∷ escaped (or_text x.title x.slug)
      ∷ lit "</b><div class=\"tiny\">/"
      ∷ escaped x.slug
      ∷ lit " · "
      ∷ shown (count_text n x.period_clicks)
      ∷ lit " period · "
      ∷ shown (count_text n x.all_time_clicks)
      ∷ lit " all-time · "
      ∷ escaped (if is_empty x.deleted_at then x.visibility else codes "deleted")
      ∷ lit "</div></div><button class=\"secondary\" onclick=\"openLinkReport("
      ∷ num x.id
      ∷ lit ")\">Open report</button></div>"
      ∷ []

  unfoldable pub top_links_html : List RankedLink → List Piece
  unfolding rows top_link_row
  top_links_html xs = rows top_link_row xs

unfoldable pub event_row : (Text → Text) → SafeEvent → List Piece
event_row locale x =
    lit "<tr><td>"
    ∷ escaped (locale x.created_at)
    ∷ lit "</td><td>/"
    ∷ escaped x.slug
    ∷ lit "</td><td>"
    ∷ escaped (or_text x.country_code (codes "unknown"))
    ∷ lit "</td><td>"
    ∷ escaped x.device
    ∷ lit " · "
    ∷ escaped x.browser
    ∷ lit " · "
    ∷ escaped x.os
    ∷ lit "</td><td>"
    ∷ escaped (or_text x.referrer_host (codes "unknown"))
    ∷ lit "</td><td>"
    ∷ escaped (or_text x.utm_campaign (codes "unknown"))
    ∷ lit "</td><td>"
    ∷ shown (if x.is_bot then codes "bot · " else [])
    ∷ escaped x.route_type
    ∷ lit " → "
    ∷ num x.status_code
    ∷ lit "</td></tr>"
    ∷ []

abbrev pub no_report_events : String
no_report_events = "<tr><td colspan=\"7\">No events in this period.</td></tr>"

unfoldable pub events_html : (Text → Text) → List SafeEvent → List Piece
unfolding rows event_row
events_html locale xs = or_else (rows (event_row locale) xs) no_report_events

-- All that `renderReport` writes into the page.
unfoldable pub report_page : Numbers → (Text → Text) → Report → Dom → Dom
report_page n locale r d = set_html "reportEvents" (events_html locale r.recent_events) (
    set_html "reportTopLinks" (top_links_html n r.top_links) (
      set_hidden "reportTopLinksCard" (is_empty r.top_links) (
        set_html "reportCharts" (charts_html n r) (
          set_html "reportSummary" (summary_html n r) (
            set_content "reportCoverage" (coverage_of r) (
              set_content "reportSubtitle" (subtitle_of r.subject)
                (set_content "reportTitle" (title_of r.subject) d)))))))

abbrev write_report : Report → M (Unit {0})
write_report r env s = page (report_page env.numbers env.locale_date r) env s

-- How the page reads a value without the fields of a report: `undefined` where it joins texts, and
-- elsewhere nothing, 0 or no rows.
abbrev unknown : Text
unknown = codes "undefined"

abbrev blank_report : Report
blank_report = record {
  subject = record {
    type = [];
    title = [];
    slug = [];
    visibility = [];
    owner_name = [];
    name = [];
    email = unknown;
  };
  from = unknown;
  to = unknown;
  timezone = unknown;
  detail_retained_days = 0;
  summary = record {
    all_time_clicks = 0;
    period_clicks = 0;
    human_clicks = 0;
    bot_clicks = 0;
    estimated_unique_visitors = 0;
    expired_attempts = 0;
    average_clicks_per_day = record { bits = 0 };
    peak_day = [];
    peak_day_clicks = 0;
    previous_period_clicks = none;
    change_percent = none;
    active_links = 0;
    deleted_links = 0;
  };
  daily = [];
  breakdown = λ key. [];
  top_links = [];
  recent_events = [];
}

write_blank : M (Unit {0})
unfolding report_page
write_blank = do
  write_report blank_report
  page (set_content "reportCoverage" (coverage unknown unknown unknown unknown))

-- `renderReport(report)`. Nothing at all has no fields to read; any other value that is no report is
-- read as one without fields.
unfoldable pub render_report : Body → M (Unit {0})
unfolding show_msg report_page write_blank
render_report (report r) = do show_msg [] "error"; write_report r
render_report null = do show_msg [] "error"; raise type_error
render_report _ = do show_msg [] "error"; write_blank
