-- ===== src/State/ReportData.antt =====
-- The JSON of the server's reports, `AnalyticsReport` and its parts in internal/models/models.go.
use shortq.Prelude.{ℕ, List, Text, Bool, Option}
use shortq.State.Platform.{Double}

-- The fields of a link's report, or those of a user's.
pub record Subject : Type 0 where
  pub type : Text
  pub title : Text
  pub slug : Text
  pub visibility : Text
  pub owner_name : Text
  pub name : Text
  pub email : Text

pub record Summary : Type 0 where
  pub all_time_clicks : ℕ
  pub period_clicks : ℕ
  pub human_clicks : ℕ
  pub bot_clicks : ℕ
  pub estimated_unique_visitors : ℕ
  pub expired_attempts : ℕ
  pub average_clicks_per_day : Double
  pub peak_day : Text
  pub peak_day_clicks : ℕ
  pub previous_period_clicks : Option ℕ
  pub change_percent : Option Double
  pub active_links : ℕ
  pub deleted_links : ℕ

-- A day of `daily` or a key of a breakdown, with its clicks.
pub record Point : Type 0 where
  pub label : Text
  pub clicks : ℕ

pub record RankedLink : Type 0 where
  pub id : ℕ
  pub slug : Text
  pub title : Text
  pub visibility : Text
  pub period_clicks : ℕ
  pub all_time_clicks : ℕ
  pub deleted_at : Text

pub record SafeEvent : Type 0 where
  pub created_at : Text
  pub slug : Text
  pub country_code : Text
  pub device : Text
  pub browser : Text
  pub os : Text
  pub referrer_host : Text
  pub utm_campaign : Text
  pub is_bot : Bool
  pub route_type : Text
  pub status_code : ℕ

-- `breakdown` gives the points under a key of the map `breakdowns`, none where it is absent.
pub record Report : Type 0 where
  pub subject : Subject
  pub from : Text
  pub to : Text
  pub timezone : Text
  pub detail_retained_days : ℕ
  pub summary : Summary
  pub daily : List Point
  pub breakdown : Text → List Point
  pub top_links : List RankedLink
  pub recent_events : List SafeEvent
