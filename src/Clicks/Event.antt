-- ===== src/Clicks/Event.antt =====
-- `ClickEvent` of internal/models/models.go, without the row's own id and time.
use shortq.Prelude.{ℕ, Text, Bool}

-- Times are in seconds; 0 is Go's zero time.
pub record ClickEvent : Type 0 where
  pub event_id : Text
  pub link_id : ℕ
  pub slug : Text
  pub ip : Text
  pub country_code : Text
  pub method : Text
  pub status_code : ℕ
  pub resolved_url : Text
  pub route_type : Text
  pub user_agent : Text
  pub browser : Text
  pub os : Text
  pub device : Text
  pub is_bot : Bool
  pub referrer : Text
  pub referrer_host : Text
  pub utm_source : Text
  pub utm_medium : Text
  pub utm_campaign : Text
  pub occurred_at : ℕ
  pub increment : Bool
