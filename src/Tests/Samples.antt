-- ===== src/Tests/Samples.antt =====
-- The values that the tests share.
use shortq.Prelude.{[], ◌∷◌, refl, Text, codes, true, false, none, some, all, value}
use shortq.State.Platform.{Numbers, Calendar}
use shortq.State.{App, Dom, User, Link, link_page, object, response}
use shortq.State.Monad.{Env}
use shortq.Pager.{first_page}
use shortq.Views.Safety.Panels.{PlainDates}

abbrev pub ann : User
ann = record {
  id = 7;
  name = codes "Ann";
  email = codes "ann@alvaauto.com";
  role = codes "superadmin";
  tenant_id = 1;
  active = true;
  deletion_access = false;
  can_delete = true;
  can_switch_mode = true;
  dashboard_mode = codes "admin";
}

-- A title that tries to close its element.
abbrev pub evil_link : Link
evil_link = record {
  id = 5;
  user_id = 7;
  slug = codes "ride";
  short_url = codes "https://s.alvaauto.com/s/ride";
  title = codes "</b><script>\"&";
  target_url = codes "https://alvaauto.com/\" onclick=\"x";
  visibility = codes "department";
  clicks = 12;
  created_at = codes "2026-01-02T03:04:05Z";
  creator_name = codes "<Bob>";
  creator_email = codes "bob@alvaauto.com";
  redirect_code = 307;
  expires_at = [];
  max_clicks = 0;
  expired_url = [];
  ios_url = codes "https://apps.example/ride";
  android_url = [];
  forward_query = true;
  utm_source = codes "mail";
  utm_medium = [];
  utm_campaign = [];
  tags = codes "spring" ∷ codes "test ride" ∷ [];
  geo_targets = record { text = codes "[]" };
}

abbrev pub fixed_date : Text → Text
fixed_date t = codes "1/2/2026, 3:04:05 AM"

pub fixed_date-PlainDates : PlainDates fixed_date
unfolding all
fixed_date-PlainDates t = refl

-- Numbers that are all shown as 7, and a calendar that stands still.
abbrev pub plain_numbers : Numbers
plain_numbers = record {
  of_nat = λ n. record { bits = n };
  of_text = λ t. record { bits = value t };
  add = λ x y. x;
  sub = λ x y. x;
  mul = λ x y. x;
  div = λ x y. x;
  greater = λ x y. x;
  lt = λ x y. false;
  equal = λ x y. false;
  to_text = λ x. codes "7";
  to_fixed = λ d x. codes "7.0";
  to_locale = λ d x. codes "7";
}

abbrev pub january : Calendar
january = record {
  today = 20000;
  year = λ d. 2026;
  month = λ d. 0;
  day = λ d. 30;
  day_of = λ t. some 20000;
  time_zone = codes "Asia/Jakarta";
}

abbrev pub blank_page : Dom
blank_page = record {
  content = λ _. [];
  class_name = λ _. [];
  value = λ _. codes "10";
  fields = λ _. [];
  checks = λ _. [];
  initial_fields = λ _. [];
  initial_checks = λ _. [];
  is_open = λ _. false;
  hidden = λ _. true;
  disabled = λ _. false;
  active = λ _. false;
  view_hidden = λ _. true;
  view_active = λ _. false;
  pane_hidden = λ _. true;
  admin_view_active = λ _. false;
}

abbrev pub signed_in : App
signed_in = record {
  current_user = some ann;
  tenant_cache = [];
  link_cache = [];
  recent_link_cache = [];
  loaded_views = [];
  last_workspace_hash = codes "#home";
  link_pages = first_page;
  user_pages = first_page;
  click_pages = first_page;
  audit_pages = first_page;
  report_state = none;
  hash = codes "#links";
  href = [];
  return_value = [];
  dom = blank_page;
  sent = [];
}

-- A server that answers every request with one page of links.
abbrev pub one_link : Env
one_link = record {
  answer = λ q sent.
      response 200 (codes "application/json") (some (link_page (evil_link ∷ []) 5)) [] (codes "OK");
  locale_date = fixed_date;
  stringify = λ b. [];
  encode = λ q. [];
  numbers = plain_numbers;
  calendar = january;
  iso = some;
  parse_json = λ t. some (record { text = t });
  kept = λ k t. t;
  picked = λ k. true;
  now = codes "0";
}

-- A server that refuses every request.
abbrev pub refusing : Env
refusing = record {
  answer = λ q sent.
      response 403 (codes "application/json") (some (object (codes "forbidden") [])) []
        (codes "Forbidden");
  locale_date = fixed_date;
  stringify = λ b. [];
  encode = λ q. [];
  numbers = plain_numbers;
  calendar = january;
  iso = some;
  parse_json = λ t. some (record { text = t });
  kept = λ k t. t;
  picked = λ k. true;
  now = codes "0";
}
