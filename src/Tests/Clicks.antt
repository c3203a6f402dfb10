-- ===== src/Tests/Clicks.antt =====
-- The recording of clicks at concrete inputs.
use shortq.Prelude.{
  ℕ, ◌≡◌, refl, arith, sym, ap, ◌≤◌, [], ◌∷◌, Text, true, false, ◌==◌, if◌then◌else◌, codes,
  text_eq, lower, if-holds, Option, none, some,
}
use shortq.Clicks.Event.{ClickEvent}
use shortq.Queue.Decode.{valid_uuid}
use shortq.Clicks.{
  LinkRow, Tables, sound, lost, Turn, value, error, is_recorded, record_click, record_clicks,
}
use shortq.Clicks.Ledger.{increments, rollup_total, IsBalanced, IsLimited, clicks_of, limit_of}
use shortq.Clicks.Calls.{
  one, many, perform, perform_all, HaveLimits, perform_all-IsBalanced, perform_all-IsLimited,
}
use shortq.Clicks.Again.{AreNamed, record_clicks-again}
use shortq.Clicks.Poison.{AreOthers, poisoned-record_clicks}

-- A visit of a link.
abbrev pub visit : Text → ℕ → ClickEvent
visit id link = record {
  event_id = id;
  link_id = link;
  slug = codes "a";
  ip = [];
  country_code = codes "DE";
  method = codes "GET";
  status_code = 302;
  resolved_url = codes "https://a.example/";
  route_type = codes "default";
  user_agent = [];
  browser = [];
  os = [];
  device = [];
  is_bot = false;
  referrer = [];
  referrer_host = [];
  utm_source = [];
  utm_medium = [];
  utm_campaign = [];
  occurred_at = 1_700_000_000;
  increment = true;
}

abbrev pub open_row : LinkRow
open_row = record { clicks = 0; max_clicks = none; deleted = false }

abbrev pub deleted_row : LinkRow
deleted_row = record { clicks = 0; max_clicks = none; deleted = true }

-- Link 1 is open and all others are deleted.
abbrev pub new_tables : Tables
new_tables = record {
  links = λ id. if id == 1 then some open_row else some deleted_row;
  clicks = [];
  rollups = [];
}

abbrev pub steady : Turn
steady = record { fault = sound; now = 1_700_000_100 }

abbrev pub unsteady : Turn
unsteady = record { fault = lost; now = 1_700_000_100 }

abbrev pub first_id : Text
first_id = codes "0f8fad5b-d9cb-469f-a165-70867728950e"

abbrev second_id : Text
second_id = codes "7c9e6679-7425-40de-944b-e07fc1f90ae7"

new_tables-IsBalanced : IsBalanced new_tables
unfolding increments rollup_total
new_tables-IsBalanced = record {
  exact = λ id row found.
      if-holds (λ (o : Option LinkRow). o ≡ some row → row.clicks ≡ 0) (id == 1)
        (λ same at. sym (ap clicks_of at)) (λ other at. sym (ap clicks_of at)) found;
  rolled_up = refl;
  distinct = tt;
}

-- Link 1 with its limit of two, and one click.
abbrev limited_tables : Tables
limited_tables = record {
  links = λ id. some (record { clicks = 1; max_clicks = some 2; deleted = false });
  clicks = [];
  rollups = [];
}

limited_tables-IsLimited : IsLimited limited_tables
limited_tables-IsLimited id row m at limit =
    within row.clicks row.max_clicks m (sym (ap clicks_of at)) (sym (ap limit_of at)) limit
  where
    within : (n : ℕ) (o : Option ℕ) (m : ℕ) → n ≡ 1 → o ≡ some 2 → o ≡ some m → n ≤ m
    within n o m single two limit = let same : m ≡ 2 = cc in omega (arith, single, same)

perform_all-IsLimited_example : IsLimited (
    perform_all
      (one steady (visit first_id 1) true (some 2)
        ∷ one steady (visit second_id 1) true (some 2)
        ∷ [])
      limited_tables)
unfolding HaveLimits perform record_click text_eq lower valid_uuid
perform_all-IsLimited_example =
    perform_all-IsLimited
      (one steady (visit first_id 1) true (some 2)
        ∷ one steady (visit second_id 1) true (some 2)
        ∷ [])
      limited_tables (refl, (refl, tt)) limited_tables-IsLimited

perform_all-IsBalanced_example : IsBalanced (
    perform_all
      (one unsteady (visit first_id 1) true none
        ∷ many steady (visit first_id 1 ∷ visit second_id 1 ∷ [])
        ∷ many steady (visit second_id 2 ∷ [])
        ∷ [])
      new_tables)
perform_all-IsBalanced_example =
    perform_all-IsBalanced
      (one unsteady (visit first_id 1) true none
        ∷ many steady (visit first_id 1 ∷ visit second_id 1 ∷ [])
        ∷ many steady (visit second_id 2 ∷ [])
        ∷ [])
      new_tables new_tables-IsBalanced

-- The link counts both events once.
two_clicks :
    clicks_of (
      (perform_all
          (one unsteady (visit first_id 1) true none
            ∷ many steady (visit first_id 1 ∷ visit second_id 1 ∷ [])
            ∷ [])
          new_tables).links
        1)
    ≡ 2
unfolding perform_all text_eq lower valid_uuid
two_clicks = refl

written_tables : Tables
unfolding record_clicks
written_tables = (record_clicks steady (visit first_id 1 ∷ []) new_tables).1

record_clicks-again_example :
    ((record_clicks unsteady (visit first_id 1 ∷ []) written_tables).1 ≡ written_tables)
    × (record_clicks steady (visit first_id 1 ∷ []) written_tables ≡ (value 0, written_tables))
unfolding written_tables AreNamed valid_uuid
record_clicks-again_example =
    record_clicks-again steady unsteady (visit first_id 1 ∷ []) 1 new_tables written_tables
      (refl, tt) refl

poisoned-record_clicks_example :
    record_clicks steady (visit first_id 1 ∷ visit second_id 2 ∷ []) new_tables
    ≡ (error, new_tables)
unfolding AreOthers is_recorded text_eq lower
poisoned-record_clicks_example =
    poisoned-record_clicks steady (visit first_id 1 ∷ []) (visit second_id 2) [] new_tables
      (refl, tt) (refl, refl, refl)
