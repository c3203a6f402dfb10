-- ===== src/Queue/Decode.antt =====
-- internal/clickqueue/worker.go, `DecodeEvent` with what it calls. A Go string is the list of its
-- runes, and an integer is the pattern of its 64 bits.
use shortq.Prelude.{
  ℕ, zero, suc, [], ◌∷◌, Text, Bool, true, false, not, ◌&&◌, ◌||◌, ◌==◌, ltb, leb, if◌then◌else◌,
  length, Option, none, some,
}
use shortq.Clicks.Event.{ClickEvent}

-- `EventPayload` of internal/clickqueue/clickqueue.go.
pub record EventPayload : Type 0 where
  pub version : ℕ
  pub event_id : Text
  pub occurred_at : ℕ
  pub link_id : ℕ
  pub slug : Text
  pub ip : Text
  pub country_code : Text
  pub method : Text
  pub status_code : ℕ
  pub resolved_url : Text
  pub route_type : Text
  pub user_agent : Text
  pub browser : Text
  pub os : Text
  pub device : Text
  pub is_bot : Bool
  pub referrer : Text
  pub referrer_host : Text
  pub utm_source : Text
  pub utm_medium : Text
  pub utm_campaign : Text
  pub increment : Bool

-- `unicode.IsSpace`
abbrev is_white : ℕ → Bool
is_white c =
    (leb 9 c && leb c 13)
    || c == 32
    || c == 133
    || c == 160
    || c == 5760
    || (leb 8192 c && leb c 8202)
    || c == 8232
    || c == 8233
    || c == 8239
    || c == 8287
    || c == 12_288

-- `strings.TrimSpace(s) == ""`
unfoldable pub is_blank : Text → Bool
is_blank [] = true
is_blank (c ∷ s) = is_white c && is_blank s

abbrev dash : ℕ
dash = 45

-- `strings.ReplaceAll(value, "-", "")`
unfoldable pub without_dashes : Text → Text
without_dashes [] = []
without_dashes (c ∷ s) = let rest = without_dashes s in if c == dash then rest else c ∷ rest

abbrev is_hex : ℕ → Bool
is_hex c = (leb 48 c && leb c 57) || (leb 97 c && leb c 102) || (leb 65 c && leb c 70)

unfoldable pub all_hex : Text → Bool
all_hex [] = true
all_hex (c ∷ s) = is_hex c && all_hex s

-- `value[n] == '-'`, where the value is long enough.
unfoldable pub dash_at : ℕ → Text → Bool
dash_at n [] = false
dash_at zero (c ∷ s) = c == dash
dash_at (suc n) (c ∷ s) = dash_at n s

-- `validUUID`. A rune outside ASCII is no digit, so that runes may be counted for bytes.
unfoldable pub valid_uuid : Text → Bool
unfolding without_dashes all_hex dash_at
valid_uuid value =
    length value == 36
    && length (without_dashes value) == 32
    && dash_at 8 value
    && dash_at 13 value
    && dash_at 18 value
    && dash_at 23 value
    && all_hex (without_dashes value)

abbrev pub two_to_63 : ℕ
two_to_63 = 9_223_372_036_854_775_808

-- Whether an `int64` is positive.
abbrev pub is_positive : ℕ → Bool
is_positive n = ltb 0 n && ltb n (two_to_63)

abbrev event_of : EventPayload → ClickEvent
event_of payload = record {
  event_id = payload.event_id;
  occurred_at = payload.occurred_at;
  link_id = payload.link_id;
  slug = payload.slug;
  ip = payload.ip;
  country_code = payload.country_code;
  method = payload.method;
  status_code = payload.status_code;
  resolved_url = payload.resolved_url;
  route_type = payload.route_type;
  user_agent = payload.user_agent;
  browser = payload.browser;
  os = payload.os;
  device = payload.device;
  is_bot = payload.is_bot;
  referrer = payload.referrer;
  referrer_host = payload.referrer_host;
  utm_source = payload.utm_source;
  utm_medium = payload.utm_medium;
  utm_campaign = payload.utm_campaign;
  increment = payload.increment;
}

-- The tests of `DecodeEvent`, on a payload that was parsed.
unfoldable pub is_valid : EventPayload → Bool
unfolding valid_uuid is_blank
is_valid payload =
    payload.version == 1
    && valid_uuid payload.event_id
    && not (payload.occurred_at == 0)
    && is_positive payload.link_id
    && not (is_blank payload.slug || is_blank payload.method || is_blank payload.route_type)
    && leb 100 payload.status_code
    && leb payload.status_code 599

-- `DecodeEvent`: `parsed` is what the JSON decoder makes of the whole body, if it accepts it, with
-- unknown fields and further values refused.
unfoldable pub decode_event : Option EventPayload → Option ClickEvent
unfolding is_valid
decode_event none = none
decode_event (some payload) = if is_valid payload then some (event_of payload) else none
