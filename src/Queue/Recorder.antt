-- ===== src/Queue/Recorder.antt =====
-- internal/clickqueue/clickqueue.go, `Recorder` and `MarshalEvent`, on the store of internal/store.
use shortq.Prelude.{ℕ, List, [], ◌∷◌, ◌++◌, Text, Bool, true, Option, none, some}
use shortq.Clicks.Event.{ClickEvent}
use shortq.Clicks.{Tables, Turn, Returned, value, record_click}
use shortq.Queue.Decode.{EventPayload, decode_event}

-- What becomes of a call of `Publish`: the broker confirms the message, it is not taken, or it is
-- taken but the confirmation does not come.
pub data Publishing : Type 0 where
  confirmed refused unconfirmed : Publishing

-- The tables and the queue.
pub record Shared : Type 0 where
  pub tables : Tables
  pub queue : List EventPayload

-- The payload of `MarshalEvent`, without its spelling in JSON; `scrub` is `scrubURL`, which calls
-- net/url.
unfoldable pub marshal_event : (Text → Text) → ClickEvent → EventPayload
marshal_event scrub event = record {
  version = 1;
  event_id = event.event_id;
  occurred_at = event.occurred_at;
  link_id = event.link_id;
  slug = event.slug;
  ip = event.ip;
  country_code = event.country_code;
  method = event.method;
  status_code = event.status_code;
  resolved_url = scrub event.resolved_url;
  route_type = event.route_type;
  user_agent = event.user_agent;
  browser = event.browser;
  os = event.os;
  device = event.device;
  is_bot = event.is_bot;
  referrer = scrub event.referrer;
  referrer_host = event.referrer_host;
  utm_source = event.utm_source;
  utm_medium = event.utm_medium;
  utm_campaign = event.utm_campaign;
  increment = event.increment;
}

-- The event that the worker finds in a payload of `MarshalEvent`.
abbrev pub scrubbed : (Text → Text) → ClickEvent → ClickEvent
scrubbed scrub e = record e { resolved_url = scrub e.resolved_url; referrer = scrub e.referrer }

-- A call of the store, with the queue beside it.
abbrev pub store_click : Turn → ClickEvent → Bool → Option ℕ → Shared → Returned Bool × Shared
store_click turn e increment max s =
    let recorded = record_click turn e increment max s.tables in
    (recorded.0, record s { tables = recorded.1 })

abbrev pub enqueue : EventPayload → Shared → Shared
enqueue payload s = record s { queue = s.queue ++ payload ∷ [] }

-- The call of `Publish` and what follows it.
unfoldable pub publish :
    (Text → Text) → Publishing → Turn → ClickEvent → Bool → Shared → Returned Bool × Shared
unfolding marshal_event
publish scrub confirmed turn e increment s = (value true, enqueue (marshal_event scrub e) s)
publish scrub refused turn e increment s = store_click turn e increment none s
publish scrub unconfirmed turn e increment s =
    store_click turn e increment none (enqueue (marshal_event scrub e) s)

-- `Record`; `publisher` is what `Publish` does, if there is a publisher.
unfoldable pub record_event :
    (Text → Text)
    → Option Publishing
    → Turn
    → ClickEvent
    → Bool
    → Option ℕ
    → Shared
    → Returned Bool × Shared
unfolding publish
record_event scrub none turn e increment max s =
    store_click turn (record e { increment = increment }) increment max s
record_event scrub (some outcome) turn e increment (some m) s =
    store_click turn (record e { increment = increment }) increment (some m) s
record_event scrub (some outcome) turn e increment none s =
    publish scrub outcome turn (record e { increment = increment }) increment s

-- The events of the queue that `DecodeEvent` accepts.
unfoldable pub decoded_events : List EventPayload → List ClickEvent
decoded_events [] = []
decoded_events (payload ∷ rest) = elim (decode_event (some payload)) [
  | none ↦ decoded_events rest
  | some e ↦ e ∷ decoded_events rest
]
