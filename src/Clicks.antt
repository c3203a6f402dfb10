-- ===== src/Clicks.antt =====
-- internal/store/store.go, the tables that a click touches, and `RecordClick` and `RecordClicks`,
-- which write to them in one transaction. The tables are given by what the queries read: a link by
-- its id, the rows of `clicks` from the last, the rollups by their key.
pub mod Event
pub mod Ledger
pub mod Keeps
pub mod Calls
pub mod Again
pub mod Count
pub mod Poison
pub mod Single
use shortq.Prelude.{
  ℕ, suc, ◌+◌, ◌/◌, List, [], ◌∷◌, Text, Bool, true, false, not, ◌&&◌, ◌||◌, ◌==◌, ltb,
  if◌then◌else◌, is_empty, map, lower, text_eq, Option, none, some,
}
use shortq.Clicks.Event.{ClickEvent}
use shortq.Queue.Decode.{valid_uuid}

-- The columns of `links` that a click reads or changes.
pub record LinkRow : Type 0 where
  pub clicks : ℕ
  pub max_clicks : Option ℕ
  pub deleted : Bool

-- The key of `click_rollups_daily`.
pub record RollupKey : Type 0 where
  pub day : ℕ
  pub link_id : ℕ
  pub country_code : Text
  pub device : Text
  pub browser : Text
  pub referrer_host : Text
  pub utm_campaign : Text
  pub route_type : Text
  pub status_code : ℕ

pub record Tables : Type 0 where
  pub links : ℕ → Option LinkRow
  pub clicks : List ClickEvent
  pub rollups : List (RollupKey × ℕ)

-- How the database takes a transaction: as it should; it fails and leaves nothing behind; or it
-- commits but the answer is lost.
pub data Fault : Type 0 where
  sound fails lost : Fault

-- What a call finds: the database's behaviour and `time.Now()`, in seconds.
pub record Turn : Type 0 where
  pub fault : Fault
  pub now : ℕ

-- The value and the error of a Go function: one of the two.
pub data Returned {ℓ} (A : Type ℓ) : Type ℓ where
  value : A → Returned A
  error : Returned A

-- Two ids of events in the column's type UUID, in which the case of letters does not matter.
abbrev pub same_id : Text → Text → Bool
same_id a b = text_eq (map lower a) (map lower b)

-- Whether a row has the id of an event; the empty id is NULL, which is like no other.
unfoldable pub is_recorded : Text → List ClickEvent → Bool
is_recorded id [] = false
is_recorded id (e ∷ es) = (not (is_empty id) && same_id e.event_id id) || is_recorded id es

-- Whether the column takes the id of an event: none, which is NULL, or a UUID in the form in which
-- `newEventID` writes it, the only one that occurs. Any other text is an error of the `INSERT`.
abbrev pub is_id : Text → Bool
is_id id = is_empty id || valid_uuid id

-- An event without a time gets the current one.
abbrev pub dated : Turn → ClickEvent → ClickEvent
dated turn e = record e { occurred_at = if e.occurred_at == 0 then turn.now else e.occurred_at }

-- The row that `INSERT INTO clicks … ON CONFLICT DO NOTHING` adds when no row has the event's id.
abbrev insert_row : Turn → ClickEvent → Tables → Tables
insert_row turn e t = record t { clicks = dated turn e ∷ t.clicks }

abbrev set_link : ℕ → LinkRow → Tables → Tables
set_link id row t = record t { links = λ j. if j == id then some row else t.links j }

-- `clicks < ?`, where a limit is given.
abbrev pub is_below : Option ℕ → ℕ → Bool
is_below none n = true
is_below (some m) n = ltb n m

abbrev key_of : ClickEvent → RollupKey
key_of e = record {
  day = e.occurred_at / 86_400;
  link_id = e.link_id;
  country_code = e.country_code;
  device = e.device;
  browser = e.browser;
  referrer_host = e.referrer_host;
  utm_campaign = e.utm_campaign;
  route_type = e.route_type;
  status_code = e.status_code;
}

abbrev same_key : RollupKey → RollupKey → Bool
same_key a b =
    a.day == b.day
    && a.link_id == b.link_id
    && text_eq a.country_code b.country_code
    && text_eq a.device b.device
    && text_eq a.browser b.browser
    && text_eq a.referrer_host b.referrer_host
    && text_eq a.utm_campaign b.utm_campaign
    && text_eq a.route_type b.route_type
    && a.status_code == b.status_code

-- `ON CONFLICT … DO UPDATE SET clicks = click_rollups_daily.clicks + 1`
unfoldable pub add_rollup : RollupKey → List (RollupKey × ℕ) → List (RollupKey × ℕ)
add_rollup key [] = (key, 1) ∷ []
add_rollup key ((k, n) ∷ rs) =
    let rest = add_rollup key rs in if same_key k key then (k, suc n) ∷ rs else (k, n) ∷ rest

-- `incrementClickRollup`
abbrev pub increment_click_rollup : Turn → ClickEvent → Tables → Tables
increment_click_rollup turn e t = record t {
  rollups = add_rollup (key_of (dated turn e)) t.rollups;
}

-- The whole effect of a click that is recorded: the row, the counter of the link, the rollup.
unfoldable pub count_click : Turn → ClickEvent → LinkRow → Tables → Tables
unfolding add_rollup
count_click turn e row t =
    increment_click_rollup turn e
      (set_link e.link_id (record row { clicks = suc row.clicks }) (insert_row turn e t))

-- A click that is recorded but not counted on the link.
unfoldable pub note_click : Turn → ClickEvent → Tables → Tables
unfolding add_rollup
note_click turn e t = increment_click_rollup turn e (insert_row turn e t)

-- The end of a transaction: what was done, if it took effect, and what the caller is told.
abbrev pub commit {ℓ} : {A : Type ℓ} → Fault → A → Tables → Tables → Returned A × Tables
commit sound a after before = (value a, after)
commit fails a after before = (error, before)
commit lost a after before = (error, after)

-- A `ROLLBACK` that ends a transaction.
abbrev pub roll_back {ℓ} : {A : Type ℓ} → Fault → A → Tables → Returned A × Tables
roll_back sound a before = (value a, before)
roll_back fails a before = (error, before)
roll_back lost a before = (error, before)

-- The body of `RecordClick` for an event of a link that is in the table.
unfoldable pub record_on :
    Turn → ClickEvent → Bool → Option ℕ → LinkRow → Tables → Returned Bool × Tables
unfolding is_recorded count_click note_click
record_on turn e increment max row t =
    if is_recorded e.event_id t.clicks
    then commit turn.fault true t t
    else if not increment
    then commit turn.fault true (note_click turn e t) t
    else if row.deleted || not (is_below max row.clicks)
    then roll_back turn.fault false t
    else commit turn.fault true (count_click turn e row t) t

-- A new row of a link that is not in the table is refused as a foreign key.
unfoldable pub record_if :
    Turn → ClickEvent → Bool → Option ℕ → Option LinkRow → Tables → Returned Bool × Tables
unfolding record_on is_recorded
record_if turn e increment max none t =
    if is_recorded e.event_id t.clicks then commit turn.fault true t t else (error, t)
record_if turn e increment max (some row) t = record_on turn e increment max row t

-- `RecordClick(event, increment, maxClicks)`
unfoldable pub record_click : Turn → ClickEvent → Bool → Option ℕ → Tables → Returned Bool × Tables
unfolding record_if
record_click turn e increment max t =
    if is_id e.event_id
    then record_if turn (record e { increment = increment }) increment max (t.links e.link_id) t
    else (error, t)

-- Whether the link of a row takes a click in a batch: `max_clicks IS NULL AND deleted_at IS NULL`.
abbrev pub takes_batch : LinkRow → Bool
takes_batch row = not row.deleted && (elim row.max_clicks [ none ↦ true | some _ ↦ false ])

-- One event of a batch on a link that is in the table; `none` is an error, which undoes the batch.
unfoldable pub record_in_on : Turn → ClickEvent → LinkRow → ℕ × Tables → Option (ℕ × Tables)
unfolding is_recorded count_click note_click
record_in_on turn e row (n, t) =
    if is_recorded e.event_id t.clicks
    then some (n, t)
    else if not e.increment
    then some (suc n, note_click turn e t)
    else if takes_batch row
    then some (suc n, count_click turn e row t)
    else none

unfoldable pub record_in : Turn → ClickEvent → Option LinkRow → ℕ × Tables → Option (ℕ × Tables)
unfolding record_in_on is_recorded
record_in turn e none acc = if is_recorded e.event_id acc.1.clicks then some acc else none
record_in turn e (some row) acc = record_in_on turn e row acc

-- An id that the column does not take ends the batch in an error.
abbrev pub checked : Text → Option (ℕ × Tables) → Option (ℕ × Tables)
checked id o = if is_id id then o else none

-- The loop of `RecordClicks`, with the number of rows inserted.
unfoldable pub record_all : Turn → List ClickEvent → ℕ × Tables → Option (ℕ × Tables)
unfolding record_in
record_all turn [] acc = some acc
record_all turn (e ∷ es) acc =
    elim (checked e.event_id (record_in turn e (acc.1.links e.link_id) acc)) [
      | none ↦ none
      | some acc' ↦ record_all turn es acc'
    ]

abbrev end_batch : Fault → Option (ℕ × Tables) → Tables → Returned ℕ × Tables
end_batch fault none before = (error, before)
end_batch fault (some (n, after)) before = commit fault n after before

-- `RecordClicks(events)`
unfoldable pub record_clicks : Turn → List ClickEvent → Tables → Returned ℕ × Tables
unfolding record_all
record_clicks turn [] t = (value 0, t)
record_clicks turn (e ∷ es) t = end_batch turn.fault (record_all turn (e ∷ es) (0, t)) t
