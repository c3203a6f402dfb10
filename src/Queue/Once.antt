-- ===== src/Queue/Once.antt =====
-- A click from the recorder through the queue to the counter of its link.
use shortq.Prelude.{
  ℕ, ◌≡◌, refl, sym, ap, ◌∙◌, List, [], ◌∷◌, Text, Bool, true, false, not, is_empty, Option, none,
  some,
}
use mathlib.Core.Path.{subst}
use shortq.Clicks.Event.{ClickEvent}
use shortq.Clicks.{
  LinkRow, Tables, sound, Turn, Returned, value, is_id, is_recorded, count_click, record_click,
  record_clicks,
}
use shortq.Clicks.Again.{AreStored, stored_batch, after_count}
use shortq.Clicks.Single.{clicked, record_click-counts, record_clicks-counts, count_click-links}
use shortq.Queue.Decode.{EventPayload, is_valid, decode_event}
use shortq.Queue.Names.{named_payload, taken_payload}
use shortq.Queue.Recorder.{
  Publishing, confirmed, refused, unconfirmed, Shared, marshal_event, scrubbed, record_event,
  publish, decoded_events,
}

-- What the worker decodes from a payload of `MarshalEvent` that passes its tests is the event, but
-- for the two addresses, which are scrubbed.
pub decode_event-marshal_event :
    (scrub : Text → Text) (e : ClickEvent)
    → is_valid (marshal_event scrub e) ≡ true
    → decode_event (some (marshal_event scrub e)) ≡ some (scrubbed scrub e)
unfolding decode_event marshal_event
decode_event-marshal_event scrub e passed = rw passed refl

decoded_one :
    (scrub : Text → Text) (e : ClickEvent)
    → is_valid (marshal_event scrub e) ≡ true
    → decoded_events (marshal_event scrub e ∷ []) ≡ scrubbed scrub e ∷ []
unfolding decoded_events
decoded_one scrub e passed =
    ap (λ o. elim o [ none ↦ [] | some x ↦ x ∷ [] ]) (decode_event-marshal_event scrub e passed)

-- The recorder succeeds, and when the queue has been written the link counts one click more.
unfoldable pub CountsOnce : Turn → ℕ → LinkRow → Returned Bool × Shared → Type 0
CountsOnce later id row r =
    (r.0 ≡ value true)
    × ((record_clicks later (decoded_events r.1.queue) r.1.tables).1.links id ≡ some (clicked row))

module _ (scrub : Text → Text) (turn later : Turn) (e : ClickEvent) (row : LinkRow) (t : Tables)
    (passed : is_valid (marshal_event scrub e) ≡ true) (counts : e.increment ≡ true)
    (fresh : is_recorded e.event_id t.clicks ≡ false) (found : t.links e.link_id ≡ some row)
    (alive : row.deleted ≡ false) (unlimited : row.max_clicks ≡ none) (steady : turn.fault ≡ sound)
    (steady_later : later.fault ≡ sound) where
  abbrev after_click : Tables
  after_click = count_click turn e row t

  good : is_id e.event_id ≡ true
  unfolding marshal_event
  good = taken_payload (marshal_event scrub e) passed

  -- The click is in the tables, and the queue holds nothing else.
  abbrev Holds : Returned Bool × Tables → List EventPayload → Type 0
  Holds r queue = CountsOnce later e.link_id row (r.0, record { tables = r.1; queue = queue })

  abbrev alone : Shared
  alone = record { tables = t; queue = [] }

  directly : Holds (value true, after_click) []
  unfolding CountsOnce record_clicks decoded_events
  directly = (refl, count_click-links turn e row t fresh found alive steady good)

  twice : Holds (value true, after_click) (marshal_event scrub e ∷ [])
  unfolding CountsOnce AreStored marshal_event
  twice =
      let named : not (is_empty e.event_id) ≡ true = named_payload (marshal_event scrub e) passed in
      let stored : AreStored (scrubbed scrub e ∷ []) after_click =
        (((after_count turn e t named row).1, good), tt) in
      (
        refl,
        ap (λ es. (record_clicks later es after_click).1.links e.link_id)
              (decoded_one scrub e passed)
            ∙ ap (λ t'. t'.links e.link_id)
                ((stored_batch later (scrubbed scrub e ∷ []) after_click stored).0)
            ∙ count_click-links turn e row t fresh found alive steady good,
      )

  queued : Holds (value true, t) (marshal_event scrub e ∷ [])
  unfolding CountsOnce
  queued = (
    refl,
    ap (λ es. (record_clicks later es t).1.links e.link_id) (decoded_one scrub e passed)
        ∙ ap (λ r. r.1.links e.link_id)
            (record_clicks-counts later (scrubbed scrub e) row t fresh found alive steady_later good
              counts unlimited)
        ∙ count_click-links later (scrubbed scrub e) row t fresh found alive steady_later good,
  )

  stored_first :
      (queue : List EventPayload)
      → Holds (value true, after_click) queue
      → Holds (record_click turn e true none t) queue
  stored_first queue held =
      subst (λ r. Holds r queue)
        (ap (λ b. (value true, count_click turn (record e { increment = b }) row t)) counts
          ∙ sym (record_click-counts turn e row t fresh found alive steady good))
        held

  published :
      (outcome : Publishing)
      → CountsOnce later e.link_id row (publish scrub outcome turn e true alone)
  unfolding publish
  published confirmed = queued
  published refused = stored_first [] directly
  published unconfirmed = stored_first (marshal_event scrub e ∷ []) twice

-- A new click on a link that is not deleted and has no limit is counted once: the recorder returns
-- true, and when the worker has written what is in the queue, the link's counter is one higher,
-- whether there is no publisher, or it confirms, refuses or loses the confirmation. The event passes
-- `DecodeEvent`, the queue was empty and the database is sound.
pub record_event-CountsOnce :
    (scrub : Text → Text) (publisher : Option Publishing) (turn later : Turn) (e : ClickEvent)
    (row : LinkRow) (t : Tables)
    → is_valid (marshal_event scrub (record e { increment = true })) ≡ true
    → is_recorded e.event_id t.clicks ≡ false
    → t.links e.link_id ≡ some row
    → row.deleted ≡ false
    → row.max_clicks ≡ none
    → turn.fault ≡ sound
    → later.fault ≡ sound
    → CountsOnce later e.link_id row
        (record_event scrub publisher turn e true none (record { tables = t; queue = [] }))
unfolding record_event
record_event-CountsOnce scrub none turn later e row t passed fresh found alive unlimited steady
      steady_later =
    stored_first scrub turn later (record e { increment = true }) row t passed refl fresh found
      alive unlimited steady steady_later []
      (directly scrub turn later (record e { increment = true }) row t passed refl fresh found alive
        unlimited steady steady_later)
record_event-CountsOnce scrub (some outcome) turn later e row t passed fresh found alive unlimited
      steady steady_later =
    published scrub turn later (record e { increment = true }) row t passed refl fresh found alive
      unlimited steady steady_later outcome
