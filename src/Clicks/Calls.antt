-- ===== src/Clicks/Calls.antt =====
-- Sequences of `RecordClick` and `RecordClicks`, with whatever the database does to each of them.
use shortq.Prelude.{
  ℕ, ◌≡◌, refl, ap, ◌∙◌, List, [], ◌∷◌, Bool, true, false, not, ◌&&◌, if-holds, Option, none, some,
}
use mathlib.Core.Path.{subst}
use shortq.Clicks.Event.{ClickEvent}
use shortq.Clicks.{
  LinkRow, Tables, Turn, Returned, is_id, is_below, note_click, record_click, record_clicks,
}
use shortq.Clicks.Keeps.{record_if-keeps, record_clicks-keeps}
use shortq.Clicks.Ledger.{
  IsBalanced, IsLimited, limit_of, after_note, after_count, count_click-IsLimited,
}

-- A call of `RecordClick`, with the limit that its caller has, or a delivery batch.
pub data Call : Type 0 where
  one : Turn → ClickEvent → Bool → Option ℕ → Call
  many : Turn → List ClickEvent → Call

unfoldable pub perform : Call → Tables → Tables
unfolding record_click record_clicks
perform (one turn e increment max) t = (record_click turn e increment max t).1
perform (many turn es) t = (record_clicks turn es t).1

unfoldable pub perform_all : List Call → Tables → Tables
unfolding perform
perform_all [] t = t
perform_all (c ∷ cs) t = perform_all cs (perform c t)

no_limit :
    (deleted : Bool) (o : Option ℕ) (n : ℕ)
    → (not deleted && (elim o [ none ↦ true | some _ ↦ false ])) ≡ true
    → is_below o n ≡ true
no_limit deleted none n takes = refl
no_limit true (some m) n takes = cc
no_limit false (some m) n takes = cc

perform-IsBalanced : (c : Call) (t : Tables) → IsBalanced t → IsBalanced (perform c t)
unfolding perform record_click
perform-IsBalanced (one turn e increment max) t old =
    if-holds (λ (r : Returned Bool × Tables). IsBalanced r.1) (is_id e.event_id)
      (λ good.
        record_if-keeps IsBalanced (λ row. Unit {0}) after_note
          (λ turn e t row held fresh found counts room.
            after_count turn e t held fresh row found counts)
          (λ row takes. tt) turn (record e { increment = increment }) max (t.links e.link_id) t refl
          (λ row at below. tt) old)
      (λ bad. old)
perform-IsBalanced (many turn es) t old =
    record_clicks-keeps IsBalanced (λ row. Unit {0}) after_note
      (λ turn e t row held fresh found counts room.
        after_count turn e t held fresh row found counts)
      (λ row takes. tt) turn es t old

-- Each link counts exactly the recorded events that increment it, the rollups add up to the recorded
-- events, and no id is recorded twice. Whatever calls of `RecordClick`, with whatever limits, and of
-- `RecordClicks` are made on tables where this holds, and whatever the database does to each of them,
-- it holds after them.
pub perform_all-IsBalanced :
    (cs : List Call) (t : Tables) → IsBalanced t → IsBalanced (perform_all cs t)
unfolding perform_all
perform_all-IsBalanced [] t old = old
perform_all-IsBalanced (c ∷ cs) t old =
    perform_all-IsBalanced cs (perform c t) (perform-IsBalanced c t old)

-- Each call of `RecordClick` has the limit that the link's row has at that time.
unfoldable pub HaveLimits : List Call → Tables → Type 0
HaveLimits [] t = Unit {0}
HaveLimits (one turn e increment max ∷ cs) t =
    (max ≡ limit_of (t.links e.link_id)) × HaveLimits cs (perform (one turn e increment max) t)
HaveLimits (many turn es ∷ cs) t = HaveLimits cs (perform (many turn es) t)

abbrev HasRoomLeft : LinkRow → Type 0
HasRoomLeft row = is_below row.max_clicks row.clicks ≡ true

one-IsLimited :
    (turn : Turn) (e : ClickEvent) (increment : Bool) (max : Option ℕ) (t : Tables)
    → max ≡ limit_of (t.links e.link_id)
    → IsLimited t
    → IsLimited (perform (one turn e increment max) t)
unfolding perform record_click note_click
one-IsLimited turn e increment max t limit old =
    if-holds (λ (r : Returned Bool × Tables). IsLimited r.1) (is_id e.event_id)
      (λ good.
        record_if-keeps IsLimited HasRoomLeft (λ turn e t held fresh idle. held)
          (λ turn e t row held fresh found counts room.
            count_click-IsLimited turn e t held row room)
          (λ row takes. no_limit row.deleted row.max_clicks row.clicks takes) turn
          (record e { increment = increment }) max (t.links e.link_id) t refl
          (λ row at below. subst (λ o. is_below o row.clicks ≡ true) (limit ∙ ap limit_of at) below)
          old)
      (λ bad. old)

many-IsLimited :
    (turn : Turn) (es : List ClickEvent) (t : Tables)
    → IsLimited t
    → IsLimited (perform (many turn es) t)
unfolding perform note_click
many-IsLimited turn es t old =
    record_clicks-keeps IsLimited HasRoomLeft (λ turn e t held fresh idle. held)
      (λ turn e t row held fresh found counts room. count_click-IsLimited turn e t held row room)
      (λ row takes. no_limit row.deleted row.max_clicks row.clicks takes) turn es t old

-- If no link counts more than its limit, the same holds after any calls of `RecordClicks`, and of
-- `RecordClick` with the limit that the link's row has at that time, whatever the database does.
pub perform_all-IsLimited :
    (cs : List Call) (t : Tables) → HaveLimits cs t → IsLimited t → IsLimited (perform_all cs t)
unfolding perform_all HaveLimits
perform_all-IsLimited [] t limits old = old
perform_all-IsLimited (one turn e increment max ∷ cs) t limits old =
    perform_all-IsLimited cs (perform (one turn e increment max) t) (limits.1)
      (one-IsLimited turn e increment max t (limits.0) old)
perform_all-IsLimited (many turn es ∷ cs) t limits old =
    perform_all-IsLimited cs (perform (many turn es) t) limits (many-IsLimited turn es t old)
