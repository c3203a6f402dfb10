-- ===== src/Report/Safety/Panels.antt =====
-- The other panels of a report, with blank texts and without: its cards, top links and events.
use shortq.Prelude.{
  List, [], ◌∷◌, ◌≡◌, refl, ap, Text, codes, Bool, true, false, map, text_eq, Bool-cases, inl, inr,
  all,
}
use shortq.State.Platform.{Numbers}
use shortq.State.ReportData.{Report, Summary, RankedLink, SafeEvent}
use shortq.Html.Markup.{is_placed, shape, mode_of, mode_after, markup}
use shortq.Views.{rows}
use shortq.Views.Safety.{IsSafe, Confined, panel-Confined}
use shortq.Views.Safety.Panels.{literal-Confined}
use shortq.Report.Charts.{report_card}
use shortq.Report.Render.{
  is_link, summary_cards, summary_html, top_link_row, top_links_html, event_row, events_html,
  no_report_events,
}
use shortq.Report.Safety.{
  PlainNumbers, Twins, Twins-append, diagonal, Twins-rows, Twins-Confined, count_safe,
}
use shortq.Report.Safety.Blank.{blank_ranked, blank_event, blank_report}

-- A card's markup is that of every card.
report_card-Twins : (c d : Text × Text × Text) → Twins (report_card c) (report_card d)
unfolding report_card is_placed mode_of shape mode_after markup
report_card-Twins c d = record {
  left = record { placed = refl; ends = refl; same = refl };
  right = record { placed = refl; ends = refl; same = refl };
}

-- Two lists of cards of one length.
abbrev Alike : List (Text × Text × Text) → List (Text × Text × Text) → Type 0
Alike [] [] = Unit
Alike (c ∷ cs) (d ∷ ds) = Alike cs ds
Alike _ _ = ⊥

cards-Twins :
    (cs ds : List (Text × Text × Text))
    → Alike cs ds
    → Twins (rows report_card cs) (rows report_card ds)
unfolding rows is_placed mode_of shape
cards-Twins [] [] a = diagonal [] (record { placed = refl; ends = refl; same = refl })
cards-Twins [] (d ∷ ds) a = elim a [ ]
cards-Twins (c ∷ cs) [] a = elim a [ ]
cards-Twins (c ∷ cs) (d ∷ ds) a =
    Twins-append (report_card c) (rows report_card cs) (report_card d) (rows report_card ds)
      (report_card-Twins c d) (cards-Twins cs ds a)

summary_cards-Alike :
    (n : Numbers) (of_link : Bool) (s t : Summary)
    → Alike (summary_cards n of_link s) (summary_cards n of_link t)
unfolding summary_cards
summary_cards-Alike n true s t = tt
summary_cards-Alike n false s t = tt

is_link-blank : (r : Report) → is_link (blank_report r).subject ≡ is_link r.subject
unfolding blank_report text_eq
is_link-blank r = elim (Bool-cases (text_eq r.subject.type (codes "link"))) [
  | inl link ↦ rw link
  | inr other ↦ rw other
]

summary-blank :
    (n : Numbers) (r : Report)
    → summary_html n (blank_report r)
      ≡ rows report_card (summary_cards n (is_link r.subject) (blank_report r).summary)
unfolding summary_html
summary-blank n r =
    ap (λ b. rows report_card (summary_cards n b (blank_report r).summary)) (is_link-blank r)

summary-Twins :
    (n : Numbers) (r : Report) → Twins (summary_html n r) (summary_html n (blank_report r))
summary-Twins n r = rw (summary-blank n r) (
    unfold summary_html in
    cards-Twins (summary_cards n (is_link r.subject) r.summary)
      (summary_cards n (is_link r.subject) (blank_report r).summary)
      (summary_cards-Alike n (is_link r.subject) r.summary (blank_report r).summary))

event_row-IsSafe :
    (locale : Text → Text) (x : SafeEvent)
    → IsSafe (event_row locale x) (event_row locale (blank_event x))
unfolding event_row is_placed mode_of shape mode_after markup blank_event all
event_row-IsSafe locale x = elim (Bool-cases x.is_bot) [
  | inl bot ↦ record { placed = rw bot; ends = refl; same = refl }
  | inr person ↦ record { placed = rw person; ends = refl; same = refl }
]

module _ (n : Numbers) (plain : PlainNumbers n) where
  top_link_row-IsSafe :
      (x : RankedLink) → IsSafe (top_link_row n x) (top_link_row n (blank_ranked x))
  unfolding top_link_row is_placed mode_of shape mode_after markup blank_ranked
  top_link_row-IsSafe x = record {
    placed = rw (count_safe n plain x.period_clicks, count_safe n plain x.all_time_clicks);
    ends = refl;
    same = refl;
  }

  -- The cards, the top links and the events of a report are confined, for every date format,
  -- where the texts that the browser gives to numbers hold neither `<` nor `"`.
  pub report_panels-Confined :
      (locale : Text → Text) (r : Report)
      → Confined (summary_html n r) (summary_html n (blank_report r))
        × Confined (top_links_html n r.top_links) (top_links_html n (map blank_ranked r.top_links))
        × Confined
            (events_html locale r.recent_events)
            (events_html locale (map blank_event r.recent_events))
  unfolding top_links_html events_html event_row is_placed mode_of mode_after
  report_panels-Confined locale r = (
    Twins-Confined (summary_html n r) (summary_html n (blank_report r)) (summary-Twins n r),
    Twins-Confined (rows (top_link_row n) r.top_links)
        (rows (top_link_row n) (map blank_ranked r.top_links))
        (Twins-rows (top_link_row n) blank_ranked top_link_row-IsSafe r.top_links),
    panel-Confined (event_row locale) blank_event (event_row-IsSafe locale) (λ x. refl)
        no_report_events (literal-Confined no_report_events refl refl) r.recent_events,
  )
