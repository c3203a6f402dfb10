-- ===== src/Report/Safety.antt =====
-- The panels of a report against the panels with every text of the report blank.
pub mod Blank
pub mod Lines
pub mod Charts
pub mod Panels
use shortq.Prelude.{
  ℕ, zero, suc, ◌+◌, ◌-◌, ◌/◌, ◌==◌, ◌||◌, ◌∙◌, List, [], ◌∷◌, ◌++◌, ◌≡◌, refl, ap, sym, String,
  Text, codes, Bool, true, false, map, take, drop, length, is_empty, if◌then◌else◌, arith, all,
  all-append, ltb, leb, text_eq, Bool-cases, inl, inr, Option, none, some,
}
use shortq.State.Platform.{Numbers, Double}
use shortq.State.ReportData.{Point, Report, RankedLink, SafeEvent}
use shortq.Html.{Piece, lit, escaped, shown}
use shortq.Html.Markup.{content, is_safe, is_placed, shape, mode_of, mode_after, markup}
use shortq.Views.{rows}
use shortq.Views.Safety.{
  IsSafe, IsSafe-append, Confined, IsSafe-Confined, rows-IsSafe, panel-Confined,
}
use shortq.Views.Safety.Panels.{literal-Confined}
use shortq.Report.Lines.{
  Coord, coords, chart_coords, corner, polyline, circle, anchor, day_label, labelled, axes,
  line_chart, line_chart_card,
}
use shortq.Report.Charts.{
  count_text, report_number, data_row, chart_data_table, chart_card, max_clicks, bar, bar_chart,
  bar_chart_card, composition, share_of, shares_chart, composition_chart_card, clicks_of,
  report_card,
}
use shortq.Report.Render.{
  is_link, summary_cards, summary_html, breakdown_card, bar_charts, charts_html, top_link_row,
  top_links_html, event_row, events_html, no_report_events,
}
use shortq.Report.Safety.Blank.{
  blank_point, blank_coord, blank_ranked, blank_event, blank_report, chart_coords-blank,
  labelled-blank, max_clicks-blank, clicks_of-blank, human_counted, bot_counted, take-blank,
  is_empty-blank, length-blank,
}

-- The texts that the browser gives to numbers hold neither `<` nor `"`.
pub record PlainNumbers (n : Numbers) : Type 0 where
  pub to_text : (x : Double) → is_safe (n.to_text x) ≡ true
  pub to_fixed : (d : ℕ) (x : Double) → is_safe (n.to_fixed d x) ≡ true
  pub to_locale : (d : ℕ) (x : Double) → is_safe (n.to_locale d x) ≡ true

-- Two templates that are both safe, with the same markup.
record Twins (ps qs : List Piece) : Type 0 where
  left : IsSafe ps qs
  right : IsSafe qs qs

Twins-append : (ps qs vs ws : List Piece) → Twins ps vs → Twins qs ws → Twins (ps ++ qs) (vs ++ ws)
Twins-append ps qs vs ws s t = record {
  left = IsSafe-append ps qs vs ws s.left s.right.ends t.left;
  right = IsSafe-append vs ws vs ws s.right s.right.ends t.right;
}

diagonal : (ps : List Piece) → IsSafe ps ps → Twins ps ps
diagonal ps s = record { left = s; right = s }

Twins-rows {ℓ} :
    {A : Type ℓ} (row : A → List Piece) (blank : A → A)
    → ((x : A) → IsSafe (row x) (row (blank x)))
    → (xs : List A) → Twins (rows row xs) (rows row (map blank xs))
Twins-rows row blank each xs = record {
  left = rows-IsSafe row blank each xs;
  right = self (rows row (map blank xs)) (rows-IsSafe row blank each (map blank xs));
}
  where
    self : (ps : List Piece) {qs : List Piece} → IsSafe ps qs → IsSafe ps ps
    self ps s = record { placed = s.placed; ends = s.ends; same = refl }

Twins-Confined : (ps qs : List Piece) → Twins ps qs → Confined ps qs
Twins-Confined ps qs t = IsSafe-Confined ps qs t.left t.right

Twins-if :
    (b : Bool) (ps qs vs ws : List Piece)
    → Twins ps vs
    → Twins qs ws
    → Twins (if b then ps else qs) (if b then vs else ws)
Twins-if true ps qs vs ws s t = s
Twins-if false ps qs vs ws s t = t

closing :
    (s : String)
    → is_placed content (lit s ∷ []) ≡ true
    → mode_of content (lit s ∷ []) ≡ content
    → Twins (lit s ∷ []) (lit s ∷ [])
closing s p e = diagonal (lit s ∷ []) (record { placed = p; ends = e; same = refl })

abbrev card_head : String → String → List Piece
card_head title subtitle =
    lit "<section class=\"card chart-card\"><h3>"
    ∷ escaped (codes title)
    ∷ lit "</h3><p class=\"muted\">"
    ∷ escaped (codes subtitle)
    ∷ lit "</p>"
    ∷ []

chart_card-Twins :
    (title subtitle : String) (ps qs : List Piece)
    → Twins ps qs
    → Twins (chart_card title subtitle ps) (chart_card title subtitle qs)
unfolding chart_card is_placed mode_of shape mode_after markup
chart_card-Twins title subtitle ps qs t =
    Twins-append (card_head title subtitle) (ps ++ (lit "</section>" ∷ []))
      (card_head title subtitle) (qs ++ (lit "</section>" ∷ []))
      (diagonal (card_head title subtitle) (record { placed = refl; ends = refl; same = refl }))
      (Twins-append ps (lit "</section>" ∷ []) qs (lit "</section>" ∷ []) t
        (closing "</section>" refl refl))

module _ (n : Numbers) (plain : PlainNumbers n) where
  count_safe : (k : ℕ) → is_safe (count_text n k) ≡ true
  unfolding count_text report_number
  count_safe k = plain.to_locale 0 (n.of_nat k)

  number_safe : (d : ℕ) (x : Double) → is_safe (report_number n d x) ≡ true
  unfolding report_number
  number_safe d x = plain.to_locale d x

  data_row-IsSafe : (p : Point) → IsSafe (data_row n p) (data_row n (blank_point p))
  unfolding data_row is_placed mode_of shape mode_after markup blank_point
  data_row-IsSafe p = record { placed = rw (count_safe p.clicks); ends = refl; same = refl }

  abbrev table_head : List Piece
  table_head =
      lit
        "<details class=\"chart-data\"><summary>View data</summary><table><thead><tr><th>Label</th><th>Clicks</th></tr></thead><tbody>"
      ∷ []

  abbrev table_tail : List Piece
  table_tail = lit "</tbody></table></details>" ∷ []

  table-Twins :
      (ps : List Point) → Twins (chart_data_table n ps) (chart_data_table n (map blank_point ps))
  unfolding chart_data_table is_placed mode_of mode_after
  table-Twins ps =
      Twins-append table_head (rows (data_row n) ps ++ table_tail) table_head
        (rows (data_row n) (map blank_point ps) ++ table_tail) (closing _ refl refl)
        (Twins-append (rows (data_row n) ps) table_tail (rows (data_row n) (map blank_point ps))
          table_tail (Twins-rows (data_row n) blank_point data_row-IsSafe ps) (closing _ refl refl))
