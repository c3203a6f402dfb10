-- ===== src/Report/Safety/Lines.antt =====
-- `lineChartCard` with blank texts and without.
use shortq.Prelude.{
  ℕ, List, [], ◌∷◌, ◌++◌, ◌≡◌, refl, ap, String, Bool, true, false, map, length, if◌then◌else◌,
  arith, all, all-append, ltb,
}
use shortq.State.Platform.{Numbers, Double}
use shortq.State.ReportData.{Point}
use shortq.Html.{Piece, lit}
use shortq.Html.Markup.{is_safe, is_placed, shape, mode_of, mode_after, markup}
use shortq.Views.{rows}
use shortq.Views.Safety.{IsSafe}
use shortq.Report.Lines.{
  Coord, chart_coords, corner, polyline, circle, anchor, day_label, labelled, axes, line_chart,
  line_chart_card,
}
use shortq.Report.Charts.{chart_data_table, chart_card, max_clicks}
use shortq.Report.Safety.Blank.{
  blank_point, blank_coord, chart_coords-blank, labelled-blank, max_clicks-blank, length-blank,
}
use shortq.Report.Safety.{
  PlainNumbers, Twins, Twins-append, Twins-rows, closing, chart_card-Twins, count_safe, table-Twins,
}

module _ (n : Numbers) (plain : PlainNumbers n) where
  corner_safe : (c : Coord) → is_safe (corner n c) ≡ true
  unfolding all
  corner_safe c =
      all-append _ (n.to_fixed 1 c.x) (b',' ∷ n.to_fixed 1 c.y) (plain.to_fixed 1 c.x)
        (rw (plain.to_fixed 1 c.y))

  polyline_safe : (cs : List Coord) → is_safe (polyline n cs) ≡ true
  unfolding polyline all
  polyline_safe [] = refl
  polyline_safe (c ∷ []) = corner_safe c
  polyline_safe (c ∷ d ∷ cs) =
      all-append _ (corner n c) (b' ' ∷ polyline n (d ∷ cs)) (corner_safe c)
        (rw (polyline_safe (d ∷ cs)))

  circle-IsSafe : (c : Coord) → IsSafe (circle n c) (circle n (blank_coord c))
  unfolding circle is_placed mode_of shape mode_after markup blank_coord
  circle-IsSafe c = record {
    placed = rw (plain.to_text c.x, plain.to_text c.y, count_safe n plain c.clicks);
    ends = refl;
    same = refl;
  }

  anchor_safe : (x : Double) → is_safe (anchor n x) ≡ true
  unfolding anchor all
  anchor_safe x = ground arith

  day_label-IsSafe : (c : Coord) → IsSafe (day_label n c) (day_label n (blank_coord c))
  unfolding day_label is_placed mode_of shape mode_after markup blank_coord
  day_label-IsSafe c = record {
    placed = rw (plain.to_text c.x, anchor_safe c.x);
    ends = refl;
    same = refl;
  }

  axes-IsSafe :
      (title : String) (most : ℕ) (cs ds : List Coord)
      → IsSafe (axes n title most cs) (axes n title most ds)
  unfolding axes is_placed mode_of shape mode_after markup
  axes-IsSafe title most cs ds = record {
    placed = rw (count_safe n plain most, polyline_safe cs);
    ends = refl;
    same = refl;
  }

  axes-Twins :
      (title : String) (most : ℕ) (cs ds : List Coord)
      → Twins (axes n title most cs) (axes n title most ds)
  axes-Twins title most cs ds = record {
    left = axes-IsSafe title most cs ds;
    right = axes-IsSafe title most ds ds;
  }

  line_chart-Twins :
      (title : String) (ps : List Point)
      → Twins (line_chart n title ps) (line_chart n title (map blank_point ps))
  unfolding line_chart is_placed mode_of mode_after
  line_chart-Twins title ps =
      rw
        (
          chart_coords-blank n ps,
          max_clicks-blank ps,
          length-blank ps,
          labelled-blank (length ps) 0 (chart_coords n ps),
        )
        (Twins-append (axes n title (max_clicks ps) cs) _ (axes n title (max_clicks ps) ds) _
          (axes-Twins title (max_clicks ps) cs ds)
          (Twins-append (rows (circle n) cs) _ (rows (circle n) ds) _
            (Twins-rows (circle n) blank_coord circle-IsSafe cs)
            (Twins-append (rows (day_label n) (labelled (length ps) 0 cs)) (lit "</svg>" ∷ [])
              (rows (day_label n) (map blank_coord (labelled (length ps) 0 cs))) (lit "</svg>" ∷ [])
              (Twins-rows (day_label n) blank_coord day_label-IsSafe (labelled (length ps) 0 cs))
              (closing "</svg>" refl refl))))
    where
      cs : List Coord
      cs = chart_coords n ps

      ds : List Coord
      ds = map blank_coord (chart_coords n ps)

  abbrev trend : Bool → String → List Point → List Piece
  trend short title ps =
      if short
      then lit "<div class=\"empty\">Not enough days for a trend.</div>" ∷ []
      else line_chart n title ps ++ chart_data_table n ps

  line_chart_card-blank :
      (title subtitle : String) (ps : List Point)
      → line_chart_card n title subtitle (map blank_point ps)
        ≡ chart_card title subtitle (trend (ltb (length ps) 2) title (map blank_point ps))
  unfolding line_chart_card
  line_chart_card-blank title subtitle ps =
      ap (λ k. chart_card title subtitle (trend (ltb k 2) title (map blank_point ps)))
        (length-blank ps)

  trend-Twins :
      (short : Bool) (title : String) (ps : List Point)
      → Twins (trend short title ps) (trend short title (map blank_point ps))
  unfolding is_placed mode_of mode_after
  trend-Twins true title ps = closing _ refl refl
  trend-Twins false title ps =
      Twins-append (line_chart n title ps) (chart_data_table n ps)
        (line_chart n title (map blank_point ps)) (chart_data_table n (map blank_point ps))
        (line_chart-Twins title ps) (table-Twins n plain ps)

  pub line_chart_card-Twins :
      (title subtitle : String) (ps : List Point)
      → Twins
          (line_chart_card n title subtitle ps)
          (line_chart_card n title subtitle (map blank_point ps))
  line_chart_card-Twins title subtitle ps = rw (line_chart_card-blank title subtitle ps) (
      unfold line_chart_card in
      chart_card-Twins title subtitle (trend (ltb (length ps) 2) title ps)
        (trend (ltb (length ps) 2) title (map blank_point ps))
        (trend-Twins (ltb (length ps) 2) title ps))
