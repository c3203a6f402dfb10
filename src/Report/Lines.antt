-- ===== src/Report/Lines.antt =====
-- web/reports.js, `lineChartCard`. The constants of its layout (width 720, height 230, and the
-- margins 42, 18, 18 and 34) are put in.
use shortq.Prelude.{
  ℕ, suc, ◌-◌, ◌/◌, List, [], ◌∷◌, ◌++◌, String, Text, codes, ◌||◌, ◌==◌, ltb, if◌then◌else◌,
  length, drop,
}
use shortq.State.Platform.{Double, Numbers}
use shortq.State.ReportData.{Point}
use shortq.Html.{Piece, lit, escaped, shown}
use shortq.Views.{rows}
use shortq.Report.Charts.{chart_card, max_clicks, count_text, chart_data_table}

pub record Coord : Type 0 where
  pub x : Double
  pub y : Double
  pub day : Text
  pub clicks : ℕ

-- The first, the middle and the last of `count` coordinates, from an index on.
unfoldable pub labelled : ℕ → ℕ → List Coord → List Coord
labelled count i [] = []
labelled count i (c ∷ cs) =
    let rest = labelled count (suc i) cs in
    if i == 0 || i == count - 1 || i == count / 2 then c ∷ rest else rest

module _ (n : Numbers) where
  -- The coordinates of the points from an index on.
  unfoldable pub coords : ℕ → ℕ → ℕ → List Point → List Coord
  coords span most i [] = []
  coords span most i (p ∷ ps) =
      record {
        x = n.add (n.of_nat 42) (n.mul (n.div (n.of_nat i) (n.of_nat span)) (n.of_nat 660));
        y =
            n.add (n.of_nat 18) (
              n.mul (n.sub (n.of_nat 1) (n.div (n.of_nat p.clicks) (n.of_nat most)))
                (n.of_nat 178));
        day = p.label;
        clicks = p.clicks;
      }
      ∷ coords span most (suc i) ps

  -- The coordinates of all points: the span is at least 1.
  unfoldable pub chart_coords : List Point → List Coord
  unfolding coords max_clicks
  chart_coords points =
      coords (if ltb (length points) 2 then 1 else length points - 1) (max_clicks points) 0 points

  abbrev pub corner : Coord → Text
  corner c = n.to_fixed 1 c.x ++ (b',' ∷ n.to_fixed 1 c.y)

  -- The corners of the line, joined by blanks.
  unfoldable pub polyline : List Coord → Text
  polyline [] = []
  polyline (c ∷ []) = corner c
  polyline (c ∷ d ∷ cs) = corner c ++ (b' ' ∷ polyline (d ∷ cs))

  unfoldable pub circle : Coord → List Piece
  circle c =
      lit "<circle cx=\""
      ∷ shown (n.to_text c.x)
      ∷ lit "\" cy=\""
      ∷ shown (n.to_text c.y)
      ∷ lit "\" r=\"3.5\" class=\"chart-point\"><title>"
      ∷ escaped c.day
      ∷ lit ": "
      ∷ shown (count_text n c.clicks)
      ∷ lit " clicks</title></circle>"
      ∷ []

  unfoldable pub anchor : Double → Text
  anchor x =
      if n.equal x (n.of_nat 42)
      then codes "start"
      else if n.lt (n.of_nat 360) x
      then codes "end"
      else codes "middle"

  unfoldable pub day_label : Coord → List Piece
  unfolding anchor
  day_label c =
      lit "<text x=\""
      ∷ shown (n.to_text c.x)
      ∷ lit "\" y=\"220\" text-anchor=\""
      ∷ shown (anchor c.x)
      ∷ lit "\" class=\"chart-label\">"
      ∷ escaped (drop 5 c.day)
      ∷ lit "</text>"
      ∷ []

  -- The picture of `lineChartCard` up to its points.
  unfoldable pub axes : String → ℕ → List Coord → List Piece
  unfolding polyline
  axes title most cs =
      lit "<svg class=\"chart-svg\" viewBox=\"0 0 720 230\" role=\"img\" aria-label=\""
      ∷ escaped (codes title)
      ∷ lit
          "\"><line x1=\"42\" y1=\"196\" x2=\"702\" y2=\"196\" class=\"chart-axis\"/><line x1=\"42\" y1=\"18\" x2=\"42\" y2=\"196\" class=\"chart-axis\"/><line x1=\"42\" y1=\"18\" x2=\"702\" y2=\"18\" class=\"chart-grid\"/><text x=\"34\" y=\"22\" text-anchor=\"end\" class=\"chart-label\">"
      ∷ shown (count_text n most)
      ∷ lit
          "</text><text x=\"34\" y=\"200\" text-anchor=\"end\" class=\"chart-label\">0</text><polyline points=\""
      ∷ shown (polyline cs)
      ∷ lit "\" class=\"chart-line\"/>"
      ∷ []

  unfoldable pub line_chart : String → List Point → List Piece
  unfolding axes chart_coords circle day_label labelled
  line_chart title points =
      axes title (max_clicks points) (chart_coords points)
      ++ (rows circle (chart_coords points)
          ++ (rows day_label (labelled (length points) 0 (chart_coords points))
              ++ (lit "</svg>" ∷ [])))

  -- `lineChartCard`
  unfoldable pub line_chart_card : String → String → List Point → List Piece
  unfolding line_chart chart_data_table chart_card
  line_chart_card title subtitle points = chart_card title subtitle (
      if ltb (length points) 2
      then lit "<div class=\"empty\">Not enough days for a trend.</div>" ∷ []
      else line_chart title points ++ chart_data_table n points)
