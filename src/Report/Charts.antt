-- ===== src/Report/Charts.antt =====
-- web/reports.js, the cards and charts of a report, but for its line chart.
use shortq.Prelude.{
  ℕ, ◌+◌, List, [], ◌∷◌, ◌++◌, String, Text, codes, ◌==◌, leb, if◌then◌else◌, is_empty, take,
  text_eq,
}
use shortq.State.Platform.{Double, Numbers}
use shortq.State.ReportData.{Point}
use shortq.Html.{Piece, lit, escaped, shown}
use shortq.Views.{rows}

-- `reportCard`
unfoldable pub report_card : Text × Text × Text → List Piece
report_card (label, amount, note) =
    lit "<article><span>"
    ∷ escaped label
    ∷ lit "</span><b>"
    ∷ escaped amount
    ∷ lit "</b><small>"
    ∷ escaped note
    ∷ lit "</small></article>"
    ∷ []

-- `chartCard`
unfoldable pub chart_card : String → String → List Piece → List Piece
chart_card title subtitle body =
    lit "<section class=\"card chart-card\"><h3>"
    ∷ escaped (codes title)
    ∷ lit "</h3><p class=\"muted\">"
    ∷ escaped (codes subtitle)
    ∷ lit "</p>"
    ∷ (body ++ (lit "</section>" ∷ []))

-- `Math.max.apply(null, [1].concat(…))` of the clicks.
unfoldable pub max_clicks : List Point → ℕ
max_clicks [] = 1
max_clicks (p ∷ ps) = let m = max_clicks ps in if leb p.clicks m then m else p.clicks

-- The clicks of the last point with a key, or those given.
unfoldable pub clicks_of : Text → ℕ → List Point → ℕ
clicks_of key n [] = n
clicks_of key n (p ∷ ps) = clicks_of key (if text_eq p.label key then p.clicks else n) ps

module _ (n : Numbers) where
  -- `reportNumber(value, digits)`
  unfoldable pub report_number : ℕ → Double → Text
  report_number digits x = n.to_locale digits x

  -- `reportNumber` of a count.
  unfoldable pub count_text : ℕ → Text
  unfolding report_number
  count_text k = report_number 0 (n.of_nat k)

  unfoldable pub data_row : Point → List Piece
  unfolding count_text
  data_row p =
      lit "<tr><td>"
      ∷ escaped p.label
      ∷ lit "</td><td>"
      ∷ shown (count_text p.clicks)
      ∷ lit "</td></tr>"
      ∷ []

  -- `chartDataTable`
  unfoldable pub chart_data_table : List Point → List Piece
  unfolding rows data_row
  chart_data_table points =
      lit
        "<details class=\"chart-data\"><summary>View data</summary><table><thead><tr><th>Label</th><th>Clicks</th></tr></thead><tbody>"
      ∷ (rows data_row points ++ (lit "</tbody></table></details>" ∷ []))

  unfoldable pub bar : ℕ → Point → List Piece
  bar most p =
      lit "<div class=\"bar-row\"><span title=\""
      ∷ escaped p.label
      ∷ lit "\">"
      ∷ escaped p.label
      ∷ lit "</span><div><i style=\"width:"
      ∷ shown (
          n.to_text (
            n.greater (n.of_nat 2)
              (n.mul (n.div (n.of_nat p.clicks) (n.of_nat most)) (n.of_nat 100))))
      ∷ lit "%\"></i></div><b>"
      ∷ shown (count_text p.clicks)
      ∷ lit "</b></div>"
      ∷ []

  unfoldable pub bar_chart : List Point → List Piece
  unfolding bar
  bar_chart points =
      lit "<div class=\"bar-chart\">"
      ∷ (rows (bar (max_clicks points)) points ++ (lit "</div>" ∷ chart_data_table points))

  -- `barChartCard`
  unfoldable pub bar_chart_card : String → String → List Point → List Piece
  unfolding bar_chart chart_card
  bar_chart_card title subtitle points = chart_card title subtitle (
      if is_empty (take 8 points)
      then lit "<div class=\"empty\">No data in this period.</div>" ∷ []
      else bar_chart (take 8 points))

  -- The picture of `compositionChartCard`, with the shares that it shows.
  unfoldable pub composition : ℕ → ℕ → Double → Double → List Piece
  composition human bot human_share bot_share =
      lit "<div class=\"composition-chart\" role=\"img\" aria-label=\""
      ∷ shown (report_number 1 human_share)
      ∷ lit " percent human and "
      ∷ shown (report_number 1 bot_share)
      ∷ lit " percent bot traffic\"><i style=\"width:"
      ∷ shown (n.to_text human_share)
      ∷ lit "%\"></i><em style=\"width:"
      ∷ shown (n.to_text bot_share)
      ∷ lit "%\"></em></div><div class=\"composition-legend\"><span><i></i>Human "
      ∷ shown (count_text human)
      ∷ lit " ("
      ∷ shown (report_number 1 human_share)
      ∷ lit "%)</span><span><em></em>Bot "
      ∷ shown (count_text bot)
      ∷ lit " ("
      ∷ shown (report_number 1 bot_share)
      ∷ lit "%)</span></div>"
      ∷ []

  unfoldable pub share_of : ℕ → ℕ → Double
  share_of human total = n.mul (n.div (n.of_nat human) (n.of_nat total)) (n.of_nat 100)

  unfoldable pub shares_chart : ℕ → ℕ → List Point → List Piece
  unfolding composition share_of
  shares_chart human bot points =
      composition human bot (share_of human (human + bot))
        (n.sub (n.of_nat 100) (share_of human (human + bot)))
      ++ chart_data_table points

  -- `compositionChartCard`
  unfoldable pub composition_chart_card : String → String → List Point → List Piece
  unfolding shares_chart clicks_of chart_card
  composition_chart_card title subtitle points =
      let human = clicks_of (codes "human") 0 points in
      let bot = clicks_of (codes "bot") 0 points in
      chart_card title subtitle (
        if human + bot == 0
        then lit "<div class=\"empty\">No successful redirects in this period.</div>" ∷ []
        else shares_chart human bot points)
