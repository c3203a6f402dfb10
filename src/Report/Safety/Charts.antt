-- ===== src/Report/Safety/Charts.antt =====
-- The charts of a report with blank texts and without.
use shortq.Prelude.{ℕ, ◌+◌, ◌==◌, List, [], ◌∷◌, refl, String, Text, codes, map, take, is_empty}
use shortq.State.Platform.{Numbers, Double}
use shortq.State.ReportData.{Point, Report}
use shortq.Html.{lit}
use shortq.Html.Markup.{is_placed, shape, mode_of, mode_after, markup}
use shortq.Views.{rows}
use shortq.Views.Safety.{IsSafe, Confined}
use shortq.Report.Charts.{
  chart_data_table, max_clicks, bar, bar_chart, bar_chart_card, composition, share_of, shares_chart,
  composition_chart_card, clicks_of,
}
use shortq.Report.Lines.{line_chart_card}
use shortq.Report.Render.{breakdown_card, bar_charts, charts_html}
use shortq.Report.Safety.Blank.{
  blank_point, blank_report, max_clicks-blank, clicks_of-blank, human_counted, bot_counted,
  take-blank, is_empty-blank,
}
use shortq.Report.Safety.{
  PlainNumbers, Twins, Twins-append, diagonal, Twins-rows, Twins-if, Twins-Confined, closing,
  chart_card-Twins, count_safe, number_safe, table-Twins,
}
use shortq.Report.Safety.Lines.{line_chart_card-Twins}

module _ (n : Numbers) (plain : PlainNumbers n) where
  bar-IsSafe : (most : ℕ) (p : Point) → IsSafe (bar n most p) (bar n most (blank_point p))
  unfolding bar is_placed mode_of shape mode_after markup blank_point
  bar-IsSafe most p = record {
    placed = rw (plain.to_text _, count_safe n plain p.clicks);
    ends = refl;
    same = refl;
  }

  composition-IsSafe :
      (human bot : ℕ) (x y : Double)
      → IsSafe (composition n human bot x y) (composition n human bot x y)
  unfolding composition is_placed mode_of shape mode_after markup
  composition-IsSafe human bot x y = record {
    placed = rw (
      number_safe n plain 1 x,
      number_safe n plain 1 y,
      plain.to_text x,
      plain.to_text y,
      count_safe n plain human,
      count_safe n plain bot,
    );
    ends = refl;
    same = refl;
  }

  bar_chart-Twins : (ps : List Point) → Twins (bar_chart n ps) (bar_chart n (map blank_point ps))
  unfolding bar_chart is_placed mode_of mode_after
  bar_chart-Twins ps = rw (max_clicks-blank ps) (
      Twins-append (lit "<div class=\"bar-chart\">" ∷ []) _ (lit "<div class=\"bar-chart\">" ∷ []) _
        (closing _ refl refl)
        (Twins-append (rows (bar n (max_clicks ps)) ps) _
          (rows (bar n (max_clicks ps)) (map blank_point ps)) _
          (Twins-rows (bar n (max_clicks ps)) blank_point (bar-IsSafe (max_clicks ps)) ps)
          (Twins-append (lit "</div>" ∷ []) (chart_data_table n ps) (lit "</div>" ∷ [])
            (chart_data_table n (map blank_point ps)) (closing _ refl refl)
            (table-Twins n plain ps))))

  bar_chart_card-Twins :
      (title subtitle : String) (ps : List Point)
      → Twins
          (bar_chart_card n title subtitle ps)
          (bar_chart_card n title subtitle (map blank_point ps))
  unfolding bar_chart_card is_placed mode_of mode_after
  bar_chart_card-Twins title subtitle ps =
      rw (take-blank 8 ps, is_empty-blank (take 8 ps))
        (chart_card-Twins title subtitle _ _ (
          Twins-if (is_empty (take 8 ps)) _ _ _ _ (closing _ refl refl)
            (bar_chart-Twins (take 8 ps))))

  shares_chart-Twins :
      (human bot : ℕ) (ps : List Point)
      → Twins (shares_chart n human bot ps) (shares_chart n human bot (map blank_point ps))
  unfolding shares_chart
  shares_chart-Twins human bot ps =
      Twins-append (composition n human bot (share_of n human (human + bot)) _)
        (chart_data_table n ps) (composition n human bot (share_of n human (human + bot)) _)
        (chart_data_table n (map blank_point ps))
        (diagonal _ (composition-IsSafe human bot (share_of n human (human + bot)) _))
        (table-Twins n plain ps)

  composition_chart_card-Twins :
      (title subtitle : String) (ps : List Point)
      → Twins
          (composition_chart_card n title subtitle ps)
          (composition_chart_card n title subtitle (map blank_point ps))
  unfolding composition_chart_card is_placed mode_of mode_after
  composition_chart_card-Twins title subtitle ps =
      rw
        (
          clicks_of-blank (codes "human") 0 ps human_counted,
          clicks_of-blank (codes "bot") 0 ps bot_counted,
        )
        (chart_card-Twins title subtitle _ _ (
          Twins-if (clicks_of (codes "human") 0 ps + clicks_of (codes "bot") 0 ps == 0) _ _ _ _
            (closing _ refl refl)
            (shares_chart-Twins (clicks_of (codes "human") 0 ps) (clicks_of (codes "bot") 0 ps)
              ps)))

  breakdowns-Twins :
      (points : Text → List Point) (charts : List (String × String × String))
      → Twins
          (rows (breakdown_card n points) charts)
          (rows (breakdown_card n (λ k. map blank_point (points k))) charts)
  unfolding rows breakdown_card is_placed mode_of shape
  breakdowns-Twins points [] = diagonal [] (record { placed = refl; ends = refl; same = refl })
  breakdowns-Twins points ((key, title, subtitle) ∷ charts) =
      Twins-append (bar_chart_card n title subtitle (points (codes key))) _
        (bar_chart_card n title subtitle (map blank_point (points (codes key)))) _
        (bar_chart_card-Twins title subtitle (points (codes key))) (breakdowns-Twins points charts)

  -- The twelve charts of a report are confined, where the texts that the browser gives to numbers
  -- hold neither `<` nor `"`: no key, day or other text of the report changes their tags and
  -- attributes.
  pub charts_html-Confined :
      (r : Report) → Confined (charts_html n r) (charts_html n (blank_report r))
  unfolding charts_html blank_report
  charts_html-Confined r = Twins-Confined (charts_html n r) (charts_html n (blank_report r)) (
      Twins-append (line_chart_card n _ _ r.daily) _
        (line_chart_card n _ _ (map blank_point r.daily)) _
        (line_chart_card-Twins n plain _ _ r.daily)
        (Twins-append (composition_chart_card n _ _ (r.breakdown (codes "traffic"))) _
          (composition_chart_card n _ _ (map blank_point (r.breakdown (codes "traffic")))) _
          (composition_chart_card-Twins _ _ (r.breakdown (codes "traffic")))
          (breakdowns-Twins r.breakdown bar_charts)))
