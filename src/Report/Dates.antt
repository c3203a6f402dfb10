-- ===== src/Report/Dates.antt =====
-- web/reports.js, `localDateValue`, the dates of `setReportPreset`, and `reportQuery`.
use shortq.Prelude.{
  ℕ, ◌+◌, ◌-◌, List, [], ◌∷◌, ◌++◌, Text, codes, ltb, if◌then◌else◌, is_empty, or_text, show_ℕ,
  value, Option, none, some,
}
use shortq.State.{Dom, set_value}
use shortq.State.Platform.{Calendar}

-- `String(n).padStart(2, "0")`
unfoldable pub two_digits : ℕ → Text
two_digits n = if ltb n 10 then b'0' ∷ show_ℕ n else show_ℕ n

unfoldable pub local_date_value : Calendar → ℕ → Text
unfolding two_digits
local_date_value c d =
    show_ℕ (c.year d) ++ (b'-' ∷ (two_digits (c.month d + 1) ++ (b'-' ∷ two_digits (c.day d))))

-- `Number(value || 30)`: the values of the menu are decimal.
abbrev pub preset_days : Text → ℕ
preset_days v = if is_empty v then 30 else value v

-- What `setReportPreset` writes into the two fields, for a value other than `custom`.
unfoldable pub preset_dates : Calendar → Text → Dom → Dom
preset_dates c v d =
    set_value "reportTo" (local_date_value c c.today)
      (set_value "reportFrom" (local_date_value c (c.today + 1 - preset_days v)) d)

-- The day after a date, which is exclusive; the parts of an invalid date are not numbers.
unfoldable pub day_after : Calendar → Option ℕ → Text
day_after c none = codes "NaN-NaN-NaN"
day_after c (some d) = local_date_value c (d + 1)

unfoldable pub report_query : Calendar → Dom → List (Text × Text)
unfolding day_after
report_query c d =
    (codes "from", d.value "reportFrom")
    ∷ (codes "to", day_after c (c.day_of (d.value "reportTo")))
    ∷ (codes "timezone", or_text c.time_zone (codes "UTC"))
    ∷ []
