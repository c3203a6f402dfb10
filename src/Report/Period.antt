-- ===== src/Report/Period.antt =====
-- The period that a choice of the menu asks for.
use shortq.Prelude.{
  ℕ, ◌+◌, ◌-◌, ◌≤◌, ◌≡◌, refl, ap, ◌∙◌, arith, List, [], ◌∷◌, Text, codes, false, not, text_eq,
  or_text, some,
}
use shortq.State.{App, Dom, Request, ReportState}
use shortq.State.Platform.{Calendar}
use shortq.State.Monad.{Env, Result, ignored, when}
use shortq.Api.{get_request}
use shortq.Report.Dates.{local_date_value, preset_days, preset_dates, day_after, report_query}
use shortq.Report.{
  report_base_path, report_request, load_report, load_current_report, reload_report,
  set_report_preset,
}
use shortq.Report.Frame.{load_report-lem}

-- The parameters of a request for the days from `first` on and before `end`.
abbrev pub days_query : Calendar → ℕ → ℕ → List (Text × Text)
days_query c first end =
    (codes "from", local_date_value c first)
    ∷ (codes "to", local_date_value c end)
    ∷ (codes "timezone", or_text c.time_zone (codes "UTC"))
    ∷ []

query-preset_dates :
    (c : Calendar) (v : Text) (d : Dom)
    → c.day_of (local_date_value c c.today) ≡ some c.today
    → report_query c (preset_dates c v d) ≡ days_query c (c.today + 1 - preset_days v) (c.today + 1)
unfolding report_query preset_dates day_after
query-preset_dates c v d read = rw read

sent-ignored : (r : Result (Unit {0}) × App) → (ignored r).1.sent ≡ r.1.sent
sent-ignored (r, s) = refl

module _ (v : Text) (env : Env) (s : App) (r : ReportState) where
  abbrev dated : App
  dated = record s { dom = preset_dates env.calendar v s.dom }

  reloads :
      s.report_state ≡ some r
      → text_eq v (codes "custom") ≡ false
      → (set_report_preset v env s).1.sent ≡ (load_report (some r) env dated).1.sent
  unfolding set_report_preset load_current_report
  reloads shown other =
      ap
        (λ b.
          (when (not b)
            (λ env s.
              reload_report s.report_state env
                (record s { dom = preset_dates env.calendar v s.dom }))
            env s).1.sent)
        other
      ∙ ap (λ o. (reload_report o env dated).1.sent) shown
      ∙ sent-ignored (load_current_report env dated)
      ∙ ap (λ o. (load_report o env dated).1.sent) shown

  asks :
      s.report_state ≡ some r
      → report_request env dated
        ≡ get_request
            (report_base_path (some r))
            (report_query env.calendar (preset_dates env.calendar v s.dom))
  unfolding report_request
  asks shown =
      ap
        (λ o.
          get_request (report_base_path o)
            (report_query env.calendar (preset_dates env.calendar v s.dom)))
        shown

  -- With a report open, a choice of the menu other than `custom` asks for the days up to today,
  -- as many as the menu says: the first of them, and the day after today, which is exclusive. The
  -- browser reads back the date that it wrote for today, and its days reach back far enough.
  pub set_report_preset-days :
      s.report_state ≡ some r
      → text_eq v (codes "custom") ≡ false
      → env.calendar.day_of (local_date_value env.calendar env.calendar.today)
        ≡ some env.calendar.today
      → preset_days v ≤ env.calendar.today + 1
      → (first : ℕ) × ((set_report_preset v env s).1.sent
          ≡ get_request
              (report_base_path (some r))
              (days_query env.calendar first (env.calendar.today + 1))
            ∷ s.sent)
        × (first + preset_days v ≡ env.calendar.today + 1)
  set_report_preset-days shown other read far = (
    env.calendar.today + 1 - preset_days v,
    reloads shown other
        ∙ (load_report-lem r env dated).2
        ∙ ap (λ (q : Request). q ∷ s.sent)
            (asks shown
              ∙ ap (get_request (report_base_path (some r)))
                  (query-preset_dates env.calendar v s.dom read)),
    omega arith,
  )
