-- ===== src/Clicks/Single.antt =====
-- One new event of a link without a limit.
use shortq.Prelude.{
  suc, ◌≡◌, refl, ap, ◌∙◌, arith, [], ◌∷◌, true, false, ◌==◌, if◌then◌else◌, Option, none, some,
}
use shortq.Clicks.Event.{ClickEvent}
use shortq.Clicks.{
  LinkRow, Tables, sound, Turn, value, is_id, is_recorded, count_click, commit, record_on,
  record_if, record_click, record_in_on, record_in, record_all, end_batch, record_clicks,
}

-- The row of a link that was clicked once more.
abbrev pub clicked : LinkRow → LinkRow
clicked row = record row { clicks = suc row.clicks }

module _ (turn : Turn) (e : ClickEvent) (row : LinkRow) (t : Tables)
    (fresh : is_recorded e.event_id t.clicks ≡ false) (found : t.links e.link_id ≡ some row)
    (alive : row.deleted ≡ false) (steady : turn.fault ≡ sound)
    (good : is_id e.event_id ≡ true) where
  pub record_click-counts :
      record_click turn e true none t
      ≡ (value true, count_click turn (record e { increment = true }) row t)
  unfolding record_click record_if record_on
  record_click-counts = rw (good, found, fresh, alive, steady) refl

  on_row :
      e.increment ≡ true
      → row.max_clicks ≡ none
      → record_in_on turn e row (0, t) ≡ some (1, count_click turn e row t)
  unfolding record_in_on
  on_row counts unlimited = rw (fresh, counts, alive, unlimited) refl

  record_in-counts :
      e.increment ≡ true
      → row.max_clicks ≡ none
      → (o : Option LinkRow) → o ≡ some row
      → record_in turn e o (0, t) ≡ some (1, count_click turn e row t)
  unfolding record_in
  record_in-counts counts unlimited o at =
      ap (λ o. record_in turn e o (0, t)) at ∙ on_row counts unlimited

  pub record_clicks-counts :
      e.increment ≡ true
      → row.max_clicks ≡ none
      → record_clicks turn (e ∷ []) t ≡ (value 1, count_click turn e row t)
  unfolding record_clicks record_all
  record_clicks-counts counts unlimited =
      ap
        (λ b.
          end_batch turn.fault
            (elim (if b then record_in turn e (t.links e.link_id) (0, t) else none) [
              | none ↦ none
              | some acc ↦ some acc
            ])
            t)
        good
      ∙ ap (λ o. end_batch turn.fault (elim o [ none ↦ none | some acc ↦ some acc ]) t)
          (record_in-counts counts unlimited (t.links e.link_id) found)
      ∙ ap (λ fault. commit fault 1 (count_click turn e row t) t) steady

  pub count_click-links : (count_click turn e row t).links e.link_id ≡ some (clicked row)
  unfolding count_click
  count_click-links = let same : (e.link_id == e.link_id) ≡ true = ground arith in rw same refl
