-- ===== src/Clicks/Count.antt =====
-- The number of rows that `RecordClicks` returns.
use shortq.Prelude.{
  ℕ, suc, ◌+◌, ◌≤◌, arith, List, [], ◌∷◌, not, length, if-holds, Option, none, some,
}
use shortq.Clicks.Event.{ClickEvent}
use shortq.Clicks.{
  LinkRow, Tables, Fault, sound, fails, lost, Turn, Returned, value, error, is_id, checked,
  is_recorded, takes_batch, record_in_on, record_in, record_all, end_batch, record_clicks,
}

-- At most so many more rows are reported.
CountsUpTo : ℕ → Option (ℕ × Tables) → Type 0
CountsUpTo n none = Unit {0}
CountsUpTo n (some acc) = acc.0 ≤ n

record_in-CountsUpTo :
    (turn : Turn) (e : ClickEvent) (o : Option LinkRow) (n : ℕ) (t : Tables)
    → CountsUpTo (suc n) (record_in turn e o (n, t))
unfolding CountsUpTo record_in record_in_on
record_in-CountsUpTo turn e none n t =
    if-holds (CountsUpTo (suc n)) (is_recorded e.event_id t.clicks) (λ seen. omega arith)
      (λ fresh. tt)
record_in-CountsUpTo turn e (some row) n t =
    if-holds (CountsUpTo (suc n)) (is_recorded e.event_id t.clicks) (λ seen. omega arith)
      (λ fresh.
        if-holds (CountsUpTo (suc n)) (not e.increment) (λ idle. omega arith)
          (λ counts.
            if-holds (CountsUpTo (suc n)) (takes_batch row) (λ takes. omega arith) (λ full. tt)))

record_all-CountsUpTo :
    (turn : Turn) (es : List ClickEvent) (n : ℕ) (t : Tables)
    → CountsUpTo (n + length es) (record_all turn es (n, t))
unfolding CountsUpTo record_all
record_all-CountsUpTo turn [] n t = omega arith
record_all-CountsUpTo turn (e ∷ es) n t =
    rest_counts (checked e.event_id (record_in turn e (t.links e.link_id) (n, t)))
      (if-holds (CountsUpTo (suc n)) (is_id e.event_id)
        (λ good. record_in-CountsUpTo turn e (t.links e.link_id) n t) (λ bad. tt))
      (λ m t'. record_all-CountsUpTo turn es m t')
  where
    within :
        (m : ℕ) (o : Option (ℕ × Tables))
        → m ≤ suc n
        → CountsUpTo (m + length es) o
        → CountsUpTo (n + suc (length es)) o
    within m none below counts = tt
    within m (some acc) below counts = omega arith

    rest_counts :
        (o : Option (ℕ × Tables))
        → CountsUpTo (suc n) o
        → ((m : ℕ) (t' : Tables) → CountsUpTo (m + length es) (record_all turn es (m, t')))
        → CountsUpTo
            (n + suc (length es))
            (elim o [ none ↦ none | some acc ↦ record_all turn es acc ])
    rest_counts none below rest = tt
    rest_counts (some (m, t')) below rest = within m (record_all turn es (m, t')) below (rest m t')

-- The number of rows that a call reports.
abbrev pub IsWithin : ℕ → Returned ℕ → Type 0
IsWithin n error = Unit {0}
IsWithin n (value m) = m ≤ n

pub record_clicks-IsWithin :
    (turn : Turn) (es : List ClickEvent) (t : Tables)
    → IsWithin (length es) ((record_clicks turn es t).0)
unfolding record_clicks CountsUpTo
record_clicks-IsWithin turn [] t = omega arith
record_clicks-IsWithin turn (e ∷ es) t =
    reported turn.fault (record_all turn (e ∷ es) (0, t)) (record_all-CountsUpTo turn (e ∷ es) 0 t)
  where
    reported :
        (fault : Fault) (o : Option (ℕ × Tables))
        → CountsUpTo (0 + suc (length es)) o
        → IsWithin (suc (length es)) ((end_batch fault o t).0)
    reported fault none within = tt
    reported sound (some (m, after)) within = omega arith
    reported fails (some (m, after)) within = tt
    reported lost (some (m, after)) within = tt
