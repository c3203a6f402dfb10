-- ===== src/Clicks/Keeps.antt =====
-- What `RecordClick` and `RecordClicks` keep, whatever becomes of their transactions.
use shortq.Prelude.{
  ℕ, ◌≡◌, refl, List, [], ◌∷◌, Bool, true, false, not, ◌||◌, if-holds, not-true, not-false, Option,
  none, some,
}
use shortq.Clicks.Event.{ClickEvent}
use shortq.Clicks.{
  LinkRow, Tables, Fault, sound, fails, lost, Turn, Returned, is_id, checked, is_recorded, is_below,
  note_click, count_click, commit, roll_back, record_on, record_if, takes_batch, record_in_on,
  record_in, record_all, end_batch, record_clicks,
}

room_left : (deleted room : Bool) → (deleted || not room) ≡ false → room ≡ true
room_left true room open_link = cc
room_left false true open_link = refl
room_left false false open_link = cc

-- What holds after a new event that does not count, and after one that counts on a row that has room for it, holds after any call.
module _ (P : Tables → Type 0) (HasRoom : LinkRow → Type 0)
    (note-P : (turn : Turn) (e : ClickEvent) (t : Tables)
      → P t
      → is_recorded e.event_id t.clicks ≡ false
      → e.increment ≡ false
      → P (note_click turn e t))
    (count-P : (turn : Turn) (e : ClickEvent) (t : Tables) (row : LinkRow)
      → P t
      → is_recorded e.event_id t.clicks ≡ false
      → t.links e.link_id ≡ some row
      → e.increment ≡ true
      → HasRoom row
      → P (count_click turn e row t))
    (takes_batch-HasRoom : (row : LinkRow) → takes_batch row ≡ true → HasRoom row) where
  -- Whatever becomes of the transaction, the tables are the old ones or the new ones.
  commit-keeps {ℓ} :
      {A : Type ℓ} (fault : Fault) (a : A) (after before : Tables)
      → P before
      → P after
      → P (commit fault a after before).1
  commit-keeps sound a after before old new = new
  commit-keeps fails a after before old new = old
  commit-keeps lost a after before old new = new

  roll_back-keeps {ℓ} :
      {A : Type ℓ} (fault : Fault) (a : A) (t : Tables) → P t → P (roll_back fault a t).1
  roll_back-keeps sound a t old = old
  roll_back-keeps fails a t old = old
  roll_back-keeps lost a t old = old

  abbrev Keeps : Returned Bool × Tables → Type 0
  Keeps result = P result.1

  record_on-keeps :
      (turn : Turn) (e : ClickEvent) (max : Option ℕ) (row : LinkRow) (t : Tables)
      → t.links e.link_id ≡ some row
      → (is_below max row.clicks ≡ true → HasRoom row)
      → P t
      → P (record_on turn e e.increment max row t).1
  unfolding record_on
  record_on-keeps turn e max row t found allowed old =
      if-holds Keeps (is_recorded e.event_id t.clicks)
        (λ seen. commit-keeps turn.fault true t t old old)
        (λ fresh.
          if-holds Keeps (not e.increment)
            (λ idle.
              commit-keeps turn.fault true _ t old
                (note-P turn e t old fresh (not-true e.increment idle)))
            (λ counts.
              if-holds Keeps (row.deleted || not (is_below max row.clicks))
                (λ full. roll_back-keeps turn.fault false t old)
                (λ room. commit-keeps turn.fault true _ t old (
                  count-P turn e t row old fresh found (not-false e.increment counts)
                    (allowed (room_left row.deleted _ room))))))

  pub record_if-keeps :
      (turn : Turn) (e : ClickEvent) (max : Option ℕ) (o : Option LinkRow) (t : Tables)
      → t.links e.link_id ≡ o
      → ((row : LinkRow) → o ≡ some row → is_below max row.clicks ≡ true → HasRoom row)
      → P t
      → P (record_if turn e e.increment max o t).1
  unfolding record_if
  record_if-keeps turn e max none t found allowed old =
      if-holds Keeps (is_recorded e.event_id t.clicks)
        (λ seen. commit-keeps turn.fault true t t old old) (λ fresh. old)
  record_if-keeps turn e max (some row) t found allowed old =
      record_on-keeps turn e max row t found (allowed row refl) old

  -- The tables that a step of a batch leaves, if it does not fail.
  HoldsAfter : Option (ℕ × Tables) → Type 0
  HoldsAfter none = Unit {0}
  HoldsAfter (some acc) = P acc.1

  record_in_on-keeps :
      (turn : Turn) (e : ClickEvent) (row : LinkRow) (n : ℕ) (t : Tables)
      → t.links e.link_id ≡ some row
      → P t
      → HoldsAfter (record_in_on turn e row (n, t))
  unfolding record_in_on HoldsAfter
  record_in_on-keeps turn e row n t found old =
      if-holds HoldsAfter (is_recorded e.event_id t.clicks) (λ seen. old)
        (λ fresh.
          if-holds HoldsAfter (not e.increment)
            (λ idle. note-P turn e t old fresh (not-true e.increment idle))
            (λ counts.
              if-holds HoldsAfter (takes_batch row)
                (λ takes.
                  count-P turn e t row old fresh found (not-false e.increment counts)
                    (takes_batch-HasRoom row takes))
                (λ full. tt)))

  record_in-keeps :
      (turn : Turn) (e : ClickEvent) (o : Option LinkRow) (acc : ℕ × Tables)
      → acc.1.links e.link_id ≡ o
      → P acc.1
      → HoldsAfter (record_in turn e o acc)
  unfolding record_in HoldsAfter
  record_in-keeps turn e none acc found old =
      if-holds HoldsAfter (is_recorded e.event_id acc.1.clicks) (λ seen. old) (λ fresh. tt)
  record_in-keeps turn e (some row) acc found old =
      record_in_on-keeps turn e row acc.0 acc.1 found old

  next-keeps :
      (k : ℕ × Tables → Option (ℕ × Tables))
      → ((acc : ℕ × Tables) → P acc.1 → HoldsAfter (k acc))
      → (o : Option (ℕ × Tables)) → HoldsAfter o
      → HoldsAfter (elim o [ none ↦ none | some acc ↦ k acc ])
  unfolding HoldsAfter
  next-keeps k rest none held = tt
  next-keeps k rest (some acc) held = rest acc held

  record_all-keeps :
      (turn : Turn) (es : List ClickEvent) (acc : ℕ × Tables)
      → P acc.1
      → HoldsAfter (record_all turn es acc)
  unfolding record_all HoldsAfter
  record_all-keeps turn [] acc old = old
  record_all-keeps turn (e ∷ es) acc old =
      next-keeps (record_all turn es) (record_all-keeps turn es)
        (checked e.event_id (record_in turn e (acc.1.links e.link_id) acc))
        (if-holds HoldsAfter (is_id e.event_id)
          (λ good. record_in-keeps turn e (acc.1.links e.link_id) acc refl old) (λ bad. tt))

  end_batch-keeps :
      (fault : Fault) (o : Option (ℕ × Tables)) (t : Tables)
      → P t
      → HoldsAfter o
      → P (end_batch fault o t).1
  unfolding HoldsAfter
  end_batch-keeps fault none t old held = old
  end_batch-keeps fault (some (n, after)) t old held = commit-keeps fault n after t old held

  pub record_clicks-keeps :
      (turn : Turn) (es : List ClickEvent) (t : Tables) → P t → P (record_clicks turn es t).1
  unfolding record_clicks
  record_clicks-keeps turn [] t old = old
  record_clicks-keeps turn (e ∷ es) t old =
      end_batch-keeps turn.fault (record_all turn (e ∷ es) (0, t)) t old
        (record_all-keeps turn (e ∷ es) (0, t) old)
