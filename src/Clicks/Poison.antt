-- ===== src/Clicks/Poison.antt =====
-- `RecordClicks` on a batch with an event of a link that takes no more events of a batch.
use shortq.Prelude.{
  ℕ, suc, ◌≡◌, refl, sym, ap, ◌∙◌, arith, List, [], ◌∷◌, ◌++◌, Bool, true, false, not, ◌&&◌, ◌||◌,
  ◌==◌, if◌then◌else◌, is_empty, if-holds, not-true, Option, none, some,
}
use shortq.Clicks.Event.{ClickEvent}
use shortq.Clicks.{
  LinkRow, Tables, Turn, error, same_id, is_id, checked, is_recorded, count_click, note_click,
  takes_batch, record_in_on, record_in, record_all, end_batch, record_clicks,
}

-- Whether a link is deleted, limited or not there.
abbrev pub refuses : Option LinkRow → Bool
refuses none = true
refuses (some row) = not (takes_batch row)

-- An event that is new and counts on a link that refuses it.
abbrev pub IsPoison : ClickEvent → Tables → Type 0
IsPoison e t =
    (is_recorded e.event_id t.clicks ≡ false)
    × (e.increment ≡ true)
    × (refuses (t.links e.link_id) ≡ true)

-- No event of the list has the id.
unfoldable pub AreOthers : ClickEvent → List ClickEvent → Type 0
AreOthers e [] = Unit {0}
AreOthers e (x ∷ xs) =
    ((not (is_empty e.event_id) && same_id x.event_id e.event_id) ≡ false) × AreOthers e xs

clash {ℓ} : {A : Type ℓ} (b : Bool) → b ≡ true → b ≡ false → A
clash b holds opposite = cc

poisoned-record_in :
    (turn : Turn) (e : ClickEvent) (o : Option LinkRow) (n : ℕ) (t : Tables)
    → is_recorded e.event_id t.clicks ≡ false
    → e.increment ≡ true
    → refuses o ≡ true
    → record_in turn e o (n, t) ≡ none
unfolding record_in record_in_on
poisoned-record_in turn e none n t fresh counts refused = rw fresh refl
poisoned-record_in turn e (some row) n t fresh counts refused =
    if-holds Fails (is_recorded e.event_id t.clicks) (λ seen. cc)
      (λ new.
        if-holds Fails (not e.increment) (λ idle. clash _ counts (not-true e.increment idle))
          (λ inc.
            if-holds Fails (takes_batch row)
              (λ takes. clash _ takes (not-true (takes_batch row) refused)) (λ full. refl)))
  where
    Fails : Option (ℕ × Tables) → Type 0
    Fails o = o ≡ none

-- What a step leaves of an event that is in the way.
StillPoison : ClickEvent → Option (ℕ × Tables) → Type 0
StillPoison e none = Unit {0}
StillPoison e (some acc) = IsPoison e acc.1

module _ (turn : Turn) (e x : ClickEvent) (t : Tables) (row : LinkRow)
    (found : t.links x.link_id ≡ some row)
    (different : (not (is_empty e.event_id) && same_id x.event_id e.event_id) ≡ false)
    (poison : IsPoison e t) where
  still_new :
      ((not (is_empty e.event_id) && same_id x.event_id e.event_id)
        || is_recorded e.event_id t.clicks)
      ≡ false
  still_new = rw (different, poison.0) refl

  after_note : IsPoison e (note_click turn x t)
  unfolding note_click is_recorded
  after_note = (still_new, poison.1, poison.2)

  after_count : takes_batch row ≡ true → IsPoison e (count_click turn x row t)
  unfolding count_click is_recorded
  after_count takes = (still_new, poison.1, still_refused (e.link_id == x.link_id) refl)
    where
      still_refused :
          (b : Bool)
          → (e.link_id == x.link_id) ≡ b
          → refuses (if b then some (record row { clicks = suc row.clicks }) else t.links e.link_id)
            ≡ true
      still_refused true here =
          let same : e.link_id ≡ x.link_id = ground arith in
          let refused : refuses (some row) ≡ true =
            sym (ap refuses found) ∙ ap (λ j. refuses (t.links j)) (sym same) ∙ poison.2 in
          clash _ takes (not-true (takes_batch row) refused)
      still_refused false there = poison.2

  stays : (n : ℕ) → StillPoison e (record_in_on turn x row (n, t))
  unfolding record_in_on StillPoison
  stays n =
      if-holds (StillPoison e) (is_recorded x.event_id t.clicks) (λ seen. poison)
        (λ fresh.
          if-holds (StillPoison e) (not x.increment) (λ idle. after_note)
            (λ counts.
              if-holds (StillPoison e) (takes_batch row) (λ takes. after_count takes) (λ full. tt)))

record_in-stays :
    (turn : Turn) (e x : ClickEvent) (o : Option LinkRow) (acc : ℕ × Tables)
    → acc.1.links x.link_id ≡ o
    → (not (is_empty e.event_id) && same_id x.event_id e.event_id) ≡ false
    → IsPoison e acc.1
    → StillPoison e (record_in turn x o acc)
unfolding record_in StillPoison
record_in-stays turn e x none acc found different poison =
    if-holds (StillPoison e) (is_recorded x.event_id acc.1.clicks) (λ seen. poison) (λ fresh. tt)
record_in-stays turn e x (some row) acc found different poison =
    stays turn e x acc.1 row found different poison acc.0

next-fails :
    (e : ClickEvent) (k : ℕ × Tables → Option (ℕ × Tables))
    → ((acc : ℕ × Tables) → IsPoison e acc.1 → k acc ≡ none)
    → (o : Option (ℕ × Tables)) → StillPoison e o
    → elim o [ none ↦ none | some acc ↦ k acc ] ≡ none
unfolding StillPoison
next-fails e k rest none poison = refl
next-fails e k rest (some acc) poison = rest acc poison

poisoned-record_all :
    (turn : Turn) (before : List ClickEvent) (e : ClickEvent) (after : List ClickEvent)
    (acc : ℕ × Tables)
    → AreOthers e before
    → IsPoison e acc.1
    → record_all turn (before ++ e ∷ after) acc ≡ none
unfolding record_all AreOthers StillPoison
poisoned-record_all turn [] e after acc others poison =
    ap (λ o. elim o [ none ↦ none | some acc' ↦ record_all turn after acc' ])
      (if-holds (λ (o : Option (ℕ × Tables)). o ≡ none) (is_id e.event_id)
        (λ good.
          poisoned-record_in turn e (acc.1.links e.link_id) acc.0 acc.1 (poison.0) (poison.1)
            (poison.2))
        (λ bad. refl))
poisoned-record_all turn (x ∷ before) e after acc others poison =
    next-fails e (record_all turn (before ++ e ∷ after))
      (λ acc' still. poisoned-record_all turn before e after acc' (others.1) still)
      (checked x.event_id (record_in turn x (acc.1.links x.link_id) acc))
      (if-holds (StillPoison e) (is_id x.event_id)
        (λ good. record_in-stays turn e x (acc.1.links x.link_id) acc refl (others.0) poison)
        (λ bad. tt))

-- A batch with a new event that counts on a link that is deleted, limited or not there returns an
-- error and leaves the tables as they were, also for the other events, whatever links these are of,
-- if no event before it in the batch has its id.
pub poisoned-record_clicks :
    (turn : Turn) (before : List ClickEvent) (e : ClickEvent) (after : List ClickEvent) (t : Tables)
    → AreOthers e before
    → IsPoison e t
    → record_clicks turn (before ++ e ∷ after) t ≡ (error, t)
unfolding record_clicks
poisoned-record_clicks turn [] e after t others poison =
    ap (λ o. end_batch turn.fault o t) (poisoned-record_all turn [] e after (0, t) others poison)
poisoned-record_clicks turn (x ∷ before) e after t others poison =
    ap (λ o. end_batch turn.fault o t)
      (poisoned-record_all turn (x ∷ before) e after (0, t) others poison)
