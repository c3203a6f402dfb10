-- ===== src/Clicks/Again.antt =====
-- `RecordClicks` on a batch that is in the tables already, as when its acknowledgement was lost.
use shortq.Prelude.{
  ℕ, ◌≡◌, refl, ap, ◌∙◌, List, [], ◌∷◌, Text, Bool, true, false, not, ◌&&◌, ◌||◌, if◌then◌else◌,
  is_empty, map, lower, text_eq_iff, if-holds, Option, none, some,
}
use mathlib.Core.Path.{subst}
use shortq.Clicks.Event.{ClickEvent}
use shortq.Clicks.{
  LinkRow, Tables, Fault, sound, fails, lost, Turn, Returned, same_id, is_id, checked, is_recorded,
  count_click, note_click, commit, takes_batch, record_in_on, record_in, record_all, end_batch,
  record_clicks,
}

-- The row of an event is in the table.
abbrev pub IsStored : ClickEvent → Tables → Type 0
IsStored e t = is_recorded e.event_id t.clicks ≡ true

-- The row of each event is in the table, and its id is one that the column takes.
unfoldable pub AreStored : List ClickEvent → Tables → Type 0
AreStored [] t = Unit {0}
AreStored (e ∷ es) t = (IsStored e t × (is_id e.event_id ≡ true)) × AreStored es t

-- Each event has an id.
unfoldable pub AreNamed : List ClickEvent → Type 0
AreNamed [] = Unit {0}
AreNamed (e ∷ es) = (not (is_empty e.event_id) ≡ true) × AreNamed es

-- No row is gone.
abbrev pub Keeps : Tables → Tables → Type 0
Keeps before after =
    (id : Text) → is_recorded id before.clicks ≡ true → is_recorded id after.clicks ≡ true

Keeps-refl : (t : Tables) → Keeps t t
Keeps-refl t = λ id h. h

Keeps-trans : (a b c : Tables) → Keeps a b → Keeps b c → Keeps a c
Keeps-trans a b c first then_ = λ id h. then_ id (first id h)

IsStored-Keeps : (e : ClickEvent) (a b : Tables) → Keeps a b → IsStored e a → IsStored e b
IsStored-Keeps e a b kept stored = kept e.event_id stored

or_right : (a b : Bool) → b ≡ true → (a || b) ≡ true
or_right true b h = refl
or_right false b h = h

same_id_refl : (a : Text) → same_id a a ≡ true
same_id_refl a = (text_eq_iff (map lower a) (map lower a)).1 refl

named_row :
    (a : Text) (rest : Bool)
    → not (is_empty a) ≡ true
    → ((not (is_empty a) && same_id a a) || rest) ≡ true
named_row a rest named = rw (named, same_id_refl a) refl

-- What an event of a batch leaves.
AfterOne : ClickEvent → Tables → Option (ℕ × Tables) → Type 0
AfterOne e t none = Unit {0}
AfterOne e t (some acc) = Keeps t acc.1 × IsStored e acc.1

-- What an event of a batch leaves, once its id has been taken.
AfterChecked : ClickEvent → Tables → Option (ℕ × Tables) → Type 0
AfterChecked e t none = Unit {0}
AfterChecked e t (some acc) = Keeps t acc.1 × (IsStored e acc.1 × (is_id e.event_id ≡ true))

taken :
    (e : ClickEvent) (t : Tables) (o : Option (ℕ × Tables))
    → AfterOne e t o
    → is_id e.event_id ≡ true
    → AfterChecked e t o
unfolding AfterOne AfterChecked
taken e t none held good = tt
taken e t (some acc) held good = (held.0, (held.1, good))

module _ (turn : Turn) (e : ClickEvent) (t : Tables)
    (named : not (is_empty e.event_id) ≡ true) where
  after_note : Keeps t (note_click turn e t) × IsStored e (note_click turn e t)
  unfolding note_click is_recorded
  after_note = ((λ id h. or_right _ _ h), named_row e.event_id _ named)

  pub after_count :
      (row : LinkRow) → Keeps t (count_click turn e row t) × IsStored e (count_click turn e row t)
  unfolding count_click is_recorded
  after_count row = ((λ id h. or_right _ _ h), named_row e.event_id _ named)

  after_one : (row : LinkRow) (n : ℕ) → AfterOne e t (record_in_on turn e row (n, t))
  unfolding record_in_on AfterOne
  after_one row n =
      if-holds (AfterOne e t) (is_recorded e.event_id t.clicks) (λ seen. (Keeps-refl t, seen))
        (λ fresh.
          if-holds (AfterOne e t) (not e.increment) (λ idle. after_note)
            (λ counts.
              if-holds (AfterOne e t) (takes_batch row) (λ takes. after_count row) (λ full. tt)))

record_in-AfterOne :
    (turn : Turn) (e : ClickEvent) (o : Option LinkRow) (acc : ℕ × Tables)
    → not (is_empty e.event_id) ≡ true
    → AfterOne e acc.1 (record_in turn e o acc)
unfolding record_in AfterOne
record_in-AfterOne turn e none acc named =
    if-holds (AfterOne e acc.1) (is_recorded e.event_id acc.1.clicks)
      (λ seen. (Keeps-refl acc.1, seen)) (λ fresh. tt)
record_in-AfterOne turn e (some row) acc named = after_one turn e acc.1 named row acc.0

-- What a batch leaves.
AfterAll : List ClickEvent → Tables → Option (ℕ × Tables) → Type 0
AfterAll es t none = Unit {0}
AfterAll es t (some acc) = Keeps t acc.1 × AreStored es acc.1

widen :
    (e : ClickEvent) (es : List ClickEvent) (a b : Tables) (o : Option (ℕ × Tables))
    → Keeps a b
    → IsStored e b × (is_id e.event_id ≡ true)
    → AfterAll es b o
    → AfterAll (e ∷ es) a o
unfolding AfterAll AreStored
widen e es a b none kept stored rest = tt
widen e es a b (some acc) kept stored rest = (
  Keeps-trans a b acc.1 kept (rest.0),
  ((IsStored-Keeps e b acc.1 (rest.0) (stored.0), stored.1), rest.1),
)

after_next :
    (k : ℕ × Tables → Option (ℕ × Tables)) (e : ClickEvent) (es : List ClickEvent) (t : Tables)
    → ((acc : ℕ × Tables) → AfterAll es acc.1 (k acc))
    → (o : Option (ℕ × Tables)) → AfterChecked e t o
    → AfterAll (e ∷ es) t (elim o [ none ↦ none | some acc ↦ k acc ])
unfolding AfterChecked AfterAll
after_next k e es t rest none held = tt
after_next k e es t rest (some acc) held = widen e es t acc.1 (k acc) (held.0) (held.1) (rest acc)

record_all-AfterAll :
    (turn : Turn) (es : List ClickEvent) (acc : ℕ × Tables)
    → AreNamed es
    → AfterAll es acc.1 (record_all turn es acc)
unfolding record_all AfterAll AfterChecked AreStored AreNamed
record_all-AfterAll turn [] acc named = (Keeps-refl acc.1, tt)
record_all-AfterAll turn (e ∷ es) acc named =
    after_next (record_all turn es) e es acc.1 (λ acc'. record_all-AfterAll turn es acc' (named.1))
      (checked e.event_id (record_in turn e (acc.1.links e.link_id) acc))
      (if-holds (AfterChecked e acc.1) (is_id e.event_id)
        (taken e acc.1 (record_in turn e (acc.1.links e.link_id) acc)
          (record_in-AfterOne turn e (acc.1.links e.link_id) acc (named.0)))
        (λ bad. tt))

stored_one :
    (turn : Turn) (e : ClickEvent) (o : Option LinkRow) (n : ℕ) (t : Tables)
    → is_recorded e.event_id t.clicks ≡ true
    → record_in turn e o (n, t) ≡ some (n, t)
unfolding record_in record_in_on
stored_one turn e none n t seen = rw seen refl
stored_one turn e (some row) n t seen = rw seen refl

stored_all :
    (turn : Turn) (es : List ClickEvent) (n : ℕ) (t : Tables)
    → AreStored es t
    → record_all turn es (n, t) ≡ some (n, t)
unfolding record_all AreStored
stored_all turn [] n t stored = refl
stored_all turn (e ∷ es) n t stored =
    ap
      (λ b. elim (if b then record_in turn e (t.links e.link_id) (n, t) else none) [
        | none ↦ none
        | some acc ↦ record_all turn es acc
      ])
      ((stored.0).1)
    ∙ ap (λ o. elim o [ none ↦ none | some acc ↦ record_all turn es acc ])
        (stored_one turn e (t.links e.link_id) n t ((stored.0).0))
    ∙ stored_all turn es n t (stored.1)

commit-same {ℓ} : {A : Type ℓ} (fault : Fault) (a : A) (t : Tables) → (commit fault a t t).1 ≡ t
commit-same sound a t = refl
commit-same fails a t = refl
commit-same lost a t = refl

pub stored_batch :
    (turn : Turn) (es : List ClickEvent) (t : Tables)
    → AreStored es t
    → ((record_clicks turn es t).1 ≡ t)
      × (record_clicks (record turn { fault = sound }) es t ≡ (Returned.value 0, t))
unfolding record_clicks
stored_batch turn [] t stored = (refl, refl)
stored_batch turn (e ∷ es) t stored = (
  ap (λ o. (end_batch turn.fault o t).1) (stored_all turn (e ∷ es) 0 t stored)
      ∙ commit-same turn.fault 0 t,
  ap (λ o. end_batch sound o t) (stored_all (record turn { fault = sound }) (e ∷ es) 0 t stored),
)

-- What a call leaves: no row is gone, and when it returns no error, the batch is there.
abbrev pub AfterBatch : List ClickEvent → Tables → Returned ℕ × Tables → Type 0
AfterBatch es t (Returned.value n, after) = Keeps t after × AreStored es after
AfterBatch es t (Returned.error, after) = Keeps t after

end_batch-AfterBatch :
    (fault : Fault) (es : List ClickEvent) (t : Tables) (o : Option (ℕ × Tables))
    → AfterAll es t o
    → AfterBatch es t (end_batch fault o t)
unfolding AfterAll
end_batch-AfterBatch fault es t none held = Keeps-refl t
end_batch-AfterBatch sound es t (some (n, after)) held = held
end_batch-AfterBatch fails es t (some (n, after)) held = Keeps-refl t
end_batch-AfterBatch lost es t (some (n, after)) held = held.0

pub record_clicks-AfterBatch :
    (turn : Turn) (es : List ClickEvent) (t : Tables)
    → AreNamed es
    → AfterBatch es t (record_clicks turn es t)
unfolding record_clicks AreStored
record_clicks-AfterBatch turn [] t named = (Keeps-refl t, tt)
record_clicks-AfterBatch turn (e ∷ es) t named =
    end_batch-AfterBatch turn.fault (e ∷ es) t (record_all turn (e ∷ es) (0, t))
      (record_all-AfterAll turn (e ∷ es) (0, t) named)

-- When the transaction of a batch whose events have ids has run to its end, the same batch changes
-- nothing on the tables that it left, whatever the database does, and if the database is sound it
-- returns that no row is new.
pub record_clicks-again :
    (turn later : Turn) (es : List ClickEvent) (n : ℕ) (t t' : Tables)
    → AreNamed es
    → record_all turn es (0, t) ≡ some (n, t')
    → ((record_clicks later es t').1 ≡ t')
      × (record_clicks (record later { fault = sound }) es t' ≡ (Returned.value 0, t'))
unfolding AfterAll
record_clicks-again turn later es n t t' named done =
    let kept = subst (λ o. AfterAll es t o) done (record_all-AfterAll turn es (0, t) named) in
    stored_batch later es t' (kept.1)
