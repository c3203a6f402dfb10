-- ===== src/Clicks/Ledger.antt =====
-- The counters of the links and the rollups against the rows of `clicks`.
use shortq.Prelude.{
  ℕ, suc, ◌+◌, ◌≤◌, ◌≡◌, refl, sym, ap, ◌∙◌, arith, List, [], ◌∷◌, Bool, true, false, ◌&&◌, ◌==◌,
  if◌then◌else◌, length, Bool-cases, inl, inr, Option, none, some,
}
use shortq.Clicks.Event.{ClickEvent}
use shortq.Clicks.{
  LinkRow, RollupKey, Tables, Turn, is_recorded, is_below, dated, add_rollup, key_of, same_key,
  count_click, note_click,
}

-- The rows that count on a link.
unfoldable pub increments : ℕ → List ClickEvent → ℕ
increments id [] = 0
increments id (e ∷ es) =
    let rest = increments id es in if e.increment && (e.link_id == id) then suc rest else rest

-- The clicks of all rollups.
unfoldable pub rollup_total : List (RollupKey × ℕ) → ℕ
rollup_total [] = 0
rollup_total ((k, n) ∷ rs) = n + rollup_total rs

-- No two rows have the same id.
abbrev pub Distinct : List ClickEvent → Type 0
Distinct [] = Unit {0}
Distinct (e ∷ es) = (is_recorded e.event_id es ≡ false) × Distinct es

-- Each link counts the rows that increment it; each row is in one rollup; and each id of an event is
-- in one row.
pub record IsBalanced (t : Tables) : Type 0 where
  pub exact : (id : ℕ) (row : LinkRow) → t.links id ≡ some row → row.clicks ≡ increments id t.clicks
  pub rolled_up : rollup_total t.rollups ≡ length t.clicks
  pub distinct : Distinct t.clicks

-- No link counts more than its limit.
abbrev pub IsLimited : Tables → Type 0
IsLimited t =
    (id : ℕ) (row : LinkRow) (m : ℕ)
    → t.links id ≡ some row
    → row.max_clicks ≡ some m
    → row.clicks ≤ m

rollup_total-add_rollup :
    (k : RollupKey) (rs : List (RollupKey × ℕ))
    → rollup_total (add_rollup k rs) ≡ suc (rollup_total rs)
unfolding rollup_total add_rollup
rollup_total-add_rollup k [] = refl
rollup_total-add_rollup k ((j, n) ∷ rs) = elim (Bool-cases (same_key j k)) [
  | inl same ↦ rw same (omega arith)
  | inr other ↦ rw other (omega (arith, rollup_total-add_rollup k rs))
]

abbrev pub clicks_of : Option LinkRow → ℕ
clicks_of none = 0
clicks_of (some row) = row.clicks

abbrev pub limit_of : Option LinkRow → Option ℕ
limit_of none = none
limit_of (some row) = row.max_clicks

below_limit : (o : Option ℕ) (n m : ℕ) → is_below o n ≡ true → o ≡ some m → suc n ≤ m
below_limit none n m room limit = cc
below_limit (some k) n m room limit = let same : k ≡ m = cc in ground arith

module _ (turn : Turn) (e : ClickEvent) (t : Tables) (balanced : IsBalanced t)
    (fresh : is_recorded e.event_id t.clicks ≡ false) where
  pub after_note : e.increment ≡ false → IsBalanced (note_click turn e t)
  unfolding note_click increments
  after_note idle = record {
    exact = λ id row found. rw idle (balanced.exact id row found);
    rolled_up =
        rollup_total-add_rollup (key_of (dated turn e)) t.rollups ∙ ap suc balanced.rolled_up;
    distinct = (fresh, balanced.distinct);
  }

  module _ (row : LinkRow) (found : t.links e.link_id ≡ some row)
      (counts : e.increment ≡ true) where
    -- The link's row, by whether a link is the one that was clicked.
    counted_at :
        (id : ℕ) (b : Bool) (r : LinkRow)
        → (id == e.link_id) ≡ b
        → (if b then some (record row { clicks = suc row.clicks }) else t.links id) ≡ some r
        → r.clicks ≡ increments id (dated turn e ∷ t.clicks)
    unfolding increments
    counted_at id true r here at =
        let same : (e.link_id == id) ≡ true = ground arith in
        let clicked : id ≡ e.link_id = ground arith in
        rw (counts, same)
          (sym (ap clicks_of at)
            ∙ ap suc (balanced.exact e.link_id row found)
            ∙ ap (λ j. suc (increments j t.clicks)) (sym clicked))
    counted_at id false r there at =
        let other : (e.link_id == id) ≡ false = ground arith in
        rw (counts, other) (balanced.exact id r at)

    pub after_count : IsBalanced (count_click turn e row t)
    unfolding count_click
    after_count = record {
      exact = λ id r at. counted_at id (id == e.link_id) r refl at;
      rolled_up =
          rollup_total-add_rollup (key_of (dated turn e)) t.rollups ∙ ap suc balanced.rolled_up;
      distinct = (fresh, balanced.distinct);
    }

module _ (turn : Turn) (e : ClickEvent) (t : Tables) (limited : IsLimited t) (row : LinkRow)
    (room : is_below row.max_clicks row.clicks ≡ true) where
  limited_at :
      (id : ℕ) (b : Bool) (r : LinkRow) (m : ℕ)
      → (if b then some (record row { clicks = suc row.clicks }) else t.links id) ≡ some r
      → r.max_clicks ≡ some m
      → r.clicks ≤ m
  limited_at id true r m at limit =
      let kept : row.max_clicks ≡ some m = ap limit_of at ∙ limit in
      let count : suc row.clicks ≡ r.clicks = ap clicks_of at in
      let within = below_limit row.max_clicks row.clicks m room kept in omega arith
  limited_at id false r m at limit = limited id r m at limit

  pub count_click-IsLimited : IsLimited (count_click turn e row t)
  unfolding count_click
  count_click-IsLimited id r m at limit = limited_at id (id == e.link_id) r m at limit
