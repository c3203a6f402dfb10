-- ===== src/Report/Bounds.antt =====
-- The scale and the labels of the charts of a report.
use shortq.Prelude.{
  ℕ, suc, ◌+◌, ◌-◌, ◌/◌, ◌≤◌, ◌≡◌, ◌⊎◌, inl, inr, refl, ap, sym, arith, List, [], ◌∷◌, Bool, true,
  false, ◌==◌, leb, length, Bool-cases,
}
use mathlib.Core.Path.{subst}
use shortq.State.Platform.{Numbers}
use shortq.State.ReportData.{Point}
use shortq.Report.Lines.{Coord, coords, chart_coords, labelled}
use shortq.Report.Charts.{max_clicks}

-- No point is above a number.
abbrev pub AllUpTo : ℕ → List Point → Type 0
AllUpTo m [] = Unit {0}
AllUpTo m (p ∷ ps) = (p.clicks ≤ m) × AllUpTo m ps

-- Some point is at a number.
abbrev pub Reaches : ℕ → List Point → Type 0
Reaches m [] = ⊥
Reaches m (p ∷ ps) = (p.clicks ≡ m) ⊎ Reaches m ps

AllUpTo-more : (m n : ℕ) (ps : List Point) → m ≤ n → AllUpTo m ps → AllUpTo n ps
AllUpTo-more m n [] h k = tt
AllUpTo-more m n (p ∷ ps) h (k, ks) = (omega arith, AllUpTo-more m n ps h ks)

max_none : max_clicks [] ≡ 1
unfolding max_clicks
max_none = refl

max_below :
    (p : Point) (ps : List Point)
    → leb p.clicks (max_clicks ps) ≡ true
    → max_clicks (p ∷ ps) ≡ max_clicks ps
unfolding max_clicks
max_below p ps below = rw below refl

max_above :
    (p : Point) (ps : List Point)
    → leb p.clicks (max_clicks ps) ≡ false
    → max_clicks (p ∷ ps) ≡ p.clicks
unfolding max_clicks
max_above p ps above = rw above refl

most_above : (ps : List Point) → (1 ≤ max_clicks ps) × AllUpTo (max_clicks ps) ps
most_above [] = rw max_none (omega arith, tt)
most_above (p ∷ ps) =
    let (one, rest) = most_above ps in
    elim (Bool-cases (leb p.clicks (max_clicks ps))) [
      | inl below ↦
          subst (λ m. (1 ≤ m) × AllUpTo m (p ∷ ps)) (sym (max_below p ps below))
            (one, (ground arith, rest))
      | inr above ↦
          subst (λ m. (1 ≤ m) × AllUpTo m (p ∷ ps)) (sym (max_above p ps above))
            (
              ground arith,
              (omega arith, AllUpTo-more (max_clicks ps) p.clicks ps (ground arith) rest),
            )
    ]

most_reached : (ps : List Point) → (max_clicks ps ≡ 1) ⊎ Reaches (max_clicks ps) ps
most_reached [] = inl max_none
most_reached (p ∷ ps) = elim (Bool-cases (leb p.clicks (max_clicks ps))) [
  | inl below ↦
      subst (λ m. (m ≡ 1) ⊎ Reaches m (p ∷ ps)) (sym (max_below p ps below))
        (elim (most_reached ps) [ inl one ↦ inl one | inr reached ↦ inr (inr reached) ])
  | inr above ↦
      subst (λ m. (m ≡ 1) ⊎ Reaches m (p ∷ ps)) (sym (max_above p ps above)) (inr (inl refl))
]

one_if : Bool → ℕ
one_if true = 1
one_if false = 0

few :
    (count i : ℕ) (cs : List Coord)
    → length (labelled count i cs)
      ≤ one_if (i == 0) + one_if (leb i (count - 1)) + one_if (leb i (count / 2))
unfolding labelled one_if
few count i [] = omega arith
few count i (c ∷ cs) = ground (arith, few count (suc i) cs)

coords-length :
    (n : Numbers) (span most i : ℕ) (ps : List Point) → length (coords n span most i ps) ≡ length ps
unfolding coords
coords-length n span most i [] = refl
coords-length n span most i (p ∷ ps) = ap suc (coords-length n span most (suc i) ps)

one_at_most : (b : Bool) → one_if b ≤ 1
unfolding one_if
one_at_most true = omega arith
one_at_most false = omega arith

three_labels : (count : ℕ) (cs : List Coord) → length (labelled count 0 cs) ≤ 3
three_labels count cs =
    let all = few count 0 cs in
    let first = one_at_most (0 == 0) in
    let last = one_at_most (leb 0 (count - 1)) in
    let middle = one_at_most (leb 0 (count / 2)) in omega arith

-- The scale of a chart is the largest number of clicks of its points, or 1 if all are 0 or there
-- are none: it is at least 1, no point is above it, and it is 1 or some point is at it. A line has
-- as many corners as there are points, and at most three of them are labelled.
pub chart-bounds :
    (n : Numbers) (ps : List Point)
    → (1 ≤ max_clicks ps)
      × AllUpTo (max_clicks ps) ps
      × ((max_clicks ps ≡ 1) ⊎ Reaches (max_clicks ps) ps)
      × (length (chart_coords n ps) ≡ length ps)
      × (length (labelled (length ps) 0 (chart_coords n ps)) ≤ 3)
unfolding chart_coords
chart-bounds n ps =
    let (one, above) = most_above ps in
    (
      one,
      above,
      most_reached ps,
      coords-length n _ (max_clicks ps) 0 ps,
      three_labels (length ps) (chart_coords n ps),
    )
