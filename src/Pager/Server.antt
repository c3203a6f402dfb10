-- ===== src/Pager/Server.antt =====
-- internal/store/store.go, the pages that the server cuts: `ListLinksPage`, over the identifiers
-- of the links that the user may see. The query is `WHERE id < cursor ORDER BY id DESC LIMIT
-- limit + 1`; the table is given in the order of the query.
use native.Mathlib.Numerals.{add-one}
use shortq.Prelude.{
  ℕ, zero, suc, ◌+◌, ◌<◌, ◌≤◌, ◌≡◌, Bool-cases, inl, inr, refl, sym, ap, false, ◌∙◌, ◌||◌, List, [],
  ◌∷◌, arith, ltb, ◌==◌, if◌then◌else◌, length, take, drop,
}

below : ℕ → List ℕ → List ℕ
below c [] = []
below c (x ∷ xs) = if ltb x c then x ∷ below c xs else below c xs

-- No cursor, which the server reads as 0, is no condition.
unfoldable pub rows_after : ℕ → List ℕ → List ℕ
unfolding below
rows_after cursor ids = if cursor == 0 then ids else below cursor ids

abbrev pub last : ℕ → List ℕ → ℕ
last d [] = d
last d (x ∷ xs) = last x xs

cut_page : ℕ → List ℕ → List ℕ × ℕ
cut_page limit rows =
    if ltb limit (length rows) then (take limit rows, last 0 (take limit rows)) else (rows, 0)

-- The limit that the server takes: its default where the one asked for is out of range.
page_limit : ℕ → ℕ
page_limit asked = if ltb asked 1 || ltb 500 asked then 100 else asked

page_limit-suc : (k : ℕ) → k < 500 → page_limit (suc k) ≡ suc k
unfolding page_limit
page_limit-suc k h = ground arith

-- `ListLinksPage`: the items of a page and its `next_cursor`, 0 on the last page.
unfoldable pub list_page : ℕ → ℕ → List ℕ → List ℕ × ℕ
unfolding rows_after cut_page page_limit
list_page asked cursor ids =
    cut_page (page_limit asked) (take (page_limit asked + 1) (rows_after cursor ids))

-- Strictly descending, positive and below a bound: identifiers in the order of the query.
abbrev pub Descends : ℕ → List ℕ → Type 0
Descends b [] = Unit
Descends b (x ∷ xs) = (0 < x) × (x < b) × Descends x xs

Descends-weaken : (b c : ℕ) (xs : List ℕ) → Descends b xs → b ≤ c → Descends c xs
Descends-weaken b c [] d h = tt
Descends-weaken b c (x ∷ xs) d h = (d.0, omega arith, d.2)

below-all : (b c : ℕ) (xs : List ℕ) → Descends b xs → b ≤ c → below c xs ≡ xs
unfolding below
below-all b c [] d h = refl
below-all b c (x ∷ xs) d h = ground (arith, below-all x c xs d.2 (omega arith))

Descends-below : (b c : ℕ) (xs : List ℕ) → Descends b xs → Descends c (below c xs)
unfolding below
Descends-below b c [] d = tt
Descends-below b c (x ∷ xs) d = elim (Bool-cases (ltb x c)) [
  | inl lt ↦ rw (lt, below-all x c xs d.2 (ground arith)) (d.0, ground arith, d.2)
  | inr ge ↦ rw ge (Descends-below x c xs d.2)
]

below-below : (y c : ℕ) (xs : List ℕ) → y ≤ c → below y (below c xs) ≡ below y xs
unfolding below
below-below y c [] h = refl
below-below y c (x ∷ xs) h = ground (arith, below-below y c xs h)

-- The rows below the last row of a page are the rows behind the page.
record PageEnd (b k : ℕ) (xs : List ℕ) (y : ℕ) : Type 0 where
  rest : below y xs ≡ drop (suc k) xs
  positive : 0 < y
  bounded : y < b

page_end :
    (b k d : ℕ) (xs : List ℕ)
    → Descends b xs
    → k < length xs
    → PageEnd b k xs (last d (take (suc k) xs))
unfolding below
page_end b k d [] ds h = absurd (omega arith)
page_end b zero d (x ∷ xs) ds h = record {
  rest = ground (arith, below-all x x xs ds.2 (omega arith));
  positive = ds.0;
  bounded = ds.1;
}
page_end b (suc k) d (x ∷ xs) ds h =
    let e = page_end x k x xs ds.2 (omega arith) in
    record {
      rest = ground (arith, e.rest, e.bounded);
      positive = e.positive;
      bounded = omega arith;
    }

rows_after-pos : (y : ℕ) (xs : List ℕ) → 0 < y → rows_after y xs ≡ below y xs
unfolding rows_after
rows_after-pos y xs h = ground arith

-- The last row of a page is the cursor of the rows behind the page, and is a cursor: not 0.
abbrev pub LeadsOn : ℕ → List ℕ → List ℕ → Type 0
LeadsOn k rows xs =
    (rows_after (last 0 (take (suc k) rows)) xs ≡ drop (suc k) rows)
    × (0 < last 0 (take (suc k) rows))

below-LeadsOn :
    (b c k : ℕ) (xs : List ℕ) → Descends b xs → k < length (below c xs) → LeadsOn k (below c xs) xs
below-LeadsOn b c k xs ds h =
    let e = page_end c k 0 (below c xs) (Descends-below b c xs ds) h in
    (
      rows_after-pos (last 0 (take (suc k) (below c xs))) xs e.positive
          ∙ sym (below-below (last 0 (take (suc k) (below c xs))) c xs (omega (arith, e.bounded)))
          ∙ e.rest,
      e.positive,
    )

suc-==-zero : (c : ℕ) → (suc c == 0) ≡ false
suc-==-zero c = ground arith

pub rows_after-LeadsOn :
    (b c k : ℕ) (xs : List ℕ)
    → Descends b xs
    → k < length (rows_after c xs)
    → LeadsOn k (rows_after c xs) xs
unfolding rows_after
rows_after-LeadsOn b zero k xs ds h =
    let e = page_end b k 0 xs ds h in
    (rows_after-pos (last 0 (take (suc k) xs)) xs e.positive ∙ e.rest, e.positive)
rows_after-LeadsOn b (suc c) k xs ds h =
    rw (suc-==-zero c) (below-LeadsOn b (suc c) k xs ds (rw (suc-==-zero c) at h))

take-take : (k : ℕ) (xs : List ℕ) → take k (take (suc k) xs) ≡ take k xs
take-take zero xs = refl
take-take (suc k) [] = refl
take-take (suc k) (x ∷ xs) = ap (x ∷◌) (take-take k xs)

-- Cutting one row more than the page holds decides whether there is a next page.
cut_page-take :
    (k : ℕ) (xs : List ℕ)
    → (ltb k (length (take (suc k) xs)) ≡ ltb k (length xs))
      × ((ltb k (length xs) ≡ false) → take (suc k) xs ≡ take k xs)
cut_page-take zero [] = (refl, λ _. refl)
cut_page-take zero (x ∷ xs) = (ground arith, λ e. ground arith)
cut_page-take (suc k) [] = (refl, λ _. refl)
cut_page-take (suc k) (x ∷ xs) =
    let (same, short) = cut_page-take k xs in
    (ground (arith, same), λ e. ap (x ∷◌) (short (ground arith)))

cut_page_lem :
    (k : ℕ) (xs : List ℕ)
    → cut_page k (take (suc k) xs)
      ≡ (take k xs, if ltb k (length xs) then last 0 (take k xs) else 0)
unfolding cut_page
cut_page_lem k xs = elim (Bool-cases (ltb k (length xs))) [
  | inl more ↦ rw ((cut_page-take k xs).0, more, take-take)
  | inr done ↦ rw ((cut_page-take k xs).0, done, (cut_page-take k xs).1 done)
]

-- A page in terms of the rows from its cursor on, for a limit that the server accepts.
pub list_page_lem :
    (k c : ℕ) (xs : List ℕ)
    → k < 500
    → list_page (suc k) c xs ≡ (
      take (suc k) (rows_after c xs),
      if ltb (suc k) (length (rows_after c xs)) then last 0 (take (suc k) (rows_after c xs)) else 0,
    )
unfolding list_page
list_page_lem k c xs h = rw (page_limit-suc k h, add-one) (cut_page_lem (suc k) (rows_after c xs))
