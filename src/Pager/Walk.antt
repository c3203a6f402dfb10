-- ===== src/Pager/Walk.antt =====
-- Pressing Next through a listing: the pager of web/app.js over the pages of
-- internal/store/store.go, with each page loaded before Next is pressed again.
use native.Mathlib.Nat.{zero-add, suc-add}
use shortq.Prelude.{
  ℕ, zero, suc, ◌+◌, ◌-◌, ◌*◌, ◌<◌, ◌≤◌, ◌≡◌, ◌↔◌, ◌⊎◌, refl, ap, ◌∙◌, List, [], ◌∷◌, arith, ltb,
  if◌then◌else◌, length, take, drop, inl, inr, Option, none, some, value, value-show_ℕ,
}
use shortq.State.{Pager}
use shortq.Pager.{first_page, next_page, next_page-pos, turned, loaded_page, page_number}
use shortq.Pager.Server.{list_page, list_page_lem, rows_after, rows_after-LeadsOn, Descends, last}

Nat-cases : (a b : ℕ) → (a < b) ⊎ (b ≤ a)
Nat-cases a b = ground arith

-- The loader: it asks for the page at the cursor, where an empty cursor is left out.
abbrev pub asked_page : ℕ → List ℕ → Pager → List ℕ × ℕ
asked_page limit ids p = list_page limit (value p.cursor) ids

abbrev pub load_page : ℕ → List ℕ → Pager → Pager
load_page limit ids p = loaded_page (asked_page limit ids p).1 p

abbrev pub load_next : ℕ → List ℕ → Option Pager → Option Pager
load_next limit ids none = none
load_next limit ids (some p) = some (load_page limit ids p)

abbrev pub next_of : Option Pager → Option Pager
next_of none = none
next_of (some p) = next_page p

-- The pager after `n` presses of Next, if none of them was refused.
pub presses : ℕ → List ℕ → ℕ → Option Pager
presses limit ids zero = some (load_page limit ids first_page)
presses limit ids (suc n) = load_next limit ids (next_of (presses limit ids n))

-- The pager shows page `n`, counted from 0.
pub record ShowsPage (limit : ℕ) (ids : List ℕ) (n : ℕ) (p : Pager) : Type 0 where
  pub rows : rows_after (value p.cursor) ids ≡ drop (n * limit) ids
  pub number : page_number p ≡ n + 1
  pub items : (asked_page limit ids p).0 ≡ take limit (drop (n * limit) ids)
  pub next : p.next ≡ (
      if ltb limit (length (drop (n * limit) ids))
      then last 0 (take limit (drop (n * limit) ids))
      else 0)

length-drop : (n : ℕ) (xs : List ℕ) → length (drop n xs) ≡ length xs - n
length-drop zero xs = omega arith
length-drop (suc n) [] = omega arith
length-drop (suc n) (x ∷ xs) = omega (arith, length-drop n xs)

drop-nil : (m : ℕ) → drop {A = ℕ} m [] ≡ []
drop-nil zero = refl
drop-nil (suc m) = refl

drop-drop : (m n : ℕ) (xs : List ℕ) → drop m (drop n xs) ≡ drop (n + m) xs
drop-drop m zero xs = rw zero-add
drop-drop m (suc n) [] = rw suc-add (drop-nil m)
drop-drop m (suc n) (x ∷ xs) = rw suc-add (drop-drop m n xs)

-- The rows behind page `n` are those of page `n + 1`.
drop-page : (k n : ℕ) (xs : List ℕ) → drop (suc k) (drop (n * suc k) xs) ≡ drop (suc n * suc k) xs
drop-page k n xs = drop-drop (suc k) (n * suc k) xs ∙ ap (λ m. drop m xs) (omega arith)

load_page-ShowsPage :
    (k : ℕ) (ids : List ℕ) (n : ℕ) (p : Pager)
    → k < 500
    → rows_after (value p.cursor) ids ≡ drop (n * suc k) ids
    → page_number p ≡ n + 1
    → ShowsPage (suc k) ids n (load_page (suc k) ids p)
load_page-ShowsPage k ids n p small at number = record {
  rows = at;
  number = number;
  items = rw (list_page_lem k (value p.cursor) ids small, at);
  next = rw (list_page_lem k (value p.cursor) ids small, at);
}

first-rows : (k : ℕ) (ids : List ℕ) → rows_after (value []) ids ≡ drop (0 * suc k) ids
unfolding rows_after value
first-rows k ids =
    let none_left : 0 ≡ 0 * suc k = omega arith in ap (λ (m : ℕ). drop m ids) none_left

module _ (b k : ℕ) (ids : List ℕ) (ds : Descends b ids) (small : k < 500) where
  abbrev shown : ℕ → List ℕ
  shown n = drop (n * suc k) ids

  has_more : (n : ℕ) → suc n * suc k < length ids → suc k < length (shown n)
  has_more n more = omega (arith, length-drop (n * suc k) ids)

  abbrev last_of : ℕ → ℕ
  last_of n = last 0 (take (suc k) (shown n))

  leads :
      (n : ℕ) (p : Pager)
      → ShowsPage (suc k) ids n p
      → suc n * suc k < length ids
      → (rows_after (last_of n) ids ≡ shown (suc n)) × (0 < last_of n)
  leads n p s more =
      let l =
        rows_after-LeadsOn b (value p.cursor) k ids ds
          (rw s.rows (omega (arith, has_more n more))) in
      let (to, positive) = rw s.rows at l in (to ∙ drop-page k n ids, positive)

  next-last_of :
      (n : ℕ) (p : Pager)
      → ShowsPage (suc k) ids n p
      → suc n * suc k < length ids
      → p.next ≡ last_of n
  next-last_of n p s more = ground (arith, s.next, has_more n more)

  -- Pressing Next on a page with rows behind it shows the page behind it.
  advance-ShowsPage :
      (n : ℕ) (p : Pager)
      → ShowsPage (suc k) ids n p
      → suc n * suc k < length ids
      → (q : Pager) × (next_page p ≡ some q)
        × ShowsPage (suc k) ids (suc n) (load_page (suc k) ids q)
  unfolding turned
  advance-ShowsPage n p s more =
      let (to, positive) = leads n p s more in
      let e = next-last_of n p s more in
      (
        turned p.next p,
        next_page-pos p (rw e positive),
        load_page-ShowsPage k ids (suc n) (turned p.next p) small (rw (value-show_ℕ, e) to)
            (omega (arith, s.number)),
      )

  -- `n` presses of Next show page `n`: the next rows, the right number, and the way on.
  presses-ShowsPage :
      (n : ℕ)
      → n * suc k < length ids
      → (p : Pager) × (presses (suc k) ids n ≡ some p) × ShowsPage (suc k) ids n p
  unfolding presses
  presses-ShowsPage zero h = (
    load_page (suc k) ids first_page,
    refl,
    load_page-ShowsPage k ids 0 first_page small (first-rows k ids) refl,
  )
  presses-ShowsPage (suc n) h =
      let (p, e, s) = presses-ShowsPage n (omega arith) in
      let (q, turn, t) = advance-ShowsPage n p s h in (load_page (suc k) ids q, rw (e, turn), t)

-- Whether there is a next page is whether rows are left.
next-zero :
    (limit n b : ℕ) (ids : List ℕ) (p : Pager)
    → Descends b ids
    → 0 < limit
    → limit ≤ 500
    → ShowsPage limit ids n p
    → (p.next ≡ 0) ↔ (length ids ≤ suc n * limit)
next-zero zero n b ids p ds pos most s = absurd (omega arith)
next-zero (suc k) n b ids p ds pos most s = (
  λ e. elim (Nat-cases (suc n * suc k) (length ids)) [
    | inl more ↦
        let positive = (leads b k ids ds (omega arith) n p s more).1 in
        let same = next-last_of b k ids ds (omega arith) n p s more in absurd (omega arith)
    | inr done ↦ done
  ],
  λ done. ground (arith, s.next, length-drop (n * suc k) ids),
)

-- For a page size from 1 to 500 and rows of descending positive identifiers, pressing Next `n`
-- times, each time after the page has come, is never refused while there are
-- rows left, and then page `n` is shown: the rows behind the first `n * limit` ones, at most
-- `limit` of them, under the number `n + 1`; Next is off exactly if no row is behind them.
pub presses-show_pages :
    (limit n b : ℕ) (ids : List ℕ)
    → 0 < limit
    → limit ≤ 500
    → Descends b ids
    → n * limit < length ids
    → (p : Pager) × (presses limit ids n ≡ some p)
      × ((asked_page limit ids p).0 ≡ take limit (drop (n * limit) ids))
      × (page_number p ≡ n + 1)
      × ((p.next ≡ 0) ↔ (length ids ≤ suc n * limit))
presses-show_pages zero n b ids pos most ds h = absurd (omega arith)
presses-show_pages (suc k) n b ids pos most ds h =
    let (p, e, s) = presses-ShowsPage b k ids ds (omega arith) n h in
    (p, e, s.items, s.number, next-zero (suc k) n b ids p ds pos most s)
