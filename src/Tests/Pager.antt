-- ===== src/Tests/Pager.antt =====
-- Tests of the paginated listings.
use shortq.Prelude.{
  ℕ, [], ◌∷◌, ◌+◌, ◌*◌, ◌≤◌, ◌≡◌, ◌↔◌, refl, codes, some, arith, take, drop, length, show_ℕ,
}
use shortq.State.{Pager}
use shortq.Pager.{next_page, page_number}
use shortq.Pager.Server.{list_page}
use shortq.Pager.Walk.{presses, asked_page, presses-show_pages}

list_page_first : list_page 2 0 (9 ∷ 7 ∷ 4 ∷ []) ≡ (9 ∷ 7 ∷ [], 7)
unfolding list_page
list_page_first = refl

list_page_last : list_page 2 7 (9 ∷ 7 ∷ 4 ∷ []) ≡ (4 ∷ [], 0)
unfolding list_page
list_page_last = refl

presses-show_pages_example :
    (p : Pager) × (presses 2 (9 ∷ 7 ∷ 4 ∷ []) 1 ≡ some p)
    × ((asked_page 2 (9 ∷ 7 ∷ 4 ∷ []) p).0 ≡ take 2 (drop (1 * 2) (9 ∷ 7 ∷ 4 ∷ [])))
    × (page_number p ≡ 1 + 1)
    × ((p.next ≡ 0) ↔ (length {A = ℕ} (9 ∷ 7 ∷ 4 ∷ []) ≤ 2 * 2))
presses-show_pages_example =
    presses-show_pages 2 1 10 (9 ∷ 7 ∷ 4 ∷ []) (omega arith) (omega arith) (omega arith)
      (omega arith)

abbrev second_page : Pager
second_page = record { cursor = codes "9"; history = [] ∷ []; next = 4 }

abbrev third_page : Pager
third_page = record { cursor = codes "4"; history = codes "9" ∷ [] ∷ []; next = 4 }

second_to_third : next_page second_page ≡ some third_page
unfolding next_page show_ℕ
second_to_third = refl
