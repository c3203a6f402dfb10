-- ===== src/Pager.antt =====
-- web/app.js, the four paginated listings. Each of them has its own three variables and its own
-- copy of the four functions; the functions here that carry a listing's name are those copies,
-- without the request that ends them (Workspace has the whole handlers).
pub mod Laws
pub mod Race
pub mod Server
pub mod Walk
use shortq.Prelude.{
  ℕ, zero, suc, ◌+◌, ◌<◌, ◌≡◌, refl, [], ◌∷◌, Text, codes, show_ℕ, length, Option, none, some,
}
use shortq.State.{Pager, App}

-- `reset…Pagination`.
abbrev pub first_page : Pager
first_page = record { cursor = []; history = []; next = 0 }

-- `next…Page`: `none` where it returns before it asks for a page.
advance : ℕ → Pager → Option Pager
advance zero p = none
advance (suc n) p = some (record p { history = p.cursor ∷ p.history; cursor = show_ℕ (suc n) })

unfoldable pub next_page : Pager → Option Pager
unfolding advance
next_page p = advance p.next p

unfoldable pub turned : ℕ → Pager → Pager
turned n p = record p { history = p.cursor ∷ p.history; cursor = show_ℕ n }

advance-pos : (n : ℕ) (p : Pager) → 0 < n → advance n p ≡ some (turned n p)
unfolding advance turned
advance-pos zero p h = elim h [ ]
advance-pos (suc n) p h = refl

-- Where there is a next page, its cursor is shown and the current one is kept.
pub next_page-pos : (p : Pager) → 0 < p.next → next_page p ≡ some (turned p.next p)
unfolding next_page
next_page-pos p h = advance-pos p.next p h

retreat : Pager → Option Pager
retreat p = elim p.history [
  | [] ↦ none
  | c ∷ older ↦ some (record p { cursor = c; history = older })
]

-- `previous…Page`.
unfoldable pub previous_page : Pager → Option Pager
unfolding retreat
previous_page p = retreat p

-- What a loader stores of a page that came: `page.next_cursor || 0`.
abbrev pub loaded_page : ℕ → Pager → Pager
loaded_page next p = record p { next = next }

-- The number that the page shows.
abbrev pub page_number : Pager → ℕ
page_number p = length p.history + 1

unfoldable pub reset_link_pagination : App → App
reset_link_pagination s = record s { link_pages = first_page }

unfoldable pub reset_user_pagination : App → App
reset_user_pagination s = record s { user_pages = first_page }

unfoldable pub reset_audit_pagination : App → App
reset_audit_pagination s = record s { audit_pages = first_page }

unfoldable pub reset_click_pagination : App → App
reset_click_pagination s = record s { click_pages = first_page }
