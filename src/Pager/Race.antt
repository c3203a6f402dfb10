-- ===== src/Pager/Race.antt =====
-- Next pressed again while the page is still on its way: `nextLinkPage` and its three copies
-- keep the cursor of the next page until a page has come.
use shortq.Prelude.{ℕ, zero, suc, ◌+◌, ◌<◌, ◌≡◌, refl, arith, Option, none, some, show_ℕ}
use shortq.State.{Pager}
use shortq.Pager.{next_page, next_page-pos, turned, page_number}

abbrev pub again : Option Pager → Option Pager
again none = none
again (some p) = next_page p

-- `n` presses of Next with no reply between them.
pub hurry : ℕ → Pager → Option Pager
hurry zero p = some p
hurry (suc n) p = again (hurry n p)

-- Where there is a next page, however often Next is pressed before the page comes, the page that is asked for is the one
-- behind the page shown, and each press adds one to the page number.
pub hurry-miscounts :
    (n : ℕ) (p : Pager)
    → 0 < p.next
    → (q : Pager) × (hurry (suc n) p ≡ some q)
      × (q.cursor ≡ show_ℕ p.next)
      × (q.next ≡ p.next)
      × (page_number q ≡ page_number p + suc n)
unfolding hurry turned
hurry-miscounts zero p h = (turned p.next p, next_page-pos p h, refl, refl, omega arith)
hurry-miscounts (suc n) p h =
    let (q, e, _, same, count) = hurry-miscounts n p h in
    (turned q.next q, rw e (next_page-pos q (rw same h)), rw same, same, omega (arith, count))
