-- ===== src/Pager/Laws.antt =====
-- web/app.js, `nextLinkPage` and `previousLinkPage`: the history of cursors.
use shortq.Prelude.{ℕ, ◌≡◌, some, arith}
use shortq.State.{Pager}
use shortq.Pager.{next_page, previous_page, loaded_page}

-- Forward and back again: the cursor and the history are those before, whatever page came.
pub previous-next :
    (p q : Pager) (n : ℕ)
    → next_page p ≡ some q
    → previous_page (loaded_page n q) ≡ some (loaded_page n p)
unfolding next_page previous_page
previous-next p q n h = ground arith
