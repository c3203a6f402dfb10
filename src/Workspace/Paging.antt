-- ===== src/Workspace/Paging.antt =====
-- web/app.js, the handlers of the pagination buttons, the page-size menus and the filter forms.
pub mod Requests
use shortq.Prelude.{Option, none, some}
use shortq.State.{App, Pager}
use shortq.State.Monad.{M, pure, ◌>>=◌, ◌>>◌, modify, gets, detach}
use shortq.Pager.{
  next_page, previous_page, reset_link_pagination, reset_user_pagination, reset_audit_pagination,
  reset_click_pagination,
}
use shortq.Workspace.{load_links, load_clicks}
use shortq.Workspace.Admin.{load_customers, load_audit_events}

-- A button that is refused does nothing; else the new page is asked for and not awaited.
abbrev turn : (Pager → App → App) → M (Unit {0}) → Option Pager → M (Unit {0})
turn set load none = pure tt
turn set load (some p) = do modify (set p); detach load

abbrev set_links : Pager → App → App
set_links p s = record s { link_pages = p }

abbrev set_users : Pager → App → App
set_users p s = record s { user_pages = p }

abbrev set_audit : Pager → App → App
set_audit p s = record s { audit_pages = p }

abbrev set_clicks : Pager → App → App
set_clicks p s = record s { click_pages = p }

unfoldable pub change_link_page_size : M (Unit {0})
change_link_page_size = do modify reset_link_pagination; detach load_links

unfoldable pub next_link_page : M (Unit {0})
next_link_page = do p ← gets (λ s. next_page s.link_pages); turn set_links load_links p

unfoldable pub previous_link_page : M (Unit {0})
previous_link_page = do p ← gets (λ s. previous_page s.link_pages); turn set_links load_links p

-- `filterUsers` and `changeUserPageSize` do the same.
unfoldable pub filter_users : M (Unit {0})
filter_users = do modify reset_user_pagination; detach load_customers

unfoldable pub change_user_page_size : M (Unit {0})
change_user_page_size = do modify reset_user_pagination; detach load_customers

unfoldable pub next_user_page : M (Unit {0})
next_user_page = do p ← gets (λ s. next_page s.user_pages); turn set_users load_customers p

unfoldable pub previous_user_page : M (Unit {0})
previous_user_page = do p ← gets (λ s. previous_page s.user_pages); turn set_users load_customers p

unfoldable pub filter_audit_events : M (Unit {0})
filter_audit_events = do modify reset_audit_pagination; detach load_audit_events

unfoldable pub change_audit_page_size : M (Unit {0})
change_audit_page_size = do modify reset_audit_pagination; detach load_audit_events

unfoldable pub next_audit_page : M (Unit {0})
next_audit_page = do p ← gets (λ s. next_page s.audit_pages); turn set_audit load_audit_events p

unfoldable pub previous_audit_page : M (Unit {0})
previous_audit_page = do
  p ← gets (λ s. previous_page s.audit_pages)
  turn set_audit load_audit_events p

unfoldable pub change_click_page_size : M (Unit {0})
change_click_page_size = do modify reset_click_pagination; detach load_clicks

unfoldable pub next_click_page : M (Unit {0})
next_click_page = do p ← gets (λ s. next_page s.click_pages); turn set_clicks load_clicks p

unfoldable pub previous_click_page : M (Unit {0})
previous_click_page = do p ← gets (λ s. previous_page s.click_pages); turn set_clicks load_clicks p
