-- ===== src/Workspace.antt =====
-- web/app.js, the loaders: each asks the server for what a panel shows and puts it into the page.
pub mod Admin
pub mod Frame
pub mod Keeps
pub mod Pagination
pub mod Load
pub mod Paging
pub mod Runtime
use shortq.Prelude.{
  ℕ, List, [], ◌∷◌, ◌++◌, Text, codes, show_ℕ, Bool, true, false, not, ◌==◌, is_empty,
  if◌then◌else◌, Option, none, some, String,
}
use shortq.State.{
  App, Dom, Body, null, plain_text, link_page, user_page, click_page, audit_page, breakdown, keys,
  tenants, domains, counters, Link, User, Click, Share, AuditEvent, ApiKey, Tenant, Domain, Pager,
  Request, set_content, set_hidden, set_disabled,
}
use shortq.State.Monad.{
  Env, M, Result, ok, throw, Thrown, type_error, pure, raise, then_run, ◌>>=◌, ◌>>◌, modify, gets,
  page, locale, both,
}
use shortq.Html.{Piece, render}
use shortq.Pager.{loaded_page, page_number}
use shortq.Views.Links.{home_links_html, links_html, clicks_html, breakdown_html, stats_html}
use shortq.Views.Admin.{keys_html}
use shortq.Api.{api, get_request}

-- `page.items || []` and `page.next_cursor || 0` of an answer.
abbrev pub links_of : Body → List Link
links_of (link_page xs n) = xs
links_of _ = []

abbrev pub users_of : Body → List User
users_of (user_page xs n) = xs
users_of _ = []

abbrev pub clicks_of : Body → List Click
clicks_of (click_page xs n) = xs
clicks_of _ = []

abbrev pub events_of : Body → List AuditEvent
events_of (audit_page xs n) = xs
events_of _ = []

abbrev pub next_cursor_of : Body → ℕ
next_cursor_of (link_page xs n) = n
next_cursor_of (user_page xs n) = n
next_cursor_of (click_page xs n) = n
next_cursor_of (audit_page xs n) = n
next_cursor_of _ = 0

-- The cursor is sent unless it is empty.
abbrev pub cursor_query : Text → List (Text × Text)
cursor_query [] = []
cursor_query (c ∷ s) = (codes "cursor", c ∷ s) ∷ []

-- The page number and the two buttons of a listing.
unfoldable pub show_pager : String → String → String → Pager → Dom → Dom
show_pager number previous next p d = set_disabled next (p.next == 0) (
    set_disabled previous (is_empty p.history)
      (set_content number (codes "Page " ++ show_ℕ (page_number p)) d))

abbrev pub set_html : String → List Piece → Dom → Dom
set_html k ps d = set_content k (render ps) d

show_recent_links : Body → M (Unit {0})
show_recent_links body = modify λ s. record s {
  recent_link_cache = links_of body;
  dom = set_html "homeLinks" (home_links_html (links_of body)) s.dom;
}

abbrev recent_request : Request
recent_request = get_request (codes "/api/v1/links/page") ((codes "limit", codes "5") ∷ [])

unfoldable pub load_recent_links : M (Unit {0})
unfolding show_recent_links
load_recent_links = do body ← api recent_request; show_recent_links body

pub links_request : App → Request
links_request s =
    get_request (codes "/api/v1/links/page")
      ((codes "limit", s.dom.value "linkPageSize") ∷ cursor_query s.link_pages.cursor)

store_links : (Text → Text) → Body → App → App
store_links locale_date body s =
    let p = loaded_page (next_cursor_of body) s.link_pages in
    record s {
      link_pages = p;
      link_cache = links_of body;
      dom =
          show_pager "linkPageNumber" "linkPrevious" "linkNext" p
            (set_html "links" (links_html locale_date s.current_user (links_of body)) s.dom);
    }

show_links : Body → M (Unit {0})
unfolding store_links
show_links body = do locale_date ← locale; modify (store_links locale_date body)

unfoldable pub load_links : M (Unit {0})
unfolding links_request show_links
load_links = do s ← gets (λ s. s); body ← api (links_request s); show_links body

clicks_request : App → Request
clicks_request s =
    get_request (codes "/api/v1/clicks")
      ((codes "limit", s.dom.value "clickPageSize") ∷ cursor_query s.click_pages.cursor)

-- `breakdown || []`, and then an array is wanted: a text has `slice`, but what it gives has no `map`.
shares_of : Body → Option (List Share)
shares_of null = some []
shares_of (plain_text []) = some []
shares_of (breakdown xs) = some xs
shares_of _ = none

-- `clickNextCursor = …`, before anything is drawn.
store_clicks : Body → App → App
store_clicks body s = record s { click_pages = loaded_page (next_cursor_of body) s.click_pages }

draw_clicks : (Text → Text) → Body → List Share → App → App
draw_clicks locale_date body shares s = record s {
  dom = show_pager "clickPageNumber" "clickPrevious" "clickNext" s.click_pages (
      set_html "clicks" (clicks_html locale_date (clicks_of body))
        (set_html "breakdown" (breakdown_html shares) s.dom));
}

abbrev pub wanted {ℓ} : {A : Type ℓ} → Option A → M A
wanted none = raise type_error
wanted (some a) = pure a

-- A field is read of what `api` gave: `undefined` and `null` have none.
abbrev pub some_value : Body → M (Unit {0})
some_value null = raise type_error
some_value _ = pure tt

show_clicks : Body × Body → M (Unit {0})
unfolding store_clicks draw_clicks shares_of
show_clicks answers = do
  some_value answers.0
  modify (store_clicks answers.0)
  locale_date ← locale
  shares ← wanted (shares_of answers.1)
  modify (draw_clicks locale_date answers.0 shares)

abbrev shares_request : Request
shares_request =
    get_request (codes "/api/v1/analytics/breakdown") ((codes "group_by", codes "country") ∷ [])

unfoldable pub load_clicks : M (Unit {0})
unfolding clicks_request show_clicks
load_clicks = do
  s ← gets λ s. s
  answers ← both (api (clicks_request s)) (api shares_request)
  show_clicks answers

counters_of : Body → List (Text × ℕ)
counters_of (counters a) = a
counters_of _ = []

show_stats : Body → M (Unit {0})
unfolding counters_of
show_stats body = do some_value body; page (set_html "stats" (stats_html (counters_of body)))

abbrev stats_request : Request
stats_request = get_request (codes "/api/v1/analytics") []

unfoldable pub load_stats : M (Unit {0})
unfolding show_stats
load_stats = do body ← api stats_request; show_stats body

-- `… || []`, and then an array is wanted.
keys_of : Body → Option (List ApiKey)
keys_of null = some []
keys_of (plain_text []) = some []
keys_of (keys xs) = some xs
keys_of _ = none

show_keys : Body → M (Unit {0})
unfolding keys_of
show_keys body = do
  xs ← wanted (keys_of body)
  locale_date ← locale
  modify λ s. record s { dom = set_html "keys" (keys_html locale_date s.current_user xs) s.dom }

abbrev keys_request : Request
keys_request = get_request (codes "/api/v1/api-keys") []

unfoldable pub load_keys : M (Unit {0})
unfolding show_keys
load_keys = do body ← api keys_request; show_keys body
