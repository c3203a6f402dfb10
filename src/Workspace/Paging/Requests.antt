-- ===== src/Workspace/Paging/Requests.antt =====
-- What the buttons of a listing send.
use shortq.Prelude.{
  String, ◌<◌, ◌≡◌, ◌≢◌, refl, show_ℕ-ne-nil, ◌∙◌, ap, List, [], ◌∷◌, Text, codes, show_ℕ, Option,
  some, arith,
}
use shortq.State.{App, Body, Request, Pager}
use shortq.State.Monad.{Env, Result, ok, throw, then_run, ignored}
use shortq.Api.{api, get_request}
use shortq.Pager.{next_page-pos, previous_page, turned}
use shortq.Workspace.{links_request, show_links, load_links, cursor_query, store_links, show_pager}
use shortq.Workspace.Paging.{turn, set_links, next_link_page, previous_link_page}

-- The listing's request at a cursor.
abbrev pub page_request : App → Text → Request
page_request s cursor =
    get_request (codes "/api/v1/links/page")
      ((codes "limit", s.dom.value "linkPageSize") ∷ (codes "cursor", cursor) ∷ [])

pub sent-api : (q : Request) (env : Env) (s : App) → (api q env s).1.sent ≡ q ∷ s.sent
unfolding api
sent-api q env s = ground arith

sent-show_links :
    (env : Env) (x : Result Body × App) → (then_run env x show_links).1.sent ≡ x.1.sent
unfolding show_links
sent-show_links env (ok b, s) = refl
sent-show_links env (throw e, s) = refl

sent-load_links : (env : Env) (s : App) → (load_links env s).1.sent ≡ links_request s ∷ s.sent
unfolding load_links
sent-load_links env s =
    sent-show_links env (api (links_request s) env s) ∙ sent-api (links_request s) env s

sent-ignored : (r : Result (Unit {0}) × App) → (ignored r).1.sent ≡ r.1.sent
sent-ignored (r, s) = refl

cursor_query-full : (t : Text) → t ≢ [] → cursor_query t ≡ (codes "cursor", t) ∷ []
cursor_query-full [] ne = absurd (ne refl)
cursor_query-full (c ∷ s) ne = refl

-- What decides the next request: the cursor, the history and the page size.
abbrev Place : Type 0
Place = Text × List Text × (String → Text)

abbrev place : App → Place
place s = (s.link_pages.cursor, s.link_pages.history, s.dom.value)

place-api : (q : Request) (env : Env) (s : App) → place (api q env s).1 ≡ place s
unfolding api
place-api q env s = ground arith

place-show_links :
    (env : Env) (x : Result Body × App) → place (then_run env x show_links).1 ≡ place x.1
unfolding show_links store_links show_pager
place-show_links env (ok b, s) = refl
place-show_links env (throw e, s) = refl

place-load_links : (env : Env) (s : App) → place (load_links env s).1 ≡ place s
unfolding load_links
place-load_links env s =
    place-show_links env (api (links_request s) env s) ∙ place-api (links_request s) env s

place-ignored : (r : Result (Unit {0}) × App) → place (ignored r).1 ≡ place r.1
place-ignored (r, s) = refl

-- A button that is not refused: the page at its cursor is asked for.
module _ (env : Env) (s : App) (p : Pager) where
  turned_links : Result (Unit {0}) × App
  turned_links = turn set_links load_links (some p) env s

  sent-turn : turned_links.1.sent ≡ links_request (set_links p s) ∷ s.sent
  unfolding turned_links
  sent-turn = sent-ignored (load_links env (set_links p s)) ∙ sent-load_links env (set_links p s)

  place-turn : place turned_links.1 ≡ place (set_links p s)
  unfolding turned_links
  place-turn = place-ignored (load_links env (set_links p s)) ∙ place-load_links env (set_links p s)

module _ (env : Env) (s : App) (more : 0 < s.link_pages.next) where
  next_turns : next_link_page env s ≡ turned_links env s (turned s.link_pages.next s.link_pages)
  unfolding next_link_page turned_links
  next_turns =
      ap (λ (o : Option Pager). turn set_links load_links o env s) (next_page-pos s.link_pages more)

  request_turned :
      links_request (set_links (turned s.link_pages.next s.link_pages) s)
      ≡ page_request s (show_ℕ s.link_pages.next)
  unfolding links_request turned
  request_turned =
      rw (cursor_query-full (show_ℕ s.link_pages.next) (show_ℕ-ne-nil s.link_pages.next))

  next-sends : (next_link_page env s).1.sent ≡ page_request s (show_ℕ s.link_pages.next) ∷ s.sent
  next-sends =
      ap (λ (r : Result (Unit {0}) × App). r.1.sent) next_turns
      ∙ sent-turn env s (turned s.link_pages.next s.link_pages)
      ∙ ap (λ q. q ∷ s.sent) request_turned

  next-place :
      place (next_link_page env s).1
      ≡ (show_ℕ s.link_pages.next, s.link_pages.cursor ∷ s.link_pages.history, s.dom.value)
  next-place =
      ap (λ (r : Result (Unit {0}) × App). place r.1) next_turns
      ∙ place-turn env s (turned s.link_pages.next s.link_pages)
      ∙ (unfold turned in refl)

previous_page-cons :
    (p : Pager) (c : Text) (older : List Text)
    → p.history ≡ c ∷ older
    → previous_page p ≡ some (record p { cursor = c; history = older })
unfolding previous_page
previous_page-cons p c older h = rw h

previous_sends :
    (env : Env) (s : App) (c : Text) (older : List Text)
    → s.link_pages.history ≡ c ∷ older
    → (previous_link_page env s).1.sent
      ≡ links_request (set_links (record s.link_pages { cursor = c; history = older }) s) ∷ s.sent
previous_sends env s c older h =
    ap (λ (r : Result (Unit {0}) × App). r.1.sent) turns
    ∙ sent-turn env s (record s.link_pages { cursor = c; history = older })
  where
    turns :
        previous_link_page env s
        ≡ turned_links env s (record s.link_pages { cursor = c; history = older })
    turns =
        unfold previous_link_page turned_links in
        ap (λ (o : Option Pager). turn set_links load_links o env s)
          (previous_page-cons s.link_pages c older h)

-- Next, where there is a next page, asks for the page at its cursor; and Previous after it asks
-- again for the page that was shown before, whatever came of the first request.
pub previous_link_page-next_link_page :
    (env later : Env) (s : App)
    → 0 < s.link_pages.next
    → (previous_link_page later (next_link_page env s).1).1.sent
      ≡ links_request s ∷ page_request s (show_ℕ s.link_pages.next) ∷ s.sent
unfolding links_request
previous_link_page-next_link_page env later s more =
    let at = next-place env s more in
    previous_sends later (next_link_page env s).1 s.link_pages.cursor s.link_pages.history
      (ap (λ (p : Place). p.1) at)
    ∙ ap
        (λ (v : String → Text).
          get_request (codes "/api/v1/links/page")
            ((codes "limit", v "linkPageSize") ∷ cursor_query s.link_pages.cursor)
          ∷ (next_link_page env s).1.sent)
        (ap (λ (p : Place). p.2) at)
    ∙ ap (λ (qs : List Request). links_request s ∷ qs) (next-sends env s more)
