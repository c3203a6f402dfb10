-- ===== src/Tests/Workspace.antt =====
-- Tests of the loaders.
use shortq.Prelude.{show_ℕ, arith, [], ◌∷◌, ◌≡◌, refl, codes, false, text_eq, includes, occurs_in}
use shortq.State.{App, link_page, object}
use shortq.State.Monad.{ok, throw, value}
use shortq.Api.{api, get_request}
use shortq.Api.Laws.{IsAnswer, IsFailure, asked, api-IsAnswer, api-IsFailure}
use shortq.Workspace.{load_links, links_request}
use shortq.Workspace.Paging.{next_link_page, previous_link_page}
use shortq.Workspace.Paging.Requests.{page_request, previous_link_page-next_link_page}
use shortq.Workspace.Frame.{frame}
use shortq.Workspace.Load.{load_workspace_view, view_key}
use shortq.Workspace.Load.Once.{loads_once, load_fails}
use shortq.Tests.Samples.{signed_in, one_link, refusing, evil_link}

loading : Unit {0}
unfolding load_workspace_view load_links api includes occurs_in text_eq
loading = tt

links_load : (load_workspace_view (codes "links") (codes "users") one_link signed_in).0 ≡ ok tt
unfolding loading
links_load = refl

links_refused :
    (load_workspace_view (codes "links") (codes "users") refusing signed_in).0
    ≡ throw (value (object (codes "forbidden") []))
unfolding loading
links_refused = refl

loads_once_example :
    load_workspace_view
      (codes "links")
      (codes "users")
      refusing
      (load_workspace_view (codes "links") (codes "users") one_link signed_in).1
    ≡ (ok tt, (load_workspace_view (codes "links") (codes "users") one_link signed_in).1)
loads_once_example =
    loads_once (codes "links") (codes "users") one_link refusing signed_in links_load

load_fails_example :
    (frame (load_workspace_view (codes "links") (codes "users") refusing signed_in).1
      ≡ frame signed_in)
    × (includes
          (load_workspace_view (codes "links") (codes "users") refusing signed_in).1.loaded_views
          (view_key (codes "links") (codes "users"))
        ≡ false)
load_fails_example =
    load_fails (codes "links") (codes "users") refusing signed_in
      (value (object (codes "forbidden") [])) links_refused

me_answered :
    (api (get_request (codes "/api/v1/me") []) one_link signed_in).0
    ≡ ok (link_page (evil_link ∷ []) 5)
unfolding loading
me_answered = refl

api-IsAnswer_example :
    IsAnswer
      (one_link.answer (get_request (codes "/api/v1/me") []) [])
      (link_page (evil_link ∷ []) 5)
    × ((api (get_request (codes "/api/v1/me") []) one_link signed_in).1
        ≡ asked (get_request (codes "/api/v1/me") []) signed_in)
api-IsAnswer_example =
    api-IsAnswer (get_request (codes "/api/v1/me") []) one_link signed_in
      (link_page (evil_link ∷ []) 5) me_answered (λ e. cc)

me_refused :
    (api (get_request (codes "/api/v1/me") []) refusing signed_in).0
    ≡ throw (value (object (codes "forbidden") []))
unfolding loading
me_refused = refl

api-IsFailure_example :
    IsFailure
      (refusing.answer (get_request (codes "/api/v1/me") []) [])
      (value (object (codes "forbidden") []))
api-IsFailure_example =
    api-IsFailure (get_request (codes "/api/v1/me") []) refusing signed_in
      (value (object (codes "forbidden") [])) me_refused

abbrev more_links : App
more_links = record signed_in {
  link_pages = record { cursor = codes "9"; history = [] ∷ []; next = 4 };
}

previous_link_page-next_link_page_example :
    (previous_link_page refusing (next_link_page one_link more_links).1).1.sent
    ≡ links_request more_links ∷ page_request more_links (show_ℕ 4) ∷ []
previous_link_page-next_link_page_example =
    previous_link_page-next_link_page one_link refusing more_links (omega arith)
