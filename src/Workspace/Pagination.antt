-- ===== src/Workspace/Pagination.antt =====
-- The loaders of the home view leave the pagination of the links alone.
use shortq.Prelude.{◌≡◌, refl, arith}
use shortq.State.{App, Body, Request, Pager, null}
use shortq.State.Monad.{Env, Result, ok, throw, Thrown, value, type_error, caught, both, page}
use shortq.Views.Links.{stats_html}
use shortq.Api.{api, show_thrown, show_body, show_msg}
use shortq.Workspace.{
  recent_request, show_recent_links, load_recent_links, stats_request, counters_of, show_stats,
  load_stats, some_value, set_html,
}
use shortq.Workspace.Keeps.{Keeps, bind-Keeps, both-Keeps}

abbrev pub link_pagination : App → Pager
link_pagination s = s.link_pages

pub api-Keeps : (q : Request) → Keeps link_pagination (api q)
unfolding api
api-Keeps q env s = ground arith

load_recent_links-Keeps : Keeps link_pagination load_recent_links
unfolding load_recent_links
load_recent_links-Keeps =
    bind-Keeps link_pagination (api recent_request) show_recent_links (api-Keeps recent_request)
      (λ b env s. refl)

some_value-Keeps : (b : Body) → Keeps link_pagination (some_value b)
some_value-Keeps null env s = refl
some_value-Keeps _ env s = refl

show_stats-Keeps : (b : Body) → Keeps link_pagination (show_stats b)
unfolding show_stats
show_stats-Keeps b =
    bind-Keeps link_pagination (some_value b)
      (λ _. page (set_html "stats" (stats_html (counters_of b)))) (some_value-Keeps b)
      (λ _ env s. refl)

load_stats-Keeps : Keeps link_pagination load_stats
unfolding load_stats
load_stats-Keeps =
    bind-Keeps link_pagination (api stats_request) show_stats (api-Keeps stats_request)
      show_stats-Keeps

-- The two loaders of the home view.
pub home_loaders-Keeps : Keeps link_pagination (both load_recent_links load_stats)
home_loaders-Keeps =
    both-Keeps link_pagination load_recent_links load_stats load_recent_links-Keeps load_stats-Keeps

thrown-Keeps : (e : Thrown) → Keeps link_pagination (show_thrown e)
unfolding show_thrown show_body show_msg
thrown-Keeps (value body) env s = refl
thrown-Keeps type_error env s = refl

pub caught-Keeps :
    (env : Env) (r : Result (Unit {0}) × App)
    → (caught env r show_thrown).1.link_pages ≡ r.1.link_pages
caught-Keeps env (ok a, s) = refl
caught-Keeps env (throw e, s) = thrown-Keeps e env s
