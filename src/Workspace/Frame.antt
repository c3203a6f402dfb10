-- ===== src/Workspace/Frame.antt =====
-- What the loaders leave alone, however they end: who is signed in, which view is shown, and what
-- has been loaded before.
use shortq.Prelude.{List, [], ◌∷◌, Text, Bool, Option, none, some, refl, arith}
use shortq.State.{App, User, ReportState, Request, Body, null}
use shortq.State.Monad.{M, ◌>>=◌, ◌>>◌, both, when, detach, attempt, locale, modify, page, run_all}
use shortq.Views.Links.{stats_html}
use shortq.Views.Admin.{keys_html}
use shortq.Api.{api}
use shortq.Workspace.Keeps.{Keeps, bind-Keeps, when-Keeps, both-Keeps, detach-Keeps, attempt-Keeps}
use shortq.Workspace.{
  recent_request, show_recent_links, load_recent_links, links_request, show_links, load_links,
  clicks_request, shares_request, store_clicks, draw_clicks, shares_of, show_clicks, load_clicks,
  stats_request, counters_of, show_stats, load_stats, keys_request, keys_of, show_keys, load_keys,
  wanted, some_value, set_html, show_pager,
}

-- The variables and the parts of the page that routing and signing in set.
pub record Frame : Type 0 where
  pub current_user : Option User
  pub loaded_views : List Text
  pub last_workspace_hash : Text
  pub report_state : Option ReportState
  pub hash : Text
  pub view_hidden : Text → Bool
  pub view_active : Text → Bool
  pub pane_hidden : Text → Bool
  pub admin_view_active : Text → Bool
  pub dash_hidden : Bool
  pub forms_hidden : Bool
  pub admin_nav_hidden : Bool
  pub audit_nav_hidden : Bool
  pub runtime_nav_hidden : Bool
  pub report_hidden : Bool
  pub workspace_nav_hidden : Bool
  pub editor_open : Bool

abbrev pub frame : App → Frame
frame s = record {
  current_user = s.current_user;
  loaded_views = s.loaded_views;
  last_workspace_hash = s.last_workspace_hash;
  report_state = s.report_state;
  hash = s.hash;
  view_hidden = s.dom.view_hidden;
  view_active = s.dom.view_active;
  pane_hidden = s.dom.pane_hidden;
  admin_view_active = s.dom.admin_view_active;
  dash_hidden = s.dom.hidden "dash";
  forms_hidden = s.dom.hidden "forms";
  admin_nav_hidden = s.dom.hidden "adminNavItem";
  audit_nav_hidden = s.dom.hidden "auditSubnav";
  runtime_nav_hidden = s.dom.hidden "runtimeSubnav";
  report_hidden = s.dom.hidden "reportView";
  workspace_nav_hidden = s.dom.hidden "workspaceNav";
  editor_open = s.dom.is_open "linkEditor";
}

-- A handler that keeps the frame.
abbrev pub Frames {ℓ} : {A : Type ℓ} → M A → Type 0
Frames m = Keeps frame m

pub api-Frames : (q : Request) → Frames (api q)
unfolding api
api-Frames q env s = ground arith

-- The rules of Workspace/Keeps for the frame; this one is for a step of a `do` block.
pub bind-Frames {ℓ κ} :
    {A : Type ℓ} {C : Type κ} (m : M A) (k : A → M C)
    → Frames m
    → ((a : A) → Frames (k a))
    → Frames (m >>= k)
bind-Frames m k h g = bind-Keeps frame m k h g

pub when-Frames : (b : Bool) (m : M (Unit {0})) → Frames m → Frames (when b m)
when-Frames b m h = when-Keeps frame b m h

pub both-Frames {ℓ κ} :
    {A : Type ℓ} {C : Type κ} (m : M A) (n : M C) → Frames m → Frames n → Frames (both m n)
both-Frames m n g h = both-Keeps frame m n g h

pub detach-Frames : (m : M (Unit {0})) → Frames m → Frames (detach m)
detach-Frames m h = detach-Keeps frame m h

pub attempt-Frames {ℓ} : {A : Type ℓ} (m : M A) → Frames m → Frames (attempt m)
attempt-Frames m h = attempt-Keeps frame m h

pub wanted-Frames {ℓ} : {A : Type ℓ} (o : Option A) → Frames (wanted o)
wanted-Frames none env s = refl
wanted-Frames (some a) env s = refl

some_value-Frames : (b : Body) → Frames (some_value b)
some_value-Frames null env s = refl
some_value-Frames _ env s = refl

-- The request and what is done with its answer.
pub api_bind-Frames :
    (q : Request) (k : Body → M (Unit {0})) → ((b : Body) → Frames (k b)) → Frames (api q >>= k)
api_bind-Frames q k h = bind-Frames (api q) k (api-Frames q) h

pub load_recent_links-Frames : Frames load_recent_links
unfolding load_recent_links
load_recent_links-Frames = api_bind-Frames recent_request show_recent_links (λ b env s. refl)

pub load_links-Frames : Frames load_links
unfolding load_links show_pager
load_links-Frames env s = api_bind-Frames (links_request s) show_links (λ b env s. refl) env s

show_clicks-Frames : (a : Body × Body) → Frames (show_clicks a)
unfolding show_clicks show_pager store_clicks draw_clicks
show_clicks-Frames a =
    bind-Frames (some_value a.0)
      (λ _.
        modify (store_clicks a.0)
        >> (locale >>= λ locale_date.
            wanted (shares_of a.1) >>= λ xs. modify (draw_clicks locale_date a.0 xs)))
      (some_value-Frames a.0)
      (λ _ env s.
        bind-Frames (wanted (shares_of a.1)) (λ xs. modify (draw_clicks env.locale_date a.0 xs))
          (wanted-Frames (shares_of a.1)) (λ xs env s. refl) env (store_clicks a.0 s))

pub load_clicks-Frames : Frames load_clicks
unfolding load_clicks
load_clicks-Frames env s =
    bind-Frames (both (api (clicks_request s)) (api shares_request)) show_clicks
      (both-Frames (api (clicks_request s)) (api shares_request) (api-Frames (clicks_request s))
        (api-Frames shares_request))
      show_clicks-Frames env s

show_stats-Frames : (b : Body) → Frames (show_stats b)
unfolding show_stats
show_stats-Frames b =
    bind-Frames (some_value b) (λ _. page (set_html "stats" (stats_html (counters_of b))))
      (some_value-Frames b) (λ _ env s. refl)

pub load_stats-Frames : Frames load_stats
unfolding load_stats
load_stats-Frames = api_bind-Frames stats_request show_stats show_stats-Frames

show_keys-Frames : (b : Body) → Frames (show_keys b)
unfolding show_keys
show_keys-Frames b =
    bind-Frames (wanted (keys_of b))
      (λ xs. locale >>= λ locale_date.
        modify
          λ s. record s { dom = set_html "keys" (keys_html locale_date s.current_user xs) s.dom })
      (wanted-Frames (keys_of b)) (λ xs env s. refl)

pub load_keys-Frames : Frames load_keys
unfolding load_keys
load_keys-Frames = api_bind-Frames keys_request show_keys show_keys-Frames

-- Every handler of a list keeps the frame.
abbrev pub AllFrames : List (M (Unit {0})) → Type 0
AllFrames [] = Unit
AllFrames (m ∷ ms) = Frames m × AllFrames ms

pub run_all-Frames : (ms : List (M (Unit {0}))) → AllFrames ms → Frames (run_all ms)
unfolding run_all
run_all-Frames [] h env s = refl
run_all-Frames (m ∷ ms) (h, hs) env s =
    bind-Frames m (λ _. run_all ms) h (λ _. run_all-Frames ms hs) env s
