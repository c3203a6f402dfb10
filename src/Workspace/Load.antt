-- ===== src/Workspace/Load.antt =====
-- web/app.js, `loadWorkspaceView`: a view is loaded when it is first shown.
pub mod Frame
pub mod Once
use shortq.Prelude.{
  [], ◌∷◌, ◌++◌, Text, codes, Bool, true, false, not, ◌&&◌, text_eq, is_empty, includes,
  if◌then◌else◌, String,
}
use shortq.State.{App, User}
use shortq.State.Monad.{M, pure, ◌>>=◌, ◌>>◌, modify, gets, both, when, run_all}
use shortq.Workspace.{load_recent_links, load_links, load_clicks, load_stats, load_keys}
use shortq.Workspace.Admin.{
  viewer, load_tenants, setup_customer_form, load_domains, load_customers, load_audit_events,
}
use shortq.Workspace.Runtime.{load_runtime_info}

abbrev is_named : Text → String → Bool
is_named t name = text_eq t (codes name)

unfoldable pub view_key : Text → Text → Text
view_key view admin_view = if is_named view "admin" then codes "admin/" ++ admin_view else view

abbrev both_done : M (Unit {0}) → M (Unit {0}) → M (Unit {0})
both_done m n = do _ ← both m n; pure tt

-- `currentUser.role === 'superadmin' && !tenantCache.length`
first_tenants : User → M (Unit {0})
first_tenants u = do
  s ← gets λ s. s
  when (is_named u.role "superadmin" && is_empty s.tenant_cache) load_tenants

load_pane : Text → M (Unit {0})
unfolding run_all
load_pane admin_view = run_all (
    when (is_named admin_view "users") load_customers
    ∷ when (is_named admin_view "domains") load_domains
    ∷ when (is_named admin_view "audit") load_audit_events
    ∷ when (is_named admin_view "runtime") load_runtime_info
    ∷ [])

load_admin_view : Text → M (Unit {0})
load_admin_view admin_view = do
  u ← viewer
  first_tenants u
  setup_customer_form
  load_pane admin_view

pub load_view : Text → Text → M (Unit {0})
unfolding run_all
load_view view admin_view = run_all (
    when (is_named view "home") (both_done load_stats load_recent_links)
    ∷ when (is_named view "links") load_links
    ∷ when (is_named view "analytics") load_clicks
    ∷ when (is_named view "settings") load_keys
    ∷ when (is_named view "admin") (load_admin_view admin_view)
    ∷ [])

abbrev pub add_view : Text → App → App
add_view key s = record s {
  loaded_views = if includes s.loaded_views key then s.loaded_views else key ∷ s.loaded_views;
}

load_anew : Text → Text → M (Unit {0})
load_anew view admin_view = do
  load_view view admin_view
  modify (add_view (view_key view admin_view))

unfoldable pub load_workspace_view : Text → Text → M (Unit {0})
unfolding view_key load_view load_admin_view first_tenants load_pane load_anew
load_workspace_view view admin_view = do
  s ← gets λ s. s
  when (not (includes s.loaded_views (view_key view admin_view))) (load_anew view admin_view)
