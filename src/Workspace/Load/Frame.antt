-- ===== src/Workspace/Load/Frame.antt =====
-- What the loaders of a view leave alone.
use shortq.Prelude.{refl, Text, ◌&&◌, is_empty, [], ◌∷◌}
use shortq.State.{User}
use shortq.State.Monad.{◌>>◌, when, both, pure}
use shortq.Workspace.{load_recent_links, load_links, load_clicks, load_stats, load_keys}
use shortq.Workspace.Admin.{
  viewer, load_tenants, setup_customer_form, load_domains, load_customers, load_audit_events,
}
use shortq.Workspace.Runtime.{load_runtime_info}
use shortq.Workspace.Runtime.Frame.{load_runtime_info-Frames}
use shortq.Workspace.Frame.{
  Frames, bind-Frames, when-Frames, both-Frames, run_all-Frames, load_recent_links-Frames,
  load_links-Frames, load_clicks-Frames, load_stats-Frames, load_keys-Frames,
}
use shortq.Workspace.Admin.Frame.{
  viewer-Frames, load_tenants-Frames, setup_customer_form-Frames, load_domains-Frames,
  load_customers-Frames, load_audit_events-Frames,
}
use shortq.Workspace.Load.{
  is_named, both_done, first_tenants, load_pane, load_admin_view, load_view,
}

load_pane-Frames : (pane : Text) → Frames (load_pane pane)
unfolding load_pane
load_pane-Frames pane =
    run_all-Frames
      (when (is_named pane "users") load_customers
        ∷ when (is_named pane "domains") load_domains
        ∷ when (is_named pane "audit") load_audit_events
        ∷ when (is_named pane "runtime") load_runtime_info
        ∷ [])
      (
        when-Frames (is_named pane "users") load_customers load_customers-Frames,
        (
          when-Frames (is_named pane "domains") load_domains load_domains-Frames,
          (
            when-Frames (is_named pane "audit") load_audit_events load_audit_events-Frames,
            (when-Frames (is_named pane "runtime") load_runtime_info load_runtime_info-Frames, tt),
          ),
        ),
      )

first_tenants-Frames : (u : User) → Frames (first_tenants u)
unfolding first_tenants
first_tenants-Frames u env s =
    when-Frames (is_named u.role "superadmin" && is_empty s.tenant_cache) load_tenants
      load_tenants-Frames env s

load_admin_view-Frames : (pane : Text) → Frames (load_admin_view pane)
unfolding load_admin_view
load_admin_view-Frames pane =
    bind-Frames viewer (λ u. first_tenants u >> (setup_customer_form >> load_pane pane))
      viewer-Frames
      λ u.
        bind-Frames (first_tenants u) (λ _. setup_customer_form >> load_pane pane)
          (first_tenants-Frames u)
          λ _.
            bind-Frames setup_customer_form (λ _. load_pane pane) setup_customer_form-Frames
              λ _. load_pane-Frames pane

home-Frames : Frames (both_done load_stats load_recent_links)
home-Frames =
    bind-Frames (both load_stats load_recent_links) (λ _. pure tt)
      (both-Frames load_stats load_recent_links load_stats-Frames load_recent_links-Frames)
      (λ _ env s. refl)

-- Loading a view keeps the frame, however it ends.
pub load_view-Frames : (view pane : Text) → Frames (load_view view pane)
unfolding load_view
load_view-Frames view pane =
    run_all-Frames
      (when (is_named view "home") (both_done load_stats load_recent_links)
        ∷ when (is_named view "links") load_links
        ∷ when (is_named view "analytics") load_clicks
        ∷ when (is_named view "settings") load_keys
        ∷ when (is_named view "admin") (load_admin_view pane)
        ∷ [])
      (
        when-Frames (is_named view "home") (both_done load_stats load_recent_links) home-Frames,
        (
          when-Frames (is_named view "links") load_links load_links-Frames,
          (
            when-Frames (is_named view "analytics") load_clicks load_clicks-Frames,
            (
              when-Frames (is_named view "settings") load_keys load_keys-Frames,
              (
                when-Frames (is_named view "admin") (load_admin_view pane)
                    (load_admin_view-Frames pane),
                tt,
              ),
            ),
          ),
        ),
      )
