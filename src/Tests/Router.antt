-- ===== src/Tests/Router.antt =====
-- Tests of the routing.
use shortq.Prelude.{[], ◌∷◌, ◌≡◌, refl, codes, text_eq, includes, split, lower, all}
use shortq.Router.Target.{
  report, workspace, target, target_of, workspace_target, choose_view, choose_admin_view,
  admin_allowed, report_match,
}
use shortq.Router.Laws.{MayShow, target-MayShow}
use shortq.Router.Show.{route_view}
use shortq.Router.Show.Shown.{Shows, route_view-Shows}
use shortq.Router.Show.Browse.{browse, browse-Shows}
use shortq.Tests.Samples.{ann, signed_in, one_link, refusing}

targets : Unit {0}
unfolding target target_of workspace_target choose_view choose_admin_view admin_allowed report_match
    includes split lower text_eq all
targets = tt

target_audit : target ann (codes "#admin/audit") ≡ workspace (codes "admin") (codes "audit")
unfolding targets
target_audit = refl

target_of_a_customer :
    target (record ann { role = codes "customer" }) (codes "#admin/audit")
    ≡ workspace (codes "home") (codes "users")
unfolding targets
target_of_a_customer = refl

target_report_case : target ann (codes "#Report/LINK/5a") ≡ report (codes "link") (codes "5a")
unfolding targets
target_report_case = refl

target_unknown : target ann (codes "") ≡ workspace (codes "home") (codes "users")
unfolding targets
target_unknown = refl

target-MayShow_example : MayShow ann (codes "admin") (codes "audit")
target-MayShow_example =
    target-MayShow ann (codes "#admin/audit") (codes "admin") (codes "audit") target_audit

target_links : target ann signed_in.hash ≡ workspace (codes "links") (codes "users")
unfolding targets
target_links = refl

route_view-Shows_example :
    Shows ann (codes "links") (codes "users") (route_view one_link signed_in).1
route_view-Shows_example =
    route_view-Shows ann (codes "links") (codes "users") one_link signed_in refl target_links

browse-Shows_example : Shows ann (codes "admin") (codes "audit") (
    browse
      (codes "#report/link/5" ∷ codes "#settings" ∷ codes "#admin/audit" ∷ [])
      refusing
      signed_in)
browse-Shows_example =
    browse-Shows (codes "#report/link/5" ∷ codes "#settings" ∷ []) (codes "#admin/audit") ann
      (codes "admin") (codes "audit") refusing signed_in refl target_audit
