-- ===== src/Router/Back.antt =====
-- web/reports.js, `routeView` on the fragment that it keeps for a view.
use shortq.Prelude.{
  Text, codes, true, ◌≡◌, ◌≢◌, inl, inr, refl, text_eq, text_eq_iff, includes, arith, if◌then◌else◌,
}
use shortq.State.{User}
use shortq.Router.Target.{
  workspace, target, target_of, workspace_target, choose_view, choose_admin_view, admin_allowed,
  is_named, view_hash,
}
use shortq.Router.Laws.{MayShow}

-- The pane that a view's own fragment names: only the admin view has one.
abbrev pub pane_of : Text → Text → Text
pane_of view admin_view = if is_named view "admin" then admin_view else codes "users"

allowed-true :
    (u : User)
    → (u.dashboard_mode ≡ codes "admin") × (u.role ≢ codes "customer")
    → admin_allowed u ≡ true
unfolding admin_allowed
allowed-true u h =
    ground
      (arith, text_eq_iff u.dashboard_mode (codes "admin"), text_eq_iff u.role (codes "customer"))

plain_view_back :
    (u : User) (admin_view : Text)
    → (target u (view_hash (codes "home") admin_view) ≡ workspace (codes "home") (codes "users"))
      × (target u (view_hash (codes "links") admin_view)
          ≡ workspace (codes "links") (codes "users"))
      × (target u (view_hash (codes "analytics") admin_view)
          ≡ workspace (codes "analytics") (codes "users"))
      × (target u (view_hash (codes "settings") admin_view)
          ≡ workspace (codes "settings") (codes "users"))
unfolding target target_of workspace_target choose_view choose_admin_view view_hash includes text_eq
plain_view_back u admin_view = (refl, refl, refl, refl)

admin_view_back :
    (u : User)
    → admin_allowed u ≡ true
    → (target u (view_hash (codes "admin") (codes "users"))
        ≡ workspace (codes "admin") (codes "users"))
      × (target u (view_hash (codes "admin") (codes "domains"))
          ≡ workspace (codes "admin") (codes "domains"))
unfolding target target_of workspace_target choose_view choose_admin_view view_hash includes text_eq
admin_view_back u h = (rw h, rw h)

super_view_back :
    (u : User)
    → admin_allowed u ≡ true
    → u.role ≡ codes "superadmin"
    → (target u (view_hash (codes "admin") (codes "audit"))
        ≡ workspace (codes "admin") (codes "audit"))
      × (target u (view_hash (codes "admin") (codes "runtime"))
          ≡ workspace (codes "admin") (codes "runtime"))
unfolding target target_of workspace_target choose_view choose_admin_view view_hash includes text_eq
super_view_back u h e =
    let super : is_named u.role "superadmin" ≡ true = rw e in (rw (h, super), rw (h, super))

module _ (u : User) (admin_view : Text) (m : MayShow u (codes "admin") admin_view) where
  admin_back :
      target u (view_hash (codes "admin") admin_view) ≡ workspace (codes "admin") admin_view
  admin_back =
      let allowed = allowed-true u (m.admin_mode refl) in
      elim m.admin_known [
        | inl e ↦ rw e (admin_view_back u allowed).0
        | inr (inl e) ↦ rw e (admin_view_back u allowed).1
        | inr (inr (inl e)) ↦ rw e (super_view_back u allowed (m.super_only (inl e))).0
        | inr (inr (inr e)) ↦ rw e (super_view_back u allowed (m.super_only (inr e))).1
      ]

-- The fragment that is kept for a view leads back to it, with its pane, for every user who may
-- see them.
pub target-view_hash :
    (u : User) (view admin_view : Text)
    → MayShow u view admin_view
    → target u (view_hash view admin_view) ≡ workspace view (pane_of view admin_view)
unfolding text_eq
target-view_hash u view admin_view m = elim m.known [
  | inl e ↦ rw e (plain_view_back u admin_view).0
  | inr (inl e) ↦ rw e (plain_view_back u admin_view).1
  | inr (inr (inl e)) ↦ rw e (plain_view_back u admin_view).2
  | inr (inr (inr (inl e))) ↦ rw e (admin_back u admin_view (rw e at m))
  | inr (inr (inr (inr e))) ↦ rw e (plain_view_back u admin_view).3
]
