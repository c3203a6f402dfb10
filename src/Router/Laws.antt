-- ===== src/Router/Laws.antt =====
-- What routing shows to whom.
use shortq.Prelude.{
  List, Text, codes, Bool, true, false, not, ◌&&◌, ◌||◌, ◌≡◌, ◌≢◌, ◌⊎◌, inl, inr, refl, text_eq_iff,
  includes, arith, Option, none, some, Bool-cases, or_text,
}
use shortq.State.{User}
use shortq.Router.Target.{
  workspace, target, target_of, workspace_target, choose_view, choose_admin_view, admin_allowed,
  is_named, view_names, admin_view_names, named_view, named_admin_view, report_match, first_part,
  second_part, route_parts,
}

-- One of the five views, and one of the four admin panes.
abbrev pub IsView : Text → Type 0
IsView v =
    (v ≡ codes "home")
    ⊎ (v ≡ codes "links")
    ⊎ (v ≡ codes "analytics")
    ⊎ (v ≡ codes "admin")
    ⊎ (v ≡ codes "settings")

abbrev pub IsAdminView : Text → Type 0
IsAdminView a =
    (a ≡ codes "users") ⊎ (a ≡ codes "domains") ⊎ (a ≡ codes "audit") ⊎ (a ≡ codes "runtime")

-- A user may see a view and, within the admin view, a pane.
pub record MayShow (u : User) (view admin_view : Text) : Type 0 where
  pub known : IsView view
  pub admin_known : IsAdminView admin_view
  pub admin_mode :
      view ≡ codes "admin" → (u.dashboard_mode ≡ codes "admin") × (u.role ≢ codes "customer")
  pub super_only :
      (admin_view ≡ codes "audit") ⊎ (admin_view ≡ codes "runtime") → u.role ≡ codes "superadmin"

included-IsView : (t : Text) → includes view_names t ≡ true → IsView t
unfolding includes
included-IsView t h = ground (
  arith,
  text_eq_iff (codes "home") t,
  text_eq_iff (codes "links") t,
  text_eq_iff (codes "analytics") t,
  text_eq_iff (codes "admin") t,
  text_eq_iff (codes "settings") t,
)

named_view-IsView : (t : Text) → IsView (named_view t)
named_view-IsView t = elim (Bool-cases (includes view_names t)) [
  | inl known ↦ rw known (included-IsView t known)
  | inr other ↦ rw other (inl refl)
]

choose_view-IsView : (allowed : Bool) (t : Text) → IsView (choose_view allowed t)
unfolding choose_view
choose_view-IsView allowed t = elim (Bool-cases (is_named (named_view t) "admin" && not allowed)) [
  | inl refused ↦ rw refused (inl refl)
  | inr free ↦ rw free (named_view-IsView t)
]

choose_view-admin :
    (allowed : Bool) (t : Text) → choose_view allowed t ≡ codes "admin" → allowed ≡ true
unfolding choose_view
choose_view-admin true t h = refl
choose_view-admin false t h = ground (arith, text_eq_iff (named_view t) (codes "admin"))

included-IsAdminView : (t : Text) → includes admin_view_names t ≡ true → IsAdminView t
unfolding includes
included-IsAdminView t h = ground (
  arith,
  text_eq_iff (codes "users") t,
  text_eq_iff (codes "domains") t,
  text_eq_iff (codes "audit") t,
  text_eq_iff (codes "runtime") t,
)

named_admin_view-IsAdminView : (t : Text) → IsAdminView (named_admin_view t)
named_admin_view-IsAdminView t =
    elim (Bool-cases (includes admin_view_names (or_text t (codes "users")))) [
      | inl known ↦ rw known (included-IsAdminView (or_text t (codes "users")) known)
      | inr other ↦ rw other (inl refl)
    ]

abbrev is_restricted : Text → Bool
is_restricted a = is_named a "audit" || is_named a "runtime"

choose_admin_view-IsAdminView :
    (is_super : Bool) (t : Text) → IsAdminView (choose_admin_view is_super t)
unfolding choose_admin_view
choose_admin_view-IsAdminView is_super t =
    elim (Bool-cases (is_restricted (named_admin_view t) && not is_super)) [
      | inl refused ↦ rw refused (inl refl)
      | inr free ↦ rw free (named_admin_view-IsAdminView t)
    ]

choose_admin_view-restricted :
    (is_super : Bool) (t : Text)
    → (choose_admin_view is_super t ≡ codes "audit")
      ⊎ (choose_admin_view is_super t ≡ codes "runtime")
    → is_super ≡ true
unfolding choose_admin_view
choose_admin_view-restricted true t h = refl
choose_admin_view-restricted false t h = ground (
  arith,
  text_eq_iff (named_admin_view t) (codes "audit"),
  text_eq_iff (named_admin_view t) (codes "runtime"),
)

admin_allowed-true :
    (u : User)
    → admin_allowed u ≡ true
    → (u.dashboard_mode ≡ codes "admin") × (u.role ≢ codes "customer")
unfolding admin_allowed
admin_allowed-true u h =
    ground
      (arith, text_eq_iff u.dashboard_mode (codes "admin"), text_eq_iff u.role (codes "customer"))

workspace_target-MayShow :
    (u : User) (parts : List Text)
    → MayShow u
        (choose_view (admin_allowed u) (first_part parts))
        (choose_admin_view (is_named u.role "superadmin") (second_part parts))
workspace_target-MayShow u parts = record {
  known = choose_view-IsView (admin_allowed u) (first_part parts);
  admin_known = choose_admin_view-IsAdminView (is_named u.role "superadmin") (second_part parts);
  admin_mode = λ e. admin_allowed-true u (choose_view-admin (admin_allowed u) (first_part parts) e);
  super_only = λ e.
      (text_eq_iff u.role (codes "superadmin")).0
        (choose_admin_view-restricted (is_named u.role "superadmin") (second_part parts) e);
}

-- The workspace target of a fragment that names no report.
target_of-workspace :
    (u : User) (parts : List Text) (m : Option (Text × Text)) (view admin_view : Text)
    → target_of u parts m ≡ workspace view admin_view
    → (choose_view (admin_allowed u) (first_part parts) ≡ view)
      × (choose_admin_view (is_named u.role "superadmin") (second_part parts) ≡ admin_view)
unfolding target_of workspace_target
target_of-workspace u parts none view admin_view h = ground arith
target_of-workspace u parts (some (kind, id)) view admin_view h = cc

-- Whatever the fragment of the address, a view of the workspace is shown only to a user who may
-- see it: the admin view only in admin mode and never to a `customer`, and the panes on audit
-- events and the runtime only to a `superadmin`. The view is one of the five and the pane one of
-- the four.
pub target-MayShow :
    (u : User) (hash view admin_view : Text)
    → target u hash ≡ workspace view admin_view
    → MayShow u view admin_view
unfolding target
target-MayShow u hash view admin_view h =
    let (a, b) = target_of-workspace u (route_parts hash) (report_match hash) view admin_view h in
    rw (← a, ← b) (workspace_target-MayShow u (route_parts hash))
