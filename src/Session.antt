-- ===== src/Session.antt =====
-- web/app.js, signing in and the dashboard's mode: `restoreSession`, `showDash`, `renderDashboard`
-- and `setDashboardMode`.
pub mod Mode
pub mod Start
pub mod Leave
use shortq.Prelude.{
  List, [], ◌∷◌, ◌++◌, Text, codes, Bool, true, false, not, ◌&&◌, ◌||◌, text_eq, is_empty, Option,
  none, some,
}
use shortq.State.{
  App, Dom, User, Body, null, object, user, Payload, Request, set_content, set_hidden, set_active,
}
use shortq.State.Monad.{
  Env, M, Result, ok, throw, Thrown, value, type_error, pure, raise, ◌>>=◌, ◌>>◌, modify, gets,
  page, try_catch, when,
}
use shortq.Html.{role_label}
use shortq.Views.{has_role, in_mode}
use shortq.Api.{api, get_request, request_of, error_of, show_msg, show_body, show_thrown}
use shortq.Workspace.Admin.{viewer}
use shortq.Pager.{reset_link_pagination, reset_user_pagination, reset_click_pagination}
use shortq.Router.Show.{route_view}

-- `setAuthNav`
abbrev pub set_auth_nav : Bool → Dom → Dom
set_auth_nav signed_in d =
    set_hidden "logoutTab" (not signed_in) (set_hidden "loginTab" signed_in d)

-- `showLogin` and `showApp`
abbrev pub login_page : Dom → Dom
login_page d = set_hidden "forms" false (set_hidden "dash" true (set_auth_nav false d))

abbrev pub app_page : Dom → Dom
app_page d = set_hidden "dash" false (set_hidden "forms" true (set_auth_nav true d))

abbrev pub show_login : M (Unit {0})
show_login = page login_page

abbrev pub show_app : M (Unit {0})
show_app = page app_page

abbrev can_switch : Option User → Bool
can_switch none = false
can_switch (some u) = u.can_switch_mode

-- `currentUser && currentUser.dashboard_mode === 'admin' && currentUser.role !== 'customer'`
abbrev pub in_admin_mode : Option User → Bool
in_admin_mode u = in_mode "admin" u && not (has_role "customer" u)

-- `renderDashboardMode`
abbrev pub mode_page : Option User → Dom → Dom
mode_page u d = set_active "userModeButton" (in_mode "user" u) (
    set_active "adminModeButton" (in_mode "admin" u) (
      set_hidden "runtimeSubnav" (not (has_role "superadmin" u)) (
        set_hidden "auditSubnav" (not (has_role "superadmin" u)) (
          set_hidden "adminNavItem" (not (in_admin_mode u))
            (set_hidden "modeSwitcher" (not (can_switch u)) d)))))

abbrev pub render_dashboard_mode : M (Unit {0})
render_dashboard_mode = modify λ s. record s { dom = mode_page s.current_user s.dom }

abbrev me_line : User → Text
me_line u = u.name ++ codes " · " ++ u.email ++ codes " · acting as " ++ role_label u.role

-- The panels of the admin view, which the loaders show again.
abbrev hide_panels : Dom → Dom
hide_panels d = set_hidden "runtimePanel" true (
    set_hidden "auditPanel" true (
      set_hidden "customerPanel" true
        (set_hidden "domainPanel" true (set_hidden "tenantPanel" true d))))

-- What `renderDashboard` resets before it routes. The pagination of audit events is not reset.
unfoldable pub clear_dashboard : User → App → App
unfolding reset_link_pagination reset_user_pagination reset_click_pagination role_label
clear_dashboard u s = reset_click_pagination (
    reset_user_pagination (
      reset_link_pagination (record s {
        tenant_cache = [];
        loaded_views = [];
        dom = hide_panels (set_content "me" (me_line u) s.dom);
      })))

-- `currentUser = answer`: a user, or nothing at all.
abbrev pub user_of : Body → Option User
user_of (user u) = some u
user_of _ = none

abbrev pub set_user : Body → App → App
set_user body s = record s { current_user = user_of body }

-- `e && e.error && e.error !== 'sso required'`
abbrev pub is_worth_showing : Thrown → Bool
is_worth_showing (value body) =
    not (is_empty (error_of body)) && not (text_eq (error_of body) (codes "sso required"))
is_worth_showing type_error = false

abbrev pub me_request : Request
me_request = get_request (codes "/api/v1/me") []

abbrev pub mode_request : Text → Request
mode_request mode = request_of "POST" (codes "/api/v1/session/mode") (Payload.mode mode)

-- `currentUser && currentUser.dashboard_mode !== mode`
abbrev is_in_other_mode : Text → Option User → Bool
is_in_other_mode mode none = false
is_in_other_mode mode (some u) = not (text_eq u.dashboard_mode mode)

-- The `catch` of `restoreSession`.
sign_out : Thrown → M (Unit {0})
sign_out e = do show_login; when (is_worth_showing e) (show_thrown e)

enter : User → M (Unit {0})
enter u = do modify (clear_dashboard u); route_view

unfoldable pub render_dashboard : M (Unit {0})
unfolding enter
render_dashboard = do show_app; render_dashboard_mode; u ← viewer; enter u

render_if_known : Option User → M (Unit {0})
render_if_known none = pure tt
render_if_known (some u) = render_dashboard

store_me : Body → M (Unit {0})
store_me body = do modify (set_user body); render_if_known (user_of body)

unfoldable pub show_dash : M (Unit {0})
unfolding store_me render_if_known
show_dash = do body ← api me_request; store_me body

unfoldable pub restore_session : M (Unit {0})
unfolding sign_out
restore_session = try_catch show_dash sign_out

store_mode : Body → M (Unit {0})
store_mode body = do modify (set_user body); render_dashboard

switch_mode : Text → M (Unit {0})
unfolding store_mode
switch_mode mode = do
  body ← api (mode_request mode)
  store_mode body
  show_msg (codes "Now acting as " ++ mode ++ codes ".") "ok"

change_mode : Text → M (Unit {0})
unfolding switch_mode
change_mode mode = do
  show_msg (codes "Switching dashboard mode...") "ok"
  try_catch (switch_mode mode) show_thrown

unfoldable pub set_dashboard_mode : Text → M (Unit {0})
unfolding change_mode
set_dashboard_mode mode = do
  s ← gets λ s. s
  when (is_in_other_mode mode s.current_user) (change_mode mode)
