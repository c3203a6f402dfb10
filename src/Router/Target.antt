-- ===== src/Router/Target.antt =====
-- web/reports.js, `routeView`: what the fragment of the address asks for, for a given user.
use shortq.Prelude.{
  ℕ, List, [], ◌∷◌, ◌++◌, Text, codes, Bool, not, ◌&&◌, ◌||◌, ◌==◌, leb, text_eq, is_empty, or_text,
  includes, split, lower, all, map, if◌then◌else◌, Option, none, some, String,
}
use shortq.State.{User}

-- `.replace(/^#/, '')`
abbrev pub strip_hash : Text → Text
strip_hash [] = []
strip_hash (c ∷ s) = if c == b'#' then s else c ∷ s

abbrev pub is_named : Text → String → Bool
is_named t name = text_eq t (codes name)

-- `[a-z0-9]` under the flag `i`.
abbrev pub is_id_char : ℕ → Bool
is_id_char c = leb b'0' c && leb c b'9' || leb b'a' (lower c) && leb (lower c) b'z'

abbrev pub is_kind : Text → Bool
is_kind kind = is_named kind "link" || is_named kind "user"

unfoldable pub report_parts : List Text → Option (Text × Text)
report_parts (word ∷ kind ∷ id ∷ []) =
    if is_named (map lower word) "report"
      && is_kind (map lower kind)
      && not (is_empty id)
      && all is_id_char id
    then some (map lower kind, id)
    else none
report_parts _ = none

-- `location.hash.match(/^#?report\/(link|user)\/([a-z0-9]+)$/i)`, with the kind in lower case. No
-- group matches a slash, so the parts between slashes are matched one by one.
unfoldable pub report_match : Text → Option (Text × Text)
unfolding report_parts split
report_match hash = report_parts (split b'/' (strip_hash hash))

-- `parts[0]`, which `split` always gives, and `parts[1]`, empty where there is none.
abbrev pub first_part : List Text → Text
first_part [] = []
first_part (t ∷ ts) = t

abbrev pub second_part : List Text → Text
second_part [] = []
second_part (t ∷ ts) = first_part ts

abbrev pub view_names : List Text
view_names =
    codes "home" ∷ codes "links" ∷ codes "analytics" ∷ codes "admin" ∷ codes "settings" ∷ []

abbrev pub admin_view_names : List Text
admin_view_names = codes "users" ∷ codes "domains" ∷ codes "audit" ∷ codes "runtime" ∷ []

unfoldable pub admin_allowed : User → Bool
admin_allowed u = is_named u.dashboard_mode "admin" && not (is_named u.role "customer")

-- The view, before and after the test that the user may see it.
abbrev pub named_view : Text → Text
named_view t = if includes view_names t then t else codes "home"

unfoldable pub choose_view : Bool → Text → Text
choose_view allowed t =
    if is_named (named_view t) "admin" && not allowed then codes "home" else named_view t

abbrev pub named_admin_view : Text → Text
named_admin_view t =
    if includes admin_view_names (or_text t (codes "users"))
    then or_text t (codes "users")
    else codes "users"

unfoldable pub choose_admin_view : Bool → Text → Text
choose_admin_view is_super t =
    if (is_named (named_admin_view t) "audit" || is_named (named_admin_view t) "runtime")
      && not is_super
    then codes "users"
    else named_admin_view t

pub data Target : Type 0 where
  report : (kind id : Text) → Target
  workspace : (view admin_view : Text) → Target

unfoldable pub workspace_target : User → List Text → Target
unfolding choose_view choose_admin_view admin_allowed
workspace_target u parts =
    workspace (choose_view (admin_allowed u) (first_part parts))
      (choose_admin_view (is_named u.role "superadmin") (second_part parts))

unfoldable pub target_of : User → List Text → Option (Text × Text) → Target
target_of u parts (some (kind, id)) = report kind id
target_of u parts none = workspace_target u parts

-- `(location.hash || "#home").replace(/^#/, "").split("/")`
abbrev pub route_parts : Text → List Text
route_parts hash = split b'/' (strip_hash (or_text hash (codes "#home")))

unfoldable pub target : User → Text → Target
unfolding target_of workspace_target report_match split
target u hash = target_of u (route_parts hash) (report_match hash)

-- `lastWorkspaceHash`: the fragment under which a view is found again.
unfoldable pub view_hash : Text → Text → Text
view_hash view admin_view =
    if is_named view "admin" then codes "#admin/" ++ admin_view else b'#' ∷ view
