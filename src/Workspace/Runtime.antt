-- ===== src/Workspace/Runtime.antt =====
-- web/app.js, `loadRuntimeInfo`.
pub mod Frame
use shortq.Prelude.{
  ℕ, List, [], ◌∷◌, ◌++◌, Text, codes, Bool, true, false, not, ◌&&◌, ◌||◌, text_eq, or_text,
  if◌then◌else◌, Option, none, some, String, show_ℕ,
}
use shortq.State.{
  App, Dom, User, Tenant, Domain, Body, null, plain_text, tenants, domains, runtime, Request,
  RuntimeInfo, set_content, set_hidden, set_disabled, set_value,
}
use shortq.State.Monad.{
  Env, M, Thrown, type_error, pure, raise, ◌>>=◌, ◌>>◌, modify, gets, page, locale, attempt, when,
}
use shortq.Html.{Piece, lit, escaped}
use shortq.Pager.{loaded_page}
use shortq.Views.{rows, has_role, in_mode}
use shortq.Views.Admin.{tenants_html, tenant_options, domains_html, customers_html, audit_html}
use shortq.Api.{api, get_request}
use shortq.Workspace.{
  users_of, events_of, next_cursor_of, cursor_query, show_pager, set_html, wanted,
}

-- The element that is built for one field: its text is set as text, not as markup.
info_item : Text × Text → List Piece
info_item (label, shown) =
    lit "<div><b>"
    ∷ escaped (or_text shown (codes "unknown"))
    ∷ lit "</b><span>"
    ∷ escaped label
    ∷ lit "</span></div>"
    ∷ []

info_fields : RuntimeInfo → List (Text × Text)
info_fields info =
    (codes "Database", info.database_engine ++ codes " / " ++ info.database_name)
    ∷ (codes "Server hostname", info.server_hostname)
    ∷ (codes "Container ID", info.container_id)
    ∷ (codes "Deployed tag", info.deploy_tag)
    ∷ []

store_runtime : Body → M (Unit {0})
unfolding info_item info_fields rows
store_runtime (runtime info) = page λ d.
    set_html "runtimeInfo" (rows info_item (info_fields info)) (set_hidden "runtimePanel" false d)
store_runtime _ = do page (set_hidden "runtimePanel" false); raise type_error

show_runtime : Option Body → M (Unit {0})
unfolding store_runtime
show_runtime none = page (set_hidden "runtimePanel" true)
show_runtime (some body) = store_runtime body

abbrev runtime_request : Request
runtime_request = get_request (codes "/api/v1/admin/runtime") []

ask_runtime : M (Unit {0})
ask_runtime = do answer ← attempt (api runtime_request); show_runtime answer

unfoldable pub load_runtime_info : M (Unit {0})
unfolding show_runtime ask_runtime
load_runtime_info = do
  u ← gets λ s. s.current_user
  when (has_role "superadmin" u && in_mode "admin" u) ask_runtime
