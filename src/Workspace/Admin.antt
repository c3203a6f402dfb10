-- ===== src/Workspace/Admin.antt =====
-- web/app.js, the loaders of the admin panes and of the form for new users.
pub mod Frame
use shortq.Prelude.{
  ℕ, List, [], ◌∷◌, ◌++◌, Text, codes, Bool, true, false, not, ◌&&◌, ◌||◌, text_eq, or_text,
  if◌then◌else◌, Option, none, some, String, show_ℕ,
}
use shortq.State.{
  App, Dom, User, Tenant, Domain, Body, null, plain_text, tenants, domains, runtime, Request,
  RuntimeInfo, set_content, set_hidden, set_disabled, set_value,
}
use shortq.State.Monad.{
  Env, M, Thrown, type_error, pure, raise, ◌>>=◌, ◌>>◌, modify, gets, page, locale, attempt, when,
}
use shortq.Html.{Piece, lit, escaped}
use shortq.Pager.{loaded_page}
use shortq.Views.{rows, has_role}
use shortq.Views.Admin.{tenants_html, tenant_options, domains_html, customers_html, audit_html}
use shortq.Api.{api, get_request}
use shortq.Workspace.{
  users_of, events_of, next_cursor_of, cursor_query, show_pager, set_html, wanted,
}

-- `currentUser.role`: a read of a field of `currentUser`.
abbrev pub viewer : M User
viewer = do u ← gets (λ s. s.current_user); wanted u

tenants_of : Body → Option (List Tenant)
tenants_of null = some []
tenants_of (plain_text []) = some []
tenants_of (tenants xs) = some xs
tenants_of _ = none

-- The list that `tenantCache` then is; a value that is no array, with which the rows throw, stays as
-- an empty list.
tenants_or_none : Option (List Tenant) → List Tenant
tenants_or_none none = []
tenants_or_none (some xs) = xs

store_tenants : Body → App → App
unfolding tenants_of tenants_or_none
store_tenants body s = record s {
  tenant_cache = tenants_or_none (tenants_of body);
  dom = set_hidden "tenantPanel" false s.dom;
}

-- `tenantCache = … || []`, the panel, and then the rows, for which an array is wanted.
show_tenants : Body → M (Unit {0})
unfolding tenants_of store_tenants
show_tenants body = do
  modify (store_tenants body)
  xs ← wanted (tenants_of body)
  page (set_html "tenants" (tenants_html xs))

abbrev tenants_request : Request
tenants_request = get_request (codes "/api/v1/tenants") []

ask_tenants : M (Unit {0})
ask_tenants = do body ← api tenants_request; show_tenants body

-- A handler that goes on for some users only.
abbrev pub only_if : (User → Bool) → (User → M (Unit {0})) → User → M (Unit {0})
only_if test m u = when (test u) (m u)

unfoldable pub load_tenants : M (Unit {0})
unfolding show_tenants ask_tenants
load_tenants = do
  u ← viewer
  only_if (λ u. text_eq u.role (codes "superadmin")) (λ _. ask_tenants) u

role_options : Bool → List Piece
role_options only_users =
    if only_users
    then lit "<option value=\"customer\">user</option>" ∷ []
    else lit
        "<option value=\"customer\">user</option><option value=\"tenant\">department admin</option>"
      ∷ []

-- The form for new users, for a current user that is no `customer`.
set_form : User → List Tenant → Dom → Dom
unfolding role_options
set_form u known d =
    let own = text_eq u.role (codes "tenant") in
    set_html "customerTenant" (tenant_options u known) (
      set_disabled "customerTenant" own (
        set_disabled "userFilters.role" own (
          set_value "userFilters.role"
            (if own then codes "customer" else d.value "userFilters.role")
            (set_disabled "customerRole" own (set_html "customerRole" (role_options own) d)))))

setup_form : Option User → App → App
unfolding set_form
setup_form none s = s
setup_form (some u) s =
    if text_eq u.role (codes "customer")
    then s
    else record s { dom = set_form u s.tenant_cache s.dom }

unfoldable pub setup_customer_form : M (Unit {0})
unfolding setup_form
setup_customer_form = modify λ s. setup_form s.current_user s

domains_of : Body → Option (List Domain)
domains_of null = some []
domains_of (plain_text []) = some []
domains_of (domains xs) = some xs
domains_of _ = none

show_domains : User → Body → M (Unit {0})
unfolding domains_of
show_domains u body = do
  modify λ s. record s {
    dom =
        set_html "domainTenant" (tenant_options u s.tenant_cache)
          (set_hidden "domainPanel" false s.dom);
  }
  xs ← wanted (domains_of body)
  modify λ s. record s { dom = set_html "domains" (domains_html s.current_user xs) s.dom }

abbrev domains_request : Request
domains_request = get_request (codes "/api/v1/domains") []

ask_domains : User → M (Unit {0})
ask_domains u = do body ← api domains_request; show_domains u body

abbrev is_staff : User → Bool
is_staff u = not (text_eq u.role (codes "customer"))

unfoldable pub load_domains : M (Unit {0})
unfolding show_domains ask_domains
load_domains = do u ← viewer; only_if is_staff ask_domains u

-- `query.set(key, value)` on the entries of a form, whose names are distinct.
unfoldable pub set_param : Text → Text → List (Text × Text) → List (Text × Text)
set_param k v [] = (k, v) ∷ []
set_param k v ((j, w) ∷ q) = if text_eq j k then (k, v) ∷ q else (j, w) ∷ set_param k v q

unfoldable pub without : Text → List (Text × Text) → List (Text × Text)
without k [] = []
without k ((j, w) ∷ q) = if text_eq j k then without k q else (j, w) ∷ without k q

-- `new FormData(userFilters)`: a disabled field has no entry.
user_filters : Dom → List (Text × Text)
unfolding without
user_filters d =
    if d.disabled "userFilters.role"
    then without (codes "role") (d.fields "userFilters")
    else d.fields "userFilters"

customers_request : App → Request
unfolding user_filters
customers_request s = get_request (codes "/api/v1/customers") (
    set_param (codes "limit") (s.dom.value "userPageSize") (user_filters s.dom)
    ++ cursor_query s.user_pages.cursor)

store_customers : User → Body → App → App
store_customers u body s =
    let p = loaded_page (next_cursor_of body) s.user_pages in
    record s {
      user_pages = p;
      dom = show_pager "userPageNumber" "userPrevious" "userNext" p (
          set_html "customers" (customers_html u (users_of body))
            (set_hidden "customerPanel" false s.dom));
    }

show_customers : User → Body → M (Unit {0})
show_customers u body = modify (store_customers u body)

request_customers : User → M (Unit {0})
request_customers u = do s ← gets λ s. s; body ← api (customers_request s); show_customers u body

ask_customers : User → M (Unit {0})
ask_customers u = do setup_customer_form; request_customers u

unfoldable pub load_customers : M (Unit {0})
unfolding customers_request store_customers show_customers request_customers ask_customers
load_customers = do u ← viewer; only_if is_staff ask_customers u

audit_request : App → Request
audit_request s = get_request (codes "/api/v1/audit-events") (
    set_param (codes "limit") (s.dom.value "auditPageSize") (s.dom.fields "auditFilters")
    ++ cursor_query s.audit_pages.cursor)

store_audit : (Text → Text) → Body → App → App
store_audit locale_date body s =
    let p = loaded_page (next_cursor_of body) s.audit_pages in
    record s {
      audit_pages = p;
      dom =
          show_pager "auditPageNumber" "auditPrevious" "auditNext" p
            (set_html "auditEvents" (audit_html locale_date (events_of body)) s.dom);
    }

show_audit : Body → M (Unit {0})
show_audit body = do locale_date ← locale; modify (store_audit locale_date body)

request_audit : M (Unit {0})
request_audit = do s ← gets (λ s. s); body ← api (audit_request s); show_audit body

ask_audit : M (Unit {0})
ask_audit = do page (set_hidden "auditPanel" false); request_audit

unfoldable pub load_audit_events : M (Unit {0})
unfolding audit_request store_audit show_audit request_audit ask_audit
load_audit_events = do u ← gets λ s. s.current_user; when (has_role "superadmin" u) ask_audit
