-- ===== src/Operations/Create.antt =====
-- web/app.js, the handlers of the forms of the admin panes and of the settings: `createKey`,
-- `createTenant`, `createDomain` and `createCustomer`. The forms have no `id`; each is called by
-- its handler's name. The `fields` of a form are the
-- entries of `data(e)`, without those of disabled controls.
use shortq.Prelude.{
  ◌==◌, List, ◌∷◌, ◌++◌, String, Text, codes, text_eq, is_empty, if◌then◌else◌, Option, none, some,
}
use shortq.State.{App, User, Body, null, new_key, Payload, Request, set_content, reset_form}
use shortq.State.Platform.{Double, Numbers}
use shortq.State.Monad.{
  Env, M, type_error, pure, raise, ◌>>=◌, ◌>>◌, modify, gets, page, try_catch, both,
}
use shortq.Api.{api, request_of, show_msg, show_thrown}
use shortq.Pager.{reset_user_pagination}
use shortq.Workspace.{load_keys, load_stats}
use shortq.Workspace.Admin.{
  load_tenants, load_domains, load_customers, setup_customer_form, set_param, without,
}
use shortq.Links.FormPayload.{entry, has_entry}

abbrev pub form_request : String → Payload → Request
form_request path payload = request_of "POST" (codes path) payload

-- `r.key` of the server's answer, as it is shown.
unfoldable pub key_text : Body → M Text
key_text null = raise type_error
key_text (new_key key) = pure key
key_text _ = pure (codes "undefined")

unfoldable pub key_created : Body → M (Unit {0})
unfolding key_text
key_created body = do
  key ← key_text body
  page (set_content "newKey" (codes "Copy now. Shown once:" ++ (10 ∷ key)))
  page (reset_form "createKey")
  load_keys

abbrev pub key_request : App → Request
key_request s = form_request "/api/v1/api-keys" (Payload.form (s.dom.fields "createKey"))

-- `createKey`
unfoldable pub create_key : M (Unit {0})
unfolding key_created
create_key env s = try_catch (api (key_request s) >>= key_created) show_thrown env s

abbrev pub reload_tenants : M (Unit {0})
reload_tenants = do _ ← both load_tenants load_stats; setup_customer_form; load_domains

abbrev pub tenant_created : Body → M (Unit {0})
tenant_created body = do
  page (reset_form "createTenant")
  show_msg (codes "Department created.") "ok"
  reload_tenants

abbrev pub tenant_request : App → Request
tenant_request s = form_request "/api/v1/tenants" (Payload.form (s.dom.fields "createTenant"))

-- `createTenant`
unfoldable pub create_tenant : M (Unit {0})
create_tenant env s = try_catch (api (tenant_request s) >>= tenant_created) show_thrown env s

-- The department of the current user, if she administers one, and else the one in the form; the
-- number of an absent entry is NaN.
abbrev pub chosen_tenant : Numbers → User → List (Text × Text) → Double
chosen_tenant n u es =
    if text_eq u.role (codes "tenant")
    then n.of_nat u.tenant_id
    else n.of_text
        (if has_entry es (codes "tenant_id") then entry es (codes "tenant_id") else codes "NaN")

-- The object `d` of `createDomain`.
unfoldable pub domain_payload : Numbers → User → List (Text × Text) → Payload
unfolding entry has_entry without
domain_payload n u es =
    Payload.tenant_form (without (codes "tenant_id") es) (some (chosen_tenant n u es))

abbrev pub domain_request : Env → User → App → Request
domain_request env u s =
    form_request "/api/v1/domains" (domain_payload env.numbers u (s.dom.fields "createDomain"))

abbrev pub domain_created : Body → M (Unit {0})
domain_created body = do
  page (reset_form "createDomain")
  show_msg (codes "Domain added. Add DNS TXT/CNAME then verify.") "ok"
  load_domains

-- `createDomain` for a current user; without one, `currentUser.role` throws before the `try`.
unfoldable pub create_domain_by : Option User → M (Unit {0})
create_domain_by none = raise type_error
create_domain_by (some u) =
    λ env s. try_catch (api (domain_request env u s) >>= domain_created) show_thrown env s

-- `createDomain`
unfoldable pub create_domain : M (Unit {0})
unfolding create_domain_by
create_domain = do u ← gets (λ s. s.current_user); create_domain_by u

-- `tenant_id` of `createCustomer`, if it is truthy: 0 and the empty text are not.
abbrev pub customer_tenant : Numbers → User → List (Text × Text) → Option Double
customer_tenant n u es =
    if text_eq u.role (codes "tenant")
    then (if u.tenant_id == 0 then none else some (n.of_nat u.tenant_id))
    else if is_empty (entry es (codes "tenant_id"))
    then none
    else some (n.of_text (entry es (codes "tenant_id")))

-- The object `d` of `createCustomer`.
unfoldable pub customer_payload : Numbers → User → List (Text × Text) → Payload
unfolding entry without set_param
customer_payload n u es =
    let role =
      if text_eq u.role (codes "tenant")
      then set_param (codes "role") (codes "customer") es
      else es in
    Payload.tenant_form (without (codes "tenant_id") role) (customer_tenant n u es)

abbrev pub customer_request : Env → User → App → Request
customer_request env u s =
    form_request "/api/v1/customers"
      (customer_payload env.numbers u (s.dom.fields "createCustomer"))

abbrev pub reload_customers : M (Unit {0})
reload_customers = do _ ← both load_customers load_stats; pure tt

abbrev pub customer_created : Body → M (Unit {0})
customer_created body = do
  page (reset_form "createCustomer")
  show_msg (codes "User created.") "ok"
  setup_customer_form
  modify reset_user_pagination
  reload_customers

-- `createCustomer` for a current user; without one, `currentUser.role` throws before the `try`.
unfoldable pub create_customer_by : Option User → M (Unit {0})
create_customer_by none = raise type_error
create_customer_by (some u) =
    λ env s. try_catch (api (customer_request env u s) >>= customer_created) show_thrown env s

-- `createCustomer`
unfoldable pub create_customer : M (Unit {0})
unfolding create_customer_by
create_customer = do u ← gets (λ s. s.current_user); create_customer_by u
