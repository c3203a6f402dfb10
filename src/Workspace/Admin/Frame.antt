-- ===== src/Workspace/Admin/Frame.antt =====
-- What the loaders of the admin panes leave alone.
use shortq.Prelude.{
  Bool, Option, none, some, codes, text_eq, ◌≡◌, refl, List, false, Bool-cases, inl, inr,
}
use shortq.State.{App, User, Body, Domain, set_hidden}
use shortq.State.Monad.{M, ◌>>=◌, modify, page}
use shortq.Views.{has_role}
use shortq.Views.Admin.{tenants_html, domains_html}
use shortq.Workspace.{wanted, set_html, show_pager}
use shortq.Workspace.Frame.{frame, Frames, bind-Frames, when-Frames, api_bind-Frames, wanted-Frames}
use shortq.Workspace.Admin.{
  viewer, tenants_of, store_tenants, show_tenants, tenants_request, ask_tenants, only_if,
  load_tenants, setup_form, setup_customer_form, domains_of, show_domains, domains_request,
  ask_domains, is_staff, load_domains, customers_request, store_customers, show_customers,
  request_customers, ask_customers, load_customers, audit_request, store_audit, show_audit,
  request_audit, ask_audit, load_audit_events, set_form,
}

pub viewer-Frames : Frames viewer
viewer-Frames env s = wanted-Frames s.current_user env s

-- A handler for some users only.
viewer_bind-Frames :
    (test : User → Bool) (m : User → M (Unit {0}))
    → ((u : User) → Frames (m u))
    → Frames (viewer >>= only_if test m)
viewer_bind-Frames test m h =
    bind-Frames viewer (only_if test m) viewer-Frames (λ u. when-Frames (test u) (m u) (h u))

show_tenants-Frames : (b : Body) → Frames (show_tenants b)
unfolding show_tenants store_tenants
show_tenants-Frames b env s =
    bind-Frames (wanted (tenants_of b)) (λ xs. page (set_html "tenants" (tenants_html xs)))
      (wanted-Frames (tenants_of b)) (λ xs env s. refl) env (store_tenants b s)

ask_tenants-Frames : Frames ask_tenants
unfolding ask_tenants
ask_tenants-Frames = api_bind-Frames tenants_request show_tenants show_tenants-Frames

pub load_tenants-Frames : Frames load_tenants
unfolding load_tenants
load_tenants-Frames =
    viewer_bind-Frames (λ u. text_eq u.role (codes "superadmin")) (λ _. ask_tenants)
      (λ _. ask_tenants-Frames)

frame-setup_form : (u : Option User) (s : App) → frame (setup_form u s) ≡ frame s
unfolding setup_form set_form
frame-setup_form none s = refl
frame-setup_form (some u) s = elim (Bool-cases (text_eq u.role (codes "customer"))) [
  | inl customer ↦ rw customer
  | inr staff ↦ rw staff
]

pub setup_customer_form-Frames : Frames setup_customer_form
unfolding setup_customer_form
setup_customer_form-Frames env s = frame-setup_form s.current_user s

set_domain_html : List Domain → M (Unit {0})
set_domain_html xs =
    modify λ s. record s { dom = set_html "domains" (domains_html s.current_user xs) s.dom }

show_domains-Frames : (u : User) (b : Body) → Frames (show_domains u b)
unfolding show_domains set_domain_html
show_domains-Frames u b env s =
    bind-Frames (wanted (domains_of b)) set_domain_html (wanted-Frames (domains_of b))
      (λ xs env s. refl) env _

ask_domains-Frames : (u : User) → Frames (ask_domains u)
unfolding ask_domains
ask_domains-Frames u = api_bind-Frames domains_request (show_domains u) (show_domains-Frames u)

pub load_domains-Frames : Frames load_domains
unfolding load_domains
load_domains-Frames = viewer_bind-Frames is_staff ask_domains ask_domains-Frames

request_customers-Frames : (u : User) → Frames (request_customers u)
unfolding request_customers show_customers store_customers show_pager
request_customers-Frames u env s =
    api_bind-Frames (customers_request s) (show_customers u) (λ b env s. refl) env s

ask_customers-Frames : (u : User) → Frames (ask_customers u)
unfolding ask_customers
ask_customers-Frames u =
    bind-Frames setup_customer_form (λ _. request_customers u) setup_customer_form-Frames
      (λ _. request_customers-Frames u)

pub load_customers-Frames : Frames load_customers
unfolding load_customers
load_customers-Frames = viewer_bind-Frames is_staff ask_customers ask_customers-Frames

request_audit-Frames : Frames request_audit
unfolding request_audit show_audit store_audit show_pager
request_audit-Frames env s = api_bind-Frames (audit_request s) show_audit (λ b env s. refl) env s

ask_audit-Frames : Frames ask_audit
unfolding ask_audit
ask_audit-Frames env s =
    request_audit-Frames env (record s { dom = set_hidden "auditPanel" false s.dom })

pub load_audit_events-Frames : Frames load_audit_events
unfolding load_audit_events
load_audit_events-Frames env s =
    when-Frames (has_role "superadmin" s.current_user) ask_audit ask_audit-Frames env s
