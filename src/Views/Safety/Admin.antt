-- ===== src/Views/Safety/Admin.antt =====
-- The panels of API keys, departments, domains, users and audit events, with blank texts and without.
use shortq.Prelude.{ℕ, ◌==◌, List, [], refl, Text, Bool, true, false, map, Option, arith}
use shortq.State.{User, ApiKey, Tenant, Domain, AuditEvent}
use shortq.Html.Markup.{mode_after, markup, is_placed, shape, mode_of}
use shortq.Views.Admin.{
  key_row, keys_html, no_keys, tenant_row, tenants_html, no_tenants, domain_row, domains_html,
  no_domains, customer_head, customer_tail, customer_row, customers_html, no_customers, audit_row,
  audit_html, no_events,
}
use shortq.Views.Safety.{IsSafe, IsSafe-append, Confined, panel-Confined}
use shortq.Views.Safety.Panels.{PlainDates, date_mode, date_silent, literal-Confined}
use shortq.Views.Safety.Blank.{blank_key, blank_tenant, blank_domain, blank_user, blank_event}

tenant_row-IsSafe : (x : Tenant) → IsSafe (tenant_row x) (tenant_row (blank_tenant x))
unfolding tenant_row is_placed shape mode_of mode_after markup blank_tenant
tenant_row-IsSafe x = record { placed = refl; ends = refl; same = refl }

domain_row-IsSafe :
    (u : Option User) (x : Domain) → IsSafe (domain_row u x) (domain_row u (blank_domain x))
unfolding domain_row is_placed shape mode_of mode_after markup blank_domain
domain_row-IsSafe u x = record { placed = ground arith; ends = ground arith; same = refl }

customer_head-IsSafe :
    (unassigned active : Bool) (u : User)
    → IsSafe (customer_head unassigned active u) (customer_head unassigned active (blank_user u))
unfolding customer_head is_placed shape mode_of mode_after markup blank_user
customer_head-IsSafe true true u = record { placed = refl; ends = refl; same = refl }
customer_head-IsSafe true false u = record { placed = refl; ends = refl; same = refl }
customer_head-IsSafe false true u = record { placed = refl; ends = refl; same = refl }
customer_head-IsSafe false false u = record { placed = refl; ends = refl; same = refl }

customer_tail-IsSafe :
    (always deletes allowed : Bool) (id : ℕ)
    → IsSafe (customer_tail always deletes allowed id) (customer_tail always deletes allowed id)
unfolding customer_tail is_placed shape mode_of mode_after markup
customer_tail-IsSafe true true true id = record { placed = refl; ends = refl; same = refl }
customer_tail-IsSafe true true false id = record { placed = refl; ends = refl; same = refl }
customer_tail-IsSafe true false true id = record { placed = refl; ends = refl; same = refl }
customer_tail-IsSafe true false false id = record { placed = refl; ends = refl; same = refl }
customer_tail-IsSafe false true true id = record { placed = refl; ends = refl; same = refl }
customer_tail-IsSafe false true false id = record { placed = refl; ends = refl; same = refl }
customer_tail-IsSafe false false true id = record { placed = refl; ends = refl; same = refl }
customer_tail-IsSafe false false false id = record { placed = refl; ends = refl; same = refl }

customer_row-IsSafe :
    (viewer u : User) → IsSafe (customer_row viewer u) (customer_row viewer (blank_user u))
unfolding customer_row blank_user
customer_row-IsSafe viewer u =
    IsSafe-append _ _ _ _ (customer_head-IsSafe (u.tenant_id == 0) u.active u)
      (customer_head-IsSafe (u.tenant_id == 0) u.active (blank_user u)).ends
      (customer_tail-IsSafe _ _ _ u.id)

-- The panel of users is confined, for every current user: the tags depend on who may delete and
-- on whether a user is active, unassigned or allowed to delete, but on no text.
pub customers_html-Confined :
    (viewer : User) (xs : List User)
    → Confined (customers_html viewer xs) (customers_html viewer (map blank_user xs))
unfolding customers_html is_placed mode_of mode_after
customers_html-Confined viewer xs =
    panel-Confined (customer_row viewer) blank_user (customer_row-IsSafe viewer)
      (λ x. unfold customer_row in refl) no_customers (literal-Confined no_customers refl refl) xs

-- The panel of departments is confined.
pub tenants_html-Confined :
    (xs : List Tenant) → Confined (tenants_html xs) (tenants_html (map blank_tenant xs))
unfolding tenants_html tenant_row is_placed mode_of mode_after
tenants_html-Confined xs =
    panel-Confined tenant_row blank_tenant tenant_row-IsSafe (λ x. refl) no_tenants
      (literal-Confined no_tenants refl refl) xs

-- The custom domains are confined, for every current user.
pub domains_html-Confined :
    (u : Option User) (xs : List Domain)
    → Confined (domains_html u xs) (domains_html u (map blank_domain xs))
unfolding domains_html domain_row is_placed mode_of mode_after
domains_html-Confined u xs =
    panel-Confined (domain_row u) blank_domain (domain_row-IsSafe u) (λ x. refl) no_domains
      (literal-Confined no_domains refl refl) xs

module _ (locale : Text → Text) (plain : PlainDates locale) where
  key_row-IsSafe :
      (u : Option User) (x : ApiKey) → IsSafe (key_row locale u x) (key_row locale u (blank_key x))
  unfolding key_row is_placed shape mode_of mode_after markup blank_key
  key_row-IsSafe u x = record {
    placed = ground (arith, date_mode locale plain x.created_at);
    ends = ground (arith, date_mode locale plain x.created_at);
    same = rw (
      date_mode locale plain x.created_at,
      date_silent locale plain x.created_at,
      date_mode locale plain [],
      date_silent locale plain [],
    );
  }

  -- The API keys are confined, for every current user, where the browser's date format writes
  -- no `<`.
  pub keys_html-Confined :
      (u : Option User) (xs : List ApiKey)
      → Confined (keys_html locale u xs) (keys_html locale u (map blank_key xs))
  unfolding keys_html key_row is_placed mode_of mode_after
  keys_html-Confined u xs =
      panel-Confined (key_row locale u) blank_key (key_row-IsSafe u) (λ x. refl) no_keys
        (literal-Confined no_keys refl refl) xs

  audit_row-IsSafe :
      (x : AuditEvent) → IsSafe (audit_row locale x) (audit_row locale (blank_event x))
  unfolding audit_row is_placed shape mode_of mode_after markup blank_event
  audit_row-IsSafe x = record {
    placed = rw (date_mode locale plain x.created_at);
    ends = rw (date_mode locale plain x.created_at);
    same = rw (
      date_mode locale plain x.created_at,
      date_silent locale plain x.created_at,
      date_mode locale plain [],
      date_silent locale plain [],
    );
  }

  -- The audit events are confined, where the browser's date format writes no `<`.
  pub audit_html-Confined :
      (xs : List AuditEvent)
      → Confined (audit_html locale xs) (audit_html locale (map blank_event xs))
  unfolding audit_html audit_row is_placed mode_of mode_after
  audit_html-Confined xs =
      panel-Confined (audit_row locale) blank_event audit_row-IsSafe (λ x. refl) no_events
        (literal-Confined no_events refl refl) xs
