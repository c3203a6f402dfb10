-- ===== src/Views/Safety/All.antt =====
-- The smaller panels of the workspace and those of the admin panes, together.
use shortq.Prelude.{List, map, Text, Option}
use shortq.State.{User, Link, Click, Share, ApiKey, Tenant, Domain, AuditEvent}
use shortq.Views.Links.{home_links_html, clicks_html, breakdown_html}
use shortq.Views.Admin.{tenants_html, keys_html, domains_html, customers_html, audit_html}
use shortq.Views.Safety.{Confined}
use shortq.Views.Safety.Blank.{
  blank_link, blank_click, blank_share, blank_tenant, blank_key, blank_domain, blank_user,
  blank_event,
}
use shortq.Views.Safety.Panels.{
  PlainDates, home_links_html-Confined, clicks_html-Confined, breakdown_html-Confined,
}
use shortq.Views.Safety.Admin.{
  tenants_html-Confined, keys_html-Confined, domains_html-Confined, customers_html-Confined,
  audit_html-Confined,
}

-- The links of the home view, the clicks and the shares of the countries are confined, where the
-- browser's date format writes no `<`.
pub activity_panels-Confined :
    (locale : Text → Text)
    → PlainDates locale
    → (links : List Link) (clicks : List Click) (shares : List Share)
    → Confined (home_links_html links) (home_links_html (map blank_link links))
      × Confined (clicks_html locale clicks) (clicks_html locale (map blank_click clicks))
      × Confined (breakdown_html shares) (breakdown_html (map blank_share shares))
activity_panels-Confined locale plain links clicks shares = (
  home_links_html-Confined links,
  clicks_html-Confined locale plain clicks,
  breakdown_html-Confined shares,
)

-- The API keys, the departments, the custom domains, the users and the audit events are confined,
-- for every current user, where the browser's date format writes no `<`: their tags depend on who
-- may do what, but on no text.
pub admin_panels-Confined :
    (locale : Text → Text)
    → PlainDates locale
    → (u : Option User) (viewer : User) (keys : List ApiKey) (tenants : List Tenant)
      (domains : List Domain) (users : List User) (events : List AuditEvent)
    → Confined (keys_html locale u keys) (keys_html locale u (map blank_key keys))
      × Confined (tenants_html tenants) (tenants_html (map blank_tenant tenants))
      × Confined (domains_html u domains) (domains_html u (map blank_domain domains))
      × Confined (customers_html viewer users) (customers_html viewer (map blank_user users))
      × Confined (audit_html locale events) (audit_html locale (map blank_event events))
admin_panels-Confined locale plain u viewer keys tenants domains users events = (
  keys_html-Confined locale plain u keys,
  tenants_html-Confined tenants,
  domains_html-Confined u domains,
  customers_html-Confined viewer users,
  audit_html-Confined locale plain events,
)
