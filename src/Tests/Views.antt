-- ===== src/Tests/Views.antt =====
-- Tests of the panels.
use shortq.Prelude.{[], ◌∷◌, some, codes, map}
use shortq.State.{User, Click, Share, ApiKey, Domain, AuditEvent, Tenant}
use shortq.Views.Links.{home_links_html, links_html, clicks_html, breakdown_html}
use shortq.Views.Admin.{tenants_html, keys_html, domains_html, customers_html, audit_html}
use shortq.Views.Safety.{Confined}
use shortq.Views.Safety.Blank.{
  blank_link, blank_click, blank_share, blank_tenant, blank_key, blank_domain, blank_user,
  blank_event,
}
use shortq.Views.Safety.Panels.{links_html-Confined}
use shortq.Views.Safety.All.{activity_panels-Confined, admin_panels-Confined}
use shortq.Tests.Samples.{ann, evil_link, fixed_date, fixed_date-PlainDates}

links_html-Confined_example :
    Confined
      (links_html fixed_date (some ann) (evil_link ∷ []))
      (links_html fixed_date (some ann) (map blank_link (evil_link ∷ [])))
links_html-Confined_example =
    links_html-Confined fixed_date fixed_date-PlainDates (some ann) (evil_link ∷ [])

abbrev evil_click : Click
evil_click = record {
  slug = codes "ride";
  created_at = codes "2026-01-02";
  country_code = [];
  device = codes "<i>";
  browser = codes "\"";
  route_type = codes "default";
  status_code = 302;
}

abbrev evil_key : ApiKey
evil_key = record {
  id = 3;
  name = codes "<script>";
  prefix = codes "sq_";
  scope = codes "user";
  created_at = codes "2026-01-02";
}

abbrev evil_domain : Domain
evil_domain = record {
  id = 3;
  tenant_id = 1;
  domain = codes "go.example.com<br>";
  status = codes "pending";
  verification_token = codes "a\"b";
}

abbrev evil_user : User
evil_user = record ann { name = codes "<b onload=\"x\">"; role = codes "<tenant>" }

abbrev evil_event : AuditEvent
evil_event = record {
  action = codes "link.deleted";
  outcome = codes "denied";
  created_at = codes "2026-01-02";
  actor_email = codes "<x>@alvaauto.com";
  auth_type = codes "session";
  target_type = codes "link";
  target_id = codes "5\"";
  ip_address = [];
}

abbrev evil_share : Share
evil_share = record { key = codes "<td>"; clicks = 4 }

abbrev evil_tenant : Tenant
evil_tenant = record { id = 2; name = codes "</b>"; slug = codes "\"" }

activity_panels-Confined_example :
    Confined (home_links_html (evil_link ∷ [])) (home_links_html (map blank_link (evil_link ∷ [])))
    × Confined
        (clicks_html fixed_date (evil_click ∷ []))
        (clicks_html fixed_date (map blank_click (evil_click ∷ [])))
    × Confined
        (breakdown_html (evil_share ∷ []))
        (breakdown_html (map blank_share (evil_share ∷ [])))
activity_panels-Confined_example =
    activity_panels-Confined fixed_date fixed_date-PlainDates (evil_link ∷ []) (evil_click ∷ [])
      (evil_share ∷ [])

admin_panels-Confined_example :
    Confined
      (keys_html fixed_date (some ann) (evil_key ∷ []))
      (keys_html fixed_date (some ann) (map blank_key (evil_key ∷ [])))
    × Confined
        (tenants_html (evil_tenant ∷ []))
        (tenants_html (map blank_tenant (evil_tenant ∷ [])))
    × Confined
        (domains_html (some ann) (evil_domain ∷ []))
        (domains_html (some ann) (map blank_domain (evil_domain ∷ [])))
    × Confined
        (customers_html ann (evil_user ∷ []))
        (customers_html ann (map blank_user (evil_user ∷ [])))
    × Confined
        (audit_html fixed_date (evil_event ∷ []))
        (audit_html fixed_date (map blank_event (evil_event ∷ [])))
admin_panels-Confined_example =
    admin_panels-Confined fixed_date fixed_date-PlainDates (some ann) ann (evil_key ∷ [])
      (evil_tenant ∷ []) (evil_domain ∷ []) (evil_user ∷ []) (evil_event ∷ [])
