-- ===== src/Views/Safety/Blank.antt =====
-- The rows' values with their texts taken out: what is left are numbers, flags and roles, and
-- whether a link names its creator.
use shortq.Prelude.{[], ◌∷◌, Text, is_empty, if◌then◌else◌}
use shortq.State.{User, Link, ApiKey, Tenant, Domain, Click, Share, AuditEvent}

abbrev blank_name : Text → Text
blank_name t = if is_empty t then [] else b'x' ∷ []

unfoldable pub blank_link : Link → Link
blank_link x = record x {
  slug = [];
  short_url = [];
  title = [];
  target_url = [];
  visibility = [];
  created_at = [];
  creator_name = blank_name x.creator_name;
  creator_email = [];
}

unfoldable pub blank_click : Click → Click
blank_click x = record {
  slug = [];
  created_at = [];
  country_code = [];
  device = [];
  browser = [];
  route_type = [];
  status_code = x.status_code;
}

unfoldable pub blank_share : Share → Share
blank_share x = record x { key = [] }

unfoldable pub blank_key : ApiKey → ApiKey
blank_key x = record { id = x.id; name = []; prefix = []; scope = []; created_at = [] }

unfoldable pub blank_tenant : Tenant → Tenant
blank_tenant x = record x { name = []; slug = [] }

unfoldable pub blank_domain : Domain → Domain
blank_domain x = record x { domain = []; status = []; verification_token = [] }

unfoldable pub blank_user : User → User
blank_user x = record x { name = []; email = []; dashboard_mode = [] }

unfoldable pub blank_event : AuditEvent → AuditEvent
blank_event x = record {
  action = [];
  outcome = [];
  created_at = [];
  actor_email = [];
  auth_type = [];
  target_type = [];
  target_id = [];
  ip_address = [];
}
