-- ===== src/Views/Admin.antt =====
-- web/app.js, `loadKeys`, `loadTenants`, `loadDomains`, `loadCustomers` and `loadAuditEvents`:
-- the rows of API keys, departments, domains, users and audit events.
use shortq.Prelude.{
  ℕ, List, [], ◌∷◌, ◌++◌, String, Text, codes, or_text, text_eq, Bool, not, ◌&&◌, if◌then◌else◌,
  Option, ◌==◌,
}
use shortq.State.{User, ApiKey, Tenant, Domain, AuditEvent}
use shortq.Html.{Piece, lit, escaped, num, raw, role_label}
use shortq.Views.{rows, or_else, can_delete}

revoke_button : Bool → ℕ → List Piece
revoke_button allowed id =
    if allowed
    then lit "<button class=\"danger\" onclick=\"delKey(" ∷ num id ∷ lit ")\">Revoke</button>" ∷ []
    else lit
        "<button class=\"danger\" disabled title=\"Deletion access required\">Revoke locked</button>"
      ∷ []

unfoldable pub key_row : (Text → Text) → Option User → ApiKey → List Piece
unfolding revoke_button
key_row locale u k =
    lit "<div class=\"row one-action\"><div><b>"
      ∷ escaped k.name
      ∷ lit "</b><div class=\"tiny\">"
      ∷ escaped k.prefix
      ∷ lit " · "
      ∷ escaped k.scope
      ∷ lit " scope · "
      ∷ raw (locale k.created_at)
      ∷ lit "</div></div>"
      ∷ revoke_button (can_delete u) k.id
    ++ lit "</div>" ∷ []

abbrev pub no_keys : String
no_keys = "<div class=\"empty\">No API keys.</div>"

unfoldable pub keys_html : (Text → Text) → Option User → List ApiKey → List Piece
unfolding rows
keys_html locale u xs = or_else (rows (key_row locale u) xs) no_keys

unfoldable pub tenant_row : Tenant → List Piece
tenant_row t =
    lit "<div class=\"row no-actions\"><div><b>"
    ∷ escaped t.name
    ∷ lit "</b><div class=\"tiny\">id "
    ∷ num t.id
    ∷ lit " · "
    ∷ escaped t.slug
    ∷ lit "</div></div></div>"
    ∷ []

abbrev pub no_tenants : String
no_tenants = "<div class=\"empty\">No departments.</div>"

unfoldable pub tenants_html : List Tenant → List Piece
unfolding rows
tenants_html xs = or_else (rows tenant_row xs) no_tenants

unfoldable pub tenant_option : Tenant → List Piece
tenant_option t =
    lit "<option value=\""
    ∷ num t.id
    ∷ lit "\">"
    ∷ escaped t.name
    ∷ lit " ("
    ∷ escaped t.slug
    ∷ lit ")</option>"
    ∷ []

-- `tenant_id || absent`
abbrev pub tenant_number : ℕ → String → Piece
tenant_number id absent = if id == 0 then lit absent else num id

-- The departments that a form offers: a department admin's own, else all that are known.
unfoldable pub tenant_options : User → List Tenant → List Piece
unfolding rows tenant_option
tenant_options u tenants =
    if text_eq u.role (codes "tenant")
    then lit "<option value=\""
      ∷ tenant_number u.tenant_id ""
      ∷ lit "\">department "
      ∷ tenant_number u.tenant_id "-"
      ∷ lit "</option>"
      ∷ []
    else lit "<option value=\"\">select department</option>" ∷ rows tenant_option tenants

delete_domain_button : Bool → ℕ → List Piece
delete_domain_button allowed id =
    if allowed
    then lit "<button class=\"danger\" onclick=\"delDomain("
      ∷ num id
      ∷ lit ")\">Delete</button>"
      ∷ []
    else lit
        "<button class=\"danger\" disabled title=\"Deletion access required\">Delete locked</button>"
      ∷ []

unfoldable pub domain_row : Option User → Domain → List Piece
unfolding delete_domain_button
domain_row u d =
    lit "<div class=\"row\"><div><b>"
      ∷ escaped d.domain
      ∷ lit "</b><div class=\"tiny\">"
      ∷ escaped d.status
      ∷ lit " · department "
      ∷ num d.tenant_id
      ∷ lit "<br>TXT _shortq."
      ∷ escaped d.domain
      ∷ lit " = shortq-verify="
      ∷ escaped d.verification_token
      ∷ lit "</div></div><button class=\"secondary\" onclick=\"verifyDomain("
      ∷ num d.id
      ∷ lit ")\">Verify</button>"
      ∷ delete_domain_button (can_delete u) d.id
    ++ lit "</div>" ∷ []

abbrev pub no_domains : String
no_domains = "<div class=\"empty\">No custom domains.</div>"

unfoldable pub domains_html : Option User → List Domain → List Piece
unfolding rows
domains_html u xs = or_else (rows (domain_row u) xs) no_domains

deletion_state : Bool → Bool → String
deletion_state always deletes =
    if always then "always allowed" else if deletes then "enabled" else "locked"

deletion_button : Bool → Bool → ℕ → List Piece
deletion_button allowed deletes id =
    if allowed
    then lit "<button class=\""
      ∷ lit (if deletes then "danger" else "secondary")
      ∷ lit "\" onclick=\"setDeletionAccess("
      ∷ num id
      ∷ lit ", "
      ∷ lit (if deletes then "false" else "true")
      ∷ lit ")\">"
      ∷ lit (if deletes then "Disable deletion" else "Enable deletion")
      ∷ lit "</button>"
      ∷ []
    else []

-- The row of a user, cut behind the words on activity. `unassigned` asks for no department.
unfoldable pub customer_head : (unassigned active : Bool) → User → List Piece
customer_head unassigned active u =
    lit "<div class=\"row\"><div><b>"
    ∷ escaped u.name
    ∷ lit "</b><div class=\"tiny\">"
    ∷ escaped u.email
    ∷ lit " · "
    ∷ escaped (role_label u.role)
    ∷ lit " · department "
    ∷ (if unassigned then lit "-" else num u.tenant_id)
    ∷ lit " · "
    ∷ lit (if active then "active" else "inactive")
    ∷ []

-- `always` asks for a superadmin, `allowed` whether the viewer may change the access.
unfoldable pub customer_tail : (always deletes allowed : Bool) → ℕ → List Piece
unfolding deletion_state deletion_button
customer_tail always deletes allowed id =
    lit " · deletion "
      ∷ lit (deletion_state always deletes)
      ∷ lit "</div></div><button class=\"secondary\" onclick=\"openUserReport("
      ∷ num id
      ∷ lit ")\">Report</button>"
      ∷ deletion_button allowed deletes id
    ++ lit "</div>" ∷ []

-- `viewer` is the current user, `u` the user of the row.
unfoldable pub customer_row : User → User → List Piece
unfolding customer_head customer_tail
customer_row viewer u =
    customer_head (u.tenant_id == 0) u.active u
    ++ customer_tail (text_eq u.role (codes "superadmin")) u.deletion_access
        (text_eq viewer.role (codes "superadmin") && not (text_eq u.role (codes "superadmin"))) u.id

abbrev pub no_customers : String
no_customers = "<div class=\"empty\">No matching users.</div>"

unfoldable pub customers_html : User → List User → List Piece
unfolding rows
customers_html viewer xs = or_else (rows (customer_row viewer) xs) no_customers

unfoldable pub audit_row : (Text → Text) → AuditEvent → List Piece
audit_row locale e =
    lit "<div class=\"row no-actions\"><div><b>"
    ∷ escaped e.action
    ∷ lit " · "
    ∷ escaped e.outcome
    ∷ lit "</b><div class=\"tiny\">"
    ∷ raw (locale e.created_at)
    ∷ lit " · "
    ∷ escaped e.actor_email
    ∷ lit " via "
    ∷ escaped e.auth_type
    ∷ lit " · "
    ∷ escaped e.target_type
    ∷ lit " "
    ∷ escaped e.target_id
    ∷ lit " · "
    ∷ escaped (or_text e.ip_address (codes "-"))
    ∷ lit "</div></div></div>"
    ∷ []

abbrev pub no_events : String
no_events = "<div class=\"empty\">No matching audit events.</div>"

unfoldable pub audit_html : (Text → Text) → List AuditEvent → List Piece
unfolding rows
audit_html locale xs = or_else (rows (audit_row locale) xs) no_events
