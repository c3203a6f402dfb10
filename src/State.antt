-- ===== src/State.antt =====
-- web/app.js and web/reports.js, the module variables and the parts of the page that the scripts
-- read and write, with the JSON values that the server's endpoints return.
pub mod Platform
pub mod ReportData
pub mod LinkForm
pub mod Monad
use package.text.Mathlib.Text.{◌==◌ as str_eq}
use shortq.Prelude.{ℕ, List, [], Text, String, Bool, Option, if◌then◌else◌}
use shortq.State.Platform.{Double}
use shortq.State.ReportData.{Report}
use shortq.State.LinkForm.{Json, LinkPayload}

-- A field that the server leaves out is read by the scripts under `||` or `esc`, so an absent
-- text is the empty text and an absent counter is 0. An absent `tags` or `geo_targets` is `[]`.
pub record User : Type 0 where
  pub id : ℕ
  pub name : Text
  pub email : Text
  pub role : Text
  pub tenant_id : ℕ
  pub active : Bool
  pub deletion_access : Bool
  pub can_delete : Bool
  pub can_switch_mode : Bool
  pub dashboard_mode : Text

pub record Link : Type 0 where
  pub id : ℕ
  pub user_id : ℕ
  pub slug : Text
  pub short_url : Text
  pub title : Text
  pub target_url : Text
  pub visibility : Text
  pub clicks : ℕ
  pub created_at : Text
  pub creator_name : Text
  pub creator_email : Text
  pub redirect_code : ℕ
  pub expires_at : Text
  pub max_clicks : ℕ
  pub expired_url : Text
  pub ios_url : Text
  pub android_url : Text
  pub forward_query : Bool
  pub utm_source : Text
  pub utm_medium : Text
  pub utm_campaign : Text
  pub tags : List Text
  pub geo_targets : Json

pub record ApiKey : Type 0 where
  pub id : ℕ
  pub name : Text
  pub prefix : Text
  pub scope : Text
  pub created_at : Text

pub record Tenant : Type 0 where
  pub id : ℕ
  pub name : Text
  pub slug : Text

pub record Domain : Type 0 where
  pub id : ℕ
  pub tenant_id : ℕ
  pub domain : Text
  pub status : Text
  pub verification_token : Text

pub record Click : Type 0 where
  pub slug : Text
  pub created_at : Text
  pub country_code : Text
  pub device : Text
  pub browser : Text
  pub route_type : Text
  pub status_code : ℕ

pub record Share : Type 0 where
  pub key : Text
  pub clicks : ℕ

pub record AuditEvent : Type 0 where
  pub action : Text
  pub outcome : Text
  pub created_at : Text
  pub actor_email : Text
  pub auth_type : Text
  pub target_type : Text
  pub target_id : Text
  pub ip_address : Text

pub record RuntimeInfo : Type 0 where
  pub database_engine : Text
  pub database_name : Text
  pub server_hostname : Text
  pub container_id : Text
  pub deploy_tag : Text

-- What `api` can hand to its caller. `null` is also JavaScript's `undefined`; `object` is an
-- object with the two fields that `api` and `showMsg` look at, empty where they are absent. A
-- result of an import has the number of links and that of the rows with an error.
pub data Body : Type 0 where
  null : Body
  plain_text : Text → Body
  object : (error login_url : Text) → Body
  user : User → Body
  link_page : List Link → ℕ → Body
  user_page : List User → ℕ → Body
  click_page : List Click → ℕ → Body
  audit_page : List AuditEvent → ℕ → Body
  breakdown : List Share → Body
  keys : List ApiKey → Body
  tenants : List Tenant → Body
  domains : List Domain → Body
  counters : List (Text × ℕ) → Body
  runtime : RuntimeInfo → Body
  report : Report → Body
  link : Link → Body
  new_key : Text → Body
  imported : (count errors : ℕ) → Body

-- The body of a request, before it is written as JSON.
pub data Payload : Type 0 where
  empty : Payload
  mode : Text → Payload
  enabled : Bool → Payload
  form : List (Text × Text) → Payload
  -- A form whose entry `tenant_id` is a number, or was deleted.
  tenant_form : List (Text × Text) → Option Double → Payload
  link : LinkPayload → Payload
  -- A chosen file, by the field of the page it was chosen in.
  file : String → Payload

pub record Request : Type 0 where
  pub method : Text
  pub path : Text
  pub query : List (Text × Text)
  pub payload : Payload

-- The outcome of `fetch`: it rejects, or there is a response. `json` is what its `json()` gives,
-- none where the text is no JSON, and `words` what its `text()` gives.
pub data Reply : Type 0 where
  unreachable : Reply
  response :
      (status : ℕ) (content_type : Text) (json : Option Body) (words status_text : Text) → Reply

-- The variables `…Cursor`, `…CursorHistory` and `…NextCursor` of one listing. The head of
-- `history` is the last element of the array.
pub record Pager : Type 0 where
  pub cursor : Text
  pub history : List Text
  pub next : ℕ

pub record ReportState : Type 0 where
  pub kind : Text
  pub id : Text

-- The page. Elements are named by their `id`; views, panes and navigation items by the `data-`
-- attribute (or `id`) that the scripts compare. `fields` are the named texts of a form and
-- `checks` its checkboxes, and the initial ones those that `reset()` brings back.
pub record Dom : Type 0 where
  pub content : String → Text
  pub class_name : String → Text
  pub value : String → Text
  pub fields : String → List (Text × Text)
  pub checks : String → List (Text × Bool)
  pub initial_fields : String → List (Text × Text)
  pub initial_checks : String → List (Text × Bool)
  pub is_open : String → Bool
  pub hidden : String → Bool
  pub disabled : String → Bool
  pub active : String → Bool
  pub view_hidden : Text → Bool
  pub view_active : Text → Bool
  pub pane_hidden : Text → Bool
  pub admin_view_active : Text → Bool

pub record App : Type 0 where
  pub current_user : Option User
  pub tenant_cache : List Tenant
  pub link_cache : List Link
  pub recent_link_cache : List Link
  pub loaded_views : List Text
  pub last_workspace_hash : Text
  pub link_pages : Pager
  pub user_pages : Pager
  pub click_pages : Pager
  pub audit_pages : Pager
  pub report_state : Option ReportState
  pub hash : Text
  pub href : Text
  -- `returnValue` of the dialogue `#confirmDialog`
  pub return_value : Text
  pub dom : Dom
  pub sent : List Request

-- One element changed.
abbrev pub put {ℓ} : {A : Type ℓ} → String → A → (String → A) → String → A
put k v f j = if str_eq j k then v else f j

abbrev pub set_content : String → Text → Dom → Dom
set_content k t d = record d { content = put k t d.content }

abbrev pub set_value : String → Text → Dom → Dom
set_value k t d = record d { value = put k t d.value }

abbrev pub set_hidden : String → Bool → Dom → Dom
set_hidden k b d = record d { hidden = put k b d.hidden }

abbrev pub set_disabled : String → Bool → Dom → Dom
set_disabled k b d = record d { disabled = put k b d.disabled }

abbrev pub set_active : String → Bool → Dom → Dom
set_active k b d = record d { active = put k b d.active }

-- `form.reset()`
abbrev pub reset_form : String → Dom → Dom
reset_form name d = record d {
  fields = put name (d.initial_fields name) d.fields;
  checks = put name (d.initial_checks name) d.checks;
}
