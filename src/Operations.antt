-- ===== src/Operations.antt =====
-- web/app.js, the handlers that ask before they change something on the server (`delLink`,
-- `delKey`, `delDomain` and `setDeletionAccess`), `confirmAction`, and `verifyDomain`. How the
-- user closes a dialogue is a parameter.
pub mod Try
pub mod Forget
pub mod Create
pub mod Created
use shortq.Prelude.{
  ℕ, List, [], ◌∷◌, ◌++◌, String, Text, codes, show_ℕ, Bool, true, false, not, ◌==◌, text_eq,
  if◌then◌else◌,
}
use shortq.State.{App, Dom, Link, Body, Payload, Request, put, set_content}
use shortq.State.Monad.{M, pure, ◌>>=◌, ◌>>◌, modify, gets, page, try_catch, when, both}
use shortq.Api.{api, request_of, show_msg, show_body, show_thrown}
use shortq.Workspace.{load_links, load_stats, load_keys}
use shortq.Workspace.Admin.{load_domains, load_customers}

-- `confirmAction`, up to the promise: the dialogue that is shown.
abbrev pub dialogue : Text → Text → Text → Bool → App → App
dialogue title message label danger s =
    let d =
      set_content "confirmButton" label
        (set_content "confirmMessage" message (set_content "confirmTitle" title s.dom)) in
    record s {
      dom = record d {
        class_name = put "confirmButton" (if danger then codes "danger" else []) d.class_name;
      };
    }

-- How the user closes the dialogue: by a button, which has a value, or by Esc.
pub data Closing : Type 0 where
  pressed : Text → Closing
  escaped : Closing

-- The value of `dialog.returnValue` after the dialogue has closed: a button's value, and with Esc the
-- one from before. Nothing resets it.
abbrev pub close : Closing → App → App
close (pressed v) s = record s { return_value = v }
close escaped s = s

-- `dialog.returnValue === 'confirm'`
abbrev pub is_confirmed : App → Bool
is_confirmed s = text_eq s.return_value (codes "confirm")

-- `if (!await confirmAction(…)) return;` before the rest of a handler.
confirmed : (App → App) → Closing → M (Unit {0}) → M (Unit {0})
confirmed ask closing act = do
  modify λ s. close closing (ask s)
  answer ← gets is_confirmed
  when answer act

-- `loadedWorkspaceViews.delete(key)`
unfoldable pub remove_view : Text → List Text → List Text
remove_view key [] = []
remove_view key (v ∷ vs) = if text_eq v key then remove_view key vs else v ∷ remove_view key vs

abbrev pub forget : Text → App → App
forget key s = record s { loaded_views = remove_view key s.loaded_views }

-- The `try` that these handlers end in: the request, the message, what is no longer loaded, and
-- the loaders.
change : Request → String → (App → App) → M (Unit {0}) → M (Unit {0})
change q done forgets reload =
    try_catch (do _ ← api q; show_msg (codes done) "ok"; modify forgets; reload) show_thrown

-- The slug that the dialogue names.
unfoldable pub slug_of : ℕ → List Link → Text
slug_of id [] = codes "this link"
slug_of id (x ∷ xs) = if x.id == id then x.slug else slug_of id xs

abbrev pub link_dialogue : ℕ → App → App
link_dialogue id s =
    dialogue (codes "Delete short link?")
      (b'/' ∷ slug_of id s.link_cache
        ++ codes " will stop redirecting immediately. Its analytics will be retained.")
      (codes "Delete link") true s

abbrev pub delete_request : String → ℕ → Request
delete_request path id = request_of "DELETE" (codes path ++ show_ℕ id) Payload.empty

abbrev pub reload_links : M (Unit {0})
reload_links = do _ ← both load_links load_stats; pure tt

unfoldable pub del_link : Closing → ℕ → M (Unit {0})
unfolding confirmed change
del_link closing id = confirmed (link_dialogue id) closing (
    change (delete_request "/api/v1/links/" id) "Link deleted." (forget (codes "home"))
      reload_links)

abbrev key_dialogue : App → App
key_dialogue s =
    dialogue (codes "Revoke API key?")
      (codes
        "Any integration using this key will lose access immediately. This action cannot be undone.")
      (codes "Revoke key") true s

unfoldable pub del_key : Closing → ℕ → M (Unit {0})
unfolding confirmed change
del_key closing id =
    confirmed key_dialogue closing
      (change (delete_request "/api/v1/api-keys/" id) "API key revoked." (λ s. s) load_keys)

abbrev domain_dialogue : App → App
domain_dialogue s =
    dialogue (codes "Delete custom domain?")
      (codes "Short links using this domain may stop working. This action cannot be undone.")
      (codes "Delete domain") true s

unfoldable pub del_domain : Closing → ℕ → M (Unit {0})
unfolding confirmed change
del_domain closing id =
    confirmed domain_dialogue closing
      (change (delete_request "/api/v1/domains/" id) "Domain deleted." (λ s. s) load_domains)

abbrev pub access_dialogue : Bool → App → App
access_dialogue enabled s =
    dialogue ((if enabled then codes "Enable" else codes "Disable") ++ codes " deletion access?")
      (if enabled
        then codes "This user will be able to delete links, domains, and API keys."
        else codes "This user will immediately lose deletion access.")
      (if enabled then codes "Enable access" else codes "Disable access") enabled s

abbrev pub access_request : ℕ → Bool → Request
access_request id enabled =
    request_of "PATCH" (codes "/api/v1/customers/" ++ show_ℕ id ++ codes "/deletion-access")
      (Payload.enabled enabled)

unfoldable pub set_deletion_access : Closing → ℕ → Bool → M (Unit {0})
unfolding confirmed change
set_deletion_access closing id enabled = confirmed (access_dialogue enabled) closing (
    change (access_request id enabled) "Deletion access updated." (forget (codes "admin/audit"))
      load_customers)

-- The body is an object without fields.
verify_request : ℕ → Request
verify_request id =
    request_of "POST" (codes "/api/v1/domains/" ++ show_ℕ id ++ codes "/verify") (Payload.form [])

unfoldable pub verify_domain : ℕ → M (Unit {0})
unfolding verify_request
verify_domain id =
    try_catch (do body ← api (verify_request id); show_body body "ok"; load_domains) show_thrown
