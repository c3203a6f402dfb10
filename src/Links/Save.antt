-- ===== src/Links/Save.antt =====
-- web/app.js, `saveLink`, `createLink` and `downloadLinks`.
use shortq.Prelude.{◌++◌, String, Text, codes, Bool, true, false}
use shortq.State.{App, Link, Body, null, link, Payload, Request, reset_form}
use shortq.State.LinkForm.{LinkPayload}
use shortq.State.Monad.{
  M, type_error, pure, raise, ◌>>=◌, ◌>>◌, modify, gets, page, try_catch, both,
}
use shortq.Api.{api, request_of, show_msg, show_thrown}
use shortq.Pager.{reset_link_pagination}
use shortq.Workspace.{load_recent_links, load_stats}
use shortq.Operations.{forget, reload_links}
use shortq.Links.Edit.{set_open}
use shortq.Links.FormPayload.{entry, link_payload}

-- A text of the link that the server answers with, as a template string shows it.
unfoldable pub shown_text : (Link → Text) → Body → M Text
shown_text f null = raise type_error
shown_text f (link x) = pure (f x)
shown_text f _ = pure (codes "undefined")

abbrev pub save_request : App → LinkPayload → Request
save_request s p =
    request_of "PATCH" (codes "/api/v1/links/" ++ entry (s.dom.fields "editLinkForm") (codes "id"))
      (Payload.link p)

-- `saveLink` once the server has answered.
unfoldable pub link_saved : Body → M (Unit {0})
unfolding shown_text
link_saved body = do
  page (set_open "linkEditor" false)
  slug ← shown_text (λ x. x.slug) body
  show_msg (codes "Updated /" ++ slug ++ codes "; the slug was not changed.") "ok"
  modify (forget (codes "home"))
  reload_links

abbrev pub send_saved : LinkPayload → M (Unit {0})
send_saved p = do s ← gets (λ s. s); body ← api (save_request s p); link_saved body

abbrev pub form_payload : String → Bool → M LinkPayload
form_payload name creating env s =
    link_payload creating (s.dom.fields name) (s.dom.checks name) env s

-- `saveLink`
unfoldable pub save_link : M (Unit {0})
unfolding link_saved
save_link = try_catch (do p ← form_payload "editLinkForm" false; send_saved p) show_thrown

abbrev pub create_request : LinkPayload → Request
create_request p = request_of "POST" (codes "/api/v1/links") (Payload.link p)

abbrev pub reload_home : M (Unit {0})
reload_home = do _ ← both load_recent_links load_stats; pure tt

-- `createLink` once the server has answered.
unfoldable pub link_created : Body → M (Unit {0})
unfolding shown_text reset_link_pagination
link_created body = do
  page (reset_form "createLink")
  url ← shown_text (λ x. x.short_url) body
  show_msg (codes "Created: " ++ url) "ok"
  modify reset_link_pagination
  modify (forget (codes "links"))
  reload_home

abbrev pub send_created : LinkPayload → M (Unit {0})
send_created p = do body ← api (create_request p); link_created body

-- `createLink`
unfoldable pub create_link : M (Unit {0})
unfolding link_created
create_link = do
  show_msg (codes "Creating link...") "ok"
  try_catch (do p ← form_payload "createLink" true; send_created p) show_thrown

-- `downloadLinks`
unfoldable pub download_links : M (Unit {0})
download_links = modify λ s. record s { href = codes "/api/v1/links/export.csv" }
