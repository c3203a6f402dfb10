-- ===== src/Links/Upload.antt =====
-- web/app.js, `importLinks`.
use shortq.Prelude.{[], ◌++◌, codes, show_ℕ, ◌==◌, if◌then◌else◌, none, some}
use shortq.State.{Body, null, imported, Payload, Request, Reply, unreachable, response, set_value}
use shortq.State.Monad.{
  M, value, type_error, raise, ◌>>=◌, ◌>>◌, modify, page, fetch, try_catch, when,
}
use shortq.Api.{is_ok, request_of, show_msg, show_thrown}
use shortq.Pager.{reset_link_pagination}
use shortq.Operations.{forget, reload_links}

-- The message on an import.
unfoldable pub import_message : Body → M (Unit {0})
import_message null = raise type_error
import_message (imported count errors) =
    show_msg (codes "Imported " ++ show_ℕ count ++ codes " links.")
      (if errors == 0 then "ok" else "error")
import_message _ = show_msg (codes "Imported undefined links.") "ok"

unfoldable pub links_imported : Body → M (Unit {0})
unfolding import_message reset_link_pagination
links_imported body = do
  import_message body
  modify reset_link_pagination
  modify (forget (codes "home"))
  reload_links

-- `importLinks` once `fetch` has settled; `response.json()` throws where the text is no JSON.
unfoldable pub import_settled : Reply → M (Unit {0})
unfolding links_imported
import_settled unreachable = raise type_error
import_settled (response status content_type none words status_text) = raise type_error
import_settled (response status content_type (some body) words status_text) =
    if is_ok status then links_imported body else raise (value body)

abbrev pub import_request : Request
import_request = request_of "POST" (codes "/api/v1/links/import") (Payload.file "csvFile")

abbrev pub clear_file : M (Unit {0})
clear_file = page (set_value "csvFile" [])

-- The `try`, the `catch` and the `finally` of `importLinks`.
unfoldable pub import_chosen : M (Unit {0})
unfolding import_settled
import_chosen = do
  try_catch (do reply ← fetch import_request; import_settled reply) show_thrown
  clear_file

-- `importLinks`
unfoldable pub import_links : M (Unit {0})
unfolding import_chosen
import_links env s = when (env.picked "csvFile") import_chosen env s
