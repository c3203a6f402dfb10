-- ===== src/Operations/Forget.antt =====
-- What the handlers of web/app.js that delete or change leave, above all which views are loaded.
use shortq.Prelude.{
  ◌≡◌, refl, ◌∙◌, ap, ℕ, List, [], ◌∷◌, Text, String, codes, Bool, false, text_eq, includes,
  Bool-cases, inl, inr,
}
use shortq.State.{App, Body, Request}
use shortq.State.Monad.{Env, M, ok, throw, Thrown, modify, ◌>>◌, pure, both}
use shortq.Api.{api, show_msg}
use shortq.Workspace.{load_links, load_stats}
use shortq.Workspace.Frame.{
  Frame, frame, Frames, bind-Frames, both-Frames, load_links-Frames, load_stats-Frames,
}
use shortq.Workspace.Admin.Frame.{load_customers-Frames}
use shortq.Workspace.Admin.{load_customers}
use shortq.Operations.Try.{try_api-answered, try_api-refused}
use shortq.Operations.{
  Closing, pressed, close, remove_view, forget, change, confirmed, delete_request, link_dialogue,
  reload_links, del_link, access_dialogue, access_request, set_deletion_access,
}

pub includes-remove_view : (key : Text) (vs : List Text) → includes (remove_view key vs) key ≡ false
unfolding includes remove_view
includes-remove_view key [] = refl
includes-remove_view key (v ∷ vs) = elim (Bool-cases (text_eq v key)) [
  | inl same ↦ rw same (includes-remove_view key vs)
  | inr other ↦ rw (other, other) (includes-remove_view key vs)
]

module _ (done : String) (key : Text) (reload : M (Unit {0})) (kept : Frames reload)
    (env : Env) where
  rest : M (Unit {0})
  rest = show_msg (codes done) "ok" >> (modify (forget key) >> reload)

  rest_frame : (s t : App) → frame t ≡ frame s → frame (rest env t).1 ≡ frame (forget key s)
  unfolding rest show_msg
  rest_frame s t same =
      kept env (forget key (show_msg (codes done) "ok" env t).1)
      ∙ ap (λ (f : Frame). record f { loaded_views = remove_view key f.loaded_views }) same

  change_lem :
      (q : Request) (s : App) (body : Body)
      → (api q env s).0 ≡ ok body
      → ((change q done (forget key) reload env s).0 ≡ ok tt)
        × (frame (change q done (forget key) reload env s).1 ≡ frame (forget key s))
  unfolding change rest
  change_lem q s body h =
      try_api-answered q (λ _. rest) env s body (frame (forget key s)) h (rest_frame s)

  change-refused :
      (q : Request) (s : App) (e : Thrown)
      → (api q env s).0 ≡ throw e
      → ((change q done (forget key) reload env s).0 ≡ ok tt)
        × (frame (change q done (forget key) reload env s).1 ≡ frame s)
  unfolding change rest
  change-refused q s e h = try_api-refused q (λ _. rest) env s e h

pub reload_links-Frames : Frames reload_links
reload_links-Frames =
    bind-Frames (both load_links load_stats) (λ _. pure tt)
      (both-Frames load_links load_stats load_links-Frames load_stats-Frames) (λ _ env s. refl)

-- The button that confirms.
abbrev pub pressed_confirm : Closing
pressed_confirm = pressed (codes "confirm")

abbrev pub confirm : App → App
confirm s = close pressed_confirm s

-- Where the user confirms and the server deletes a link, `delLink` does not throw, and the home view is no longer
-- marked as loaded, however the reload of the links ends; nothing else that routing sets has
-- changed.
pub del_link-forget :
    (id : ℕ) (env : Env) (s : App) (body : Body)
    → (api (delete_request "/api/v1/links/" id) env (confirm (link_dialogue id s))).0 ≡ ok body
    → ((del_link pressed_confirm id env s).0 ≡ ok tt)
      × (includes (del_link pressed_confirm id env s).1.loaded_views (codes "home") ≡ false)
      × (frame (del_link pressed_confirm id env s).1 ≡ frame (forget (codes "home") s))
unfolding del_link confirmed text_eq
del_link-forget id env s body h =
    let (ends, same) =
      change_lem "Link deleted." (codes "home") reload_links reload_links-Frames env
        (delete_request "/api/v1/links/" id) (confirm (link_dialogue id s)) body h in
    (
      ends,
      ap (λ (f : Frame). includes f.loaded_views (codes "home")) same
          ∙ includes-remove_view (codes "home") s.loaded_views,
      same,
    )

-- Where the user confirms and the server refuses to delete a link, `delLink` does not throw, and nothing that routing
-- sets has changed.
pub del_link-refused :
    (id : ℕ) (env : Env) (s : App) (e : Thrown)
    → (api (delete_request "/api/v1/links/" id) env (confirm (link_dialogue id s))).0 ≡ throw e
    → ((del_link pressed_confirm id env s).0 ≡ ok tt)
      × (frame (del_link pressed_confirm id env s).1 ≡ frame s)
unfolding del_link confirmed text_eq
del_link-refused id env s e h =
    change-refused "Link deleted." (codes "home") reload_links reload_links-Frames env
      (delete_request "/api/v1/links/" id) (confirm (link_dialogue id s)) e h

-- Where the user confirms and the server changes a user's right to delete, `setDeletionAccess` does not throw, and the
-- audit pane is no longer marked as loaded, however the reload of the users ends; nothing
-- else that routing sets has changed.
pub set_deletion_access-forget :
    (id : ℕ) (enabled : Bool) (env : Env) (s : App) (body : Body)
    → (api (access_request id enabled) env (confirm (access_dialogue enabled s))).0 ≡ ok body
    → ((set_deletion_access pressed_confirm id enabled env s).0 ≡ ok tt)
      × (includes
            (set_deletion_access pressed_confirm id enabled env s).1.loaded_views
            (codes "admin/audit")
          ≡ false)
      × (frame (set_deletion_access pressed_confirm id enabled env s).1
          ≡ frame (forget (codes "admin/audit") s))
unfolding set_deletion_access confirmed text_eq
set_deletion_access-forget id enabled env s body h =
    let (ends, same) =
      change_lem "Deletion access updated." (codes "admin/audit") load_customers
        load_customers-Frames env (access_request id enabled) (confirm (access_dialogue enabled s))
        body h in
    (
      ends,
      ap (λ (f : Frame). includes f.loaded_views (codes "admin/audit")) same
          ∙ includes-remove_view (codes "admin/audit") s.loaded_views,
      same,
    )
