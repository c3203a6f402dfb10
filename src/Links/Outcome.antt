-- ===== src/Links/Outcome.antt =====
-- What submitting the forms of a link leaves: which views are loaded anew, and the editor.
use shortq.Prelude.{
  ℕ, [], ◌∷◌, none, ◌≡◌, refl, ◌∙◌, ap, Text, String, Bool, codes, true, false, includes,
}
use shortq.State.{App, Link, link}
use shortq.State.LinkForm.{LinkPayload}
use shortq.State.Monad.{Env, M, Result, ok, throw, Thrown, pure, both, then_run}
use shortq.Api.{api, show_msg, show_thrown, show_body, message_of}
use shortq.Links.FormPayload.{entry, link_payload, expiry, country_routes}
use shortq.Pager.{first_page, reset_link_pagination}
use shortq.Workspace.{load_recent_links, load_stats}
use shortq.Workspace.Frame.{
  Frame, frame, Frames, bind-Frames, both-Frames, load_stats-Frames, load_recent_links-Frames,
}
use shortq.Operations.{remove_view, forget}
use shortq.Workspace.Keeps.{bind-Keeps}
use shortq.Workspace.Pagination.{link_pagination, home_loaders-Keeps, caught-Keeps}
use shortq.Operations.Try.{answered_part, try_api-answered, try_api-refused}
use shortq.Operations.Forget.{includes-remove_view, reload_links-Frames}
use shortq.Links.Save.{
  form_payload, save_request, link_saved, save_link, reload_home, create_request, link_created,
  create_link,
}

-- A submission that ends with a message and asks nothing of the server.
pub record Unsent (s : App) (r : Result (Unit {0}) × App) : Type 0 where
  pub ends : r.0 ≡ ok tt
  pub sends : r.1.sent ≡ s.sent
  pub says : r.1.dom.content "msg" ≡ codes "Country routes must be valid JSON."
  pub same : frame r.1 ≡ frame s

-- The two forms of a link, that of the home view and the editor, and the handlers of their
-- submission.
unfoldable pub form_of : Bool → String
form_of true = "createLink"
form_of false = "editLinkForm"

unfoldable pub submit : Bool → M (Unit {0})
submit true = create_link
submit false = save_link

-- The frame with the editor closed and a view that is no longer loaded.
abbrev saved_frame : Frame → Frame
saved_frame f = record f {
  editor_open = false;
  loaded_views = remove_view (codes "home") f.loaded_views;
}

saved_frames :
    (x : Link) (env : Env) (s t : App)
    → frame t ≡ frame s
    → frame (link_saved (link x) env t).1 ≡ saved_frame (frame s)
unfolding link_saved show_msg
saved_frames x env s t same = reload_links-Frames env _ ∙ ap saved_frame same

-- Where the form makes a payload and the server answers with the link, `saveLink` does not throw,
-- the editor is closed and the home view is loaded anew, however the reload of the links ends;
-- nothing else that routing sets has changed.
pub save_link-saved :
    (env : Env) (s : App) (p : LinkPayload) (x : Link)
    → form_payload "editLinkForm" false env s ≡ (ok p, s)
    → (api (save_request s p) env s).0 ≡ ok (link x)
    → ((save_link env s).0 ≡ ok tt)
      × (includes (save_link env s).1.loaded_views (codes "home") ≡ false)
      × (frame (save_link env s).1
          ≡ record (frame (forget (codes "home") s)) { editor_open = false })
unfolding save_link
save_link-saved env s p x made answers =
    let (ends, same) =
      try_api-answered (save_request s p) link_saved env s (link x) (saved_frame (frame s)) answers
        (saved_frames x env s) in
    rw made (
      ends,
      ap (λ (f : Frame). includes f.loaded_views (codes "home")) same
          ∙ includes-remove_view (codes "home") s.loaded_views,
      same,
    )

-- Where the server refuses what the editor sends, `saveLink` does not throw, and the editor stays
-- open and nothing that routing sets has changed.
pub save_link-refused :
    (env : Env) (s : App) (p : LinkPayload) (e : Thrown)
    → form_payload "editLinkForm" false env s ≡ (ok p, s)
    → (api (save_request s p) env s).0 ≡ throw e
    → ((save_link env s).0 ≡ ok tt) × (frame (save_link env s).1 ≡ frame s)
unfolding save_link
save_link-refused env s p e made refuses =
    rw made (try_api-refused (save_request s p) link_saved env s e refuses)

created_frame : Frame → Frame
created_frame f = record f { loaded_views = remove_view (codes "links") f.loaded_views }

reload_home-Frames : Frames reload_home
reload_home-Frames =
    bind-Frames (both load_recent_links load_stats) (λ _. pure tt)
      (both-Frames load_recent_links load_stats load_recent_links-Frames load_stats-Frames)
      (λ _ env s. refl)

created_frames :
    (x : Link) (env : Env) (s t : App)
    → frame t ≡ frame s
    → frame (link_created (link x) env t).1 ≡ created_frame (frame s)
unfolding link_created show_msg reset_link_pagination created_frame
created_frames x env s t same = reload_home-Frames env _ ∙ ap created_frame same

-- The state in which `createLink` asks the server.
abbrev pub creating : Env → App → App
creating env s = (show_msg (codes "Creating link...") "ok" env s).1

created_pages :
    (x : Link) (env : Env) (t : App) → (link_created (link x) env t).1.link_pages ≡ first_page
unfolding link_created show_msg reset_link_pagination
created_pages x env t =
    bind-Keeps link_pagination (both load_recent_links load_stats) (λ _. pure tt) home_loaders-Keeps
      (λ _ env s. refl) env _

-- Where the form of the home view makes a payload and the server answers with the link,
-- `createLink` does not throw, the listing of links is back at its first page and the view of all
-- links is loaded anew, however the reload of the home view ends; nothing else that routing sets
-- has changed.
pub create_link-created :
    (env : Env) (s : App) (p : LinkPayload) (x : Link)
    → form_payload "createLink" true env (creating env s) ≡ (ok p, creating env s)
    → (api (create_request p) env (creating env s)).0 ≡ ok (link x)
    → ((create_link env s).0 ≡ ok tt)
      × ((create_link env s).1.link_pages ≡ first_page)
      × (includes (create_link env s).1.loaded_views (codes "links") ≡ false)
      × (frame (create_link env s).1 ≡ frame (forget (codes "links") s))
unfolding create_link show_msg created_frame
create_link-created env s p x made answers =
    let t = api (create_request p) env (creating env s) in
    let (ends, same) =
      try_api-answered (create_request p) link_created env (creating env s) (link x)
        (created_frame (frame s)) answers (created_frames x env (creating env s)) in
    rw made (
      ends,
      caught-Keeps env (then_run env t link_created)
          ∙ answered_part link_pagination link_created env t (link x) first_page answers
              (created_pages x env t.1),
      ap (λ (f : Frame). includes f.loaded_views (codes "links")) same
          ∙ includes-remove_view (codes "links") s.loaded_views,
      same,
    )

-- Where `JSON.parse` refuses the text of the country routes in a form whose expiry is empty,
-- submitting that form, the editor or the one of the home view, whatever the other form holds,
-- sends nothing, says so in the message line, and changes nothing that routing sets.
pub country_routes-refused :
    (home : Bool) (env : Env) (s : App) (c : ℕ) (t : Text)
    → env.parse_json (c ∷ t) ≡ none
    → entry (s.dom.fields (form_of home)) (codes "expires_at") ≡ []
    → entry (s.dom.fields (form_of home)) (codes "geo_targets") ≡ c ∷ t
    → Unsent s (submit home env s)
unfolding save_link create_link link_payload expiry country_routes show_thrown show_body show_msg
    message_of form_of submit
country_routes-refused false env s c t bad no_date routes =
    rw (no_date, routes, bad) (record { ends = refl; sends = refl; says = refl; same = refl })
country_routes-refused true env s c t bad no_date routes =
    rw (no_date, routes, bad) (record { ends = refl; sends = refl; says = refl; same = refl })
