-- ===== src/Links/Import.antt =====
-- What `importLinks` leaves, however the import ends.
use shortq.Prelude.{◌≡◌, refl, ◌∙◌, ◌⊎◌, inl, inr, [], codes, true, Bool-cases, none, some}
use shortq.State.{App, Body, null, imported, Reply, unreachable, response}
use shortq.State.Monad.{Env, Result, ok, throw, then_run, caught, fetch, ◌>>=◌}
use shortq.Api.{is_ok, show_msg, show_thrown}
use shortq.Pager.{reset_link_pagination}
use shortq.Workspace.Frame.{frame}
use shortq.Operations.{forget}
use shortq.Operations.Try.{caught_shown}
use shortq.Operations.Forget.{reload_links-Frames}
use shortq.Links.Upload.{
  import_message, links_imported, import_settled, import_request, import_chosen, clear_file,
  import_links,
}

-- The frame is as it was, or the home view is no longer loaded.
abbrev KeepsOrForgets : App → App → Type 0
KeepsOrForgets s t = (frame t ≡ frame s) ⊎ (frame t ≡ frame (forget (codes "home") s))

imported_frame :
    (body : Body) (env : Env) (s : App) → KeepsOrForgets s (links_imported body env s).1
unfolding links_imported import_message show_msg reset_link_pagination
imported_frame null env s = inl refl
imported_frame (imported count errors) env s = inr (reload_links-Frames env _)
imported_frame _ env s = inr (reload_links-Frames env _)

settled : (reply : Reply) (env : Env) (s : App) → KeepsOrForgets s (import_settled reply env s).1
unfolding import_settled
settled unreachable env s = inl refl
settled (response status ct none words st) env s = inl refl
settled (response status ct (some body) words st) env s = elim (Bool-cases (is_ok status)) [
  | inl good ↦ rw good (imported_frame body env s)
  | inr bad ↦ rw bad (inl refl)
]

asked : Env → App → Result (Unit {0}) × App
asked env s = (do reply ← fetch import_request; import_settled reply) env s

sided : (s t u : App) → frame t ≡ frame u → KeepsOrForgets s u → KeepsOrForgets s t
sided s t u same (inl kept) = inl (same ∙ kept)
sided s t u same (inr lost) = inr (same ∙ lost)

cleared :
    (env : Env) (s : App) (r : Result (Unit {0}) × App)
    → r.0 ≡ ok tt
    → KeepsOrForgets s r.1
    → ((then_run env r (λ _. clear_file)).0 ≡ ok tt)
      × ((then_run env r (λ _. clear_file)).1.dom.value "csvFile" ≡ [])
      × KeepsOrForgets s (then_run env r (λ _. clear_file)).1
cleared env s (ok tt, t) h k = (refl, refl, k)
cleared env s (throw e, t) h k = cc

-- Once a file has been chosen, `importLinks` does not throw, whatever the server answers, and the
-- field is empty again; of what routing sets, nothing has changed but that the home view may be no
-- longer loaded.
pub import_links-ends :
    (env : Env) (s : App)
    → env.picked "csvFile" ≡ true
    → ((import_links env s).0 ≡ ok tt)
      × ((import_links env s).1.dom.value "csvFile" ≡ [])
      × ((frame (import_links env s).1 ≡ frame s)
          ⊎ (frame (import_links env s).1 ≡ frame (forget (codes "home") s)))
unfolding import_links import_chosen asked
import_links-ends env s chosen =
    let (ends, same) = caught_shown env (asked env s) in
    rw chosen (
      cleared env s (caught env (asked env s) show_thrown) ends (
        sided s (caught env (asked env s) show_thrown).1 (asked env s).1 same
          (settled (env.answer import_request s.sent) env _)))
