-- ===== src/Links/Edit.antt =====
-- web/app.js, `editLink`: the editor is filled with a link.
use shortq.Prelude.{
  ℕ, List, [], ◌∷◌, String, Text, codes, show_ℕ, Bool, true, ◌==◌, text_eq, or_text, take,
  if◌then◌else◌, Option, none, some,
}
use shortq.State.{Dom, Link, put, set_content, reset_form}
use shortq.State.Monad.{M, type_error, pure, raise, ◌>>=◌, ◌>>◌, gets, page}
use shortq.Links.Tags.{join_tags}

-- `form.elements[key].value = value`, if the form has the field; `kept` is what the control makes
-- of the text.
unfoldable pub write_field :
    (Text → Text → Text) → Text → Text → List (Text × Text) → List (Text × Text)
write_field kept key v [] = []
write_field kept key v ((k, w) ∷ es) =
    let rest = write_field kept key v es in
    if text_eq k key then (k, kept key v) ∷ es else (k, w) ∷ rest

unfoldable pub write_fields :
    (Text → Text → Text) → List (Text × Text) → List (Text × Text) → List (Text × Text)
unfolding write_field
write_fields kept [] es = es
write_fields kept ((key, v) ∷ kvs) es = write_fields kept kvs (write_field kept key v es)

unfoldable pub check_box : Text → Bool → List (Text × Bool) → List (Text × Bool)
check_box key b [] = []
check_box key b ((k, c) ∷ bs) =
    let rest = check_box key b bs in if text_eq k key then (k, b) ∷ bs else (k, c) ∷ rest

abbrev pub set_fields : String → List (Text × Text) → Dom → Dom
set_fields name es d = record d { fields = put name es d.fields }

abbrev pub set_checks : String → List (Text × Bool) → Dom → Dom
set_checks name bs d = record d { checks = put name bs d.checks }

abbrev pub set_open : String → Bool → Dom → Dom
set_open name b d = record d { is_open = put name b d.is_open }

-- `n || ''` of a number, as the text of a field.
abbrev pub number_text : ℕ → Text
number_text n = if n == 0 then [] else show_ℕ n

-- The object `values` of `editLink`.
unfoldable pub editor_values : Link → List (Text × Text)
unfolding join_tags
editor_values x =
    (codes "id", number_text x.id)
    ∷ (codes "url", x.target_url)
    ∷ (codes "title", x.title)
    ∷ (codes "visibility", or_text x.visibility (codes "private"))
    ∷ (codes "redirect_code", or_text (number_text x.redirect_code) (codes "302"))
    ∷ (codes "expired_url", x.expired_url)
    ∷ (codes "ios_url", x.ios_url)
    ∷ (codes "android_url", x.android_url)
    ∷ (codes "geo_targets", x.geo_targets.text)
    ∷ (codes "tags", join_tags x.tags)
    ∷ (codes "utm_source", x.utm_source)
    ∷ (codes "utm_medium", x.utm_medium)
    ∷ (codes "utm_campaign", x.utm_campaign)
    ∷ []

abbrev write_editor : (Text → Text → Text) → List (Text × Text) → Dom → Dom
write_editor kept values d =
    set_fields "editLinkForm" (write_fields kept values (d.fields "editLinkForm")) d

-- `editLink` up to the expiry.
unfoldable pub fill_editor : Link → M (Unit {0})
unfolding write_fields editor_values
fill_editor x env s =
    page
      (λ d.
        write_editor env.kept (editor_values x)
          (set_content "editSlug" (b'/' ∷ x.slug) (reset_form "editLinkForm" d)))
      env s

-- `new Date(text).toISOString().slice(0, 16)` in the field of the expiry.
unfoldable pub write_expiry : Option Text → M (Unit {0})
unfolding write_fields
write_expiry none = raise type_error
write_expiry (some iso) =
    λ env s. page (write_editor env.kept ((codes "expires_at", take 16 iso) ∷ [])) env s

unfoldable pub fill_expiry : Text → M (Unit {0})
unfolding write_expiry
fill_expiry [] = pure tt
fill_expiry (c ∷ t) = λ env s. write_expiry (env.iso (c ∷ t)) env s

-- The rest of `editLink`.
unfoldable pub open_editor : Link → M (Unit {0})
unfolding write_fields check_box
open_editor x env s =
    page
      (λ d.
        let limited =
          if x.max_clicks == 0
          then d
          else write_editor env.kept ((codes "max_clicks", show_ℕ x.max_clicks) ∷ []) d in
        set_open "linkEditor" true (
          set_checks "editLinkForm"
            (check_box (codes "forward_query") x.forward_query (limited.checks "editLinkForm"))
            limited))
      env s

-- `linkCache.find(item => item.id === id)`
unfoldable pub find_link : ℕ → List Link → Option Link
find_link id [] = none
find_link id (x ∷ xs) = let rest = find_link id xs in if x.id == id then some x else rest

unfoldable pub edit_found : Option Link → M (Unit {0})
unfolding fill_editor fill_expiry open_editor
edit_found none = pure tt
edit_found (some x) = do fill_editor x; fill_expiry x.expires_at; open_editor x

-- `editLink`
unfoldable pub edit_link : ℕ → M (Unit {0})
unfolding edit_found find_link
edit_link id = do s ← gets (λ s. s); edit_found (find_link id s.link_cache)
