-- ===== src/Links/Editor.antt =====
-- The editor of a link: the form that `editLink` fills, and what `linkPayloadFromForm` reads of it.
use shortq.Prelude.{
  ℕ, List, [], ◌∷◌, ◌≡◌, refl, ◌∙◌, ap, sym, Text, codes, show_ℕ, Bool, true, false, ◌==◌, text_eq,
  or_text, take, if◌then◌else◌, some,
}
use shortq.State.{App, Dom, Link}
use shortq.State.Monad.{Env, Result, ok, ◌>>◌}
use shortq.Links.Tags.{join_tags}
use shortq.Links.Edit.{
  write_field, write_fields, check_box, editor_values, number_text, fill_editor, write_expiry,
  fill_expiry, open_editor, set_fields,
}

-- The form `editLinkForm` of web/index.html, as the page has it and `reset()` leaves it.
abbrev pub editor_fields : List (Text × Text)
editor_fields =
    (codes "id", [])
    ∷ (codes "url", [])
    ∷ (codes "title", [])
    ∷ (codes "visibility", codes "private")
    ∷ (codes "redirect_code", codes "302")
    ∷ (codes "expires_at", [])
    ∷ (codes "max_clicks", [])
    ∷ (codes "expired_url", [])
    ∷ (codes "ios_url", [])
    ∷ (codes "android_url", [])
    ∷ (codes "geo_targets", [])
    ∷ (codes "tags", [])
    ∷ (codes "utm_source", [])
    ∷ (codes "utm_medium", [])
    ∷ (codes "utm_campaign", [])
    ∷ (codes "password", [])
    ∷ []

abbrev pub editor_boxes : List (Text × Bool)
editor_boxes = (codes "clear_password", false) ∷ (codes "forward_query", false) ∷ []

-- The form with the values of a link, and the texts of its expiry and limit.
abbrev pub fields_with : Link → Text → Text → List (Text × Text)
fields_with x expires limit =
    (codes "id", number_text x.id)
    ∷ (codes "url", x.target_url)
    ∷ (codes "title", x.title)
    ∷ (codes "visibility", or_text x.visibility (codes "private"))
    ∷ (codes "redirect_code", or_text (number_text x.redirect_code) (codes "302"))
    ∷ (codes "expires_at", expires)
    ∷ (codes "max_clicks", limit)
    ∷ (codes "expired_url", x.expired_url)
    ∷ (codes "ios_url", x.ios_url)
    ∷ (codes "android_url", x.android_url)
    ∷ (codes "geo_targets", x.geo_targets.text)
    ∷ (codes "tags", join_tags x.tags)
    ∷ (codes "utm_source", x.utm_source)
    ∷ (codes "utm_medium", x.utm_medium)
    ∷ (codes "utm_campaign", x.utm_campaign)
    ∷ (codes "password", [])
    ∷ []

abbrev pub boxes_of : Link → List (Text × Bool)
boxes_of x = (codes "clear_password", false) ∷ (codes "forward_query", x.forward_query) ∷ []

-- The controls keep these values as they are.
abbrev pub Holds : (Text → Text → Text) → List (Text × Text) → Type 0
Holds kept [] = Unit {0}
Holds kept ((key, v) ∷ kvs) = (kept key v ≡ v) × Holds kept kvs

as_is : Text → Text → Text
as_is key v = v

written :
    (kept : Text → Text → Text) (key v : Text) (es : List (Text × Text))
    → kept key v ≡ v
    → write_field kept key v es ≡ write_field as_is key v es
unfolding write_field as_is
written kept key v [] h = refl
written kept key v ((k, w) ∷ es) h = rw (h, written kept key v es h) refl

all_written :
    (kept : Text → Text → Text) (kvs es : List (Text × Text))
    → Holds kept kvs
    → write_fields kept kvs es ≡ write_fields as_is kvs es
unfolding write_fields
all_written kept [] es h = refl
all_written kept ((key, v) ∷ kvs) es (h, hs) =
    all_written kept kvs (write_field kept key v es) hs
    ∙ ap (write_fields as_is kvs) (written kept key v es h)

-- The text that `editLink` shows for the expiry of a link: none, or the first 16 characters of
-- the time in UTC.
pub data ShownExpiry (env : Env) : Text → Text → Type 0 where
  never : ShownExpiry env [] []
  at :
      (c : ℕ) (t iso : Text)
      → env.iso (c ∷ t) ≡ some iso
      → env.kept (codes "expires_at") (take 16 iso) ≡ take 16 iso
      → ShownExpiry env (c ∷ t) (take 16 iso)

-- An editor with the page's form, whose controls keep the values of a link.
pub record Fits (env : Env) (s : App) (x : Link) : Type 0 where
  pub fields : s.dom.initial_fields "editLinkForm" ≡ editor_fields
  pub boxes : s.dom.initial_checks "editLinkForm" ≡ editor_boxes
  pub values : Holds env.kept (editor_values x)
  pub limit : env.kept (codes "max_clicks") (show_ℕ x.max_clicks) ≡ show_ℕ x.max_clicks

module _ (env : Env) (s : App) (x : Link) (fits : Fits env s x) where
  -- The form with the values and the expiry.
  abbrev dated : Text → List (Text × Text)
  dated e =
      write_field as_is (codes "expires_at") e (write_fields as_is (editor_values x) editor_fields)

  limited :
      (b : Bool) (e : Text)
      → (if b
          then dated e
          else write_field env.kept (codes "max_clicks") (show_ℕ x.max_clicks) (dated e))
        ≡ fields_with x e (if b then [] else show_ℕ x.max_clicks)
  unfolding write_fields write_field as_is editor_values text_eq
  limited true e = refl
  limited false e = rw fits.limit refl

  -- `editLink` for a link with the expiry `t`.
  abbrev edits : Text → Result (Unit {0}) × App
  edits t = (do fill_editor x; fill_expiry t; open_editor x) env s

  -- The state before the limit and the box are written.
  pub record Edited (e : Text) (r : Result (Unit {0}) × App) : Type 0 where
    pub ends : r.0 ≡ ok tt
    pub fields : r.1.dom.fields "editLinkForm" ≡ fields_with x e (number_text x.max_clicks)
    pub boxes : r.1.dom.checks "editLinkForm" ≡ boxes_of x
    pub opened : r.1.dom.is_open "linkEditor" ≡ true

  open_fields :
      (b : Bool) (d : Dom) (e : Text)
      → d.fields "editLinkForm" ≡ dated e
      → (if b
            then d
            else set_fields "editLinkForm"
                (write_field env.kept
                  (codes "max_clicks")
                  (show_ℕ x.max_clicks)
                  (d.fields "editLinkForm"))
                d).fields
          "editLinkForm"
        ≡ fields_with x e (if b then [] else show_ℕ x.max_clicks)
  open_fields true d e h = h ∙ limited true e
  open_fields false d e h =
      ap (write_field env.kept (codes "max_clicks") (show_ℕ x.max_clicks)) h ∙ limited false e

  open_boxes :
      (b : Bool) (d : Dom) (es : List (Text × Text))
      → d.checks "editLinkForm" ≡ editor_boxes
      → check_box
          (codes "forward_query")
          x.forward_query
          ((if b then d else set_fields "editLinkForm" es d).checks "editLinkForm")
        ≡ boxes_of x
  unfolding check_box text_eq
  open_boxes true d es h = rw h refl
  open_boxes false d es h = rw h refl

  opens :
      (t : App) (e : Text)
      → t.dom.fields "editLinkForm" ≡ dated e
      → t.dom.checks "editLinkForm" ≡ editor_boxes
      → Edited e (open_editor x env t)
  unfolding open_editor write_fields
  opens t e fields boxes = record {
    ends = refl;
    fields = open_fields (x.max_clicks == 0) t.dom e fields;
    boxes = open_boxes (x.max_clicks == 0) t.dom _ boxes;
    opened = refl;
  }

  valued :
      (fill_editor x env s).1.dom.fields "editLinkForm"
      ≡ write_fields as_is (editor_values x) editor_fields
  unfolding fill_editor
  valued = rw fits.fields (all_written env.kept (editor_values x) editor_fields fits.values)

  unboxed : (fill_editor x env s).1.dom.checks "editLinkForm" ≡ editor_boxes
  unfolding fill_editor
  unboxed = fits.boxes

  undated : dated [] ≡ write_fields as_is (editor_values x) editor_fields
  unfolding write_fields write_field as_is editor_values text_eq
  undated = refl

  by_iso :
      (iso : Text)
      → env.kept (codes "expires_at") (take 16 iso) ≡ take 16 iso
      → Edited
          (take 16 iso)
          ((do write_expiry (some iso); open_editor x) env (fill_editor x env s).1)
  unfolding write_expiry write_fields fill_editor
  by_iso iso keeps =
      opens ((do write_expiry (some iso)) env (fill_editor x env s).1).1 (take 16 iso)
        (ap (write_field env.kept (codes "expires_at") (take 16 iso)) valued
          ∙ written env.kept (codes "expires_at") (take 16 iso)
              (write_fields as_is (editor_values x) editor_fields) keeps)
        unboxed

  pub edits-Edited : {t e : Text} → ShownExpiry env t e → Edited e (edits t)
  unfolding fill_expiry fill_editor
  edits-Edited never = opens (fill_editor x env s).1 [] (valued ∙ sym undated) unboxed
  edits-Edited (at c t iso said keeps) = rw said (by_iso iso keeps)
