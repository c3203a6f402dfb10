-- ===== src/Links/FormPayload.antt =====
-- web/app.js, `linkPayloadFromForm`: the object that is sent of the form of a link.
use shortq.Prelude.{
  List, [], ◌∷◌, ◌&&◌, Text, codes, Bool, true, false, not, text_eq, is_empty, or_text,
  if◌then◌else◌, Option, none, some,
}
use shortq.State.{object}
use shortq.State.LinkForm.{Json, LinkPayload}
use shortq.State.Monad.{Env, M, ok, Thrown, value, type_error, pure, raise, ◌>>=◌}
use shortq.Links.Tags.{parse_tags}

-- `raw[key]` of the entries of a form, whose names are distinct, the empty text where there is none.
unfoldable pub entry : List (Text × Text) → Text → Text
entry [] key = []
entry ((k, v) ∷ es) key = let rest = entry es key in if text_eq k key then v else rest

-- `key in raw`
unfoldable pub has_entry : List (Text × Text) → Text → Bool
has_entry [] key = false
has_entry ((k, v) ∷ es) key = if text_eq k key then true else has_entry es key

-- `form.elements[key].checked`, or a default where the form has no such box.
unfoldable pub is_checked : List (Text × Bool) → Text → Bool → Bool
is_checked [] key default = default
is_checked ((k, b) ∷ bs) key default =
    let rest = is_checked bs key default in if text_eq k key then b else rest

-- The keys that are copied from the form if it has them.
abbrev pub copied_keys : List Text
copied_keys =
    codes "expired_url"
    ∷ codes "ios_url"
    ∷ codes "android_url"
    ∷ codes "utm_source"
    ∷ codes "utm_medium"
    ∷ codes "utm_campaign"
    ∷ codes "utm_term"
    ∷ codes "utm_content"
    ∷ []

unfoldable pub copied : List Text → List (Text × Text) → List (Text × Text)
unfolding entry has_entry
copied [] es = []
copied (key ∷ keys) es =
    let rest = copied keys es in if has_entry es key then (key, entry es key) ∷ rest else rest

-- `if (text) payload[key] = text`
abbrev pub optional : Text → Option Text
optional [] = none
optional (c ∷ t) = some (c ∷ t)

iso_or_throw : Option Text → M (Option Text)
iso_or_throw none = raise type_error
iso_or_throw (some t) = pure (some t)

-- `payload.expires_at`
unfoldable pub expiry : Bool → Text → M (Option Text)
unfolding iso_or_throw
expiry true [] env s = (ok none, s)
expiry false [] env s = (ok (some []), s)
expiry creating (c ∷ t) env s = iso_or_throw (env.iso (c ∷ t)) env s

abbrev pub no_json : Thrown
no_json = value (object (codes "Country routes must be valid JSON.") [])

json_or_throw : Option Json → M Json
json_or_throw none = raise no_json
json_or_throw (some j) = pure j

-- `payload.geo_targets`
unfoldable pub country_routes : Text → M Json
unfolding json_or_throw
country_routes [] env s = (ok (record { text = codes "[]" }), s)
country_routes (c ∷ t) env s = json_or_throw (env.parse_json (c ∷ t)) env s

-- The object, once its expiry and its country routes are known.
unfoldable pub payload_with :
    Env → Bool → List (Text × Text) → List (Text × Bool) → Option Text → Json → LinkPayload
unfolding entry copied is_checked parse_tags
payload_with env creating raw boxes expires routes =
    let limit = entry raw (codes "max_clicks") in
    record {
      url = entry raw (codes "url");
      title = entry raw (codes "title");
      visibility = or_text (entry raw (codes "visibility")) (codes "private");
      redirect_code =
          env.numbers.of_text (or_text (entry raw (codes "redirect_code")) (codes "302"));
      forward_query = is_checked boxes (codes "forward_query") true;
      slug = if creating then optional (entry raw (codes "slug")) else none;
      extras = copied copied_keys raw;
      expires_at = expires;
      max_clicks = if is_empty limit then none else some (env.numbers.of_text limit);
      clear_max_clicks = is_empty limit && not creating;
      tags = parse_tags (entry raw (codes "tags"));
      geo_targets = routes;
      password = optional (entry raw (codes "password"));
      clear_password = is_checked boxes (codes "clear_password") false;
    }

-- `linkPayloadFromForm(form, creating)`
unfoldable pub link_payload : Bool → List (Text × Text) → List (Text × Bool) → M LinkPayload
unfolding expiry country_routes payload_with
link_payload creating raw boxes env s =
    (do
      expires ← expiry creating (entry raw (codes "expires_at"))
      routes ← country_routes (entry raw (codes "geo_targets"))
      pure (payload_with env creating raw boxes expires routes))
      env s
