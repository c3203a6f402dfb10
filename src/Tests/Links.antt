-- ===== src/Tests/Links.antt =====
-- Tests of the forms of a link, of imports and of the QR card.
use shortq.Prelude.{
  [], ◌∷◌, ◌≡◌, refl, List, Text, codes, true, false, none, some, text_eq, includes, is_empty, drop,
  split, split_from, all, value, value-show_ℕ, occurs_in, if◌then◌else◌,
}
use shortq.State.{App, Link, link, object, response}
use shortq.State.LinkForm.{LinkPayload}
use shortq.State.Monad.{Env, ok, throw, Thrown}
use shortq.Api.{api, show_msg}
use shortq.Workspace.Frame.{frame}
use shortq.Pager.{first_page}
use shortq.Operations.{forget}
use shortq.Links.Tags.{trim, join_tags, parse_tags, non_empty, AreTags}
use shortq.Links.FormPayload.{
  entry, has_entry, copied, is_checked, expiry, country_routes, payload_with, link_payload,
}
use shortq.Links.Edit.{find_link, editor_values, edit_link}
use shortq.Links.Save.{form_payload, save_request, save_link, create_request, create_link}
use shortq.Links.Editor.{editor_fields, editor_boxes, Fits}
use shortq.Links.RoundTrip.{payload_of, SentExpiry, ReadsBack, edit_link-link_payload}
use shortq.Links.Outcome.{
  save_link-saved, create_link-created, creating, Unsent, form_of, submit, country_routes-refused,
}
use shortq.Qr.{known_link}
use shortq.Tests.Samples.{signed_in, evil_link, blank_page, one_link, refusing}

-- A link that expires at midnight in UTC, and a browser whose clock is seven hours ahead of UTC.
abbrev dated_link : Link
dated_link = record evil_link { expires_at = codes "2026-01-02T00:00:00Z" }

abbrev in_jakarta : Env
in_jakarta = record one_link {
  answer =
      λ q sent. response 200 (codes "application/json") (some (link evil_link)) [] (codes "OK");
  iso = λ t.
      if is_empty (drop 16 t)
      then some (codes "2026-01-01T17:00:00.000Z")
      else some (codes "2026-01-02T00:00:00.000Z");
}

abbrev home_fields : List (Text × Text)
home_fields =
    (codes "url", codes "https://alvaauto.com")
    ∷ (codes "slug", [])
    ∷ (codes "tags", codes "spring; ; test ride")
    ∷ (codes "geo_targets", codes "{")
    ∷ []

-- The page with the forms of web/index.html.
abbrev with_forms : App
with_forms = record signed_in {
  link_cache = dated_link ∷ [];
  loaded_views = codes "home" ∷ codes "links" ∷ [];
  dom = record blank_page {
    fields = λ name. home_fields;
    initial_fields = λ name. editor_fields;
    initial_checks = λ name. editor_boxes;
  };
}

forms : Unit {0}
unfolding api find_link editor_values entry has_entry copied is_checked expiry country_routes
    payload_with link_payload trim join_tags parse_tags non_empty split split_from text_eq includes
    all
forms = tt

tags-AreTags : AreTags evil_link.tags
unfolding forms
tags-AreTags = (
  record { some_text = refl; one_word = refl; trimmed = refl },
  (record { some_text = refl; one_word = refl; trimmed = refl }, tt),
)

tags_read : parse_tags (codes " spring;; test ride ;") ≡ evil_link.tags
unfolding forms
tags_read = refl

found : find_link 5 with_forms.link_cache ≡ some dated_link
unfolding forms
found = refl

fits : Fits in_jakarta with_forms dated_link
unfolding forms
fits = record {
  fields = refl;
  boxes = refl;
  values = (
    refl,
    (
      refl,
      (refl, (refl, (refl, (refl, (refl, (refl, (refl, (refl, (refl, (refl, (refl, tt))))))))))),
    ),
  );
  limit = refl;
}

reads : ReadsBack in_jakarta dated_link
reads = record {
  number = λ n i. record { bits = value-show_ℕ n i };
  routes = refl;
  some_json = refl;
  tags = tags-AreTags;
}

-- The link, submitted as it was opened, is sent with an expiry seven hours earlier.
edit_link-link_payload_example :
    ((edit_link 5 in_jakarta with_forms).0 ≡ ok tt)
    × ((edit_link 5 in_jakarta with_forms).1.dom.is_open "linkEditor" ≡ true)
    × (link_payload false
          ((edit_link 5 in_jakarta with_forms).1.dom.fields "editLinkForm")
          ((edit_link 5 in_jakarta with_forms).1.dom.checks "editLinkForm")
          in_jakarta
          (edit_link 5 in_jakarta with_forms).1
        ≡ (
          ok (payload_of in_jakarta dated_link (codes "2026-01-01T17:00:00.000Z")),
          (edit_link 5 in_jakarta with_forms).1,
        ))
edit_link-link_payload_example =
    edit_link-link_payload in_jakarta dated_link reads 5 with_forms
      (codes "2026-01-01T17:00:00.000Z") found fits
      (SentExpiry.at _ _ (codes "2026-01-02T00:00:00.000Z") _ refl refl refl refl)

abbrev home_payload : LinkPayload
home_payload = record {
  url = codes "https://alvaauto.com";
  title = [];
  visibility = codes "private";
  redirect_code = record { bits = 302 };
  forward_query = true;
  slug = none;
  extras = [];
  expires_at = none;
  max_clicks = none;
  clear_max_clicks = false;
  tags = evil_link.tags;
  geo_targets = record { text = codes "{" };
  password = none;
  clear_password = false;
}

abbrev saved_payload : LinkPayload
saved_payload = record home_payload { expires_at = some []; clear_max_clicks = true }

home_made :
    form_payload "createLink" true in_jakarta (creating in_jakarta with_forms)
    ≡ (ok home_payload, creating in_jakarta with_forms)
unfolding forms value show_msg
home_made = refl

editor_made :
    form_payload "editLinkForm" false in_jakarta with_forms ≡ (ok saved_payload, with_forms)
unfolding forms value
editor_made = refl

created :
    (api (create_request home_payload) in_jakarta (creating in_jakarta with_forms)).0
    ≡ ok (link evil_link)
unfolding forms occurs_in
created = refl

saved : (api (save_request with_forms saved_payload) in_jakarta with_forms).0 ≡ ok (link evil_link)
unfolding forms occurs_in
saved = refl

create_link-created_example :
    ((create_link in_jakarta with_forms).0 ≡ ok tt)
    × ((create_link in_jakarta with_forms).1.link_pages ≡ first_page)
    × (includes (create_link in_jakarta with_forms).1.loaded_views (codes "links") ≡ false)
    × (frame (create_link in_jakarta with_forms).1 ≡ frame (forget (codes "links") with_forms))
create_link-created_example =
    create_link-created in_jakarta with_forms home_payload evil_link home_made created

save_link-saved_example :
    ((save_link in_jakarta with_forms).0 ≡ ok tt)
    × (includes (save_link in_jakarta with_forms).1.loaded_views (codes "home") ≡ false)
    × (frame (save_link in_jakarta with_forms).1
        ≡ record (frame (forget (codes "home") with_forms)) { editor_open = false })
save_link-saved_example =
    save_link-saved in_jakarta with_forms saved_payload evil_link editor_made saved

editor_made_too :
    form_payload "editLinkForm" false refusing with_forms ≡ (ok saved_payload, with_forms)
unfolding forms value
editor_made_too = refl

not_saved :
    (api (save_request with_forms saved_payload) refusing with_forms).0
    ≡ throw (Thrown.value (object (codes "forbidden") []))
unfolding forms occurs_in
not_saved = refl

-- A browser for which no text is JSON.
abbrev strict : Env
strict = record in_jakarta { parse_json = λ t. none }

no_date : entry home_fields (codes "expires_at") ≡ []
unfolding forms
no_date = refl

routes : entry home_fields (codes "geo_targets") ≡ b'{' ∷ []
unfolding forms
routes = refl

country_routes-refused_example : Unsent with_forms (create_link strict with_forms)
unfolding form_of submit
country_routes-refused_example =
    country_routes-refused true strict with_forms b'{' [] refl no_date routes

known : known_link 5 with_forms ≡ some dated_link
unfolding forms
known = refl

some_address : is_empty (trim dated_link.short_url) ≡ false
unfolding forms
some_address = refl

an_image : text_eq (with_forms.dom.value "qrFormat") (codes "pdf") ≡ false
unfolding forms
an_image = refl
