-- ===== src/Links/RoundTrip.antt =====
-- The form that `editLink` fills, submitted as it is: what `linkPayloadFromForm` makes of it.
use shortq.Prelude.{
  ℕ, [], ◌∷◌, ◌≡◌, ◌&&◌, refl, ◌∙◌, ap, Text, codes, show_ℕ, is_empty-show_ℕ, Bool, true, false,
  ◌==◌, text_eq, or_text, take, is_empty, if◌then◌else◌, none, some,
}
use shortq.State.{App, Link}
use shortq.State.LinkForm.{LinkPayload, Json}
use shortq.State.Monad.{Env, ok}
use shortq.Links.Tags.{AreTags, parse_tags-join_tags}
use shortq.Links.FormPayload.{
  entry, has_entry, copied, is_checked, payload_with, link_payload, expiry, country_routes,
}
use shortq.Links.Edit.{number_text, edit_found, edit_link, find_link}
use shortq.Links.Editor.{fields_with, boxes_of, ShownExpiry, Fits, edits-Edited}

-- The link as the server would be sent it, with the expiry `sent`.
abbrev pub payload_of : Env → Link → Text → LinkPayload
payload_of env x sent = record {
  url = x.target_url;
  title = x.title;
  visibility = or_text x.visibility (codes "private");
  redirect_code = env.numbers.of_nat (if x.redirect_code == 0 then 302 else x.redirect_code);
  forward_query = x.forward_query;
  slug = none;
  extras =
      (codes "expired_url", x.expired_url)
      ∷ (codes "ios_url", x.ios_url)
      ∷ (codes "android_url", x.android_url)
      ∷ (codes "utm_source", x.utm_source)
      ∷ (codes "utm_medium", x.utm_medium)
      ∷ (codes "utm_campaign", x.utm_campaign)
      ∷ [];
  expires_at = some sent;
  max_clicks = if x.max_clicks == 0 then none else some (env.numbers.of_nat x.max_clicks);
  clear_max_clicks = x.max_clicks == 0;
  tags = x.tags;
  geo_targets = x.geo_targets;
  password = none;
  clear_password = false;
}

-- What is sent for the expiry of a link: none for none, and else the time that the browser reads
-- in the first 16 characters of the time in UTC.
pub data SentExpiry (env : Env) : Text → Text → Type 0 where
  never : SentExpiry env [] []
  at :
      (c : ℕ) (t iso sent : Text)
      → env.iso (c ∷ t) ≡ some iso
      → env.kept (codes "expires_at") (take 16 iso) ≡ take 16 iso
      → is_empty (take 16 iso) ≡ false
      → env.iso (take 16 iso) ≡ some sent
      → SentExpiry env (c ∷ t) sent

-- The texts of numbers and of JSON are read back, and the tags are such that the form can hold.
pub record ReadsBack (env : Env) (x : Link) : Type 0 where
  pub number : (n : ℕ) → env.numbers.of_text (show_ℕ n) ≡ env.numbers.of_nat n
  pub routes : env.parse_json x.geo_targets.text ≡ some x.geo_targets
  pub some_json : is_empty x.geo_targets.text ≡ false
  pub tags : AreTags x.tags

or_text_left : (t u : Text) → is_empty t ≡ false → or_text t u ≡ t
or_text_left [] u h = cc
or_text_left (c ∷ t) u h = refl

iso_expiry :
    (env : Env) (t sent : Text) (s : App)
    → is_empty t ≡ false
    → env.iso t ≡ some sent
    → expiry false t env s ≡ (ok (some sent), s)
unfolding expiry
iso_expiry env [] sent s some_text said = cc
iso_expiry env (c ∷ t) sent s some_text said = rw said refl

parsed :
    (env : Env) (t : Text) (j : Json) (s : App)
    → is_empty t ≡ false
    → env.parse_json t ≡ some j
    → country_routes t env s ≡ (ok j, s)
unfolding country_routes
parsed env [] j s some_text said = cc
parsed env (c ∷ t) j s some_text said = rw said refl

module _ (env : Env) (x : Link) (reads : ReadsBack env x) where
  number_read : (n : ℕ) (t : Text) → or_text (show_ℕ n) t ≡ show_ℕ n
  number_read n t = or_text_left (show_ℕ n) t (is_empty-show_ℕ n)

  code_read :
      (b : Bool) (n : ℕ)
      → env.numbers.of_text
          (or_text (or_text (if b then [] else show_ℕ n) (codes "302")) (codes "302"))
        ≡ env.numbers.of_nat (if b then 302 else n)
  unfolding show_ℕ
  code_read true n = reads.number 302
  code_read false n =
      ap env.numbers.of_text (
        ap (λ t. or_text t (codes "302")) (number_read n (codes "302"))
        ∙ number_read n (codes "302"))
      ∙ reads.number n

  limit_read :
      (b : Bool) (n : ℕ)
      → (if is_empty (if b then [] else show_ℕ n)
          then none
          else some (env.numbers.of_text (if b then [] else show_ℕ n)))
        ≡ (if b then none else some (env.numbers.of_nat n))
  limit_read true n = refl
  limit_read false n = rw (is_empty-show_ℕ n, reads.number n) refl

  limit_cleared : (b : Bool) (n : ℕ) → (is_empty (if b then [] else show_ℕ n) && true) ≡ b
  limit_cleared true n = refl
  limit_cleared false n = rw (is_empty-show_ℕ n) refl

  shared :
      (t : Text)
      → or_text (or_text t (codes "private")) (codes "private") ≡ or_text t (codes "private")
  shared [] = refl
  shared (c ∷ t) = refl

  payload_read :
      (e sent : Text)
      → payload_with env false
          (fields_with x e (number_text x.max_clicks))
          (boxes_of x)
          (some sent)
          x.geo_targets
        ≡ payload_of env x sent
  unfolding payload_with entry has_entry copied is_checked text_eq
  payload_read e sent =
      rw
        (
          shared x.visibility,
          code_read (x.redirect_code == 0) x.redirect_code,
          limit_read (x.max_clicks == 0) x.max_clicks,
          limit_cleared (x.max_clicks == 0) x.max_clicks,
          parse_tags-join_tags x.tags reads.tags,
        )
        refl

  -- The form of the editor, read.
  form_read :
      (e sent : Text) (s : App)
      → expiry false e env s ≡ (ok (some sent), s)
      → link_payload false (fields_with x e (number_text x.max_clicks)) (boxes_of x) env s
        ≡ (ok (payload_of env x sent), s)
  unfolding link_payload entry text_eq
  form_read e sent s said =
      rw (said, parsed env x.geo_targets.text x.geo_targets s reads.some_json reads.routes)
        (ap (λ (p : LinkPayload). (ok p, s)) (payload_read e sent))

  sent_shown :
      {t sent : Text}
      → SentExpiry env t sent
      → (e : Text) × ShownExpiry env t e × ((s : App) → expiry false e env s ≡ (ok (some sent), s))
  unfolding expiry
  sent_shown never = ([], ShownExpiry.never, λ s. refl)
  sent_shown (at c t iso sent said keeps some_text again) = (
    take 16 iso,
    ShownExpiry.at c t iso said keeps,
    λ s. iso_expiry env (take 16 iso) sent s some_text again,
  )

  -- The editor, submitted as `editLink` left it, opens on the link and sends the server what the
  -- link has: its texts, tags, country routes and limits, with no new password. It sends no expiry
  -- for a link that has none; for another one it sends the time that the browser reads, as local
  -- time, in the first 16 characters of the time in UTC. This holds where the form is the page's
  -- and its controls keep the values, where the texts of numbers and of JSON are read back, and
  -- where no tag is empty, has a semicolon, or has white space around.
  pub edit_link-link_payload :
      (id : ℕ) (s : App) (sent : Text)
      → find_link id s.link_cache ≡ some x
      → Fits env s x
      → SentExpiry env x.expires_at sent
      → ((edit_link id env s).0 ≡ ok tt)
        × ((edit_link id env s).1.dom.is_open "linkEditor" ≡ true)
        × (link_payload false
              ((edit_link id env s).1.dom.fields "editLinkForm")
              ((edit_link id env s).1.dom.checks "editLinkForm")
              env
              (edit_link id env s).1
            ≡ (ok (payload_of env x sent), (edit_link id env s).1))
  unfolding edit_link edit_found
  edit_link-link_payload id s sent found fits due =
      let (e, shows, said) = sent_shown due in
      let edited = edits-Edited env s x fits shows in
      rw found
        (edited.ends, edited.opened, rw (edited.fields, edited.boxes) (form_read e sent _ (said _)))
