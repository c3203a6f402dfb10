-- ===== src/Redirect/Serve.antt =====
-- internal/handlers/handlers.go, `redirectSlug` from the load of the link on, with what it calls.
use shortq.Prelude.{
  ℕ, List, [], ◌∷◌, Text, Bool, true, false, not, ◌&&◌, ◌||◌, ◌==◌, leb, if◌then◌else◌, is_empty,
  codes, occurs_in, map, lower, text_eq, Option, none, some,
}
use shortq.Clicks.Event.{ClickEvent}
use shortq.Clicks.{Turn, Returned, value, error}
use shortq.Queue.Recorder.{Publishing, Shared, record_event}
use shortq.Redirect.{GeoTarget, Link}

-- The tenant's domain under which a request came.
pub record TenantDomain : Type 0 where
  pub tenant_id : ℕ
  pub not_found_url : Text

-- What the handler reads of a request, and what it calls for it outside this file: the country of
-- `countryFromRequest`, the user agent, `hasLinkAccess` by the link's id, `mergeTargetQuery` by the
-- target, the link's five UTM fields and its `ForwardQuery`, and the event of `redirectEvent` by the
-- link's id and slug, the target, the route and the status.
pub record Request : Type 0 where
  pub domain : Option TenantDomain
  pub country : Text
  pub user_agent : Text
  pub has_access : ℕ → Bool
  pub merged : Text → List Text → Bool → Text
  pub event : ℕ → Text → Text → Text → ℕ → ClickEvent

-- What is answered: 404; the domain's page for that; the password gate; the page or the address of an
-- expired link; 500; or the redirect, with its target and its code.
pub data Response : Type 0 where
  not_found : Response
  to_not_found : Text → Response
  gate : Response
  expired_page : Response
  to_expired : Text → Response
  tracking_failed : Response
  followed : Text → ℕ → Response

-- `linkExpired(l)`
unfoldable pub is_past : ℕ → Option ℕ → Bool
is_past now none = false
is_past now (some at) = leb at now

unfoldable pub is_used_up : ℕ → Option ℕ → Bool
is_used_up clicks none = false
is_used_up clicks (some m) = leb m clicks

unfoldable pub link_expired : ℕ → Link → Bool
unfolding is_past is_used_up
link_expired now l = is_past now l.expires_at || is_used_up l.clicks l.max_clicks

-- `expiredResponse`
unfoldable pub expired_response : Text → Response
expired_response [] = expired_page
expired_response (c ∷ url) = to_expired (c ∷ url)

-- The loop of `resolveTarget`. Country codes are ASCII, where `strings.EqualFold` compares as this.
unfoldable pub geo_target : List GeoTarget → Text → Option Text
geo_target [] country = none
geo_target (geo ∷ rest) country =
    let later = geo_target rest country in
    if text_eq (map lower geo.country_code) (map lower country) then some geo.target_url else later

abbrev is_ios : Text → Bool
is_ios ua =
    occurs_in (codes "iphone") ua || occurs_in (codes "ipad") ua || occurs_in (codes "ipod") ua

unfoldable pub device_target : Text → Link → Text × Text
unfolding occurs_in
device_target ua l =
    if is_ios ua && not (is_empty l.ios_url)
    then (l.ios_url, codes "ios")
    else if occurs_in (codes "android") ua && not (is_empty l.android_url)
    then (l.android_url, codes "android")
    else (l.target_url, codes "default")

-- `resolveTarget`: the target and the route. A user agent is taken to be ASCII.
abbrev found_target : Option Text → Text × Text → Text × Text
found_target none other = other
found_target (some url) other = (url, codes "country")

unfoldable pub resolve_target : Link → Text → Text → Text × Text
unfolding geo_target device_target
resolve_target l country user_agent =
    found_target (geo_target l.geo_targets country) (device_target (map lower user_agent) l)

abbrev pub merge_target : Request → Link → Text → Text
merge_target r l target =
    r.merged target (l.utm_source ∷ l.utm_medium ∷ l.utm_campaign ∷ l.utm_term ∷ l.utm_content ∷ [])
      l.forward_query

-- The answer to a click that was recorded, refused or failed, by the target and its code and the
-- address for an expired link.
unfoldable pub click_response : Returned Bool → Text → ℕ → Text → Response
unfolding expired_response
click_response error target code expired_url = tracking_failed
click_response (value true) target code expired_url = followed target code
click_response (value false) target code expired_url = expired_response expired_url

module _ (scrub : Text → Text) (publisher : Option Publishing) (turn : Turn) (r : Request) where
  -- The redirect of a link that is not expired.
  unfoldable pub follow_link : Link → Shared → Response × Shared
  unfolding resolve_target record_event click_response
  follow_link l s =
      let found = resolve_target l r.country r.user_agent in
      let target = merge_target r l (found.0) in
      let recorded =
        record_event scrub publisher turn (r.event l.id l.slug target (found.1) l.redirect_code)
          true l.max_clicks s in
      (click_response (recorded.0) target l.redirect_code l.expired_url, recorded.1)

  -- The answer for an expired link, whose event is recorded without counting it.
  unfoldable pub expire_link : Link → Shared → Response × Shared
  unfolding record_event expired_response
  expire_link l s = (
    expired_response l.expired_url,
    (record_event scrub publisher turn (r.event l.id l.slug l.expired_url (codes "expired") 410)
        false l.max_clicks s).1,
  )

  unfoldable pub serve_link : Link → Shared → Response × Shared
  unfolding follow_link expire_link link_expired
  serve_link l s =
      if l.password_protected && not (r.has_access l.id)
      then (gate, s)
      else if link_expired turn.now l
      then expire_link l s
      else follow_link l s

  -- Whether a link is not of the tenant whose domain the request came under.
  abbrev pub is_foreign : Option TenantDomain → Option ℕ → Bool
  is_foreign none tenant = false
  is_foreign (some d) none = true
  is_foreign (some d) (some id) = not (d.tenant_id == id)

  abbrev pub missing : Option TenantDomain → Response
  missing none = not_found
  missing (some d) = if is_empty d.not_found_url then not_found else to_not_found d.not_found_url

  -- `redirectSlug` with the result of the load.
  unfoldable pub serve : Option Link → Shared → Response × Shared
  unfolding serve_link
  serve none s = (missing r.domain, s)
  serve (some l) s = if is_foreign r.domain l.tenant_id then (not_found, s) else serve_link l s
