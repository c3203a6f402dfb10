-- ===== src/Redirect.antt =====
-- internal/redirectcache: links by host and slug in front of the table. Times are in seconds.
pub mod Coherent
pub mod Invalidate
pub mod Serve
pub mod Served
pub mod Attempts
pub mod Guesses
use shortq.Prelude.{
  ℕ, List, [], ◌∷◌, Text, Bool, true, false, not, ◌&&◌, ◌||◌, ◌==◌, if◌then◌else◌, is_empty,
  includes, text_eq, Option, none, some,
}
use shortq.Clicks.{Fault, sound, fails, lost}

pub record GeoTarget : Type 0 where
  pub country_code : Text
  pub target_url : Text

-- `models.Link`. The dates of its creation and deletion are as the table has them.
pub record Link : Type 0 where
  pub id : ℕ
  pub tenant_id : Option ℕ
  pub slug : Text
  pub target_url : Text
  pub redirect_code : ℕ
  pub expires_at : Option ℕ
  pub expired_url : Text
  pub ios_url : Text
  pub android_url : Text
  pub forward_query : Bool
  pub utm_source : Text
  pub utm_medium : Text
  pub utm_campaign : Text
  pub utm_term : Text
  pub utm_content : Text
  pub geo_targets : List GeoTarget
  pub user_id : ℕ
  pub creator_name : Text
  pub creator_email : Text
  pub title : Text
  pub visibility : Text
  pub short_url : Text
  pub clicks : ℕ
  pub max_clicks : Option ℕ
  pub tags : List Text
  pub password_protected : Bool
  pub password_hash : Text
  pub created_at : ℕ
  pub deleted_at : Option ℕ

pub record CachedRedirect : Type 0 where
  pub version : ℕ
  pub id : ℕ
  pub tenant_id : Option ℕ
  pub slug : Text
  pub target_url : Text
  pub redirect_code : ℕ
  pub expires_at : Option ℕ
  pub expired_url : Text
  pub ios_url : Text
  pub android_url : Text
  pub forward_query : Bool
  pub utm_source : Text
  pub utm_medium : Text
  pub utm_campaign : Text
  pub utm_term : Text
  pub utm_content : Text
  pub geo_targets : List GeoTarget

-- `link.MaxClicks != nil`
abbrev pub is_limited : Option ℕ → Bool
is_limited none = false
is_limited (some m) = true

-- `FromLink`
unfoldable pub from_link : Link → Option CachedRedirect
from_link link =
    if link.password_protected || not (is_empty link.password_hash) || is_limited link.max_clicks
    then none
    else some (record {
      version = 1;
      id = link.id;
      tenant_id = link.tenant_id;
      slug = link.slug;
      target_url = link.target_url;
      redirect_code = link.redirect_code;
      expires_at = link.expires_at;
      expired_url = link.expired_url;
      ios_url = link.ios_url;
      android_url = link.android_url;
      forward_query = link.forward_query;
      utm_source = link.utm_source;
      utm_medium = link.utm_medium;
      utm_campaign = link.utm_campaign;
      utm_term = link.utm_term;
      utm_content = link.utm_content;
      geo_targets = link.geo_targets;
    })

-- `Link`; `none` is the error of another version.
unfoldable pub link_of : CachedRedirect → Option Link
link_of cached =
    if not (cached.version == 1)
    then none
    else some (record {
      id = cached.id;
      tenant_id = cached.tenant_id;
      slug = cached.slug;
      target_url = cached.target_url;
      redirect_code = cached.redirect_code;
      expires_at = cached.expires_at;
      expired_url = cached.expired_url;
      ios_url = cached.ios_url;
      android_url = cached.android_url;
      forward_query = cached.forward_query;
      utm_source = cached.utm_source;
      utm_medium = cached.utm_medium;
      utm_campaign = cached.utm_campaign;
      utm_term = cached.utm_term;
      utm_content = cached.utm_content;
      geo_targets = cached.geo_targets;
      user_id = 0;
      creator_name = [];
      creator_email = [];
      title = [];
      visibility = [];
      short_url = [];
      clicks = 0;
      max_clicks = none;
      tags = [];
      password_protected = false;
      password_hash = [];
      created_at = 0;
      deleted_at = none;
    })

-- The entries by the host name, as `NormalizeHostname` makes it, and the slug.
abbrev pub Cache : Type 0
Cache = Text → Text → Option CachedRedirect

abbrev pub put_entry : Text → Text → Option CachedRedirect → Cache → Cache
put_entry host slug entry cache h s = if text_eq h host && text_eq s slug then entry else cache h s

-- `Set` and `Delete` of a cache that may fail before or after it does its work.
abbrev pub put_if : Fault → Text → Text → Option CachedRedirect → Cache → Cache
put_if sound host slug entry cache = put_entry host slug entry cache
put_if fails host slug entry cache = cache
put_if lost host slug entry cache = put_entry host slug entry cache

-- `Set` of a link that was loaded, if it is eligible.
abbrev store_entry : Fault → Text → Text → Option CachedRedirect → Cache → Cache
store_entry fault host slug none cache = cache
store_entry fault host slug (some entry) cache = put_if fault host slug (some entry) cache

-- The part of `Resolve` that loads the link; `none` is the error of the load.
unfoldable pub load_link : Fault → Text → Text → Option Link → Cache → Option Link × Cache
unfolding from_link
load_link fault host slug none cache = (none, cache)
load_link fault host slug (some link) cache =
    (some link, store_entry fault host slug (from_link link) cache)

-- What `Resolve` does with the link of an entry.
abbrev use_entry : Option Link → Cache → Option Link × Cache → Option Link × Cache
use_entry none cache loaded = loaded
use_entry (some link) cache loaded = (some link, cache)

-- What `Resolve` does with the result of `Get` without an error.
unfoldable pub use_found : Option CachedRedirect → Cache → Option Link × Cache → Option Link × Cache
unfolding link_of
use_found none cache loaded = loaded
use_found (some entry) cache loaded = use_entry (link_of entry) cache loaded

-- `Resolve` of a resolver that has a cache; `reachable` says whether `Get` works, and the fault is that of `Set`.
unfoldable pub resolve : Bool → Fault → Text → Text → Option Link → Cache → Option Link × Cache
unfolding use_found load_link
resolve reachable fault host slug loaded cache =
    let fresh = load_link fault host slug loaded cache in
    if reachable then use_found (cache host slug) cache fresh else fresh

-- The loop of `Invalidate` with the host names that were seen; the fault is that of `Delete` at a
-- name, and `normal` is `NormalizeHostname`, which calls package net.
unfoldable pub invalidate_from :
    (Text → Text) → (Text → Fault) → List Text → List Text → Text → Cache → Cache
invalidate_from normal fault seen [] slug cache = cache
invalidate_from normal fault seen (host ∷ hosts) slug cache =
    let skipped = invalidate_from normal fault seen hosts slug cache in
    let deleted =
      invalidate_from normal fault (normal host ∷ seen) hosts slug
        (put_if (fault (normal host)) (normal host) slug none cache) in
    if is_empty (normal host) || includes seen (normal host) then skipped else deleted

-- `Invalidate`
unfoldable pub invalidate : (Text → Text) → (Text → Fault) → List Text → Text → Cache → Cache
unfolding invalidate_from
invalidate normal fault hosts slug cache = invalidate_from normal fault [] hosts slug cache
