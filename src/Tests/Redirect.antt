-- ===== src/Tests/Redirect.antt =====
-- Redirects at concrete inputs.
use shortq.Prelude.{
  ℕ, List, ◌≤◌, length, ◌≡◌, refl, [], ◌∷◌, Text, true, false, ◌&&◌, codes, text_eq, lower,
  includes, arith, if-holds, if◌then◌else◌, Option, none, some,
}
use shortq.Clicks.{LinkRow, Fault, sound, is_recorded, record_click}
use shortq.Queue.Decode.{valid_uuid}
use shortq.Queue.Recorder.{confirmed, Shared}
use shortq.Redirect.{Link, CachedRedirect, from_link, link_of, Cache, resolve, invalidate}
use shortq.Redirect.Coherent.{cached_view, link_of-from_link, IsCoherent}
use shortq.Redirect.Attempts.{recent}
use shortq.Redirect.Guesses.{Post, AreGuesses, last_time, post_all, post_all-few}
use shortq.Redirect.Invalidate.{invalidate-IsCoherent}
use shortq.Redirect.Serve.{Request, serve, resolve_target}
use shortq.Redirect.Served.{is_followed, serve-resolve, serve-full}
use shortq.Tests.Clicks.{visit, new_tables, steady, first_id}

abbrev plain : Link
plain = record {
  id = 1;
  tenant_id = none;
  slug = codes "a";
  target_url = codes "https://a.example/";
  redirect_code = 302;
  expires_at = none;
  expired_url = [];
  ios_url = codes "https://apps.example/";
  android_url = [];
  forward_query = false;
  utm_source = [];
  utm_medium = [];
  utm_campaign = [];
  utm_term = [];
  utm_content = [];
  geo_targets =
      record { country_code = codes "de"; target_url = codes "https://a.example/de" } ∷ [];
  user_id = 7;
  creator_name = codes "Ann";
  creator_email = codes "ann@a.example";
  title = codes "A";
  visibility = codes "private";
  short_url = codes "https://a.example/a";
  clicks = 3;
  max_clicks = none;
  tags = codes "x" ∷ [];
  password_protected = false;
  password_hash = [];
  created_at = 1;
  deleted_at = none;
}

abbrev limited : Link
limited = record plain { max_clicks = some 4 }

abbrev request : Request
request = record {
  domain = none;
  country = codes "DE";
  user_agent = codes "curl";
  has_access = λ id. false;
  merged = λ target utm forward. target;
  event = λ id slug target route status. visit first_id id;
}

abbrev blank : Text → Text
blank url = []

-- A name that is normal, and a cache that works.
abbrev same : Text → Text
same h = h

abbrev works : Text → Fault
works h = sound

-- The table has one link, at every slug.
abbrev table : Text → Option Link
table slug = some plain

abbrev nothing_cached : Cache
nothing_cached host slug = none

abbrev host : Text
host = codes "a.example"

abbrev shared : Shared
shared = record { tables = new_tables; queue = [] }

-- The entry of the link.
abbrev plain_entry : CachedRedirect
plain_entry = record {
  version = 1;
  id = 1;
  tenant_id = none;
  slug = codes "a";
  target_url = codes "https://a.example/";
  redirect_code = 302;
  expires_at = none;
  expired_url = [];
  ios_url = codes "https://apps.example/";
  android_url = [];
  forward_query = false;
  utm_source = [];
  utm_medium = [];
  utm_campaign = [];
  utm_term = [];
  utm_content = [];
  geo_targets =
      record { country_code = codes "de"; target_url = codes "https://a.example/de" } ∷ [];
}

-- The entry is there for every host and slug.
abbrev filled : Cache
filled h s = some plain_entry

filled-IsCoherent : IsCoherent table host filled
unfolding from_link
filled-IsCoherent s c at = (plain, refl, at)

german :
    resolve_target plain (codes "DE") (codes "iPhone")
    ≡ (codes "https://a.example/de", codes "country")
unfolding resolve_target text_eq lower
german = refl

apple :
    resolve_target plain [] (codes "Mozilla (iPhone)")
    ≡ (codes "https://apps.example/", codes "ios")
unfolding resolve_target text_eq lower
apple = refl

link_of-from_link_example :
    (plain.password_protected ≡ false)
    × (plain.password_hash ≡ [])
    × (plain.max_clicks ≡ none)
    × (link_of plain_entry ≡ some (cached_view plain))
unfolding from_link
link_of-from_link_example = link_of-from_link plain plain_entry refl

serve-resolve_example :
    serve blank
      (some confirmed)
      steady
      request
      ((resolve true sound host (codes "a") (table (codes "a")) filled).0)
      shared
    ≡ serve blank (some confirmed) steady request (table (codes "a")) shared
serve-resolve_example =
    serve-resolve blank (some confirmed) steady request table true sound host (codes "a") filled
      shared filled-IsCoherent

-- The row of link 1 with its limit reached.
abbrev full_row : LinkRow
full_row = record { clicks = 4; max_clicks = some 4; deleted = false }

abbrev full : Shared
full = record shared { tables = record new_tables { links = λ id. some full_row } }

serve-full_example : is_followed ((serve blank none steady request (some limited) full).0) ≡ false
unfolding is_recorded
serve-full_example =
    serve-full blank none steady request limited 4 full_row full
      (λ id slug target route status. (refl, refl)) refl refl (omega arith)

-- A copy of the link that was read before it got its limit is followed.
old_copy : is_followed ((serve blank none steady request (some plain) full).0) ≡ true
unfolding serve is_recorded text_eq lower record_click valid_uuid
old_copy = refl

-- The link is deleted while its entry is at one host.
abbrev one_entry : Cache
one_entry h s = if text_eq h host && text_eq s (codes "a") then some plain_entry else none

abbrev gone : Text → Option Link
gone s = if text_eq s (codes "a") then none else some plain

one_entry-IsCoherent : IsCoherent table host one_entry
unfolding from_link
one_entry-IsCoherent s c =
    if-holds
      (λ (o : Option CachedRedirect).
        o ≡ some c → (l : Link) × (table s ≡ some l) × (from_link l ≡ some c))
      (text_eq host host && text_eq s (codes "a")) (λ there at. (plain, refl, at))
      (λ elsewhere at. nothing s c at)
  where
    nothing :
        (s : Text) (c : CachedRedirect)
        → none ≡ some c
        → (l : Link) × (table s ≡ some l) × (from_link l ≡ some c)
    nothing s c at = cc

unchanged : (s : Text) → text_eq s (codes "a") ≡ false → gone s ≡ table s
unchanged s other = rw other refl

invalidate-IsCoherent_example :
    IsCoherent gone host (invalidate same works (host ∷ []) (codes "a") one_entry)
unfolding includes text_eq
invalidate-IsCoherent_example =
    invalidate-IsCoherent same works (host ∷ []) (codes "a") table gone host one_entry unchanged
      (λ h. refl) refl refl one_entry-IsCoherent

-- Six wrong passwords within a minute, of which the last is not looked at.
abbrev at_second : ℕ → Post
at_second t = record {
  moment = record { now = t; size = 1; pruned_size = 1 };
  key = codes "1:10.0.0.1";
  right = false;
}

abbrev six : List Post
six = at_second 1 ∷ at_second 2 ∷ at_second 3 ∷ at_second 4 ∷ at_second 5 ∷ at_second 6 ∷ []

six_answers :
    (post_all (codes "1:10.0.0.1") six ([], record { times = λ key. []; ops = 0 })).0
    ≡ 1 ∷ 2 ∷ 3 ∷ 4 ∷ 5 ∷ []
unfolding post_all text_eq
six_answers = refl

post_all-few_example :
    length (
      recent
        (last_time 0 six)
        ((post_all (codes "1:10.0.0.1") six ([], record { times = λ key. []; ops = 0 })).0))
    ≤ 5
unfolding AreGuesses text_eq
post_all-few_example =
    let end : AreGuesses (codes "1:10.0.0.1") 4 (at_second 5 ∷ at_second 6 ∷ []) =
      (omega arith, refl, (omega arith, refl, tt)) in
    post_all-few (codes "1:10.0.0.1") six
      (omega arith, refl, (omega arith, refl, (omega arith, refl, (omega arith, refl, end))))
