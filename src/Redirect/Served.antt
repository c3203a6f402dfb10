-- ===== src/Redirect/Served.antt =====
-- The redirect through the cache against the redirect from the table, and at the limit of a link.
use shortq.Prelude.{
  ℕ, ◌≡◌, ◌≤◌, inl, inr, refl, sym, ap, ◌∙◌, arith, [], ◌∷◌, Text, Bool, true, false, not, ◌&&◌,
  ◌||◌, ltb, if◌then◌else◌, is_empty, if-holds, Option, none, some,
}
use mathlib.Core.Path.{subst}
use shortq.Clicks.Event.{ClickEvent}
use shortq.Clicks.{
  LinkRow, Tables, Fault, sound, fails, lost, Turn, Returned, value, error, is_id, is_recorded,
  roll_back, record_on, record_if, record_click,
}
use shortq.Queue.Recorder.{Publishing, Shared, record_event}
use shortq.Redirect.{Link, CachedRedirect, from_link, Cache, resolve}
use shortq.Redirect.Coherent.{
  cached_view, link_of-from_link, IsCoherent, IsServed, resolve-IsResolved,
}
use shortq.Redirect.Serve.{
  Request, TenantDomain, Response, followed, resolve_target, merge_target, link_expired, is_used_up,
  expired_response, click_response, follow_link, expire_link, serve_link, is_foreign, missing,
  serve,
}

module _ (scrub : Text → Text) (publisher : Option Publishing) (turn : Turn) (r : Request) where
  -- A link without its password and its limit.
  abbrev bare : Bool → Option ℕ → Link → Link
  bare guarded max l = record l { password_protected = guarded; max_clicks = max }

  bare-cached_view :
      (l : Link) (s : Shared)
      → serve_link scrub publisher turn r (cached_view (bare false none l)) s
        ≡ serve_link scrub publisher turn r (bare false none l) s
  unfolding serve_link link_expired follow_link expire_link is_used_up
  bare-cached_view l s = refl

  serve_link-cached_view :
      (l : Link) (s : Shared)
      → l.password_protected ≡ false
      → l.max_clicks ≡ none
      → serve_link scrub publisher turn r (cached_view l) s ≡ serve_link scrub publisher turn r l s
  serve_link-cached_view l s open_link unlimited =
      ap (λ b. serve_link scrub publisher turn r (cached_view (bare b l.max_clicks l)) s) open_link
      ∙ ap (λ m. serve_link scrub publisher turn r (cached_view (bare false m l)) s) unlimited
      ∙ bare-cached_view l s
      ∙ ap (λ b. serve_link scrub publisher turn r (bare b none l) s) (sym open_link)
      ∙ ap (λ m. serve_link scrub publisher turn r (bare l.password_protected m l) s)
          (sym unlimited)

  serve-cached_view :
      (l : Link) (c : CachedRedirect) (s : Shared)
      → from_link l ≡ some c
      → serve scrub publisher turn r (some (cached_view l)) s
        ≡ serve scrub publisher turn r (some l) s
  unfolding serve
  serve-cached_view l c s eligible =
      let parts = link_of-from_link l c eligible in
      ap
        (λ served.
          if is_foreign scrub publisher turn r r.domain l.tenant_id
          then (Response.not_found, s)
          else served)
        (serve_link-cached_view l s (parts.0) (parts.2))

  serve-served :
      (table : Text → Option Link) (host slug : Text) (o : Option Link) (s : Shared)
      → IsServed table host slug o
      → serve scrub publisher turn r o s ≡ serve scrub publisher turn r (table slug) s
  serve-served table host slug o s (inl same) = ap (λ o. serve scrub publisher turn r o s) same
  serve-served table host slug o s (inr (l, c, found, eligible, view)) =
      ap (λ o. serve scrub publisher turn r o s) view
      ∙ serve-cached_view l c s eligible
      ∙ ap (λ o. serve scrub publisher turn r o s) (sym found)

  -- If each entry of the host is that of the link in the table, a request is answered through the
  -- cache as from the table, with the same clicks recorded, whatever fails in the cache.
  pub serve-resolve :
      (table : Text → Option Link) (reachable : Bool) (fault : Fault) (host slug : Text)
      (cache : Cache) (s : Shared)
      → IsCoherent table host cache
      → serve scrub publisher turn r ((resolve reachable fault host slug (table slug) cache).0) s
        ≡ serve scrub publisher turn r (table slug) s
  serve-resolve table reachable fault host slug cache s coherent =
      serve-served table host slug _ s
        ((resolve-IsResolved table host slug reachable fault cache coherent).0)

-- Whether the answer is the redirect to the link's target.
abbrev pub is_followed : Response → Bool
is_followed (followed target code) = true
is_followed _ = false

-- A click that is not recorded does not answer with the target.
abbrev pub is_recorded_now : Returned Bool → Bool
is_recorded_now (value true) = true
is_recorded_now _ = false

is_followed-expired_response : (url : Text) → is_followed (expired_response url) ≡ false
unfolding expired_response
is_followed-expired_response [] = refl
is_followed-expired_response (c ∷ url) = refl

is_followed-click_response :
    (x : Returned Bool) (target : Text) (code : ℕ) (url : Text)
    → is_recorded_now x ≡ false
    → is_followed (click_response x target code url) ≡ false
unfolding click_response
is_followed-click_response error target code url h = refl
is_followed-click_response (value true) target code url h = cc
is_followed-click_response (value false) target code url h = is_followed-expired_response url

or_right : (a b : Bool) → b ≡ true → (a || b) ≡ true
or_right true b h = refl
or_right false b h = h

-- At the limit, a new click is not recorded.
module _ (turn : Turn) (e : ClickEvent) (m : ℕ) (row : LinkRow) (t : Tables)
    (fresh : is_recorded e.event_id t.clicks ≡ false) (found : t.links e.link_id ≡ some row)
    (full : m ≤ row.clicks) where
  abbrev IsRefused : Returned Bool × Tables → Type 0
  IsRefused x = is_recorded_now (x.0) ≡ false

  roll_back-refuses : (fault : Fault) → IsRefused (roll_back fault false t)
  roll_back-refuses sound = refl
  roll_back-refuses fails = refl
  roll_back-refuses lost = refl

  record_on-full : IsRefused (record_on turn e true (some m) row t)
  unfolding record_on
  record_on-full =
      let below : ltb row.clicks m ≡ false = ground arith in
      let over : (row.deleted || not (ltb row.clicks m)) ≡ true = or_right _ _ (ap not below) in
      rw (fresh, over) (roll_back-refuses turn.fault)

record_click-full :
    (turn : Turn) (e : ClickEvent) (m : ℕ) (row : LinkRow) (t : Tables)
    → is_recorded e.event_id t.clicks ≡ false
    → t.links e.link_id ≡ some row
    → m ≤ row.clicks
    → is_recorded_now ((record_click turn e true (some m) t).0) ≡ false
unfolding record_click record_if
record_click-full turn e m row t fresh found full =
    if-holds (λ (x : Returned Bool × Tables). is_recorded_now (x.0) ≡ false) (is_id e.event_id)
      (λ good.
        rw found (record_on-full turn (record e { increment = true }) m row t fresh found full))
      (λ bad. refl)

record_event-full :
    (scrub : Text → Text) (publisher : Option Publishing) (turn : Turn) (e : ClickEvent) (m : ℕ)
    (row : LinkRow) (s : Shared)
    → is_recorded e.event_id s.tables.clicks ≡ false
    → s.tables.links e.link_id ≡ some row
    → m ≤ row.clicks
    → is_recorded_now ((record_event scrub publisher turn e true (some m) s).0) ≡ false
unfolding record_event
record_event-full scrub none turn e m row s fresh found full =
    record_click-full turn (record e { increment = true }) m row s.tables fresh found full
record_event-full scrub (some outcome) turn e m row s fresh found full =
    record_click-full turn (record e { increment = true }) m row s.tables fresh found full

module _ (scrub : Text → Text) (publisher : Option Publishing) (turn : Turn) (r : Request) where
  abbrev IsUnfollowed : Response × Shared → Type 0
  IsUnfollowed x = is_followed (x.0) ≡ false

  missing-unfollowed :
      (o : Option TenantDomain) → is_followed (missing scrub publisher turn r o) ≡ false
  missing-unfollowed none = refl
  missing-unfollowed (some d) =
      if-holds (λ (x : Response). is_followed x ≡ false) (is_empty d.not_found_url) (λ plain. refl)
        (λ custom. refl)

  -- A copy of a link with a limit that the count of the link's row has reached does not lead to its
  -- target, however few clicks the copy has and whatever the request and the database do, if the event
  -- of the click is for the link and its id is new.
  pub serve-full :
      (l : Link) (m : ℕ) (row : LinkRow) (s : Shared)
      → ((id : ℕ) (slug target route : Text) (status : ℕ)
          → ((r.event id slug target route status).link_id ≡ id)
            × (is_recorded (r.event id slug target route status).event_id s.tables.clicks ≡ false))
      → l.max_clicks ≡ some m
      → s.tables.links l.id ≡ some row
      → m ≤ row.clicks
      → is_followed ((serve scrub publisher turn r (some l) s).0) ≡ false
  unfolding serve serve_link follow_link expire_link
  serve-full l m row s new_event limit found full =
      if-holds IsUnfollowed (is_foreign scrub publisher turn r r.domain l.tenant_id)
        (λ foreign_. refl)
        (λ own.
          if-holds IsUnfollowed (l.password_protected && not (r.has_access l.id)) (λ guarded. refl)
            (λ free.
              if-holds IsUnfollowed (link_expired turn.now l)
                (λ past. is_followed-expired_response l.expired_url)
                (λ current.
                  let to = resolve_target l r.country r.user_agent in
                  let target = merge_target r l (to.0) in
                  let e = r.event l.id l.slug target (to.1) l.redirect_code in
                  let new_one = new_event l.id l.slug target (to.1) l.redirect_code in
                  is_followed-click_response _ target l.redirect_code l.expired_url (
                    subst
                      (λ o.
                        is_recorded_now ((record_event scrub publisher turn e true o s).0) ≡ false)
                      (sym limit)
                      (record_event-full scrub publisher turn e m row s (new_one.1)
                        (ap s.tables.links (new_one.0) ∙ found) full)))))
