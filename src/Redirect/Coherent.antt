-- ===== src/Redirect/Coherent.antt =====
-- The entries of the cache against the table of links.
use shortq.Prelude.{
  ℕ, ◌≡◌, ◌⊎◌, inl, inr, refl, sym, ap, ◌∙◌, [], ◌∷◌, Text, Bool, true, false, not, ◌&&◌, ◌||◌,
  if◌then◌else◌, is_empty, text_eq, text_eq_iff, if-holds, Option, none, some,
}
use shortq.Clicks.{Fault, sound, fails, lost}
use shortq.Redirect.{
  Link, CachedRedirect, is_limited, from_link, link_of, Cache, put_entry, put_if, store_entry,
  load_link, use_found, resolve,
}

-- What an entry keeps of a link that is eligible.
abbrev pub cached_view : Link → Link
cached_view l = record l {
  user_id = 0;
  creator_name = [];
  creator_email = [];
  title = [];
  visibility = [];
  short_url = [];
  clicks = 0;
  tags = [];
  created_at = 0;
  deleted_at = none;
}

-- A link without the password and the limit that it does not have.
abbrev bare : Bool → Text → Option ℕ → Link → Link
bare guarded hash max l = record l {
  password_protected = guarded;
  password_hash = hash;
  max_clicks = max;
}

unguarded :
    (a : Bool) (hash : Text) (m : Option ℕ) (entry c : CachedRedirect)
    → (if a || not (is_empty hash) || is_limited m then none else some entry) ≡ some c
    → (a ≡ false) × (hash ≡ []) × (m ≡ none) × (entry ≡ c)
unguarded true hash m entry c h = cc
unguarded false (x ∷ hash) m entry c h = cc
unguarded false [] (some m) entry c h = cc
unguarded false [] none entry c h = (refl, refl, refl, cc)

-- A link is eligible for the cache only without a password, its hash included, and without a
-- limit, and what is read back from its entry is the link, but for its owner and creator, title,
-- visibility, short address, clicks, tags and dates, which are blank.
pub link_of-from_link :
    (l : Link) (c : CachedRedirect)
    → from_link l ≡ some c
    → (l.password_protected ≡ false)
      × (l.password_hash ≡ [])
      × (l.max_clicks ≡ none)
      × (link_of c ≡ some (cached_view l))
unfolding from_link link_of
link_of-from_link l c eligible =
    let parts = unguarded l.password_protected l.password_hash l.max_clicks _ c eligible in
    (
      parts.0,
      parts.1,
      parts.2,
      sym (ap link_of (parts.3))
          ∙ ap (λ b. some (cached_view (bare b [] none l))) (sym (parts.0))
          ∙ ap (λ h. some (cached_view (bare l.password_protected h none l))) (sym (parts.1))
          ∙ ap (λ m. some (cached_view (bare l.password_protected l.password_hash m l)))
              (sym (parts.2)),
    )

-- Each entry of a host is that of the link that the table has for its slug.
abbrev pub IsCoherent : (Text → Option Link) → Text → Cache → Type 0
IsCoherent table host cache =
    (slug : Text) (c : CachedRedirect)
    → cache host slug ≡ some c
    → (l : Link) × (table slug ≡ some l) × (from_link l ≡ some c)

-- The entry at a name after one was put there.
pub put_entry-cases :
    (a b : Bool) (entry old : Option CachedRedirect) (c : CachedRedirect)
    → (if a && b then entry else old) ≡ some c
    → ((a ≡ true) × (b ≡ true) × (entry ≡ some c)) ⊎ (old ≡ some c)
put_entry-cases true true entry old c h = inl (refl, refl, h)
put_entry-cases true false entry old c h = inr h
put_entry-cases false b entry old c h = inr h

module _ (table : Text → Option Link) (host slug : Text) where
  put_entry-IsCoherent :
      (cache : Cache) (l : Link) (entry : CachedRedirect)
      → IsCoherent table host cache
      → table slug ≡ some l
      → from_link l ≡ some entry
      → IsCoherent table host (put_entry host slug (some entry) cache)
  put_entry-IsCoherent cache l entry coherent found eligible s c at =
      elim (put_entry-cases (text_eq host host) (text_eq s slug) (some entry) (cache host s) c at) [
        | inl here ↦ (l, ap table ((text_eq_iff s slug).0 (here.1)) ∙ found, eligible ∙ here.2)
        | inr there ↦ coherent s c there
      ]

  put_if-IsCoherent :
      (fault : Fault) (cache : Cache) (l : Link) (entry : CachedRedirect)
      → IsCoherent table host cache
      → table slug ≡ some l
      → from_link l ≡ some entry
      → IsCoherent table host (put_if fault host slug (some entry) cache)
  put_if-IsCoherent sound cache l entry coherent found eligible =
      put_entry-IsCoherent cache l entry coherent found eligible
  put_if-IsCoherent fails cache l entry coherent found eligible = coherent
  put_if-IsCoherent lost cache l entry coherent found eligible =
      put_entry-IsCoherent cache l entry coherent found eligible

  store_entry-IsCoherent :
      (fault : Fault) (cache : Cache) (l : Link) (o : Option CachedRedirect)
      → IsCoherent table host cache
      → table slug ≡ some l
      → from_link l ≡ o
      → IsCoherent table host (store_entry fault host slug o cache)
  store_entry-IsCoherent fault cache l none coherent found eligible = coherent
  store_entry-IsCoherent fault cache l (some entry) coherent found eligible =
      put_if-IsCoherent fault cache l entry coherent found eligible

  -- What is served is the link of the table, or what an entry keeps of it.
  abbrev pub IsServed : Option Link → Type 0
  IsServed o =
      (o ≡ table slug)
      ⊎ ((l : Link) × (c : CachedRedirect) × (table slug ≡ some l)
          × (from_link l ≡ some c)
          × (o ≡ some (cached_view l)))

  abbrev IsResolved : Option Link × Cache → Type 0
  IsResolved r = IsServed (r.0) × IsCoherent table host (r.1)

  load_link-IsResolved :
      (fault : Fault) (o : Option Link) (cache : Cache)
      → table slug ≡ o
      → IsCoherent table host cache
      → IsResolved (load_link fault host slug o cache)
  unfolding load_link
  load_link-IsResolved fault none cache found coherent = (inl (sym found), coherent)
  load_link-IsResolved fault (some l) cache found coherent =
      (inl (sym found), store_entry-IsCoherent fault cache l (from_link l) coherent found refl)

  use_found-IsResolved :
      (o : Option CachedRedirect) (cache : Cache) (fresh : Option Link × Cache)
      → cache host slug ≡ o
      → IsCoherent table host cache
      → IsResolved fresh
      → IsResolved (use_found o cache fresh)
  unfolding use_found
  use_found-IsResolved none cache fresh at coherent loaded = loaded
  use_found-IsResolved (some c) cache fresh at coherent loaded =
      let entry = coherent slug c at in
      let view = link_of-from_link (entry.0) c (entry.2) in
      rw (view.3) (inr (entry.0, c, entry.1, entry.2, refl), coherent)

  -- If each entry of the host is that of the link in the table, `Resolve` serves the link of the table
  -- or what its entry keeps of it, and the host's entries are those of the table after it, whatever fails.
  pub resolve-IsResolved :
      (reachable : Bool) (fault : Fault) (cache : Cache)
      → IsCoherent table host cache
      → IsResolved (resolve reachable fault host slug (table slug) cache)
  unfolding resolve
  resolve-IsResolved reachable fault cache coherent =
      let loaded = load_link-IsResolved fault (table slug) cache refl coherent in
      if-holds IsResolved reachable
        (λ up. use_found-IsResolved (cache host slug) cache _ refl coherent loaded) (λ down. loaded)
