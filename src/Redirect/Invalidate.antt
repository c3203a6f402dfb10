-- ===== src/Redirect/Invalidate.antt =====
-- `Invalidate` after a change of a link, as in `InvalidateAfter`.
use shortq.Prelude.{
  ◌≡◌, inl, inr, refl, sym, ap, ◌∙◌, List, [], ◌∷◌, Text, Bool, true, false, ◌||◌, is_empty,
  includes, map, text_eq, text_eq_iff, text_eq_refl, Bool-cases, if-holds, Option, none, some,
}
use mathlib.Core.Path.{subst}
use shortq.Clicks.{Fault, sound, fails, lost}
use shortq.Redirect.{
  Link, CachedRedirect, from_link, link_of, Cache, load_link, put_entry, put_if, resolve, use_found,
  invalidate_from, invalidate,
}
use shortq.Redirect.Coherent.{cached_view, link_of-from_link, put_entry-cases, IsCoherent}

none-some {ℓ} : {A : Type ℓ} (c : CachedRedirect) → none ≡ some c → A
none-some c h = cc

-- Deleting adds no entry.
put_if-shrinks :
    (fault : Fault) (host slug : Text) (cache : Cache) (h s : Text) (c : CachedRedirect)
    → put_if fault host slug none cache h s ≡ some c
    → cache h s ≡ some c
put_if-shrinks sound host slug cache h s c at =
    elim (put_entry-cases (text_eq h host) (text_eq s slug) none (cache h s) c at) [
      | inl here ↦ none-some c (here.2)
      | inr there ↦ there
    ]
put_if-shrinks fails host slug cache h s c at = at
put_if-shrinks lost host slug cache h s c at =
    elim (put_entry-cases (text_eq h host) (text_eq s slug) none (cache h s) c at) [
      | inl here ↦ none-some c (here.2)
      | inr there ↦ there
    ]

module _ (normal : Text → Text) (fault : Text → Fault) (slug : Text) where
  invalidate_from-shrinks :
      (seen hosts : List Text) (cache : Cache) (h s : Text) (c : CachedRedirect)
      → invalidate_from normal fault seen hosts slug cache h s ≡ some c
      → cache h s ≡ some c
  unfolding invalidate_from
  invalidate_from-shrinks seen [] cache h s c = λ at. at
  invalidate_from-shrinks seen (host ∷ hosts) cache h s c =
      let deleted = put_if (fault (normal host)) (normal host) slug none cache in
      if-holds (λ (after : Cache). after h s ≡ some c → cache h s ≡ some c)
        (is_empty (normal host) || includes seen (normal host))
        (λ skipped. invalidate_from-shrinks seen hosts cache h s c)
        (λ new at.
          put_if-shrinks (fault (normal host)) (normal host) slug cache h s c
            (invalidate_from-shrinks (normal host ∷ seen) hosts deleted h s c at))

  -- At the names that were seen there is no entry.
  abbrev IsCleared : List Text → Cache → Type 0
  IsCleared seen cache = (h : Text) → includes seen h ≡ true → cache h slug ≡ none

  IsCleared-more :
      (host : Text) (seen : List Text) (cache : Cache)
      → IsCleared seen cache
      → IsCleared (host ∷ seen) (put_entry host slug none cache)
  unfolding includes
  IsCleared-more host seen cache cleared h listed = elim (Bool-cases (text_eq h host)) [
    | inl same ↦ rw (same, text_eq_refl slug) refl
    | inr other ↦
        let apart : text_eq host h ≡ false = swapped host h other in
        rw other (cleared h (listed_later (text_eq host h) (includes seen h) apart listed))
  ]
    where
      listed_later : (a b : Bool) → a ≡ false → (a || b) ≡ true → b ≡ true
      listed_later true b apart listed = cc
      listed_later false b apart listed = listed

      swapped : (a b : Text) → text_eq b a ≡ false → text_eq a b ≡ false
      swapped a b other = elim (Bool-cases (text_eq a b)) [
        | inl same ↦
            let equal : text_eq b a ≡ true =
              ap (λ x. text_eq x a) (sym ((text_eq_iff a b).0 same)) ∙ text_eq_refl a in
            cc
        | inr apart ↦ apart
      ]

  -- A name that was seen or is among those that come.
  abbrev IsListed : Text → List Text → List Text → Type 0
  IsListed h seen hosts = (includes seen h || includes (map normal hosts) h) ≡ true

  passed_over :
      (h : Text) (seen hosts : List Text) (host : Text)
      → is_empty h ≡ false
      → (is_empty (normal host) || includes seen (normal host)) ≡ true
      → IsListed h seen (host ∷ hosts)
      → IsListed h seen hosts
  unfolding includes
  passed_over h seen hosts host filled skipped listed =
      elim (Bool-cases (text_eq (normal host) h)) [
        | inl same ↦
            let equal : normal host ≡ h = (text_eq_iff (normal host) h).0 same in
            let met : (is_empty h || includes seen h) ≡ true =
              ap (λ x. is_empty x || includes seen x) (sym equal) ∙ skipped in
            seen_first (is_empty h) (includes seen h) _ filled met
        | inr other ↦ dropped (includes seen h) (text_eq (normal host) h) _ other listed
      ]
    where
      seen_first : (a b c : Bool) → a ≡ false → (a || b) ≡ true → (b || c) ≡ true
      seen_first true b c filled met = cc
      seen_first false true c filled met = refl
      seen_first false false c filled met = cc

      dropped : (a b c : Bool) → b ≡ false → (a || (b || c)) ≡ true → (a || c) ≡ true
      dropped a true c other listed = cc
      dropped a false c other listed = listed

  moved : (a b c : Bool) → (a || (b || c)) ≡ true → ((b || a) || c) ≡ true
  moved true true c h = refl
  moved true false c h = refl
  moved false true c h = refl
  moved false false c h = h

  invalidate_from-clears :
      ((host : Text) → fault host ≡ sound)
      → (seen hosts : List Text) (cache : Cache) (h : Text) → is_empty h ≡ false
      → IsCleared seen cache
      → IsListed h seen hosts
      → invalidate_from normal fault seen hosts slug cache h slug ≡ none
  unfolding invalidate_from includes
  invalidate_from-clears works seen [] cache h filled cleared listed =
      cleared h (unlisted (includes seen h) listed)
    where
      unlisted : (a : Bool) → (a || false) ≡ true → a ≡ true
      unlisted true listed = refl
      unlisted false listed = listed
  invalidate_from-clears works seen (host ∷ hosts) cache h filled cleared listed =
      if-holds (λ (after : Cache). after h slug ≡ none)
        (is_empty (normal host) || includes seen (normal host))
        (λ skipped.
          invalidate_from-clears works seen hosts cache h filled cleared
            (passed_over h seen hosts host filled skipped listed))
        (λ new.
          invalidate_from-clears works (normal host ∷ seen) hosts
            (put_if (fault (normal host)) (normal host) slug none cache) h filled
            (subst (λ f. IsCleared (normal host ∷ seen) (put_if f (normal host) slug none cache))
              (sym (works (normal host))) (IsCleared-more (normal host) seen cache cleared))
            (moved (includes seen h) (text_eq (normal host) h) _ listed))

  invalidate-clears :
      ((host : Text) → fault host ≡ sound)
      → (hosts : List Text) (cache : Cache) (h : Text) → is_empty h ≡ false
      → includes (map normal hosts) h ≡ true
      → invalidate normal fault hosts slug cache h slug ≡ none
  unfolding invalidate includes
  invalidate-clears works hosts cache h filled listed =
      invalidate_from-clears works [] hosts cache h filled (λ x met. unmet x met) listed
    where
      unmet : (x : Text) → false ≡ true → cache x slug ≡ none
      unmet x met = cc

-- At a host among those that are invalidated, by its normal name, which is not empty: if each entry
-- is that of the link in the table, the same holds after any change of the table at one slug and
-- `Invalidate` for it, if no `Delete` fails.
pub invalidate-IsCoherent :
    (normal : Text → Text) (fault : Text → Fault) (hosts : List Text) (slug : Text)
    (table table' : Text → Option Link) (host : Text) (cache : Cache)
    → ((s : Text) → text_eq s slug ≡ false → table' s ≡ table s)
    → ((h : Text) → fault h ≡ sound)
    → is_empty host ≡ false
    → includes (map normal hosts) host ≡ true
    → IsCoherent table host cache
    → IsCoherent table' host (invalidate normal fault hosts slug cache)
unfolding invalidate
invalidate-IsCoherent normal fault hosts slug table table' host cache others works filled listed
      coherent s c at =
    let old : cache host s ≡ some c =
      invalidate_from-shrinks normal fault slug [] hosts cache host s c at in
    elim (Bool-cases (text_eq s slug)) [
      | inl same ↦
          let here : s ≡ slug = (text_eq_iff s slug).0 same in
          let cleared = invalidate-clears normal fault slug works hosts cache host filled listed in
          none-some c
            (sym cleared ∙ ap (invalidate normal fault hosts slug cache host) (sym here) ∙ at)
      | inr other ↦ let entry = coherent s c old in (entry.0, others s other ∙ entry.1, entry.2)
    ]

-- As long as a valid entry stays in the cache, as when `Delete` fails, and `Get` works, it is served
-- whatever the table has for the slug, also when the link was changed or deleted.
pub resolve-stale :
    (fault : Fault) (host slug : Text) (cache : Cache) (c : CachedRedirect) (l : Link)
    (table : Option Link)
    → cache host slug ≡ some c
    → link_of c ≡ some l
    → resolve true fault host slug table cache ≡ (some l, cache)
unfolding resolve use_found
resolve-stale fault host slug cache c l table at entry = rw (at, entry) refl

-- `Resolve` is not one step: a link that was loaded before it was changed can be put into the cache
-- after the invalidation, and then what its entry keeps is served whatever the table has.
pub resolve-late :
    (host slug : Text) (old : Link) (c : CachedRedirect) (cleared : Cache) (fault : Fault)
    (table : Option Link)
    → from_link old ≡ some c
    → (resolve true fault host slug table ((load_link sound host slug (some old) cleared).1)).0
      ≡ some (cached_view old)
unfolding load_link
resolve-late host slug old c cleared fault table eligible =
    let late = (load_link sound host slug (some old) cleared).1 in
    let here : late host slug ≡ some c = rw (eligible, text_eq_refl host, text_eq_refl slug) refl in
    let view = link_of-from_link old c eligible in
    ap (λ r. r.0) (resolve-stale fault host slug late c (cached_view old) table here (view.3))
