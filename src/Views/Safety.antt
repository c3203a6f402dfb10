-- ===== src/Views/Safety.antt =====
-- The panels of web/app.js against the panels with every text of a user or of the server blank:
-- whether the tags and attributes are the same, and whether the panel ends in content.
pub mod Blank
pub mod Panels
pub mod All
pub mod Admin
use shortq.Prelude.{List, [], ◌∷◌, ◌++◌, ◌≡◌, refl, String, Text, true, false, map, is_empty}
use shortq.Html.{Piece, lit, render}
use shortq.Html.Markup.{
  Mode, content, mode_after, markup, is_placed, shape, mode_of, markup-render, mode_after-render,
  is_placed-append, mode_of-append, shape-append,
}
use shortq.Views.{rows, or_else}

-- A template stands in content, ends there, and has the markup of another.
pub record IsSafe (ps qs : List Piece) : Type 0 where
  pub placed : is_placed content ps ≡ true
  pub ends : mode_of content ps ≡ content
  pub same : shape content ps ≡ shape content qs

-- What a reader of the page sees of it: the markup of the one page is that of the other, and the
-- text behind the page is content again.
pub record Confined (ps qs : List Piece) : Type 0 where
  pub markup_same : markup content (render ps) ≡ markup content (render qs)
  pub closed : mode_after content (render ps) ≡ content

pub IsSafe-Confined : (ps qs : List Piece) → IsSafe ps qs → IsSafe qs qs → Confined ps qs
IsSafe-Confined ps qs s t = record {
  markup_same = rw (markup-render content ps s.placed, markup-render content qs t.placed) s.same;
  closed = rw (mode_after-render content ps s.placed) s.ends;
}

pub IsSafe-append :
    (ps qs vs ws : List Piece)
    → IsSafe ps vs
    → mode_of content vs ≡ content
    → IsSafe qs ws
    → IsSafe (ps ++ qs) (vs ++ ws)
IsSafe-append ps qs vs ws s e t = record {
  placed = is_placed-append content ps qs s.placed (rw s.ends t.placed);
  ends = rw (mode_of-append, s.ends) t.ends;
  same = rw (shape-append, shape-append content vs ws, s.ends, e, s.same, t.same);
}

or_else-append :
    (ps qs : List Piece) (fallback : String)
    → is_empty ps ≡ false
    → or_else (ps ++ qs) fallback ≡ ps ++ qs
or_else-append [] qs fallback h = cc
or_else-append (p ∷ ps) qs fallback h = refl

-- A panel of rows, where each row is confined and `blank` takes the texts out of what it shows.
module _ {ℓ} {A : Type ℓ} (row : A → List Piece) (blank : A → A)
    (each : (x : A) → IsSafe (row x) (row (blank x))) where
  pub rows-IsSafe : (xs : List A) → IsSafe (rows row xs) (rows row (map blank xs))
  unfolding rows
  rows-IsSafe [] =
      unfold is_placed mode_of shape in record { placed = refl; ends = refl; same = refl }
  rows-IsSafe (x ∷ xs) =
      IsSafe-append (row x) (rows row xs) (row (blank x)) (rows row (map blank xs)) (each x)
        (each (blank x)).ends (rows-IsSafe xs)

  pub rows-Confined : (xs : List A) → Confined (rows row xs) (rows row (map blank xs))
  rows-Confined xs =
      IsSafe-Confined (rows row xs) (rows row (map blank xs)) (rows-IsSafe xs)
        (self (rows row (map blank xs)) (rows-IsSafe (map blank xs)))
    where
      self : (ps : List Piece) {qs : List Piece} → IsSafe ps qs → IsSafe ps ps
      self ps s = record { placed = s.placed; ends = s.ends; same = refl }

  pub panel-Confined :
      ((x : A) → is_empty (row x) ≡ false)
      → (fallback : String) → Confined (lit fallback ∷ []) (lit fallback ∷ [])
      → (xs : List A)
      → Confined (or_else (rows row xs) fallback) (or_else (rows row (map blank xs)) fallback)
  panel-Confined filled fallback empty [] = unfold rows in empty
  panel-Confined filled fallback empty (x ∷ xs) =
      let c = rows-Confined (x ∷ xs) in
      unfold rows in
      rw
        (
          or_else-append (row x) (rows row xs) fallback (filled x),
          or_else-append (row (blank x)) (rows row (map blank xs)) fallback (filled (blank x)),
        )
        c
