-- ===== src/Html/Markup.antt =====
-- The markup of a page: what is left of a text when the text content and the attribute values
-- are taken out. Two pages with the same markup differ in text and values alone.
use shortq.Prelude.{
  ℕ, List, [], ◌∷◌, ◌++◌, ◌≡◌, refl, Text, codes, ◌==◌, if◌then◌else◌, arith, Bool, true, false,
  ◌&&◌, append_assoc, show_ℕ, all, is_digit, not, show_ℕ-all_digits,
}
use shortq.Html.{esc, esc_char, Piece, lit, escaped, num, raw, shown, render}

-- Where a reader of HTML stands: in text, in a tag, or in a double- or single-quoted value.
pub data Mode : Type 0 where
  content tag quoted single : Mode

next_mode : Mode → ℕ → Mode
next_mode content c = if c == b'<' then tag else content
next_mode tag c =
    if c == b'>' then content else if c == b'"' then quoted else if c == 39 then single else tag
next_mode quoted c = if c == b'"' then tag else quoted
next_mode single c = if c == 39 then tag else single

-- Text and values leave no trace; the delimiters that close them, and all of a tag, do.
trace : Mode → ℕ → Text
trace content c = if c == b'<' then c ∷ [] else []
trace tag c = c ∷ []
trace quoted c = if c == b'"' then c ∷ [] else []
trace single c = if c == 39 then c ∷ [] else []

unfoldable pub mode_after : Mode → Text → Mode
unfolding next_mode
mode_after m [] = m
mode_after m (c ∷ s) = mode_after (next_mode m c) s

unfoldable pub markup : Mode → Text → Text
unfolding next_mode trace
markup m [] = []
markup m (c ∷ s) = trace m c ++ markup (next_mode m c) s

mode_after-append : (m : Mode) (s t : Text) → mode_after m (s ++ t) ≡ mode_after (mode_after m s) t
unfolding mode_after
mode_after-append m [] t = refl
mode_after-append m (c ∷ s) t = mode_after-append (next_mode m c) s t

markup-append :
    (m : Mode) (s t : Text) → markup m (s ++ t) ≡ markup m s ++ markup (mode_after m s) t
unfolding markup mode_after
markup-append m [] t = refl
markup-append m (c ∷ s) t = simp (markup-append (next_mode m c) s t, append_assoc)

-- Text may stand in content and in double-quoted values.
abbrev is_open : Mode → Bool
is_open content = true
is_open quoted = true
is_open _ = false

-- A text that leaves no trace and does not move the reader.
record IsInert (m : Mode) (t : Text) : Type 0 where
  stays : mode_after m t ≡ m
  silent : markup m t ≡ []

IsInert-append : (m : Mode) (s t : Text) → IsInert m s → IsInert m t → IsInert m (s ++ t)
IsInert-append m s t a b = record {
  stays = rw (mode_after-append, a.stays) b.stays;
  silent = rw (markup-append, a.silent, a.stays) b.silent;
}

esc_char-IsInert : (m : Mode) (c : ℕ) → is_open m ≡ true → IsInert m (esc_char c)
unfolding esc_char mode_after markup next_mode trace
esc_char-IsInert content c h = ground arith
esc_char-IsInert quoted c h = ground arith
esc_char-IsInert tag c h = cc
esc_char-IsInert single c h = cc

esc-IsInert : (m : Mode) (s : Text) → is_open m ≡ true → IsInert m (esc s)
unfolding esc mode_after markup
esc-IsInert m [] h = record { stays = refl; silent = refl }
esc-IsInert m (c ∷ s) h =
    IsInert-append m (esc_char c) (esc s) (esc_char-IsInert m c h) (esc-IsInert m s h)

digits-IsInert : (m : Mode) (s : Text) → is_open m ≡ true → all is_digit s ≡ true → IsInert m s
unfolding all mode_after markup next_mode trace
digits-IsInert m [] h k = record { stays = refl; silent = refl }
digits-IsInert content (c ∷ s) h k = ground (arith, digits-IsInert content s h)
digits-IsInert quoted (c ∷ s) h k = ground (arith, digits-IsInert quoted s h)
digits-IsInert tag (c ∷ s) h k = cc
digits-IsInert single (c ∷ s) h k = cc

show_ℕ-IsInert : (m : Mode) (n : ℕ) → is_open m ≡ true → IsInert m (show_ℕ n)
show_ℕ-IsInert m n h = digits-IsInert m (show_ℕ n) h (show_ℕ-all_digits n)

-- Text with neither `<` nor `"` is inert wherever text may stand.
abbrev pub is_safe : Text → Bool
is_safe = all (λ c. not (c == b'<') && not (c == b'"'))

is_safe-IsInert : (m : Mode) (s : Text) → is_open m ≡ true → is_safe s ≡ true → IsInert m s
unfolding all mode_after markup next_mode trace
is_safe-IsInert m [] h k = record { stays = refl; silent = refl }
is_safe-IsInert content (c ∷ s) h k = ground (arith, is_safe-IsInert content s h)
is_safe-IsInert quoted (c ∷ s) h k = ground (arith, is_safe-IsInert quoted s h)
is_safe-IsInert tag (c ∷ s) h k = cc
is_safe-IsInert single (c ∷ s) h k = cc

-- Whether every escaped text and every number of a template stands where text may stand.
unfoldable pub is_placed : Mode → List Piece → Bool
is_placed m [] = true
is_placed m (lit s ∷ ps) = is_placed (mode_after m (codes s)) ps
is_placed m (raw t ∷ ps) = is_placed (mode_after m t) ps
is_placed m (escaped t ∷ ps) = is_open m && is_placed m ps
is_placed m (num n ∷ ps) = is_open m && is_placed m ps
is_placed m (shown t ∷ ps) = is_open m && is_safe t && is_placed m ps

-- The markup that a template writes itself, without the escaped texts and the numbers.
unfoldable pub shape : Mode → List Piece → Text
shape m [] = []
shape m (lit s ∷ ps) = markup m (codes s) ++ shape (mode_after m (codes s)) ps
shape m (raw t ∷ ps) = markup m t ++ shape (mode_after m t) ps
shape m (escaped t ∷ ps) = shape m ps
shape m (num n ∷ ps) = shape m ps
shape m (shown t ∷ ps) = shape m ps

markup-inert : (m : Mode) (s t : Text) → IsInert m s → markup m (s ++ t) ≡ markup m t
markup-inert m s t h = rw (markup-append, h.silent, h.stays)

-- The markup of a rendered template is the template's own.
pub markup-render :
    (m : Mode) (ps : List Piece) → is_placed m ps ≡ true → markup m (render ps) ≡ shape m ps
unfolding render is_placed shape
markup-render m [] h = unfold markup in refl
markup-render m (lit s ∷ ps) h =
    rw (markup-append m (codes s) (render ps), markup-render (mode_after m (codes s)) ps h)
markup-render m (raw t ∷ ps) h =
    rw (markup-append m t (render ps), markup-render (mode_after m t) ps h)
markup-render m (escaped t ∷ ps) h =
    rw (markup-inert m (esc t) (render ps) (esc-IsInert m t (ground arith)))
      (markup-render m ps (ground arith))
markup-render m (num n ∷ ps) h =
    rw (markup-inert m (show_ℕ n) (render ps) (show_ℕ-IsInert m n (ground arith)))
      (markup-render m ps (ground arith))
markup-render m (shown t ∷ ps) h =
    rw (markup-inert m t (render ps) (is_safe-IsInert m t (ground arith) (ground arith)))
      (markup-render m ps (ground arith))

-- The mode in which a template ends.
unfoldable pub mode_of : Mode → List Piece → Mode
mode_of m [] = m
mode_of m (lit s ∷ ps) = mode_of (mode_after m (codes s)) ps
mode_of m (raw t ∷ ps) = mode_of (mode_after m t) ps
mode_of m (escaped t ∷ ps) = mode_of m ps
mode_of m (num n ∷ ps) = mode_of m ps
mode_of m (shown t ∷ ps) = mode_of m ps

mode_after-inert : (m : Mode) (s t : Text) → IsInert m s → mode_after m (s ++ t) ≡ mode_after m t
mode_after-inert m s t h = rw (mode_after-append, h.stays)

pub mode_after-render :
    (m : Mode) (ps : List Piece) → is_placed m ps ≡ true → mode_after m (render ps) ≡ mode_of m ps
unfolding render is_placed mode_of
mode_after-render m [] h = unfold mode_after in refl
mode_after-render m (lit s ∷ ps) h =
    rw (mode_after-append m (codes s) (render ps)) (mode_after-render (mode_after m (codes s)) ps h)
mode_after-render m (raw t ∷ ps) h =
    rw (mode_after-append m t (render ps)) (mode_after-render (mode_after m t) ps h)
mode_after-render m (escaped t ∷ ps) h =
    rw (mode_after-inert m (esc t) (render ps) (esc-IsInert m t (ground arith)))
      (mode_after-render m ps (ground arith))
mode_after-render m (num n ∷ ps) h =
    rw (mode_after-inert m (show_ℕ n) (render ps) (show_ℕ-IsInert m n (ground arith)))
      (mode_after-render m ps (ground arith))
mode_after-render m (shown t ∷ ps) h =
    rw (mode_after-inert m t (render ps) (is_safe-IsInert m t (ground arith) (ground arith)))
      (mode_after-render m ps (ground arith))

-- One template written after another.
pub is_placed-append :
    (m : Mode) (ps qs : List Piece)
    → is_placed m ps ≡ true
    → is_placed (mode_of m ps) qs ≡ true
    → is_placed m (ps ++ qs) ≡ true
unfolding is_placed mode_of
is_placed-append m [] qs h k = k
is_placed-append m (lit s ∷ ps) qs h k = is_placed-append (mode_after m (codes s)) ps qs h k
is_placed-append m (raw t ∷ ps) qs h k = is_placed-append (mode_after m t) ps qs h k
is_placed-append m (escaped t ∷ ps) qs h k = ground (arith, is_placed-append m ps qs)
is_placed-append m (num n ∷ ps) qs h k = ground (arith, is_placed-append m ps qs)
is_placed-append m (shown t ∷ ps) qs h k = ground (arith, is_placed-append m ps qs)

pub mode_of-append :
    (m : Mode) (ps qs : List Piece) → mode_of m (ps ++ qs) ≡ mode_of (mode_of m ps) qs
unfolding mode_of
mode_of-append m [] qs = refl
mode_of-append m (lit s ∷ ps) qs = mode_of-append (mode_after m (codes s)) ps qs
mode_of-append m (raw t ∷ ps) qs = mode_of-append (mode_after m t) ps qs
mode_of-append m (escaped t ∷ ps) qs = mode_of-append m ps qs
mode_of-append m (num n ∷ ps) qs = mode_of-append m ps qs
mode_of-append m (shown t ∷ ps) qs = mode_of-append m ps qs

pub shape-append :
    (m : Mode) (ps qs : List Piece) → shape m (ps ++ qs) ≡ shape m ps ++ shape (mode_of m ps) qs
unfolding shape mode_of
shape-append m [] qs = refl
shape-append m (lit s ∷ ps) qs = simp (shape-append (mode_after m (codes s)) ps qs, append_assoc)
shape-append m (raw t ∷ ps) qs = simp (shape-append (mode_after m t) ps qs, append_assoc)
shape-append m (escaped t ∷ ps) qs = shape-append m ps qs
shape-append m (num n ∷ ps) qs = shape-append m ps qs
shape-append m (shown t ∷ ps) qs = shape-append m ps qs

-- Text with no `<` is inert in content.
abbrev pub is_plain : Text → Bool
is_plain = all (λ c. not (c == b'<'))

pub is_plain-inert :
    (t : Text) → is_plain t ≡ true → (mode_after content t ≡ content) × (markup content t ≡ [])
unfolding all mode_after markup next_mode trace
is_plain-inert [] h = (refl, refl)
is_plain-inert (c ∷ s) h = ground (arith, is_plain-inert s)
