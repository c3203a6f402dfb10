-- ===== src/Html/Decode.antt =====
-- What a browser reads back from escaped text: the code units up to a delimiter, with the four
-- character references that `esc` writes resolved.
use shortq.Prelude.{
  ℕ, [], ◌∷◌, ◌++◌, ◌≡◌, refl, Text, codes, text_eq, ◌==◌, if◌then◌else◌, arith, append_assoc,
}
use shortq.Html.{esc, esc_char}

-- The meaning of a character reference; an unknown one stands for itself.
resolve : Text → Text
resolve name =
    if text_eq name (codes "amp")
    then b'&' ∷ []
    else if text_eq name (codes "lt")
    then b'<' ∷ []
    else if text_eq name (codes "gt")
    then b'>' ∷ []
    else if text_eq name (codes "quot")
    then b'"' ∷ []
    else b'&' ∷ name ++ b';' ∷ []

-- A reader: inside a reference it holds the name so far.
pub data Reader : Type 0 where
  plain : Reader
  named : Text → Reader

-- Reads up to the code unit `stop`; the pair is what was read and what is left.
pub read_until : ℕ → Reader → Text → Text × Text
read_until stop plain [] = ([], [])
read_until stop (named name) [] = (b'&' ∷ name, [])
read_until stop plain (c ∷ s) =
    let opened = read_until stop (named []) s in
    let (text, rest) = read_until stop plain s in
    if c == stop then ([], c ∷ s) else if c == b'&' then opened else (c ∷ text, rest)
read_until stop (named name) (c ∷ s) =
    let (text, rest) = read_until stop plain s in
    let longer = read_until stop (named (name ++ c ∷ [])) s in
    if c == stop
    then (b'&' ∷ name, c ∷ s)
    else if c == b';'
    then (resolve name ++ text, rest)
    else longer

-- Where the source puts escaped text: before a tag, or inside a double-quoted attribute.
pub data Place : Type 0 where
  content attribute : Place

-- The code unit that ends the text there.
abbrev pub delimiter : Place → ℕ
delimiter content = b'<'
delimiter attribute = b'"'

abbrev prefixed : ℕ → Text × Text → Text × Text
prefixed c (text, rest) = (c ∷ text, rest)

read_until-esc_char :
    (place : Place) (c : ℕ) (s : Text)
    → read_until (delimiter place) plain (esc_char c ++ s)
      ≡ prefixed c (read_until (delimiter place) plain s)
unfolding read_until esc_char resolve text_eq
read_until-esc_char content c s = ground arith
read_until-esc_char attribute c s = ground arith

-- A browser that reads what `esc` wrote, up to the delimiter of the place, gets back the text.
pub read_until-esc :
    (place : Place) (s rest : Text)
    → read_until (delimiter place) plain (esc s ++ delimiter place ∷ rest)
      ≡ (s, delimiter place ∷ rest)
unfolding esc
read_until-esc content [] rest = unfold read_until in refl
read_until-esc attribute [] rest = unfold read_until in refl
read_until-esc place (c ∷ s) rest =
    rw (append_assoc, read_until-esc_char, read_until-esc place s rest)
