-- ===== src/Html.antt =====
-- web/app.js, `esc` and the template strings: text that is put into `innerHTML`.
pub mod Decode
pub mod Markup
use shortq.Prelude.{
  ℕ, List, [], ◌∷◌, ◌++◌, String, Text, codes, show_ℕ, text_eq, ◌==◌, if◌then◌else◌,
}

-- The replacement of one code unit by `esc`.
pub esc_char : ℕ → Text
esc_char c =
    if c == b'&'
    then codes "&amp;"
    else if c == b'<'
    then codes "&lt;"
    else if c == b'>'
    then codes "&gt;"
    else if c == b'"'
    then codes "&quot;"
    else c ∷ []

-- `esc`, for a string. An absent string is falsy and reads as the empty one.
unfoldable pub esc : Text → Text
unfolding esc_char
esc [] = []
esc (c ∷ s) = esc_char c ++ esc s

-- A piece of a template: its own markup, `${esc(s)}`, a number, a string put in unescaped, or
-- the text that the browser gives a number with a fraction or a grouped number.
pub data Piece : Type 0 where
  lit : String → Piece
  escaped : Text → Piece
  num : ℕ → Piece
  raw : Text → Piece
  shown : Text → Piece

pub render_piece : Piece → Text
render_piece (lit s) = codes s
render_piece (escaped t) = esc t
render_piece (num n) = show_ℕ n
render_piece (raw t) = t
render_piece (shown t) = t

-- The string that a template stands for.
unfoldable pub render : List Piece → Text
unfolding render_piece
render [] = []
render (p ∷ ps) = render_piece p ++ render ps

-- `roleLabel`: an unknown role is its own label.
unfoldable pub role_label : Text → Text
role_label role =
    if text_eq role (codes "superadmin")
    then codes "admin"
    else if text_eq role (codes "tenant")
    then codes "department admin"
    else if text_eq role (codes "customer")
    then codes "user"
    else role
