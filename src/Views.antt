-- ===== src/Views.antt =====
-- web/app.js, the templates of the rows that the loaders put into the page. Line breaks and
-- indentation between the tags of a template are left out.
pub mod Links
pub mod Admin
pub mod Safety
use shortq.Prelude.{
  ℕ, List, [], ◌∷◌, ◌++◌, String, Text, codes, text_eq, is_empty, or_text, Bool, true, false, not,
  ◌&&◌, ◌||◌, ◌==◌, if◌then◌else◌, Option, none, some,
}
use shortq.State.{User, Link}
use shortq.Html.{Piece, lit}

-- `xs.map(row).join('')`
unfoldable pub rows {ℓ} : {A : Type ℓ} → (A → List Piece) → List A → List Piece
rows row [] = []
rows row (x ∷ xs) = row x ++ rows row xs

-- `… || fallback`, on the string of the rows.
abbrev pub or_else : List Piece → String → List Piece
or_else [] fallback = lit fallback ∷ []
or_else (p ∷ ps) fallback = p ∷ ps

-- `currentUser && currentUser.can_delete`
abbrev pub can_delete : Option User → Bool
can_delete none = false
can_delete (some u) = u.can_delete

abbrev pub has_role : String → Option User → Bool
has_role role none = false
has_role role (some u) = text_eq u.role (codes role)

-- `currentUser && currentUser.dashboard_mode === mode`
abbrev pub in_mode : String → Option User → Bool
in_mode mode none = false
in_mode mode (some u) = text_eq u.dashboard_mode (codes mode)

-- `canManageLink` of web/reports.js.
unfoldable pub can_manage_link : Option User → Link → Bool
can_manage_link none link = false
can_manage_link (some u) link =
    text_eq u.role (codes "superadmin") || text_eq u.role (codes "tenant") || link.user_id == u.id

abbrev pub sharing : Text → Text
sharing visibility =
    if text_eq visibility (codes "department") then codes "shared with ALVA" else codes "private"
