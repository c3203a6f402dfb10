-- ===== src/Views/Links.antt =====
-- web/app.js, `loadRecentLinks`, `loadLinks`, `loadClicks` and `loadStats`: the rows of links,
-- clicks and counters.
use shortq.Prelude.{
  ℕ, List, [], ◌∷◌, ◌++◌, String, Text, codes, is_empty, or_text, Bool, if◌then◌else◌, Option, ◌==◌,
  take,
}
use shortq.State.{User, Link, Click, Share}
use shortq.Html.{Piece, lit, escaped, num, raw}
use shortq.Views.{rows, or_else, can_delete, can_manage_link, sharing}

unfoldable pub home_link_row : Link → List Piece
home_link_row x =
    lit "<div class=\"row link-row home-link-row\"><div><b>"
    ∷ escaped (or_text x.title x.slug)
    ∷ lit "</b><a href=\""
    ∷ escaped x.short_url
    ∷ lit "\" target=\"_blank\" rel=\"noopener\">"
    ∷ escaped x.short_url
    ∷ lit "</a><div class=\"tiny\">"
    ∷ num x.clicks
    ∷ lit " clicks · "
    ∷ escaped (sharing x.visibility)
    ∷ lit "</div></div><button class=\"secondary\" onclick=\"openLinkReport("
    ∷ num x.id
    ∷ lit ")\">Report</button><button class=\"secondary\" onclick=\"qrForLink("
    ∷ num x.id
    ∷ lit ")\">QR</button></div>"
    ∷ []

abbrev pub no_links : String
no_links = "<div class=\"empty\">No links yet. Create first link above.</div>"

unfoldable pub home_links_html : List Link → List Piece
unfolding home_link_row rows
home_links_html xs = or_else (rows home_link_row xs) no_links

creator_line : Link → List Piece
creator_line x =
    if is_empty x.creator_name
    then []
    else lit "<div class=\"tiny\">Created by "
      ∷ escaped x.creator_name
      ∷ lit " &middot; "
      ∷ escaped x.creator_email
      ∷ lit "</div>"
      ∷ []

edit_button : Bool → ℕ → List Piece
edit_button allowed id =
    if allowed
    then lit "<button class=\"secondary\" onclick=\"editLink("
      ∷ num id
      ∷ lit ")\">Edit</button>"
      ∷ []
    else []

abbrev delete_locked : String
delete_locked =
    "<button class=\"danger\" disabled title=\"Deletion access must be activated by a superadmin\">Delete locked</button>"

delete_button : Bool → Bool → ℕ → List Piece
delete_button managed deletes id =
    if managed
    then (if deletes
        then lit "<button class=\"danger\" onclick=\"delLink("
          ∷ num id
          ∷ lit ")\">Delete</button>"
          ∷ []
        else lit delete_locked ∷ [])
    else []

-- The row of a link that the current user may manage or not, and may delete or not.
unfoldable pub link_cells : (Text → Text) → Bool → Bool → Link → List Piece
unfolding creator_line edit_button delete_button
link_cells locale managed deletes x =
    lit "<div class=\"row link-row\"><div><b>"
      ∷ escaped (or_text x.title x.slug)
      ∷ lit "</b><a href=\""
      ∷ escaped x.short_url
      ∷ lit "\" target=\"_blank\" rel=\"noopener\">"
      ∷ escaped x.short_url
      ∷ lit "</a><div class=\"tiny\">"
      ∷ num x.clicks
      ∷ lit " clicks · "
      ∷ escaped (sharing x.visibility)
      ∷ lit "</div><div class=\"tiny\">Created "
      ∷ raw (locale x.created_at)
      ∷ lit "</div><div class=\"tiny original-url\">"
      ∷ escaped x.target_url
      ∷ lit
          "</div><button type=\"button\" class=\"url-toggle\" aria-expanded=\"false\" onclick=\"toggleTargetURL(this)\">Show full URL</button>"
      ∷ creator_line x
    ++ lit "</div><button class=\"secondary\" onclick=\"openLinkReport("
      ∷ num x.id
      ∷ lit ")\">Report</button>"
      ∷ edit_button managed x.id
    ++ lit "<button class=\"secondary\" onclick=\"qrForLink("
      ∷ num x.id
      ∷ lit ")\">QR</button>"
      ∷ delete_button managed deletes x.id
    ++ lit "</div>" ∷ []

unfoldable pub link_row : (Text → Text) → Option User → Link → List Piece
unfolding link_cells
link_row locale u x = link_cells locale (can_manage_link u x) (can_delete u) x

unfoldable pub links_html : (Text → Text) → Option User → List Link → List Piece
unfolding rows
links_html locale u xs = or_else (rows (link_row locale u) xs) no_links

unfoldable pub click_row : (Text → Text) → Click → List Piece
click_row locale x =
    lit "<div class=\"row no-actions\"><div><b>/"
    ∷ escaped x.slug
    ∷ lit "</b><div class=\"tiny\">"
    ∷ raw (locale x.created_at)
    ∷ lit " · "
    ∷ escaped (or_text x.country_code (codes "unknown"))
    ∷ lit " · "
    ∷ escaped x.device
    ∷ lit " · "
    ∷ escaped x.browser
    ∷ lit " · "
    ∷ escaped x.route_type
    ∷ lit " → "
    ∷ num x.status_code
    ∷ lit "</div></div></div>"
    ∷ []

abbrev pub no_clicks : String
no_clicks = "<div class=\"empty\">No click events yet.</div>"

unfoldable pub clicks_html : (Text → Text) → List Click → List Piece
unfolding rows
clicks_html locale xs = or_else (rows (click_row locale) xs) no_clicks

unfoldable pub share_card : Share → List Piece
share_card x =
    lit "<div><b>"
    ∷ num x.clicks
    ∷ lit "</b><span>"
    ∷ escaped (or_text x.key (codes "unknown"))
    ∷ lit "</span></div>"
    ∷ []

unfoldable pub breakdown_html : List Share → List Piece
unfolding rows
breakdown_html xs = rows share_card (take 6 xs)

-- `k.replaceAll('_', ' ')`
unfoldable pub spaced : Text → Text
spaced [] = []
spaced (c ∷ s) = (if c == b'_' then b' ' else c) ∷ spaced s

-- `Object.entries(a).filter(([, v]) => Number(v) !== 0)`
unfoldable pub counted : List (Text × ℕ) → List (Text × ℕ)
counted [] = []
counted ((k, v) ∷ xs) = if v == 0 then counted xs else (k, v) ∷ counted xs

unfoldable pub stat_card : Text × ℕ → List Piece
unfolding spaced
stat_card (k, v) =
    lit "<div><b>" ∷ num v ∷ lit "</b><span>" ∷ raw (spaced k) ∷ lit "</span></div>" ∷ []

unfoldable pub stats_html : List (Text × ℕ) → List Piece
unfolding rows counted
stats_html a =
    or_else (rows stat_card (counted a)) "<div><b>0</b><span>No activity yet</span></div>"
