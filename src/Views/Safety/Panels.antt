-- ===== src/Views/Safety/Panels.antt =====
-- The panels of links, clicks and shares, with blank texts and without.
use shortq.Prelude.{
  List, [], ◌∷◌, ◌≡◌, refl, ap, String, Text, Bool, true, map, Option, none, some, Bool-cases, inl,
  inr, is_empty, arith, take, zero, suc, ℕ,
}
use shortq.State.{User, Link, Click, Share}
use shortq.Html.{lit}
use shortq.Html.Markup.{
  content, mode_after, markup, is_placed, shape, mode_of, is_plain, is_plain-inert,
}
use shortq.Views.Links.{
  home_link_row, home_links_html, no_links, link_cells, link_row, links_html, click_row,
  clicks_html, no_clicks, share_card, breakdown_html,
}
use shortq.Views.{can_manage_link, can_delete}
use shortq.Views.Safety.{IsSafe, Confined, IsSafe-Confined, panel-Confined, rows-Confined}
use shortq.Views.Safety.Blank.{blank_link, blank_click, blank_share}

pub literal-Confined :
    (s : String)
    → mode_of content (lit s ∷ []) ≡ content
    → is_placed content (lit s ∷ []) ≡ true
    → Confined (lit s ∷ []) (lit s ∷ [])
literal-Confined s e p =
    let safe : IsSafe (lit s ∷ []) (lit s ∷ []) = record { placed = p; ends = e; same = refl } in
    IsSafe-Confined (lit s ∷ []) (lit s ∷ []) safe safe

home_link_row-IsSafe : (x : Link) → IsSafe (home_link_row x) (home_link_row (blank_link x))
unfolding home_link_row is_placed shape mode_of mode_after markup blank_link
home_link_row-IsSafe x = record { placed = refl; ends = refl; same = refl }

-- The links on the home view are confined, whatever texts they hold.
pub home_links_html-Confined :
    (xs : List Link) → Confined (home_links_html xs) (home_links_html (map blank_link xs))
unfolding home_links_html home_link_row is_placed mode_of mode_after
home_links_html-Confined xs =
    panel-Confined home_link_row blank_link home_link_row-IsSafe (λ x. refl) no_links
      (literal-Confined no_links refl refl) xs

-- A date format that writes no `<`.
abbrev pub PlainDates : (Text → Text) → Type 0
PlainDates locale = (t : Text) → is_plain (locale t) ≡ true

can_manage_link-blank :
    (u : Option User) (x : Link) → can_manage_link u (blank_link x) ≡ can_manage_link u x
unfolding can_manage_link blank_link
can_manage_link-blank none x = refl
can_manage_link-blank (some u) x = refl

module _ (locale : Text → Text) (plain : PlainDates locale) where
  pub date_mode : (t : Text) → mode_after content (locale t) ≡ content
  date_mode t = (is_plain-inert (locale t) (plain t)).0

  pub date_silent : (t : Text) → markup content (locale t) ≡ []
  date_silent t = (is_plain-inert (locale t) (plain t)).1

  click_row-IsSafe : (x : Click) → IsSafe (click_row locale x) (click_row locale (blank_click x))
  unfolding click_row is_placed shape mode_of mode_after markup blank_click
  click_row-IsSafe x = record {
    placed = rw (date_mode x.created_at);
    ends = rw (date_mode x.created_at);
    same = rw (date_mode x.created_at, date_silent x.created_at, date_mode [], date_silent []);
  }

  -- The click events are confined, where the browser's date format writes no `<`.
  pub clicks_html-Confined :
      (xs : List Click) → Confined (clicks_html locale xs) (clicks_html locale (map blank_click xs))
  unfolding clicks_html click_row is_placed mode_of mode_after
  clicks_html-Confined xs =
      panel-Confined (click_row locale) blank_click click_row-IsSafe (λ x. refl) no_clicks
        (literal-Confined no_clicks refl refl) xs

  -- A row for each answer to: is a creator named, may the user manage the link, and delete?
  link_cells-IsSafe :
      (managed deletes : Bool) (x : Link)
      → IsSafe
          (link_cells locale managed deletes x)
          (link_cells locale managed deletes (blank_link x))
  unfolding link_cells is_placed shape mode_of mode_after markup blank_link
  link_cells-IsSafe managed deletes x = record {
    placed = ground (arith, date_mode x.created_at);
    ends = ground (arith, date_mode x.created_at);
    same = elim (Bool-cases (is_empty x.creator_name)) [
      | inl unnamed ↦
          rw (
            unnamed,
            date_mode x.created_at,
            date_silent x.created_at,
            date_mode [],
            date_silent [],
          )
      | inr named ↦
          rw (named, date_mode x.created_at, date_silent x.created_at, date_mode [], date_silent [])
    ];
  }

  link_row-IsSafe :
      (u : Option User) (x : Link) → IsSafe (link_row locale u x) (link_row locale u (blank_link x))
  unfolding link_row
  link_row-IsSafe u x =
      rw (can_manage_link-blank u x) (link_cells-IsSafe (can_manage_link u x) (can_delete u) x)

  -- The links of the links view are confined, for every user, where the browser's date format
  -- writes no `<`: the markup depends on who may manage and delete a link, and on whether its
  -- creator is named, but on no text.
  pub links_html-Confined :
      (u : Option User) (xs : List Link)
      → Confined (links_html locale u xs) (links_html locale u (map blank_link xs))
  unfolding links_html link_cells is_placed mode_of mode_after
  links_html-Confined u xs =
      panel-Confined (link_row locale u) blank_link (link_row-IsSafe u)
        (λ x. unfold link_row in refl) no_links (literal-Confined no_links refl refl) xs

share_card-IsSafe : (x : Share) → IsSafe (share_card x) (share_card (blank_share x))
unfolding share_card is_placed shape mode_of mode_after markup blank_share
share_card-IsSafe x = record { placed = refl; ends = refl; same = refl }

take-map : {A B : Type 0} (f : A → B) (n : ℕ) (xs : List A) → take n (map f xs) ≡ map f (take n xs)
take-map f zero xs = refl
take-map f (suc n) [] = refl
take-map f (suc n) (x ∷ xs) = ap (f x ∷◌) (take-map f n xs)

-- The shares of the countries are confined.
pub breakdown_html-Confined :
    (xs : List Share) → Confined (breakdown_html xs) (breakdown_html (map blank_share xs))
unfolding breakdown_html
breakdown_html-Confined xs =
    rw (take-map blank_share 6 xs)
      (rows-Confined share_card blank_share share_card-IsSafe (take 6 xs))
