-- ===== src/Router/Reports.antt =====
-- web/reports.js, `openLinkReport`, `openUserReport` and `backToDashboard`: the address is
-- changed, and the router does the rest.
use shortq.Prelude.{
  is_empty-false, split_from-no_sep, ℕ, [], ◌∷◌, ◌++◌, Text, codes, true, not, ◌≡◌, ◌≢◌, refl,
  text_eq, or_text, split, split_from, show_ℕ, show_ℕ-all_digits, show_ℕ-ne-nil, all, all-weaken,
  is_digit, lower, Option, none, some, arith, ◌==◌,
}
use shortq.State.{App, User}
use shortq.State.Monad.{Env, M, modify}
use shortq.Router.Target.{
  report, target, target_of, report_match, report_parts, is_id_char, strip_hash,
}

-- `location.hash = t`: the browser writes one `#` before it.
abbrev pub fragment : Text → Text
fragment t = b'#' ∷ strip_hash t

abbrev pub set_hash : Text → App → App
set_hash t s = record s { hash = fragment t }

unfoldable pub open_link_report : ℕ → M (Unit {0})
open_link_report id = modify (set_hash (codes "report/link/" ++ show_ℕ id))

-- `id == null ? "me" : id`
abbrev pub user_id : Option ℕ → Text
user_id none = codes "me"
user_id (some id) = show_ℕ id

unfoldable pub open_user_report : Option ℕ → M (Unit {0})
open_user_report id = modify (set_hash (codes "report/user/" ++ user_id id))

unfoldable pub back_to_dashboard : M (Unit {0})
back_to_dashboard = modify λ s. set_hash (or_text s.last_workspace_hash (codes "#home")) s

is_id_char-no_slash : (c : ℕ) → is_id_char c ≡ true → not (c == b'/') ≡ true
unfolding lower
is_id_char-no_slash c h = ground arith

is_digit-id_char : (c : ℕ) → is_digit c ≡ true → is_id_char c ≡ true
is_digit-id_char c h = ground arith

split-id : (id : Text) → all is_id_char id ≡ true → split_from [] b'/' id ≡ id ∷ []
split-id id h =
    split_from-no_sep [] b'/' id
      (all-weaken is_id_char (λ c. not (c == b'/')) id is_id_char-no_slash h)

-- An identifier behind the name of a kind is read back as the report of that kind.
target-report :
    (u : User) (id : Text)
    → all is_id_char id ≡ true
    → id ≢ []
    → (target u (fragment (codes "report/link/" ++ id)) ≡ report (codes "link") id)
      × (target u (fragment (codes "report/user/" ++ id)) ≡ report (codes "user") id)
unfolding target target_of report_match report_parts text_eq split lower split_from
target-report u id h ne =
    (rw (split-id id h, h, is_empty-false id ne), rw (split-id id h, h, is_empty-false id ne))

me_chars : all is_id_char (codes "me") ≡ true
unfolding all lower
me_chars = refl

-- The address that opening a link's report leaves is routed to that report, and likewise for the
-- report of a user or of oneself, whoever the current user is.
pub open_report-target :
    (u : User) (env : Env) (s : App) (link : ℕ) (who : Option ℕ)
    → (target u (open_link_report link env s).1.hash ≡ report (codes "link") (show_ℕ link))
      × (target u (open_user_report who env s).1.hash ≡ report (codes "user") (user_id who))
unfolding open_link_report open_user_report
open_report-target u env s link who =
    ((target-report u (show_ℕ link) (digits link) (show_ℕ-ne-nil link)).0, user who)
  where
    digits : (n : ℕ) → all is_id_char (show_ℕ n) ≡ true
    digits n = all-weaken is_digit is_id_char (show_ℕ n) is_digit-id_char (show_ℕ-all_digits n)

    user :
        (w : Option ℕ)
        → target u (fragment (codes "report/user/" ++ user_id w))
          ≡ report (codes "user") (user_id w)
    user none = (target-report u (codes "me") me_chars (λ e. cc)).1
    user (some n) = (target-report u (show_ℕ n) (digits n) (show_ℕ-ne-nil n)).1
