-- ===== src/Qr.antt =====
-- web/app.js, the QR card of the home view (`qrForLink`, `makeQR`, `qrURL` and `downloadQR`) and
-- `toggleTargetURL`. The address of the image `qrImg` is the value `qrImg.src` of the page; the
-- address of a link holds no line break, which the field of the text would drop.
pub mod Laws
use shortq.Prelude.{
  List, [], ◌∷◌, ◌++◌, ℕ, Text, codes, Bool, true, false, not, text_eq, is_empty, if◌then◌else◌,
  Option, none, some,
}
use shortq.State.{App, Dom, Link, set_value}
use shortq.State.Monad.{Env, M, pure, ◌>>=◌, ◌>>◌, gets, page}
use shortq.Api.{show_msg}
use shortq.Links.Edit.{find_link}
use shortq.Links.Tags.{trim}

-- The text of the QR code, without the white space around it.
abbrev pub qr_text : Dom → Text
qr_text d = trim (d.value "qrText")

-- The parameters of `qrURL`.
abbrev pub qr_query : Dom → List (Text × Text)
qr_query d =
    (codes "text", qr_text d)
    ∷ (codes "format", d.value "qrFormat")
    ∷ (codes "size", d.value "qrSize")
    ∷ (codes "foreground", d.value "qrForeground")
    ∷ (codes "background", d.value "qrBackground")
    ∷ []

-- `qrURL`
unfoldable pub qr_url : Env → Dom → Text
qr_url env d = codes "/api/v1/qr?" ++ env.encode (qr_query d)

abbrev pub no_qr_text : M (Unit {0})
no_qr_text = show_msg (codes "Enter text or URL for QR.") "error"

unfoldable pub show_image : M (Unit {0})
unfolding qr_url
show_image env s = page (set_value "qrImg.src" (qr_url env s.dom ++ (codes "&_=" ++ env.now))) env s

-- `makeQR`
unfoldable pub make_qr : M (Unit {0})
unfolding show_image
make_qr env s =
    (if is_empty (qr_text s.dom)
        then no_qr_text
        else if text_eq (s.dom.value "qrFormat") (codes "pdf")
        then show_msg (codes "PDF is ready to download.") "ok"
        else show_image)
      env s

-- `linkCache.find(…) || recentLinkCache.find(…)`
abbrev or_find : Option Link → Option Link → Option Link
or_find none o = o
or_find (some x) o = some x

unfoldable pub qr_of : Option Link → M (Unit {0})
unfolding make_qr
qr_of none = show_msg (codes "The selected link is no longer available.") "error"
qr_of (some x) = do page (set_value "qrText" x.short_url); make_qr

abbrev pub known_link : ℕ → App → Option Link
known_link id s = or_find (find_link id s.link_cache) (find_link id s.recent_link_cache)

-- `qrForLink`
unfoldable pub qr_for_link : ℕ → M (Unit {0})
unfolding qr_of
qr_for_link id = do o ← gets (known_link id); qr_of o

-- An anchor that is clicked: its address, and the name of the file that it is saved as.
pub record Download : Type 0 where
  pub href : Text
  pub download : Text

unfoldable pub qr_file : Env → Dom → Download
unfolding qr_url
qr_file env d = record { href = qr_url env d; download = codes "shortq-qr." ++ d.value "qrFormat" }

-- `downloadQR`, with the anchor that it clicks.
unfoldable pub download_qr : M (Option Download)
unfolding qr_file
download_qr env s =
    (if is_empty (qr_text s.dom)
        then (do no_qr_text; pure none)
        else pure (some (qr_file env s.dom)))
      env s

-- The address under a link and its button: whether it has the class `expanded`, the button's text
-- and its `aria-expanded`.
pub record UrlToggle : Type 0 where
  pub expanded : Bool
  pub label : Text
  pub aria : Bool

-- `toggleTargetURL`
unfoldable pub toggle_target_url : UrlToggle → UrlToggle
toggle_target_url t =
    let expanded = not t.expanded in
    record {
      expanded = expanded;
      label = if expanded then codes "Hide full URL" else codes "Show full URL";
      aria = expanded;
    }
