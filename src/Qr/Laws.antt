-- ===== src/Qr/Laws.antt =====
-- What the QR card shows and what it saves.
use shortq.Prelude.{◌++◌, ◌≡◌, refl, ℕ, Text, codes, Bool, true, false, text_eq, is_empty, some}
use shortq.State.{App, Link}
use shortq.State.Monad.{Env, ok}
use shortq.Links.Tags.{trim}
use shortq.Qr.{
  known_link, qr_of, qr_for_link, make_qr, show_image, download_qr, qr_file, qr_url, UrlToggle,
  toggle_target_url,
}

-- For a link that one of the two listings holds, with an address that is not blank, in a format
-- that is not `pdf`, the card shows the code of that link's short address, and what is saved then
-- is the image at the address shown, without the time stamp that keeps it from being cached.
pub qr_for_link-download_qr :
    (id : ℕ) (env : Env) (s : App) (x : Link)
    → known_link id s ≡ some x
    → is_empty (trim x.short_url) ≡ false
    → text_eq (s.dom.value "qrFormat") (codes "pdf") ≡ false
    → ((download_qr env (qr_for_link id env s).1).0
        ≡ ok (some (qr_file env (qr_for_link id env s).1.dom)))
      × ((qr_for_link id env s).1.dom.value "qrText" ≡ x.short_url)
      × ((qr_for_link id env s).1.dom.value "qrImg.src"
          ≡ (qr_file env (qr_for_link id env s).1.dom).href ++ (codes "&_=" ++ env.now))
      × ((qr_for_link id env s).1.sent ≡ s.sent)
unfolding qr_for_link qr_of make_qr show_image download_qr qr_file qr_url
qr_for_link-download_qr id env s x known some_text image =
    rw (known, some_text, image) (rw some_text refl, refl, refl, refl)

of_class :
    (expanded : Bool) (label : Text) (aria : Bool)
    → let t : UrlToggle = record { expanded = expanded; label = label; aria = aria } in
      toggle_target_url (toggle_target_url (toggle_target_url t)) ≡ toggle_target_url t
unfolding toggle_target_url
of_class true label aria = refl
of_class false label aria = refl

-- Pressing the button under a link's address twice more shows what one press has shown: the class,
-- the button's text and its `aria-expanded` go together.
pub toggle_target_url-twice :
    (t : UrlToggle)
    → toggle_target_url (toggle_target_url (toggle_target_url t)) ≡ toggle_target_url t
toggle_target_url-twice t = of_class t.expanded t.label t.aria
