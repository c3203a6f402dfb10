-- ===== src/Prelude/Splits.antt =====
-- What `split` makes of a text without its separator, and of a text up to the first one.
use Prim.Native.Nat.{ℕ}
use mathlib.Core.Path.{◌≡◌}
use mathlib.Core.Bool.{true, false, not}
use mathlib.Core.List.{[], ◌∷◌, ◌++◌, append_assoc, append-nil}
use native.Mathlib.Omega.{arith}
use shortq.Prelude.Tests.{◌==◌}
use shortq.Prelude.Texts.{Text, split_from}
use shortq.Prelude.Digits.{all}

pub split_from-no_sep :
    (word : Text) (sep : ℕ) (s : Text)
    → all (λ c. not (c == sep)) s ≡ true
    → split_from word sep s ≡ (word ++ s) ∷ []
unfolding split_from all
split_from-no_sep word sep [] h = rw append-nil
split_from-no_sep word sep (c ∷ s) h =
    let other : (c == sep) ≡ false = ground arith in
    rw (other, split_from-no_sep (word ++ c ∷ []) sep s (ground arith), append_assoc)

pub split_from-append :
    (word : Text) (sep : ℕ) (a b : Text)
    → all (λ c. not (c == sep)) a ≡ true
    → split_from word sep (a ++ (sep ∷ b)) ≡ (word ++ a) ∷ split_from [] sep b
unfolding split_from all
split_from-append word sep [] b h =
    let same : (sep == sep) ≡ true = ground arith in rw (same, append-nil)
split_from-append word sep (c ∷ a) b h =
    let other : (c == sep) ≡ false = ground arith in
    rw (other, split_from-append (word ++ c ∷ []) sep a b (ground arith), append_assoc)
