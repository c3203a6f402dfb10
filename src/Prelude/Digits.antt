-- ===== src/Prelude/Digits.antt =====
-- `String(n)` of a natural number, and the number that a decimal string stands for.
use Prim.Native.Nat.{ℕ, zero, suc, ◌+◌, ◌-◌, ◌*◌, ◌/◌, ◌%◌, ◌<◌}
use mathlib.Core.Path.{◌≡◌, refl, ◌∙◌, ap}
use mathlib.Core.Logic.{◌≢◌}
use mathlib.Core.Bool.{Bool, true, false, ◌&&◌}
use mathlib.Core.List.{[], ◌∷◌, ◌++◌}
use mathlib.Core.Logic.{inl, inr}
use native.Mathlib.Omega.{arith}
use shortq.Prelude.Tests.{ltb, leb, if◌then◌else◌, Bool-cases}
use shortq.Prelude.Texts.{Text, is_empty}

-- The digits of `n` in front of `rest`; the fuel `suc n` is enough.
show_from : ℕ → ℕ → Text → Text
show_from zero n rest = rest
show_from (suc fuel) n rest =
    let more = show_from fuel (n / 10) ((48 + n % 10) ∷ rest) in
    if ltb n 10 then (48 + n % 10) ∷ rest else more

unfoldable pub show_ℕ : ℕ → Text
unfolding show_from
show_ℕ n = show_from (suc n) n []

value_from : ℕ → Text → ℕ
value_from acc [] = acc
value_from acc (c ∷ s) = value_from (acc * 10 + (c - 48)) s

unfoldable pub value : Text → ℕ
unfolding value_from
value s = value_from 0 s

value_from-show_from :
    (fuel n : ℕ) (rest : Text) → n < fuel → value_from 0 (show_from fuel n rest) ≡ value_from n rest
unfolding show_from value_from
value_from-show_from zero n rest h = elim h [ ]
value_from-show_from (suc fuel) n rest h = elim (Bool-cases (ltb n 10)) [
  | inl small ↦ rw small (ap (λ a. value_from a rest) (ground arith))
  | inr big ↦ rw big (
      value_from-show_from fuel (n / 10) ((48 + n % 10) ∷ rest) (ground arith)
      ∙ ap (λ a. value_from a rest) (omega arith))
]

-- Reading a printed number gives the number.
pub value-show_ℕ : (n : ℕ) → value (show_ℕ n) ≡ n
unfolding value show_ℕ value_from
value-show_ℕ n = value_from-show_from (suc n) n [] (omega arith)

abbrev pub is_digit : ℕ → Bool
is_digit c = leb b'0' c && leb c b'9'

-- Every code unit of a text passes a test.
unfoldable pub all : (ℕ → Bool) → Text → Bool
all p [] = true
all p (c ∷ s) = p c && all p s

show_from-all :
    (fuel n : ℕ) (rest : Text)
    → all is_digit rest ≡ true
    → all is_digit (show_from fuel n rest) ≡ true
unfolding show_from all
show_from-all zero n rest h = h
show_from-all (suc fuel) n rest h =
    ground (arith, show_from-all fuel (n / 10) ((48 + n % 10) ∷ rest) (ground arith))

pub show_ℕ-all_digits : (n : ℕ) → all is_digit (show_ℕ n) ≡ true
unfolding show_ℕ all
show_ℕ-all_digits n = show_from-all (suc n) n [] refl

show_from-ne-nil : (fuel n : ℕ) (rest : Text) → n < fuel → show_from fuel n rest ≢ []
unfolding show_from
show_from-ne-nil zero n rest h = elim h [ ]
show_from-ne-nil (suc fuel) n rest h =
    ground (arith, show_from-ne-nil fuel (n / 10) ((48 + n % 10) ∷ rest))

pub show_ℕ-ne-nil : (n : ℕ) → show_ℕ n ≢ []
unfolding show_ℕ
show_ℕ-ne-nil n = show_from-ne-nil (suc n) n [] (omega arith)

pub is_empty-false : (t : Text) → t ≢ [] → is_empty t ≡ false
is_empty-false [] ne = absurd (ne refl)
is_empty-false (c ∷ s) ne = refl

pub is_empty-show_ℕ : (n : ℕ) → is_empty (show_ℕ n) ≡ false
is_empty-show_ℕ n = is_empty-false (show_ℕ n) (show_ℕ-ne-nil n)

pub all-weaken :
    (p q : ℕ → Bool) (s : Text)
    → ((c : ℕ) → p c ≡ true → q c ≡ true)
    → all p s ≡ true
    → all q s ≡ true
unfolding all
all-weaken p q [] w h = refl
all-weaken p q (c ∷ s) w h = ground (arith, w c, all-weaken p q s w)

pub all-append :
    (p : ℕ → Bool) (s t : Text) → all p s ≡ true → all p t ≡ true → all p (s ++ t) ≡ true
unfolding all
all-append p [] t h k = k
all-append p (c ∷ s) t h k = ground (arith, all-append p s t)
