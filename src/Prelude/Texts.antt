-- ===== src/Prelude/Texts.antt =====
-- JavaScript strings as lists of code units, with the string and array functions that the
-- dashboard calls.
use Prim.Native.Nat.{ℕ, zero, suc, ◌+◌, ◌-◌}
use Prim.Native.Char.{code}
use Prim.Native.String.{String}
use mathlib.Core.Path.{◌≡◌, refl}
use mathlib.Core.Logic.{◌↔◌}
use mathlib.Core.Bool.{Bool, true, false, ◌&&◌, ◌||◌}
use mathlib.Core.List.{List, [], ◌∷◌, ◌++◌}
use native.Mathlib.Omega.{arith}
use shortq.Prelude.Tests.{leb, ◌==◌, if◌then◌else◌}

abbrev pub Text : Type 0
Text = List ℕ

-- The code units of a literal. Every literal of the source is in the basic plane.
abbrev pub codes : String → Text
codes String.[] = []
codes (String.◌∷◌ c s) = code c ∷ codes s

-- `===` on strings.
unfoldable pub text_eq : Text → Text → Bool
text_eq [] [] = true
text_eq (a ∷ s) (b ∷ t) = a == b && text_eq s t
text_eq _ _ = false

pub text_eq_iff : (s t : Text) → (text_eq s t ≡ true) ↔ (s ≡ t)
unfolding text_eq
text_eq_iff [] [] = ground arith
text_eq_iff [] (b ∷ t) = ground arith
text_eq_iff (a ∷ s) [] = ground arith
text_eq_iff (a ∷ s) (b ∷ t) = ground (arith, text_eq_iff s t)

pub text_eq_refl : (s : Text) → text_eq s s ≡ true
text_eq_refl s = (text_eq_iff s s).1 refl

-- Whether a string is falsy.
abbrev pub is_empty {ℓ} : {A : Type ℓ} → List A → Bool
is_empty [] = true
is_empty (_ ∷ _) = false

-- `s || t` on strings.
abbrev pub or_text : Text → Text → Text
or_text [] t = t
or_text (a ∷ s) t = a ∷ s

-- `xs.includes(t)` on an array of strings, and `has` of a set of strings.
unfoldable pub includes : List Text → Text → Bool
includes [] t = false
includes (s ∷ xs) t = text_eq s t || includes xs t

-- `s.split(sep)` for a separator of one code unit: never an empty array.
unfoldable pub split_from : Text → ℕ → Text → List Text
split_from word sep [] = word ∷ []
split_from word sep (c ∷ s) =
    let closed = word ∷ split_from [] sep s in
    let longer = split_from (word ++ c ∷ []) sep s in if c == sep then closed else longer

unfoldable pub split : ℕ → Text → List Text
unfolding split_from
split sep s = split_from [] sep s

-- ASCII letters only: the source folds the case of matched ASCII text alone.
unfoldable pub lower : ℕ → ℕ
lower c = if leb b'A' c && leb c b'Z' then c + 32 else c

unfoldable pub upper : ℕ → ℕ
upper c = if leb b'a' c && leb c b'z' then c - 32 else c

unfoldable pub starts_with : Text → Text → Bool
starts_with [] t = true
starts_with (a ∷ s) [] = false
starts_with (a ∷ s) (b ∷ t) = a == b && starts_with s t

-- `t.includes(s)` on strings, the part `s` first.
unfoldable pub occurs_in : Text → Text → Bool
unfolding starts_with
occurs_in s [] = starts_with s []
occurs_in s (b ∷ t) = starts_with s (b ∷ t) || occurs_in s t

unfoldable pub flatten : List Text → Text
flatten [] = []
flatten (s ∷ xs) = s ++ flatten xs

module _ {ℓ} {A : Type ℓ} where
  abbrev pub length : List A → ℕ
  length [] = 0
  length (_ ∷ xs) = suc (length xs)

  abbrev pub take : ℕ → List A → List A
  take zero xs = []
  take (suc n) [] = []
  take (suc n) (x ∷ xs) = x ∷ take n xs

  abbrev pub drop : ℕ → List A → List A
  drop zero xs = xs
  drop (suc n) [] = []
  drop (suc n) (x ∷ xs) = drop n xs
