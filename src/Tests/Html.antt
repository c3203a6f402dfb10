-- ===== src/Tests/Html.antt =====
-- Tests of escaping.
use shortq.Prelude.{◌∷◌, ◌++◌, ◌≡◌, refl, codes}
use shortq.Html.{esc}
use shortq.Html.Decode.{read_until, read_until-esc, plain, Place, delimiter}

esc_all_four : esc (codes "a<b>&\"") ≡ codes "a&lt;b&gt;&amp;&quot;"
unfolding esc
esc_all_four = refl

read_until-esc_example :
    read_until
      (delimiter Place.attribute)
      plain
      (esc (codes "a\"<b") ++ delimiter Place.attribute ∷ codes ">")
    ≡ (codes "a\"<b", delimiter Place.attribute ∷ codes ">")
read_until-esc_example = read_until-esc Place.attribute (codes "a\"<b") (codes ">")
