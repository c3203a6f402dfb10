-- ===== src/Links/Tags.antt =====
-- web/app.js, `trim` and the text of a link's tags: `editLink` joins the tags, and
-- `linkPayloadFromForm` takes the text apart.
use shortq.Prelude.{
  ℕ, List, [], ◌∷◌, ◌++◌, map, ◌≡◌, refl, ◌∙◌, ap, Text, Bool, true, false, not, ◌&&◌, ◌||◌, ◌==◌,
  leb, is_empty, if◌then◌else◌, split, split_from, split_from-no_sep, split_from-append, all,
  Bool-cases, inl, inr,
}

-- The white space that `trim` removes.
abbrev pub is_space : ℕ → Bool
is_space c =
    leb 9 c && leb c 13
    || c == 32
    || c == 160
    || c == 5760
    || leb 8192 c && leb c 8202
    || c == 8232
    || c == 8233
    || c == 8239
    || c == 8287
    || c == 12288
    || c == 65279

trim_start : Text → Text
trim_start [] = []
trim_start (c ∷ s) = let rest = trim_start s in if is_space c then rest else c ∷ s

trim_end : Text → Text
trim_end [] = []
trim_end (c ∷ s) = let rest = trim_end s in if is_empty rest && is_space c then [] else c ∷ rest

-- `s.trim()`
unfoldable pub trim : Text → Text
unfolding trim_start trim_end
trim s = trim_end (trim_start s)

-- `.filter(Boolean)`
unfoldable pub non_empty : List Text → List Text
non_empty [] = []
non_empty (t ∷ ts) = let rest = non_empty ts in if is_empty t then rest else t ∷ rest

-- `raw.tags ? raw.tags.split(';').map(x => x.trim()).filter(Boolean) : []`
unfoldable pub parse_tags : Text → List Text
unfolding split trim non_empty
parse_tags t = if is_empty t then [] else non_empty (map trim (split b';' t))

-- `tags.join('; ')`
unfoldable pub join_tags : List Text → Text
join_tags [] = []
join_tags (t ∷ []) = t
join_tags (t ∷ u ∷ ts) = t ++ (b';' ∷ b' ' ∷ join_tags (u ∷ ts))

-- A tag that the form can hold: not empty, without a semicolon, and without white space around.
pub record IsTag (t : Text) : Type 0 where
  pub some_text : is_empty t ≡ false
  pub one_word : all (λ c. not (c == b';')) t ≡ true
  pub trimmed : trim t ≡ t

abbrev pub AreTags : List Text → Type 0
AreTags [] = Unit {0}
AreTags (t ∷ ts) = IsTag t × AreTags ts

-- A blank in front of a text goes with the first word.
blank_word :
    (word t : Text) → map trim (split_from (b' ' ∷ word) b';' t) ≡ map trim (split_from word b';' t)
unfolding split_from trim
blank_word word [] = refl
blank_word word (c ∷ t) = elim (Bool-cases (c == b';')) [
  | inl same ↦ rw same refl
  | inr other ↦ rw other (blank_word (word ++ c ∷ []) t)
]

-- The words of a text.
words : Text → List Text
unfolding split
words t = non_empty (map trim (split b';' t))

one : (t : Text) → IsTag t → words t ≡ t ∷ []
unfolding words split non_empty
one t tag = rw (split_from-no_sep [] b';' t tag.one_word, tag.trimmed, tag.some_text) refl

first : (t rest : Text) → IsTag t → words (t ++ (b';' ∷ b' ' ∷ rest)) ≡ t ∷ words rest
unfolding words split non_empty
first t rest tag =
    rw (split_from-append [] b';' t (b' ' ∷ rest) tag.one_word, tag.trimmed, tag.some_text)
      (ap (λ ts. t ∷ non_empty ts) (blank_word [] rest))

tags_of_words : (t : Text) → parse_tags t ≡ words t
unfolding parse_tags words split split_from trim non_empty
tags_of_words [] = refl
tags_of_words (c ∷ t) = refl

words_joined : (ts : List Text) → AreTags ts → words (join_tags ts) ≡ ts
unfolding join_tags words split split_from trim non_empty
words_joined [] tags = refl
words_joined (t ∷ []) (tag, rest) = one t tag
words_joined (t ∷ u ∷ ts) (tag, rest) =
    first t (join_tags (u ∷ ts)) tag ∙ ap (λ vs. t ∷ vs) (words_joined (u ∷ ts) rest)

-- The tags that the editor joins are those that it takes apart again, for tags that are not
-- empty, have no semicolon and no white space around.
pub parse_tags-join_tags : (ts : List Text) → AreTags ts → parse_tags (join_tags ts) ≡ ts
parse_tags-join_tags ts tags = tags_of_words (join_tags ts) ∙ words_joined ts tags
