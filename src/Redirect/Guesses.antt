-- ===== src/Redirect/Guesses.antt =====
-- How many passwords can be tried for one link from one address.
use shortq.Prelude.{
  ℕ, suc, ◌+◌, ◌%◌, ◌≤◌, ◌≡◌, refl, sym, ap, ◌∙◌, arith, List, [], ◌∷◌, ◌++◌, Text, Bool, true,
  false, not, ◌&&◌, ◌==◌, ltb, leb, if◌then◌else◌, is_empty, length, text_eq, text_eq_iff,
  text_eq_refl, if-holds, Bool-cases, inl, inr,
}
use mathlib.Core.Path.{subst}
use shortq.Redirect.Attempts.{
  AttemptLog, Moment, recent, set_times, prune_attempts, too_many_pruned, too_many_attempts,
  add_attempt, clear_attempts, PasswordAnswer, too_many, wrong, answer_password, post_password,
}

recent_one :
    (now t : ℕ) (ts : List ℕ)
    → recent now (t ∷ ts) ≡ (if ltb now (t + 900) then t ∷ recent now ts else recent now ts)
unfolding recent
recent_one now t ts = refl

-- What is recent later was recent before.
recent-recent :
    (now later : ℕ) (ts : List ℕ) → now ≤ later → recent later (recent now ts) ≡ recent later ts
unfolding recent
recent-recent now later [] after = refl
recent-recent now later (t ∷ ts) after = elim (Bool-cases (ltb now (t + 900))) [
  | inl fresh ↦ rw (fresh, recent-recent now later ts after) refl
  | inr old ↦
      let older : ltb later (t + 900) ≡ false = ground arith in
      rw (old, older) (recent-recent now later ts after)
]

recent-append : (now : ℕ) (ts us : List ℕ) → recent now (ts ++ us) ≡ recent now ts ++ recent now us
unfolding recent
recent-append now [] us = refl
recent-append now (t ∷ ts) us = elim (Bool-cases (ltb now (t + 900))) [
  | inl fresh ↦ rw (fresh, recent-append now ts us) refl
  | inr old ↦ rw (old, recent-append now ts us) refl
]

length-recent : (now : ℕ) (ts : List ℕ) → length (recent now ts) ≤ length ts
unfolding recent
length-recent now [] = omega arith
length-recent now (t ∷ ts) = elim (Bool-cases (ltb now (t + 900))) [
  | inl fresh ↦ rw fresh (omega (arith, length-recent now ts))
  | inr old ↦ rw old (omega (arith, length-recent now ts))
]

length_append : (ts : List ℕ) (t : ℕ) → length (ts ++ t ∷ []) ≡ suc (length ts)
length_append [] t = refl
length_append (u ∷ ts) t = ap suc (length_append ts t)

-- The kept times agree with those of all wrong passwords on what is recent from now on.
abbrev Follows : ℕ → List ℕ → List ℕ → Type 0
Follows now wrongs kept = (later : ℕ) → now ≤ later → recent later wrongs ≡ recent later kept

Follows-recent :
    (now m : ℕ) (wrongs kept : List ℕ)
    → now ≤ m
    → Follows now wrongs kept
    → Follows m wrongs (recent m kept)
Follows-recent now m wrongs kept before follows later after =
    follows later (omega arith) ∙ sym (recent-recent m later kept after)

Follows-append :
    (now m : ℕ) (wrongs kept : List ℕ)
    → now ≤ m
    → Follows now wrongs kept
    → Follows m (wrongs ++ m ∷ []) (kept ++ m ∷ [])
Follows-append now m wrongs kept before follows later after =
    recent-append later wrongs (m ∷ [])
    ∙ ap (λ ts. ts ++ recent later (m ∷ [])) (follows later (omega arith))
    ∙ sym (recent-append later kept (m ∷ []))

-- At most so many times are kept, and they are those of the wrong passwords as far as these count.
record IsTracked (now : ℕ) (wrongs kept : List ℕ) (most : ℕ) : Type 0 where
  follows : Follows now wrongs kept
  few : length kept ≤ most

pruned-IsTracked :
    (k : Text) (m : Moment) (now : ℕ) (wrongs : List ℕ) (a : AttemptLog)
    → now ≤ m.now
    → IsTracked now wrongs (a.times k) 5
    → IsTracked m.now wrongs ((prune_attempts m a).times k) 5
unfolding prune_attempts
pruned-IsTracked k m now wrongs a before tracked =
    if-holds (λ (b : AttemptLog). IsTracked m.now wrongs (b.times k) 5)
      (not (a.ops % 256 == 0) && ltb m.size 10_000)
      (λ kept. record {
        follows = λ later after. tracked.follows later (omega arith);
        few = tracked.few;
      })
      (λ pruned. record {
        follows = Follows-recent now m.now wrongs (a.times k) before tracked.follows;
        few = omega (arith, length-recent m.now (a.times k), tracked.few);
      })

-- A password that is sent: when, for which key, and whether it is right.
pub record Post : Type 0 where
  pub moment : Moment
  pub key : Text
  pub right : Bool

abbrev is_wrong : PasswordAnswer → Bool
is_wrong wrong = true
is_wrong _ = false

-- The times of the wrong passwords for a key that were looked at.
abbrev note_wrong : Text → Post → PasswordAnswer → List ℕ → List ℕ
note_wrong k p answer wrongs =
    if is_wrong answer && text_eq k p.key then wrongs ++ p.moment.now ∷ [] else wrongs

unfoldable pub post_all : Text → List Post → List ℕ × AttemptLog → List ℕ × AttemptLog
unfolding post_password
post_all k [] (wrongs, a) = (wrongs, a)
post_all k (p ∷ ps) (wrongs, a) = post_all k ps (
  note_wrong k p ((post_password p.moment p.key p.right a).0) wrongs,
  (post_password p.moment p.key p.right a).1,
)

module _ (k : Text) (p : Post) (wrongs : List ℕ) (a : AttemptLog)
    (not_right : (text_eq k p.key && p.right) ≡ false)
    (tracked : IsTracked p.moment.now wrongs (a.times k) 5) where
  abbrev Tracks : PasswordAnswer × AttemptLog → Type 0
  Tracks r = IsTracked p.moment.now (note_wrong k p (r.0) wrongs) ((r.1).times k) 5

  abbrev kept : List ℕ
  kept = recent p.moment.now (a.times p.key)

  same_key-IsTracked : text_eq k p.key ≡ true → IsTracked p.moment.now wrongs (a.times p.key) 5
  same_key-IsTracked same =
      subst (λ j. IsTracked p.moment.now wrongs (a.times j) 5) ((text_eq_iff k p.key).0 same)
        tracked

  abbrev after_recent : AttemptLog
  after_recent = set_times p.key kept a

  refused-Tracks : Tracks (too_many, after_recent)
  refused-Tracks =
      if-holds (λ (ts : List ℕ). IsTracked p.moment.now wrongs ts 5) (text_eq k p.key)
        (λ same. record {
          follows =
              Follows-recent p.moment.now p.moment.now wrongs (a.times p.key) (omega arith)
                (same_key-IsTracked same).follows;
          few =
              omega
                (arith, length-recent p.moment.now (a.times p.key), (same_key-IsTracked same).few);
        })
        (λ other. tracked)

  answer_password-Tracks :
      (full right : Bool)
      → leb 5 (length kept) ≡ full
      → (text_eq k p.key && right) ≡ false
      → Tracks (answer_password p.moment p.key right (full, after_recent))
  unfolding answer_password clear_attempts add_attempt
  answer_password-Tracks true right count wrong_one = refused-Tracks
  answer_password-Tracks false true count wrong_one =
      let other : text_eq k p.key ≡ false = and_true (text_eq k p.key) wrong_one in rw other tracked
    where
      and_true : (b : Bool) → (b && true) ≡ false → b ≡ false
      and_true true h = cc
      and_true false h = refl
  answer_password-Tracks false false count wrong_one = elim (Bool-cases (text_eq k p.key)) [
    | inl same ↦
        rw (same, text_eq_refl p.key)
          (record {
            follows = Follows-append p.moment.now p.moment.now wrongs kept (omega arith) (
                Follows-recent p.moment.now p.moment.now wrongs (a.times p.key) (omega arith)
                  (same_key-IsTracked same).follows);
            few = omega (arith, length_append kept p.moment.now, small);
          })
    | inr other ↦ rw other tracked
  ]
    where
      small : suc (length kept) ≤ 5
      small = ground (arith, count)

  too_many_pruned-Tracks :
      Tracks (answer_password p.moment p.key p.right (too_many_pruned p.moment p.key a))
  unfolding too_many_pruned answer_password
  too_many_pruned-Tracks =
      if-holds (λ (x : Bool × AttemptLog). Tracks (answer_password p.moment p.key p.right x))
        (leb 100_000 p.moment.pruned_size && is_empty (a.times p.key)) (λ big. tracked)
        (λ room. answer_password-Tracks (leb 5 (length kept)) p.right refl not_right)

-- Times do not go back, and no password for the key is right.
unfoldable pub AreGuesses : Text → ℕ → List Post → Type 0
AreGuesses k now [] = Unit {0}
AreGuesses k now (p ∷ ps) =
    (now ≤ p.moment.now) × ((text_eq k p.key && p.right) ≡ false) × AreGuesses k p.moment.now ps

-- The time of the last post.
unfoldable pub last_time : ℕ → List Post → ℕ
last_time now [] = now
last_time now (p ∷ ps) = last_time p.moment.now ps

post_all-IsTracked :
    (k : Text) (ps : List Post) (now : ℕ) (wrongs : List ℕ) (a : AttemptLog)
    → AreGuesses k now ps
    → IsTracked now wrongs (a.times k) 5
    → IsTracked
        (last_time now ps)
        ((post_all k ps (wrongs, a)).0)
        ((post_all k ps (wrongs, a)).1.times k)
        5
unfolding post_all AreGuesses last_time post_password too_many_attempts
post_all-IsTracked k [] now wrongs a guesses tracked = tracked
post_all-IsTracked k (p ∷ ps) now wrongs a guesses tracked =
    let counted_one = record a { ops = suc a.ops } in
    let pruned = pruned-IsTracked k p.moment now wrongs counted_one (guesses.0) tracked in
    post_all-IsTracked k ps p.moment.now _ _ (guesses.2)
      (too_many_pruned-Tracks k p wrongs (prune_attempts p.moment counted_one) (guesses.1) pruned)

-- From no attempts on, of the passwords for one key that are looked at one after the other, at most
-- five lie in the 15 minutes before the last post, whatever is sent for other keys and however often
-- the map is pruned, if none for the key is right.
pub post_all-few :
    (k : Text) (ps : List Post)
    → AreGuesses k 0 ps
    → length
        (recent (last_time 0 ps) ((post_all k ps ([], record { times = λ key. []; ops = 0 })).0))
      ≤ 5
post_all-few k ps guesses =
    let start : AttemptLog = record { times = λ key. []; ops = 0 } in
    let tracked =
      post_all-IsTracked k ps 0 [] start guesses
        (record { follows = λ later after. refl; few = omega arith }) in
    let now = last_time 0 ps in
    let same = tracked.follows now (omega arith) in
    omega (
      arith,
      ap length same,
      length-recent now ((post_all k ps ([], start)).1.times k),
      tracked.few,
    )
