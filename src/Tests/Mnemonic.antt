-- ===== src/Tests/Mnemonic.antt =====
-- A list of two words.
use js_ng.Prelude.{
  ℕ, zero, suc, ◌+◌, ◌<◌, ◌≡◌, refl, List, [], ◌∷◌, Str, str, arith, length, replicate, leb, ap,
  ◌∙◌,
}
use js_ng.Prelude.Result.{ok}
use js_ng.Mnemonic.{word_at, text_le, key_to_mnemonic, mnemonic_to_key}
use js_ng.Mnemonic.RoundTrip.{mnemonic_to_key-key_to_mnemonic}
use js_ng.Mnemonic.Words.{AreWords}
use js_ng.Text.Split.{HasNo}
use js_ng.Mnemonic.Index.{IsIncreasing}

abbrev two_words : List Str
two_words = str "abandon" ∷ str "ability" ∷ []

two_words-IsIncreasing : IsIncreasing two_words
unfolding text_le word_at
two_words-IsIncreasing zero zero h k = refl
two_words-IsIncreasing zero (suc zero) h k = refl
two_words-IsIncreasing (suc zero) zero h k = refl
two_words-IsIncreasing (suc zero) (suc zero) h k = refl
two_words-IsIncreasing (suc (suc i)) j h k = absurd (omega (arith, h))
two_words-IsIncreasing zero (suc (suc j)) h k = absurd (omega (arith, k))
two_words-IsIncreasing (suc zero) (suc (suc j)) h k = absurd (omega (arith, k))

-- The words a, aa, and so on, so many of them.
unfoldable ladder : ℕ → ℕ → List Str
ladder zero k = []
ladder (suc n) k = replicate k b'a' ∷ ladder n (suc k)

length-ladder : (n k : ℕ) → length (ladder n k) ≡ n
unfolding ladder
length-ladder zero k = refl
length-ladder (suc n) k = ap suc (length-ladder n (suc k))

word_at-ladder : (i n k : ℕ) → i < n → word_at i (ladder n k) ≡ replicate (k + i) b'a'
unfolding ladder word_at
word_at-ladder i zero k h = absurd (omega (arith, h))
word_at-ladder zero (suc n) k h = ap (λ j. replicate j b'a') (omega arith)
word_at-ladder (suc i) (suc n) k h =
    word_at-ladder i n (suc k) (omega (arith, h)) ∙ ap (λ j. replicate j b'a') (omega arith)

text_le-replicate : (i j : ℕ) → text_le (replicate i b'a') (replicate j b'a') ≡ leb i j
unfolding text_le
text_le-replicate zero j = ground arith
text_le-replicate (suc i) zero = ground arith
text_le-replicate (suc i) (suc j) = text_le-replicate i j ∙ ground arith

leb-add : (k i j : ℕ) → leb (k + i) (k + j) ≡ leb i j
leb-add k i j = ground arith

replicate-HasNo : (i : ℕ) → HasNo b' ' (replicate i b'a')
replicate-HasNo zero = tt
replicate-HasNo (suc i) = (refl, replicate-HasNo i)

abbrev words : List Str
words = ladder 2048 1

words-IsIncreasing : IsIncreasing words
words-IsIncreasing i j h k =
    rw
      (
        word_at-ladder i 2048 1 (omega (arith, h, length-ladder 2048 1)),
        word_at-ladder j 2048 1 (omega (arith, k, length-ladder 2048 1)),
      )
      (text_le-replicate (1 + i) (1 + j) ∙ leb-add 1 i j)

words-AreWords : AreWords words
words-AreWords i h =
    rw (word_at-ladder i 2048 1 (omega (arith, h, length-ladder 2048 1))) (replicate-HasNo (1 + i))

abbrev sha256 : List ℕ → List ℕ
sha256 key = replicate 64 b'7'

abbrev key : List ℕ
key = 1 ∷ 0 ∷ 200 ∷ 255 ∷ []

mnemonic_to_key_example :
    (s : Str) × (key_to_mnemonic sha256 key words ≡ ok s)
    × (mnemonic_to_key sha256 s words ≡ ok key)
mnemonic_to_key_example =
    mnemonic_to_key-key_to_mnemonic sha256 key words 0
      (omega arith, (omega arith, (omega arith, (omega arith, tt)))) refl (omega arith) refl
      (length-ladder 2048 1) words-IsIncreasing words-AreWords
