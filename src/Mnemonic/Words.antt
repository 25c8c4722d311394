-- ===== src/Mnemonic/Words.antt =====
-- The words of a text of binary digits, and their numbers.
use mathlib.Core.Path.{ap₂}
use mathlib.Core.List.{append-nil}
use Prim.Native.Nat.{◌/◌, ◌%◌}
use js_ng.Prelude.{
  ℕ, zero, suc, ◌+◌, ◌*◌, ◌<◌, ◌≡◌, refl, ap, ◌∙◌, Bool, true, false, some, List, [], ◌∷◌, ◌++◌,
  arith, eqb, Str, length, take, drop, get_elem?, length-append, length-take, length-drop,
  take-append-drop,
}
use js_ng.Prelude.Result.{ok}
use js_ng.Text.{split, join}
use js_ng.Text.Split.{HasNo, AllHaveNo, split-join}
use js_ng.Mnemonic.{bits, to_bin, value, digit, int_of_bits, word_at, sentence, indexes}
use js_ng.Mnemonic.Bits.{power, value-append}
use js_ng.Mnemonic.Index.{IsIncreasing, word_index_lem}

module _ {A : Type 0} where
  -- The last element of a list that has one
  last_of : (x : A) (xs : List A) → (s : List A) × (b : A) × (x ∷ xs ≡ s ++ b ∷ [])
  last_of x [] = ([], x, refl)
  last_of x (y ∷ xs) = let (s, b, e) = last_of y xs in (x ∷ s, b, ap (λ t. x ∷ t) e)

length-bits : (k c : ℕ) → length (bits k c) ≡ k
unfolding bits
length-bits zero c = refl
length-bits (suc k) c =
    length-append (bits k (c / 2)) (eqb (c % 2) 1 ∷ []) ∙ omega (arith, length-bits k (c / 2))

pub length-bytes : (cs : List ℕ) → length (to_bin cs 8) ≡ length cs * 8
unfolding to_bin
length-bytes [] = omega arith
length-bytes (c ∷ cs) =
    length-append (bits 8 c) (to_bin cs 8) ∙ omega (arith, length-bits 8 c, length-bytes cs)

length-words : (cs : List ℕ) → length (to_bin cs 11) ≡ length cs * 11
unfolding to_bin
length-words [] = omega arith
length-words (c ∷ cs) =
    length-append (bits 11 c) (to_bin cs 11) ∙ omega (arith, length-bits 11 c, length-words cs)

digit_lem :
    (v : ℕ) (b : Bool)
    → ((v * 2 + digit b) / 2 ≡ v) × (eqb ((v * 2 + digit b) % 2) 1 ≡ b) × (digit b < 2)
unfolding digit
digit_lem v true = (omega arith, ground arith, omega arith)
digit_lem v false = (omega arith, ground arith, omega arith)

bits-last :
    (k : ℕ) (s : List Bool) (b : Bool)
    → bits k (value 0 s) ≡ s
    → bits (suc k) (value 0 (s ++ b ∷ [])) ≡ s ++ b ∷ []
bits-last k s b h =
    let (d, m, l) = digit_lem (value 0 s) b in
    ap (bits (suc k)) (value-append 0 s b) ∙ (unfold bits in rw (d, m, h) refl)

bits-value :
    (k : ℕ) (s : List Bool) → length s ≡ k → (bits k (value 0 s) ≡ s) × (value 0 s < power k)
bits-value zero [] h = unfold bits value in (refl, omega arith)
bits-value zero (x ∷ xs) h = absurd (omega (arith, h))
bits-value (suc k) [] h = absurd (omega (arith, h))
bits-value (suc k) (x ∷ xs) h =
    let (s, b, e) = last_of x xs in
    let short : length s ≡ k = omega (arith, h, ap length e, length-append s (b ∷ [])) in
    let (same, less) = bits-value k s short in
    let (d, m, l) = digit_lem (value 0 s) b in
    rw e (bits-last k s b same, rw (value-append 0 s b) (omega (arith, less, l)))

-- Numbers below the number of words
abbrev pub AllBelow : ℕ → List ℕ → Type 0
AllBelow n [] = Unit
AllBelow n (i ∷ is) = (i < n) × AllBelow n is

unfoldable pub words_of : List Str → List ℕ → List Str
words_of ws [] = []
words_of ws (i ∷ is) = word_at i ws ∷ words_of ws is

unfoldable pub spaced : List Str → Str
spaced [] = []
spaced (w ∷ ws) = b' ' ∷ w ++ spaced ws

get_elem-word_at : (i : ℕ) (ws : List Str) → i < length ws → get_elem? ws i ≡ some (word_at i ws)
unfolding word_at
get_elem-word_at i [] h = absurd (omega (arith, h))
get_elem-word_at zero (w ∷ ws) h = refl
get_elem-word_at (suc i) (w ∷ ws) h = get_elem-word_at i ws (omega (arith, h))

read_bits : (n : ℕ) (s : List Bool) → length s ≡ suc n → int_of_bits s ≡ ok (value 0 s)
unfolding int_of_bits
read_bits n [] h = absurd (omega (arith, h))
read_bits n (b ∷ s) h = refl

-- The words of a text of digits, by their numbers, which have these digits.
pub sentence_lem :
    (n : ℕ) (ws : List Str) (s : List Bool)
    → length ws ≡ 2048
    → length s ≡ n * 11
    → (is : List ℕ) × (length is ≡ n)
      × AllBelow 2048 is
      × (to_bin is 11 ≡ s)
      × (sentence ws n s ≡ ok (spaced (words_of ws is)))
unfolding to_bin sentence words_of spaced
sentence_lem zero ws [] h k = ([], refl, tt, refl, refl)
sentence_lem zero ws (b ∷ s) h k = absurd (omega (arith, k))
sentence_lem (suc n) ws s h k =
    let len : length (take 11 s) ≡ 11 = length-take 11 s (omega (arith, k)) in
    let (same, less) = bits-value 11 (take 11 s) len in
    let i = value 0 (take 11 s) in
    let less' : i < 2048 = less in
    let (is, m, below, digits, e) =
      sentence_lem n ws (drop 11 s) h (omega (arith, length-drop 11 s, k)) in
    (
      i ∷ is,
      omega (arith, m),
      (less', below),
      ap₂ (λ xs ys. xs ++ ys) same digits ∙ take-append-drop 11 s,
      rw (read_bits 10 (take 11 s) len, get_elem-word_at i ws (omega (arith, less', h)), e) refl,
    )

drop-spaced : (w : Str) (ws : List Str) → drop 1 (spaced (w ∷ ws)) ≡ join b' ' (w ∷ ws)
unfolding spaced join
drop-spaced w [] = append-nil w
drop-spaced w (v ∷ ws) = ap (λ t. w ++ b' ' ∷ t) (drop-spaced v ws)

-- No word has a space.
abbrev pub AreWords : List Str → Type 0
AreWords ws = (i : ℕ) → i < length ws → HasNo b' ' (word_at i ws)

words_of-AllHaveNo :
    (ws : List Str) (is : List ℕ)
    → AreWords ws
    → AllBelow (length ws) is
    → AllHaveNo b' ' (words_of ws is)
unfolding words_of
words_of-AllHaveNo ws [] h b = tt
words_of-AllHaveNo ws (i ∷ is) h b = (h i b.0, words_of-AllHaveNo ws is h b.1)

indexes-words_of :
    (ws : List Str) (is : List ℕ)
    → IsIncreasing ws
    → AllBelow (length ws) is
    → indexes ws (words_of ws is) ≡ is
unfolding indexes words_of
indexes-words_of ws [] h b = refl
indexes-words_of ws (i ∷ is) h b =
    ap₂ (λ x xs. x ∷ xs) (word_index_lem i ws h b.0) (indexes-words_of ws is h b.1)

-- The words are found in the text, and their numbers.
pub split-spaced :
    (ws : List Str) (is : List ℕ)
    → IsIncreasing ws
    → AreWords ws
    → AllBelow (length ws) is
    → 0 < length is
    → indexes ws (split b' ' (drop 1 (spaced (words_of ws is)))) ≡ is
unfolding words_of
split-spaced ws [] inc plain below h = absurd (omega (arith, h))
split-spaced ws (i ∷ is) inc plain below h =
    ap (λ s. indexes ws (split b' ' s)) (drop-spaced (word_at i ws) (words_of ws is))
    ∙ ap (indexes ws) (
        split-join b' ' (word_at i ws) (words_of ws is) (plain i below.0)
          (words_of-AllHaveNo ws is plain below.1))
    ∙ indexes-words_of ws (i ∷ is) inc below
