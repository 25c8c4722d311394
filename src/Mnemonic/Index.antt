-- ===== src/Mnemonic/Index.antt =====
-- The binary search finds every word of an increasing list.
use js_ng.Prelude.{
  ℕ, zero, suc, ◌+◌, ◌-◌, ◌≤◌, ◌<◌, ◌≡◌, refl, ap, ◌∙◌, true, false, List, arith, if◌then◌else◌,
  ltb, leb, Str, length, Bool-cases, inl, inr,
}
use Prim.Native.Nat.{◌/◌}
use js_ng.Mnemonic.{text_le, word_at, narrow, search_word, word_index}

-- The words are in increasing order.
abbrev pub IsIncreasing : List Str → Type 0
IsIncreasing ws =
    (i j : ℕ) → i < length ws → j < length ws → text_le (word_at i ws) (word_at j ws) ≡ leb i j

middle : (lo hi i : ℕ) → lo < hi → i ≤ hi → (lo ≤ (lo + hi) / 2) × ((lo + hi) / 2 < hi)
middle lo hi i h k = (omega (arith, h), omega (arith, h))

-- A turn keeps the half that has the word.
narrow_lem :
    (i lo hi : ℕ) (ws : List Str)
    → IsIncreasing ws
    → i < length ws
    → (lo + hi) / 2 < length ws
    → narrow (word_at i ws) ws (lo, hi)
      ≡ (if leb i ((lo + hi) / 2) then (lo, (lo + hi) / 2) else ((lo + hi) / 2 + 1, hi))
unfolding narrow
narrow_lem i lo hi ws inc a b = rw (inc i ((lo + hi) / 2) a b) refl

turn :
    (n lo hi : ℕ) (word : Str) (ws : List Str)
    → lo < hi
    → search_word (suc n) word ws (lo, hi) ≡ search_word n word ws (narrow word ws (lo, hi))
unfolding search_word
turn n lo hi word ws h = ground (arith, h)

last_turn :
    (n lo hi : ℕ) (word : Str) (ws : List Str) → hi ≤ lo → search_word (suc n) word ws (lo, hi) ≡ lo
unfolding search_word
last_turn n lo hi word ws h = ground (arith, h)

ltb_lt : (a b : ℕ) → ltb a b ≡ true → a < b
ltb_lt a b h = ground arith

ltb_ge : (a b : ℕ) → ltb a b ≡ false → b ≤ a
ltb_ge a b h = ground arith

leb_le : (a b : ℕ) → leb a b ≡ true → a ≤ b
leb_le a b h = ground arith

leb_gt : (a b : ℕ) → leb a b ≡ false → b < a
leb_gt a b h = ground arith

search_word_lem :
    (n i lo hi : ℕ) (ws : List Str)
    → IsIncreasing ws
    → lo ≤ i
    → i ≤ hi
    → hi < length ws
    → hi - lo ≤ n
    → search_word n (word_at i ws) ws (lo, hi) ≡ i
search_word_lem zero i lo hi ws inc a b c d = unfold search_word in omega (arith, a, b, d)
search_word_lem (suc n) i lo hi ws inc a b c d = elim (Bool-cases (ltb lo hi)) [
  | inl e ↦
      let less = ltb_lt lo hi e in
      let (m1, m2) = middle lo hi i less b in
      turn n lo hi (word_at i ws) ws less
      ∙ ap (λ r. search_word n (word_at i ws) ws r)
          (narrow_lem i lo hi ws inc (omega (arith, b, c)) (omega (arith, m2, c)))
      ∙ elim (Bool-cases (leb i ((lo + hi) / 2))) [
        | inl f ↦ rw f (
            search_word_lem n i lo ((lo + hi) / 2) ws inc a (leb_le i ((lo + hi) / 2) f)
              (omega (arith, m2, c)) (omega (arith, m1, m2, d)))
        | inr f ↦
            let more = leb_gt i ((lo + hi) / 2) f in
            rw f (
              search_word_lem n i ((lo + hi) / 2 + 1) hi ws inc (omega (arith, more)) b c
                (omega (arith, m1, m2, d)))
      ]
  | inr e ↦
      let done = ltb_ge lo hi e in
      last_turn n lo hi (word_at i ws) ws done ∙ omega (arith, a, b, done)
]

-- In a list of words in increasing order, the index of every word of the list is found.
pub word_index_lem :
    (i : ℕ) (ws : List Str) → IsIncreasing ws → i < length ws → word_index (word_at i ws) ws ≡ i
unfolding word_index
word_index_lem i ws inc h =
    search_word_lem (length ws) i 0 (length ws - 1) ws inc (omega arith) (omega (arith, h))
      (omega (arith, h)) (omega arith)
