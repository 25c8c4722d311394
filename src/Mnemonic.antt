-- ===== src/Mnemonic.antt =====
-- data/encryption/mnemonic.py: keys as sequences of words.
pub mod Index
pub mod Bits
pub mod Words
pub mod RoundTrip
use js_ng.Prelude.{
  ℕ, zero, suc, ◌+◌, ◌-◌, ◌*◌, Bool, true, false, not, ◌&&◌, ◌||◌, Option, none, some, List, [],
  ◌∷◌, ◌++◌, ◌==◌, Eq, if◌then◌else◌, ltb, leb, eqb, Str, length, take, drop, get_elem?,
}
use Prim.Native.Nat.{◌/◌, ◌%◌}
use js_ng.Prelude.Result.{
  Result, ok, err, guard, ◌>>=◌, ◌>>◌, value_error, index_error, failed_checksum_error,
}
use js_ng.Text.{split}

-- The last k binary digits of a number, behind enough zeros; `true` stands for "1".
unfoldable pub bits : ℕ → ℕ → List Bool
bits zero c = []
bits (suc k) c = bits k (c / 2) ++ eqb (c % 2) 1 ∷ []

-- to_bin
unfoldable pub to_bin : List ℕ → ℕ → List Bool
unfolding bits
to_bin [] k = []
to_bin (c ∷ cs) k = bits k c ++ to_bin cs k

unfoldable pub digit : Bool → ℕ
digit b = if b then 1 else 0

unfoldable pub value : ℕ → List Bool → ℕ
unfolding digit
value acc [] = acc
value acc (b ∷ bs) = value (acc * 2 + digit b) bs

-- int(s, 2)
unfoldable pub int_of_bits : List Bool → Result ℕ
unfolding value
int_of_bits [] = err value_error
int_of_bits (b ∷ bs) = ok (value 0 (b ∷ bs))

-- `word <= other`, for texts
unfoldable pub text_le : Str → Str → Bool
text_le [] t = true
text_le (c ∷ s) [] = false
text_le (c ∷ s) (d ∷ t) = ltb c d || eqb c d && text_le s t

-- A word that the loop of _word_index compares with; it stays in the list.
unfoldable pub word_at : ℕ → List Str → Str
word_at i wordlist = elim (get_elem? wordlist i) [ none ↦ [] | some w ↦ w ]

-- One turn of the loop
unfoldable pub narrow : Str → List Str → ℕ × ℕ → ℕ × ℕ
unfolding text_le word_at
narrow word wordlist (lo, hi) =
    let mid = (lo + hi) / 2 in
    if text_le word (word_at mid wordlist) then (lo, mid) else (mid + 1, hi)

-- The loop, on fuel: the interval has no more turns than it is long.
unfoldable pub search_word : ℕ → Str → List Str → ℕ × ℕ → ℕ
unfolding narrow
search_word zero word wordlist r = r.0
search_word (suc n) word wordlist r =
    let rest = search_word n word wordlist (narrow word wordlist r) in
    if ltb r.0 r.1 then rest else r.0

-- _word_index
unfoldable pub word_index : Str → List Str → ℕ
unfolding search_word
word_index word wordlist = search_word (length wordlist) word wordlist (0, length wordlist - 1)

-- The loop of key_to_mnemonic, of so many words from here.
unfoldable pub sentence : List Str → ℕ → List Bool → Result Str
unfolding int_of_bits
sentence wordlist zero s = ok []
sentence wordlist (suc n) s = do
  i ← int_of_bits (take 11 s)
  word ← elim (get_elem? wordlist i) [ none ↦ err index_error | some w ↦ ok w ]
  rest ← sentence wordlist n (drop 11 s)
  ok (b' ' ∷ word ++ rest)

unfoldable pub indexes : List Str → List Str → List ℕ
unfolding word_index
indexes wordlist [] = []
indexes wordlist (w ∷ ws) = word_index w wordlist ∷ indexes wordlist ws

-- The bytes of mnemonic_to_key, eight digits each; the fuel is the number of digits.
unfoldable pub bytes_of : ℕ → List Bool → List ℕ
unfolding value
bytes_of zero s = []
bytes_of (suc n) s =
    let rest = bytes_of n (drop 8 s) in
    elim s [ [] ↦ [] | b ∷ bs ↦ value 0 (take 8 (b ∷ bs)) ∷ rest ]

unfoldable pub same_bits : List Bool → List Bool → Bool
same_bits [] [] = true
same_bits [] (c ∷ t) = false
same_bits (b ∷ s) [] = false
same_bits (b ∷ s) (c ∷ t) = (if b then c else not c) && same_bits s t

-- `sha256` is the hexadecimal digest of hashlib, in bytes.
module _ (sha256 : List ℕ → List ℕ) where
  unfoldable pub key_to_mnemonic : List ℕ → List Str → Result Str
  unfolding to_bin sentence
  key_to_mnemonic key wordlist =
      let checksum_length = length key * 8 / 32 in
      let total_length = length key * 8 + checksum_length in
      let binary_string =
        take total_length (to_bin key 8 ++ take checksum_length (to_bin (sha256 key) 8)) in
      do s ← sentence wordlist (total_length / 11) binary_string; ok (drop 1 s)

  -- _verify_checksum
  unfoldable pub verify_checksum : List ℕ → List Bool → Bool
  unfolding to_bin same_bits
  verify_checksum key checksum =
      same_bits (take (length key * 8 / 32) (to_bin (sha256 key) 8)) checksum

  unfoldable pub mnemonic_to_key : Str → List Str → Result (List ℕ)
  unfolding indexes bytes_of verify_checksum
  mnemonic_to_key mnemonic wordlist =
      let found = indexes wordlist (split b' ' mnemonic) in
      let strength = length found * 11 * 32 / 33 in
      let binary_string = to_bin found 11 in
      let decrypted =
        bytes_of (length (take strength binary_string)) (take strength binary_string) in
      do
        guard (verify_checksum decrypted (drop strength binary_string)) failed_checksum_error
        ok decrypted
