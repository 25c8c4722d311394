-- ===== src/Mnemonic/RoundTrip.antt =====
-- A key that was turned into words comes back.
use mathlib.Core.Path.{subst, ap₂}
use Prim.Native.Nat.{◌/◌}
use js_ng.Prelude.{
  ℕ, zero, suc, ◌+◌, ◌*◌, ◌≤◌, ◌≡◌, refl, sym, Bool, true, false, List, [], ◌∷◌, ◌++◌, arith, Str,
  length, take, drop, length-append, take-append, drop-append, take_all, length-take,
}
use js_ng.Prelude.Result.{ok}
use js_ng.Text.{split}
use js_ng.Mnemonic.{
  to_bin, sentence, indexes, bytes_of, same_bits, key_to_mnemonic, verify_checksum, mnemonic_to_key,
}
use js_ng.Mnemonic.Bits.{value-bits}
use js_ng.Mnemonic.Index.{IsIncreasing}
use js_ng.Mnemonic.Words.{
  AllBelow, words_of, spaced, AreWords, length-bytes, sentence_lem, split-spaced,
}

bytes_of-to_bin :
    (n : ℕ) (key : List ℕ) → AllBelow 256 key → length key ≤ n → bytes_of n (to_bin key 8) ≡ key
unfolding bytes_of to_bin
bytes_of-to_bin zero [] h k = refl
bytes_of-to_bin zero (c ∷ cs) h k = absurd (omega (arith, k))
bytes_of-to_bin (suc n) [] h k = refl
bytes_of-to_bin (suc n) (c ∷ cs) h k =
    ap₂ (λ x xs. x ∷ xs) (value-bits 8 c h.0) (bytes_of-to_bin n cs h.1 (omega (arith, k)))

same_bits_refl : (s : List Bool) → same_bits s s ≡ true
unfolding same_bits
same_bits_refl [] = refl
same_bits_refl (true ∷ s) = same_bits_refl s
same_bits_refl (false ∷ s) = same_bits_refl s

-- A key with its checksum of four digits for each sixteen bytes of it
module _ (sha256 : List ℕ → List ℕ) (key : List ℕ) (m : ℕ) (sized : length key ≡ 4 * m) where
  abbrev checksum : List Bool
  checksum = take m (to_bin (sha256 key) 8)

  checksum_length : length key * 8 / 32 ≡ m
  checksum_length = omega (arith, sized)

  key_to_mnemonic_lem :
      (ws words : List Str)
      → length checksum ≡ m
      → sentence ws (m * 3) (to_bin key 8 ++ checksum) ≡ ok (spaced words)
      → key_to_mnemonic sha256 key ws ≡ ok (drop 1 (spaced words))
  unfolding key_to_mnemonic
  key_to_mnemonic_lem ws words c h =
      let long : length (to_bin key 8 ++ checksum) ≡ length key * 8 + m =
        omega (arith, length-append (to_bin key 8) checksum, length-bytes key, c) in
      let all : take (length key * 8 + m) (to_bin key 8 ++ checksum) ≡ to_bin key 8 ++ checksum =
        take_all (to_bin key 8 ++ checksum) (length key * 8 + m) (omega (arith, long)) in
      let count : (length key * 8 + m) / 11 ≡ m * 3 = omega (arith, sized) in
      rw (checksum_length, count, all, h) refl

  mnemonic_to_key_lem :
      (s : Str) (ws : List Str) (is : List ℕ)
      → AllBelow 256 key
      → length is ≡ m * 3
      → indexes ws (split b' ' s) ≡ is
      → to_bin is 11 ≡ to_bin key 8 ++ checksum
      → mnemonic_to_key sha256 s ws ≡ ok key
  unfolding mnemonic_to_key verify_checksum
  mnemonic_to_key_lem s ws is bytes len found digits =
      let strength : length is * 11 * 32 / 33 ≡ length key * 8 = omega (arith, len, sized) in
      let front : take (length key * 8) (to_bin key 8 ++ checksum) ≡ to_bin key 8 =
        take-append (to_bin key 8) checksum (length key * 8) (sym (length-bytes key)) in
      let back : drop (length key * 8) (to_bin key 8 ++ checksum) ≡ checksum =
        drop-append (to_bin key 8) checksum (length key * 8) (sym (length-bytes key)) in
      let decoded : bytes_of (length (to_bin key 8)) (to_bin key 8) ≡ key =
        bytes_of-to_bin (length (to_bin key 8)) key bytes (omega (arith, length-bytes key)) in
      rw (found, strength, digits, front, back, decoded, checksum_length, same_bits_refl checksum)
        refl

-- A key of four bytes or more, their number a multiple of four and at most 2048, becomes a mnemonic
-- without an exception, and the mnemonic becomes the key again: with 2048 words in increasing order
-- that have no space in them, and a digest of 64 characters.
pub mnemonic_to_key-key_to_mnemonic :
    (sha256 : List ℕ → List ℕ) (key : List ℕ) (ws : List Str) (m : ℕ)
    → AllBelow 256 key
    → length key ≡ 4 * suc m
    → suc m ≤ 512
    → length (sha256 key) ≡ 64
    → length ws ≡ 2048
    → IsIncreasing ws
    → AreWords ws
    → (s : Str) × (key_to_mnemonic sha256 key ws ≡ ok s) × (mnemonic_to_key sha256 s ws ≡ ok key)
mnemonic_to_key-key_to_mnemonic sha256 key ws m bytes sized short digest many inc plain =
    let c = take (suc m) (to_bin (sha256 key) 8) in
    let len_c : length c ≡ suc m =
      length-take (suc m) (to_bin (sha256 key) 8)
        (omega (arith, length-bytes (sha256 key), digest, short)) in
    let (is, len, below, digits, e) =
      sentence_lem (suc m * 3) ws (to_bin key 8 ++ c) many
        (omega (arith, length-append (to_bin key 8) c, length-bytes key, len_c, sized)) in
    let below' = subst (λ n. AllBelow n is) (sym many) below in
    (
      drop 1 (spaced (words_of ws is)),
      key_to_mnemonic_lem sha256 key (suc m) sized ws (words_of ws is) len_c e,
      mnemonic_to_key_lem sha256 key (suc m) sized (drop 1 (spaced (words_of ws is))) ws is bytes
          len (split-spaced ws is inc plain below' (omega (arith, len))) digits,
    )
