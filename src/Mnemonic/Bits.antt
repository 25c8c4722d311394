-- ===== src/Mnemonic/Bits.antt =====
-- Numbers as binary digits.
use js_ng.Prelude.{
  ℕ, zero, suc, ◌+◌, ◌*◌, ◌<◌, ◌≡◌, refl, ap, ◌∙◌, Bool, List, [], ◌∷◌, ◌++◌, arith, eqb,
}
use mathlib.Core.List.{append-nil}
use Prim.Native.Nat.{◌/◌, ◌%◌}
use js_ng.Prelude.Result.{ok}
use js_ng.Mnemonic.{to_bin, bits, value, int_of_bits, digit}

abbrev pub power : ℕ → ℕ
power zero = 1
power (suc k) = 2 * power k

pub value-append :
    (acc : ℕ) (xs : List Bool) (b : Bool) → value acc (xs ++ b ∷ []) ≡ value acc xs * 2 + digit b
unfolding value
value-append acc [] b = refl
value-append acc (x ∷ xs) b = value-append (acc * 2 + digit x) xs b

digit-eqb : (c : ℕ) → digit (eqb (c % 2) 1) ≡ c % 2
unfolding digit
digit-eqb c = ground arith

half : (c k : ℕ) → c < power (suc k) → c / 2 < power k
half c k h = omega (arith, h)

pub value-bits : (k c : ℕ) → c < power k → value 0 (bits k c) ≡ c
unfolding bits
value-bits zero c h = unfold value in omega (arith, h)
value-bits (suc k) c h =
    value-append 0 (bits k (c / 2)) (eqb (c % 2) 1)
    ∙ rw (value-bits k (c / 2) (half c k h), digit-eqb c) (omega arith)

-- Digits that are there are read.
read :
    (s : List Bool) (n : ℕ) (b : Bool)
    → int_of_bits ((s ++ b ∷ []) ++ []) ≡ ok (value 0 (s ++ b ∷ []))
unfolding int_of_bits
read [] n b = refl
read (x ∷ s) n b = ap (λ t. ok (value 0 (x ∷ t))) (append-nil (s ++ b ∷ []))

-- Reading the digits that a number was written with, one at least, gives the number, if they are
-- enough for it: to_bin of one number and int of base 2 are inverse.
pub int_of_bits-to_bin :
    (k c : ℕ) → c < power (suc k) → int_of_bits (to_bin (c ∷ []) (suc k)) ≡ ok c
unfolding to_bin bits
int_of_bits-to_bin k c h =
    read (bits k (c / 2)) c (eqb (c % 2) 1) ∙ ap (λ n. ok n) (value-bits (suc k) c h)
