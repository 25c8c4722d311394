-- ===== src/Gedis/Lines.antt =====
-- Lines, numbers and texts of the protocol: reading what was written.
use js_ng.Prelude.{
  ℕ, suc, ◌<◌, ◌≡◌, refl, Bool, true, false, ◌&&◌, some, [], ◌∷◌, ◌++◌, str_eq, nat_eq, contains,
  ltb, length, Str, ℤ, pos, negsuc, arith, take-append, drop-append,
}
use js_ng.Text.{is_digit}
use js_ng.Text.Decimal.{
  show, number_from, decimal, is_digits, is_digits-decimal, decimal_nonempty, number_from-decimal,
}
use js_ng.Text.Utf8.{utf8}
use js_ng.Gedis.{newline}
use js_ng.Gedis.Resp.{read_line, read_number, read_string}

unfoldable pub is_ascii : Str → Bool
is_ascii [] = true
is_ascii (c ∷ s) = ltb c 128 && is_ascii s

pub is_ascii-append : (s t : Str) → is_ascii (s ++ t) ≡ (is_ascii s && is_ascii t)
unfolding is_ascii
is_ascii-append [] t = refl
is_ascii-append (c ∷ s) t = ground (arith, is_ascii-append s t)

pub utf8_ascii : (s : Str) → is_ascii s ≡ true → utf8 s ≡ s
unfolding is_ascii utf8
utf8_ascii [] h = refl
utf8_ascii (c ∷ s) h = ground (arith, utf8_ascii s)

pub digits_ascii : (s : Str) → is_digits s ≡ true → is_ascii s ≡ true
unfolding is_ascii is_digits is_digit
digits_ascii [] h = refl
digits_ascii (c ∷ s) h = ground (arith, digits_ascii s)

pub digits_line : (s : Str) → is_digits s ≡ true → contains s 10 ≡ false
unfolding contains is_digits is_digit nat_eq
digits_line [] h = refl
digits_line (c ∷ s) h = ground (arith, digits_line s)

-- A line without a line feed in it is read to its end.
pub read_line_whole :
    (s rest : Str) → contains s 10 ≡ false → read_line (s ++ (newline ++ rest)) ≡ some (s, rest)
unfolding read_line contains nat_eq
read_line_whole [] rest h = refl
read_line_whole (c ∷ []) rest h = ground arith
read_line_whole (c ∷ d ∷ s) rest h = ground (arith, read_line_whole (d ∷ s) rest)

read_number_digits :
    (s : Str) (n : ℕ)
    → is_digits s ≡ true
    → 0 < length s
    → number_from 0 s ≡ some n
    → read_number s ≡ some (pos n)
unfolding read_number is_digits is_digit
read_number_digits [] n digits some_digit h = absurd (omega arith)
read_number_digits (c ∷ s) n digits some_digit h = ground (arith, h)

pub read_number-decimal : (n : ℕ) → read_number (decimal n) ≡ some (pos n)
read_number-decimal n =
    read_number_digits (decimal n) n (is_digits-decimal n) (decimal_nonempty n)
      (number_from-decimal n)

pub read_number-show : (i : ℤ) → read_number (show i) ≡ some i
unfolding show
read_number-show (pos n) = read_number-decimal n
read_number-show (negsuc n) = unfold read_number in rw (number_from-decimal (suc n)) refl

pub read_string_whole :
    (s rest : Str) → read_string (length s) (s ++ (newline ++ rest)) ≡ some (s, rest)
unfolding read_string
read_string_whole s rest = ground (
  arith,
  drop-append s (newline ++ rest) (length s) refl,
  take-append s (newline ++ rest) (length s) refl,
)
