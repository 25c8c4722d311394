-- ===== src/Text/Decimal.antt =====
-- str(n) of a number, and the number that digits spell.
use js_ng.Prelude.{
  ℤ, pos, negsuc, str, ℕ, zero, suc, ◌+◌, ◌-◌, ◌*◌, ◌/◌, ◌%◌, ◌<◌, ◌≤◌, length, ◌≡◌, refl, Bool,
  true, false, ◌&&◌, Option, none, some, [], ◌∷◌, ltb, if◌then◌else◌, Str, arith, Bool-cases, inl,
  inr,
}
use js_ng.Text.{is_digit}

-- The digits of n before the given text, on fuel: n has fewer digits than n + 1.
unfoldable pub digits_before : ℕ → ℕ → Str → Str
digits_before zero n s = s
digits_before (suc f) n s =
    let more = digits_before f (n / 10) ((48 + n % 10) ∷ s) in
    if ltb n 10 then (48 + n % 10) ∷ s else more

-- str(n)
unfoldable pub decimal : ℕ → Str
unfolding digits_before
decimal n = digits_before (suc n) n []

-- str(i)
unfoldable pub show : ℤ → Str
unfolding decimal
show (pos n) = decimal n
show (negsuc n) = b'-' ∷ decimal (suc n)

-- str(b)
unfoldable pub show_bool : Bool → Str
show_bool true = str "True"
show_bool false = str "False"

-- The number that digits spell, behind those read so far
unfoldable pub number_from : ℕ → Str → Option ℕ
unfolding is_digit
number_from n [] = some n
number_from n (c ∷ s) =
    let more = number_from (n * 10 + (c - 48)) s in if is_digit c then more else none

last_digit : (n : ℕ) → is_digit (48 + n % 10) ≡ true
unfolding is_digit
last_digit n = ground arith

number_from-digits_before :
    (f n : ℕ) (s : Str) → n < f → number_from 0 (digits_before f n s) ≡ number_from n s
unfolding digits_before number_from
number_from-digits_before zero n s h = absurd (omega arith)
number_from-digits_before (suc f) n s h = elim (Bool-cases (ltb n 10)) [
  | inl e ↦ ground (arith, e, last_digit n)
  | inr e ↦
      let rest = number_from-digits_before f (n / 10) ((48 + n % 10) ∷ s) (ground (arith, e)) in
      ground (arith, e, rest, last_digit n)
]

pub number_from-decimal : (n : ℕ) → number_from 0 (decimal n) ≡ some n
unfolding decimal number_from
number_from-decimal n = number_from-digits_before (suc n) n [] (omega arith)

unfoldable pub is_digits : Str → Bool
unfolding is_digit
is_digits [] = true
is_digits (c ∷ s) = is_digit c && is_digits s

is_digits-digits_before : (f n : ℕ) (s : Str) → is_digits (digits_before f n s) ≡ is_digits s
unfolding digits_before is_digits
is_digits-digits_before zero n s = refl
is_digits-digits_before (suc f) n s =
    ground (arith, is_digits-digits_before f (n / 10) ((48 + n % 10) ∷ s), last_digit n)

pub is_digits-decimal : (n : ℕ) → is_digits (decimal n) ≡ true
unfolding decimal is_digits
is_digits-decimal n = is_digits-digits_before (suc n) n []

length-digits_before : (f n : ℕ) (s : Str) → length s ≤ length (digits_before f n s)
unfolding digits_before
length-digits_before zero n s = omega arith
length-digits_before (suc f) n s =
    ground (arith, length-digits_before f (n / 10) ((48 + n % 10) ∷ s))

pub decimal_nonempty : (n : ℕ) → 0 < length (decimal n)
unfolding decimal digits_before
decimal_nonempty n = ground (arith, length-digits_before n (n / 10) ((48 + n % 10) ∷ []))
