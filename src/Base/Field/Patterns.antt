-- ===== src/Base/Field/Patterns.antt =====
-- The patterns of the Email, Path and Tel fields (core/base/fields.py).
use js_ng.Prelude.{ℕ, ◌≡◌, refl, Bool, ◌&&◌, ◌||◌, not, leb, eqb, str}
use js_ng.Prelude.Result.{Result, ok, err, guard, type_error, validation_error}
use js_ng.Base.Value.{Value, text}
use js_ng.Text.{is_digit}
use js_ng.Text.Regex.{Regex, chars, cat, star, one_of, plus, optional, times, match_all}

is_letter : ℕ → Bool
is_letter c = leb b'a' c && leb c b'z' || leb b'A' c && leb c b'Z'

-- [a-zA-Z0-9._%+-]
is_local : ℕ → Bool
unfolding is_letter is_digit
is_local c =
    is_letter c || is_digit c || eqb c b'.' || eqb c b'_' || eqb c b'%' || eqb c b'+' || eqb c b'-'

-- [a-zA-Z0-9.-]
is_domain : ℕ → Bool
unfolding is_letter is_digit
is_domain c = is_letter c || is_digit c || eqb c b'.' || eqb c b'-'

-- ^[a-zA-Z0-9._%+-]+@[a-zA-Z0-9.-]+\.[a-zA-Z]{2,}$
unfoldable pub email_regex : Regex
unfolding is_local is_domain one_of plus times
email_regex = cat (plus (chars is_local)) (
    cat (one_of b'@') (
      cat (plus (chars is_domain))
        (cat (one_of b'.') (cat (times 2 (chars is_letter)) (star (chars is_letter))))))

-- ^(/[^/ ]*)+/?$
unfoldable pub path_regex : Regex
unfolding one_of plus optional
path_regex =
    cat (plus (cat (one_of b'/') (star (chars (λ c. not (eqb c b'/' || eqb c b' '))))))
      (optional (one_of b'/'))

-- ^\+?[0-9]{6,15}(?:x[0-9]+)?$
unfoldable pub tel_regex : Regex
unfolding one_of plus optional times is_digit
tel_regex = cat (optional (one_of b'+')) (
    cat (times 6 (chars is_digit)) (
      cat (times 9 (optional (chars is_digit)))
        (optional (cat (one_of b'x') (plus (chars is_digit))))))

-- `re` takes a text.
unfoldable pub validate_pattern : Regex → Value → Result (Unit {0})
unfolding match_all
validate_pattern r (text s) = guard (match_all r s) validation_error
validate_pattern r v = err type_error

email_accepts : validate_pattern email_regex (text (str "first.last@mail.example.org")) ≡ ok tt
unfolding validate_pattern email_regex
email_accepts = refl

email_rejects : validate_pattern email_regex (text (str "a@b.c")) ≡ err validation_error
unfolding validate_pattern email_regex
email_rejects = refl

tel_accepts : validate_pattern tel_regex (text (str "+0123456789x12")) ≡ ok tt
unfolding validate_pattern tel_regex
tel_accepts = refl

path_accepts : validate_pattern path_regex (text (str "/etc/hosts/")) ≡ ok tt
unfolding validate_pattern path_regex
path_accepts = refl
