-- ===== src/Types/Patterns.antt =====
-- data/types/types.py: the types whose check is a regular expression. Their from_str returns the text.
use js_ng.Prelude.{ℕ, Bool, true, false, ◌&&◌, ◌||◌, not, leb, eqb, [], ◌∷◌, Str, str, ◌≡◌, refl}
use js_ng.Text.{is_digit, is_space, remove_char}
use js_ng.Text.Regex.{
  Regex, empty, chars, cat, alt, star, one_of, optional, times, match_all, search_in,
}
use js_ng.Base.Field.Patterns.{email_regex, path_regex, tel_regex}

-- A text that stands for itself
unfoldable pub literal : Str → Regex
unfolding one_of
literal [] = empty
literal (c ∷ s) = cat (one_of c) (literal s)

-- A character from a range
unfoldable pub between : ℕ → ℕ → Regex
between a b = chars (λ c. leb a c && leb c b)

-- ^(https?|ftp)://[^\s/$.?#].[^\s]*$
unfoldable pub url_regex : Regex
unfolding literal one_of optional is_space
url_regex = cat (alt (cat (literal (str "http")) (optional (one_of b's'))) (literal (str "ftp"))) (
    cat (literal (str "://")) (
      cat
        (chars (λ c.
          not (is_space c || eqb c b'/' || eqb c b'$' || eqb c b'.' || eqb c b'?' || eqb c b'#')))
        (cat (chars (λ c. not (eqb c 10))) (star (chars (λ c. not (is_space c)))))))

-- [0-9]{4}-(0[1-9]|1[0-2])-(0[1-9]|[1-2][0-9]|3[0-1])
unfoldable pub date_regex : Regex
unfolding between one_of times is_digit
date_regex = cat (times 4 (chars is_digit)) (
    cat (one_of b'-') (
      cat (alt (cat (one_of b'0') (between b'1' b'9')) (cat (one_of b'1') (between b'0' b'2'))) (
        cat (one_of b'-') (
          alt (cat (one_of b'0') (between b'1' b'9')) (
            alt (cat (between b'1' b'2') (chars is_digit))
              (cat (one_of b'3') (between b'0' b'1')))))))

-- (2[0-3]|[01][0-9]):[0-5][0-9]
unfoldable pub time_regex : Regex
unfolding between one_of is_digit
time_regex =
    cat (alt (cat (one_of b'2') (between b'0' b'3')) (cat (between b'0' b'1') (chars is_digit)))
      (cat (one_of b':') (cat (between b'0' b'5') (chars is_digit)))

-- \d{1,2}, and so many of a unit: (\d{1,2}y\s?)?
unfoldable pub one_or_two : Regex
unfolding optional is_digit
one_or_two = cat (chars is_digit) (optional (chars is_digit))

unfoldable pub some_of : ℕ → Regex
unfolding one_or_two optional one_of is_space
some_of unit = optional (cat one_or_two (cat (one_of unit) (optional (chars is_space))))

unfoldable pub duration_regex : Regex
unfolding some_of one_or_two
duration_regex =
    alt
      (cat (some_of b'y') (
        cat (some_of b'm')
          (cat (some_of b'd') (cat (some_of b'h') (cat (some_of b'm') (some_of b's'))))))
      one_or_two

-- Tel._clean
unfoldable pub clean : Str → Str
unfolding remove_char
clean s =
    remove_char b' ' (remove_char b')' (remove_char b'(' (remove_char b'-' (remove_char b',' s))))

-- The methods check; \d is a digit of ASCII.
unfoldable pub check_email : Str → Bool
unfolding match_all email_regex
check_email s = match_all email_regex s

unfoldable pub check_path : Str → Bool
unfolding match_all path_regex
check_path s = match_all path_regex s

unfoldable pub check_url : Str → Bool
unfolding match_all url_regex
check_url s = match_all url_regex s

unfoldable pub check_tel : Str → Bool
unfolding match_all tel_regex clean
check_tel s = match_all tel_regex (clean s)

unfoldable pub check_datetime : Str → Bool
unfolding match_all date_regex time_regex one_of
check_datetime s = match_all (cat date_regex (cat (one_of b' ') time_regex)) s

unfoldable pub check_date : Str → Bool
unfolding search_in date_regex
check_date s = search_in date_regex s

unfoldable pub check_time : Str → Bool
unfolding search_in time_regex
check_time s = search_in time_regex s

unfoldable pub check_duration : Str → Bool
unfolding search_in duration_regex
check_duration s = search_in duration_regex s

date_within : check_date (str "on 2019-12-31.") ≡ true
unfolding check_date
date_within = refl

no_datetime : check_datetime (str "2019-12-31 24:00") ≡ false
unfolding check_datetime
no_datetime = refl

no_duration : check_duration (str "tomorrow") ≡ true
unfolding check_duration
no_duration = refl

url_accepts : check_url (str "https://js-ng.org/x") ≡ true
unfolding check_url
url_accepts = refl
