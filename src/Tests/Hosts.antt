-- ===== src/Tests/Hosts.antt =====
-- A hosts file of two entries.
use js_ng.Prelude.{◌≡◌, refl, [], ◌∷◌, Str, str, str_eq}
use js_ng.Prelude.Dict.{Dict, lookup}
use js_ng.Prelude.Result.{ok}
use js_ng.Hosts.{parse, write, get_hostname, is_line_end, address_regex}
use js_ng.Hosts.RoundTrip.{get_hostname-parse-write}
use js_ng.Text.Regex.{search_in}
use js_ng.Text.{is_digit}

abbrev hosts : Dict Str Str
hosts = (str "10.0.0.1", str "a") ∷ (str "10.0.0.2", str "bc") ∷ []

get_hostname-parse-write_example :
    (d : Dict Str Str) × (parse (write hosts) ≡ ok d)
    × ((ip : Str) → get_hostname ip d ≡ get_hostname ip hosts)
unfolding is_line_end search_in address_regex is_digit lookup str_eq
get_hostname-parse-write_example =
    get_hostname-parse-write hosts
      (
        (refl, (refl, (refl, (refl, (refl, (refl, (refl, (refl, tt)))))))),
        (refl, tt),
        (refl, (refl, (refl, (refl, (refl, (refl, (refl, (refl, (refl, (refl, tt)))))))))),
        refl,
        (
          (refl, (refl, (refl, (refl, (refl, (refl, (refl, (refl, tt)))))))),
          (refl, (refl, tt)),
          (
            refl,
            (refl, (refl, (refl, (refl, (refl, (refl, (refl, (refl, (refl, (refl, tt)))))))))),
          ),
          refl,
          tt,
        ),
      )
      (refl, (refl, tt))
