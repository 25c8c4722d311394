-- ===== src/Tests/Nettools.antt =====
-- A machine that answers from the third turn on, and a clock of a second for each turn.
use js_ng.Prelude.{
  ℕ, ◌+◌, ◌≡◌, refl, Bool, true, false, Option, none, some, ◌⊎◌, if◌then◌else◌, Str, str, ltb,
  starts, arith, ◌↔◌, nat_eq,
}
use js_ng.Prelude.Result.{ok, err, value_error}
use js_ng.Nettools.{wait_connection_test, ping_machine, check_ip_address}
use js_ng.Nettools.Waiting.{Answered, Pinged, wait_connection_test_lem, ping_machine_lem}

abbrev seconds : ℕ → ℕ
seconds k = 100 + k

abbrev from_third : ℕ → Bool
from_third k = ltb 1 k

abbrev dotted : Str → Option Str
dotted ip = if starts (str "10.") ip then some ip else none

waited : wait_connection_test seconds from_third 10 100 5 ≡ some true
unfolding wait_connection_test
waited = refl

waited_too_short : wait_connection_test seconds from_third 10 100 1 ≡ some false
unfolding wait_connection_test
waited_too_short = refl

wait_connection_test_example :
    (b : Bool) × (wait_connection_test seconds from_third 10 100 5 ≡ some b)
    × (b ≡ true ↔ Answered seconds from_third 105 0)
wait_connection_test_example =
    wait_connection_test_lem seconds from_third 10 6 100 5 refl (omega arith)

no_time : ping_machine seconds from_third dotted 10 100 (str "10.0.0.1") 0 false ≡ some (ok false)
unfolding ping_machine check_ip_address starts nat_eq
no_time = refl

ping_machine_example :
    (false ≡ false
      → dotted (str "10.0.0.1") ≡ none
      → ping_machine seconds from_third dotted 10 100 (str "10.0.0.1") 5 false
        ≡ some (err value_error))
    × ((false ≡ true) ⊎ ((a : Str) × (dotted (str "10.0.0.1") ≡ some a))
        → (b : Bool) × (ping_machine seconds from_third dotted 10 100 (str "10.0.0.1") 5 false
            ≡ some (ok b))
          × (b ≡ true ↔ Pinged seconds from_third 100 5))
ping_machine_example =
    ping_machine_lem dotted seconds from_third (str "10.0.0.1") false 10 5 100 5 refl (omega arith)
