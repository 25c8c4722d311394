-- ===== src/Tests/Logging.antt =====
-- A log in pages of two records, after five messages.
use js_ng.Prelude.{ℕ, suc, ◌+◌, ◌*◌, ◌≡◌, refl, true, some, List, [], ◌∷◌, arith, inr, nat_eq}
use js_ng.Prelude.Result.{ok}
use js_ng.Logging.{record_get, handle_all, new_log}
use js_ng.Logging.Kept.{IsKept, numbered, handle_all-new_log-IsKept}
use js_ng.Logging.Read.{record_get-handle_all, record_get_stale}

abbrev messages : List ℕ
messages = 10 ∷ 20 ∷ 30 ∷ 40 ∷ 50 ∷ []

handle_all-new_log-IsKept_example :
    IsKept 2 true (omega arith) (numbered 0 messages) (handle_all 2 true messages new_log)
handle_all-new_log-IsKept_example = handle_all-new_log-IsKept 2 true (omega arith) messages

record_get-handle_all_example :
    record_get 2 true (0 * 2 + suc 1) (handle_all 2 true messages new_log)
    ≡ ok (some (0 * 2 + suc 1, 20))
record_get-handle_all_example =
    record_get-handle_all 2 true (omega arith) messages 0 1 20 (omega arith) refl
      (inr (refl, omega arith))

record_get_stale_example :
    record_get 2 true (1 * 2 + suc 0) (handle_all 2 true messages new_log)
    ≡ ok (some (1 * 2 + 2 + suc 0, 50))
record_get_stale_example =
    record_get_stale 2 true (omega arith) messages 1 0 (omega arith) (omega arith) (omega arith)
