-- ===== src/Startup/Wait.antt =====
-- How long the loop of _wait runs, and what it gives.
use js_ng.Prelude.{
  ℕ, zero, suc, ◌+◌, ◌<◌, ◌≡◌, ap, ◌∙◌, Bool, true, false, some, ltb, leb, if◌then◌else◌, arith,
  Bool-cases, inl, inr,
}
use js_ng.Prelude.Result.{Result, ok, err, timeout_error}
use js_ng.Startup.{System, StartupCmd, State, reset, same_bool, is_running, wait_loop, wait}

module _ {W : Type 0} (system : System W) (cmd : StartupCmd) where
  -- What is found does not depend on what was found before.
  pub is_running_same :
      (s t : State) (w : W) → (is_running system cmd s w).0 ≡ (is_running system cmd t w).0
  unfolding is_running
  is_running_same s t w = ground arith

  module _ (now : ℕ → ℕ) (world : ℕ → W) (end : ℕ) (for_running : Bool) where
    -- One turn
    wait_loop_step :
        (fuel k : ℕ) (s : State)
        → (ltb (now k) end ≡ false
            → wait_loop system cmd now world (suc fuel) end for_running k s ≡ some (false, k, s))
          × (ltb (now k) end ≡ true
              → same_bool (is_running system cmd s (world k)).0 for_running ≡ true
              → wait_loop system cmd now world (suc fuel) end for_running k s
                ≡ some (true, k, (is_running system cmd s (world k)).1))
          × (ltb (now k) end ≡ true
              → same_bool (is_running system cmd s (world k)).0 for_running ≡ false
              → wait_loop system cmd now world (suc fuel) end for_running k s
                ≡ wait_loop system cmd now world fuel end for_running
                    (suc k)
                    (is_running system cmd s (world k)).1)
    unfolding wait_loop
    wait_loop_step fuel k s =
        (λ a. ground (arith, a), λ a b. ground (arith, a, b), λ a b. ground (arith, a, b))

    later : (k m : ℕ) → leb end (now (k + suc m)) ≡ true → leb end (now (suc k + m)) ≡ true
    later k m h = ap (λ j. leb end (now j)) (omega arith) ∙ h

    wait_loop_ends :
        (fuel m k : ℕ) (s : State)
        → leb end (now (k + m)) ≡ true
        → m < fuel
        → (r : Bool × ℕ × State) × (wait_loop system cmd now world fuel end for_running k s
            ≡ some r)
    wait_loop_ends zero m k s over enough = absurd (omega arith)
    wait_loop_ends (suc fuel) zero k s over enough =
        let (last, _, _) = wait_loop_step fuel k s in ((false, k, s), last (ground (arith, over)))
    wait_loop_ends (suc fuel) (suc m) k s over enough =
        let (last, found, onward) = wait_loop_step fuel k s in
        let s' = (is_running system cmd s (world k)).1 in
        let (r, h) = wait_loop_ends fuel m (suc k) s' (later k m over) (omega arith) in
        elim (Bool-cases (ltb (now k) end)) [
          | inr e ↦ ((false, k, s), last e)
          | inl e ↦
              elim (Bool-cases (same_bool (is_running system cmd s (world k)).0 for_running)) [
                | inl b ↦ ((true, k, s'), found e b)
                | inr b ↦ (r, onward e b ∙ h)
              ]
        ]

    early_at : (k m j : ℕ) → j ≡ k + m → ltb (now (k + m)) end ≡ true → ltb (now j) end ≡ true
    early_at k m j e h = ap (λ i. ltb (now i) end) e ∙ h

    finds_at :
        (k m j : ℕ)
        → j ≡ k + m
        → same_bool (is_running system cmd reset (world (k + m))).0 for_running ≡ true
        → same_bool (is_running system cmd reset (world j)).0 for_running ≡ true
    finds_at k m j e h =
        ap (λ i. same_bool (is_running system cmd reset (world i)).0 for_running) e ∙ h

    -- A turn before the end that finds what is waited for
    wait_loop_finds :
        (fuel m k : ℕ) (s : State)
        → ((j : ℕ) → j < suc m → ltb (now (k + j)) end ≡ true)
        → same_bool (is_running system cmd reset (world (k + m))).0 for_running ≡ true
        → m < fuel
        → (t : ℕ × State) × (wait_loop system cmd now world fuel end for_running k s
            ≡ some (true, t.0, t.1))
    wait_loop_finds zero m k s early finds enough = absurd (omega arith)
    wait_loop_finds (suc fuel) zero k s early finds enough =
        let (_, found, _) = wait_loop_step fuel k s in
        (
          (k, (is_running system cmd s (world k)).1),
          found (early_at k 0 k (omega arith) (early 0 (omega arith))) (
              ap (λ b. same_bool b for_running) (is_running_same s reset (world k))
              ∙ finds_at k 0 k (omega arith) finds),
        )
    wait_loop_finds (suc fuel) (suc m) k s early finds enough =
        let (_, found, onward) = wait_loop_step fuel k s in
        let s' = (is_running system cmd s (world k)).1 in
        let now_early = early_at k 0 k (omega arith) (early 0 (omega arith)) in
        let (t, h) =
          wait_loop_finds fuel m (suc k) s'
            (λ j h. early_at k (suc j) (suc k + j) (omega arith) (early (suc j) (omega arith)))
            (finds_at k (suc m) (suc k + m) (omega arith) finds) (omega arith) in
        elim (Bool-cases (same_bool (is_running system cmd s (world k)).0 for_running)) [
          | inl b ↦ ((k, s'), found now_early b)
          | inr b ↦ (t, onward now_early b ∙ h)
        ]

from_0 : (j : ℕ) → 0 + j ≡ j
from_0 j = omega arith

-- The clock reaches the end, which is the given time and the timeout, in turn m: with more fuel than m
-- turns, _wait returns or raises, whatever the system does meanwhile.
pub wait_ends :
    {W : Type 0} (system : System W) (cmd : StartupCmd) (now : ℕ → ℕ) (world : ℕ → W)
    (fuel m start timeout : ℕ) (for_running die : Bool) (s : State)
    → leb (start + timeout) (now m) ≡ true
    → m < fuel
    → (r : Result (ℕ × State)) × (wait system cmd now world fuel start for_running die timeout s
        ≡ some r)
unfolding wait
wait_ends system cmd now world fuel m start timeout for_running die s over enough =
    let ((b, k, t), h) =
      wait_loop_ends system cmd now world (start + timeout) for_running fuel m 0 s
        (ap (λ j. leb (start + timeout) (now j)) (from_0 m) ∙ over) enough in
    elim (Bool-cases b) [
      | inl e ↦ (ok (k, t), ground (arith, h, e))
      | inr e ↦ (if die then err timeout_error else ok (k, t), ground (arith, h, e))
    ]

-- In turn m, the command is found running (or stopped) as it is waited for, and all turns up to it
-- are before the end: _wait returns without an exception.
pub wait_returns :
    {W : Type 0} (system : System W) (cmd : StartupCmd) (now : ℕ → ℕ) (world : ℕ → W)
    (fuel m start timeout : ℕ) (for_running die : Bool) (s : State)
    → ((j : ℕ) → j < suc m → ltb (now j) (start + timeout) ≡ true)
    → same_bool (is_running system cmd reset (world m)).0 for_running ≡ true
    → m < fuel
    → (t : ℕ × State) × (wait system cmd now world fuel start for_running die timeout s
        ≡ some (ok t))
unfolding wait
wait_returns system cmd now world fuel m start timeout for_running die s early finds enough =
    let (t, h) =
      wait_loop_finds system cmd now world (start + timeout) for_running fuel m 0 s
        (λ j h. ap (λ k. ltb (now k) (start + timeout)) (from_0 j) ∙ early j h)
        (ap (λ j. same_bool (is_running system cmd reset (world j)).0 for_running) (from_0 m)
          ∙ finds)
        enough in
    (t, ground (arith, h))
