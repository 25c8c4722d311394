-- ===== src/Startup/Running.antt =====
-- What stop and start have seen when they return.
use js_ng.Prelude.{
  ℕ, zero, suc, ◌+◌, ◌<◌, ◌≡◌, ap, ◌∙◌, Bool, true, false, Option, none, some, ltb, leb, arith,
  Bool-cases, List-cases, inl, inr, Option-cases,
}
use js_ng.Prelude.Result.{Result, ok, err, Result-cases, value_error}
use js_ng.Startup.{System, StartupCmd, State, same_bool, is_running, wait_loop, wait}
use js_ng.Startup.Calls.{
  Host, Commands, Attributes, end_running, remove_script, launch, stop, start, looked, wait_here,
  stop_timeout,
}
use js_ng.Startup.Wait.{wait_ends, is_running_same}

module _ {W : Type 0} (system : System W) (cmd : StartupCmd) where
  module _ (now : ℕ → ℕ) (world : ℕ → W) (for_running : Bool) where
    -- A loop that is left by its break has found what it waits for.
    wait_loop_found :
        (fuel end k j : ℕ) (s s' t : State)
        → wait_loop system cmd now world fuel end for_running k s ≡ some (true, j, s')
        → same_bool (is_running system cmd t (world j)).0 for_running ≡ true
    unfolding wait_loop
    wait_loop_found zero end k j s s' t h = absurd (cc h)
    wait_loop_found (suc fuel) end k j s s' t h = elim (Bool-cases (ltb (now k) end)) [
      | inr e ↦ absurd (ground (arith, h, e))
      | inl e ↦ elim (Bool-cases (same_bool (is_running system cmd s (world k)).0 for_running)) [
        | inl b ↦
            ap (λ i. same_bool (is_running system cmd t (world i)).0 for_running)
              (ground (arith, h, e, b))
            ∙ ap (λ found. same_bool found for_running) (is_running_same system cmd t s (world k))
            ∙ b
        | inr b ↦
            wait_loop_found fuel end (suc k) j (is_running system cmd s (world k)).1 s' t
              (ground (arith, h, e, b))
      ]
    ]

    -- So has _wait when it returns and was told to raise.
    wait_found :
        (fuel begin timeout j : ℕ) (s s' t : State)
        → wait system cmd now world fuel begin for_running true timeout s ≡ some (ok (j, s'))
        → same_bool (is_running system cmd t (world j)).0 for_running ≡ true
    unfolding wait
    wait_found fuel begin timeout j s s' t h =
        elim (Option-cases
          (wait_loop system cmd now world fuel (begin + timeout) for_running 0 s)) [
            | inl e ↦ absurd (ground (arith, h, e))
            | inr ((true, i, u), e) ↦
                wait_loop_found fuel (begin + timeout) 0 j s s' t (ground (arith, h, e))
            | inr ((false, i, u), e) ↦ absurd (ground (arith, h, e))
          ]

same_true : (b : Bool) → same_bool b true ≡ true → b ≡ true
same_true b h = ground (arith, h)

same_false : (b : Bool) → same_bool b false ≡ true → b ≡ false
same_false b h = ground (arith, h)

module _ {W : Type 0} (system : System W) (host : Host W) (cmd : StartupCmd)
    (fields : Commands) where
  wait_here_found :
      (for_running : Bool) (fuel timeout : ℕ) (a a' : Attributes) (w w' : W) (t : State)
      → wait_here system host cmd fields for_running fuel true timeout a w ≡ some (ok (a', w'))
      → same_bool (is_running system cmd t w').0 for_running ≡ true
  unfolding wait_here
  wait_here_found for_running fuel timeout a a' w w' t h =
      elim (Option-cases (
        wait system cmd (λ k. host.timestamp (host.passes k w)) (λ k. host.passes k w) fuel
          (host.timestamp w) for_running true timeout a.found)) [
            | inl e ↦ absurd (ground (arith, h, e))
            | inr (err x, e) ↦ absurd (ground (arith, h, e))
            | inr (ok (k, s), e) ↦
                ap (λ v. same_bool (is_running system cmd t v).0 for_running) (ground (arith, h, e))
                ∙ wait_found system cmd (λ k. host.timestamp (host.passes k w))
                    (λ k. host.passes k w) for_running fuel (host.timestamp w) timeout k a.found s t
                    e
          ]

  -- start of a command that runs already
  start_running :
      (fuel : ℕ) (a : Attributes) (w : W)
      → (is_running system cmd a.found w).0 ≡ true
      → start system host cmd fields fuel a w ≡ some (ok (looked system host cmd fields a w, w))
  unfolding start
  start_running fuel a w e = ground (arith, e)

  start_found :
      (fuel : ℕ) (a a' : Attributes) (w w' : W) (t : State)
      → start system host cmd fields fuel a w ≡ some (ok (a', w'))
      → (is_running system cmd t w').0 ≡ true
  unfolding start
  start_found fuel a a' w w' t h = elim (Bool-cases (is_running system cmd a.found w).0) [
    | inl e ↦
        is_running_same system cmd t a.found w'
        ∙ ap (λ v. (is_running system cmd a.found v).0) (ground (arith, h, e))
        ∙ e
    | inr e ↦
        elim (Result-cases (launch system host cmd fields (looked system host cmd fields a w) w)) [
          | inl ((b, v), l) ↦
              same_true (is_running system cmd t w').0
                (wait_here_found true fuel cmd.timeout b a' v w' t (ground (arith, h, e, l)))
          | inr (x, l) ↦ absurd (ground (arith, h, e, l))
        ]
  ]

  -- If start returns, the command is running in the system that it leaves: another start returns at
  -- once and leaves that system as it is.
  pub start_twice :
      (fuel again : ℕ) (a a' : Attributes) (w w' : W)
      → start system host cmd fields fuel a w ≡ some (ok (a', w'))
      → ((t : State) → (is_running system cmd t w').0 ≡ true)
        × (start system host cmd fields again a' w'
            ≡ some (ok (looked system host cmd fields a' w', w')))
  start_twice fuel again a a' w w' h = (
    λ t. start_found fuel a a' w w' t h,
    start_running again a' w' (start_found fuel a a' w w' a'.found h),
  )

  -- If stop returns, was told to wait and to raise, then the command was found stopped in the system that
  -- the script is removed from at last.
  pub stop_waits :
      (fuel : ℕ) (force : Bool) (timeout : Option ℕ) (a a' : Attributes) (w w' : W)
      → stop system host cmd fields fuel force true true timeout a w ≡ some (ok (a', w'))
      → (b : Attributes) × (v : W) × ((t : State) → (is_running system cmd t v).0 ≡ false)
        × (remove_script system host cmd fields b v ≡ ok (a', w'))
  unfolding stop
  stop_waits fuel force timeout a a' w w' h =
      elim (Result-cases (end_running system host cmd fields force a w)) [
        | inr (x, e) ↦ absurd (ground (arith, h, e))
        | inl ((b, v), e) ↦
            elim (Option-cases (
              wait_here system host cmd fields false fuel true
                (stop_timeout system host cmd fields timeout) b v)) [
                  | inl z ↦ absurd (ground (arith, h, e, z))
                  | inr (err x, z) ↦ absurd (ground (arith, h, e, z))
                  | inr (ok (b', v'), z) ↦ (
                    b',
                    v',
                    λ t. same_false (is_running system cmd t v').0 (
                        wait_here_found false fuel (stop_timeout system host cmd fields timeout) b
                          b' v v' t z),
                    ground (arith, h, e, z),
                  )
                ]
      ]

  wait_here_ends :
      (for_running : Bool) (fuel m : ℕ) (die : Bool) (timeout : ℕ) (a : Attributes) (w : W)
      → leb (host.timestamp w + timeout) (host.timestamp (host.passes m w)) ≡ true
      → m < fuel
      → (r : Result (Attributes × W)) × (wait_here system host cmd fields for_running fuel die
            timeout a w
          ≡ some r)
  unfolding wait_here
  wait_here_ends for_running fuel m die timeout a w over enough =
      let (r, e) =
        wait_ends system cmd (λ k. host.timestamp (host.passes k w)) (λ k. host.passes k w) fuel m
          (host.timestamp w) timeout for_running die a.found over enough in
      elim (Result-cases r) [
        | inl ((k, s), z) ↦ (ok (record a { found = s }, host.passes k w), ground (arith, e, z))
        | inr (x, z) ↦ (err x, ground (arith, e, z))
      ]

  start_ends :
      (fuel m : ℕ) (a : Attributes) (w : W)
      → ((v : W) → leb (host.timestamp v + cmd.timeout) (host.timestamp (host.passes m v)) ≡ true)
      → m < fuel
      → (r : Result (Attributes × W)) × (start system host cmd fields fuel a w ≡ some r)
  unfolding start
  start_ends fuel m a w over enough = elim (Bool-cases (is_running system cmd a.found w).0) [
    | inl e ↦ (ok (looked system host cmd fields a w, w), ground (arith, e))
    | inr e ↦ elim (List-cases fields.start_cmd) [
      | inl unset ↦ (err value_error, ground (arith, e, unset))
      | inr (c, cs, given) ↦
          elim (Result-cases
            (launch system host cmd fields (looked system host cmd fields a w) w)) [
              | inr (x, l) ↦ (err x, ground (arith, e, given, l))
              | inl ((b, v), l) ↦
                  let (r, z) = wait_here_ends true fuel m true cmd.timeout b v (over v) enough in
                  (r, ground (arith, e, given, l, z))
            ]
    ]
  ]

  stop_ends :
      (fuel m : ℕ) (force waits die : Bool) (a : Attributes) (w : W)
      → ((v : W) → leb (host.timestamp v + cmd.timeout) (host.timestamp (host.passes m v)) ≡ true)
      → m < fuel
      → (r : Result (Attributes × W)) × (stop system host cmd fields fuel force waits die none a w
          ≡ some r)
  unfolding stop stop_timeout
  stop_ends fuel m force waits die a w over enough =
      elim (Result-cases (end_running system host cmd fields force a w)) [
        | inr (x, e) ↦ (err x, ground (arith, e))
        | inl ((b, v), e) ↦
            let (r, z) = wait_here_ends false fuel m die cmd.timeout b v (over v) enough in
            elim (Bool-cases waits) [
              | inr q ↦ (remove_script system host cmd fields b v, ground (arith, e, q))
              | inl q ↦ elim (Result-cases r) [
                | inr (x, i) ↦ (err x, ground (arith, e, q, z, i))
                | inl ((b', v'), i) ↦
                    (remove_script system host cmd fields b' v', ground (arith, e, q, z, i))
              ]
            ]
      ]

  -- The clock passes the timeout of the command within m turns, from whatever system on: with more fuel
  -- than m turns, start and stop, of which the timeout is then that of the command, return or raise.
  pub start-stop_end :
      (fuel m : ℕ) (force waits die : Bool) (a : Attributes) (w : W)
      → ((v : W) → leb (host.timestamp v + cmd.timeout) (host.timestamp (host.passes m v)) ≡ true)
      → m < fuel
      → ((r : Result (Attributes × W)) × (start system host cmd fields fuel a w ≡ some r))
        × ((r : Result (Attributes × W)) × (stop system host cmd fields fuel force waits die none a
                w
              ≡ some r))
  start-stop_end fuel m force waits die a w over enough =
      (start_ends fuel m a w over enough, stop_ends fuel m force waits die a w over enough)
