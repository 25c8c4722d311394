-- ===== src/Process/Laws.antt =====
-- What check_start and check_stop promise when they return.
use mathlib.Core.Path.{subst}
use js_ng.Prelude.{
  ℕ, zero, suc, ◌≡◌, refl, sym, ap, ◌∙◌, Bool, true, false, Option, none, some, List, [],
  if◌then◌else◌, Str, arith, Bool-cases, ◌⊎◌, inl, inr, ℤ, eqb, length,
}
use js_ng.Prelude.Result.{ok, err, ok-inj, >>=-eq-ok, runtime_error}
use js_ng.Process.{
  Machine, get_filtered_pids, start_loop, stop_turn, started, stopped, check_start, kill_found,
  stop_loop, check_stop,
}

module _ {W : Type 0} (machine : Machine W) where
  -- The machine after a command was executed so many times
  unfoldable pub executed : ℕ → Str → W → W
  executed zero cmd w = w
  executed (suc n) cmd w = executed n cmd (machine.execute cmd w)

  -- So many processes are found.
  unfoldable pub IsFound : Str → ℕ → W → Type 0
  IsFound filterstr n w =
      (found : List ℤ) × (get_filtered_pids machine filterstr [] w ≡ ok found) × (length found ≡ n)

  eqb→eq : (m n : ℕ) → eqb m n ≡ true → m ≡ n
  eqb→eq m n h = ground (arith, h)

  start_loop_lem :
      (retry n : ℕ) (cmd : Str) (k : ℕ) (w : W)
      → ((start_loop machine retry n cmd k w ≡ none) × (n ≡ k))
        ⊎ (start_loop machine retry n cmd k w ≡ some (executed retry cmd w))
  unfolding start_loop executed
  start_loop_lem zero n cmd k w = inr refl
  start_loop_lem (suc retry) n cmd k w = elim (Bool-cases (eqb n k)) [
    | inl e ↦ inl (rw e refl, eqb→eq n k e)
    | inr e ↦ elim (start_loop_lem retry n cmd k (machine.execute cmd w)) [
      | inl (h, same) ↦ inl (rw (e, h) refl, same)
      | inr h ↦ inr (rw (e, h) refl)
    ]
  ]

  ok_if :
      (b : Bool) (w : W) {w' : W}
      → (if b then ok w else err runtime_error) ≡ ok w'
      → (b ≡ true) × (w ≡ w')
  ok_if true w h = (refl, ok-inj h)
  ok_if false w h = absurd (ground (arith, h))

  -- When check_start returns, as many processes as were asked for are found, and the command was either
  -- not executed at all or as often as there are retries, however many were found in between.
  pub check_start_lem :
      (cmd filterstr : Str) (nrinstances retry : ℕ) (w w' : W)
      → check_start machine cmd filterstr nrinstances retry w ≡ ok w'
      → IsFound filterstr nrinstances w' × ((w' ≡ w) ⊎ (w' ≡ executed retry cmd w))
  unfolding check_start IsFound
  check_start_lem cmd filterstr nrinstances retry w w' h =
      let (found, e, rest) = >>=-eq-ok (get_filtered_pids machine filterstr [] w) _ h in
      elim (start_loop_lem retry (length found) cmd nrinstances w) [
        | inl (none_left, same) ↦
            let here = sym (ap (started machine filterstr nrinstances w) none_left) ∙ rest in
            rw (sym (ok-inj here)) ((found, e, same), inl refl)
        | inr left ↦
            let here = sym (ap (started machine filterstr nrinstances w) left) ∙ rest in
            let (found', e', test) =
              >>=-eq-ok (get_filtered_pids machine filterstr [] (executed retry cmd w)) _ here in
            let (equal, same) =
              ok_if (eqb (length found') nrinstances) (executed retry cmd w) test in
            rw (sym same) ((found', e', eqb→eq (length found') nrinstances equal), inr refl)
      ]

  stop_turn_lem :
      (cmd filterstr : Str) (w : W) (turn : List ℤ × W)
      → stop_turn machine cmd filterstr w ≡ ok turn
      → get_filtered_pids machine filterstr [] turn.1 ≡ ok turn.0
  unfolding stop_turn
  stop_turn_lem cmd filterstr w turn h =
      let w1 = machine.execute cmd w in
      let (pids, e1, h1) = >>=-eq-ok (get_filtered_pids machine filterstr [] w1) _ h in
      let (w2, e2, h2) = >>=-eq-ok (kill_found machine pids 9 w1) _ h1 in
      let (found, e3, h3) = >>=-eq-ok (get_filtered_pids machine filterstr [] w2) _ h2 in
      rw (sym (ok-inj h3)) e3

  -- How the loop of check_stop ends
  abbrev Ended : Str → ℕ → Option ℕ × W → Type 0
  Ended filterstr k (left, w) =
      ((left ≡ none) × IsFound filterstr k w) ⊎ ((m : ℕ) × (left ≡ some m) × IsFound filterstr m w)

  stopped_lem :
      (filterstr : Str) (k : ℕ) (end : Option ℕ × W) {w' : W}
      → Ended filterstr k end
      → stopped machine end ≡ ok w'
      → IsFound filterstr k w' ⊎ IsFound filterstr 0 w'
  stopped_lem filterstr k (none, w) (inl (e, there)) h =
      inl (subst (IsFound filterstr k) (ok-inj h) there)
  stopped_lem filterstr k (none, w) (inr (m, e, there)) h = absurd (ground (arith, e))
  stopped_lem filterstr k (some n, w) (inl (e, there)) h = absurd (ground (arith, e))
  stopped_lem filterstr k (some n, w) {w'} (inr (m, e, there)) h =
      let (zero_left, same) = ok_if (eqb n 0) w h in
      let m_zero : m ≡ 0 = ground (arith, e, zero_left) in
      inr (subst (λ k. IsFound filterstr k w') m_zero (subst (IsFound filterstr m) same there))

  stop_loop_lem :
      (retry n : ℕ) (cmd filterstr : Str) (k : ℕ) (w : W) (found : List ℤ) {end : Option ℕ × W}
      → get_filtered_pids machine filterstr [] w ≡ ok found
      → n ≡ length found
      → stop_loop machine retry n cmd filterstr k w ≡ ok end
      → Ended filterstr k end
  unfolding stop_loop IsFound
  stop_loop_lem zero n cmd filterstr k w found e same h =
      let both = ok-inj h in
      inr (n, sym (ap (λ p. p.0) both), rw (sym (ap (λ p. p.1) both)) (found, e, sym same))
  stop_loop_lem (suc retry) n cmd filterstr k w found e same h = elim (Bool-cases (eqb n k)) [
    | inl test ↦
        let both = ok-inj (rw test at h) in
        inl (
          sym (ap (λ p. p.0) both),
          rw (sym (ap (λ p. p.1) both)) (found, e, sym same ∙ eqb→eq n k test),
        )
    | inr test ↦
        let (turn, done, rest) = >>=-eq-ok (stop_turn machine cmd filterstr w) _ (rw test at h) in
        stop_loop_lem retry (length (turn.0)) cmd filterstr k (turn.1) (turn.0)
          (stop_turn_lem cmd filterstr w turn done) refl rest
  ]

  -- When check_stop returns, no process is found any more, or as many as were asked for.
  pub check_stop_lem :
      (cmd filterstr : Str) (retry nrinstances : ℕ) (w w' : W)
      → check_stop machine cmd filterstr retry nrinstances w ≡ ok w'
      → IsFound filterstr nrinstances w' ⊎ IsFound filterstr 0 w'
  unfolding check_stop
  check_stop_lem cmd filterstr retry nrinstances w w' h =
      let (found, e, rest) = >>=-eq-ok (get_filtered_pids machine filterstr [] w) _ h in
      let (end, looped, last) =
        >>=-eq-ok (stop_loop machine retry (length found) cmd filterstr nrinstances w)
          (stopped machine) rest in
      stopped_lem filterstr nrinstances end
        (stop_loop_lem retry (length found) cmd filterstr nrinstances w found e refl looped) last
