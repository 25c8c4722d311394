-- ===== src/Nettools/Waiting.antt =====
-- When wait_connection_test finds a connection.
use js_ng.Prelude.{
  ℕ, zero, suc, ◌+◌, ◌<◌, ◌≡◌, refl, not, Str, sym, ap, ◌∙◌, Bool, true, false, some, ltb, arith,
  Bool-cases, inl, inr, ◌↔◌, ◌⊎◌, Option, none,
}
use js_ng.Prelude.Result.{ok, err, value_error}
use js_ng.Nettools.{
  connection_loop, wait_connection_test, ping_loop, ping_machine, check_ip_address,
}

module _ (now : ℕ → ℕ) (answers : ℕ → Bool) (end : ℕ) where
  -- From turn k on, some turn finds an answer, and no clock of a turn up to it is past the end.
  pub record Answered (k : ℕ) : Type 0 where
    pub turns : ℕ
    pub answered : answers (k + turns) ≡ true
    pub in_time : (j : ℕ) → j < suc turns → ltb end (now (k + j)) ≡ false

  -- The loop, by its turns
  connection_loop_step :
      (fuel k : ℕ)
      → (ltb end (now k) ≡ true → connection_loop now answers (suc fuel) end k ≡ some false)
        × (ltb end (now k) ≡ false
            → answers k ≡ true
            → connection_loop now answers (suc fuel) end k ≡ some true)
        × (ltb end (now k) ≡ false
            → answers k ≡ false
            → connection_loop now answers (suc fuel) end k
              ≡ connection_loop now answers fuel end (suc k))
  unfolding connection_loop
  connection_loop_step fuel k =
      (λ a. ground (arith, a), λ a b. ground (arith, a, b), λ a b. ground (arith, a, b))

  at : (p : ℕ → Bool) (b : Bool) (i j : ℕ) → i ≡ j → p j ≡ b → p i ≡ b
  at p b i j e h = ap p e ∙ h

  -- Answered is decided by the turn that comes next.
  reply_now : (k : ℕ) → ltb end (now k) ≡ false → answers k ≡ true → Answered k
  reply_now k e a = record {
    turns = 0;
    answered = at answers true (k + 0) k (omega arith) a;
    in_time = λ j h. at (λ i. ltb end (now i)) false (k + j) k (omega arith) e;
  }

  early_before :
      (k t j : ℕ)
      → ltb end (now k) ≡ false
      → ((i : ℕ) → i < suc t → ltb end (now (suc k + i)) ≡ false)
      → j < suc (suc t)
      → ltb end (now (k + j)) ≡ false
  early_before k t zero e early h = at (λ i. ltb end (now i)) false (k + 0) k (omega arith) e
  early_before k t (suc j) e early h =
      at (λ i. ltb end (now i)) false (k + suc j) (suc k + j) (omega arith) (early j (omega arith))

  reply_later : (k : ℕ) → ltb end (now k) ≡ false → Answered (suc k) → Answered k
  reply_later k e r = record {
    turns = suc r.turns;
    answered = at answers true (k + suc r.turns) (suc k + r.turns) (omega arith) r.answered;
    in_time = λ j h. early_before k r.turns j e r.in_time h;
  }

  reply_next :
      (k t : ℕ)
      → answers k ≡ false
      → answers (k + t) ≡ true
      → ((j : ℕ) → j < suc t → ltb end (now (k + j)) ≡ false)
      → Answered (suc k)
  reply_next k zero silent reply early =
      absurd (cc (sym silent ∙ at answers true k (k + 0) (omega arith) reply))
  reply_next k (suc t) silent reply early = record {
    turns = t;
    answered = at answers true (suc k + t) (k + suc t) (omega arith) reply;
    in_time = λ j h.
        at (λ i. ltb end (now i)) false (suc k + j) (k + suc j) (omega arith)
          (early (suc j) (omega arith));
  }

  over_at_once : (k : ℕ) → ltb end (now k) ≡ true → ¬ Answered k
  over_at_once k e r =
      cc (
        sym e ∙ at (λ i. ltb end (now i)) false k (k + 0) (omega arith) (r.in_time 0 (omega arith)))

  -- With fuel for the turns until the clock is past the end
  connection_loop_lem :
      (fuel m k : ℕ)
      → ltb end (now (k + m)) ≡ true
      → m < fuel
      → (b : Bool) × (connection_loop now answers fuel end k ≡ some b) × (b ≡ true ↔ Answered k)
  connection_loop_lem zero m k over enough = absurd (omega arith)
  connection_loop_lem (suc fuel) zero k over enough =
      let (last, _, _) = connection_loop_step fuel k in
      let e = at (λ i. ltb end (now i)) true k (k + 0) (omega arith) over in
      (false, last e, (λ h. absurd (cc h), λ r. absurd (over_at_once k e r)))
  connection_loop_lem (suc fuel) (suc m) k over enough =
      let (last, found, onward) = connection_loop_step fuel k in
      let (b, h, (to, from)) =
        connection_loop_lem fuel m (suc k)
          (at (λ i. ltb end (now i)) true (suc k + m) (k + suc m) (omega arith) over)
          (omega arith) in
      elim (Bool-cases (ltb end (now k))) [
        | inl e ↦ (false, last e, (λ h. absurd (cc h), λ r. absurd (over_at_once k e r)))
        | inr e ↦ elim (Bool-cases (answers k)) [
          | inl a ↦ (true, found e a, (λ h. reply_now k e a, λ r. refl))
          | inr a ↦ (
            b,
            onward e a ∙ h,
            (λ z. reply_later k e (to z), λ r. from (reply_next k r.turns a r.answered r.in_time)),
          )
        ]
      ]

-- The clock is past the end, which is the given time and the timeout, in turn m: with more fuel than m
-- turns, wait_connection_test returns, and it returns True exactly if the machine answers in some turn
-- of which, and of the turns before it, the clock is not past the end.
pub wait_connection_test_lem :
    (now : ℕ → ℕ) (answers : ℕ → Bool) (fuel m begin timeout : ℕ)
    → ltb (begin + timeout) (now m) ≡ true
    → m < fuel
    → (b : Bool) × (wait_connection_test now answers fuel begin timeout ≡ some b)
      × (b ≡ true ↔ Answered now answers (begin + timeout) 0)
unfolding wait_connection_test
wait_connection_test_lem now answers fuel m begin timeout over enough =
    connection_loop_lem now answers (begin + timeout) fuel m 0
      (at now answers (begin + timeout) (λ i. ltb (begin + timeout) (now i)) true (0 + m) m
        (omega arith) over)
      enough

same_end : (n end : ℕ) → ltb n end ≡ not (ltb end (suc n))
same_end n end = ground arith

-- The loop of a ping is the one of a connection on a clock that is one tick ahead.
ping_loop-connection_loop :
    (now : ℕ → ℕ) (answers : ℕ → Bool) (fuel begin timeout k : ℕ)
    → ping_loop now answers fuel begin timeout k
      ≡ connection_loop (λ j. suc (now j)) answers fuel (begin + timeout) k
unfolding ping_loop connection_loop
ping_loop-connection_loop now answers zero begin timeout k = refl
ping_loop-connection_loop now answers (suc fuel) begin timeout k =
    let ih = ping_loop-connection_loop now answers fuel begin timeout (suc k) in
    ground (arith, same_end (now k) (begin + timeout), ih)

-- Some turn finds an answer, and less than the timeout has gone in it and the turns before it.
pub record Pinged (now : ℕ → ℕ) (answers : ℕ → Bool) (begin timeout : ℕ) : Type 0 where
  pub turns : ℕ
  pub answered : answers turns ≡ true
  pub in_time : (j : ℕ) → j < suc turns → ltb (now j) (begin + timeout) ≡ true

Answered→Pinged :
    (now : ℕ → ℕ) (answers : ℕ → Bool) (begin timeout : ℕ)
    → Answered (λ j. suc (now j)) answers (begin + timeout) 0
    → Pinged now answers begin timeout
Answered→Pinged now answers begin timeout r = record {
  turns = 0 + r.turns;
  answered = r.answered;
  in_time =
      λ j h. ground (arith, same_end (now j) (begin + timeout), r.in_time j (omega (arith, h)));
}

Pinged→Answered :
    (now : ℕ → ℕ) (answers : ℕ → Bool) (begin timeout : ℕ)
    → Pinged now answers begin timeout
    → Answered (λ j. suc (now j)) answers (begin + timeout) 0
Pinged→Answered now answers begin timeout r = record {
  turns = r.turns;
  answered = at now answers begin answers true (0 + r.turns) r.turns (omega arith) r.answered;
  in_time = λ j h.
      at now answers begin (λ i. ltb (begin + timeout) (suc (now i))) false (0 + j) j (omega arith)
        (ground (arith, same_end (now j) (begin + timeout), r.in_time j h));
}

check_ip_address_lem :
    {Address : Type 0} (ipv4_address : Str → Option Address) (ip : Str)
    → (ipv4_address ip ≡ none → check_ip_address ipv4_address ip ≡ false)
      × ((a : Address) → ipv4_address ip ≡ some a → check_ip_address ipv4_address ip ≡ true)
unfolding check_ip_address
check_ip_address_lem ipv4_address ip = (
  λ e. ap (λ x. elim x [ none ↦ false | some a ↦ true ]) e,
  λ a e. ap (λ x. elim x [ none ↦ false | some b ↦ true ]) e,
)

-- In turn m the timeout has gone since the start. An address that ipaddress.IPv4Address accepts, or
-- any text if hostnames are allowed, is pinged: with more fuel than m turns ping_machine returns, and
-- it returns True exactly if the machine answers in some turn in which, and in the turns before it,
-- the timeout has not gone. Without hostnames, another text raises.
pub ping_machine_lem :
    {Address : Type 0} (ipv4_address : Str → Option Address) (now : ℕ → ℕ) (answers : ℕ → Bool)
    (ip : Str) (allowed : Bool) (fuel m begin timeout : ℕ)
    → ltb (now m) (begin + timeout) ≡ false
    → m < fuel
    → (allowed ≡ false
        → ipv4_address ip ≡ none
        → ping_machine now answers ipv4_address fuel begin ip timeout allowed
          ≡ some (err value_error))
      × ((allowed ≡ true) ⊎ ((a : Address) × (ipv4_address ip ≡ some a))
          → (b : Bool) × (ping_machine now answers ipv4_address fuel begin ip timeout allowed
              ≡ some (ok b))
            × (b ≡ true ↔ Pinged now answers begin timeout))
unfolding ping_machine
ping_machine_lem ipv4_address now answers ip allowed fuel m begin timeout over enough = (
  λ e none_there. rw (e, (check_ip_address_lem ipv4_address ip).0 none_there) refl,
  λ accepted.
      let late : ltb (begin + timeout) (suc (now (0 + m))) ≡ true =
        at now answers begin (λ i. ltb (begin + timeout) (suc (now i))) true (0 + m) m (omega arith)
          (ground (arith, same_end (now m) (begin + timeout), over)) in
      let (b, h, (to, from)) =
        connection_loop_lem (λ j. suc (now j)) answers (begin + timeout) fuel m 0 late enough in
      let looped = ping_loop-connection_loop now answers fuel begin timeout 0 ∙ h in
      let same : b ≡ true ↔ Pinged now answers begin timeout = (
        λ z. Answered→Pinged now answers begin timeout (to z),
        λ r. from (Pinged→Answered now answers begin timeout r),
      ) in
      elim accepted [
        | inl e ↦ (b, rw (e, looped) refl, same)
        | inr (a, e) ↦ (
          b,
          elim (Bool-cases allowed) [
            | inl yes_allowed ↦ rw (yes_allowed, looped) refl
            | inr not_allowed ↦
                rw (not_allowed, (check_ip_address_lem ipv4_address ip).1 a e, looped) refl
          ],
          same,
        )
      ],
)
