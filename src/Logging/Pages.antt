-- ===== src/Logging/Pages.antt =====
-- Identifiers and pages.
use native.Mathlib.Nat.{
  mod-eq_of_lt, div-eq_of_lt, mod_self, mul-add-div_right, mul-add-mod_self_right, add-div_right,
}
use js_ng.Prelude.{
  ℕ, zero, suc, ◌+◌, ◌-◌, ◌*◌, ◌/◌, ◌%◌, ◌≤◌, ◌<◌, ◌≡◌, refl, ap, sym, ◌∙◌, List, [], ◌∷◌, ◌++◌,
  arith, none, some, length, take, drop, get_elem?, pos, negsuc, ltb, ltb→lt, Bool-cases, inl, inr,
}
use js_ng.Logging.{map_identifier, lindex}

module _ (m q j : ℕ) (fits : j < m) where
  positive : 0 < m
  positive = omega (arith, fits)

  -- The records behind the first q pages, but for the last of a page, and that one.
  quotient : (q * m + suc j + m - 1) / m ≡ suc q
  quotient =
      let shifted : q * m + suc j + m - 1 ≡ q * m + (j + m) = omega arith in
      ap (λ n. n / m) shifted
      ∙ mul-add-div_right positive q (j + m)
      ∙ ap (λ n. q + n) (add-div_right j positive ∙ ap (λ n. n + 1) (div-eq_of_lt fits))
      ∙ omega arith

  pub part_lem : (map_identifier m (q * m + suc j)).0 ≡ q * m + m
  unfolding map_identifier
  part_lem = ap (λ n. n * m) quotient ∙ omega arith

  pub index_lem : suc j < m → (map_identifier m (q * m + suc j)).1 ≡ pos j
  unfolding map_identifier
  index_lem h = rw (map_identifier, mul-add-mod_self_right q m (suc j) ∙ mod-eq_of_lt h) refl

  pub last_index_lem : suc j ≡ m → (map_identifier m (q * m + suc j)).1 ≡ negsuc 0
  unfolding map_identifier
  last_index_lem h =
      rw (map_identifier, mul-add-mod_self_right q m (suc j) ∙ ap (λ n. n % m) h ∙ mod_self m) refl

module _ {A : Type 0} where
  at_suc : (x : A) (xs : List A) (n j : ℕ) → get_elem? xs (n + j) ≡ get_elem? (x ∷ xs) (suc n + j)
  at_suc x xs n j = let e : suc (n + j) ≡ suc n + j = omega arith in ap (get_elem? (x ∷ xs)) e

  pub get_elem-drop : (n j : ℕ) (xs : List A) → get_elem? (drop n xs) j ≡ get_elem? xs (n + j)
  get_elem-drop zero j xs = ap (get_elem? xs) (omega arith)
  get_elem-drop (suc n) j [] = refl
  get_elem-drop (suc n) j (x ∷ xs) = get_elem-drop n j xs ∙ at_suc x xs n j

  pub get_elem-take : (n j : ℕ) (xs : List A) → j < n → get_elem? (take n xs) j ≡ get_elem? xs j
  get_elem-take zero j xs h = absurd (omega (arith, h))
  get_elem-take (suc n) j [] h = refl
  get_elem-take (suc n) zero (x ∷ xs) h = refl
  get_elem-take (suc n) (suc j) (x ∷ xs) h = get_elem-take n j xs (omega (arith, h))

  pub get_elem-append :
      (j : ℕ) (xs ys : List A) → j < length xs → get_elem? (xs ++ ys) j ≡ get_elem? xs j
  get_elem-append j [] ys h = absurd (omega (arith, h))
  get_elem-append zero (x ∷ xs) ys h = refl
  get_elem-append (suc j) (x ∷ xs) ys h = get_elem-append j xs ys (omega (arith, h))

  pub drop-short : (n : ℕ) (xs ys : List A) → n ≤ length xs → drop n (xs ++ ys) ≡ drop n xs ++ ys
  drop-short zero xs ys h = refl
  drop-short (suc n) [] ys h = absurd (omega (arith, h))
  drop-short (suc n) (x ∷ xs) ys h = drop-short n xs ys (omega (arith, h))

  pub take-short : (n : ℕ) (xs ys : List A) → n ≤ length xs → take n (xs ++ ys) ≡ take n xs
  take-short zero xs ys h = refl
  take-short (suc n) [] ys h = absurd (omega (arith, h))
  take-short (suc n) (x ∷ xs) ys h = ap (λ t. x ∷ t) (take-short n xs ys (omega (arith, h)))

  pub get_elem_some : (j : ℕ) (xs : List A) → j < length xs → (x : A) × (get_elem? xs j ≡ some x)
  get_elem_some j [] h = absurd (omega (arith, h))
  get_elem_some zero (x ∷ xs) h = (x, refl)
  get_elem_some (suc j) (x ∷ xs) h = get_elem_some j xs (omega (arith, h))

  pub get_elem_none : (j : ℕ) (xs : List A) → length xs ≤ j → get_elem? xs j ≡ none
  get_elem_none j [] h = refl
  get_elem_none zero (x ∷ xs) h = absurd (omega (arith, h))
  get_elem_none (suc j) (x ∷ xs) h = get_elem_none j xs (omega (arith, h))

  last_of_page : (j : ℕ) (xs : List A) → length xs ≡ suc j → lindex xs (negsuc 0) ≡ get_elem? xs j
  unfolding lindex
  last_of_page j xs h = rw h (ground arith)

  -- The index of a record finds it in its page, which is full if it is the last one.
  pub lindex-page :
      (m q j : ℕ) (xs : List A)
      → j < m
      → length xs ≤ m
      → (suc j ≡ m → length xs ≡ m)
      → lindex xs (map_identifier m (q * m + suc j)).1 ≡ get_elem? xs j
  lindex-page m q j xs h short full = elim (Bool-cases (ltb (suc j) m)) [
    | inl e ↦ rw (index_lem m q j h (ltb→lt (suc j) m e)) (unfold lindex in refl)
    | inr e ↦
        let last : suc j ≡ m = ground (arith, h, e) in
        rw (last_index_lem m q j h last) (last_of_page j xs (full last ∙ sym last))
  ]
