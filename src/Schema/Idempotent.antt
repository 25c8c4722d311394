-- ===== src/Schema/Idempotent.antt =====
-- _normalize_string leaves alone what it has normalized.
use js_ng.Prelude.{
  ℕ, ◌≡◌, refl, sym, ap, ◌∙◌, true, false, [], ◌∷◌, eqb, Str, arith, Bool-cases, ◌⊎◌, inl, inr,
}
use js_ng.Text.{is_space, lstrip_by, rstrip_by, strip}
use js_ng.Text.Strip.{StartsWell, EndsWell, EndsWell-cons, strip_ends, strip_same}
use js_ng.Schema.Normalize.{
  Scan, start, track_comment, track_string, is_skipped, turn, drops, scan, normalize_string,
}

-- Behind a line feed no comment goes on.
abbrev Fits : Scan → Type 0
Fits st = st.ended ≡ true → st.in_comment ≡ false

abbrev seen : ℕ → Scan → Scan
seen c st = track_string c (track_comment c st)

turn_of_dropped : (c : ℕ) (st : Scan) → drops c st ≡ true → turn c st ≡ seen c st
unfolding turn drops
turn_of_dropped c st d = rw d refl

turn_of_kept :
    (c : ℕ) (st : Scan) → drops c st ≡ false → turn c st ≡ record (seen c st) { ended = eqb c 10 }
unfolding turn drops
turn_of_kept c st d = rw d refl

-- The characters that may be dropped leave the variables alone, but for a line feed.
seen_feed : (st : Scan) → seen 10 st ≡ record st { in_comment = false }
unfolding track_comment track_string
seen_feed st = refl

seen_space : (st : Scan) → seen b' ' st ≡ st
unfolding track_comment track_string
seen_space st = refl

seen_tab : (st : Scan) → seen 9 st ≡ st
unfolding track_comment track_string
seen_tab st = refl

feed_dropped : (st : Scan) → drops 10 st ≡ true → st.ended ≡ true
unfolding drops track_comment track_string is_skipped
feed_dropped st d = ground (arith, d)

which_dropped : (c : ℕ) (st : Scan) → drops c st ≡ true → (c ≡ 10) ⊎ ((c ≡ b' ') ⊎ (c ≡ 9))
unfolding drops is_skipped
which_dropped c st d = elim (Bool-cases (eqb c 10)) [
  | inl e ↦ inl (ground (arith, e))
  | inr e ↦ elim (Bool-cases (eqb c b' ')) [
    | inl f ↦ inr (inl (ground (arith, f)))
    | inr f ↦ elim (Bool-cases (eqb c 9)) [
      | inl g ↦ inr (inr (ground (arith, g)))
      | inr g ↦ absurd (ground (arith, d, e, f, g))
    ]
  ]
]

same_comment : (st : Scan) → st.in_comment ≡ false → record st { in_comment = false } ≡ st
same_comment st e = ap (λ b. record st { in_comment = b }) (sym e)

-- A turn that drops its character changes nothing.
turn_dropped : (c : ℕ) (st : Scan) → Fits st → drops c st ≡ true → turn c st ≡ st
turn_dropped c st h d = turn_of_dropped c st d ∙ elim (which_dropped c st d) [
  | inl e ↦
      ap (λ k. seen k st) e
      ∙ (seen_feed st ∙ same_comment st (h (feed_dropped st (ap (λ k. drops k st) (sym e) ∙ d))))
  | inr (inl e) ↦ ap (λ k. seen k st) e ∙ seen_space st
  | inr (inr e) ↦ ap (λ k. seen k st) e ∙ seen_tab st
]

feed_comment : (c : ℕ) (st : Scan) → eqb c 10 ≡ true → (seen c st).in_comment ≡ false
feed_comment c st e =
    let feed : c ≡ 10 = ground (arith, e) in
    ap (λ k. (seen k st).in_comment) feed ∙ ap (λ t. t.in_comment) (seen_feed st)

turn-Fits : (c : ℕ) (st : Scan) → Fits st → Fits (turn c st)
turn-Fits c st h e = elim (Bool-cases (drops c st)) [
  | inl d ↦
      let same = turn_dropped c st h d in
      ap (λ t. t.in_comment) same ∙ h (ap (λ t. t.ended) (sym same) ∙ e)
  | inr d ↦
      let kept = turn_of_kept c st d in
      ap (λ t. t.in_comment) kept ∙ feed_comment c st (ap (λ t. t.ended) (sym kept) ∙ e)
]

scan_dropped :
    (c : ℕ) (s : Str) (st : Scan) → drops c st ≡ true → scan st (c ∷ s) ≡ scan (turn c st) s
unfolding scan
scan_dropped c s st d = rw d refl

scan_kept :
    (c : ℕ) (s : Str) (st : Scan) → drops c st ≡ false → scan st (c ∷ s) ≡ c ∷ scan (turn c st) s
unfolding scan
scan_kept c s st d = rw d refl

scan-scan : (s : Str) (st : Scan) → Fits st → scan st (scan st s) ≡ scan st s
scan-scan [] st h = unfold scan in refl
scan-scan (c ∷ s) st h = elim (Bool-cases (drops c st)) [
  | inl d ↦
      let same = scan_dropped c s st d ∙ ap (λ t. scan t s) (turn_dropped c st h d) in
      ap (scan st) same ∙ (scan-scan s st h ∙ sym same)
  | inr d ↦
      let same = scan_kept c s st d in
      ap (scan st) same
      ∙ (scan_kept c (scan (turn c st) s) st d
          ∙ (ap (λ t. c ∷ t) (scan-scan s (turn c st) (turn-Fits c st h)) ∙ sym same))
]

-- The ends of a text that is stripped are no white space, which no turn drops.
kept_char : (c : ℕ) (st : Scan) → is_space c ≡ false → drops c st ≡ false
unfolding is_space
kept_char c st h = elim (Bool-cases (drops c st)) [
  | inr d ↦ d
  | inl d ↦ elim (which_dropped c st d) [
    | inl e ↦ absurd (ground (arith, e, h))
    | inr (inl e) ↦ absurd (ground (arith, e, h))
    | inr (inr e) ↦ absurd (ground (arith, e, h))
  ]
]

scan-StartsWell : (s : Str) (st : Scan) → StartsWell s → StartsWell (scan st s)
unfolding StartsWell
scan-StartsWell [] st h = unfold scan in tt
scan-StartsWell (c ∷ s) st h = rw (scan_kept c s st (kept_char c st h)) h

only : (c : ℕ) (st : Scan) → is_space c ≡ false → EndsWell (c ∷ scan st [])
unfolding EndsWell scan
only c st h = h

nothing_left : scan start (strip (scan start [])) ≡ scan start []
unfolding scan strip lstrip_by rstrip_by
nothing_left = refl

scan-EndsWell : (s : Str) (st : Scan) → EndsWell s → EndsWell (scan st s)
unfolding EndsWell
scan-EndsWell [] st h = absurd h
scan-EndsWell (c ∷ []) st h = rw (scan_kept c [] st (kept_char c st h)) (only c (turn c st) h)
scan-EndsWell (c ∷ d ∷ s) st h = elim (Bool-cases (drops c st)) [
  | inl e ↦ rw (scan_dropped c (d ∷ s) st e) (scan-EndsWell (d ∷ s) (turn c st) h)
  | inr e ↦
      rw (scan_kept c (d ∷ s) st e)
        (EndsWell-cons c (scan (turn c st) (d ∷ s)) (scan-EndsWell (d ∷ s) (turn c st) h))
]

-- A text that is normalized is left as it is.
pub normalize_string_idem : (s : Str) → normalize_string (normalize_string s) ≡ normalize_string s
unfolding normalize_string
normalize_string_idem s =
    let (starts_well, ends) = strip_ends s in
    elim ends [
      | inl nothing ↦ rw nothing nothing_left
      | inr ends_well ↦
          ap (scan start) (
            strip_same (scan start (strip s)) (scan-StartsWell (strip s) start starts_well)
              (scan-EndsWell (strip s) start ends_well))
          ∙ scan-scan (strip s) start (λ e. refl)
    ]
