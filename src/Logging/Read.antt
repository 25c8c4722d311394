-- ===== src/Logging/Read.antt =====
-- What record_get reads of what was kept.
use mathlib.Core.Path.{ap₂}
use native.Mathlib.Nat.{mul-le-mul_right}
use js_ng.Prelude.{
  some-inj, ℕ, zero, suc, ◌+◌, ◌-◌, ◌*◌, ◌≤◌, ◌<◌, ◌≡◌, refl, ap, ◌∙◌, Bool, true, none, some, List,
  [], ◌∷◌, arith, ltb, nat_eq, length, take, drop, get_elem?, length-drop, length-take, ◌⊎◌, inl,
  inr, Bool-cases, Option-cases, ltb→lt, pos, negsuc, ℤ,
}
use js_ng.Prelude.Dict.{lookup}
use js_ng.Prelude.Result.{ok, err, type_error}
use js_ng.Logging.{
  Record, Log, new_log, map_identifier, lindex, loads, handle_all, record_get, read_dumped,
}
use js_ng.Logging.Pages.{part_lem, get_elem-drop, get_elem-take, get_elem_none, lindex-page}
use js_ng.Logging.Kept.{numbered, IsKept, below, handle_all-new_log-IsKept}

length-numbered : {B : Type 0} (n : ℕ) (bs : List B) → length (numbered n bs) ≡ length bs
length-numbered n [] = refl
length-numbered n (b ∷ bs) = ap suc (length-numbered (n + 1) bs)

get_elem-numbered :
    {B : Type 0} (n i : ℕ) (bs : List B) (b : B)
    → get_elem? bs i ≡ some b
    → get_elem? (numbered n bs) i ≡ some (n + i + 1, b)
get_elem-numbered n i [] b h = absurd (ground (arith, h))
get_elem-numbered n zero (x ∷ bs) b h = ap some (ap₂ (λ i y. (i, y)) (omega arith) (some-inj h))
get_elem-numbered n (suc i) (x ∷ bs) b h =
    get_elem-numbered (n + 1) i bs b h ∙ ap (λ k. some (k, b)) (omega arith)

in_list :
    {A : Type 0} (i : ℕ) (xs : List A) (r : A) → get_elem? xs i ≡ some r → ltb i (length xs) ≡ true
in_list i [] r h = absurd (ground (arith, h))
in_list zero (x ∷ xs) r h = ground arith
in_list (suc i) (x ∷ xs) r h = ground (arith, in_list i xs r h)

past_end : {A : Type 0} (i : ℕ) (xs : List A) → get_elem? xs i ≡ none → length xs ≤ i
past_end i [] h = omega arith
past_end zero (x ∷ xs) h = absurd (ground (arith, h))
past_end (suc i) (x ∷ xs) h = omega (arith, past_end i xs h)

lindex_nil : {A : Type 0} (i : ℤ) (r : A) → lindex [] i ≡ some r → ⊥
unfolding lindex
lindex_nil (pos i) r h = ground (arith, h)
lindex_nil (negsuc i) r h = ground (arith, h)

module _ {B : Type 0} (m : ℕ) (dump : Bool) (positive : 0 < m) where
  -- How record_get comes to its answer
  get_none : (id : ℕ) (l : Log B) → l.incr < id → record_get m dump id l ≡ ok none
  unfolding record_get
  get_none id l h = ground (arith, h)

  get_recent :
      (q j : ℕ) (l : Log B)
      → j < m
      → q * m + suc j ≤ l.incr
      → l.incr < q * m + m + m
      → record_get m dump (q * m + suc j) l
        ≡ loads (lindex l.records (map_identifier m (q * m + suc j)).1)
  unfolding record_get
  get_recent q j l h lo hi = rw (part_lem m q j h) (ground (arith, lo, hi))

  get_dumped :
      (q j : ℕ) (l : Log B)
      → j < m
      → q * m + m + m ≤ l.incr
      → dump ≡ true
      → record_get m dump (q * m + suc j) l
        ≡ read_dumped m dump (q * m + m) (map_identifier m (q * m + suc j)).1 l
  unfolding record_get
  get_dumped q j l h lo d = rw (part_lem m q j h) (ground (arith, lo, d, h))

  -- A file that has the record at that place
  read_dumped_lem :
      (part : ℕ) (i : ℤ) (l : Log B) (xs : List (Record B)) (r : Record B)
      → lookup part l.files ≡ some xs
      → lindex xs i ≡ some r
      → read_dumped m dump part i l ≡ ok (some r)
  unfolding read_dumped
  read_dumped_lem part i l [] r e h = absurd (lindex_nil i r h)
  read_dumped_lem part (pos i) l (x ∷ xs) r e h =
      let there : ltb i (length (x ∷ xs)) ≡ true = in_list i (x ∷ xs) r (unfold lindex in h) in
      rw (read_dumped, e, there, h) refl
  read_dumped_lem part (negsuc i) l (x ∷ xs) r e h = rw (read_dumped, e, h) refl

  -- The page of the newest record
  newest :
      (all : List (Record B)) (l : Log B) (k : IsKept m dump positive all l) (q : ℕ)
      → q * m < length all
      → length all ≤ q * m + m
      → k.pages ≡ q
  newest all l k q lo hi = elim (Bool-cases (ltb k.pages q)) [
    | inl e ↦
        let past = below m k.pages q (ltb→lt k.pages q e) in
        absurd (omega (arith, past, lo, k.high))
    | inr e ↦ elim (Bool-cases (ltb q k.pages)) [
      | inl f ↦
          let past = below m q k.pages (ltb→lt q k.pages f) in
          absurd (elim k.begun [
            | inl zero' ↦ let less = ltb→lt q k.pages f in omega (arith, zero', less)
            | inr more ↦ omega (arith, past, hi, more)
          ])
      | inr f ↦ ground (arith, e, f)
    ]
  ]

  -- A page before the newest
  older :
      (all : List (Record B)) (l : Log B) (k : IsKept m dump positive all l) (q : ℕ)
      → q * m + m < length all
      → q < k.pages
  older all l k q lo = elim (Bool-cases (ltb q k.pages)) [
    | inl e ↦ ltb→lt q k.pages e
    | inr e ↦
        let less : k.pages ≤ q = ground (arith, e) in
        absurd (omega (arith, mul-le-mul_right m less, k.high, lo))
  ]

  recent_page :
      (all : List (Record B)) (l : Log B) (k : IsKept m dump positive all l) (q j : ℕ)
      → k.pages ≡ q
      → get_elem? l.records j ≡ get_elem? all (q * m + j)
  recent_page all l k q j e =
      ap (λ xs. get_elem? xs j) k.recent
      ∙ get_elem-drop (k.pages * m) j all
      ∙ ap (λ p. get_elem? all (p * m + j)) e

  -- Reading a record of the newest page
  read_recent :
      (all : List (Record B)) (l : Log B) (k : IsKept m dump positive all l) (q j : ℕ)
      (r : Record B)
      → j < m
      → get_elem? all (q * m + j) ≡ some r
      → length all ≤ q * m + m
      → record_get m dump (q * m + suc j) l ≡ ok (some r)
  read_recent all l k q j r h e hi =
      let inside : q * m + j < length all = ltb→lt _ _ (in_list (q * m + j) all r e) in
      let here = newest all l k q (omega (arith, inside)) hi in
      let size : length l.records ≡ length all - q * m =
        ap length k.recent ∙ length-drop (k.pages * m) all ∙ ap (λ p. length all - p * m) here in
      get_recent q j l h (omega (arith, k.counted, inside)) (omega (arith, k.counted, hi, positive))
      ∙ ap loads (
          lindex-page m q j l.records h (omega (arith, size, hi))
            (λ full. omega (arith, size, hi, inside, full))
          ∙ recent_page all l k q j here
          ∙ e)
      ∙ unfold loads in refl

  -- Reading a record of a page that was written to its file
  read_old :
      (all : List (Record B)) (l : Log B) (k : IsKept m dump positive all l) (q j : ℕ)
      (r : Record B)
      → j < m
      → get_elem? all (q * m + j) ≡ some r
      → q * m + m + m ≤ length all
      → dump ≡ true
      → record_get m dump (q * m + suc j) l ≡ ok (some r)
  read_old all l k q j r h e lo d =
      let page = take m (drop (q * m) all) in
      let size : length page ≡ m =
        length-take m (drop (q * m) all) (omega (arith, length-drop (q * m) all, lo)) in
      get_dumped q j l h (omega (arith, k.counted, lo)) d
      ∙ read_dumped_lem (q * m + m) (map_identifier m (q * m + suc j)).1 l page r
          (k.dumped d q (older all l k q (omega (arith, lo, positive))))
          (lindex-page m q j page h (omega (arith, size)) (λ full. size)
            ∙ get_elem-take m j (drop (q * m) all) h
            ∙ get_elem-drop (q * m) j all
            ∙ e)

  -- Reading a record of the page before the newest, while the newest is not full
  read_stale :
      (all : List (Record B)) (l : Log B) (k : IsKept m dump positive all l) (q j : ℕ)
      → suc j < m
      → q * m + m < length all
      → length all < q * m + m + m
      → record_get m dump (q * m + suc j) l ≡ loads (get_elem? all (q * m + m + j))
  read_stale all l k q j h lo hi =
      let here = newest all l k (suc q) (omega (arith, lo)) (omega (arith, hi)) in
      let less : j < m = omega (arith, h) in
      let size : length l.records ≡ length all - suc q * m =
        ap length k.recent ∙ length-drop (k.pages * m) all ∙ ap (λ p. length all - p * m) here in
      get_recent q j l less (omega (arith, k.counted, lo, h)) (omega (arith, k.counted, hi))
      ∙ ap loads (
          lindex-page m q j l.records less (omega (arith, size, hi))
            (λ full. absurd (omega (arith, full, h)))
          ∙ recent_page all l k (suc q) j here
          ∙ ap (get_elem? all) (omega arith))

  kept : (bs : List B) → IsKept m dump positive (numbered 0 bs) (handle_all m dump bs new_log)
  kept bs = handle_all-new_log-IsKept m dump positive bs

  -- After any messages from an empty log, the record of a message is read by its identifier, if it is
  -- on the newest page, or if the handler dumps and the page behind the record's is full.
  pub record_get-handle_all :
      (bs : List B) (q j : ℕ) (b : B)
      → j < m
      → get_elem? bs (q * m + j) ≡ some b
      → (length bs ≤ q * m + m) ⊎ (dump ≡ true) × (q * m + m + m ≤ length bs)
      → record_get m dump (q * m + suc j) (handle_all m dump bs new_log)
        ≡ ok (some (q * m + suc j, b))
  record_get-handle_all bs q j b h e c =
      let k = kept bs in
      let len = length-numbered 0 bs in
      let there : get_elem? (numbered 0 bs) (q * m + j) ≡ some (q * m + suc j, b) =
        get_elem-numbered 0 (q * m + j) bs b e ∙ ap (λ i. some (i, b)) (omega arith) in
      elim c [
        | inl hi ↦ read_recent (numbered 0 bs) _ k q j _ h there (omega (arith, len, hi))
        | inr (d, lo) ↦ read_old (numbered 0 bs) _ k q j _ h there (omega (arith, len, lo)) d
      ]

  -- While the newest page is not full, a record of the page before it, but for its last, is not read:
  -- record_get gives the record of the newest page in the same place, or raises if there is none yet.
  pub record_get_stale :
      (bs : List B) (q j : ℕ)
      → suc j < m
      → q * m + m < length bs
      → length bs < q * m + m + m
      → record_get m dump (q * m + suc j) (handle_all m dump bs new_log)
        ≡ elim (get_elem? bs (q * m + m + j)) [
          | none ↦ err type_error
          | some b ↦ ok (some (q * m + m + suc j, b))
        ]
  record_get_stale bs q j h lo hi =
      let len = length-numbered 0 bs in
      read_stale (numbered 0 bs) _ (kept bs) q j h (omega (arith, len, lo)) (omega (arith, len, hi))
      ∙ elim (Option-cases (get_elem? bs (q * m + m + j))) [
        | inl e ↦
            ap loads (
              get_elem_none (q * m + m + j) (numbered 0 bs)
                (omega (arith, len, past_end (q * m + m + j) bs e)))
            ∙ rw e (unfold loads in refl)
        | inr (b, e) ↦
            ap loads (get_elem-numbered 0 (q * m + m + j) bs b e)
            ∙ rw e (unfold loads in ap (λ i. ok (some (i, b))) (omega arith))
      ]
