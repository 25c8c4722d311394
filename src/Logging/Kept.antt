-- ===== src/Logging/Kept.antt =====
-- What the handler keeps of the messages that it was given.
use mathlib.Core.Path.{subst}
use mathlib.Core.List.{append-nil, append_assoc}
use native.Mathlib.Nat.{mul-le-mul_right}
use js_ng.Prelude.{
  ℕ, zero, suc, ◌+◌, ◌-◌, ◌*◌, ◌≤◌, ◌<◌, ◌≡◌, refl, ap, sym, ◌∙◌, Bool, true, false, some, List, [],
  ◌∷◌, ◌++◌, arith, ltb, if◌then◌else◌, nat_eq, ◌==◌, ==_refl, ==→eq, length, take, drop,
  length-append, length-drop, drop-append, ◌⊎◌, inl, inr, Bool-cases, ltb→lt,
}
use js_ng.Prelude.Dict.{lookup, insert, lookup-insert}
use js_ng.Logging.{
  Record, Log, new_log, map_identifier, dump_records, clean_up, process_message, rotate, handle,
  handle_all,
}
use js_ng.Logging.Pages.{part_lem, drop-short, take-short}

-- The records of messages, the first of which has the identifier behind n.
abbrev pub numbered : {B : Type 0} → ℕ → List B → List (Record B)
numbered n [] = []
numbered n (b ∷ bs) = (n + 1, b) ∷ numbered (n + 1) bs

pub below : (m p q : ℕ) → p < q → p * m + m ≤ q * m
below m p q h = omega (arith, mul-le-mul_right {m = suc p} {n = q} m (omega (arith, h)))

less_ne : (a b : ℕ) → a < b → (a == b) ≡ false
less_ne a b h = ground (arith, h)

last_part : (m q n : ℕ) → 0 < m → n ≡ q * m + m → (map_identifier m (n + 1 - 1)).0 ≡ q * m + m
last_part m q n positive h =
    let e : n + 1 - 1 ≡ q * m + suc (m - 1) = omega (arith, h, positive) in
    ap (λ i. (map_identifier m i).0) e ∙ part_lem m q (m - 1) (omega (arith, positive))

module _ {B : Type 0} (m : ℕ) (dump : Bool) (positive : 0 < m) where
  -- Of all the records, the last page is in redis, and the full pages before it are in files.
  pub record IsKept (all : List (Record B)) (l : Log B) : Type 0 where
    pub pages : ℕ
    pub counted : l.incr ≡ length all
    pub low : pages * m ≤ length all
    pub high : length all ≤ pages * m + m
    pub begun : (pages ≡ 0) ⊎ (pages * m < length all)
    pub recent : l.records ≡ drop (pages * m) all
    pub dumped :
        dump ≡ true
        → (p : ℕ) → p < pages
        → lookup (p * m + m) l.files ≡ some (take m (drop (p * m) all))

  drop_nil : (n : ℕ) → drop {A = Record B} n [] ≡ []
  drop_nil zero = refl
  drop_nil (suc n) = refl

  push_short :
      (xs : List (Record B)) (r : Record B) → length xs < m → ltb m (length (xs ++ r ∷ [])) ≡ false
  push_short xs r h = rw (length-append xs (r ∷ [])) (ground (arith, h))

  push_long :
      (xs : List (Record B)) (r : Record B) → m ≤ length xs → ltb m (length (xs ++ r ∷ [])) ≡ true
  push_long xs r h = rw (length-append xs (r ∷ [])) (ground (arith, h))

  pub new_log-IsKept : IsKept [] new_log
  new_log-IsKept = record {
    pages = 0;
    counted = refl;
    low = omega arith;
    high = omega arith;
    begun = inl refl;
    recent = sym (drop_nil (0 * m));
    dumped = λ d p h. absurd (omega (arith, h));
  }

  handle_short :
      (b : B) (l : Log B)
      → length l.records < m
      → handle m dump b l
        ≡ record { records = l.records ++ (l.incr + 1, b) ∷ []; incr = l.incr + 1; files = l.files }
  unfolding handle process_message
  handle_short b l h = rw (handle, push_short l.records (l.incr + 1, b) h) refl

  rotated : (dump' : Bool) → B → Log B → Log B
  rotated dump' b l = record {
    records = drop m (l.records ++ (l.incr + 1, b) ∷ []);
    incr = l.incr + 1;
    files =
        if dump'
        then insert (map_identifier m (l.incr + 1 - 1)).0
            (take m (l.records ++ (l.incr + 1, b) ∷ [])) l.files
        else l.files;
  }

  handle_long_by :
      (dump' : Bool) (b : B) (l : Log B)
      → m ≤ length l.records
      → handle m dump' b l ≡ rotated dump' b l
  unfolding handle process_message rotate clean_up dump_records rotated
  handle_long_by true b l h = rw (handle, push_long l.records (l.incr + 1, b) h) refl
  handle_long_by false b l h = rw (handle, push_long l.records (l.incr + 1, b) h) refl

  -- A full page stays what it is when records follow.
  page_stays :
      (p : ℕ) (b : B) (all : List (Record B)) (l : Log B) (k : IsKept all l)
      → p < k.pages
      → take m (drop (p * m) all) ≡ take m (drop (p * m) (all ++ (l.incr + 1, b) ∷ []))
  page_stays p b all l k lt =
      let full = below m p k.pages lt in
      sym (
        ap (take m) (drop-short (p * m) all ((l.incr + 1, b) ∷ []) (omega (arith, full, k.low)))
        ∙ take-short m (drop (p * m) all) ((l.incr + 1, b) ∷ [])
            (omega (arith, length-drop (p * m) all, full, k.low)))

  -- The handling of a message, when the page has room for it.
  keep_short :
      (b : B) (all : List (Record B)) (l : Log B) (k : IsKept all l)
      → length all < k.pages * m + m
      → IsKept (all ++ (l.incr + 1, b) ∷ []) (record {
        records = l.records ++ (l.incr + 1, b) ∷ [];
        incr = l.incr + 1;
        files = l.files;
      })
  keep_short b all l k h =
      let more = length-append all ((l.incr + 1, b) ∷ []) in
      record {
        pages = k.pages;
        counted = omega (arith, more, k.counted);
        low = omega (arith, more, k.low);
        high = omega (arith, more, h);
        begun = inr (omega (arith, more, k.low));
        recent =
            ap (λ xs. xs ++ (l.incr + 1, b) ∷ []) k.recent
            ∙ sym (drop-short (k.pages * m) all ((l.incr + 1, b) ∷ []) k.low);
        dumped = λ d p lt. k.dumped d p lt ∙ ap some (page_stays p b all l k lt);
      }

  -- The files after the page was written
  dumped_page :
      (p : ℕ) (b : B) (all : List (Record B)) (l : Log B) (k : IsKept all l)
      → length all ≡ k.pages * m + m
      → dump ≡ true
      → p < suc k.pages
      → lookup
          (p * m + m)
          (insert (k.pages * m + m) (take m (l.records ++ (l.incr + 1, b) ∷ [])) l.files)
        ≡ some (take m (drop (p * m) (all ++ (l.incr + 1, b) ∷ [])))
  dumped_page p b all l k h d lt =
      let r : List (Record B) = (l.incr + 1, b) ∷ [] in
      lookup-insert (p * m + m) (k.pages * m + m) (take m (l.records ++ r)) l.files
      ∙ elim (Bool-cases (p == k.pages)) [
        | inl e ↦
            let same : p ≡ k.pages = ==→eq p k.pages e in
            rw (same, ==_refl (k.pages * m + m))
              (ap (λ xs. some (take m xs))
                (ap (λ xs. xs ++ r) k.recent ∙ sym (drop-short (k.pages * m) all r k.low)))
        | inr e ↦
            let less : p < k.pages = ground (arith, e, lt) in
            rw
              (less_ne (p * m + m) (k.pages * m + m)
                (omega (arith, below m p k.pages less, positive)))
              (k.dumped d p less ∙ ap some (page_stays p b all l k less))
      ]

  -- The handling of a message, when it is the first of the next page.
  keep_long :
      (b : B) (all : List (Record B)) (l : Log B) (k : IsKept all l)
      → length all ≡ k.pages * m + m
      → IsKept (all ++ (l.incr + 1, b) ∷ []) (rotated dump b l)
  unfolding rotated
  keep_long b all l k h =
      let more = length-append all ((l.incr + 1, b) ∷ []) in
      let full : length l.records ≡ m =
        omega (arith, ap length k.recent, length-drop (k.pages * m) all, h) in
      record {
        pages = suc k.pages;
        counted = omega (arith, more, k.counted);
        low = omega (arith, more, h);
        high = omega (arith, more, h);
        begun = inr (omega (arith, more, h));
        recent =
            drop-append l.records ((l.incr + 1, b) ∷ []) m (sym full)
            ∙ sym (drop-append all ((l.incr + 1, b) ∷ []) (suc k.pages * m) (omega (arith, h)));
        dumped = λ d p lt.
            rw (d, last_part m k.pages l.incr positive (k.counted ∙ h))
              (dumped_page p b all l k h d lt);
      }

  -- One more message
  handle-IsKept :
      (b : B) (all : List (Record B)) (l : Log B)
      → IsKept all l
      → IsKept (all ++ (l.incr + 1, b) ∷ []) (handle m dump b l)
  handle-IsKept b all l k =
      let size : length l.records ≡ length all - k.pages * m =
        ap length k.recent ∙ length-drop (k.pages * m) all in
      elim (Bool-cases (ltb (length all) (k.pages * m + m))) [
        | inl e ↦
            let room = ltb→lt (length all) (k.pages * m + m) e in
            subst (λ x. IsKept (all ++ (l.incr + 1, b) ∷ []) x)
              (sym (handle_short b l (omega (arith, size, room, k.low, positive))))
              (keep_short b all l k room)
        | inr e ↦
            let full : length all ≡ k.pages * m + m = ground (arith, e, k.high) in
            subst (λ x. IsKept (all ++ (l.incr + 1, b) ∷ []) x)
              (sym (handle_long_by dump b l (omega (arith, size, full)))) (keep_long b all l k full)
      ]

  number_on :
      (all : List (Record B)) (b : B) (bs : List B) (n : ℕ)
      → n ≡ length all
      → (all ++ (n + 1, b) ∷ []) ++ numbered (length (all ++ (n + 1, b) ∷ [])) bs
        ≡ all ++ numbered (length all) (b ∷ bs)
  number_on all b bs n e =
      ap (λ k. (all ++ (n + 1, b) ∷ []) ++ numbered k bs) (length-append all ((n + 1, b) ∷ []))
      ∙ append_assoc all ((n + 1, b) ∷ []) (numbered (length all + 1) bs)
      ∙ ap (λ i. all ++ (i + 1, b) ∷ numbered (length all + 1) bs) e

  handle_all-IsKept :
      (bs : List B) (all : List (Record B)) (l : Log B)
      → IsKept all l
      → IsKept (all ++ numbered (length all) bs) (handle_all m dump bs l)
  unfolding handle_all
  handle_all-IsKept [] all l k = subst (λ xs. IsKept xs l) (sym (append-nil all)) k
  handle_all-IsKept (b ∷ bs) all l k =
      let r : List (Record B) = (l.incr + 1, b) ∷ [] in
      subst (λ xs. IsKept xs (handle_all m dump bs (handle m dump b l)))
        (number_on all b bs l.incr k.counted)
        (handle_all-IsKept bs (all ++ r) (handle m dump b l) (handle-IsKept b all l k))

  -- After any messages, from an empty log, their records are kept: the last page in redis, and every
  -- full page before it in its file, if the handler dumps.
  pub handle_all-new_log-IsKept :
      (bs : List B) → IsKept (numbered 0 bs) (handle_all m dump bs new_log)
  handle_all-new_log-IsKept bs = handle_all-IsKept bs [] new_log new_log-IsKept
