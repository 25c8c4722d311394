-- ===== src/Text/Replace.antt =====
-- s.replace(old, new)
use js_ng.Prelude.{
  ℕ, zero, suc, ◌≡◌, refl, ap, ◌∙◌, true, false, [], ◌∷◌, ◌++◌, starts, nat_eq, length, drop,
  if◌then◌else◌, Str, ==_refl,
}

-- s.replace(old, new), of a text old that is not empty; so many characters are still of an
-- occurrence, at first all of it but one.
unfoldable pub replace_from : Str → Str → ℕ → Str → Str
unfolding starts nat_eq
replace_from old new k [] = []
replace_from old new (suc k) (c ∷ s) = replace_from old new k s
replace_from old new zero (c ∷ s) =
    let hit = starts old (c ∷ s) in
    let rest = replace_from old new (if hit then length (drop 1 old) else 0) s in
    if hit then new ++ rest else c ∷ rest

-- s.replace("", new)
unfoldable pub put_between : Str → Str → Str
put_between new [] = new
put_between new (c ∷ s) = new ++ c ∷ put_between new s

unfoldable pub replace : Str → Str → Str → Str
unfolding replace_from put_between
replace [] new s = put_between new s
replace (c ∷ old) new s = replace_from (c ∷ old) new 0 s

-- The text occurs nowhere in the other one.
abbrev pub Absent : Str → Str → Type 0
Absent old [] = Unit {0}
Absent old (c ∷ s) = (starts old (c ∷ s) ≡ false) × Absent old s

pub starts_with_append : (p s : Str) → starts p (p ++ s) ≡ true
unfolding starts
starts_with_append [] s = refl
starts_with_append (c ∷ p) s = rw (==_refl c) (starts_with_append p s)

replace-Absent : (old new s : Str) → Absent old s → replace_from old new 0 s ≡ s
unfolding replace_from
replace-Absent old new [] h = refl
replace-Absent old new (c ∷ s) h = rw (h.0) (ap (λ t. c ∷ t) (replace-Absent old new s h.1))

replace_skipped :
    (old new xs s : Str) → replace_from old new (length xs) (xs ++ s) ≡ replace_from old new 0 s
unfolding replace_from
replace_skipped old new [] s = refl
replace_skipped old new (x ∷ xs) s = replace_skipped old new xs s

pub replace_start :
    (c : ℕ) (old new s : Str)
    → Absent (c ∷ old) s
    → replace (c ∷ old) new ((c ∷ old) ++ s) ≡ new ++ s
unfolding replace replace_from
replace_start c old new s h =
    let hit = starts_with_append (c ∷ old) s in
    rw hit
      (ap (λ t. new ++ t) (replace_skipped (c ∷ old) new old s ∙ replace-Absent (c ∷ old) new s h))
