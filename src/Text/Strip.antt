-- ===== src/Text/Strip.antt =====
-- What s.strip() gives, and when it gives s.
use js_ng.Prelude.{
  ℕ, ◌≡◌, refl, ap, ◌∙◌, false, [], ◌∷◌, if◌then◌else◌, Str, arith, Bool-cases, ◌⊎◌, inl, inr,
}
use js_ng.Text.{is_space, lstrip_by, rstrip_by, strip}

unfoldable pub StartsWell : Str → Type 0
unfolding is_space
StartsWell [] = Unit {0}
StartsWell (c ∷ s) = is_space c ≡ false

-- There is a last character, and it is no white space.
unfoldable pub EndsWell : Str → Type 0
unfolding is_space
EndsWell [] = ⊥
EndsWell (c ∷ []) = is_space c ≡ false
EndsWell (c ∷ d ∷ s) = EndsWell (d ∷ s)

pub EndsWell-cons : (c : ℕ) (s : Str) → EndsWell s → EndsWell (c ∷ s)
unfolding EndsWell
EndsWell-cons c [] h = absurd h
EndsWell-cons c (d ∷ s) h = h

lstrip_lem : (s : Str) → StartsWell (lstrip_by is_space s)
unfolding lstrip_by StartsWell
lstrip_lem [] = tt
lstrip_lem (c ∷ s) = elim (Bool-cases (is_space c)) [ inl e ↦ rw e (lstrip_lem s) | inr e ↦ rw e e ]

-- One character before what is left of the rest
abbrev before : ℕ → Str → Str
before c s = elim s [ [] ↦ if is_space c then [] else c ∷ [] | d ∷ t ↦ c ∷ d ∷ t ]

before-StartsWell : (c : ℕ) (s : Str) → is_space c ≡ false → StartsWell (before c s)
unfolding StartsWell
before-StartsWell c [] h = rw h h
before-StartsWell c (d ∷ s) h = h

before-EndsWell :
    (c : ℕ) (s : Str) → (s ≡ []) ⊎ EndsWell s → (before c s ≡ []) ⊎ EndsWell (before c s)
unfolding EndsWell
before-EndsWell c [] h = elim (Bool-cases (is_space c)) [
  | inl e ↦ inl (rw e refl)
  | inr e ↦ inr (rw e e)
]
before-EndsWell c (d ∷ s) (inl e) = absurd (ground (arith, e))
before-EndsWell c (d ∷ s) (inr h) = inr h

rstrip-StartsWell : (s : Str) → StartsWell s → StartsWell (rstrip_by is_space s)
unfolding rstrip_by StartsWell
rstrip-StartsWell [] h = tt
rstrip-StartsWell (c ∷ s) h = before-StartsWell c (rstrip_by is_space s) h

rstrip-EndsWell : (s : Str) → (rstrip_by is_space s ≡ []) ⊎ EndsWell (rstrip_by is_space s)
unfolding rstrip_by EndsWell
rstrip-EndsWell [] = inl refl
rstrip-EndsWell (c ∷ s) = before-EndsWell c (rstrip_by is_space s) (rstrip-EndsWell s)

lstrip_same : (s : Str) → StartsWell s → lstrip_by is_space s ≡ s
unfolding lstrip_by StartsWell
lstrip_same [] h = refl
lstrip_same (c ∷ s) h = rw h refl

rstrip_same : (s : Str) → EndsWell s → rstrip_by is_space s ≡ s
unfolding rstrip_by EndsWell
rstrip_same [] h = absurd h
rstrip_same (c ∷ []) h = rw h refl
rstrip_same (c ∷ d ∷ s) h = ap (before c) (rstrip_same (d ∷ s) h)

pub strip_ends : (s : Str) → StartsWell (strip s) × ((strip s ≡ []) ⊎ EndsWell (strip s))
unfolding strip
strip_ends s = (
  rstrip-StartsWell (lstrip_by is_space s) (lstrip_lem s),
  rstrip-EndsWell (lstrip_by is_space s),
)

pub strip_same : (s : Str) → StartsWell s → EndsWell s → strip s ≡ s
unfolding strip
strip_same s h k = ap (rstrip_by is_space) (lstrip_same s h) ∙ rstrip_same s k
