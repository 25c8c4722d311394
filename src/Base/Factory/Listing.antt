-- ===== src/Base/Factory/Listing.antt =====
-- The names that a store lists, and the instances of these names.
use js_ng.Prelude.{
  ◌≡◌, refl, ap, ◌∙◌, true, false, none, some, List, [], ◌∷◌, ◌++◌, ◌==◌, str_eq, ==→eq, ==_refl,
  contains, if◌then◌else◌, Str, arith, Bool-cases, Option-cases, inl, inr,
}
use js_ng.Prelude.Dict.{Dict, lookup, has_key, keys}
use js_ng.Base.Value.{Entries}

pub lookup-snoc :
    (k n : Str) (a : Entries) (d : Dict Str Entries)
    → lookup k d ≡ none
    → (k == n) ≡ false
    → lookup k (d ++ (n, a) ∷ []) ≡ none
unfolding lookup
lookup-snoc k n v [] h e = rw e
lookup-snoc k n v ((j, w) ∷ d) h e = ground (arith, lookup-snoc k n v d)

-- The names of the instances of a dict, each once and in whatever order
abbrev pub Nodup : List Str → Type 0
Nodup [] = Unit
Nodup (n ∷ names) = (contains names n ≡ false) × Nodup names

abbrev pub IsListing {ℓ} : {V : Type ℓ} → List Str → Dict Str V → Type 0
IsListing names d = Nodup names × ((n : Str) → contains names n ≡ has_key n d)

-- The instances of these names, in their order
unfoldable pub pick : List Str → Dict Str Entries → Dict Str Entries
pick [] xs = []
pick (n ∷ names) xs =
    let rest = pick names xs in elim (lookup n xs) [ none ↦ rest | some a ↦ (n, a) ∷ rest ]

pub lookup-pick :
    (names : List Str) (xs : Dict Str Entries) (k : Str)
    → lookup k (pick names xs) ≡ (if contains names k then lookup k xs else none)
unfolding pick lookup contains
lookup-pick [] xs k = refl
lookup-pick (n ∷ names) xs k = elim (Option-cases (lookup n xs)) [
  | inl e ↦ elim (Bool-cases (k == n)) [
    | inl same ↦
        let missing = ap (λ j. lookup j xs) (==→eq k n same) ∙ e in
        ground (arith, e, same, missing, lookup-pick names xs k)
    | inr apart ↦ ground (arith, e, apart, lookup-pick names xs k)
  ]
  | inr (a, e) ↦ elim (Bool-cases (k == n)) [
    | inl same ↦
        let here = ap (λ j. lookup j xs) (==→eq k n same) ∙ e in ground (arith, e, same, here)
    | inr apart ↦ ground (arith, e, apart, lookup-pick names xs k)
  ]
]

pub pick_known :
    (n : Str) (a : Entries) (names : List Str) (xs : Dict Str Entries)
    → lookup n xs ≡ some a
    → pick (n ∷ names) xs ≡ (n, a) ∷ pick names xs
unfolding pick
pick_known n a names xs e = ground (arith, e)

abbrev pub AllIn : List Str → Dict Str Entries → Type 0
AllIn names xs = (k : Str) → contains names k ≡ true → has_key k xs ≡ true

pub first_in : (n : Str) (names : List Str) → contains (n ∷ names) n ≡ true
unfolding contains
first_in n names = ground (arith, ==_refl n)

pub later_in :
    (n k : Str) (names : List Str) → contains names k ≡ true → contains (n ∷ names) k ≡ true
unfolding contains
later_in n k names h = ground (arith, h)

pub there :
    (n : Str) (xs : Dict Str Entries) → has_key n xs ≡ true → (a : Entries) × (lookup n xs ≡ some a)
unfolding has_key
there n xs h = elim (Option-cases (lookup n xs)) [
  | inl e ↦ absurd (ground (arith, h, e))
  | inr r ↦ r
]

pub keys-pick :
    (names : List Str) (xs : Dict Str Entries) → AllIn names xs → keys (pick names xs) ≡ names
unfolding keys pick
keys-pick [] xs all = refl
keys-pick (n ∷ names) xs all =
    let (a, e) = there n xs (all n (first_in n names)) in
    let rest = keys-pick names xs (λ k h. all k (later_in n k names h)) in ground (arith, e, rest)

-- Names that stand once, and not in the dict.
abbrev pub Ready : List Str → Dict Str Entries → Type 0
Ready [] d = Unit
Ready (n ∷ names) d = (contains names n ≡ false) × (lookup n d ≡ none) × Ready names d

pub Ready-snoc :
    (names : List Str) (n : Str) (a : Entries) (d : Dict Str Entries)
    → contains names n ≡ false
    → Ready names d
    → Ready names (d ++ (n, a) ∷ [])
unfolding contains
Ready-snoc [] n a d h r = tt
Ready-snoc (k ∷ names) n a d h r = (
  r.0,
  lookup-snoc k n a d r.1 (differ k n (ground (arith, h))),
  Ready-snoc names n a d (ground (arith, h)) r.2,
)
  where
    differ : (k n : Str) → (n == k) ≡ false → (k == n) ≡ false
    differ k n h = elim (Bool-cases (k == n)) [
      | inl e ↦ absurd (ground (arith, h, ap (λ x. n == x) (==→eq k n e) ∙ ==_refl n))
      | inr e ↦ e
    ]

pub Nodup-Ready : (names : List Str) → Nodup names → Ready names []
unfolding lookup
Nodup-Ready [] u = tt
Nodup-Ready (n ∷ names) u = (u.0, refl, Nodup-Ready names u.1)
