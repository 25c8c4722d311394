-- ===== src/Config/Laws.antt =====
-- Migration keeps what a configuration has, and adds what is missing.
use js_ng.Prelude.{
  ◌≡◌, refl, ap, sym, ◌∙◌, Option, none, some, List, [], ◌∷◌, arith, ◌==◌, str_eq, ==→eq,
  if◌then◌else◌, Str, Option-cases, inl, inr, Bool-cases,
}
use mathlib.Core.Path.{subst}
use js_ng.Prelude.Result.{Result, ok, ◌>>=◌, >>=-eq-ok}
use js_ng.Config.{
  Setting, Toml, Table, setting, table, nil, cons, get_key, set_key, copy_missing, copy_into,
  copy_to_setting, migrate_config, get_default_config,
}

-- The value at a path of keys
abbrev pub value_at : List Str → Toml → Option Toml
value_at [] v = some v
value_at (k ∷ ks) (setting s) = none
value_at (k ∷ ks) (table t) = elim (get_key k t) [ none ↦ none | some v ↦ value_at ks v ]

pub get-set :
    (j k : Str) (v : Toml) (t : Table)
    → get_key j (set_key k v t) ≡ (if j == k then some v else get_key j t)
unfolding get_key set_key
get-set j k v nil = refl
get-set j k v (cons i w t) = ground (arith, get-set j k v t)

-- A table that has all the settings of another, each at its path
abbrev pub Keeps : Toml → Toml → Type 0
Keeps v w =
    (p : List Str) (s : Setting) → value_at p v ≡ some (setting s) → value_at p w ≡ some (setting s)

ok-inj : {A : Type 0} {x y : A} → Path (Result A) (ok x) (ok y) → x ≡ y
ok-inj h = cc h

-- What becomes of a key, by what the defaults and the configuration have for it.
abbrev pub merge : Option Toml → Option Toml → Result (Option Toml)
merge none c = ok c
merge (some v) none = ok (some v)
merge (some v) (some w) = copy_into v w >>= λ x. ok (some x)

-- The first key of the defaults is merged, and then the others.
copy_cons_lem :
    (k : Str) (v : Toml) (d cur after : Table)
    → copy_missing (cons k v d) cur ≡ ok after
    → (x : Toml) × (merge (some v) (get_key k cur) ≡ ok (some x))
      × (copy_missing d (set_key k x cur) ≡ ok after)
unfolding copy_missing
copy_cons_lem k v d cur after h = elim (Option-cases (get_key k cur)) [
  | inl e ↦ (v, ground (arith, e), ground (arith, e, h))
  | inr (w, e) ↦
      let (x, f, g) =
        >>=-eq-ok (copy_into v w) (λ x. copy_missing d (set_key k x cur)) (ground (arith, e, h)) in
      (x, ground (arith, e, f), g)
]

none-some :
    (k : Str) (t : Table) (s : Setting) (p : List Str)
    → get_key k t ≡ none
    → value_at (k ∷ p) (table t) ≡ some (setting s)
    → ⊥
none-some k t s p e h = ground (arith, e, h)

at-set :
    (j k : Str) (p : List Str) (v : Toml) (t : Table)
    → value_at (j ∷ p) (table (set_key k v t))
      ≡ (if j == k then value_at p v else value_at (j ∷ p) (table t))
at-set j k p v t = ground (arith, get-set j k v t)

Keeps-set_none :
    (k : Str) (v : Toml) (t : Table) → get_key k t ≡ none → Keeps (table t) (table (set_key k v t))
Keeps-set_none k v t e [] s h = absurd (cc h)
Keeps-set_none k v t e (j ∷ p) s h = at-set j k p v t ∙ elim (Bool-cases (j == k)) [
  | inl f ↦ absurd (
      none-some k t s p e
        (subst (λ i. value_at (i ∷ p) (table t) ≡ some (setting s)) (==→eq j k f) h))
  | inr f ↦ rw f h
]

Keeps-set :
    (k : Str) (v w : Toml) (t : Table)
    → get_key k t ≡ some v
    → Keeps v w
    → Keeps (table t) (table (set_key k w t))
Keeps-set k v w t e keep [] s h = absurd (cc h)
Keeps-set k v w t e keep (j ∷ p) s h = at-set j k p w t ∙ elim (Bool-cases (j == k)) [
  | inl f ↦ rw f (
      keep p s (
        subst (λ o. elim o [ none ↦ none | some x ↦ value_at p x ] ≡ some (setting s)) e
          (subst (λ i. value_at (i ∷ p) (table t) ≡ some (setting s)) (==→eq j k f) h)))
  | inr f ↦ rw f h
]

Keeps-trans : (a b c : Toml) → Keeps a b → Keeps b c → Keeps a c
Keeps-trans a b c h k p s e = k p s (h p s e)

Keeps-merge :
    (k : Str) (v x : Toml) (t : Table)
    → ((w : Toml) → copy_into v w ≡ ok x → Keeps w x)
    → merge (some v) (get_key k t) ≡ ok (some x)
    → Keeps (table t) (table (set_key k x t))
Keeps-merge k v x t keep m = elim (Option-cases (get_key k t)) [
  | inl e ↦ Keeps-set_none k x t e
  | inr (w, e) ↦
      let both : (copy_into v w >>= λ z. ok (some z)) ≡ ok (some x) = ground (arith, e, m) in
      let (y, f, g) = >>=-eq-ok (copy_into v w) (λ z. ok (some z)) both in
      Keeps-set k w x t e (keep w (ground (arith, f, g)))
]

-- What a successful copy has done, by cases.
copy_nil : (cur after : Table) → copy_missing nil cur ≡ ok after → cur ≡ after
unfolding copy_missing
copy_nil cur after h = ok-inj h

copy_setting : (v : Setting) (w x : Toml) → copy_into (setting v) w ≡ ok x → w ≡ x
unfolding copy_into
copy_setting v w x h = ok-inj h

copy_to :
    (d : Table) (s : Setting) (x : Toml) → copy_into (table d) (setting s) ≡ ok x → setting s ≡ x
unfolding copy_into
copy_to d s x h =
    let (u, f, g) = >>=-eq-ok (copy_to_setting d s) (λ u. ok (setting s)) h in ok-inj g

copy_table :
    (d t : Table) (x : Toml)
    → copy_into (table d) (table t) ≡ ok x
    → (t' : Table) × (copy_missing d t ≡ ok t') × (table t' ≡ x)
unfolding copy_into
copy_table d t x h =
    let (t', f, g) = >>=-eq-ok (copy_missing d t) (λ y. ok (table y)) h in (t', f, ok-inj g)

mutual
  -- No setting is lost or changed, at any depth.
  copy_missing-Keeps :
      (d cur after : Table) → copy_missing d cur ≡ ok after → Keeps (table cur) (table after)
  copy_missing-Keeps nil cur after h =
      subst (λ x. Keeps (table cur) (table x)) (copy_nil cur after h) (λ p s e. e)
  copy_missing-Keeps (cons k v d) cur after h =
      let (x, m, g) = copy_cons_lem k v d cur after h in
      Keeps-trans (table cur) (table (set_key k x cur)) (table after)
        (Keeps-merge k v x cur (λ w f. copy_into-Keeps v w x f) m)
        (copy_missing-Keeps d (set_key k x cur) after g)

  copy_into-Keeps : (v w w' : Toml) → copy_into v w ≡ ok w' → Keeps w w'
  copy_into-Keeps (setting v) w w' h = subst (λ x. Keeps w x) (copy_setting v w w' h) (λ p s e. e)
  copy_into-Keeps (table d) (setting s) w' h =
      subst (λ x. Keeps (setting s) x) (copy_to d s w' h) (λ p s' e. e)
  copy_into-Keeps (table d) (table t) w' h =
      let (t', f, g) = copy_table d t w' h in
      subst (λ x. Keeps (table t) x) g (copy_missing-Keeps d t t' f)

-- Migrating a configuration keeps each of its settings, in tables of any depth, with its value.
pub migrate_config-Keeps :
    (in_root : Str → Str) (cur after : Table) (p : List Str) (s : Setting)
    → migrate_config in_root cur ≡ ok after
    → value_at p (table cur) ≡ some (setting s)
    → value_at p (table after) ≡ some (setting s)
unfolding migrate_config
migrate_config-Keeps in_root cur after p s h =
    copy_missing-Keeps (get_default_config in_root) cur after h p s

abbrev pub NodupKeys : Table → Type 0
NodupKeys nil = Unit
NodupKeys (cons k v t) = (get_key k t ≡ none) × NodupKeys t

get-cons :
    (k j : Str) (v : Toml) (t : Table)
    → get_key k (cons j v t) ≡ (if k == j then some v else get_key k t)
unfolding get_key
get-cons k j v t = refl

merge-none :
    (o c r : Option Toml) (x : Toml) → o ≡ none → c ≡ some x → merge o c ≡ ok r → ok (some x) ≡ ok r
merge-none o c r x e f h = ground (arith, e, f, h)

-- Copying the missing settings of a table without duplicate keys into another merges what the two
-- have for each key: what only one of them has is taken, and where both have something it is copied
-- into the second's.
pub copy_missing-merge :
    (k : Str) (d cur after : Table)
    → NodupKeys d
    → copy_missing d cur ≡ ok after
    → merge (get_key k d) (get_key k cur) ≡ ok (get_key k after)
copy_missing-merge k nil cur after u h =
    unfold get_key in ap (λ t. ok (get_key k t)) (copy_nil cur after h)
copy_missing-merge k (cons j v d) cur after u h =
    let (x, m, g) = copy_cons_lem j v d cur after h in
    let ih = copy_missing-merge k d (set_key j x cur) after u.1 g in
    elim (Bool-cases (k == j)) [
      | inl e ↦
          let here = ==→eq k j e in
          rw (get-cons k j v d, e)
            (subst (λ i. merge (some v) (get_key i cur) ≡ ok (get_key k after)) (sym here)
              (m
                ∙ merge-none (get_key k d) (get_key k (set_key j x cur)) (get_key k after) x
                    (subst (λ i. get_key i d ≡ none) (sym here) u.0)
                    (rw (get-set k j x cur, e) refl) ih))
      | inr e ↦
          rw (get-cons k j v d, e)
            (subst (λ c. merge (get_key k d) c ≡ ok (get_key k after))
              (rw (get-set k j x cur, e) refl) ih)
    ]
