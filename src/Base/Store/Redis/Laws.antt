-- ===== src/Base/Store/Redis/Laws.antt =====
-- What RedisStore keeps.
use mathlib.Core.Path.{fun_ext}
use js_ng.Prelude.{
  ℕ, ◌≡◌, refl, ap, sym, ◌∙◌, Bool, true, false, not, str, ◌||◌, ◌&&◌, none, some, List, [], ◌∷◌,
  ◌++◌, ◌==◌, str_eq, nat_eq, starts, starts-append, contains, if◌then◌else◌, Str, arith,
  Bool-cases, inl, inr, ==→eq, ==_refl,
}
use js_ng.Prelude.Dict.{lookup, has_key, remove_if, lookup-insert, lookup-remove_if}
use js_ng.Prelude.Result.{ok-inj, ok, err, response_error, >>=-eq-ok}
use js_ng.Base.Store.Location.{Location, location_name, Op, write, delete, replay}
use js_ng.Base.Store.Redis.{
  Redis, keys_of, get_key, read_key, get_instance_keys, write_key, delete_keys, run_keys,
}

cons-inj : {a b : ℕ} {xs ys : Str} → Path Str (a ∷ xs) (b ∷ ys) → xs ≡ ys
cons-inj h = cc h

append-inj : (ps n m : Str) → ps ++ n ≡ ps ++ m → n ≡ m
append-inj [] n m h = h
append-inj (p ∷ ps) n m h = append-inj ps n m (cons-inj h)

differ : (n m : Str) → (n == m) ≡ false → n ≡ m → ⊥
differ n m e h = ground (arith, e, h)

pub same_key :
    (location : Location) (n m : Str) → (get_key location n == get_key location m) ≡ (n == m)
unfolding get_key
same_key location n m = elim (Bool-cases (n == m)) [
  | inl e ↦ rw (==→eq n m e, ==_refl m) (==_refl (location_name location ++ b'.' ∷ m))
  | inr e ↦ elim (Bool-cases (get_key location n == get_key location m)) [
    | inl f ↦ absurd (
        differ n m e (
          cons-inj (
            append-inj (location_name location) (b'.' ∷ n) (b'.' ∷ m)
              (==→eq (get_key location n) (get_key location m) f))))
    | inr f ↦ f ∙ sym e
  ]
]

pub starts_key :
    (location : Location) (n m : Str)
    → starts (location_name location ++ b'.' ∷ m) (get_key location n) ≡ starts m n
unfolding get_key
starts_key location n m =
    starts-append (location_name location) (b'.' ∷ m) (b'.' ∷ n)
    ∙ (unfold starts in rw (==_refl {A = ℕ} b'.') refl)

-- A text that means itself in a pattern
unfoldable pub is_literal : Str → Bool
unfolding contains
is_literal s =
    not (contains s b'*')
    && not (contains s b'?')
    && not (contains s b'[')
    && not (contains s b'\\')

-- Of the patterns of redis: a text that means itself and a star match what begins with the text.
pub record IsGlob (matches : Str → Str → Bool) : Type 0 where
  pub literal : (s k : Str) → is_literal s ≡ true → matches (s ++ str "*") k ≡ starts s k

contains-append : (s t : Str) (c : ℕ) → contains (s ++ t) c ≡ (contains s c || contains t c)
unfolding contains
contains-append [] t c = refl
contains-append (d ∷ s) t c = ground (arith, contains-append s t c)

literal-append :
    (s t : Str) → is_literal s ≡ true → is_literal t ≡ true → is_literal (s ++ t) ≡ true
unfolding is_literal
literal-append s t h k = ground (
  arith,
  h,
  k,
  contains-append s t b'*',
  contains-append s t b'?',
  contains-append s t b'[',
  contains-append s t b'\\',
)

dot_literal : (n : Str) → is_literal n ≡ true → is_literal (b'.' ∷ n) ≡ true
dot_literal n h = literal-append (b'.' ∷ []) n (unfold is_literal contains nat_eq in refl) h

-- What an instance's pattern matches
pub matches_key :
    (matches : Str → Str → Bool) (location : Location) (n m : Str)
    → IsGlob matches
    → is_literal (location_name location) ≡ true
    → is_literal m ≡ true
    → matches (location_name location ++ b'.' ∷ m ++ str "*") (get_key location n) ≡ starts m n
matches_key matches location n m glob at_location named =
    glob.literal (location_name location ++ b'.' ∷ m) (get_key location n)
      (literal-append (location_name location) (b'.' ∷ m) at_location (dot_literal m named))
    ∙ starts_key location n m

-- Only such names are deleted.
abbrev pub DeleteLiterals : {D : Type 0} → List (Op D) → Type 0
DeleteLiterals [] = Unit {0}
DeleteLiterals (write n d ∷ ops) = DeleteLiterals ops
DeleteLiterals (delete n ∷ ops) = (is_literal n ≡ true) × DeleteLiterals ops

module _ {D : Type 0} where
  -- The keys of a pattern, among those of the database
  contains-keys_of :
      (matches : Str → Str → Bool) (pattern j : Str) (db : Redis D)
      → contains (keys_of matches pattern db) j ≡ (matches pattern j && has_key j db)
  unfolding contains keys_of has_key lookup
  contains-keys_of matches pattern j [] = ground arith
  contains-keys_of matches pattern j ((k, d) ∷ db) = elim (Bool-cases (j == k)) [
    | inl e ↦
        let same : matches pattern k ≡ matches pattern j =
          ap (matches pattern) (sym (==→eq j k e)) in
        ground (arith, e, same, contains-keys_of matches pattern j db)
    | inr e ↦ ground (arith, e, contains-keys_of matches pattern j db)
  ]

  removed :
      (ks : List Str) (db after : Redis D)
      → (elim ks [
        | [] ↦ err response_error
        | k ∷ ks' ↦ ok (remove_if (λ j. contains (k ∷ ks') j) db)
      ])
        ≡ ok after
      → after ≡ remove_if (λ j. contains ks j) db
  removed [] db after h = absurd (ground (arith, h))
  removed (k ∷ ks) db after h = ok-inj (sym h)

  gone :
      (b : Bool) (j : Str) (db : Redis D)
      → (if b && has_key j db then none else lookup j db) ≡ (if b then none else lookup j db)
  unfolding has_key
  gone b j db = ground arith

  module _ (location : Location) where
    view-write :
        (n m : Str) (d : D) (db : Redis D)
        → read_key location n (write_key location m d db)
          ≡ (if n == m then some d else read_key location n db)
    unfolding read_key write_key
    view-write n m d db =
        lookup-insert (get_key location n) (get_key location m) d db
        ∙ ap (λ b. if b then some d else read_key location n db) (same_key location n m)

    module _ (matches : Str → Str → Bool) (glob : IsGlob matches) where
      view-delete :
          (n m : Str) (db after : Redis D)
          → is_literal (location_name location) ≡ true
          → is_literal m ≡ true
          → delete_keys matches location m db ≡ ok after
          → read_key location n after ≡ (if starts m n then none else read_key location n db)
      unfolding read_key delete_keys get_instance_keys
      view-delete n m db after at_location named h =
          let pattern = location_name location ++ b'.' ∷ m ++ str "*" in
          let ks = keys_of matches pattern db in
          ap (lookup (get_key location n)) (removed ks db after h)
          ∙ lookup-remove_if (λ j. contains ks j) (get_key location n) db
          ∙ ap (λ b. if b then none else lookup (get_key location n) db)
              (contains-keys_of matches pattern (get_key location n) db
                ∙ ap (λ b. b && has_key (get_key location n) db)
                    (matches_key matches location n m glob at_location named))
          ∙ gone (starts m n) (get_key location n) db

      -- Whatever is written and deleted, in any order, as long as no deletion raises: reading an
      -- instance afterwards gives what a dict of the instances has that loses, with every name that is
      -- deleted, also the names that begin with it. The name of the location and the names that are
      -- deleted have no character in them that means something else in a pattern of redis.
      pub read_key-run_keys :
          (ops : List (Op D)) (db after : Redis D) (n : Str)
          → is_literal (location_name location) ≡ true
          → DeleteLiterals ops
          → run_keys matches location ops db ≡ ok after
          → read_key location n after ≡ replay starts ops (λ k. read_key location k db) n
      unfolding run_keys replay
      read_key-run_keys [] db after n at_location named h =
          ap (read_key location n) (ok-inj (sym h))
      read_key-run_keys (write m d ∷ ops) db after n at_location named h =
          read_key-run_keys ops (write_key location m d db) after n at_location named h
          ∙ ap (λ f. replay starts ops f n) (fun_ext (λ k. view-write k m d db))
      read_key-run_keys (delete m ∷ ops) db after n at_location named h =
          let (mid, e, g) =
            >>=-eq-ok (delete_keys matches location m db) (λ x. run_keys matches location ops x)
              h in
          read_key-run_keys ops mid after n at_location named.1 g
          ∙ ap (λ f. replay starts ops f n)
              (fun_ext (λ k. view-delete k m db mid at_location named.0 e))
