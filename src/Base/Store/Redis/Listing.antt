-- ===== src/Base/Store/Redis/Listing.antt =====
-- What RedisStore lists.
use mathlib.Core.Path.{subst}
use mathlib.Core.List.{append_assoc}
use js_ng.Prelude.{
  ◌≡◌, refl, sym, ap, ◌∙◌, Bool, true, false, ◌||◌, List, [], ◌∷◌, ◌++◌, ◌==◌, str_eq, nat_eq,
  starts, contains, eqb, Str, str, arith, Bool-cases, inl, inr,
}
use js_ng.Prelude.Dict.{lookup, insert, has_key, has_key-cons, remove_if}
use js_ng.Prelude.Result.{ok, err, ok-inj, >>=-eq-ok, response_error}
use js_ng.Text.{lstrip_by}
use js_ng.Text.Replace.{Absent, replace, replace_start}
use js_ng.Base.Store.Location.{Location, location_name, Op, write, delete}
use js_ng.Base.Store.Redis.{
  Redis, keys_of, get_key, get_location_keys, get_instance_keys, name_of_key, plain_names,
  list_keys, write_key, delete_keys, run_keys,
}
use js_ng.Base.Store.Redis.Laws.{same_key, IsGlob, is_literal, matches_key}

-- A name that list_all gives back: it has no dot, and the name of the location does not occur in it.
pub record IsPlain (location : Location) (n : Str) : Type 0 where
  pub no_dot : contains n b'.' ≡ false
  pub no_location : Absent (location_name location) (b'.' ∷ n)

abbrev dots_off : Str → Str
dots_off s = lstrip_by (λ c. eqb c b'.') s

lstrip_plain : (n : Str) → contains n b'.' ≡ false → dots_off n ≡ n
unfolding lstrip_by contains
lstrip_plain [] h = refl
lstrip_plain (c ∷ n) h = ground (arith, h)

replaced :
    (start n : Str)
    → contains n b'.' ≡ false
    → Absent start (b'.' ∷ n)
    → dots_off (replace start [] (start ++ b'.' ∷ n)) ≡ n
unfolding lstrip_by starts
replaced [] n h absent = absurd (ground (arith, absent.0))
replaced (c ∷ start) n h absent =
    ap dots_off (replace_start c start [] (b'.' ∷ n) absent) ∙ lstrip_plain n h

name_of_key-get_key :
    (location : Location) (n : Str)
    → IsPlain location n
    → name_of_key location (get_key location n) ≡ n
unfolding name_of_key get_key
name_of_key-get_key location n p = replaced (location_name location) n p.no_dot p.no_location

listed :
    (location : Location) (k m n : Str) (ks : List Str)
    → k ≡ get_key location m
    → IsPlain location m
    → contains (plain_names location (k ∷ ks)) n ≡ (n == m || contains (plain_names location ks) n)
unfolding plain_names contains
listed location k m n ks e p = rw (e, name_of_key-get_key location m p, p.no_dot) refl

of_location :
    (matches : Str → Str → Bool) (location : Location) (k m : Str)
    → IsGlob matches
    → is_literal (location_name location) ≡ true
    → k ≡ get_key location m
    → matches (location_name location ++ str ".*") k ≡ true
unfolding starts
of_location matches location k m glob at_location e =
    ap (matches (location_name location ++ str ".*")) e
    ∙ ap (λ p. matches p (get_key location m))
        (sym (append_assoc (location_name location) (b'.' ∷ []) (str "*")))
    ∙ matches_key matches location m [] glob at_location (unfold is_literal contains in refl)

module _ {D : Type 0} (matches : Str → Str → Bool) (location : Location) where
  -- All keys are those of plain names.
  abbrev pub AreKeys : Redis D → Type 0
  AreKeys [] = Unit {0}
  AreKeys ((k, d) ∷ db) = ((n : Str) × (k ≡ get_key location n) × IsPlain location n) × AreKeys db

  insert-AreKeys :
      (n : Str) (d : D) (db : Redis D)
      → IsPlain location n
      → AreKeys db
      → AreKeys (insert (get_key location n) d db)
  unfolding insert
  insert-AreKeys n d [] p h = ((n, refl, p), tt)
  insert-AreKeys n d ((k, w) ∷ db) p h = elim (Bool-cases (get_key location n == k)) [
    | inl e ↦ rw e (h.0, h.1)
    | inr e ↦ rw e (h.0, insert-AreKeys n d db p h.1)
  ]

  remove_if-AreKeys : (p : Str → Bool) (db : Redis D) → AreKeys db → AreKeys (remove_if p db)
  unfolding remove_if
  remove_if-AreKeys p [] h = tt
  remove_if-AreKeys p ((k, w) ∷ db) h = elim (Bool-cases (p k)) [
    | inl e ↦ rw e (remove_if-AreKeys p db h.1)
    | inr e ↦ rw e (h.0, remove_if-AreKeys p db h.1)
  ]

  has_key-get_key :
      (k m n : Str) (d : D) (db : Redis D)
      → k ≡ get_key location m
      → has_key (get_key location n) ((k, d) ∷ db) ≡ (n == m || has_key (get_key location n) db)
  has_key-get_key k m n d db e =
      has_key-cons (get_key location n) k d db
      ∙ ap (λ b. b || has_key (get_key location n) db)
          (ap (λ j. get_key location n == j) e ∙ same_key location n m)

  -- The names that are listed are those of the keys.
  pub contains-list_keys :
      (db : Redis D) (n : Str)
      → IsGlob matches
      → is_literal (location_name location) ≡ true
      → AreKeys db
      → contains (list_keys matches location db) n ≡ has_key (get_key location n) db
  unfolding list_keys get_location_keys keys_of has_key lookup contains
  contains-list_keys [] n glob at_location h = refl
  contains-list_keys ((k, d) ∷ db) n glob at_location ((m, e, p), h) =
      let ks = keys_of matches (location_name location ++ str ".*") db in
      rw (of_location matches location k m glob at_location e) (listed location k m n ks e p)
      ∙ ap (λ b. n == m || b) (contains-list_keys db n glob at_location h)
      ∙ sym (has_key-get_key k m n d db e)

  -- Calls with plain names leave plain names.
  abbrev pub WritePlain : List (Op D) → Type 0
  WritePlain [] = Unit {0}
  WritePlain (write n d ∷ ops) = IsPlain location n × WritePlain ops
  WritePlain (delete n ∷ ops) = WritePlain ops

  delete_keys-AreKeys :
      (n : Str) (db after : Redis D)
      → AreKeys db
      → delete_keys matches location n db ≡ ok after
      → AreKeys after
  unfolding delete_keys
  delete_keys-AreKeys n db after h e = kept (get_instance_keys matches location n db) e
    where
      kept :
          (ks : List Str)
          → (elim ks [
            | [] ↦ err response_error
            | k ∷ ks' ↦ ok (remove_if (λ j. contains (k ∷ ks') j) db)
          ])
            ≡ ok after
          → AreKeys after
      kept [] e = absurd (ground (arith, e))
      kept (k ∷ ks) e = subst AreKeys (ok-inj e) (remove_if-AreKeys (λ j. contains (k ∷ ks) j) db h)

  pub run_keys-AreKeys :
      (ops : List (Op D)) (db after : Redis D)
      → WritePlain ops
      → AreKeys db
      → run_keys matches location ops db ≡ ok after
      → AreKeys after
  unfolding run_keys write_key
  run_keys-AreKeys [] db after p h e = subst AreKeys (ok-inj e) h
  run_keys-AreKeys (write n d ∷ ops) db after p h e =
      run_keys-AreKeys ops (insert (get_key location n) d db) after p.1
        (insert-AreKeys n d db p.0 h) e
  run_keys-AreKeys (delete n ∷ ops) db after p h e =
      let (mid, one, rest) =
        >>=-eq-ok (delete_keys matches location n db) (λ x. run_keys matches location ops x) e in
      run_keys-AreKeys ops mid after p (delete_keys-AreKeys n db mid h one) rest
