-- ===== src/Bcdb/Unique.antt =====
-- Properties that are unique.
use js_ng.Prelude.{
  some-inj, ℕ, suc, ◌≡◌, sym, ap, ◌∙◌, true, false, some, [], ◌∷◌, ◌==◌, nat_eq, str_eq, Str, arith,
  Bool-cases, inl, inr, ==→eq,
}
use js_ng.Prelude.Dict.{Dict, lookup}
use js_ng.Prelude.Result.{Result-cases, Error, err, ok, ◌>>=◌, guard, runtime_error, >>-eq-ok}
use js_ng.Bcdb.{Value, Property, Schema, JsObj, Bcdb, getattr, id_of, load_obj_from_dict}
use js_ng.Bcdb.Database.{
  get_entry, assert_owner, assert_unique, bcdb_save_obj, assert_uniqueness, save_obj,
}
use js_ng.Bcdb.Reload.{IsSchema}
use js_ng.Bcdb.Indexed.{get_entry-save_obj}

same_owner :
    (o other : JsObj) (i j : ℕ)
    → id_of other ≡ ok j
    → id_of o ≡ ok i
    → assert_owner o (some other) ≡ ok tt
    → (j == i) ≡ true
unfolding assert_owner
same_owner o other i j of_other of_o h =
    let at_j : (id_of o >>= λ l. guard (j == l) runtime_error) ≡ ok tt =
      sym (ap (λ r. r >>= λ k. id_of o >>= λ l. guard (k == l) runtime_error) of_other) ∙ h in
    let at_i : guard (j == i) runtime_error ≡ ok tt =
      sym (ap (λ r. r >>= λ l. guard (j == l) runtime_error) of_o) ∙ at_j in
    ground (arith, at_i)

module _ (schema : Schema) (o other : JsObj) (i j : ℕ) (db : Bcdb) (key : Str) (v : Value) where
  -- The test of the property that has the value
  assert_unique_lem :
      (p : Property)
      → p.unique ≡ true
      → getattr key o ≡ ok v
      → get_entry schema key v db ≡ ok (some other)
      → assert_unique schema key p o db ≡ ok tt
      → assert_owner o (some other) ≡ ok tt
  unfolding assert_unique
  assert_unique_lem p unique got found h =
      let h1 : (getattr key o >>= λ w. get_entry schema key w db >>= assert_owner o) ≡ ok tt =
        ground (arith, unique, h) in
      let h2 : get_entry schema key v db >>= assert_owner o ≡ ok tt =
        sym (ap (λ r. r >>= λ w. get_entry schema key w db >>= assert_owner o) got) ∙ h1 in
      sym (ap (λ r. r >>= assert_owner o) found) ∙ h2

  assert_uniqueness_lem :
      (ps : Schema) (p : Property)
      → lookup key ps ≡ some p
      → p.unique ≡ true
      → getattr key o ≡ ok v
      → get_entry schema key v db ≡ ok (some other)
      → id_of other ≡ ok j
      → id_of o ≡ ok i
      → assert_uniqueness schema ps o db ≡ ok tt
      → (j == i) ≡ true
  unfolding assert_uniqueness lookup
  assert_uniqueness_lem [] p has unique got found of_other of_o h = cc has
  assert_uniqueness_lem ((n, q) ∷ ps) p has unique got found of_other of_o h =
      let (first, rest) =
        >>-eq-ok (assert_unique schema n q o db) (assert_uniqueness schema ps o db) h in
      elim (Bool-cases (key == n)) [
        | inl e ↦
            let here : q ≡ p = some-inj (ground (arith, has, e)) in
            same_owner o other i j of_other of_o (
              assert_unique_lem q (ap (λ r. r.unique) here ∙ unique) got found
                (ap (λ k. assert_unique schema k q o db) (==→eq key n e) ∙ first))
        | inr e ↦
            assert_uniqueness_lem ps p (ground (arith, has, e)) unique got found of_other of_o rest
      ]

-- Two objects that were made of dicts, by a schema whose types leave alone what they have converted,
-- have the same value of a property that is indexed and unique, and ids that differ, the first's not
-- 0. Once the first is saved, saving the second raises.
pub save_obj_duplicate :
    (schema : Schema) (values : Dict Str Value) (o other : JsObj) (i j : ℕ) (db after : Bcdb)
    (key : Str) (p : Property) (v : Value)
    → IsSchema schema
    → load_obj_from_dict schema values ≡ ok o
    → id_of o ≡ ok (suc i)
    → lookup key schema ≡ some p
    → p.index ≡ true
    → p.unique ≡ true
    → getattr key o ≡ ok v
    → save_obj schema o db ≡ ok after
    → id_of other ≡ ok j
    → (suc i == j) ≡ false
    → getattr key other ≡ ok v
    → (e : Error) × (save_obj schema other after ≡ err e)
unfolding save_obj
save_obj_duplicate schema values o other i j db after key p v is_schema made id has index unique got
      h other_id differ same =
    elim (Result-cases (save_obj schema other after)) [
      | inr raised ↦ raised
      | inl (final, saved) ↦
          let (tested, _) =
            >>-eq-ok (assert_uniqueness schema schema other after)
              (bcdb_save_obj schema other after) saved in
          let found =
            get_entry-save_obj schema values o i db after key p v is_schema made id has index got
              h in
          let clash =
            assert_uniqueness_lem schema other o j (suc i) after key v schema p has unique same
              found id other_id tested in
          absurd (ground (arith, clash, differ))
    ]
