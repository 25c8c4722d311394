-- ===== src/Base/Instance/Laws.antt =====
-- What setting an attribute does, and what it keeps.
use js_ng.Prelude.{
  ◌≡◌, ◌≢◌, refl, sym, true, false, arith, ◌==◌, str_eq, if◌then◌else◌, Str, [], Bool-cases, inl,
  inr,
}
use mathlib.Core.Path.{subst}
use js_ng.Prelude.Result.{
  Result, ok, err, ◌>>=◌, ◌>>◌, >>=-eq-ok, >>-eq-ok, Result-cases, validation_error,
}
use js_ng.Base.Value.{Value, text, Entries, put, get-put}
use js_ng.Base.Field.Data.{
  Library, Options, Field, Fields, no_fields, with_field, email, path, tel, options_of, is_object,
}
use js_ng.Base.Field.Scalar.{base_validate}
use js_ng.Base.Field.Patterns.{validate_pattern, email_regex, path_regex, tel_regex}
use js_ng.Base.Field.Nested.{from_raw, validate, validate_fields, get_attr}
use js_ng.Base.Instance.{AttributeUpdate, set_attr}

-- Every field of that name in the class is `f`.
abbrev pub IsFieldOf : Str → Field → Fields → Type 0
IsFieldOf n f no_fields = Unit
IsFieldOf n f (with_field m g fs) = ((m == n) ≡ true → g ≡ f) × IsFieldOf n f fs

module _ (lib : Library) where
  get_attr-put :
      (j n : Str) (g : Field) (w : Value) (attrs : Entries)
      → get_attr lib j g (put n w attrs) ≡ (if j == n then ok w else get_attr lib j g attrs)
  unfolding get_attr
  get_attr-put j n g w attrs = ground (arith, get-put j n w attrs)

  -- What a successful setting has done.
  pub record WasSet (n : Str) (f : Field) (v : Value) (a b : Entries) (ev : AttributeUpdate)
      : Type 0 where
    pub value : Value
    pub converted : from_raw lib f v ≡ ok value
    pub valid : validate lib f value ≡ ok tt
    pub writable : (options_of f).readonly ≡ false
    pub plain : is_object f ≡ false
    pub attrs_eq : b ≡ put n value a
    pub event_eq : ev ≡ record { name = n; new_value = value }

  set_attr-WasSet :
      (n : Str) (f : Field) (v : Value) (a b : Entries) (ev : AttributeUpdate)
      → set_attr lib n f v a ≡ ok (b, ev)
      → WasSet n f v a b ev
  unfolding set_attr
  set_attr-WasSet n f v a b ev h = elim (Result-cases (from_raw lib f v)) [
    | inl (w, e) ↦ record {
      value = w;
      converted = e;
      valid = ground arith;
      writable = ground arith;
      plain = ground arith;
      attrs_eq = ground arith;
      event_eq = ground arith;
    }
    | inr (x, e) ↦ absurd (ground arith)
  ]

  validate_fields_lem :
      (m : Str) (g : Field) (fs : Fields) (a : Entries)
      → validate_fields lib (with_field m g fs) a
        ≡ (get_attr lib m g a >>= λ v. validate lib g v >> validate_fields lib fs a)
  unfolding validate
  validate_fields_lem m g fs a = refl

  validate_fields-put :
      (n : Str) (f : Field) (w : Value) (fs : Fields) (a : Entries)
      → IsFieldOf n f fs
      → validate lib f w ≡ ok tt
      → validate_fields lib fs a ≡ ok tt
      → validate_fields lib fs (put n w a) ≡ ok tt
  validate_fields-put n f w no_fields a i valid h = unfold validate in refl
  validate_fields-put n f w (with_field m g fs) a i valid h =
      let (v, read, more) =
        >>=-eq-ok (get_attr lib m g a) _ (rw (validate_fields_lem m g fs a) at h) in
      let (right, rest) = >>-eq-ok (validate lib g v) (validate_fields lib fs a) more in
      let ih = validate_fields-put n f w fs a i.1 valid rest in
      rw (validate_fields_lem m g fs (put n w a), get_attr-put m n g w a)
        (elim (Bool-cases (m == n)) [
          | inl e ↦ rw (e, i.0 e, valid) ih
          | inr e ↦ rw (e, read, right) ih
        ])

  -- A valid instance stays valid when one of its fields is set.
  pub set_attr-validate_fields :
      (n : Str) (f : Field) (v : Value) (fs : Fields) (a b : Entries) (ev : AttributeUpdate)
      → IsFieldOf n f fs
      → set_attr lib n f v a ≡ ok (b, ev)
      → validate_fields lib fs a ≡ ok tt
      → validate_fields lib fs b ≡ ok tt
  set_attr-validate_fields n f v fs a b ev i h valid =
      let s = set_attr-WasSet n f v a b ev h in
      subst (λ x. validate_fields lib fs x ≡ ok tt) (sym s.attrs_eq)
        (validate_fields-put n f s.value fs a i s.valid valid)

  -- No value can be set on an embedded object's field: the setter raises for every value.
  pub set_attr-object :
      (n c : Str) (fs : Fields) (o : Options) (v : Value) (a : Entries)
      (r : Entries × AttributeUpdate)
      → set_attr lib n (Field.object c fs o) v a ≢ ok r
  set_attr-object n c fs o v a (b, ev) h =
      let s = set_attr-WasSet n (Field.object c fs o) v a b ev h in cc s.plain

  base_then_pattern :
      (b : Result (Unit {0})) (c : Result (Unit {0})) → c ≡ err validation_error → (b >> c) ≢ ok tt
  base_then_pattern (ok u) c e h = ground (arith, e, h)
  base_then_pattern (err x) c e h = cc h

  -- An Email, Path or Tel field that was never set makes its instance invalid, required or not: the
  -- default of these fields, the empty text, does not match their pattern.
  pub unset_is_invalid :
      (o : Options)
      → (validate lib (email o) (text []) ≢ ok tt)
        × (validate lib (path o) (text []) ≢ ok tt)
        × (validate lib (tel o) (text []) ≢ ok tt)
  unfolding validate
  unset_is_invalid o = (
    base_then_pattern (base_validate o (text [])) _ (unfold email_regex validate_pattern in refl),
    base_then_pattern (base_validate o (text [])) _ (unfold path_regex validate_pattern in refl),
    base_then_pattern (base_validate o (text [])) _ (unfold tel_regex validate_pattern in refl),
  )
