-- ===== src/Types/Laws.antt =====
-- What a checked text is read as.
use js_ng.Prelude.{
  ℕ, ◌≡◌, refl, ap, ◌∙◌, Bool, true, false, ◌&&◌, ◌||◌, Option, none, some, ◌==◌, str_eq,
  if◌then◌else◌, Str, str, ℤ, arith, Option-cases, inl, inr,
}
use js_ng.Prelude.Result.{Result, ok, ◌>>=◌}
use js_ng.Text.{strip, int_of}
use js_ng.Types.{
  Data, Items, nothing, int, float, bool, text, list, JsType, string, integer, boolean, floating,
  js_object, list_of, Python, is_some, str_of, check_scalar, scalar_from_str, deep_check,
  deep_check_all, deep_parse, deep_parse_all, in_brackets, check, from_str,
}

-- Data of a type; objects in a list stay texts.
unfoldable mutual
  pub HasType : JsType → Data → Type 0
  HasType string (text s) = Unit {0}
  HasType integer (int i) = Unit {0}
  HasType boolean (bool b) = Unit {0}
  HasType floating (float f) = Unit {0}
  HasType js_object (text s) = Unit {0}
  HasType (list_of t) (list es) = AllHave t es
  HasType _ _ = ⊥

  pub AllHave : JsType → Items → Type 0
  AllHave t Items.nil = Unit {0}
  AllHave t (Items.cons e es) = HasType t e × AllHave t es

-- A list of objects, which from_str returns as the text that it is.
abbrev pub is_raw : JsType → Bool
is_raw (list_of js_object) = true
is_raw _ = false

abbrev is_list : JsType → Bool
is_list (list_of t) = true
is_list _ = false

have_int :
    (o : Option ℤ) → is_some o ≡ true → HasType integer (elim o [ none ↦ nothing | some i ↦ int i ])
unfolding HasType
have_int none h = absurd (ground (arith, h))
have_int (some i) h = tt

have_float :
    (o : Option ℕ)
    → is_some o ≡ true
    → HasType floating (elim o [ none ↦ nothing | some f ↦ float f ])
unfolding HasType
have_float none h = absurd (ground (arith, h))
have_float (some f) h = tt

have_bool :
    (a b : Bool)
    → (a || b) ≡ true
    → HasType boolean (if a then bool true else if b then bool false else nothing)
unfolding HasType
have_bool true b h = tt
have_bool false true h = tt
have_bool false false h = absurd (ground (arith, h))

both : (a b : Bool) → (a && b) ≡ true → (a ≡ true) × (b ≡ true)
both true b h = (refl, h)
both false b h = absurd (ground (arith, h))

module _ (python : Python) where
  scalar-HasType :
      (t : JsType) (s : Str)
      → check_scalar python t s ≡ true
      → HasType t (scalar_from_str python t s)
  unfolding check_scalar scalar_from_str HasType
  scalar-HasType string s h = tt
  scalar-HasType integer s h = have_int (int_of (strip s)) h
  scalar-HasType boolean s h = have_bool (s == str "True") (s == str "False") h
  scalar-HasType floating s h = have_float (python.float_of s) h
  scalar-HasType js_object s h = tt
  scalar-HasType (list_of t) s h = absurd (ground (arith, h))

  -- The items of a list that is read
  abbrev Read : JsType → Result Items → Type 0
  Read t r = (vs : Items) × (r ≡ ok vs) × AllHave t vs

  cons_of_scalar :
      (t : JsType) (e : Data) (r : Result Items)
      → check_scalar python t (str_of python e) ≡ true
      → Read t r
      → Read t (r >>= λ ds. ok (Items.cons (scalar_from_str python t (str_of python e)) ds))
  unfolding HasType
  cons_of_scalar t e r h (vs, same, all) = (
    Items.cons (scalar_from_str python t (str_of python e)) vs,
    ap (λ q. q >>= λ ds. ok (Items.cons (scalar_from_str python t (str_of python e)) ds)) same,
    (scalar-HasType t (str_of python e) h, all),
  )

  cons_of_list :
      (t : JsType) (first : Result Data) (r : Result Items) (v : Data)
      → first ≡ ok v
      → HasType (list_of t) v
      → Read (list_of t) r
      → Read (list_of t) (first >>= λ d. r >>= λ ds. ok (Items.cons d ds))
  unfolding HasType
  cons_of_list t first r v e has (vs, same, all) = (
    Items.cons v vs,
    ap (λ q. q >>= λ d. r >>= λ ds. ok (Items.cons d ds)) e
        ∙ ap (λ q. q >>= λ ds. ok (Items.cons v ds)) same,
    (has, all),
  )

  mutual
    unfolding deep_check deep_parse HasType

    deep_parse-HasType :
        (t : JsType) (d : Data)
        → deep_check python t d ≡ true
        → (v : Data) × (deep_parse python t d ≡ ok v) × HasType (list_of t) v
    deep_parse-HasType t (list es) h =
        let (vs, e, all) = deep_parse_all-HasType t es h in
        (list vs, ap (λ r. r >>= λ ds. ok (list ds)) e, all)
    deep_parse-HasType t _ h = absurd (ground (arith, h))

    deep_parse_all-HasType :
        (t : JsType) (es : Items)
        → deep_check_all python t es ≡ true
        → Read t (deep_parse_all python t es)
    deep_parse_all-HasType t Items.nil h = (Items.nil, refl, tt)
    deep_parse_all-HasType (list_of t) (Items.cons e es) h =
        let (first, others) =
          both (deep_check python t e) (deep_check_all python (list_of t) es) h in
        let (v, same, has) = deep_parse-HasType t e first in
        cons_of_list t (deep_parse python t e) (deep_parse_all python (list_of t) es) v same has
          (deep_parse_all-HasType (list_of t) es others)
    deep_parse_all-HasType string (Items.cons e es) h =
        let (first, others) =
          both (check_scalar python string (str_of python e)) (deep_check_all python string es) h in
        cons_of_scalar string e (deep_parse_all python string es) first
          (deep_parse_all-HasType string es others)
    deep_parse_all-HasType integer (Items.cons e es) h =
        let (first, others) =
          both (check_scalar python integer (str_of python e)) (deep_check_all python integer es)
            h in
        cons_of_scalar integer e (deep_parse_all python integer es) first
          (deep_parse_all-HasType integer es others)
    deep_parse_all-HasType boolean (Items.cons e es) h =
        let (first, others) =
          both (check_scalar python boolean (str_of python e)) (deep_check_all python boolean es)
            h in
        cons_of_scalar boolean e (deep_parse_all python boolean es) first
          (deep_parse_all-HasType boolean es others)
    deep_parse_all-HasType floating (Items.cons e es) h =
        let (first, others) =
          both (check_scalar python floating (str_of python e)) (deep_check_all python floating es)
            h in
        cons_of_scalar floating e (deep_parse_all python floating es) first
          (deep_parse_all-HasType floating es others)
    deep_parse_all-HasType js_object (Items.cons e es) h =
        let (first, others) =
          both (check_scalar python js_object (str_of python e))
            (deep_check_all python js_object es) h in
        cons_of_scalar js_object e (deep_parse_all python js_object es) first
          (deep_parse_all-HasType js_object es others)

abbrev list_read : Python → JsType → Option Data → Bool
list_read python t found = elim found [ none ↦ false | some d ↦ deep_check python t d ]

module _ (python : Python) (s : Str) (d : Data) (e : python.literal_eval s ≡ some d) where
  from_str_list :
      (t : JsType)
      → is_raw (list_of t) ≡ false
      → from_str python (list_of t) s ≡ deep_parse python t d
  unfolding from_str
  from_str_list js_object h = absurd (ground (arith, h))
  from_str_list string h = ground (arith, e)
  from_str_list integer h = ground (arith, e)
  from_str_list boolean h = ground (arith, e)
  from_str_list floating h = ground (arith, e)
  from_str_list (list_of t) h = ground (arith, e)

-- Of any type but that of a list of objects: a text that check accepts is read by from_str without
-- an exception, and gives data of that type, lists in lists included.
pub from_str-HasType :
    (python : Python) (t : JsType) (s : Str)
    → is_raw t ≡ false
    → check python t s ≡ true
    → (d : Data) × (from_str python t s ≡ ok d) × HasType t d
unfolding check from_str
from_str-HasType python (list_of t) s plain h =
    let (_, whole) = both (in_brackets s) (list_read python t (python.literal_eval s)) h in
    elim (Option-cases (python.literal_eval s)) [
      | inl e ↦ absurd (ground (arith, e, whole))
      | inr (d, e) ↦
          let (v, same, has) = deep_parse-HasType python t d (ground (arith, e, whole)) in
          (v, from_str_list python s d e t plain ∙ same, has)
    ]
from_str-HasType python string s plain h = (text s, refl, scalar-HasType python string s h)
from_str-HasType python integer s plain h =
    (scalar_from_str python integer s, refl, scalar-HasType python integer s h)
from_str-HasType python boolean s plain h =
    (scalar_from_str python boolean s, refl, scalar-HasType python boolean s h)
from_str-HasType python floating s plain h =
    (scalar_from_str python floating s, refl, scalar-HasType python floating s h)
from_str-HasType python js_object s plain h = (text s, refl, scalar-HasType python js_object s h)
