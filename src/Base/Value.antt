-- ===== src/Base/Value.antt =====
-- The values of Python that a field can hold (core/base/fields.py): data of the language, instances
-- of `Base` classes with their inner attributes, members of an enum, and objects of other libraries.
use js_ng.Prelude.{
  ℕ, ◌≡◌, refl, Bool, true, false, Option, none, some, [], ◌∷◌, arith, ◌==◌, str_eq, if◌then◌else◌,
  Str, ℤ, pos, ltbℤ, length,
}
use js_ng.Prelude.Result.{Result, ok, err, type_error, ◌>>=◌}

-- Classes of objects that the program only passes on: their values are numbered.
pub data Foreign : Type 0 where
  float complex datetime date time : Foreign

mutual
  pub data Value : Type 0 where
    null : Value
    bool : Bool → Value
    int : ℤ → Value
    text : Str → Value
    foreign : Foreign → ℕ → Value
    list : Items → Value
    dict : Entries → Value
    -- an instance of the class of that name, with its inner attributes
    object : Str → Entries → Value
    -- a member of the enum of that name, with its value
    member : Str → Value → Value
    -- the factory that fills a field of that name
    factory : Str → Value

  pub data Items : Type 0 where
    nil : Items
    cons : Value → Items → Items

  pub data Entries : Type 0 where
    end : Entries
    entry : Str → Value → Entries → Entries

-- d.get(k)
unfoldable pub get : Str → Entries → Option Value
get k end = none
get k (entry j v d) = if k == j then some v else get k d

-- d[k] = v, setattr(self, k, v)
unfoldable pub put : Str → Value → Entries → Entries
put k v end = entry k v end
put k v (entry j w d) = if k == j then entry j v d else entry j w (put k v d)

pub get-put :
    (j k : Str) (v : Value) (d : Entries) → get j (put k v d) ≡ (if j == k then some v else get j d)
unfolding get put
get-put j k v end = refl
get-put j k v (entry i w d) = ground (arith, get-put j k v d)

-- Collects the results of a comprehension over a list, from the left.
unfoldable pub map_items : (Value → Result Value) → Items → Result Items
map_items f nil = ok nil
map_items f (cons v vs) = do w ← f v; ws ← map_items f vs; ok (cons w ws)

-- `for x in v`, of a value that a list field can be given; a text gives its characters, a dict its keys.
unfoldable pub chars_of : Str → Items
chars_of [] = nil
chars_of (c ∷ s) = cons (text (c ∷ [])) (chars_of s)

unfoldable pub keys_of : Entries → Items
keys_of end = nil
keys_of (entry k v d) = cons (text k) (keys_of d)

unfoldable pub iterate : Value → Result Items
unfolding chars_of keys_of
iterate (list vs) = ok vs
iterate (text s) = ok (chars_of s)
iterate (dict d) = ok (keys_of d)
iterate v = err type_error

-- The types that `isinstance` is asked for.
pub data PyType : Type 0 where
  bool_type int_type str_type dict_type list_type : PyType
  foreign_type : Foreign → PyType
  base_type enum_type : Str → PyType

-- `datetime.datetime` is a subclass of `datetime.date`.
unfoldable pub same_foreign : Foreign → Foreign → Bool
same_foreign float float = true
same_foreign complex complex = true
same_foreign datetime datetime = true
same_foreign datetime date = true
same_foreign date date = true
same_foreign time time = true
same_foreign _ _ = false

-- isinstance(v, t). `bool` is a subclass of `int`.
unfoldable pub is_instance : Value → PyType → Bool
unfolding same_foreign
is_instance (bool b) bool_type = true
is_instance (bool b) int_type = true
is_instance (int n) int_type = true
is_instance (text s) str_type = true
is_instance (dict d) dict_type = true
is_instance (list vs) list_type = true
is_instance (foreign c n) (foreign_type t) = same_foreign c t
is_instance (object c d) (base_type t) = c == t
is_instance (member c v) (enum_type t) = c == t
is_instance _ _ = false

-- `v < n` of a value and an integer; only numbers can be compared.
unfoldable pub less_than : Value → ℤ → Option Bool
less_than (bool true) n = some (ltbℤ (pos 1) n)
less_than (bool false) n = some (ltbℤ (pos 0) n)
less_than (int m) n = some (ltbℤ m n)
less_than _ n = none

-- len(v)
unfoldable pub length_of : Value → Option ℕ
length_of (text s) = some (length s)
length_of _ = none
