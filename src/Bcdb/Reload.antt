-- ===== src/Bcdb/Reload.antt =====
-- Objects of a model, to a dict and back.
use js_ng.Prelude.{
  ◌≡◌, refl, sym, ap, ◌∙◌, true, false, ◌||◌, Option, none, some, [], ◌∷◌, ◌==◌, nat_eq, str_eq,
  if◌then◌else◌, Str, arith, Bool-cases, Option-cases, inl, inr, ==→eq, ==_refl,
}
use js_ng.Prelude.Dict.{Dict, lookup, has_key, insert, lookup-insert}
use js_ng.Prelude.Result.{Result, ok, ok-inj, ◌>>◌, ◌>>=◌, guard, value_error, >>-eq-ok}
use js_ng.Bcdb.{
  Value, Property, Schema, JsObj, getattr, set_from_dict, load_obj_from_dict, dict_of, get_dict,
}

-- A property whose type leaves alone what it has converted, and its default.
unfoldable pub IsSettled : Property → Type 0
IsSettled p =
    ((v : Value)
      → p.check v ≡ true
      → (p.check (p.from_str v) ≡ true) × (p.from_str (p.from_str v) ≡ p.from_str v))
    × (p.check p.default_value ≡ true)
    × (p.from_str p.default_value ≡ p.default_value)

-- A schema that names each property once, all of which are settled.
unfoldable pub IsSchema : Schema → Type 0
unfolding has_key IsSettled
IsSchema [] = Unit {0}
IsSchema ((n, p) ∷ ps) = (has_key n ps ≡ false) × IsSettled p × IsSchema ps

-- One turn of set_from_dict, by what the data says of the property
turn :
    (p : Property) (rest : Value → Result JsObj) (found : Option Value) (o : JsObj)
    → (elim found [
      | none ↦ rest p.default_value
      | some v ↦ guard (p.check v) value_error >> rest (p.from_str v)
    ])
      ≡ ok o
    → (v : Value) × (rest v ≡ ok o) × (IsSettled p → (p.check v ≡ true) × (p.from_str v ≡ v))
unfolding IsSettled
turn p rest none o h = (p.default_value, h, λ (_, fits, same). (fits, same))
turn p rest (some v) o h =
    let both = >>-eq-ok (guard (p.check v) value_error) (rest (p.from_str v)) h in
    (p.from_str v, both.1, λ settled. settled.0 v (ground (arith, both.0)))

turn_back :
    (p : Property) (rest : Value → Result JsObj) (found : Option Value) (v : Value) (o : JsObj)
    → found ≡ some v
    → p.check v ≡ true
    → p.from_str v ≡ v
    → rest v ≡ ok o
    → (elim found [
      | none ↦ rest p.default_value
      | some v ↦ guard (p.check v) value_error >> rest (p.from_str v)
    ])
      ≡ ok o
turn_back p rest found v o there fits kept h = rw (there, fits, kept) h

turn_back-set_from_dict :
    (n : Str) (p : Property) (ps : Schema) (e : Dict Str Value) (acc : JsObj) (v : Value)
    (o : JsObj)
    → lookup n e ≡ some v
    → p.check v ≡ true
    → p.from_str v ≡ v
    → set_from_dict ps e (insert n v acc) ≡ ok o
    → set_from_dict ((n, p) ∷ ps) e acc ≡ ok o
unfolding set_from_dict
turn_back-set_from_dict n p ps e acc v o there fits kept h =
    turn_back p (λ w. set_from_dict ps e (insert n w acc)) (lookup n e) v o there fits kept h

turn-set_from_dict :
    (n : Str) (p : Property) (ps : Schema) (d : Dict Str Value) (acc o : JsObj)
    → set_from_dict ((n, p) ∷ ps) d acc ≡ ok o
    → (v : Value) × (set_from_dict ps d (insert n v acc) ≡ ok o)
      × (IsSettled p → (p.check v ≡ true) × (p.from_str v ≡ v))
unfolding set_from_dict
turn-set_from_dict n p ps d acc o h =
    turn p (λ v. set_from_dict ps d (insert n v acc)) (lookup n d) o h

-- A name that the schema does not have keeps its value.
set_from_dict_kept :
    (j : Str) (ps : Schema) (d : Dict Str Value) (acc o : JsObj)
    → has_key j ps ≡ false
    → set_from_dict ps d acc ≡ ok o
    → lookup j o ≡ lookup j acc
unfolding has_key lookup
set_from_dict_kept j [] d acc o away h = unfold set_from_dict in ap (lookup j) (ok-inj (sym h))
set_from_dict_kept j ((n, p) ∷ ps) d acc o away h =
    let (v, next, _) = turn-set_from_dict n p ps d acc o h in
    set_from_dict_kept j ps d (insert n v acc) o (ground (arith, away)) next
    ∙ lookup-insert j n v acc
    ∙ ground (arith, away)

-- What a dict says of the names of a schema
unfoldable SaysOf : Schema → Dict Str Value → JsObj → Type 0
unfolding has_key
SaysOf schema d o = (n : Str) → has_key n schema ≡ true → lookup n d ≡ lookup n o

has_key_here : (n : Str) (p : Property) (ps : Schema) → has_key n ((n, p) ∷ ps) ≡ true
unfolding has_key lookup
has_key_here n p ps = ground (arith, ==_refl n)

has_key_there :
    (j n : Str) (p : Property) (ps : Schema) → has_key j ps ≡ true → has_key j ((n, p) ∷ ps) ≡ true
unfolding has_key lookup
has_key_there j n p ps h = ground (arith, h)

-- The values of an object, read again, are those of the object.
set_from_dict_again :
    (ps : Schema) (d e : Dict Str Value) (acc o : JsObj)
    → IsSchema ps
    → SaysOf ps e o
    → set_from_dict ps d acc ≡ ok o
    → set_from_dict ps e acc ≡ ok o
unfolding IsSchema SaysOf
set_from_dict_again [] d e acc o schema says h = unfold set_from_dict in h
set_from_dict_again ((n, p) ∷ ps) d e acc o (fresh, settled, schema) says h =
    let (v, next, same) = turn-set_from_dict n p ps d acc o h in
    let there : lookup n e ≡ some v =
      says n (has_key_here n p ps)
      ∙ set_from_dict_kept n ps d (insert n v acc) o fresh next
      ∙ lookup-insert n n v acc
      ∙ rw (==_refl n) refl in
    let (fits, kept) = same settled in
    turn_back-set_from_dict n p ps e acc v o there fits kept (
      set_from_dict_again ps d e (insert n v acc) o schema
        (λ j h'. says j (has_key_there j n p ps h')) next)

moved :
    (j n : Str) (p : Property) (v : Value) (ps : Schema) (acc : JsObj)
    → (has_key j ps || has_key j (insert n v acc)) ≡ (has_key j ((n, p) ∷ ps) || has_key j acc)
unfolding has_key lookup
moved j n p v ps acc = ground (arith, lookup-insert j n v acc)

chosen :
    (j n : Str) (p : Property) (v : Value) (ps : Schema) (o acc : JsObj)
    → lookup n o ≡ some v
    → (if has_key j ps then lookup j o else lookup j (insert n v acc))
      ≡ (if has_key j ((n, p) ∷ ps) then lookup j o else lookup j acc)
unfolding has_key lookup
chosen j n p v ps o acc there = elim (Bool-cases (j == n)) [
  | inl e ↦
      let same : lookup j o ≡ some v = ap (λ k. lookup k o) (==→eq j n e) ∙ there in
      ground (arith, e, same, lookup-insert j n v acc)
  | inr e ↦ ground (arith, e, lookup-insert j n v acc)
]

-- An object that is read has all names of the schema.
has_key-set_from_dict :
    (j : Str) (ps : Schema) (d : Dict Str Value) (acc o : JsObj)
    → set_from_dict ps d acc ≡ ok o
    → has_key j o ≡ (has_key j ps || has_key j acc)
has_key-set_from_dict j [] d acc o h =
    unfold set_from_dict has_key lookup in ap (has_key j) (ok-inj (sym h))
has_key-set_from_dict j ((n, p) ∷ ps) d acc o h =
    let (v, next, _) = turn-set_from_dict n p ps d acc o h in
    has_key-set_from_dict j ps d (insert n v acc) o next ∙ moved j n p v ps acc

getattr_there : (n : Str) (o : JsObj) (v : Value) → lookup n o ≡ some v → getattr n o ≡ ok v
unfolding getattr
getattr_there n o v there = ground (arith, there)

-- An attribute that is there
value_of : (n : Str) (o : JsObj) → has_key n o ≡ true → (v : Value) × (lookup n o ≡ some v)
unfolding has_key
value_of n o h = elim (Option-cases (lookup n o)) [
  | inl e ↦ absurd (ground (arith, e, h))
  | inr (v, e) ↦ (v, e)
]

step-dict_of :
    (n : Str) (p : Property) (ps : Schema) (o : JsObj) (acc : Dict Str Value) (v : Value)
    (d : Dict Str Value)
    → lookup n o ≡ some v
    → dict_of ps o (insert n v acc) ≡ ok d
    → dict_of ((n, p) ∷ ps) o acc ≡ ok d
unfolding dict_of
step-dict_of n p ps o acc v d there made =
    ap (λ r. r >>= λ w. dict_of ps o (insert n w acc)) (getattr_there n o v there) ∙ made

-- get_dict of an object that has all names, and what it says of them
dict_of_lem :
    (ps : Schema) (o : JsObj) (acc : Dict Str Value)
    → ((n : Str) → has_key n ps ≡ true → has_key n o ≡ true)
    → (d : Dict Str Value) × (dict_of ps o acc ≡ ok d)
      × ((j : Str) → lookup j d ≡ (if has_key j ps then lookup j o else lookup j acc))
dict_of_lem [] o acc all = (acc, unfold dict_of in refl, λ j. unfold has_key lookup in refl)
dict_of_lem ((n, p) ∷ ps) o acc all =
    let (v, there) = value_of n o (all n (has_key_here n p ps)) in
    let (d, made, says) =
      dict_of_lem ps o (insert n v acc) (λ j h. all j (has_key_there j n p ps h)) in
    (d, step-dict_of n p ps o acc v d there made, λ j. says j ∙ chosen j n p v ps o acc there)

-- Of an object that was made of a dict, by a schema whose types leave alone what they have converted,
-- get_dict gives a dict of which the same object is loaded.
pub load_obj_from_dict-get_dict :
    (schema : Schema) (values : Dict Str Value) (o : JsObj)
    → IsSchema schema
    → load_obj_from_dict schema values ≡ ok o
    → get_dict schema o >>= load_obj_from_dict schema ≡ ok o
load_obj_from_dict-get_dict schema values o is_schema h =
    let all : (n : Str) → has_key n schema ≡ true → has_key n o ≡ true = λ n e.
      has_key-set_from_dict n schema values [] o (unfold load_obj_from_dict in h)
      ∙ ground (arith, e) in
    let (d, made, says) = dict_of_lem schema o [] all in
    unfold get_dict load_obj_from_dict in
    rw made (
      set_from_dict_again schema values d [] o is_schema
        (unfold SaysOf in λ n e. says n ∙ ground (arith, e)) h)
