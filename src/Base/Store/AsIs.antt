-- ===== src/Base/Store/AsIs.antt =====
-- Values that are written as they are, or as what an enum stands for (core/base/fields.py).
use js_ng.Prelude.{◌≡◌, refl, ap}
use js_ng.Prelude.Result.{ok}
use js_ng.Base.Value.{Value, null, bool, int, text, member, Items, nil, cons, map_items}
use js_ng.Base.Field.Data.{
  Library, Field, plain, typed, boolean, integer, string, enum, email, path, url, tel, ip_address,
}
use js_ng.Base.Field.Scalar.{enum_from_raw}
use js_ng.Base.Field.Nested.{from_raw, to_raw}
use js_ng.Base.Store.Storable.{IsScalar, IsJson, IsJsonItems, KeptScalar, KeptItems}

pub IsScalar-IsJson : (v : Value) → IsScalar v → IsJson v
IsScalar-IsJson null h = tt
IsScalar-IsJson (bool b) h = tt
IsScalar-IsJson (int n) h = tt
IsScalar-IsJson (text s) h = tt
IsScalar-IsJson _ h = absurd h

module _ (lib : Library) where
  pub record AsIs (f : Field) (v : Value) : Type 0 where
    pub raw : Value
    pub scalar : IsScalar raw
    pub raw_eq : to_raw lib f v ≡ ok raw
    pub value_eq : from_raw lib f raw ≡ ok v

  pub KeptScalar-AsIs : (f : Field) (v : Value) → KeptScalar f v → AsIs f v
  unfolding to_raw from_raw
  KeptScalar-AsIs (plain o) v h = record { raw = v; scalar = h; raw_eq = refl; value_eq = refl }
  KeptScalar-AsIs (typed t o) v h = record { raw = v; scalar = h; raw_eq = refl; value_eq = refl }
  KeptScalar-AsIs (string m o) v h = record { raw = v; scalar = h; raw_eq = refl; value_eq = refl }
  KeptScalar-AsIs (email o) v h = record { raw = v; scalar = h; raw_eq = refl; value_eq = refl }
  KeptScalar-AsIs (path o) v h = record { raw = v; scalar = h; raw_eq = refl; value_eq = refl }
  KeptScalar-AsIs (url o) v h = record { raw = v; scalar = h; raw_eq = refl; value_eq = refl }
  KeptScalar-AsIs (ip_address o) v h = record {
    raw = v;
    scalar = h;
    raw_eq = refl;
    value_eq = refl;
  }
  KeptScalar-AsIs (boolean o) (bool b) h = record {
    raw = bool b;
    scalar = tt;
    raw_eq = refl;
    value_eq = refl;
  }
  KeptScalar-AsIs (integer m o) (int n) h = record {
    raw = int n;
    scalar = tt;
    raw_eq = refl;
    value_eq = refl;
  }
  KeptScalar-AsIs (tel o) (text s) h = record {
    raw = text s;
    scalar = tt;
    raw_eq = refl;
    value_eq = ap (λ t. ok (text t)) h;
  }
  KeptScalar-AsIs (enum c vs o) (member d v) h = record {
    raw = v;
    scalar = h.0;
    raw_eq = refl;
    value_eq = rw (h.1, enum_from_raw);
  }
  KeptScalar-AsIs _ _ h = absurd h

  pub record AsItems (f : Field) (vs : Items) : Type 0 where
    pub raws : Items
    pub json : IsJsonItems raws
    pub raws_eq : map_items (to_raw lib f) vs ≡ ok raws
    pub values_eq : map_items (from_raw lib f) raws ≡ ok vs

  pub KeptItems-AsItems : (f : Field) (vs : Items) → KeptItems f vs → AsItems f vs
  unfolding map_items
  KeptItems-AsItems f nil h = record { raws = nil; json = tt; raws_eq = refl; values_eq = refl }
  KeptItems-AsItems f (cons v vs) h =
      let x = KeptScalar-AsIs f v h.0 in
      let xs = KeptItems-AsItems f vs h.1 in
      record {
        raws = cons x.raw xs.raws;
        json = (IsScalar-IsJson x.raw x.scalar, xs.json);
        raws_eq = rw (x.raw_eq, xs.raws_eq);
        values_eq = rw (x.value_eq, xs.values_eq);
      }
