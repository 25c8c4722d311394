-- ===== src/Base/Store/RoundTrip.antt =====
-- An instance that is saved and loaded has its attributes again (core/base/meta.py `_get_data` and
-- `_set_data`, core/base/store.py `save` and `get`).
use js_ng.Prelude.{ℕ, ◌≡◌, refl, false, Option, none, Str}
use js_ng.Prelude.Result.{Result, ok, ◌>>=◌, >>=-eq-ok}
use js_ng.Base.Value.{
  Value, null, bool, int, text, list, dict, object, Items, nil, cons, Entries, end, entry, get,
}
use js_ng.Base.Field.Data.{
  Library, Options, Field, Fields, no_fields, with_field, secret, options_of, is_secret, is_factory,
}
use js_ng.Base.Field.Nested.{from_raw, to_raw, init_values, set_data, get_data, mark}
use js_ng.Base.Store.Config.{
  Vault, encrypting, decrypting, process_config, process_value, sealed_text, opened_config,
}
use js_ng.Base.Store.Chain.{IsName, RoundTrips, Chain, done, shut, clear, Chain-Stages, Chain-Tidy}
use js_ng.Base.Store.Storable.{IsScalar, IsJson, IsJsonEntries, IsLawful, KeptItems, Kept, Storable}
use js_ng.Base.Store.AsIs.{AsIs, KeptScalar-AsIs, KeptItems-AsItems, IsScalar-IsJson}

-- StoredFactory._validate_and_save_instance behind the validation: the data of the instance, written.
unfoldable pub save_instance :
    (lib : Library) (vault : Vault) → Fields → Entries → Result vault.Json
save_instance lib vault fs attrs = do raw ← get_data lib fs attrs end; sealed_text vault raw

-- One round of StoredFactory._load: a new instance that takes the data that was read.
unfoldable pub load_instance :
    (lib : Library) (vault : Vault) → Fields → vault.Json → Result Entries
load_instance lib vault fs s = do
  config ← opened_config vault s
  attrs ← init_values lib fs end end
  set_data lib fs config attrs

module _ (lib : Library) where
  module _ (vault : Vault) (lawful : IsLawful vault) where
    -- A kept value, and that what is written of it is JSON.
    record Round (f : Field) (v : Value) : Type 0 where
      trip : RoundTrips lib vault f v
      json : IsJson trip.sealed

    record Links (fs : Fields) (a : Entries) : Type 0 where
      raw : Entries
      sealed : Entries
      opened : Entries
      fresh : Entries
      chain : Chain lib vault fs a raw sealed opened fresh
      json : IsJsonEntries sealed

    process-IsScalar :
        (v : Value)
        → IsScalar v
        → (process_value vault encrypting v ≡ ok v) × (process_value vault decrypting v ≡ ok v)
    unfolding process_config
    process-IsScalar null h = (refl, refl)
    process-IsScalar (bool b) h = (refl, refl)
    process-IsScalar (int n) h = (refl, refl)
    process-IsScalar (text s) h = (refl, refl)
    process-IsScalar _ h = absurd h

    AsIs-Round :
        (f : Field) (v x : Value)
        → AsIs lib f v
        → from_raw lib f (options_of f).default ≡ ok x
        → Round f v
    AsIs-Round f v x k e = record {
      trip = record {
        raw = k.raw;
        sealed = k.raw;
        opened = k.raw;
        fresh = x;
        raw_eq = k.raw_eq;
        sealed_eq = (process-IsScalar k.raw k.scalar).0;
        opened_eq = (process-IsScalar k.raw k.scalar).1;
        value_eq = k.value_eq;
        fresh_eq = e;
      };
      json = IsScalar-IsJson k.raw k.scalar;
    }

    list-Round :
        (f : Field) (o : Options) (vs : Items) (x : Value)
        → KeptItems f vs
        → from_raw lib (Field.list f o) o.default ≡ ok x
        → Round (Field.list f o) (list vs)
    unfolding to_raw from_raw process_config options_of
    list-Round f o nil x h e = record {
      trip = record {
        raw = list nil;
        sealed = list nil;
        opened = list nil;
        fresh = x;
        raw_eq = refl;
        sealed_eq = refl;
        opened_eq = refl;
        value_eq = refl;
        fresh_eq = e;
      };
      json = tt;
    }
    list-Round f o (cons v vs) x h e =
        let k = KeptScalar-AsIs lib f v h.0 in
        let ks = KeptItems-AsItems lib f vs h.1 in
        record {
          trip = record {
            raw = list (cons k.raw ks.raws);
            sealed = list (cons k.raw ks.raws);
            opened = list (cons k.raw ks.raws);
            fresh = x;
            raw_eq = rw (k.raw_eq, ks.raws_eq);
            sealed_eq = refl;
            opened_eq = refl;
            value_eq = rw (k.value_eq, ks.values_eq);
            fresh_eq = e;
          };
          json = (IsScalar-IsJson k.raw k.scalar, ks.json);
        }

    object-Round :
        (c d : Str) (fs : Fields) (o : Options) (a : Entries) (x : Value)
        → d ≡ c
        → Links fs a
        → from_raw lib (Field.object c fs o) o.default ≡ ok x
        → Round (Field.object c fs o) (object d a)
    unfolding to_raw from_raw process_config options_of
    object-Round c d fs o a x same l e =
        let st = Chain-Stages lib vault l.chain in
        record {
          trip = record {
            raw = dict l.raw;
            sealed = dict l.sealed;
            opened = dict l.opened;
            fresh = x;
            raw_eq = rw st.data_eq;
            sealed_eq = rw st.sealed_eq;
            opened_eq = rw st.opened_eq;
            value_eq = rw (st.fresh_eq, st.attrs_eq, same);
            fresh_eq = e;
          };
          json = l.json;
        }

    -- One more field, with a secret or without.
    shut-Links :
        (n : Str) (m : Option ℕ) (o : Options) (t : Str) (fs : Fields) (a : Entries)
        → IsName n
        → get n a ≡ none
        → Links fs a
        → Links (with_field n (secret m o) fs) (entry n (text t) a)
    shut-Links n m o t fs a name new l =
        let c = shut n m o t name new (lawful.decrypt-encrypt t) l.chain in
        record {
          raw = entry (mark n) (text t) l.raw;
          sealed = entry (mark n) (text (vault.encrypt t)) l.sealed;
          opened = entry n (text t) l.opened;
          fresh = entry n o.default l.fresh;
          chain = c;
          json = ((Chain-Tidy lib vault c).sealed.0, tt, l.json);
        }

    clear-Links :
        (n : Str) (f : Field) (v : Value) (fs : Fields) (a : Entries)
        → IsName n
        → get n a ≡ none
        → is_secret f ≡ false
        → is_factory f ≡ false
        → Round f v
        → Links fs a
        → Links (with_field n f fs) (entry n v a)
    clear-Links n f v fs a name new bare made r l =
        let c = clear n f v r.trip name new bare made l.chain in
        record {
          raw = entry n r.trip.raw l.raw;
          sealed = entry n r.trip.sealed l.sealed;
          opened = entry n r.trip.opened l.opened;
          fresh = entry n r.trip.fresh l.fresh;
          chain = c;
          json = ((Chain-Tidy lib vault c).sealed.0, r.json, l.json);
        }

    -- What the proof for an object needs of the embedded class.
    abbrev Inner : Field → Value → Type 0
    Inner (Field.object c fs o) (object d a) = Links fs a
    Inner _ _ = Unit

    -- One more field of any class.
    next_Links :
        (n : Str) (f : Field) (v : Value) (fs : Fields) (a : Entries)
        → IsName n
        → get n a ≡ none
        → Kept lib f v
        → ((x : Value) × (from_raw lib f (options_of f).default ≡ ok x))
        → Inner f v
        → Links fs a
        → Links (with_field n f fs) (entry n v a)
    unfolding options_of
    next_Links n (secret m o) (text t) fs a name new k x inner l =
        shut-Links n m o t fs a name new l
    next_Links n (secret m o) _ fs a name new k x inner l = absurd k
    next_Links n (Field.list f o) (list vs) fs a name new k x inner l =
        clear-Links n (Field.list f o) (list vs) fs a name new refl refl
          (list-Round f o vs x.0 k x.1) l
    next_Links n (Field.list f o) _ fs a name new k x inner l = absurd k
    next_Links n (Field.object c gs o) (object d b) fs a name new k x inner l =
        clear-Links n (Field.object c gs o) (object d b) fs a name new refl refl
          (object-Round c d gs o b x.0 k.0 inner x.1) l
    next_Links n (Field.object c gs o) _ fs a name new k x inner l = absurd k
    next_Links n (Field.factory stored o) v fs a name new k x inner l = absurd k
    next_Links n f v fs a name new k x inner l =
        clear-Links n f v fs a name new refl refl
          (AsIs-Round f v x.0 (KeptScalar-AsIs lib f v k) x.1) l

    Storable-Links : (fs : Fields) (a : Entries) → Storable lib fs a → Links fs a
    Storable-Links no_fields end h = record {
      raw = end;
      sealed = end;
      opened = end;
      fresh = end;
      chain = done;
      json = tt;
    }
    Storable-Links no_fields (entry m v a) h = absurd h
    Storable-Links (with_field n f fs) end h = absurd h
    Storable-Links (with_field n (Field.object c gs o) fs) (entry m (object d b) a) h = rw h.0 (
        next_Links m (Field.object c gs o) (object d b) fs a h.1 h.2 h.3 h.4
          (Storable-Links gs b h.3.1) (Storable-Links fs a h.5))
    Storable-Links (with_field n f fs) (entry m v a) h =
        rw h.0 (next_Links m f v fs a h.1 h.2 h.3 h.4 tt (Storable-Links fs a h.5))

  -- With a box and a JSON that undo what they did: if the fields have distinct names with no
  -- underscore in front, every attribute holds a value that its field keeps, a secret a text, and
  -- every default can be read, then an instance that is saved and loaded has all its attributes again.
  pub load-save :
      (vault : Vault) (fs : Fields) (attrs : Entries)
      → IsLawful vault
      → Storable lib fs attrs
      → (save_instance lib vault fs attrs >>= load_instance lib vault fs) ≡ ok attrs
  unfolding save_instance load_instance sealed_text opened_config
  load-save vault fs attrs lawful h =
      let l = Storable-Links vault lawful fs attrs h in
      let st = Chain-Stages lib vault l.chain in
      let (t, dumped, loaded) =
        >>=-eq-ok (vault.dumps (dict l.sealed)) vault.loads
          (lawful.loads-dumps (dict l.sealed) l.json) in
      rw (st.data_eq, st.sealed_eq, dumped, loaded, st.opened_eq, st.fresh_eq) st.attrs_eq
