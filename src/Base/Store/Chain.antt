-- ===== src/Base/Store/Chain.antt =====
-- How the data of an instance passes through `_get_data`, the two directions of `_process_config`
-- and `_set_data` (core/base/meta.py, core/base/store.py), field by field.
use js_ng.Prelude.{
  ℕ, ◌≡◌, refl, ap, ◌∙◌, false, Option, none, ◌∷◌, [], arith, ◌==◌, str_eq, eqb, Str,
}
use js_ng.Prelude.Result.{ok}
use js_ng.Base.Value.{Value, text, Entries, end, entry, get}
use js_ng.Base.Entries.{
  update, Distinct, SameKeys, AllIn, AllIn-self, update-end, update-SameKeys, SameKeys-Distinct,
}
use js_ng.Base.Field.Data.{
  Library, Options, Field, Fields, no_fields, with_field, secret, is_secret, is_factory, options_of,
}
use js_ng.Base.Field.Nested.{from_raw, to_raw, init_values, set_data, get_data, get_attr, mark}
use js_ng.Base.Store.Config.{
  Vault, encrypting, decrypting, process_config, process_value, is_marked, lstrip_underscores,
}

-- The name of a field: not empty, with no underscore in front.
abbrev pub IsName : Str → Type 0
IsName [] = ⊥
IsName (c ∷ s) = eqb c b'_' ≡ false

mark-== : (k n : Str) → IsName n → (mark k == n) ≡ false
mark-== k [] h = absurd h
mark-== k (c ∷ s) h = ground arith

==-mark : (k n : Str) → IsName k → (k == mark n) ≡ false
==-mark [] n h = absurd h
==-mark (c ∷ s) n h = ground arith

mark-==-mark : (k n : Str) → (mark k == mark n) ≡ (k == n)
mark-==-mark k n = ground arith

get-entry_none :
    (k n : Str) (v : Value) (d : Entries)
    → get k (entry n v d) ≡ none
    → ((k == n) ≡ false) × (get k d ≡ none)
unfolding get
get-entry_none k n v d h = ground arith

module _ (lib : Library) (vault : Vault) where
  -- A value that a field with no secret gives back after it was stored.
  pub record RoundTrips (f : Field) (v : Value) : Type 0 where
    pub raw : Value
    pub sealed : Value
    pub opened : Value
    pub fresh : Value
    pub raw_eq : to_raw lib f v ≡ ok raw
    pub sealed_eq : process_value vault encrypting raw ≡ ok sealed
    pub opened_eq : process_value vault decrypting sealed ≡ ok opened
    pub value_eq : from_raw lib f opened ≡ ok v
    pub fresh_eq : from_raw lib f (options_of f).default ≡ ok fresh

  -- The attributes of an instance, its data, the data encrypted and decrypted, and the attributes of
  -- a new instance.
  pub data Chain : Fields → Entries → Entries → Entries → Entries → Entries → Type 0 where
    done : Chain no_fields end end end end end
    shut :
        {fs : Fields} {a r s o w : Entries} (n : Str) (m : Option ℕ) (opts : Options) (t : Str)
        → IsName n
        → get n a ≡ none
        → vault.decrypt (vault.encrypt t) ≡ ok t
        → Chain fs a r s o w
        → Chain
            (with_field n (secret m opts) fs)
            (entry n (text t) a)
            (entry (mark n) (text t) r)
            (entry (mark n) (text (vault.encrypt t)) s)
            (entry n (text t) o)
            (entry n opts.default w)
    clear :
        {fs : Fields} {a r s o w : Entries} (n : Str) (f : Field) (v : Value) (x : RoundTrips f v)
        → IsName n
        → get n a ≡ none
        → is_secret f ≡ false
        → is_factory f ≡ false
        → Chain fs a r s o w
        → Chain
            (with_field n f fs)
            (entry n v a)
            (entry n x.raw r)
            (entry n x.sealed s)
            (entry n x.opened o)
            (entry n x.fresh w)

  IsName-is_marked : (n : Str) → IsName n → is_marked n ≡ false
  unfolding is_marked
  IsName-is_marked [] h = absurd h
  IsName-is_marked (c ∷ []) h = refl
  IsName-is_marked (c ∷ d ∷ s) h = rw h

  IsName-lstrip : (n : Str) → IsName n → lstrip_underscores (mark n) ≡ n
  unfolding lstrip_underscores
  IsName-lstrip [] h = absurd h
  IsName-lstrip (c ∷ s) h = rw h

  get_data-Chain :
      {fs : Fields} {a r s o w : Entries} (full acc : Entries)
      → Chain fs a r s o w
      → AllIn a full
      → get_data lib fs full acc ≡ ok (update acc r)
  unfolding get_data update
  get_data-Chain full acc done h = refl
  get_data-Chain full acc (shut n m opts t name new crypt c) h =
      rw (h.0, get_attr) (get_data-Chain full _ c h.1)
  get_data-Chain full acc (clear n f v x name new bare made c) h =
      rw (made, h.0, get_attr, x.raw_eq, bare) (get_data-Chain full _ c h.1)

  seal-Chain :
      {fs : Fields} {a r s o w : Entries} (acc : Entries)
      → Chain fs a r s o w
      → process_config vault encrypting r acc ≡ ok (update acc s)
  unfolding process_config update
  seal-Chain acc done = refl
  seal-Chain acc (shut n m opts t name new crypt c) = seal-Chain _ c
  seal-Chain acc (clear n f v x name new bare made c) =
      rw (IsName-is_marked n name, x.sealed_eq) (seal-Chain _ c)

  open-Chain :
      {fs : Fields} {a r s o w : Entries} (acc : Entries)
      → Chain fs a r s o w
      → process_config vault decrypting s acc ≡ ok (update acc o)
  unfolding process_config update
  open-Chain acc done = refl
  open-Chain acc (shut n m opts t name new crypt c) =
      rw (crypt, IsName-lstrip n name) (open-Chain _ c)
  open-Chain acc (clear n f v x name new bare made c) =
      rw (IsName-is_marked n name, x.opened_eq) (open-Chain _ c)

  init_values-Chain :
      {fs : Fields} {a r s o w : Entries} (acc : Entries)
      → Chain fs a r s o w
      → init_values lib fs end acc ≡ ok (update acc w)
  unfolding from_raw update get options_of
  init_values-Chain acc done = refl
  init_values-Chain acc (shut n m opts t name new crypt c) = init_values-Chain _ c
  init_values-Chain acc (clear n f v x name new bare made c) =
      rw (made, x.fresh_eq) (init_values-Chain _ c)

  set_data-Chain :
      {fs : Fields} {a r s o w : Entries} (full acc : Entries)
      → Chain fs a r s o w
      → AllIn o full
      → set_data lib fs full acc ≡ ok (update acc a)
  unfolding from_raw update
  set_data-Chain full acc done h = refl
  set_data-Chain full acc (shut n m opts t name new crypt c) h =
      rw h.0 (set_data-Chain full _ c h.1)
  set_data-Chain full acc (clear n f v x name new bare made c) h =
      rw (h.0, x.value_eq) (set_data-Chain full _ c h.1)

  -- A name that the attributes lack is no key of the data, marked or not.
  record Lacks (k : Str) (r s o : Entries) : Type 0 where
    plain_raw : get k r ≡ none
    marked_raw : get (mark k) r ≡ none
    plain_sealed : get k s ≡ none
    marked_sealed : get (mark k) s ≡ none
    plain_opened : get k o ≡ none

  Chain-Lacks :
      {fs : Fields} {a r s o w : Entries} (k : Str)
      → Chain fs a r s o w
      → IsName k
      → get k a ≡ none
      → Lacks k r s o
  unfolding get
  Chain-Lacks k done nk h = record {
    plain_raw = refl;
    marked_raw = refl;
    plain_sealed = refl;
    marked_sealed = refl;
    plain_opened = refl;
  }
  Chain-Lacks k (shut {a = a} n m opts t name new crypt c) nk h =
      let rest = Chain-Lacks k c nk (get-entry_none k n (text t) a h).1 in
      let other = (get-entry_none k n (text t) a h).0 in
      record {
        plain_raw = rw (==-mark k n nk) rest.plain_raw;
        marked_raw = rw (mark-==-mark k n, other) rest.marked_raw;
        plain_sealed = rw (==-mark k n nk) rest.plain_sealed;
        marked_sealed = rw (mark-==-mark k n, other) rest.marked_sealed;
        plain_opened = rw other rest.plain_opened;
      }
  Chain-Lacks k (clear {a = a} n f v x name new bare made c) nk h =
      let rest = Chain-Lacks k c nk (get-entry_none k n v a h).1 in
      let other = (get-entry_none k n v a h).0 in
      record {
        plain_raw = rw other rest.plain_raw;
        marked_raw = rw (mark-== k n name) rest.marked_raw;
        plain_sealed = rw other rest.plain_sealed;
        marked_sealed = rw (mark-== k n name) rest.marked_sealed;
        plain_opened = rw other rest.plain_opened;
      }

  pub record Tidy (a r s o w : Entries) : Type 0 where
    pub attrs : Distinct a
    pub raw : Distinct r
    pub sealed : Distinct s
    pub opened : Distinct o
    pub fresh : SameKeys w a

  pub Chain-Tidy : {fs : Fields} {a r s o w : Entries} → Chain fs a r s o w → Tidy a r s o w
  Chain-Tidy done = record { attrs = tt; raw = tt; sealed = tt; opened = tt; fresh = tt }
  Chain-Tidy (shut n m opts t name new crypt c) =
      let rest = Chain-Tidy c in
      let lacks = Chain-Lacks n c name new in
      record {
        attrs = (new, rest.attrs);
        raw = (lacks.marked_raw, rest.raw);
        sealed = (lacks.marked_sealed, rest.sealed);
        opened = (lacks.plain_opened, rest.opened);
        fresh = (refl, rest.fresh);
      }
  Chain-Tidy (clear n f v x name new bare made c) =
      let rest = Chain-Tidy c in
      let lacks = Chain-Lacks n c name new in
      record {
        attrs = (new, rest.attrs);
        raw = (lacks.plain_raw, rest.raw);
        sealed = (lacks.plain_sealed, rest.sealed);
        opened = (lacks.plain_opened, rest.opened);
        fresh = (refl, rest.fresh);
      }

  -- The four stages of a chain, each into an empty dict.
  pub record Stages (fs : Fields) (a r s o w : Entries) : Type 0 where
    pub data_eq : get_data lib fs a end ≡ ok r
    pub sealed_eq : process_config vault encrypting r end ≡ ok s
    pub opened_eq : process_config vault decrypting s end ≡ ok o
    pub fresh_eq : init_values lib fs end end ≡ ok w
    pub attrs_eq : set_data lib fs o w ≡ ok a

  pub Chain-Stages : {fs : Fields} {a r s o w : Entries} → Chain fs a r s o w → Stages fs a r s o w
  Chain-Stages {a = a} {r = r} {s = s} {o = o} {w = w} c =
      let tidy = Chain-Tidy c in
      record {
        data_eq = get_data-Chain a end c (AllIn-self a tidy.attrs) ∙ ap ok (update-end r tidy.raw);
        sealed_eq = seal-Chain end c ∙ ap ok (update-end s tidy.sealed);
        opened_eq = open-Chain end c ∙ ap ok (update-end o tidy.opened);
        fresh_eq =
            init_values-Chain end c
            ∙ ap ok (update-end w (SameKeys-Distinct w a tidy.fresh tidy.attrs));
        attrs_eq =
            set_data-Chain o w c (AllIn-self o tidy.opened)
            ∙ ap ok (update-SameKeys w a tidy.attrs tidy.fresh);
      }
