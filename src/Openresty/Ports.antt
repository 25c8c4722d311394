-- ===== src/Openresty/Ports.antt =====
-- What get_from_port makes of a port, and finds afterwards.
use js_ng.Prelude.{
  ℕ, ◌≡◌, refl, Bool, true, false, ◌||◌, Option, none, some, ◌==◌, str_eq, eqb, Str, str, pos, succ,
  ==_refl, ℤ, arith,
}
use js_ng.Prelude.Dict.{lookup, insert, lookup-insert}
use js_ng.Prelude.Result.{ok}
use js_ng.Base.Value.{Value, null, bool, int, text, factory, Entries, end, entry, get, put}
use js_ng.Base.Field.Data.{Library, Field, options_of, string_field, boolean_field}
use js_ng.Base.Field.Scalar.{boolean_from_raw, integer_from_raw}
use js_ng.Base.Field.Nested.{init_values, from_raw, validate}
use js_ng.Base.Instance.{AttributeUpdate, set_attr}
use js_ng.Base.Store.Config.{Vault}
use js_ng.Base.Factory.{
  Own, absent, find, new, place, is_identifier, Event, Factory, instance_create,
}
use js_ng.Base.Factory.Stored.{StoredFactory, stored_new, handle}
use js_ng.Openresty.{
  website_fields, port_field, website_name, text_or_null, instance_of, assign, get_from_port,
}

-- The inner attributes of a website with nothing in its path
abbrev pub website : ℤ → Bool → Option Str → Entries
website port ssl domain = entry (str "port") (int port) (
    entry (str "ssl") (bool ssl) (
      entry (str "domain") (text_or_null domain)
        (entry (str "path") null (entry (str "locations") (factory (str "locations")) end))))

module _ (lib : Library) where
  made_website : init_values lib website_fields end end ≡ ok (website (pos 80) false none)
  unfolding init_values website_fields port_field boolean_field string_field options_of
      boolean_from_raw integer_from_raw get put str_eq
  made_website = refl

  set_domain :
      (domain : Option Str)
      → (ev : AttributeUpdate) × (set_attr lib
            (str "domain")
            (string_field none)
            (text_or_null domain)
            (website (pos 80) false none)
          ≡ ok (website (pos 80) false domain, ev))
  unfolding set_attr from_raw validate options_of put str_eq string_field
  set_domain none = (record { name = str "domain"; new_value = null }, refl)
  set_domain (some d) = (record { name = str "domain"; new_value = text d }, refl)

  set_port :
      (port : ℕ) (domain : Option Str)
      → (ev : AttributeUpdate) × (set_attr lib
            (str "port")
            port_field
            (int (pos port))
            (website (pos 80) false domain)
          ≡ ok (website (pos port) false domain, ev))
  unfolding set_attr from_raw validate options_of put str_eq port_field
  set_port port domain = (record { name = str "port"; new_value = int (pos port) }, refl)

  set_ssl :
      (port : ℕ) (ssl : Bool) (domain : Option Str)
      → (ev : AttributeUpdate) × (set_attr lib
            (str "ssl")
            boolean_field
            (bool ssl)
            (website (pos port) false domain)
          ≡ ok (website (pos port) ssl domain, ev))
  unfolding set_attr from_raw validate options_of put str_eq boolean_field
  set_ssl port ssl domain = (record { name = str "ssl"; new_value = bool ssl }, refl)

module _ (lib : Library) (vault : Vault) (own : Str → Own) where
  -- The second factory has an instance with these attributes beside what the first one has.
  pub record Holds (n : Str) (a : Entries) (s t : StoredFactory vault) : Type 0 where
    pub held : lookup n t.factory.instances ≡ some a
    pub others :
        (j : Str) → (j == n) ≡ false → lookup j t.factory.instances ≡ lookup j s.factory.instances
    pub store_eq : t.store ≡ s.store

  -- An assignment to the instance that was made
  assign-Holds :
      (n name : Str) (f : Field) (v : Value) (a b : Entries) (s t : StoredFactory vault)
      → Holds n a s t
      → ((ev : AttributeUpdate) × (set_attr lib name f v a ≡ ok (b, ev)))
      → (u : StoredFactory vault) × (assign lib vault own n name f v t ≡ ok u) × Holds n b s u
  unfolding assign instance_of handle
  assign-Holds n name f v a b s t h (ev, e) =
      let u : StoredFactory vault = record t {
        factory = record t.factory { instances = insert n b t.factory.instances };
      } in
      (
        u,
        ground (arith, h.held, e),
        record {
          held = rw (lookup-insert n n b t.factory.instances, ==_refl n);
          others =
              λ j other. rw (lookup-insert j n b t.factory.instances, other) (h.others j other);
          store_eq = h.store_eq;
        },
      )

  -- The instance that is made
  made-Holds :
      (n : Str) (s : StoredFactory vault) (c : ℤ)
      → s.factory.count ≡ some c
      → own n ≡ absent
      → (n == str "count") ≡ false
      → is_identifier n ≡ true
      → lookup n s.factory.instances ≡ none
      → (t : StoredFactory vault) × (ev : Event) × (stored_new lib vault website_fields own n end s
          ≡ ok (t, ev))
        × Holds n (website (pos 80) false none) s t
  unfolding stored_new new find place
  made-Holds n s c counted free other named unknown =
      let g : Factory = record {
        instances = insert n (website (pos 80) false none) s.factory.instances;
        count = some (succ c);
      } in
      (
        record s { factory = g },
        instance_create n (website (pos 80) false none),
        ground (arith, counted, free, other, named, unknown, made_website lib),
        record {
          held =
              rw (lookup-insert n n (website (pos 80) false none) s.factory.instances, ==_refl n);
          others = λ j apart.
              rw (lookup-insert j n (website (pos 80) false none) s.factory.instances, apart);
          store_eq = refl;
        },
      )

  -- The statements of get_from_port behind its first search
  get_from_port_steps :
      (server : Str) (port : ℕ) (domain : Option Str) (ssl : Bool) (a : Entries) (ev : Event)
      (s t0 t1 t2 t3 : StoredFactory vault)
      → lookup (website_name server port) s.factory.instances ≡ none
      → own (website_name server port) ≡ absent
      → (website_name server port == str "count") ≡ false
      → stored_new lib vault website_fields own (website_name server port) end s ≡ ok (t0, ev)
      → assign lib vault own
          (website_name server port)
          (str "domain")
          (string_field none)
          (text_or_null domain)
          t0
        ≡ ok t1
      → assign lib vault own (website_name server port) (str "port") port_field (int (pos port)) t1
        ≡ ok t2
      → assign lib vault own
          (website_name server port)
          (str "ssl")
          boolean_field
          (bool (ssl || eqb port 443))
          t2
        ≡ ok t3
      → lookup (website_name server port) t3.factory.instances ≡ some a
      → get_from_port lib vault own server port domain ssl s ≡ ok (a, t3)
  unfolding get_from_port find instance_of
  get_from_port_steps server port domain ssl a ev s t0 t1 t2 t3 unknown free other e0 e1 e2 e3
        held =
      ground (arith, unknown, free, other, e0, e1, e2, e3, held)

  get_from_port_known :
      (server : Str) (port : ℕ) (domain : Option Str) (ssl : Bool) (a : Entries)
      (s : StoredFactory vault)
      → lookup (website_name server port) s.factory.instances ≡ some a
      → get_from_port lib vault own server port domain ssl s ≡ ok (a, s)
  unfolding get_from_port find
  get_from_port_known server port domain ssl a s known = ground (arith, known)

  -- A port that no website of the server has: get_from_port makes one with this port and domain, with
  -- ssl if it is asked for or the port is 443, leaves the other websites as they are, and saves nothing.
  -- Asked for the same port again, it gives the same website, whatever the domain and ssl are then.
  pub get_from_port_twice :
      (server : Str) (port : ℕ) (domain : Option Str) (ssl : Bool) (s : StoredFactory vault) (c : ℤ)
      → s.factory.count ≡ some c
      → own (website_name server port) ≡ absent
      → (website_name server port == str "count") ≡ false
      → is_identifier (website_name server port) ≡ true
      → lookup (website_name server port) s.factory.instances ≡ none
      → (t : StoredFactory vault) × (get_from_port lib vault own server port domain ssl s
          ≡ ok (website (pos port) (ssl || eqb port 443) domain, t))
        × Holds (website_name server port) (website (pos port) (ssl || eqb port 443) domain) s t
        × ((domain' : Option Str) (ssl' : Bool)
            → get_from_port lib vault own server port domain' ssl' t
              ≡ ok (website (pos port) (ssl || eqb port 443) domain, t))
  get_from_port_twice server port domain ssl s c counted free other named unknown =
      let n = website_name server port in
      let (t0, ev, made, h0) = made-Holds n s c counted free other named unknown in
      let (t1, e1, h1) =
        assign-Holds n (str "domain") (string_field none) (text_or_null domain)
          (website (pos 80) false none) (website (pos 80) false domain) s t0 h0
          (set_domain lib domain) in
      let (t2, e2, h2) =
        assign-Holds n (str "port") port_field (int (pos port)) (website (pos 80) false domain)
          (website (pos port) false domain) s t1 h1 (set_port lib port domain) in
      let (t3, e3, h3) =
        assign-Holds n (str "ssl") boolean_field (bool (ssl || eqb port 443))
          (website (pos port) false domain) (website (pos port) (ssl || eqb port 443) domain) s t2
          h2 (set_ssl lib port (ssl || eqb port 443) domain) in
      (
        t3,
        get_from_port_steps server port domain ssl (website (pos port) (ssl || eqb port 443) domain)
            ev s t0 t1 t2 t3 unknown free other made e1 e2 e3 h3.held,
        h3,
        λ d' ssl'.
            get_from_port_known server port d' ssl'
              (website (pos port) (ssl || eqb port 443) domain) t3 h3.held,
      )
