-- ===== src/Openresty.antt =====
-- servers/openresty/server.py and location.py: the websites of a server by their ports, and what is
-- written for them.
pub mod Ports
pub mod Configure
pub mod Twice
use js_ng.Prelude.{
  ℕ, Bool, true, false, ◌||◌, Option, none, some, List, [], ◌∷◌, ◌++◌, ◌==◌, str_eq, eqb, Str, str,
  pos,
}
use js_ng.Prelude.Dict.{lookup, insert}
use js_ng.Prelude.Result.{Result, ok, err, attribute_error, ◌>>=◌}
use js_ng.Text.Decimal.{decimal}
use js_ng.Base.Value.{Value, null, bool, int, text, Entries, end}
use js_ng.Base.Field.Data.{
  Library, Field, Fields, integer, no_fields, with_field, field_options, boolean_field,
  string_field, factory_field,
}
use js_ng.Base.Instance.{set_attr}
use js_ng.Base.Store.Config.{Vault}
use js_ng.Base.Factory.{Own, find}
use js_ng.Base.Factory.Stored.{StoredFactory, stored_new, handle}

-- The fields of Website
unfoldable pub port_field : Field
unfolding field_options
port_field = integer none (field_options (int (pos 80)))

unfoldable pub website_fields : Fields
unfolding port_field boolean_field string_field factory_field
website_fields = with_field (str "port") port_field (
    with_field (str "ssl") boolean_field (
      with_field (str "domain") (string_field none) (
        with_field (str "path") (string_field none)
          (with_field (str "locations") (factory_field true) no_fields))))

-- f"{self.instance_name}_website_{port}"
unfoldable pub website_name : Str → ℕ → Str
unfolding decimal
website_name server port = server ++ str "_website_" ++ decimal port

-- A text or None
abbrev pub text_or_null : Option Str → Value
text_or_null none = null
text_or_null (some s) = text s

-- The websites of a server
module _ (lib : Library) (vault : Vault) (own : Str → Own) where
  -- An instance of the factory, which holds the object itself
  unfoldable pub instance_of : Str → StoredFactory vault → Result Entries
  instance_of n s = elim (lookup n s.factory.instances) [
    | none ↦ err attribute_error
    | some a ↦ ok a
  ]

  -- `website.name = v`, of which the factory of the websites is told
  unfoldable pub assign :
      Str → Str → Field → Value → StoredFactory vault → Result (StoredFactory vault)
  assign n name f v s = do
    a ← instance_of n s
    (b, ev) ← set_attr lib name f v a
    ok (
        handle lib vault website_fields own true ev
          (record s { factory = record s.factory { instances = insert n b s.factory.instances } }))

  -- OpenRestyServer.get_from_port; ssl is false for None.
  unfoldable pub get_from_port :
      Str → ℕ → Option Str → Bool → StoredFactory vault → Result (Entries × StoredFactory vault)
  get_from_port server port domain ssl s = do
    found ← find lib website_fields own (website_name server port) s.factory
    elim found [
      | some a ↦ ok (a, s)
      | none ↦ do
        (made, ev) ← stored_new lib vault website_fields own (website_name server port) end s
        s1 ←
            assign (website_name server port) (str "domain") (string_field none)
              (text_or_null domain) made
        s2 ← assign (website_name server port) (str "port") port_field (int (pos port)) s1
        s3 ←
            assign (website_name server port) (str "ssl") boolean_field (bool (ssl || eqb port 443))
              s2
        a ← instance_of (website_name server port) s3
        ok (a, s3)
    ]
