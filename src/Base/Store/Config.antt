-- ===== src/Base/Store/Config.antt =====
-- EncryptedConfigStore (core/base/store.py): which values of a config are encrypted, `get` and `save`.
use js_ng.Prelude.{Bool, false, not, ◌&&◌, [], ◌∷◌, if◌then◌else◌, eqb, Str}
use js_ng.Prelude.Result.{Result, ok, err, ◌>>=◌, attribute_error, type_error}
use js_ng.Base.Value.{Value, text, dict, Entries, end, entry, put}
use js_ng.Base.Field.Scalar.{is_null}

-- EncryptionMode
pub data EncryptionMode : Type 0 where
  encrypting decrypting : EncryptionMode

-- What the store calls outside the program: the box of NaCl with base64 around it, and JSON.
pub record Vault : Type 1 where
  -- the JSON texts that are written and read
  pub Json : Type 0
  -- base64.encode(self.encrypt(s)).decode("ascii")
  pub encrypt : Str → Str
  -- self.decrypt(base64.decode(s))
  pub decrypt : Str → Result Str
  pub dumps : Value → Result Json
  pub loads : Json → Result Value

-- name.startswith("__")
unfoldable pub is_marked : Str → Bool
is_marked (a ∷ b ∷ s) = eqb a b'_' && eqb b b'_'
is_marked _ = false

-- name.lstrip("__"): every underscore in front goes.
unfoldable pub lstrip_underscores : Str → Str
lstrip_underscores [] = []
lstrip_underscores (c ∷ s) = let rest = lstrip_underscores s in if eqb c b'_' then rest else c ∷ s

module _ (vault : Vault) where
  -- _encrypt_value; only a text has `encode`.
  unfoldable pub encrypt_value : Value → Result Value
  encrypt_value (text s) = ok (text (vault.encrypt s))
  encrypt_value v = err attribute_error

  -- _decrypt_value
  unfoldable pub decrypt_value : Value → Result Value
  decrypt_value (text s) = do t ← vault.decrypt s; ok (text t)
  decrypt_value v = err type_error

  -- The branch of _process_config for a marked name.
  unfoldable pub process_marked : EncryptionMode → Str → Value → Entries → Result Entries
  unfolding encrypt_value decrypt_value lstrip_underscores
  process_marked encrypting n v acc = do w ← encrypt_value v; ok (put n w acc)
  process_marked decrypting n v acc = do w ← decrypt_value v; ok (put (lstrip_underscores n) w acc)

  -- _process_config; `acc` is `new_config`.
  unfoldable mutual
    unfolding is_marked process_marked

    pub process_config : EncryptionMode → Entries → Entries → Result Entries
    process_config mode end acc = ok acc
    process_config mode (entry n v d) acc = do
      acc' ←
          (if is_marked n && not (is_null v)
            then process_marked mode n v acc
            else do w ← process_value mode v; ok (put n w acc))
      process_config mode d acc'

    pub process_value : EncryptionMode → Value → Result Value
    process_value mode (dict d) = do d' ← process_config mode d end; ok (dict d')
    process_value mode v = ok v

  -- EncryptedConfigStore.save, up to the text that is written
  unfoldable pub sealed_text : Entries → Result vault.Json
  unfolding process_config
  sealed_text config = do
    new_config ← process_config encrypting config end
    vault.dumps (dict new_config)

  abbrev config_of : Value → Result Entries
  config_of (dict d) = process_config decrypting d end
  config_of v = err attribute_error

  -- EncryptedConfigStore.get, from the text that was read
  unfoldable pub opened_config : vault.Json → Result Entries
  unfolding process_config
  opened_config s = do v ← vault.loads s; config_of v
