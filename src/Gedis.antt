-- ===== src/Gedis.antt =====
-- servers/gedis/server.py, ResponseEncoder: the bytes that a value is answered with.
pub mod Server
pub mod Serving
pub mod OwnActor
pub mod Resp
pub mod Lines
pub mod Sent
pub mod RoundTrip
use js_ng.Prelude.{
  ℕ, zero, suc, ◌+◌, ◌/◌, ◌%◌, Bool, true, false, Option, none, some, List, [], ◌∷◌, ◌++◌, ◌==◌,
  str_eq, nat_eq, contains, ltb, length, if◌then◌else◌, Str, str, ℤ, pos, negsuc,
}
use js_ng.Text.Decimal.{show, show_bool, decimal}
use js_ng.Text.Utf8.{utf8}

-- What a method of an actor returns; `other` is an object of any other class, by its repr.
mutual
  pub data Value : Type 0 where
    null : Value
    integer : ℤ → Value
    boolean : Bool → Value
    text : Str → Value
    bytes : Str → Value
    list : Values → Value
    other : Str → Value

  pub data Values : Type 0 where
    nil : Values
    cons : Value → Values → Values

-- len(value)
unfoldable pub count : Values → ℕ
count nil = 0
count (cons v vs) = suc (count vs)

-- The buffer, and all that was sent to the socket
pub record ResponseEncoder : Type 0 where
  pub buffer : Str
  pub sent : Str

abbrev pub new_encoder : ResponseEncoder
new_encoder = record { buffer = []; sent = [] }

abbrev pub newline : Str
newline = 13 ∷ 10 ∷ []

-- _write_buffer, of bytes and of a text
unfoldable pub write_bytes : Str → ResponseEncoder → ResponseEncoder
write_bytes data_ e = record e { buffer = e.buffer ++ data_ }

unfoldable pub write_text : Str → ResponseEncoder → ResponseEncoder
unfolding write_bytes utf8
write_text s e = write_bytes (utf8 s) e

-- _send
unfoldable pub send : ResponseEncoder → ResponseEncoder
send e = record { buffer = []; sent = e.sent ++ e.buffer }

-- _bulk, whose length is that of the text
unfoldable pub bulk : Str → ResponseEncoder → ResponseEncoder
unfolding write_text decimal
bulk s e = write_text ((b'$' ∷ decimal (length s) ++ newline) ++ (s ++ newline)) e

-- _bulkbytes
unfoldable pub bulk_bytes : Str → ResponseEncoder → ResponseEncoder
unfolding write_bytes decimal
bulk_bytes s e = write_bytes ((b'$' ∷ decimal (length s) ++ newline) ++ (s ++ newline)) e

-- value[0] == "*REDIS*"
unfoldable pub is_marker : Value → Bool
unfolding str_eq
is_marker (text s) = s == str "*REDIS*"
is_marker _ = false

-- encode of a value that is no list, before its _send
unfoldable pub write_value : Value → ResponseEncoder → ResponseEncoder
unfolding write_text show show_bool bulk bulk_bytes contains nat_eq
write_value null e = write_text (str "$-1" ++ newline) e
write_value (integer i) e = write_text (b':' ∷ show i ++ newline) e
write_value (boolean b) e = write_text (b':' ∷ show_bool b ++ newline) e
write_value (text s) e = if contains s 10 then bulk s e else write_text (b'+' ∷ s ++ newline) e
write_value (bytes s) e = bulk_bytes s e
write_value (list vs) e = e
write_value (other s) e = bulk s e

-- The head of _array
unfoldable pub write_count : ℕ → ResponseEncoder → ResponseEncoder
unfolding write_text decimal
write_count n e = write_text (b'*' ∷ decimal n ++ newline) e

-- encode, and the loop of _array
unfoldable mutual
  unfolding write_value send write_count is_marker count

  pub encode : Value → ResponseEncoder → ResponseEncoder
  encode (list nil) e = send (write_count 0 e)
  encode (list (cons v vs)) e = elim (is_marker v) [
    | true ↦ send (encode_all vs (write_count (count vs) e))
    | false ↦ send (encode_all vs (encode v (write_count (suc (count vs)) e)))
  ]
  encode v e = send (write_value v e)

  pub encode_all : Values → ResponseEncoder → ResponseEncoder
  encode_all nil e = e
  encode_all (cons v vs) e = encode_all vs (encode v e)

-- error and status
unfoldable pub error : Str → ResponseEncoder → ResponseEncoder
unfolding send write_text
error msg e = send (write_text (str "-ERR " ++ msg ++ newline) e)

unfoldable pub status : Str → ResponseEncoder → ResponseEncoder
unfolding send write_text
status msg e = send (write_text (b'+' ∷ msg ++ newline) e)
