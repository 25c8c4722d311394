-- ===== src/Gedis/Sent.antt =====
-- The bytes that the encoder sends, without its buffer.
use mathlib.Core.List.{append_assoc, append-nil}
use js_ng.Prelude.{
  ℕ, suc, ◌≡◌, refl, sym, ap, ◌∙◌, Bool, true, false, [], ◌∷◌, ◌++◌, str_eq, nat_eq, contains, ltb,
  length, if◌then◌else◌, Str, str, ℤ, pos, negsuc, arith, Bool-cases, inl, inr,
}
use js_ng.Text.Decimal.{show, decimal, is_digits-decimal}
use js_ng.Gedis.{
  Value, Values, null, integer, boolean, text, bytes, other, list, count, ResponseEncoder, newline,
  write_bytes, write_text, send, bulk, bulk_bytes, is_marker, write_value, write_count, encode,
  encode_all,
}
use js_ng.Gedis.Resp.{Reply, Replies, nothing, simple, number, string, array}
use js_ng.Gedis.Lines.{is_ascii, is_ascii-append, utf8_ascii, digits_ascii}

unfoldable mutual
  unfolding contains nat_eq is_marker

  -- The reply that a value stands for
  pub reply_of : Value → Reply
  reply_of null = nothing
  reply_of (integer i) = number i
  reply_of (boolean b) = nothing
  reply_of (text s) = if contains s 10 then string s else simple s
  reply_of (bytes s) = string s
  reply_of (list Values.nil) = array Replies.nil
  reply_of (list (Values.cons v vs)) = elim (is_marker v) [
    | true ↦ array (replies_of vs)
    | false ↦ array (Replies.cons (reply_of v) (replies_of vs))
  ]
  reply_of (other s) = string s

  pub replies_of : Values → Replies
  replies_of Values.nil = Replies.nil
  replies_of (Values.cons v vs) = Replies.cons (reply_of v) (replies_of vs)

unfoldable mutual
  -- Values that the protocol has: no Booleans, and texts and reprs of ASCII.
  pub IsPlain : Value → Type 0
  IsPlain (boolean b) = ⊥
  IsPlain (text s) = is_ascii s ≡ true
  IsPlain (other s) = is_ascii s ≡ true
  IsPlain (list vs) = ArePlain vs
  IsPlain _ = Unit {0}

  pub ArePlain : Values → Type 0
  ArePlain Values.nil = Unit {0}
  ArePlain (Values.cons v vs) = IsPlain v × ArePlain vs

-- A line, and a text with its length
abbrev pub line : ℕ → Str → Str
line kind s = kind ∷ s ++ newline

abbrev pub counted : Str → Str
counted s = line b'$' (decimal (length s)) ++ (s ++ newline)

unfoldable mutual
  unfolding contains nat_eq is_marker count show decimal

  -- The bytes of a plain value
  pub rendered : Value → Str
  rendered null = str "$-1" ++ newline
  rendered (integer i) = line b':' (show i)
  rendered (boolean b) = []
  rendered (text s) = if contains s 10 then counted s else line b'+' s
  rendered (bytes s) = counted s
  rendered (list Values.nil) = line b'*' (decimal 0)
  rendered (list (Values.cons v vs)) = elim (is_marker v) [
    | true ↦ line b'*' (decimal (count vs)) ++ rendered_all vs
    | false ↦ line b'*' (decimal (suc (count vs))) ++ (rendered v ++ rendered_all vs)
  ]
  rendered (other s) = counted s

  pub rendered_all : Values → Str
  rendered_all Values.nil = []
  rendered_all (Values.cons v vs) = rendered v ++ rendered_all vs

-- What a part of the encoder adds to the socket, once it is sent
unfoldable pub after : ResponseEncoder → Str → ResponseEncoder
after e s = record { buffer = []; sent = e.sent ++ (e.buffer ++ s) }

write_text_ascii :
    (s : Str) (e : ResponseEncoder) → is_ascii s ≡ true → send (write_text s e) ≡ after e s
unfolding after send write_text write_bytes
write_text_ascii s e h = rw (utf8_ascii s h) refl

line_ascii :
    (kind : ℕ) (s : Str) → ltb kind 128 ≡ true → is_ascii s ≡ true → is_ascii (line kind s) ≡ true
unfolding is_ascii
line_ascii kind s k h = ground (arith, is_ascii-append s newline)

counted_ascii : (s : Str) → is_ascii s ≡ true → is_ascii (counted s) ≡ true
unfolding is_ascii
counted_ascii s h = ground (
  arith,
  is_ascii-append (line b'$' (decimal (length s))) (s ++ newline),
  is_ascii-append s newline,
  line_ascii b'$' (decimal (length s)) refl
      (digits_ascii (decimal (length s)) (is_digits-decimal (length s))),
)

show_ascii : (i : ℤ) → is_ascii (show i) ≡ true
unfolding show is_ascii
show_ascii (pos n) = digits_ascii (decimal n) (is_digits-decimal n)
show_ascii (negsuc n) = ground (arith, digits_ascii (decimal (suc n)) (is_digits-decimal (suc n)))

after-write_bytes : (l s : Str) (e : ResponseEncoder) → after (write_bytes l e) s ≡ after e (l ++ s)
unfolding after write_bytes
after-write_bytes l s e =
    ap (λ b. record { buffer = []; sent = e.sent ++ b }) (append_assoc e.buffer l s)

after-after : (s t : Str) (e : ResponseEncoder) → after (after e s) t ≡ after e (s ++ t)
unfolding after
after-after s t e =
    ap (λ b. record { buffer = []; sent = b })
      (append_assoc e.sent (e.buffer ++ s) t ∙ ap (λ b. e.sent ++ b) (append_assoc e.buffer s t))

after-write_count :
    (n : ℕ) (s : Str) (e : ResponseEncoder)
    → after (write_count n e) s ≡ after e (line b'*' (decimal n) ++ s)
unfolding write_count write_text
after-write_count n s e =
    ap (λ l. after (write_bytes l e) s)
      (utf8_ascii (line b'*' (decimal n))
        (line_ascii b'*' (decimal n) refl (digits_ascii (decimal n) (is_digits-decimal n))))
    ∙ after-write_bytes (line b'*' (decimal n)) s e

send-after : (e : ResponseEncoder) → send e ≡ after e []
unfolding send after
send-after e = ap (λ b. record { buffer = []; sent = e.sent ++ b }) (sym (append-nil e.buffer))

null_ascii : is_ascii (str "$-1" ++ newline) ≡ true
unfolding is_ascii
null_ascii = refl

text_sent :
    (s : Str) (e : ResponseEncoder)
    → is_ascii s ≡ true
    → send (write_value (text s) e) ≡ after e (rendered (text s))
unfolding write_value bulk rendered
text_sent s e h = elim (Bool-cases (contains s 10)) [
  | inl f ↦ rw f (write_text_ascii (counted s) e (counted_ascii s h))
  | inr f ↦ rw f (write_text_ascii (line b'+' s) e (line_ascii b'+' s refl h))
]

bytes_sent : (s : Str) (e : ResponseEncoder) → send (bulk_bytes s e) ≡ after e (counted s)
unfolding bulk_bytes send after write_bytes
bytes_sent s e = refl

either_sent :
    (b : Bool) (x y e : ResponseEncoder) (s t : Str)
    → x ≡ after e s
    → y ≡ after e t
    → (elim b [ true ↦ x | false ↦ y ]) ≡ after e (elim b [ true ↦ s | false ↦ t ])
either_sent true x y e s t h k = h
either_sent false x y e s t h k = k

mutual
  unfolding encode rendered IsPlain write_value bulk

  pub encode-rendered :
      (v : Value) (e : ResponseEncoder) → IsPlain v → encode v e ≡ after e (rendered v)
  encode-rendered null e h = write_text_ascii (str "$-1" ++ newline) e null_ascii
  encode-rendered (integer i) e h =
      write_text_ascii (line b':' (show i)) e (line_ascii b':' (show i) refl (show_ascii i))
  encode-rendered (boolean b) e h = absurd h
  encode-rendered (text s) e h = text_sent s e h
  encode-rendered (bytes s) e h = bytes_sent s e
  encode-rendered (list Values.nil) e h =
      send-after (write_count 0 e)
      ∙ (after-write_count 0 [] e ∙ ap (after e) (append-nil (line b'*' (decimal 0))))
  encode-rendered (list (Values.cons v vs)) e h =
      either_sent (is_marker v) _ _ e _ _
        (encode_all_rendered vs (write_count (count vs) e) h.1
          ∙ after-write_count (count vs) (rendered_all vs) e)
        (encode_all_rendered (Values.cons v vs) (write_count (suc (count vs)) e) h
          ∙ after-write_count (suc (count vs)) (rendered_all (Values.cons v vs)) e)
  encode-rendered (other s) e h = write_text_ascii (counted s) e (counted_ascii s h)

  pub encode_all_rendered :
      (vs : Values) (e : ResponseEncoder)
      → ArePlain vs
      → send (encode_all vs e) ≡ after e (rendered_all vs)
  encode_all_rendered Values.nil e h = send-after e
  encode_all_rendered (Values.cons v vs) e h =
      encode_all_rendered vs (encode v e) h.1
      ∙ (ap (λ d. after d (rendered_all vs)) (encode-rendered v e h.0)
          ∙ after-after (rendered v) (rendered_all vs) e)
