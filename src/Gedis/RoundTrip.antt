-- ===== src/Gedis/RoundTrip.antt =====
-- A client reads what the server encoded.
use mathlib.Core.List.{append_assoc, append-nil}
use js_ng.Prelude.{
  ℕ, zero, suc, ◌+◌, ◌<◌, ◌≤◌, ◌≡◌, refl, sym, ap, ◌∙◌, Bool, true, false, Option, some, [], ◌++◌,
  str_eq, nat_eq, contains, length, Str, str, ℤ, pos, negsuc, arith, Bool-cases, inl, inr,
}
use js_ng.Text.{is_digit}
use js_ng.Text.Decimal.{show, number_from, decimal, is_digits-decimal}
use js_ng.Gedis.{
  Value, Values, null, integer, boolean, text, bytes, other, list, count, new_encoder, newline,
  is_marker, encode,
}
use js_ng.Gedis.Resp.{
  Reply, Replies, nothing, number, string, array, read_line, read_number, read_string, read_many,
  read_typed, read_after, read_reply,
}
use js_ng.Gedis.Lines.{
  digits_line, read_line_whole, read_number-decimal, read_number-show, read_string_whole,
}
use js_ng.Gedis.Sent.{
  reply_of, replies_of, IsPlain, ArePlain, line, counted, rendered, rendered_all, after,
  encode-rendered,
}

-- Fuel for the arrays in a value
unfoldable mutual
  pub size : Value → ℕ
  size (list vs) = suc (size_all vs)
  size _ = 1

  pub size_all : Values → ℕ
  size_all Values.nil = 0
  size_all (Values.cons v vs) = size v + size_all vs

-- A reply whose first line is read
read_line_reply :
    (f kind : ℕ) (s rest : Str)
    → contains s 10 ≡ false
    → read_reply (suc f) (line kind s ++ rest) ≡ read_typed (read_many (read_reply f)) kind s rest
unfolding read_reply read_after
read_line_reply f kind s rest h =
    let whole : read_line (s ++ newline ++ rest) ≡ some (s, rest) =
      ap read_line (append_assoc s newline rest) ∙ read_line_whole s rest h in
    ap (read_after (read_many (read_reply f)) kind) whole

read_counted :
    (f : ℕ) (s rest : Str) → read_reply (suc f) (counted s ++ rest) ≡ some (string s, rest)
unfolding read_typed
read_counted f s rest =
    let d = decimal (length s) in
    let apart : counted s ++ rest ≡ line b'$' d ++ (s ++ newline ++ rest) =
      append_assoc (line b'$' d) (s ++ newline) rest in
    let text_read : read_string (length s) (s ++ newline ++ rest) ≡ some (s, rest) =
      ap (read_string (length s)) (append_assoc s newline rest) ∙ read_string_whole s rest in
    ap (read_reply (suc f)) apart
    ∙ (read_line_reply f b'$' d (s ++ newline ++ rest)
          (digits_line d (is_digits-decimal (length s)))
        ∙ ground (arith, read_number-decimal (length s), text_read))

read_text :
    (f : ℕ) (s rest : Str)
    → read_reply (suc f) (rendered (text s) ++ rest) ≡ some (reply_of (text s), rest)
unfolding rendered reply_of
read_text f s rest = elim (Bool-cases (contains s 10)) [
  | inl e ↦ rw e (read_counted f s rest)
  | inr e ↦ rw e (read_line_reply f b'+' s rest e ∙ (unfold read_typed in refl))
]

show_line : (i : ℤ) → contains (show i) 10 ≡ false
unfolding show contains nat_eq
show_line (pos n) = digits_line (decimal n) (is_digits-decimal n)
show_line (negsuc n) = ground (arith, digits_line (decimal (suc n)) (is_digits-decimal (suc n)))

read_integer :
    (f : ℕ) (i : ℤ) (rest : Str)
    → read_reply (suc f) (line b':' (show i) ++ rest) ≡ some (number i, rest)
unfolding read_typed
read_integer f i rest =
    read_line_reply f b':' (show i) rest (show_line i) ∙ ground (arith, read_number-show i)

-- An array whose items are read
read_array :
    (f n : ℕ) (items rest : Str) (rs : Replies)
    → read_many (read_reply f) n (items ++ rest) ≡ some (rs, rest)
    → read_reply (suc f) (line b'*' (decimal n) ++ items ++ rest) ≡ some (array rs, rest)
unfolding read_typed
read_array f n items rest rs h =
    ap (read_reply (suc f)) (append_assoc (line b'*' (decimal n)) items rest)
    ∙ (read_line_reply f b'*' (decimal n) (items ++ rest)
          (digits_line (decimal n) (is_digits-decimal n))
        ∙ ground (arith, read_number-decimal n, h))

size_pos : (v : Value) → 0 < size v
unfolding size
size_pos (list vs) = omega arith
size_pos null = omega arith
size_pos (integer i) = omega arith
size_pos (boolean b) = omega arith
size_pos (text s) = omega arith
size_pos (bytes s) = omega arith
size_pos (other s) = omega arith

read_null :
    (f : ℕ) (rest : Str) → read_reply (suc f) (str "$-1" ++ newline ++ rest) ≡ some (nothing, rest)
unfolding read_reply read_line read_after read_typed read_number number_from is_digit
read_null f rest = refl

read_many_none :
    (read : Str → Option (Reply × Str)) (s : Str) → read_many read 0 s ≡ some (Replies.nil, s)
unfolding read_many
read_many_none read s = refl

-- One more item
read_many_step :
    (read : Str → Option (Reply × Str)) (n : ℕ) (s t rest : Str) (r : Reply) (rs : Replies)
    → read s ≡ some (r, t)
    → read_many read n t ≡ some (rs, rest)
    → read_many read (suc n) s ≡ some (Replies.cons r rs, rest)
unfolding read_many
read_many_step read n s t rest r rs h k = ground (arith, h, k)

either_read :
    (b : Bool) (f : ℕ) (s t rest : Str) (x y : Reply)
    → (b ≡ true → read_reply f (s ++ rest) ≡ some (x, rest))
    → (b ≡ false → read_reply f (t ++ rest) ≡ some (y, rest))
    → read_reply f ((elim b [ true ↦ s | false ↦ t ]) ++ rest)
      ≡ some ((elim b [ true ↦ x | false ↦ y ]), rest)
either_read true f s t rest x y h k = h refl
either_read false f s t rest x y h k = k refl

mutual
  unfolding rendered reply_of IsPlain size

  pub read_rendered :
      (v : Value) (f : ℕ) (rest : Str)
      → IsPlain v
      → size v ≤ f
      → read_reply f (rendered v ++ rest) ≡ some (reply_of v, rest)
  read_rendered v zero rest h enough = absurd (omega (arith, size_pos v))
  read_rendered null (suc f) rest h enough = read_null f rest
  read_rendered (integer i) (suc f) rest h enough = read_integer f i rest
  read_rendered (boolean b) (suc f) rest h enough = absurd h
  read_rendered (text s) (suc f) rest h enough = read_text f s rest
  read_rendered (bytes s) (suc f) rest h enough = read_counted f s rest
  read_rendered (list Values.nil) (suc f) rest h enough =
      read_array f 0 [] rest Replies.nil (read_many_none (read_reply f) rest)
  read_rendered (list (Values.cons v vs)) (suc f) rest h enough =
      either_read (is_marker v) (suc f) _ _ rest _ _
        (λ e.
          read_array f (count vs) (rendered_all vs) rest (replies_of vs)
            (read_all vs f rest h.1 (omega arith)))
        (λ e.
          read_array f (suc (count vs)) (rendered v ++ rendered_all vs) rest
            (Replies.cons (reply_of v) (replies_of vs))
            (read_all (Values.cons v vs) f rest h (omega arith)))
  read_rendered (other s) (suc f) rest h enough = read_counted f s rest

  pub read_all :
      (vs : Values) (f : ℕ) (rest : Str)
      → ArePlain vs
      → size_all vs ≤ f
      → read_many (read_reply f) (count vs) (rendered_all vs ++ rest) ≡ some (replies_of vs, rest)
  read_all Values.nil f rest h enough = read_many_none (read_reply f) rest
  read_all (Values.cons v vs) f rest h enough =
      let apart : rendered v ++ rendered_all vs ++ rest ≡ rendered v ++ (rendered_all vs ++ rest) =
        append_assoc (rendered v) (rendered_all vs) rest in
      ap (read_many (read_reply f) (suc (count vs))) apart
      ∙ read_many_step (read_reply f) (count vs) (rendered v ++ (rendered_all vs ++ rest))
          (rendered_all vs ++ rest) rest (reply_of v) (replies_of vs)
          (read_rendered v f (rendered_all vs ++ rest) h.0 (omega (arith, enough)))
          (read_all vs f rest h.1 (omega (arith, enough)))

-- A value in which all texts and reprs are ASCII and no Boolean stands: a client that reads what
-- encode sends gets the value's reply, lists in lists included, and nothing is left over. An
-- array's fuel is that of its items and one.
pub read_reply-encode :
    (v : Value)
    → IsPlain v
    → read_reply (size v) (encode v new_encoder).sent ≡ some (reply_of v, [])
unfolding after
read_reply-encode v h =
    ap (λ e. read_reply (size v) e.sent) (encode-rendered v new_encoder h)
    ∙ (ap (read_reply (size v)) (sym (append-nil (rendered v)))
        ∙ read_rendered v (size v) [] h (omega arith))
