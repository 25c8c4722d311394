-- ===== src/Tests/Gedis.antt =====
-- A server with a greeter, which counts how often it was greeted.
use js_ng.Prelude.{
  ℕ, suc, ◌≡◌, refl, Option, none, some, [], ◌∷◌, List, Str, str, ◌==◌, str_eq, nat_eq, contains,
  if◌then◌else◌, pos,
}
use js_ng.Prelude.Dict.{lookup, insert, has_key}
use js_ng.Prelude.Result.{Result, ok, err, not_found_error}
use js_ng.Text.Utf8.{decode}
use js_ng.Gedis.{Value, Values, null, integer, text, list, count, new_encoder, is_marker, encode}
use js_ng.Gedis.Server.{
  system, Actors, Modules, register_actor, call_system, call, answer, on_connection,
}
use js_ng.Gedis.Resp.{Reply, Replies, simple, string, number, array, read_many, read_reply}
use js_ng.Gedis.Lines.{is_ascii}
use js_ng.Gedis.Sent.{reply_of, replies_of, IsPlain, ArePlain}
use js_ng.Gedis.RoundTrip.{size, size_all, read_reply-encode}
use js_ng.Gedis.Serving.{answers, read_many-on_connection}
use js_ng.Gedis.OwnActor.{HasSystem, on_connection-HasSystem}

abbrev answer_value : Value
answer_value = list (
    Values.cons (text (str "two\nlines")) (
      Values.cons (integer (pos 12)) (
        Values.cons (list (Values.cons (text (str "ok")) (Values.cons null Values.nil)))
          Values.nil)))

answer_value-IsPlain : IsPlain answer_value
unfolding IsPlain is_ascii
answer_value-IsPlain = (refl, (tt, ((refl, (tt, tt)), tt)))

read_reply-encode_example :
    read_reply (size answer_value) (encode answer_value new_encoder).sent
    ≡ some (reply_of answer_value, [])
read_reply-encode_example = read_reply-encode answer_value answer_value-IsPlain

-- What the reply is
reply_of_answer :
    reply_of answer_value
    ≡ array (
        Replies.cons (string (str "two\nlines")) (
          Replies.cons (number (pos 12)) (
            Replies.cons
              (array (Replies.cons (simple (str "ok")) (Replies.cons Reply.nothing Replies.nil)))
              Replies.nil)))
unfolding reply_of is_marker contains nat_eq str_eq
reply_of_answer = refl

abbrev greet : ℕ → Str → Option (List Str → Result Value × ℕ)
greet n name = if name == str "hi" then some (λ args. (ok (integer (pos (suc n))), suc n)) else none

abbrev modules : Modules ℕ
modules = record {
  method = greet;
  load = λ path. if path == str "/greeter.py" then ok 0 else err not_found_error;
  inherited = λ name. none;
  dumps = λ names. str "[]";
}

abbrev requests : List (List Str)
requests =
    (str "greeter" ∷ str "hi" ∷ [])
    ∷ (str "system" ∷ str "register_actor" ∷ str "greeter" ∷ str "/greeter.py" ∷ [])
    ∷ (str "greeter" ∷ str "hi" ∷ [])
    ∷ (str "PING" ∷ [])
    ∷ (str "greeter" ∷ str "hi" ∷ [])
    ∷ (str "greeter" ∷ str "bye" ∷ [])
    ∷ (str "greeter" ∷ str "hi" ∷ [])
    ∷ []

abbrev started : Actors ℕ
started = (str "system", system) ∷ []

abbrev answered : Values
answered = Values.cons (text (str "actor greeter isn't loaded")) (
    Values.cons (integer (pos 1))
      (Values.cons (integer (pos 1)) (Values.cons (integer (pos 2)) Values.nil)))

answers-requests : answers modules requests started ≡ answered
unfolding answers answer call call_system register_actor decode lookup insert has_key str_eq
answers-requests = refl

answered-ArePlain : ArePlain (answers modules requests started)
unfolding answers answer call call_system register_actor decode lookup insert has_key str_eq IsPlain
    is_ascii
answered-ArePlain = (refl, (tt, (tt, (tt, tt))))

read_many-on_connection_example :
    read_many
      (read_reply (size_all (answers modules requests started)))
      (count (answers modules requests started))
      (on_connection modules requests started new_encoder).1.sent
    ≡ some (replies_of (answers modules requests started), [])
read_many-on_connection_example = read_many-on_connection modules requests started answered-ArePlain

started-HasSystem : HasSystem started
unfolding lookup str_eq
started-HasSystem = refl

on_connection-HasSystem_example : HasSystem (on_connection modules requests started new_encoder).0
on_connection-HasSystem_example =
    on_connection-HasSystem modules requests started new_encoder started-HasSystem
