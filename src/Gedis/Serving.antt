-- ===== src/Gedis/Serving.antt =====
-- What a connection sends.
use mathlib.Core.List.{append-nil}
use js_ng.Prelude.{
  ◌≡◌, refl, sym, ap, ◌∙◌, Option, none, some, List, [], ◌∷◌, ◌++◌, str_eq, Str, arith,
}
use js_ng.Prelude.Result.{Result, ok, err}
use js_ng.Gedis.{Value, Values, count, ResponseEncoder, new_encoder, send, encode, encode_all}
use js_ng.Gedis.Server.{Actors, Modules, answer, on_connection}
use js_ng.Gedis.Resp.{read_many, read_reply}
use js_ng.Gedis.Sent.{
  replies_of, ArePlain, rendered_all, after, encode-rendered, encode_all_rendered,
}
use js_ng.Gedis.RoundTrip.{size_all, read_all}

module _ {C : Type 0} (modules : Modules C) where
  -- The values that the requests are answered with, up to the first that raises
  unfoldable pub answers : List (List Str) → Actors C → Values
  unfolding answer
  answers [] actors = Values.nil
  answers (r ∷ rs) actors =
      let (res, actors') = answer modules r actors in
      elim res [
        | err _ ↦ Values.nil
        | ok none ↦ answers rs actors'
        | ok (some v) ↦ Values.cons v (answers rs actors')
      ]

  one_request :
      (rs : List (List Str)) (out : Result (Option Value) × Actors C) (e : ResponseEncoder)
      → ((d : ResponseEncoder)
          → (on_connection modules rs out.1 d).1 ≡ encode_all (answers rs out.1) d)
      → (elim out.0 as (λ _. Actors C × ResponseEncoder) [
        | err _ ↦ (out.1, e)
        | ok none ↦ on_connection modules rs out.1 e
        | ok (some v) ↦ on_connection modules rs out.1 (encode v e)
      ]).1
        ≡ encode_all
            (elim out.0 as (λ _. Values) [
              | err _ ↦ Values.nil
              | ok none ↦ answers rs out.1
              | ok (some v) ↦ Values.cons v (answers rs out.1)
            ])
            e
  unfolding encode
  one_request rs (err x, a) e h = refl
  one_request rs (ok none, a) e h = h e
  one_request rs (ok (some v), a) e h = h (encode v e)

  on_connection_lem :
      (rs : List (List Str)) (actors : Actors C) (e : ResponseEncoder)
      → (on_connection modules rs actors e).1 ≡ encode_all (answers rs actors) e
  unfolding on_connection answers
  on_connection_lem [] actors e = refl
  on_connection_lem (r ∷ rs) actors e =
      one_request rs (answer modules r actors) e (on_connection_lem rs (answer modules r actors).1)

-- The buffer is empty behind a value.
nothing_kept :
    (vs : Values) (e : ResponseEncoder)
    → ArePlain vs
    → e.buffer ≡ []
    → (encode_all vs e).buffer ≡ []
unfolding encode after ArePlain
nothing_kept Values.nil e h empty = empty
nothing_kept (Values.cons v vs) e h empty =
    nothing_kept vs (encode v e) h.1 (ap (λ d. d.buffer) (encode-rendered v e h.0))

sent_all :
    (vs : Values) (e : ResponseEncoder)
    → ArePlain vs
    → e.buffer ≡ []
    → (encode_all vs e).sent ≡ (send (encode_all vs e)).sent
unfolding send
sent_all vs e h empty =
    sym (append-nil (encode_all vs e).sent)
    ∙ ap (λ b. (encode_all vs e).sent ++ b) (sym (nothing_kept vs e h empty))

-- The values that the requests of a connection are answered with, up to the first request that
-- raises, hold texts and reprs of ASCII and no Booleans: a client that reads what was sent gets one
-- reply for each of these values, in their order, and nothing is left over.
pub read_many-on_connection :
    {C : Type 0} (modules : Modules C) (rs : List (List Str)) (actors : Actors C)
    → ArePlain (answers modules rs actors)
    → read_many
        (read_reply (size_all (answers modules rs actors)))
        (count (answers modules rs actors))
        (on_connection modules rs actors new_encoder).1.sent
      ≡ some (replies_of (answers modules rs actors), [])
unfolding rendered_all after
read_many-on_connection modules rs actors h =
    let vs = answers modules rs actors in
    let all_sent : (on_connection modules rs actors new_encoder).1.sent ≡ rendered_all vs =
      ap (λ d. d.sent) (on_connection_lem modules rs actors new_encoder)
      ∙ (sent_all vs new_encoder h refl
          ∙ ap (λ d. d.sent) (encode_all_rendered vs new_encoder h)) in
    ap (read_many (read_reply (size_all vs)) (count vs))
      (all_sent ∙ sym (append-nil (rendered_all vs)))
    ∙ read_all vs (size_all vs) [] h (omega arith)
