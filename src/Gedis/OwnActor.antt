-- ===== src/Gedis/OwnActor.antt =====
-- The server's own actor stays with it.
use js_ng.Prelude.{
  ◌≡◌, sym, ap, ◌∙◌, false, Option, none, some, List, [], ◌∷◌, ◌==◌, str_eq, Str, str, arith,
  Bool-cases, Option-cases, inl, inr, ==→eq,
}
use js_ng.Prelude.Dict.{lookup, insert, has_key, lookup-insert}
use js_ng.Prelude.Result.{Result, ok, err, Result-cases}
use js_ng.Text.Utf8.{decode}
use js_ng.Gedis.{Value, ResponseEncoder, encode}
use js_ng.Gedis.Server.{
  Actor, system, custom, Actors, Modules, register_actor, call_system, call, answer, on_connection,
}

-- The actor that the server has of itself
abbrev pub HasSystem : {C : Type 0} → Actors C → Type 0
HasSystem actors = lookup (str "system") actors ≡ some system

module _ {C : Type 0} (modules : Modules C) where
  insert-HasSystem :
      (n : Str) (a : Actor C) (actors : Actors C)
      → (str "system" == n) ≡ false
      → HasSystem actors
      → HasSystem (insert n a actors)
  insert-HasSystem n a actors e h = ground (arith, lookup-insert (str "system") n a actors, e, h)

  new_name :
      (n : Str) (actors : Actors C)
      → has_key n actors ≡ false
      → HasSystem actors
      → (str "system" == n) ≡ false
  unfolding has_key
  new_name n actors fresh h = elim (Bool-cases (str "system" == n)) [
    | inl e ↦
        let there : lookup n actors ≡ some system =
          ap (λ k. lookup k actors) (sym (==→eq (str "system") n e)) ∙ h in
        absurd (ground (arith, there, fresh))
    | inr e ↦ e
  ]

  -- An actor that is loaded gets a name that is not there.
  register_actor-HasSystem :
      (name path : Str) (actors : Actors C)
      → HasSystem actors
      → HasSystem (register_actor modules name path actors).1
  unfolding register_actor
  register_actor-HasSystem name path actors h = elim (Option-cases (decode name)) [
    | inl e ↦ ground (arith, e, h)
    | inr (n, e) ↦ elim (Option-cases (decode path)) [
      | inl f ↦ ground (arith, e, f, h)
      | inr (p, f) ↦ elim (Bool-cases (has_key n actors)) [
        | inl k ↦ ground (arith, e, f, k, h)
        | inr k ↦ elim (Result-cases (modules.load p)) [
          | inr (x, g) ↦ ground (arith, e, f, k, g, h)
          | inl (c, g) ↦
              let put = insert-HasSystem n (custom c) actors (new_name n actors k h) h in
              ground (arith, e, f, k, g, put)
        ]
      ]
    ]
  ]

  call_system-HasSystem :
      (name : Str) (args : List Str) (actors : Actors C)
      → HasSystem actors
      → HasSystem (call_system modules name args actors).1
  unfolding call_system
  call_system-HasSystem name [] actors h = ground (arith, h)
  call_system-HasSystem name (n ∷ []) actors h = ground (arith, h)
  call_system-HasSystem name (n ∷ p ∷ []) actors h =
      ground (arith, h, register_actor-HasSystem n p actors h)
  call_system-HasSystem name (n ∷ p ∷ x ∷ xs) actors h = ground (arith, h)

  -- An actor of another name is put back.
  other_name :
      (n : Str) (c : C) (actors : Actors C)
      → lookup n actors ≡ some (custom c)
      → HasSystem actors
      → (str "system" == n) ≡ false
  other_name n c actors found h = elim (Bool-cases (str "system" == n)) [
    | inl e ↦
        let there : Path (Option (Actor C)) (some system) (some (custom c)) =
          sym h ∙ (ap (λ k. lookup k actors) (==→eq (str "system") n e) ∙ found) in
        cc there
    | inr e ↦ e
  ]

  call-HasSystem :
      (n : Str) (actor : Actor C) (name : Str) (args : List Str) (actors : Actors C)
      → lookup n actors ≡ some actor
      → HasSystem actors
      → HasSystem (call modules n actor name args actors).1
  unfolding call
  call-HasSystem n system name args actors found h = call_system-HasSystem name args actors h
  call-HasSystem n (custom c) name args actors found h =
      elim (Option-cases (modules.method c name)) [
        | inl e ↦ ground (arith, e, h)
        | inr (m, e) ↦
            let put =
              insert-HasSystem n (custom (m args).1) actors (other_name n c actors found h) h in
            ground (arith, e, put)
      ]

  answer-HasSystem :
      (r : List Str) (actors : Actors C) → HasSystem actors → HasSystem (answer modules r actors).1
  unfolding answer
  answer-HasSystem [] actors h = h
  answer-HasSystem (a ∷ []) actors h = h
  answer-HasSystem (a ∷ m ∷ args) actors h = elim (Option-cases (decode a)) [
    | inl e ↦ ground (arith, e, h)
    | inr (n, e) ↦ elim (Option-cases (decode m)) [
      | inl f ↦ ground (arith, e, f, h)
      | inr (name, f) ↦ elim (Option-cases (lookup n actors)) [
        | inl g ↦ ground (arith, e, f, g, h)
        | inr (actor, g) ↦ ground (arith, e, f, g, call-HasSystem n actor name args actors g h)
      ]
    ]
  ]

  kept_by_rest :
      (rs : List (List Str)) (out : Result (Option Value) × Actors C) (e : ResponseEncoder)
      → HasSystem out.1
      → ((d : ResponseEncoder) → HasSystem (on_connection modules rs out.1 d).0)
      → HasSystem
          (elim out.0 as (λ _. Actors C × ResponseEncoder) [
            | err _ ↦ (out.1, e)
            | ok none ↦ on_connection modules rs out.1 e
            | ok (some v) ↦ on_connection modules rs out.1 (encode v e)
          ]).0
  kept_by_rest rs (err x, a) e h rest = h
  kept_by_rest rs (ok none, a) e h rest = rest e
  kept_by_rest rs (ok (some v), a) e h rest = rest (encode v e)

-- The server's own actor is there before the requests of a connection: it is there after them.
pub on_connection-HasSystem :
    {C : Type 0} (modules : Modules C) (rs : List (List Str)) (actors : Actors C)
    (e : ResponseEncoder)
    → HasSystem actors
    → HasSystem (on_connection modules rs actors e).0
unfolding on_connection
on_connection-HasSystem modules [] actors e h = h
on_connection-HasSystem modules (r ∷ rs) actors e h =
    let kept = answer-HasSystem modules r actors h in
    kept_by_rest modules rs (answer modules r actors) e kept
      (λ d. on_connection-HasSystem modules rs (answer modules r actors).1 d kept)
