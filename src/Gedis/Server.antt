-- ===== src/Gedis/Server.antt =====
-- servers/gedis/server.py and systemactor.py: the actors of a server, and the requests of a connection.
use js_ng.Prelude.{
  Option, none, some, List, [], ◌∷◌, ◌++◌, ◌==◌, str_eq, map, if◌then◌else◌, Str, str, pos,
}
use js_ng.Prelude.Dict.{Dict, lookup, insert, has_key}
use js_ng.Prelude.Result.{Result, ok, err, value_error, type_error, attribute_error}
use js_ng.Text.Utf8.{decode}
use js_ng.Gedis.{Value, integer, text, ResponseEncoder, encode}

-- The actors: the server's own, and objects of classes that are loaded from files.
pub data Actor (C : Type 0) : Type 0 where
  system : Actor C
  custom : C → Actor C

abbrev pub Actors : Type 0 → Type 0
Actors C = Dict Str (Actor C)

-- What is not of the server: the call of a method of a loaded actor, which returns or raises and may
-- change the actor; the actor of the file at a path; what system has from its base classes; json.dumps.
pub record Modules (C : Type 0) : Type 0 where
  pub method : C → Str → Option (List Str → Result Value × C)
  pub load : Str → Result C
  pub inherited : Str → Option (List Str → Result Value)
  pub dumps : List Str → Str

module _ {C : Type 0} (modules : Modules C) where
  -- SystemActor.list_actors
  unfoldable pub list_actors : Actors C → Value
  list_actors actors = text (modules.dumps (map (λ a. a.0) actors))

  -- SystemActor.register_actor
  unfoldable pub register_actor : Str → Str → Actors C → Result Value × Actors C
  unfolding decode has_key insert
  register_actor name path actors = elim (decode name) [
    | none ↦ (err value_error, actors)
    | some n ↦ elim (decode path) [
      | none ↦ (err value_error, actors)
      | some p ↦
          if has_key n actors then (ok (integer (pos 1)), actors) else (elim (modules.load p) [
            | err e ↦ (err e, actors)
            | ok c ↦ (ok (integer (pos 1)), insert n (custom c) actors)
          ])
    ]
  ]

  -- getattr(actor, method_name)(*args), of the server's own actor
  unfoldable pub call_system : Str → List Str → Actors C → Result Value × Actors C
  unfolding list_actors register_actor str_eq
  call_system name args actors =
      if name == str "list_actors"
      then (elim args [ [] ↦ (ok (list_actors actors), actors) | _ ∷ _ ↦ (err type_error, actors) ])
      else if name == str "register_actor"
      then (elim args [ n ∷ p ∷ [] ↦ register_actor n p actors | _ ↦ (err type_error, actors) ])
      else (elim (modules.inherited name) [
        | none ↦ (err attribute_error, actors)
        | some m ↦ (m args, actors)
      ])

  -- getattr(actor, method_name)(*args)
  unfoldable pub call : Str → Actor C → Str → List Str → Actors C → Result Value × Actors C
  unfolding call_system insert
  call actor_name system name args actors = call_system name args actors
  call actor_name (custom c) name args actors = elim (modules.method c name) [
    | none ↦ (err attribute_error, actors)
    | some m ↦ let (res, c') = m args in (res, insert actor_name (custom c') actors)
  ]

  -- A request: what is encoded, if anything, or the exception
  unfoldable pub answer : List Str → Actors C → Result (Option Value) × Actors C
  unfolding decode lookup call
  answer [] actors = (ok none, actors)
  answer (_ ∷ []) actors = (ok none, actors)
  answer (a ∷ m ∷ args) actors = elim (decode a) [
    | none ↦ (err value_error, actors)
    | some actor_name ↦ elim (decode m) [
      | none ↦ (err value_error, actors)
      | some method_name ↦ elim (lookup actor_name actors) [
        | none ↦ (ok (some (text (str "actor " ++ actor_name ++ str " isn't loaded"))), actors)
        | some actor ↦
            let (res, actors') = call actor_name actor method_name args actors in
            (elim res [ err e ↦ err e | ok v ↦ ok (some v) ], actors')
      ]
    ]
  ]

  -- on_connection: the requests that are read until the connection ends; an exception ends it too.
  unfoldable pub on_connection :
      List (List Str) → Actors C → ResponseEncoder → Actors C × ResponseEncoder
  unfolding answer encode
  on_connection [] actors e = (actors, e)
  on_connection (r ∷ rs) actors e =
      let (res, actors') = answer r actors in
      elim res [
        | err _ ↦ (actors', e)
        | ok none ↦ on_connection rs actors' e
        | ok (some v) ↦ on_connection rs actors' (encode v e)
      ]

  -- new_server
  unfoldable pub new_server : Actors C → Actors C
  unfolding insert str_eq
  new_server actors = insert (str "system") system []
