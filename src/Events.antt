-- ===== src/Events.antt =====
-- core/events/__init__.py: listeners of events by the class of the event.
pub mod Laws
use js_ng.Prelude.{
  ℕ, ◌≡◌, Bool, true, false, Option, none, some, List, [], ◌∷◌, ◌++◌, ◌==◌, nat_eq, contains,
  if◌then◌else◌,
}
use js_ng.Prelude.Dict.{Dict, lookup, insert}
use js_ng.Prelude.Result.{Result, ok, err, value_error, ◌>>=◌}

-- Classes of events and handlers, by number; the class Any is 0.
abbrev pub EventType : Type 0
EventType = ℕ

abbrev pub Handler : Type 0
Handler = ℕ

abbrev pub any : EventType
any = 0

abbrev pub Listeners : Type 0
Listeners = Dict EventType (List Handler)

abbrev pub initial_listeners : Listeners
initial_listeners = (any, []) ∷ []

-- `listeners.get(event_type, [])`
unfoldable pub listening : EventType → Listeners → List Handler
listening t ls = elim (lookup t ls) [ none ↦ [] | some hs ↦ hs ]

-- One turn of the loop; a class that has no list gets one.
unfoldable pub add_one : Handler → EventType → Listeners → Listeners
unfolding listening
add_one h t ls = let hs = listening t ls in insert t (if contains hs h then hs else hs ++ h ∷ []) ls

unfoldable pub add_all : Handler → List EventType → Listeners → Listeners
unfolding add_one
add_all h [] ls = ls
add_all h (t ∷ ts) ls = add_all h ts (add_one h t ls)

unfoldable pub add_listenter : Handler → List EventType → Listeners → Result Listeners
unfolding add_all
add_listenter h [] ls = err value_error
add_listenter h (t ∷ ts) ls = ok (add_all h (t ∷ ts) ls)

unfoldable pub add_global_listener : Handler → Listeners → Result Listeners
unfolding add_listenter
add_global_listener h ls = add_listenter h (any ∷ []) ls

-- What a decorator has done when it decorated a function, which it hands back wrapped.
unfoldable pub handle_many : List EventType → Handler → Listeners → Result Listeners
unfolding add_listenter
handle_many ts fun ls = add_listenter fun ts ls

unfoldable pub handle_any : Handler → Listeners → Result Listeners
unfolding add_global_listener
handle_any fun ls = add_global_listener fun ls

unfoldable pub handle : EventType → Handler → Listeners → Result Listeners
unfolding add_listenter
handle t fun ls = add_listenter fun (t ∷ []) ls

-- The handlers of an event in the order of their calls
unfoldable pub interested : EventType → Listeners → List Handler
unfolding listening
interested t ls = listening t ls ++ listening any ls

-- Calling handlers one after another until one raises; `call` is what a handler does with the event.
unfoldable pub call_all {ℓ} : {S : Type ℓ} → (Handler → S → Result S) → List Handler → S → Result S
call_all call [] s = ok s
call_all call (h ∷ hs) s = call h s >>= λ s'. call_all call hs s'

unfoldable pub notify {ℓ} :
    {S : Type ℓ} → (Handler → S → Result S) → EventType → Listeners → S → Result S
unfolding interested call_all
notify call t ls s = call_all call (interested t ls) s
