-- ===== src/Events/Laws.antt =====
-- What registering a handler changes for each class of events.
use js_ng.Prelude.{
  ◌≡◌, refl, ap, ◌∙◌, Bool, true, false, List, [], ◌∷◌, ◌++◌, ◌==◌, nat_eq, contains, if◌then◌else◌,
  arith, Bool-cases, inl, inr, ==→eq, ==_refl,
}
use mathlib.Core.Path.{subst, ap₂}
use js_ng.Prelude.Dict.{lookup-insert}
use js_ng.Prelude.Result.{Result, ok}
use js_ng.Events.{
  EventType, Handler, Listeners, listening, add_one, add_all, add_listenter, any, interested,
}

ok-inj : {A : Type 0} {x y : A} → Path (Result A) (ok x) (ok y) → x ≡ y
ok-inj h = cc h

-- The handlers with one more, unless it is there.
abbrev pub with_handler : Handler → List Handler → List Handler
with_handler h hs = if contains hs h then hs else hs ++ h ∷ []

listening-add_one :
    (t u : EventType) (h : Handler) (ls : Listeners)
    → listening t (add_one h u ls)
      ≡ (if t == u then with_handler h (listening u ls) else listening t ls)
unfolding add_one
listening-add_one t u h ls = ground (arith, lookup-insert t u (with_handler h (listening u ls)) ls)

contains-append : (h : Handler) (hs : List Handler) → contains (hs ++ h ∷ []) h ≡ true
unfolding contains
contains-append h [] = rw (==_refl h)
contains-append h (x ∷ hs) = ground (arith, contains-append h hs)

contains-with_handler : (h : Handler) (hs : List Handler) → contains (with_handler h hs) h ≡ true
contains-with_handler h hs = ground (arith, contains-append h hs)

with_handler_twice :
    (h : Handler) (hs : List Handler) → with_handler h (with_handler h hs) ≡ with_handler h hs
with_handler_twice h hs = rw (contains-with_handler h hs)

-- Registering it again changes nothing.
once :
    (b : Bool) (h : Handler) (hs : List Handler)
    → (if b then with_handler h (with_handler h hs) else with_handler h hs) ≡ with_handler h hs
once true h hs = with_handler_twice h hs
once false h hs = refl

listening-add_all :
    (t : EventType) (h : Handler) (ts : List EventType) (ls : Listeners)
    → listening t (add_all h ts ls)
      ≡ (if contains ts t then with_handler h (listening t ls) else listening t ls)
unfolding add_all contains
listening-add_all t h [] ls = refl
listening-add_all t h (u ∷ ts) ls =
    listening-add_all t h ts (add_one h u ls)
    ∙ ap (λ hs. if contains ts t then with_handler h hs else hs) (listening-add_one t u h ls)
    ∙ elim (Bool-cases (t == u)) [
      | inl e ↦ rw (==→eq t u e, ==_refl u) (once (contains ts u) h (listening u ls))
      | inr e ↦ rw e refl
    ]

-- What listens to a class of events once a handler was registered for some classes
abbrev pub updated : Handler → List EventType → EventType → Listeners → List Handler
updated h ts t ls = if contains ts t then with_handler h (listening t ls) else listening t ls

-- A registration that does not raise adds the handler, at the end, to the calls of the classes that
-- it names and that did not have it, and changes no other; an event is given to the handlers of its
-- class and then to those of Any.
pub interested-add_listenter :
    (h : Handler) (ts : List EventType) (ls after : Listeners)
    → add_listenter h ts ls ≡ ok after
    → (t : EventType) → interested t after ≡ updated h ts t ls ++ updated h ts any ls
unfolding add_listenter interested
interested-add_listenter h [] ls after e t = absurd (cc e)
interested-add_listenter h (u ∷ ts) ls after e t =
    subst
      (λ x. listening t x ++ listening any x ≡ updated h (u ∷ ts) t ls ++ updated h (u ∷ ts) any ls)
      (ok-inj e)
      (ap₂ (λ xs ys. xs ++ ys) (listening-add_all t h (u ∷ ts) ls)
        (listening-add_all any h (u ∷ ts) ls))
