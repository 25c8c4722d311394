-- ===== src/Alerts/Tracebacks.antt =====
-- The tracebacks of an alert that is raised again and again.
use js_ng.Prelude.{
  ℕ, zero, suc, ◌-◌, ◌≤◌, ◌≡◌, refl, ap, sym, ◌∙◌, Option, none, some, List, [], ◌∷◌, ◌++◌, arith,
  Str, length, drop, Option-cases, Bool-cases, inl, inr, length-append, length-drop, ltb,
}
use mathlib.Core.Path.{subst}
use js_ng.Alerts.{
  Alert, AlertsDb, Raised, new_alert, find_alert, touch, fill, alert_raise, raised_identifier,
  add_traceback, Traceback,
}
use js_ng.Alerts.Orderly.{IsOrderly, found, raise_again, raise_first, find_alert-IsFiled}
use js_ng.Alerts.Laws.{find_alert-alert_raise, alert_raise-IsOrderly}

-- The calls of alert_raise, one after the other
unfoldable pub raise_all : (Str → Str) → List Raised → AlertsDb → AlertsDb
raise_all md5 [] db = db
raise_all md5 (r ∷ rs) db = raise_all md5 rs (alert_raise md5 r db).1

-- The tracebacks that the calls come with
abbrev pub tracebacks_of : List Raised → List (Option Traceback)
tracebacks_of [] = []
tracebacks_of (r ∷ rs) = r.traceback ∷ tracebacks_of rs

-- Every call comes with a traceback, or none does.
abbrev pub AllSome : List (Option Traceback) → Type 0
AllSome [] = Unit
AllSome (none ∷ ts) = ⊥
AllSome (some t ∷ ts) = AllSome ts

abbrev pub AllNone : List (Option Traceback) → Type 0
AllNone [] = Unit
AllNone (none ∷ ts) = AllNone ts
AllNone (some t ∷ ts) = ⊥

-- The calls are all about the same alert.
abbrev pub AllSame : (Str → Str) → Str → List Raised → Type 0
AllSame md5 s [] = Unit
AllSame md5 s (r ∷ rs) = (raised_identifier md5 r ≡ s) × AllSame md5 s rs

-- The last six
abbrev pub last_six : List (Option Traceback) → List (Option Traceback)
last_six ts = drop (length ts - 6) ts

drop_more :
    (n : ℕ) (ts : List (Option Traceback)) (t : Option Traceback)
    → n ≤ length ts
    → drop n ts ++ t ∷ [] ≡ drop n (ts ++ t ∷ [])
drop_more zero ts t h = refl
drop_more (suc n) [] t h = absurd (omega arith)
drop_more (suc n) (x ∷ ts) t h = drop_more n ts t (omega arith)

drop_one : (n : ℕ) (ts : List (Option Traceback)) → drop 1 (drop n ts) ≡ drop (suc n) ts
drop_one zero ts = refl
drop_one (suc n) [] = refl
drop_one (suc n) (x ∷ ts) = drop_one n ts

drop_at : (m n : ℕ) (ts : List (Option Traceback)) → m ≡ n → drop m ts ≡ drop n ts
drop_at m n ts e = ap (λ k. drop k ts) e

-- One more traceback
add_traceback-last_six :
    (ts : List (Option Traceback)) (t : Traceback)
    → add_traceback (some t) (last_six ts) ≡ last_six (ts ++ some t ∷ [])
unfolding add_traceback
add_traceback-last_six ts t = elim (Bool-cases (ltb 5 (length (last_six ts)))) [
  | inl e ↦
      let many : 6 ≤ length ts = ground (arith, e, length-drop (length ts - 6) ts) in
      rw (e, drop_one (length ts - 6) ts)
        (drop_more (suc (length ts - 6)) ts (some t) (omega (arith, many))
          ∙ drop_at (suc (length ts - 6)) (length (ts ++ some t ∷ []) - 6) (ts ++ some t ∷ [])
              (omega (arith, many, length-append ts (some t ∷ []))))
  | inr e ↦ rw e (
      drop_more (length ts - 6) ts (some t) (omega arith)
      ∙ drop_at (length ts - 6) (length (ts ++ some t ∷ []) - 6) (ts ++ some t ∷ [])
          (ground (arith, e, length-drop (length ts - 6) ts, length-append ts (some t ∷ []))))
]

-- The tracebacks are added one after the other.
abbrev add_each : List (Option Traceback) → List (Option Traceback) → List (Option Traceback)
add_each [] ts = ts
add_each (t ∷ new) ts = add_each new (add_traceback t ts)

append_one :
    (h ts : List (Option Traceback)) (t : Option Traceback) → (h ++ t ∷ []) ++ ts ≡ h ++ (t ∷ ts)
append_one [] ts t = refl
append_one (x ∷ h) ts t = ap (λ l. x ∷ l) (append_one h ts t)

append_none : (h : List (Option Traceback)) → h ++ [] ≡ h
append_none [] = refl
append_none (x ∷ h) = ap (λ l. x ∷ l) (append_none h)

add_each-AllSome :
    (new h : List (Option Traceback))
    → AllSome new
    → add_each new (last_six h) ≡ last_six (h ++ new)
add_each-AllSome [] h every = ap last_six (sym (append_none h))
add_each-AllSome (none ∷ new) h every = absurd every
add_each-AllSome (some t ∷ new) h every =
    ap (add_each new) (add_traceback-last_six h t)
    ∙ add_each-AllSome new (h ++ some t ∷ []) every
    ∙ ap last_six (append_one h new (some t))

add_each-AllNone : (new h : List (Option Traceback)) → AllNone new → add_each new h ≡ h ++ new
unfolding add_traceback
add_each-AllNone [] h every = sym (append_none h)
add_each-AllNone (some t ∷ new) h every = absurd every
add_each-AllNone (none ∷ new) h every =
    add_each-AllNone new (h ++ none ∷ []) every ∙ append_one h new none

-- The tracebacks of the alert that is found by an identifier; there are none where no alert is.
abbrev pub tracebacks_at : Str → AlertsDb → List (Option Traceback)
tracebacks_at s db = elim (find_alert 0 s db) [ none ↦ [] | some a ↦ a.tracebacks ]

unknown_alert : (s : Str) (db : AlertsDb) → find_alert 0 s db ≡ none → tracebacks_at s db ≡ []
unknown_alert s db e = ap (λ x. elim x [ none ↦ [] | some a ↦ Alert.tracebacks a ]) e

known_alert :
    (s : Str) (db : AlertsDb) (a : Alert)
    → find_alert 0 s db ≡ some a
    → tracebacks_at s db ≡ a.tracebacks
known_alert s db a e = ap (λ x. elim x [ none ↦ [] | some b ↦ Alert.tracebacks b ]) e

tracebacks-fill :
    (r : Raised) (a : Alert) → (fill r a).tracebacks ≡ add_traceback r.traceback a.tracebacks
unfolding fill touch
tracebacks-fill r a = ground arith

module _ (md5 : Str → Str) where
  tracebacks-alert_raise :
      (r : Raised) (db : AlertsDb)
      → IsOrderly md5 db
      → (alert_raise md5 r db).0.tracebacks
        ≡ add_traceback r.traceback (tracebacks_at (raised_identifier md5 r) db)
  tracebacks-alert_raise r db o = elim (Option-cases (found md5 r db)) [
    | inl e ↦
        rw (raise_first md5 r db e, unknown_alert (raised_identifier md5 r) db e)
          (tracebacks-fill r new_alert)
    | inr (a, e) ↦
        let (led, there, old) = find_alert-IsFiled md5 (raised_identifier md5 r) db a o e in
        rw (raise_again md5 r db a e old.positive, known_alert (raised_identifier md5 r) db a e)
          (tracebacks-fill r a)
  ]

  tracebacks_at-alert_raise :
      (r : Raised) (s : Str) (db : AlertsDb)
      → raised_identifier md5 r ≡ s
      → IsOrderly md5 db
      → tracebacks_at s (alert_raise md5 r db).1 ≡ add_traceback r.traceback (tracebacks_at s db)
  tracebacks_at-alert_raise r s db same o =
      subst
        (λ x.
          tracebacks_at x (alert_raise md5 r db).1 ≡ add_traceback r.traceback (tracebacks_at x db))
        same
        (known_alert (raised_identifier md5 r) (alert_raise md5 r db).1 (alert_raise md5 r db).0
            ((find_alert-alert_raise md5 r db o).0)
          ∙ tracebacks-alert_raise r db o)

  raise_all-add_each :
      (rs : List Raised) (s : Str) (db : AlertsDb)
      → IsOrderly md5 db
      → AllSame md5 s rs
      → tracebacks_at s (raise_all md5 rs db) ≡ add_each (tracebacks_of rs) (tracebacks_at s db)
  unfolding raise_all
  raise_all-add_each [] s db o same = refl
  raise_all-add_each (r ∷ rs) s db o same =
      raise_all-add_each rs s (alert_raise md5 r db).1 (alert_raise-IsOrderly md5 r db o) same.1
      ∙ ap (add_each (tracebacks_of rs)) (tracebacks_at-alert_raise r s db same.0 o)

  few : (ts : List (Option Traceback)) → length ts ≤ 6 → last_six ts ≡ ts
  few ts h = drop_at (length ts - 6) 0 ts (omega arith)

  -- Raises of one alert, in an orderly database. If each comes with a traceback, and the alert had six
  -- at most, it has the last six of its own and the new ones afterwards. If none comes with one, a None
  -- is added for each, and nothing is ever dropped.
  pub tracebacks_at-raise_all :
      (rs : List Raised) (s : Str) (db : AlertsDb)
      → IsOrderly md5 db
      → AllSame md5 s rs
      → (AllSome (tracebacks_of rs)
          → length (tracebacks_at s db) ≤ 6
          → tracebacks_at s (raise_all md5 rs db)
            ≡ last_six (tracebacks_at s db ++ tracebacks_of rs))
        × (AllNone (tracebacks_of rs)
            → tracebacks_at s (raise_all md5 rs db) ≡ tracebacks_at s db ++ tracebacks_of rs)
  tracebacks_at-raise_all rs s db o same = (
    λ every few_there.
        raise_all-add_each rs s db o same
        ∙ ap (add_each (tracebacks_of rs)) (sym (few (tracebacks_at s db) few_there))
        ∙ add_each-AllSome (tracebacks_of rs) (tracebacks_at s db) every,
    λ every.
        raise_all-add_each rs s db o same
        ∙ add_each-AllNone (tracebacks_of rs) (tracebacks_at s db) every,
  )
