-- ===== src/Alerts/Reachable.antt =====
-- The databases that the calls of AlertsHandler lead to, in any order.
use js_ng.Prelude.{ℕ, ◌≡◌, refl, sym, ap, ◌∙◌, some, Option, arith, str_eq, nat_eq, Str, []}
use js_ng.Prelude.Dict.{lookup}
use js_ng.Prelude.Result.{ok}
use js_ng.Alerts.{Alert, AlertsDb, Raised, identifier, alert_raise, delete, delete_all, reset}
use js_ng.Alerts.Orderly.{IsOrderly}
use js_ng.Alerts.Laws.{alert_raise-IsOrderly, delete-IsOrderly}

abbrev pub empty_db : AlertsDb
empty_db = record { alerts = []; ids = []; incr = 0 }

-- One call that returns
pub data Step (md5 : Str → Str) : AlertsDb → AlertsDb → Type 0 where
  raising : (r : Raised) (db : AlertsDb) → Step md5 db (alert_raise md5 r db).1
  deleting :
      (id : ℕ) (ident : Str) (db after : AlertsDb)
      → delete id ident db ≡ ok after
      → Step md5 db after
  clearing : (db : AlertsDb) → Step md5 db (delete_all db)
  resetting : (db : AlertsDb) → Step md5 db (reset db)

pub data Reachable (md5 : Str → Str) : AlertsDb → Type 0 where
  from_empty : Reachable md5 empty_db
  step : {db after : AlertsDb} → Reachable md5 db → Step md5 db after → Reachable md5 after

no_alerts-IsOrderly : (md5 : Str → Str) (db : AlertsDb) → db.alerts ≡ [] → IsOrderly md5 db
unfolding lookup
no_alerts-IsOrderly md5 db e = record { filed = λ i a h. absurd (ground (arith, e, h)) }

Step-IsOrderly :
    {md5 : Str → Str} {db after : AlertsDb}
    → Step md5 db after
    → IsOrderly md5 db
    → IsOrderly md5 after
unfolding delete_all reset
Step-IsOrderly {md5} (raising r db) o = alert_raise-IsOrderly md5 r db o
Step-IsOrderly {md5} (deleting id ident db after h) o = delete-IsOrderly md5 id ident db after o h
Step-IsOrderly {md5} (clearing db) o = no_alerts-IsOrderly md5 (delete_all db) refl
Step-IsOrderly {md5} (resetting db) o = no_alerts-IsOrderly md5 (reset db) refl

kept_by_calls : {md5 : Str → Str} {db : AlertsDb} → Reachable md5 db → IsOrderly md5 db
kept_by_calls {md5} from_empty = no_alerts-IsOrderly md5 empty_db refl
kept_by_calls (step r s) = Step-IsOrderly s (kept_by_calls r)

some-inj : {m n : ℕ} → Path (Option ℕ) (some m) (some n) → m ≡ n
some-inj h = cc h

-- Whatever is raised, deleted by an id or an identifier, cleared and reset, in any order from an empty
-- database: every alert stands under its own id, which was given out, and is found by its identifier;
-- and there are never two alerts of one identifier.
pub Reachable-IsOrderly :
    {md5 : Str → Str} {db : AlertsDb}
    → Reachable md5 db
    → IsOrderly md5 db
      × ((i j : ℕ) (a b : Alert)
          → lookup i db.alerts ≡ some a
          → lookup j db.alerts ≡ some b
          → identifier md5 a ≡ identifier md5 b
          → i ≡ j)
Reachable-IsOrderly {md5} {db} r =
    let o = kept_by_calls r in
    (
      o,
      λ i j a b h k same. some-inj (
          sym ((o.filed i a h).by_identifier)
          ∙ ap (λ s. lookup s db.ids) same
          ∙ (o.filed j b k).by_identifier),
    )
