-- ===== src/Tests/Alerts.antt =====
-- A database of one alert, the texts themselves for their digests.
use js_ng.Prelude.{
  ℕ, suc, ◌≡◌, ◌≤◌, refl, false, none, some, [], ◌∷◌, Str, str, str_eq, nat_eq, ◌==◌, List, length,
  ◌++◌,
}
use js_ng.Prelude.Dict.{erase, lookup}
use js_ng.Alerts.{
  identifier, delete, target, Alert, AlertsDb, Raised, alert_raise, raised_identifier, find_alert,
}
use js_ng.Alerts.Reachable.{
  empty_db, Reachable, from_empty, step, raising, deleting, Reachable-IsOrderly,
}
use js_ng.Alerts.Tracebacks.{
  tracebacks_at-raise_all, raise_all, tracebacks_of, AllSome, AllNone, tracebacks_at, last_six,
}
use js_ng.Alerts.Laws.{find_alert-alert_raise}
use js_ng.Alerts.Orderly.{IsOrderly, found}

abbrev md5 : Str → Str
md5 s = s

abbrev disk_full : Raised
disk_full = record {
  appname = str "init";
  message = str "disk full";
  public_message = [];
  category = str "disk";
  alert_type = str "event";
  level = 40;
  time = 1000;
  traceback = none;
}

-- The database after the alert was raised.
abbrev one_alert : AlertsDb
one_alert = (alert_raise md5 disk_full empty_db).1

-- It is raised, deleted and raised again.
abbrev again : AlertsDb
again = (alert_raise md5 disk_full (record one_alert { alerts = erase 1 one_alert.alerts })).1

one_alert-Reachable : Reachable md5 one_alert
one_alert-Reachable = step from_empty (raising disk_full empty_db)

again-Reachable : Reachable md5 again
again-Reachable =
    step
      (step one_alert-Reachable (
        deleting 1 [] one_alert (record one_alert { alerts = erase 1 one_alert.alerts })
          (unfold delete target nat_eq str_eq in refl)))
      (raising disk_full (record one_alert { alerts = erase 1 one_alert.alerts }))

Reachable-IsOrderly_example :
    IsOrderly md5 again
    × ((i j : ℕ) (a b : Alert)
        → lookup i again.alerts ≡ some a
        → lookup j again.alerts ≡ some b
        → identifier md5 a ≡ identifier md5 b
        → i ≡ j)
Reachable-IsOrderly_example = Reachable-IsOrderly again-Reachable

find_alert-alert_raise_example :
    (find_alert 0 (raised_identifier md5 disk_full) (alert_raise md5 disk_full one_alert).1
      ≡ some (alert_raise md5 disk_full one_alert).0)
    × (lookup
          (alert_raise md5 disk_full one_alert).0.id
          (alert_raise md5 disk_full one_alert).1.alerts
        ≡ some (alert_raise md5 disk_full one_alert).0)
    × ((alert_raise md5 disk_full one_alert).0.count
        ≡ suc (elim (found md5 disk_full one_alert) [ none ↦ 0 | some a ↦ a.count ]))
    × ((j : ℕ)
        → (j == (alert_raise md5 disk_full one_alert).0.id) ≡ false
        → lookup j (alert_raise md5 disk_full one_alert).1.alerts ≡ lookup j one_alert.alerts)
find_alert-alert_raise_example =
    find_alert-alert_raise md5 disk_full one_alert (Reachable-IsOrderly one_alert-Reachable).0

-- Seven raises with a traceback
abbrev traced : ℕ → Raised
traced t = record disk_full { traceback = some t }

abbrev seven : List Raised
seven = traced 1 ∷ traced 2 ∷ traced 3 ∷ traced 4 ∷ traced 5 ∷ traced 6 ∷ traced 7 ∷ []

tracebacks_at-raise_all_example :
    (AllSome (tracebacks_of seven)
      → length (tracebacks_at (raised_identifier md5 disk_full) empty_db) ≤ 6
      → tracebacks_at (raised_identifier md5 disk_full) (raise_all md5 seven empty_db)
        ≡ last_six
            (tracebacks_at (raised_identifier md5 disk_full) empty_db ++ tracebacks_of seven))
    × (AllNone (tracebacks_of seven)
        → tracebacks_at (raised_identifier md5 disk_full) (raise_all md5 seven empty_db)
          ≡ tracebacks_at (raised_identifier md5 disk_full) empty_db ++ tracebacks_of seven)
tracebacks_at-raise_all_example =
    tracebacks_at-raise_all md5 seven (raised_identifier md5 disk_full) empty_db
      (Reachable-IsOrderly from_empty).0 (refl, (refl, (refl, (refl, (refl, (refl, (refl, tt)))))))
