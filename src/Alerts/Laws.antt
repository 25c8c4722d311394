-- ===== src/Alerts/Laws.antt =====
-- What raising, deleting and looking up alerts does to the database.
use mathlib.Core.Path.{subst}
use js_ng.Prelude.{
  ℕ, suc, ◌+◌, ◌≤◌, ◌<◌, ◌≡◌, refl, ap, sym, ◌∙◌, false, ◌&&◌, none, some, [], arith, ◌==◌, str_eq,
  nat_eq, ==_refl, Str, Option-cases, Bool-cases, inl, inr,
}
use js_ng.Prelude.Dict.{lookup, insert, erase, lookup-insert, lookup-erase}
use js_ng.Prelude.Result.{ok}
use js_ng.Alerts.{
  Alert, AlertsDb, Raised, new_alert, identifier, find_alert, touch, fill, alert_raise,
  raised_identifier, delete, target,
}
use js_ng.Alerts.Orderly.{
  IsOrderly, identifier-fill, id-fill, identifier-id, find_alert-IsFiled, stored, put-IsOrderly,
  found, raise_again, raise_first, apart_none, apart_some,
}

module _ (md5 : Str → Str) where
  -- Raising an alert keeps the database orderly: every alert stands under its own id, which was given
  -- out, and is found by its identifier.
  pub alert_raise-IsOrderly :
      (r : Raised) (db : AlertsDb) → IsOrderly md5 db → IsOrderly md5 (alert_raise md5 r db).1
  alert_raise-IsOrderly r db o = elim (Option-cases (found md5 r db)) [
    | inl e ↦ rw (raise_first md5 r db e) (
        put-IsOrderly md5 (record (fill r new_alert) { id = db.incr + 1 }) (db.incr + 1)
          (db.incr + 1) db o refl (omega arith) (omega arith) (omega arith)
          (λ j b h ne.
            ap (λ s. identifier md5 b == s)
              (identifier-id md5 (fill r new_alert) (db.incr + 1) ∙ identifier-fill md5 r new_alert)
            ∙ apart_none md5 r db j b o e h))
    | inr (a, e) ↦
        let (led, there, old) = find_alert-IsFiled md5 (raised_identifier md5 r) db a o e in
        rw (raise_again md5 r db a e old.positive) (
          put-IsOrderly md5 (fill r a) (fill r a).id db.incr db o refl
            (subst (λ n. 0 < n) (sym (id-fill md5 r a)) old.positive)
            (subst (λ n. n ≤ db.incr) (sym (id-fill md5 r a)) old.given_out) (omega arith)
            (λ j b h ne.
              ap (λ s. identifier md5 b == s) (identifier-fill md5 r a)
              ∙ apart_some md5 r db j a.id b o led h
                  (ap (λ n. j == n) (sym (id-fill md5 r a)) ∙ ne)))
  ]

  found-stored :
      (s : Str) (a : Alert) (n m : ℕ) (db : AlertsDb)
      → s ≡ identifier md5 a
      → find_alert 0 s (stored md5 a n m db) ≡ some a
  unfolding find_alert
  found-stored s a n m db e =
      let led : lookup s (insert (identifier md5 a) n db.ids) ≡ some n = rw (
        e,
        lookup-insert (identifier md5 a) (identifier md5 a) n db.ids,
        ==_refl (identifier md5 a),
      ) in
      let there : lookup n (insert n a db.alerts) ≡ some a =
        rw (lookup-insert n n a db.alerts, ==_refl n) in
      rw (led, find_alert) there

  count-fill : (r : Raised) (a : Alert) → (fill r a).count ≡ suc a.count
  unfolding fill touch
  count-fill r a = ground arith

  lookup-stored : (a : Alert) (n : ℕ) (db : AlertsDb) → lookup n (insert n a db.alerts) ≡ some a
  lookup-stored a n db = rw (lookup-insert n n a db.alerts, ==_refl n)

  others-stored :
      (a : Alert) (n m : ℕ) (db : AlertsDb) (j : ℕ)
      → (j == n) ≡ false
      → lookup j (insert n a db.alerts) ≡ lookup j db.alerts
  others-stored a n m db j ne = rw (lookup-insert j n a db.alerts, ne)

  -- After a raise the alert that was returned is found by its identifier and stands under its id,
  -- with one more occurrence counted than the alert of that identifier had (one, if there was none),
  -- and every alert under another id is as it was.
  pub find_alert-alert_raise :
      (r : Raised) (db : AlertsDb)
      → IsOrderly md5 db
      → (find_alert 0 (raised_identifier md5 r) (alert_raise md5 r db).1
          ≡ some (alert_raise md5 r db).0)
        × (lookup (alert_raise md5 r db).0.id (alert_raise md5 r db).1.alerts
            ≡ some (alert_raise md5 r db).0)
        × ((alert_raise md5 r db).0.count
            ≡ suc (elim (found md5 r db) [ none ↦ 0 | some a ↦ a.count ]))
        × ((j : ℕ)
            → (j == (alert_raise md5 r db).0.id) ≡ false
            → lookup j (alert_raise md5 r db).1.alerts ≡ lookup j db.alerts)
  find_alert-alert_raise r db o = elim (Option-cases (found md5 r db)) [
    | inl e ↦
        rw (raise_first md5 r db e, e)
          (
            found-stored (raised_identifier md5 r) (record (fill r new_alert) { id = db.incr + 1 })
                (db.incr + 1) (db.incr + 1) db
                (sym (
                  identifier-id md5 (fill r new_alert) (db.incr + 1)
                  ∙ identifier-fill md5 r new_alert)),
            lookup-stored (record (fill r new_alert) { id = db.incr + 1 }) (db.incr + 1) db,
            count-fill r new_alert,
            λ j ne.
                others-stored (record (fill r new_alert) { id = db.incr + 1 }) (db.incr + 1)
                  (db.incr + 1) db j ne,
          )
    | inr (a, e) ↦
        let (led, there, old) = find_alert-IsFiled md5 (raised_identifier md5 r) db a o e in
        rw (raise_again md5 r db a e old.positive, e)
          (
            found-stored (raised_identifier md5 r) (fill r a) (fill r a).id db.incr db
                (sym (identifier-fill md5 r a)),
            lookup-stored (fill r a) (fill r a).id db,
            count-fill r a,
            λ j ne. others-stored (fill r a) (fill r a).id db.incr db j ne,
          )
  ]

  erase-IsOrderly :
      (i : ℕ) (db : AlertsDb)
      → IsOrderly md5 db
      → IsOrderly md5 (record db { alerts = erase i db.alerts })
  erase-IsOrderly i db o = record {
    filed = λ j b k.
        let x = o.filed j b (ground (arith, lookup-erase j i db.alerts, k)) in
        record {
          own_id = x.own_id;
          positive = x.positive;
          given_out = x.given_out;
          by_identifier = x.by_identifier;
        };
  }

  -- Deleting an alert by its id or its identifier keeps the database orderly.
  pub delete-IsOrderly :
      (id : ℕ) (ident : Str) (db after : AlertsDb)
      → IsOrderly md5 db
      → delete id ident db ≡ ok after
      → IsOrderly md5 after
  unfolding delete
  delete-IsOrderly id ident db after o h = elim (Bool-cases (id == 0 && ident == [])) [
    | inl e ↦ absurd (ground (arith, e, h))
    | inr e ↦ elim (Option-cases (target id ident db)) [
      | inl t ↦ subst (λ x. IsOrderly md5 x) (ground (arith, e, t, h)) o
      | inr (i, t) ↦ subst (λ x. IsOrderly md5 x) (ground (arith, e, t, h)) (erase-IsOrderly i db o)
    ]
  ]
