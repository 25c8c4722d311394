-- ===== src/Alerts/Orderly.antt =====
-- Databases in which every alert is found by its identifier.
use mathlib.Core.Path.{subst}
use js_ng.Prelude.{
  ℕ, ◌+◌, ◌≤◌, ◌<◌, ◌≡◌, refl, sym, ◌∙◌, true, false, Option, none, some, arith, ◌==◌, str_eq,
  nat_eq, ==_refl, ==→eq, Str, Option-cases, Bool-cases, inl, inr,
}
use js_ng.Prelude.Dict.{lookup, insert, lookup-insert}
use js_ng.Alerts.{
  Alert, AlertsDb, Raised, new_alert, identifier, find_alert, touch, fill, save, alert_raise,
  raised_identifier,
}

module _ (md5 : Str → Str) where
  -- An alert stands under its own id, which the counter has given out, and its identifier leads there.
  pub record IsFiled (db : AlertsDb) (i : ℕ) (a : Alert) : Type 0 where
    pub own_id : a.id ≡ i
    pub positive : 0 < i
    pub given_out : i ≤ db.incr
    pub by_identifier : lookup (identifier md5 a) db.ids ≡ some i

  pub record IsOrderly (db : AlertsDb) : Type 0 where
    pub filed : (i : ℕ) (a : Alert) → lookup i db.alerts ≡ some a → IsFiled db i a

  pub identifier-fill :
      (r : Raised) (a : Alert) → identifier md5 (fill r a) ≡ raised_identifier md5 r
  unfolding identifier fill
  identifier-fill r a = refl

  pub id-fill : (r : Raised) (a : Alert) → (fill r a).id ≡ a.id
  unfolding fill touch
  id-fill r a = ground arith

  pub identifier-id : (a : Alert) (n : ℕ) → identifier md5 (record a { id = n }) ≡ identifier md5 a
  unfolding identifier
  identifier-id a n = refl

  -- Where an alert of an orderly database is found by its identifier, it is filed.
  pub find_alert-IsFiled :
      (s : Str) (db : AlertsDb) (a : Alert)
      → IsOrderly db
      → find_alert 0 s db ≡ some a
      → (lookup s db.ids ≡ some a.id) × (lookup a.id db.alerts ≡ some a) × IsFiled db a.id a
  unfolding find_alert
  find_alert-IsFiled s db a o h = elim (Option-cases (lookup s db.ids)) [
    | inl e ↦ absurd (ground (arith, e, h))
    | inr (i, e) ↦
        let there : lookup i db.alerts ≡ some a = ground (arith, e, h) in
        let own : i ≡ a.id = sym ((o.filed i a there).own_id) in
        subst (λ k. (lookup s db.ids ≡ some k) × (lookup k db.alerts ≡ some a) × IsFiled db k a) own
          (e, there, o.filed i a there)
  ]

  abbrev pub stored : Alert → ℕ → ℕ → AlertsDb → AlertsDb
  stored a n m db = record {
    alerts = insert n a db.alerts;
    ids = insert (identifier md5 a) n db.ids;
    incr = m;
  }

  -- An alert is put under its id and its identifier, which leads to no other alert.
  pub put-IsOrderly :
      (a : Alert) (n m : ℕ) (db : AlertsDb)
      → IsOrderly db
      → a.id ≡ n
      → 0 < n
      → n ≤ m
      → db.incr ≤ m
      → ((j : ℕ) (b : Alert)
          → lookup j db.alerts ≡ some b
          → (j == n) ≡ false
          → (identifier md5 b == identifier md5 a) ≡ false)
      → IsOrderly (stored a n m db)
  put-IsOrderly a n m db o own pos_n le_n le_m apart = record {
    filed = λ j b h.
        let k = sym (lookup-insert j n a db.alerts) ∙ h in
        elim (Bool-cases (j == n)) [
          | inl e ↦
              let same : a ≡ b = ground (arith, e, k) in
              let here : j ≡ n = ==→eq j n e in
              subst (λ x. IsFiled (stored a n m db) j x) same
                (subst (λ x. IsFiled (stored a n m db) x a) (sym here)
                  (record {
                    own_id = own;
                    positive = pos_n;
                    given_out = le_n;
                    by_identifier = rw (
                      lookup-insert (identifier md5 a) (identifier md5 a) n db.ids,
                      ==_refl (identifier md5 a),
                    );
                  }))
          | inr e ↦
              let old = o.filed j b (ground (arith, e, k)) in
              record {
                own_id = old.own_id;
                positive = old.positive;
                given_out = omega (arith, old.given_out);
                by_identifier =
                    rw
                      (
                        lookup-insert (identifier md5 b) (identifier md5 a) n db.ids,
                        apart j b (ground (arith, e, k)) e,
                      )
                      old.by_identifier;
              }
        ];
  }

  -- What a raise finds: the alert of the same identifier, or none.
  abbrev pub found : Raised → AlertsDb → Option Alert
  found r db = find_alert 0 (raised_identifier md5 r) db

  eq_zero : (n : ℕ) → 0 < n → (n == 0) ≡ false
  eq_zero n h = ground arith

  save_old : (a : Alert) (db : AlertsDb) → 0 < a.id → save md5 a db ≡ (a, stored a a.id db.incr db)
  unfolding save
  save_old a db h = rw (eq_zero a.id h)

  save_new :
      (a : Alert) (db : AlertsDb)
      → (a.id == 0) ≡ true
      → save md5 a db ≡ (
        record a { id = db.incr + 1 },
        stored (record a { id = db.incr + 1 }) (db.incr + 1) (db.incr + 1) db,
      )
  unfolding save
  save_new a db h = rw h

  -- A raise of an alert that is there stores it under its id.
  pub raise_again :
      (r : Raised) (db : AlertsDb) (a : Alert)
      → found r db ≡ some a
      → 0 < a.id
      → alert_raise md5 r db ≡ (fill r a, stored (fill r a) (fill r a).id db.incr db)
  unfolding alert_raise
  raise_again r db a e h = rw e (save_old (fill r a) db (subst (λ n. 0 < n) (sym (id-fill r a)) h))

  pub raise_first :
      (r : Raised) (db : AlertsDb)
      → found r db ≡ none
      → alert_raise md5 r db ≡ (
        record (fill r new_alert) { id = db.incr + 1 },
        stored (record (fill r new_alert) { id = db.incr + 1 }) (db.incr + 1) (db.incr + 1) db,
      )
  unfolding alert_raise
  raise_first r db e =
      rw e (save_new (fill r new_alert) db (rw (id-fill r new_alert) (==_refl {A = ℕ} 0)))

  -- No filed alert has an identifier that is not found, or that leads to another id.
  pub apart_none :
      (r : Raised) (db : AlertsDb) (j : ℕ) (b : Alert)
      → IsOrderly db
      → found r db ≡ none
      → lookup j db.alerts ≡ some b
      → (identifier md5 b == raised_identifier md5 r) ≡ false
  unfolding find_alert
  apart_none r db j b o e h = elim (Bool-cases (identifier md5 b == raised_identifier md5 r)) [
    | inl same ↦
        let led =
          subst (λ s. lookup s db.ids ≡ some j)
            (==→eq (identifier md5 b) (raised_identifier md5 r) same)
            ((o.filed j b h).by_identifier) in
        absurd (ground (arith, led, h, e))
    | inr apart ↦ apart
  ]

  pub apart_some :
      (r : Raised) (db : AlertsDb) (j k : ℕ) (b : Alert)
      → IsOrderly db
      → lookup (raised_identifier md5 r) db.ids ≡ some k
      → lookup j db.alerts ≡ some b
      → (j == k) ≡ false
      → (identifier md5 b == raised_identifier md5 r) ≡ false
  apart_some r db j k b o e h ne = elim (Bool-cases (identifier md5 b == raised_identifier md5 r)) [
    | inl same ↦
        let led =
          subst (λ s. lookup s db.ids ≡ some j)
            (==→eq (identifier md5 b) (raised_identifier md5 r) same)
            ((o.filed j b h).by_identifier) in
        absurd (ground (arith, led, e, ne))
    | inr apart ↦ apart
  ]
