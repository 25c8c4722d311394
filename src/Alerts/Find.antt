-- ===== src/Alerts/Find.antt =====
-- AlertsHandler.find: the alerts that pass a filter, by their ids.
use js_ng.Prelude.{
  ℕ, ◌≡◌, ◌≤◌, Bool, true, false, not, ◌&&◌, List, [], ◌∷◌, Option, none, some, arith, ◌==◌, str_eq,
  nat_eq, if◌then◌else◌, ltb, leb, Str, ◌⊎◌, inl, inr, Bool-cases,
}
use mathlib.Core.Path.{subst}
use js_ng.Prelude.Dict.{Dict}
use js_ng.Prelude.Result.{Result, ok, err, type_error, ◌>>=◌, >>=-eq-ok}
use js_ng.Text.{strip, lower, occurs_in}
use js_ng.Alerts.{Alert, AlertsDb, Traceback}

-- The arguments of find: an empty text and 0 ask for nothing.
pub record Filter : Type 0 where
  pub appname : Str
  pub category : Str
  pub message : Str
  pub pid : ℕ
  pub start_time : ℕ
  pub end_time : ℕ

unfoldable pub cleaned : Filter → Filter
cleaned f = record f {
  appname = lower (strip f.appname);
  category = lower (strip f.category);
  message = lower (strip f.message);
}

-- The loop over the tracebacks of an alert; None has no process.
unfoldable pub raised_by : ℕ → List (Option Traceback) → Result Bool
raised_by pid [] = ok false
raised_by pid (none ∷ ts) = err type_error
raised_by pid (some p ∷ ts) = let rest = raised_by pid ts in if p == pid then ok true else rest

-- Whether the loop over the alerts reaches its end for an alert.
unfoldable pub is_wanted : Filter → Alert → Result Bool
unfolding occurs_in raised_by
is_wanted f a =
    if not (f.appname == []) && not (f.appname == a.appname)
    then ok false
    else if not (f.category == []) && not (f.category == a.category)
    then ok false
    else if not (f.message == [])
        && not (occurs_in f.message a.message)
        && not (occurs_in f.message a.public_message)
    then ok false
    else if not (f.start_time == 0) && ltb f.start_time a.first_occurrence
    then ok false
    else if not (f.end_time == 0) && ltb a.last_occurrence f.end_time
    then ok false
    else if f.pid == 0
    then ok true
    else raised_by f.pid a.tracebacks

unfoldable pub wanted : Filter → Dict ℕ Alert → Result (List Alert)
wanted f [] = ok []
wanted f ((i, a) ∷ d) = do b ← is_wanted f a; rest ← wanted f d; ok (if b then a ∷ rest else rest)

-- sorted(alerts, key=lambda alert: alert.id)
unfoldable pub insert_by_id : Alert → List Alert → List Alert
insert_by_id a [] = a ∷ []
insert_by_id a (b ∷ bs) =
    let rest = insert_by_id a bs in if leb a.id b.id then a ∷ b ∷ bs else b ∷ rest

unfoldable pub sort_by_id : List Alert → List Alert
unfolding insert_by_id
sort_by_id [] = []
sort_by_id (a ∷ hits) = insert_by_id a (sort_by_id hits)

unfoldable pub find : Filter → AlertsDb → Result (List Alert)
unfolding cleaned wanted sort_by_id
find f db = do hits ← wanted (cleaned f) db.alerts; ok (sort_by_id hits)

-- An alert is one of a list.
abbrev pub Among : Alert → List Alert → Type 0
Among a [] = ⊥
Among a (x ∷ xs) = (a ≡ x) ⊎ Among a xs

-- An alert stands in the database and passes the filter.
abbrev pub IsWantedIn : Filter → Alert → Dict ℕ Alert → Type 0
IsWantedIn f a [] = ⊥
IsWantedIn f a ((i, x) ∷ d) = (a ≡ x) × (is_wanted f x ≡ ok true) ⊎ IsWantedIn f a d

abbrev pub IsFrom : ℕ → List Alert → Type 0
IsFrom n [] = Unit
IsFrom n (x ∷ xs) = n ≤ x.id

abbrev pub IsById : List Alert → Type 0
IsById [] = Unit
IsById (x ∷ xs) = IsFrom x.id xs × IsById xs

IsFrom-insert :
    (n : ℕ) (a : Alert) (xs : List Alert) → n ≤ a.id → IsFrom n xs → IsFrom n (insert_by_id a xs)
unfolding insert_by_id
IsFrom-insert n a [] h k = h
IsFrom-insert n a (x ∷ xs) h k = elim (Bool-cases (leb a.id x.id)) [
  | inl e ↦ rw e h
  | inr e ↦ rw e k
]

leb_le : (a b : ℕ) → leb a b ≡ true → a ≤ b
leb_le a b h = ground arith

leb_ge : (a b : ℕ) → leb a b ≡ false → b ≤ a
leb_ge a b h = ground arith

insert-IsById : (a : Alert) (xs : List Alert) → IsById xs → IsById (insert_by_id a xs)
unfolding insert_by_id
insert-IsById a [] h = (tt, tt)
insert-IsById a (x ∷ xs) h = elim (Bool-cases (leb a.id x.id)) [
  | inl e ↦ rw e (leb_le a.id x.id e, h)
  | inr e ↦ rw e (IsFrom-insert x.id a xs (leb_ge a.id x.id e) h.0, insert-IsById a xs h.1)
]

sort-IsById : (xs : List Alert) → IsById (sort_by_id xs)
unfolding sort_by_id
sort-IsById [] = tt
sort-IsById (x ∷ xs) = insert-IsById x (sort_by_id xs) (sort-IsById xs)

Among-insert :
    (b a : Alert) (xs : List Alert)
    → (Among b (insert_by_id a xs) → (b ≡ a) ⊎ Among b xs)
      × ((b ≡ a) ⊎ Among b xs → Among b (insert_by_id a xs))
unfolding insert_by_id
Among-insert b a [] = (λ h. h, λ h. h)
Among-insert b a (x ∷ xs) =
    let (to, from) = Among-insert b a xs in
    elim (Bool-cases (leb a.id x.id)) [
      | inl e ↦ rw e (λ h. h, λ h. h)
      | inr e ↦ rw e (
        λ h. elim h [
          | inl k ↦ inr (inl k)
          | inr k ↦ elim (to k) [ inl m ↦ inl m | inr m ↦ inr (inr m) ]
        ],
        λ h. elim h [
          | inl k ↦ inr (from (inl k))
          | inr k ↦ elim k [ inl m ↦ inl m | inr m ↦ inr (from (inr m)) ]
        ],
      )
    ]

Among-sort :
    (b : Alert) (xs : List Alert)
    → (Among b (sort_by_id xs) → Among b xs) × (Among b xs → Among b (sort_by_id xs))
unfolding sort_by_id
Among-sort b [] = (λ h. h, λ h. h)
Among-sort b (x ∷ xs) =
    let (to, from) = Among-sort b xs in
    let (out, into) = Among-insert b x (sort_by_id xs) in
    (
      λ h. elim (out h) [ inl k ↦ inl k | inr k ↦ inr (to k) ],
      λ h. into (elim h [ inl k ↦ inl k | inr k ↦ inr (from k) ]),
    )

true-false : {r : Result Bool} → r ≡ ok false → r ≡ ok true → ⊥
true-false h k = cc (h, k)

ok-inj : {xs ys : List Alert} → Path (Result (List Alert)) (ok xs) (ok ys) → xs ≡ ys
ok-inj h = cc h

wanted_step :
    (f : Filter) (i : ℕ) (x : Alert) (d : Dict ℕ Alert) (rest : List Alert) (a : Alert) (b : Bool)
    → is_wanted f x ≡ ok b
    → (Among a rest → IsWantedIn f a d)
    → (IsWantedIn f a d → Among a rest)
    → (Among a (if b then x ∷ rest else rest) → IsWantedIn f a ((i, x) ∷ d))
      × (IsWantedIn f a ((i, x) ∷ d) → Among a (if b then x ∷ rest else rest))
wanted_step f i x d rest a true e to from = (
  λ h. elim h [ inl k ↦ inl (k, e) | inr k ↦ inr (to k) ],
  λ h. elim h [ inl k ↦ inl k.0 | inr k ↦ inr (from k) ],
)
wanted_step f i x d rest a false e to from =
    (λ h. inr (to h), λ h. elim h [ inl k ↦ absurd (true-false e k.1) | inr k ↦ from k ])

wanted_lem :
    (f : Filter) (d : Dict ℕ Alert) (xs : List Alert) (a : Alert)
    → wanted f d ≡ ok xs
    → (Among a xs → IsWantedIn f a d) × (IsWantedIn f a d → Among a xs)
unfolding wanted
wanted_lem f [] xs a h =
    subst (λ ys. (Among a ys → ⊥) × (⊥ → Among a ys)) (ok-inj h) (λ k. k, λ k. k)
wanted_lem f ((i, x) ∷ d) xs a h =
    let (b, e, h1) = >>=-eq-ok (is_wanted f x) _ h in
    let (rest, e1, h2) = >>=-eq-ok (wanted f d) _ h1 in
    let (to, from) = wanted_lem f d rest a e1 in
    subst
      (λ ys.
        (Among a ys → IsWantedIn f a ((i, x) ∷ d)) × (IsWantedIn f a ((i, x) ∷ d) → Among a ys))
      (ok-inj h2) (wanted_step f i x d rest a b e to from)

-- A search that does not raise finds exactly the alerts of the database that its filter wants, with
-- the filter's texts stripped and in lower case, in the order of their ids.
pub find_lem :
    (f : Filter) (db : AlertsDb) (xs : List Alert)
    → find f db ≡ ok xs
    → IsById xs
      × ((a : Alert)
          → (Among a xs → IsWantedIn (cleaned f) a db.alerts)
            × (IsWantedIn (cleaned f) a db.alerts → Among a xs))
unfolding find
find_lem f db xs h =
    let (hits, e, h1) = >>=-eq-ok (wanted (cleaned f) db.alerts) _ h in
    let same : sort_by_id hits ≡ xs = cc h1 in
    subst
      (λ ys.
        IsById ys
        × ((a : Alert)
            → (Among a ys → IsWantedIn (cleaned f) a db.alerts)
              × (IsWantedIn (cleaned f) a db.alerts → Among a ys)))
      same
      (
        sort-IsById hits,
        λ a.
            let (to, from) = Among-sort a hits in
            let (w, v) = wanted_lem (cleaned f) db.alerts hits a e in
            (λ k. w (to k), λ k. from (v k)),
      )
