-- ===== src/Alerts.antt =====
-- tools/alerthandler/alerthandler.py: alerts in redis, numbered, and found again by what they say.
pub mod Find
pub mod Laws
pub mod Reachable
pub mod Orderly
pub mod Tracebacks
use js_ng.Prelude.{
  ℕ, zero, suc, ◌+◌, ◌≡◌, Bool, true, false, not, ◌&&◌, ◌||◌, Option, none, some, List, [], ◌∷◌,
  ◌++◌, ◌==◌, str_eq, nat_eq, if◌then◌else◌, ltb, Str, str, length, drop,
}
use js_ng.Prelude.Dict.{Dict, lookup, insert, erase}
use js_ng.Prelude.Result.{Result, ok, err, ◌>>=◌, value_error, not_found_error}

-- The status of an alert; an alert that was not saved yet has none.
pub data Status : Type 0 where
  unsaved opened reopened fresh closed : Status

-- The process of a traceback, which is all that a search reads of it
abbrev pub Traceback : Type 0
Traceback = ℕ

-- Alert; its `id` is 0 for None.
pub record Alert : Type 0 where
  pub id : ℕ
  pub type : Str
  pub level : ℕ
  pub appname : Str
  pub category : Str
  pub message : Str
  pub public_message : Str
  pub count : ℕ
  pub status : Status
  pub first_occurrence : ℕ
  pub last_occurrence : ℕ
  pub tracebacks : List (Option Traceback)

-- Alert()
abbrev pub new_alert : Alert
new_alert = record {
  id = 0;
  type = [];
  level = 0;
  appname = [];
  category = [];
  message = [];
  public_message = [];
  count = 0;
  status = unsaved;
  first_occurrence = 0;
  last_occurrence = 0;
  tracebacks = [];
}

-- The three keys of the handler in redis: the alerts by id, the ids by identifier, and the counter.
pub record AlertsDb : Type 0 where
  pub alerts : Dict ℕ Alert
  pub ids : Dict Str ℕ
  pub incr : ℕ

-- The arguments of alert_raise; the traceback is `none` for None. The time stands for the timestamp
-- given, or for the clock's if none is.
pub record Raised : Type 0 where
  pub appname : Str
  pub message : Str
  pub public_message : Str
  pub category : Str
  pub alert_type : Str
  pub level : ℕ
  pub time : ℕ
  pub traceback : Option Traceback

-- What AlertsHandler.get finds: by the id if one is given (0 is none), else by the identifier.
unfoldable pub find_alert : ℕ → Str → AlertsDb → Option Alert
find_alert zero ident db = elim (lookup ident db.ids) [ none ↦ none | some i ↦ lookup i db.alerts ]
find_alert (suc i) ident db = lookup (suc i) db.alerts

-- AlertsHandler.get
unfoldable pub get : ℕ → Str → Bool → AlertsDb → Result (Option Alert)
unfolding find_alert
get id ident die db =
    if id == 0 && ident == [] then err value_error else (elim (find_alert id ident db) [
      | some a ↦ ok (some a)
      | none ↦ if die then err not_found_error else ok none
    ])

-- The status and the first occurrence, by whether the alert was saved before.
unfoldable pub touch : ℕ → Alert → Alert
touch now a =
    if a.id == 0 then record a { status = fresh; first_occurrence = now } else (elim a.status [
      | fresh ↦ record a { status = opened }
      | closed ↦ record a { status = reopened }
      | _ ↦ a
    ])

-- At most six tracebacks are kept, if there is one to add; None is added as well.
unfoldable pub add_traceback : Option Traceback → List (Option Traceback) → List (Option Traceback)
add_traceback none ts = ts ++ none ∷ []
add_traceback (some t) ts = (if ltb 5 (length ts) then drop 1 ts else ts) ++ some t ∷ []

-- The alert as alert_raise fills it in
unfoldable pub fill : Raised → Alert → Alert
fill r a =
    let b = touch r.time a in
    record b {
      appname = r.appname;
      category = r.category;
      message = r.message;
      public_message = r.public_message;
      level = r.level;
      type = r.alert_type;
      count = b.count + 1;
      last_occurrence = r.time;
      tracebacks = add_traceback r.traceback b.tracebacks;
    }

-- `md5` is the digest of jumpscale.data.hash, by which the parts of an alert become its identifier.
module _ (md5 : Str → Str) where
  -- _get_identifier
  unfoldable pub get_identifier : Str → Str → Str → Str → Str → Str
  get_identifier appname message public_message category alert_type =
      md5
        (appname ++ b':' ∷ message ++ b':' ∷ public_message ++ b':' ∷ category ++ b':' ∷ alert_type)

  -- Alert.identifier
  unfoldable pub identifier : Alert → Str
  unfolding get_identifier
  identifier a = get_identifier a.appname a.message a.public_message a.category a.type

  -- AlertsHandler._save
  unfoldable pub save : Alert → AlertsDb → Alert × AlertsDb
  save a db =
      let n = if a.id == 0 then db.incr + 1 else a.id in
      let saved = record a { id = n } in
      (
        saved,
        record {
          alerts = insert n saved db.alerts;
          ids = insert (identifier saved) n db.ids;
          incr = if a.id == 0 then db.incr + 1 else db.incr;
        },
      )

  abbrev pub raised_identifier : Raised → Str
  raised_identifier r = get_identifier r.appname r.message r.public_message r.category r.alert_type

  -- AlertsHandler.alert_raise; an identifier is never empty, so that `get` does not raise.
  unfoldable pub alert_raise : Raised → AlertsDb → Alert × AlertsDb
  alert_raise r db =
      save (fill r (elim (find_alert 0 (raised_identifier r) db) [ none ↦ new_alert | some a ↦ a ]))
        db

-- AlertsHandler.count
unfoldable pub count : AlertsDb → ℕ
count db = length db.alerts

-- The id that an alert is deleted by
unfoldable pub target : ℕ → Str → AlertsDb → Option ℕ
target id ident db = if id == 0 then lookup ident db.ids else some id

-- AlertsHandler.delete
unfoldable pub delete : ℕ → Str → AlertsDb → Result AlertsDb
delete id ident db =
    if id == 0 && ident == [] then err value_error else (elim (target id ident db) [
      | none ↦ ok db
      | some i ↦ ok (record db { alerts = erase i db.alerts })
    ])

-- AlertsHandler.delete_all
unfoldable pub delete_all : AlertsDb → AlertsDb
delete_all db = record db { alerts = []; ids = [] }

-- AlertsHandler.reset
unfoldable pub reset : AlertsDb → AlertsDb
unfolding delete_all
reset db = record (delete_all db) { incr = 0 }
