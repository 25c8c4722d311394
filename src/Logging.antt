-- ===== src/Logging.antt =====
-- core/logging/logging.py: RedisLogHandler, the log of an application in redis and in files.
pub mod Kept
pub mod Pages
pub mod Read
use js_ng.Prelude.{
  ℕ, zero, suc, ◌+◌, ◌-◌, ◌*◌, ◌/◌, ◌%◌, Bool, true, false, not, ◌&&◌, Option, none, some, List, [],
  ◌∷◌, ◌++◌, ltb, if◌then◌else◌, nat_eq, length, take, drop, get_elem?, ℤ, pos, negsuc,
}
use js_ng.Prelude.Dict.{Dict, lookup, insert}
use js_ng.Prelude.Result.{Result, ok, err, type_error, ◌>>=◌}

-- _map_identifier: the last identifier of the record's page, and the place in the page, which is -1
-- for the last record of a full page. The quotient of floats is exact below 2 ** 52.
unfoldable pub map_identifier : ℕ → ℕ → ℕ × ℤ
map_identifier max_size identifier = (
  (identifier + max_size - 1) / max_size * max_size,
  elim (identifier % max_size) [ zero ↦ negsuc 0 | suc i ↦ pos i ],
)

-- Redis' lindex, and `xs[i]` of a list that is long enough: from the end below zero.
unfoldable pub lindex {ℓ} : {A : Type ℓ} → List A → ℤ → Option A
lindex xs (pos i) = get_elem? xs i
lindex xs (negsuc i) = if ltb i (length xs) then get_elem? xs (length xs - suc i) else none

-- A record: its identifier, and what the message says.
abbrev pub Record : Type 0 → Type 0
Record B = ℕ × B

-- The keys of one application, logs:<app>:records and logs:<app>:incr, and its directory of files,
-- which have the number of a page for their name.
pub record Log (B : Type 0) : Type 0 where
  pub records : List (Record B)
  pub incr : ℕ
  pub files : Dict ℕ (List (Record B))

abbrev pub new_log : {B : Type 0} → Log B
new_log = record { records = []; incr = 0; files = [] }

-- json.loads of what redis has, or of None
unfoldable pub loads : {A : Type 0} → Option A → Result (Option A)
loads none = err type_error
loads (some r) = ok (some r)

module _ {B : Type 0} where
  -- The options of the handler
  module _ (max_size : ℕ) (dump : Bool) where
    -- _dump_records
    unfoldable pub dump_records : ℕ → Log B → Log B
    dump_records part l = record l { files = insert part (take max_size l.records) l.files }

    -- _clean_up
    unfoldable pub clean_up : Log B → Log B
    clean_up l = record l { records = drop max_size l.records }

    -- _process_message: the record that a message becomes
    unfoldable pub process_message : B → Log B → Record B × Log B
    process_message message l = ((l.incr + 1, message), record l { incr = l.incr + 1 })

    -- What _handle does when the list has grown too long
    unfoldable pub rotate : ℕ → Log B → Log B
    unfolding dump_records clean_up map_identifier
    rotate id l = clean_up (if dump then dump_records (map_identifier max_size (id - 1)).0 l else l)

    -- _handle
    unfoldable pub handle : B → Log B → Log B
    unfolding process_message rotate
    handle message l =
        let (r, l') = process_message message l in
        let pushed = record l' { records = l'.records ++ r ∷ [] } in
        if ltb max_size (length pushed.records) then rotate r.0 pushed else pushed

    -- Messages one after another
    unfoldable pub handle_all : List B → Log B → Log B
    unfolding handle
    handle_all [] l = l
    handle_all (b ∷ bs) l = handle_all bs (handle b l)

    -- records_count
    unfoldable pub records_count : Log B → ℕ
    records_count l = l.incr

    -- The part of record_get that reads a file
    unfoldable pub read_dumped : ℕ → ℤ → Log B → Result (Option (Record B))
    unfolding loads
    read_dumped part index l = elim (lookup part l.files) [
      | none ↦ ok none
      | some [] ↦ ok none
      | some (r ∷ rs) ↦ elim index [
        | pos i ↦ if ltb i (length (r ∷ rs)) then loads (lindex (r ∷ rs) (pos i)) else ok none
        | negsuc i ↦ loads (lindex (r ∷ rs) (negsuc i))
      ]
    ]

    -- record_get
    unfoldable pub record_get : ℕ → Log B → Result (Option (Record B))
    unfolding records_count map_identifier lindex read_dumped
    record_get identifier l =
        let count = records_count l in
        let (part, index) = map_identifier max_size identifier in
        if ltb count identifier
        then ok none
        else if ltb count (part + max_size)
        then loads (lindex l.records index)
        else if dump
        then read_dumped part index l
        else ok none

    -- remove_all_records
    unfoldable pub remove_all_records : Log B → Log B
    remove_all_records l = record l { records = []; incr = 0; files = if dump then [] else l.files }

    -- tail; a limit of 0 stands for None.
    unfoldable pub tail : ℕ → Log B → List (Record B)
    tail zero l = l.records
    tail (suc zero) l = l.records
    tail (suc (suc n)) l = take (suc (suc n)) l.records
