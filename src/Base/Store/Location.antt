-- ===== src/Base/Store/Location.antt =====
-- core/base/store.py, Location: where the instances of a factory are kept; and the operations of a
-- store that change it, with what a reader sees of them.
use js_ng.Prelude.{Bool, Option, none, some, List, [], ◌∷◌, ◌++◌, ◌==◌, str_eq, if◌then◌else◌, Str}
use js_ng.Text.{split, join}

-- The names of a location
abbrev pub Location : Type 0
Location = List Str

-- Location.name
unfoldable pub location_name : Location → Str
unfolding join
location_name names = join b'.' names

-- Location.path, by its components
unfoldable pub location_path : Location → List Str
unfolding location_name split
location_path names = split b'.' (location_name names)

-- Location.from_type, from the module and the name of a class
abbrev pub from_type : Str → Str → Location
from_type module' name = module' ∷ name ∷ []

-- StoredFactory.location: the location of the parent factory, the name of the parent instance and that
-- of the factory, as far as there are any, and the class.
unfoldable pub factory_location : Location → Option Str → Option Str → Location → Location
factory_location parent instance' name type' =
    parent
    ++ elim instance' [ none ↦ [] | some n ↦ n ∷ [] ]
    ++ elim name [ none ↦ [] | some n ↦ n ∷ [] ]
    ++ type'

-- A call that changes a store
pub data Op (D : Type 0) : Type 0 where
  write : Str → D → Op D
  delete : Str → Op D

module _ {D : Type 0} where
  -- What a reader sees of such calls, if a deletion takes away the names that `removes` tells.
  unfoldable pub replay : (Str → Str → Bool) → List (Op D) → (Str → Option D) → Str → Option D
  replay removes [] f n = f n
  replay removes (write m d ∷ ops) f n = replay removes ops (λ k. if k == m then some d else f k) n
  replay removes (delete m ∷ ops) f n =
      replay removes ops (λ k. if removes m k then none else f k) n
