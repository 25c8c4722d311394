-- ===== src/Base/Store/SameListing.antt =====
-- FileSystemStore and RedisStore list the same names, in an order of their own.
use mathlib.Core.Quot
use mathlib.Core.Quot.{Quot}
use js_ng.Prelude.{
  ◌≡◌, true, Option, none, List, [], ◌∷◌, ◌==◌, str_eq, nat_eq, path_eq, starts, contains, Str, ◌⊎◌,
  In,
}
use js_ng.Base.Store.Location.{Location, Op, write, delete}
use js_ng.Base.Store.Files.{FilePath, FileSystem}
use js_ng.Base.Store.FilesLaws.{data_path, is_file_name}
use js_ng.Base.Store.Redis.{Redis}
use js_ng.Base.Store.Redis.Laws.{is_literal}

-- Lists of the same names, and what is listed without its order
abbrev pub SameNames : List Str → List Str → Type 0
SameNames xs ys = (n : Str) → contains xs n ≡ contains ys n

abbrev pub Names : Type 0
Names = Quot SameNames

-- No name is the start of another one.
abbrev pub AreApart : List Str → Type 0
AreApart ns = (m k : Str) → In m ns → In k ns → starts m k ≡ (m == k)

-- Only these names are written and deleted.
abbrev pub UseNames : {D : Type 0} → List Str → List (Op D) → Type 0
UseNames ns [] = Unit {0}
UseNames ns (write n d ∷ ops) = In n ns × UseNames ns ops
UseNames ns (delete n ∷ ops) = In n ns × UseNames ns ops

-- No name has a slash or a character with a meaning in a pattern, or stands for a directory.
abbrev pub AreSafe : List Str → Type 0
AreSafe ns = (n : Str) → In n ns → (is_file_name n ≡ true) × (is_literal n ≡ true)

module _ {D : Type 0} (root : FilePath) (location : Location) where
  -- All files are those of instances.
  abbrev AreFiles : FileSystem D → Type 0
  AreFiles [] = Unit {0}
  AreFiles ((path, d) ∷ files) = ((n : Str) × (path ≡ data_path root location n)) × AreFiles files

module _ {D : Type 0} (ns : List Str) where
  -- The dict has no other names.
  abbrev Holds : (Str → Option D) → Type 0
  Holds f = (k : Str) → (f k ≡ none) ⊎ In k ns
