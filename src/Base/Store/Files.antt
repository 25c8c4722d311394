-- ===== src/Base/Store/Files.antt =====
-- core/base/store.py, FileSystemStore: instances as directories with a file in them.
use js_ng.Prelude.{
  Bool, false, ◌||◌, Option, none, some, List, [], ◌∷◌, ◌++◌, ◌==◌, str_eq, nat_eq, path_eq, starts,
  contains, if◌then◌else◌, Str, str,
}
use js_ng.Prelude.Dict.{Dict, lookup, insert, remove_if}
use js_ng.Prelude.Result.{Result, ok, err, not_found_error}
use js_ng.Text.{split, join}
use js_ng.Base.Store.Location.{Location, location_path, Op, write, delete}

abbrev pub FilePath : Type 0
FilePath = List Str

-- A path without its last part
unfoldable pub but_last : FilePath → FilePath
but_last [] = []
but_last (c ∷ []) = []
but_last (c ∷ d ∷ cs) = c ∷ but_last (d ∷ cs)

-- The files by their paths; a directory is there if a file is below it.
abbrev pub FileSystem : Type 0 → Type 0
FileSystem D = Dict FilePath D

-- What follows a directory in the path of a file
unfoldable pub child_of : FilePath → FilePath → Option Str
child_of [] [] = none
child_of [] (c ∷ cs) = some c
child_of (p ∷ ps) [] = none
child_of (p ∷ ps) (c ∷ cs) = let rest = child_of ps cs in if p == c then rest else none

module _ {D : Type 0} where
  -- os.listdir, of a directory that may be missing
  unfoldable pub listdir : FilePath → FileSystem D → List Str
  unfolding child_of
  listdir dir [] = []
  listdir dir ((path, d) ∷ files) =
      let rest = listdir dir files in
      elim (child_of dir path) [ none ↦ rest | some c ↦ if contains rest c then rest else c ∷ rest ]

  -- os.path.exists, of a directory
  unfoldable pub is_there : FilePath → FileSystem D → Bool
  is_there dir [] = false
  is_there dir ((path, d) ∷ files) = starts dir path || is_there dir files

-- What is left of a path when its parts are followed from a directory: an empty part and a dot stay
-- there, two dots go up. Links are not followed.
unfoldable pub walk_from : FilePath → List Str → FilePath
walk_from dir [] = dir
walk_from dir (c ∷ cs) =
    let up = walk_from (but_last dir) cs in
    let here = walk_from dir cs in
    let down = walk_from (dir ++ c ∷ []) cs in
    if c == str ".." then up else if c == [] || c == str "." then here else down

-- os.path.join(dir, name), as the file that it names; a name with a slash in front starts anew.
unfoldable pub join_path : FilePath → Str → FilePath
unfolding split walk_from starts
join_path dir name = walk_from (if starts (str "/") name then [] else dir) (split b'/' name)

-- The store of a location, under the path of the environment's configuration
module _ (root : FilePath) (location : Location) where
  unfoldable pub config_root : FilePath
  unfolding location_path join join_path
  config_root = join_path root (join b'/' (location_path location))

  unfoldable pub get_instance_root : Str → FilePath
  unfolding config_root join_path
  get_instance_root n = join_path config_root n

  unfoldable pub get_path : Str → FilePath
  unfolding get_instance_root join_path
  get_path n = join_path (get_instance_root n) (str "data")

  -- FileSystemStore.read
  unfoldable pub read_file : {D : Type 0} → Str → FileSystem D → Result D
  unfolding get_path
  read_file n files = elim (lookup (get_path n) files) [
    | none ↦ err not_found_error
    | some d ↦ ok d
  ]

  -- FileSystemStore.list_all
  unfoldable pub list_files : {D : Type 0} → FileSystem D → List Str
  unfolding config_root listdir
  list_files files = if is_there config_root files then listdir config_root files else []

  -- FileSystemStore.write
  unfoldable pub write_file : {D : Type 0} → Str → D → FileSystem D → FileSystem D
  unfolding get_path
  write_file n d files = insert (get_path n) d files

  -- FileSystemStore.delete
  unfoldable pub delete_files : {D : Type 0} → Str → FileSystem D → FileSystem D
  unfolding get_instance_root
  delete_files n files =
      if is_there (get_instance_root n) files
      then remove_if (starts (get_instance_root n)) files
      else files

  -- Calls one after another
  unfoldable pub run_files : {D : Type 0} → List (Op D) → FileSystem D → FileSystem D
  unfolding write_file delete_files
  run_files [] files = files
  run_files (write n d ∷ ops) files = run_files ops (write_file n d files)
  run_files (delete n ∷ ops) files = run_files ops (delete_files n files)
