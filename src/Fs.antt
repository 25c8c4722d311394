-- ===== src/Fs.antt =====
-- sals/fs/__init__.py: walking over directories.
use js_ng.Prelude.{Bool, true, false, List, [], ◌∷◌, if◌then◌else◌, Str, str}

-- What pathlib and os say of a path: the paths of rglob(pat) and of iterdir(), as texts, whether it is
-- a file or a directory or there at all, its
-- parent and its last part, and its two parts of os.path.splitext
pub record Disk : Type 0 where
  pub rglob : Str → Str → List Str
  pub iterdir : Str → List Str
  pub is_file : Str → Bool
  pub is_dir : Str → Bool
  pub parent : Str → Str
  pub exists : Str → Bool
  pub basename : Str → Str
  pub splitext : Str → Str × Str

-- The loop over entries, with its filter
unfoldable pub kept_by : (Str → Bool) → List Str → List Str
kept_by filter_fun [] = []
kept_by filter_fun (entry ∷ entries) =
    let rest = kept_by filter_fun entries in if filter_fun entry then entry ∷ rest else rest

-- default_filter_fun
abbrev pub default_filter_fun : Str → Bool
default_filter_fun entry = true

module _ (disk : Disk) where
  unfoldable pub walk : Str → Str → (Str → Bool) → List Str
  unfolding kept_by
  walk path pat filter_fun = kept_by filter_fun (disk.rglob pat path)

  unfoldable pub walk_non_recursive : Str → (Str → Bool) → List Str
  unfolding kept_by
  walk_non_recursive path filter_fun = kept_by filter_fun (disk.iterdir path)

  unfoldable pub walk_files : Str → Bool → List Str
  unfolding walk walk_non_recursive
  walk_files path recursive =
      if recursive then walk path (str "*") disk.is_file else walk_non_recursive path disk.is_file

  unfoldable pub walk_dirs : Str → Bool → List Str
  unfolding walk walk_non_recursive
  walk_dirs path recursive =
      if recursive then walk path (str "*") disk.is_dir else walk_non_recursive path disk.is_dir

  unfoldable pub is_empty_dir : Str → Bool
  is_empty_dir path = elim (disk.iterdir path) [ [] ↦ true | _ ∷ _ ↦ false ]
