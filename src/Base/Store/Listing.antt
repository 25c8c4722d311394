-- ===== src/Base/Store/Listing.antt =====
-- What FileSystemStore lists.
use js_ng.Prelude.{
  ◌≡◌, refl, sym, true, false, ◌||◌, none, some, List, [], ◌∷◌, ◌++◌, ◌==◌, str_eq, starts,
  contains, if◌then◌else◌, Str, arith, Bool-cases, Option-cases, inl, inr, ==→eq, ==_refl,
}
use js_ng.Base.Store.Location.{Location}
use js_ng.Base.Store.Files.{
  FilePath, FileSystem, child_of, listdir, is_there, config_root, list_files,
}

starts_child :
    (dir path : FilePath) (n : Str)
    → starts (dir ++ n ∷ []) path ≡ elim (child_of dir path) [ none ↦ false | some c ↦ n == c ]
unfolding starts child_of
starts_child [] [] n = refl
starts_child [] (c ∷ cs) n = ground arith
starts_child (p ∷ ps) [] n = refl
starts_child (p ∷ ps) (c ∷ cs) n = ground (arith, starts_child ps cs n)

starts-longer :
    (dir path rest : FilePath) → starts (dir ++ rest) path ≡ true → starts dir path ≡ true
unfolding starts
starts-longer [] path rest h = refl
starts-longer (p ∷ ps) [] rest h = absurd (ground (arith, h))
starts-longer (p ∷ ps) (c ∷ cs) rest h = ground (arith, starts-longer ps cs rest, h)

contains-once :
    (names : List Str) (c n : Str)
    → contains (if contains names c then names else c ∷ names) n ≡ (n == c || contains names n)
unfolding contains
contains-once names c n = elim (Bool-cases (n == c)) [
  | inl e ↦ rw (==→eq n c e, ==_refl c) (once names c)
  | inr e ↦ ground (arith, e)
]
  where
    once :
        (names : List Str) (c : Str)
        → contains (if contains names c then names else c ∷ names) c ≡ true
    once names c = ground (arith, ==_refl c)

module _ {D : Type 0} where
  contains-listdir :
      (dir : FilePath) (files : FileSystem D) (n : Str)
      → contains (listdir dir files) n ≡ is_there (dir ++ n ∷ []) files
  unfolding contains listdir is_there
  contains-listdir dir [] n = refl
  contains-listdir dir ((path, d) ∷ files) n =
      let ih = contains-listdir dir files n in
      elim (Option-cases (child_of dir path)) [
        | inl e ↦ rw (listdir, e) (ground (arith, ih, e, starts_child dir path n))
        | inr (c, e) ↦
            rw (starts_child dir path n, listdir, e, ← ih) (contains-once (listdir dir files) c n)
      ]

  is_there-longer :
      (dir rest : FilePath) (files : FileSystem D)
      → is_there dir files ≡ false
      → is_there (dir ++ rest) files ≡ false
  unfolding is_there
  is_there-longer dir rest [] h = refl
  is_there-longer dir rest ((path, d) ∷ files) h = elim (Bool-cases (starts (dir ++ rest) path)) [
    | inl e ↦ absurd (ground (arith, starts-longer dir path rest e, h))
    | inr e ↦ ground (arith, e, h, is_there-longer dir rest files)
  ]

  -- The names that are listed are those of the directories with a file below them.
  pub contains-list_files :
      (root : FilePath) (location : Location) (files : FileSystem D) (n : Str)
      → contains (list_files root location files) n
        ≡ is_there (config_root root location ++ n ∷ []) files
  unfolding list_files
  contains-list_files root location files n =
      elim (Bool-cases (is_there (config_root root location) files)) [
        | inl e ↦ rw e (contains-listdir (config_root root location) files n)
        | inr e ↦
            rw e (
              unfold contains in sym (is_there-longer (config_root root location) (n ∷ []) files e))
      ]
