-- ===== src/Base/Store/FilesLaws.antt =====
-- FileSystemStore keeps a dict of instances.
use mathlib.Core.Path.{subst, fun_ext}
use js_ng.Prelude.{
  ℕ, not, nat_eq, contains, ◌≡◌, refl, ap, sym, ◌∙◌, Bool, true, false, ◌&&◌, Option, none, some,
  List, [], ◌∷◌, ◌++◌, ◌==◌, str_eq, path_eq, starts, starts-append, if◌then◌else◌, Str, str, arith,
  Bool-cases, inl, inr, ==→eq, ==_refl,
}
use mathlib.Core.List.{append_assoc}
use js_ng.Prelude.Dict.{lookup, insert, remove_if, lookup-insert, lookup-remove_if}
use js_ng.Text.Split.{HasNo, split_word}
use js_ng.Prelude.Result.{ok, err, not_found_error}
use js_ng.Base.Store.Location.{Location, Op, write, delete, replay}
use js_ng.Base.Store.Files.{
  join_path, walk_from, FilePath, FileSystem, is_there, config_root, get_instance_root, get_path,
  read_file, write_file, delete_files, run_files,
}

cons-inj : {a b : Str} {xs ys : List Str} → Path (List Str) (a ∷ xs) (b ∷ ys) → xs ≡ ys
cons-inj h = cc h

head-inj : {a b : Str} {xs ys : List Str} → Path (List Str) (a ∷ xs) (b ∷ ys) → a ≡ b
head-inj h = cc h

append-inj : (ps : FilePath) (n m : Str) (rest : FilePath) → ps ++ n ∷ rest ≡ ps ++ m ∷ rest → n ≡ m
append-inj [] n m rest h = head-inj h
append-inj (p ∷ ps) n m rest h = append-inj ps n m rest (cons-inj h)

-- Nothing is found below a directory that is not there.
lookup_below :
    {D : Type 0} (dir path : FilePath) (files : FileSystem D)
    → is_there dir files ≡ false
    → starts dir path ≡ true
    → lookup path files ≡ none
unfolding lookup is_there
lookup_below dir path [] h k = refl
lookup_below dir path ((p, d) ∷ files) h k = elim (Bool-cases (path == p)) [
  | inl e ↦
      let here : starts dir p ≡ true = subst (λ x. starts dir x ≡ true) (==→eq path p e) k in
      absurd (ground (arith, h, here))
  | inr e ↦ ground (arith, e, h, k, lookup_below dir path files)
]

differ : (n m : Str) → (n == m) ≡ false → n ≡ m → ⊥
differ n m e h = ground (arith, e, h)

and_true : (b : Bool) → (b && true) ≡ b
and_true b = ground arith

-- A name that is one part of a path, and neither of the two that are directories already.
unfoldable pub is_file_name : Str → Bool
unfolding contains
is_file_name n = not (contains n b'/') && not (n == []) && not (n == str ".") && not (n == str "..")

contains-HasNo : (c : ℕ) (n : Str) → contains n c ≡ false → HasNo c n
unfolding contains
contains-HasNo c [] h = tt
contains-HasNo c (d ∷ n) h = (ground (arith, h), contains-HasNo c n (ground (arith, h)))

not_slash : (n : Str) → contains n b'/' ≡ false → starts (str "/") n ≡ false
unfolding contains starts
not_slash [] h = refl
not_slash (d ∷ n) h = ground (arith, h)

join_path-name :
    (dir : FilePath) (n : Str) → is_file_name n ≡ true → join_path dir n ≡ dir ++ n ∷ []
unfolding join_path walk_from is_file_name
join_path-name dir n h =
    let free : contains n b'/' ≡ false = ground (arith, h) in
    rw (not_slash n free, split_word b'/' n (contains-HasNo b'/' n free)) (ground (arith, h))

-- Where the file of an instance stands
abbrev pub data_path : FilePath → Location → Str → FilePath
data_path root location n = config_root root location ++ n ∷ str "data" ∷ []

pub get_instance_root-name :
    (root : FilePath) (location : Location) (n : Str)
    → is_file_name n ≡ true
    → get_instance_root root location n ≡ config_root root location ++ n ∷ []
unfolding get_instance_root
get_instance_root-name root location n h = join_path-name (config_root root location) n h

data_name : is_file_name (str "data") ≡ true
unfolding is_file_name contains nat_eq str_eq
data_name = refl

pub get_path-name :
    (root : FilePath) (location : Location) (n : Str)
    → is_file_name n ≡ true
    → get_path root location n ≡ data_path root location n
unfolding get_path
get_path-name root location n h =
    join_path-name (get_instance_root root location n) (str "data") data_name
    ∙ ap (λ d. d ++ str "data" ∷ []) (get_instance_root-name root location n h)
    ∙ append_assoc (config_root root location) (n ∷ []) (str "data" ∷ [])

pub same_path :
    (root : FilePath) (location : Location) (n m : Str)
    → (data_path root location n == data_path root location m) ≡ (n == m)
same_path root location n m = elim (Bool-cases (n == m)) [
  | inl e ↦ rw (==→eq n m e, ==_refl m) (==_refl (config_root root location ++ m ∷ str "data" ∷ []))
  | inr e ↦ elim (Bool-cases (data_path root location n == data_path root location m)) [
    | inl f ↦ absurd (
        differ n m e (
          append-inj (config_root root location) n m (str "data" ∷ [])
            (==→eq (data_path root location n) (data_path root location m) f)))
    | inr f ↦ f ∙ sym e
  ]
]

pub below_root :
    (root : FilePath) (location : Location) (n m : Str)
    → starts (config_root root location ++ m ∷ []) (data_path root location n) ≡ (m == n)
below_root root location n m =
    starts-append (config_root root location) (m ∷ []) (n ∷ str "data" ∷ [])
    ∙ (unfold starts in and_true (m == n))

-- The calls name their instances by such names.
abbrev pub AreFileNames : {D : Type 0} → List (Op D) → Type 0
AreFileNames [] = Unit {0}
AreFileNames (write n d ∷ ops) = (is_file_name n ≡ true) × AreFileNames ops
AreFileNames (delete n ∷ ops) = (is_file_name n ≡ true) × AreFileNames ops

module _ {D : Type 0} (root : FilePath) (location : Location) where
  -- What a reader sees
  abbrev pub file_view : FileSystem D → Str → Option D
  file_view files n = lookup (data_path root location n) files

  view-write :
      (n m : Str) (d : D) (files : FileSystem D)
      → is_file_name m ≡ true
      → file_view (write_file root location m d files) n
        ≡ (if n == m then some d else file_view files n)
  unfolding write_file
  view-write n m d files named =
      ap (λ p. lookup (data_path root location n) (insert p d files))
        (get_path-name root location m named)
      ∙ lookup-insert (data_path root location n) (data_path root location m) d files
      ∙ ap (λ b. if b then some d else file_view files n) (same_path root location n m)

  without : FilePath → FileSystem D → FileSystem D
  without dir files = if is_there dir files then remove_if (starts dir) files else files

  view-without :
      (n m : Str) (files : FileSystem D)
      → file_view (without (config_root root location ++ m ∷ []) files) n
        ≡ (if m == n then none else file_view files n)
  unfolding without
  view-without n m files =
      let dir = config_root root location ++ m ∷ [] in
      elim (Bool-cases (is_there dir files)) [
        | inl e ↦ rw e (
            lookup-remove_if (starts dir) (data_path root location n) files
            ∙ ap (λ b. if b then none else file_view files n) (below_root root location n m))
        | inr e ↦ rw e (elim (Bool-cases (m == n)) [
          | inl f ↦ rw f (
              lookup_below dir (data_path root location n) files e
                (below_root root location n m ∙ f))
          | inr f ↦ rw f refl
        ])
      ]

  view-delete :
      (n m : Str) (files : FileSystem D)
      → is_file_name m ≡ true
      → file_view (delete_files root location m files) n
        ≡ (if m == n then none else file_view files n)
  unfolding delete_files without
  view-delete n m files named =
      ap (λ dir. file_view (without dir files) n) (get_instance_root-name root location m named)
      ∙ view-without n m files

  pub view-run :
      (ops : List (Op D)) (files : FileSystem D) (n : Str)
      → AreFileNames ops
      → file_view (run_files root location ops files) n
        ≡ replay (λ m k. m == k) ops (file_view files) n
  unfolding run_files replay
  view-run [] files n h = refl
  view-run (write m d ∷ ops) files n h =
      view-run ops (write_file root location m d files) n h.1
      ∙ ap (λ f. replay (λ a k. a == k) ops f n) (fun_ext (λ k. view-write k m d files h.0))
  view-run (delete m ∷ ops) files n h =
      view-run ops (delete_files root location m files) n h.1
      ∙ ap (λ f. replay (λ a k. a == k) ops f n) (fun_ext (λ k. view-delete k m files h.0))

  -- Whatever is written and deleted, in any order, reading an instance afterwards gives what was
  -- written last under its name and not deleted since, or what was there, as in a dict of the
  -- instances; reading a name that the dict does not have raises. All names are single parts of a path:
  -- not empty, without a slash, and neither one dot nor two.
  pub read_file-run_files :
      (ops : List (Op D)) (files : FileSystem D) (n : Str)
      → AreFileNames ops
      → is_file_name n ≡ true
      → read_file root location n (run_files root location ops files)
        ≡ elim (replay (λ m k. m == k) ops (file_view files) n) [
          | none ↦ err not_found_error
          | some d ↦ ok d
        ]
  unfolding read_file
  read_file-run_files ops files n h named =
      ap (λ o. elim o [ none ↦ err not_found_error | some d ↦ ok d ])
        (ap (λ p. lookup p (run_files root location ops files))
            (get_path-name root location n named)
          ∙ view-run ops files n h)
