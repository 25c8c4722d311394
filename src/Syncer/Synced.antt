-- ===== src/Syncer/Synced.antt =====
-- What sync sends.
use mathlib.Core.List.{append_assoc}
use mathlib.Core.Path.{subst}
use js_ng.Prelude.{
  In, ◌≡◌, refl, sym, ap, ◌∙◌, Bool, true, some, List, [], ◌∷◌, ◌++◌, starts, nat_eq, Str, str,
  arith, Bool-cases, inl, inr,
}
use js_ng.Prelude.Dict.{Dict}
use js_ng.Prelude.Result.{ok}
use js_ng.Fs.{Disk, kept_by, walk, walk_files}
use js_ng.Syncer.{
  Syncer, Sent, run, put, rewrite_path_for_dest, each, to_all, file_commands, replace, sync_file,
  sync_files, sync_paths, ensure_dirs, sync,
}

-- The paths below a watched one begin with it.
abbrev pub AllBegin : Str → List Str → Type 0
AllBegin path [] = Unit {0}
AllBegin path (f ∷ fs) = (starts path f ≡ true) × AllBegin path fs

abbrev pub IsWatched : Disk → Dict Str Str → Type 0
IsWatched disk [] = Unit {0}
IsWatched disk ((path, _) ∷ paths) =
    AllBegin path (disk.rglob (str "*") path) × IsWatched disk paths

-- A client is sent a file behind the command that makes the directory that it is put into.
unfoldable pub IsPut : Disk → Syncer → Str → Str → List Sent → Type 0
IsPut disk syncer f name sent =
    (dest : Str) × (before : List Sent) × (after : List Sent) × (rewrite_path_for_dest syncer.paths
        f
      ≡ some dest)
    × (sent
        ≡ before ++ (name, run (str "mkdir -p " ++ disk.parent dest)) ∷ (name, put f dest) ∷ after)

IsPut-left :
    (disk : Disk) (syncer : Syncer) (f name : Str) (s t : List Sent)
    → IsPut disk syncer f name s
    → IsPut disk syncer f name (s ++ t)
unfolding IsPut
IsPut-left disk syncer f name s t (dest, before, after, e, split) =
    (dest, before, after ++ t, e, ap (λ x. x ++ t) split ∙ append_assoc before _ t)

IsPut-right :
    (disk : Disk) (syncer : Syncer) (f name : Str) (s t : List Sent)
    → IsPut disk syncer f name t
    → IsPut disk syncer f name (s ++ t)
unfolding IsPut
IsPut-right disk syncer f name s t (dest, before, after, e, split) =
    (dest, s ++ before, after, e, ap (λ x. s ++ x) split ∙ sym (append_assoc s before _))

to_all-IsPut :
    (disk : Disk) (syncer : Syncer) (f name dest : Str) (names : List Str)
    → rewrite_path_for_dest syncer.paths f ≡ some dest
    → In name names
    → IsPut disk syncer f name (to_all (file_commands disk syncer f dest) names)
unfolding to_all each file_commands IsPut
to_all-IsPut disk syncer f name dest [] e h = absurd h
to_all-IsPut disk syncer f name dest (n ∷ names) e (inl same) =
    (dest, [], to_all (file_commands disk syncer f dest) names, e, rw same refl)
to_all-IsPut disk syncer f name dest (n ∷ names) e (inr h) =
    IsPut-right disk syncer f name (each n (file_commands disk syncer f dest))
      (to_all (file_commands disk syncer f dest) names)
      (to_all-IsPut disk syncer f name dest names e h)

-- A path that begins with a watched one has a place.
rewrite_path_for_dest-In :
    (paths : Dict Str Str) (path dest f : Str)
    → In (path, dest) paths
    → starts path f ≡ true
    → (d : Str) × (rewrite_path_for_dest paths f ≡ some d)
unfolding rewrite_path_for_dest
rewrite_path_for_dest-In [] path dest f h k = absurd h
rewrite_path_for_dest-In ((p, d) ∷ paths) path dest f (inl same) k =
    (replace p d f, ground (arith, k, same))
rewrite_path_for_dest-In ((p, d) ∷ paths) path dest f (inr h) k = elim (Bool-cases (starts p f)) [
  | inl e ↦ (replace p d f, rw e refl)
  | inr e ↦ let (x, place) = rewrite_path_for_dest-In paths path dest f h k in (x, rw e place)
]

kept-AllBegin :
    (path : Str) (p : Str → Bool) (fs : List Str) → AllBegin path fs → AllBegin path (kept_by p fs)
unfolding kept_by
kept-AllBegin path p [] h = tt
kept-AllBegin path p (f ∷ fs) h = elim (Bool-cases (p f)) [
  | inl e ↦ rw e (h.0, kept-AllBegin path p fs h.1)
  | inr e ↦ rw e (kept-AllBegin path p fs h.1)
]

AllBegin-In : (path f : Str) (fs : List Str) → AllBegin path fs → In f fs → starts path f ≡ true
AllBegin-In path f [] h i = absurd i
AllBegin-In path f (g ∷ fs) h (inl same) = rw same (h.0)
AllBegin-In path f (g ∷ fs) h (inr i) = AllBegin-In path f fs h.1 i

-- All files have a place.
abbrev ArePlaced : Syncer → List Str → Type 0
ArePlaced syncer fs =
    (f : Str) → In f fs → (d : Str) × (rewrite_path_for_dest syncer.paths f ≡ some d)

sync_files-IsPut :
    (disk : Disk) (syncer : Syncer) (fs : List Str)
    → ArePlaced syncer fs
    → (sent : List Sent) × (sync_files disk syncer fs ≡ ok sent)
      × ((f name : Str) → In f fs → In name syncer.sshclients_names → IsPut disk syncer f name sent)
unfolding sync_files sync_file
sync_files-IsPut disk syncer [] placed = ([], refl, λ f name i n. absurd i)
sync_files-IsPut disk syncer (g ∷ fs) placed =
    let (d, place) = placed g (inl refl) in
    let (rest, same, there) = sync_files-IsPut disk syncer fs (λ f i. placed f (inr i)) in
    let sent = to_all (file_commands disk syncer g d) syncer.sshclients_names in
    (
      sent ++ rest,
      rw (place, same) refl,
      λ f name i n. elim i [
        | inl e ↦ rw e (
            IsPut-left disk syncer g name sent rest
              (to_all-IsPut disk syncer g name d syncer.sshclients_names place n))
        | inr k ↦ IsPut-right disk syncer f name sent rest (there f name k n)
      ],
    )

-- All files that are found below one watched path
ArePlaced-walk_files :
    (disk : Disk) (syncer : Syncer) (path dest : Str)
    → In (path, dest) syncer.paths
    → AllBegin path (disk.rglob (str "*") path)
    → ArePlaced syncer (walk_files disk path true)
unfolding walk_files walk
ArePlaced-walk_files disk syncer path dest h begin f i =
    rewrite_path_for_dest-In syncer.paths path dest f h (
      AllBegin-In path f (kept_by disk.is_file (disk.rglob (str "*") path))
        (kept-AllBegin path disk.is_file (disk.rglob (str "*") path) begin) i)

sync_paths-IsPut :
    (disk : Disk) (syncer : Syncer) (paths : Dict Str Str)
    → ((path dest : Str) → In (path, dest) paths → In (path, dest) syncer.paths)
    → IsWatched disk paths
    → (sent : List Sent) × (sync_paths disk syncer paths ≡ ok sent)
      × ((path dest f name : Str)
          → In (path, dest) paths
          → In f (walk_files disk path true)
          → In name syncer.sshclients_names
          → IsPut disk syncer f name sent)
unfolding sync_paths
sync_paths-IsPut disk syncer [] sub watched = ([], refl, λ path dest f name i j n. absurd i)
sync_paths-IsPut disk syncer ((p, d) ∷ paths) sub watched =
    let (sent, done, first) =
      sync_files-IsPut disk syncer (walk_files disk p true)
        (ArePlaced-walk_files disk syncer p d (sub p d (inl refl)) watched.0) in
    let (rest, same, there) =
      sync_paths-IsPut disk syncer paths (λ path dest i. sub path dest (inr i)) watched.1 in
    (
      sent ++ rest,
      rw (done, same) refl,
      λ path dest f name i j n. elim i [
        | inl e ↦
            IsPut-left disk syncer f name sent rest
              (first f name (subst (λ x. In f (walk_files disk (x.0) true)) e j) n)
        | inr k ↦ IsPut-right disk syncer f name sent rest (there path dest f name k j n)
      ],
    )

-- If the files found below each watched path begin with it, sync raises nothing, and every file found
-- below a watched path is sent to every client: put at its place at the destination, directly behind
-- the command that makes the directory of that place.
pub sync-IsPut :
    (disk : Disk) (syncer : Syncer)
    → IsWatched disk syncer.paths
    → (sent : List Sent) × (sync disk syncer ≡ ok sent)
      × ((path dest f name : Str)
          → In (path, dest) syncer.paths
          → In f (walk_files disk path true)
          → In name syncer.sshclients_names
          → IsPut disk syncer f name sent)
unfolding sync
sync-IsPut disk syncer watched =
    let (sent, done, there) =
      sync_paths-IsPut disk syncer syncer.paths (λ path dest i. i) watched in
    let dirs = ensure_dirs disk syncer syncer.paths in
    (
      dirs ++ sent,
      rw done refl,
      λ path dest f name i j n.
          IsPut-right disk syncer f name dirs sent (there path dest f name i j n),
    )
