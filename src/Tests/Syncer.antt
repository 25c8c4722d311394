-- ===== src/Tests/Syncer.antt =====
-- A syncer of two clients, and a directory with one file.
use js_ng.Prelude.{
  In, false, ◌≡◌, refl, true, some, List, [], ◌∷◌, ◌==◌, starts, nat_eq, str_eq, Str, str,
}
use js_ng.Prelude.Result.{ok}
use js_ng.Fs.{Disk, walk_files}
use js_ng.Syncer.{Syncer, Sent, run, put, sync, rewrite_path_for_dest}
use js_ng.Syncer.Rewrite.{NoneStarts, rewrite_path_for_dest-append}
use js_ng.Text.Replace.{Absent}
use js_ng.Syncer.Synced.{IsWatched, IsPut, sync-IsPut}

abbrev disk : Disk
disk = record {
  rglob = λ pat path. str "/a/d" ∷ str "/a/d/f" ∷ [];
  iterdir = λ path. str "/a/d" ∷ [];
  is_file = λ path. path == str "/a/d/f";
  is_dir = λ path. path == str "/a/d";
  parent = λ path. str "/root/d";
  exists = λ path. false;
  basename = λ path. path;
  splitext = λ path. (path, []);
}

abbrev syncer : Syncer
syncer = record {
  sshclients_names = str "one" ∷ str "two" ∷ [];
  paths = (str "/a", str "/root") ∷ [];
}

disk-IsWatched : IsWatched disk syncer.paths
unfolding starts nat_eq
disk-IsWatched = ((refl, (refl, tt)), tt)

sync-IsPut_example :
    (sent : List Sent) × (sync disk syncer ≡ ok sent)
    × ((path dest f name : Str)
        → In (path, dest) syncer.paths
        → In f (walk_files disk path true)
        → In name syncer.sshclients_names
        → IsPut disk syncer f name sent)
sync-IsPut_example = sync-IsPut disk syncer disk-IsWatched

-- What is sent
synced :
    sync disk syncer
    ≡ ok (
        (str "one", run (str "mkdir -p /root/d"))
        ∷ (str "two", run (str "mkdir -p /root/d"))
        ∷ (str "one", run (str "mkdir -p /root/d"))
        ∷ (str "one", put (str "/a/d/f") (str "/root/d/f"))
        ∷ (str "two", run (str "mkdir -p /root/d"))
        ∷ (str "two", put (str "/a/d/f") (str "/root/d/f"))
        ∷ [])
unfolding sync str_eq
synced = refl

not_below : NoneStarts ((str "/b", str "/x") ∷ []) (str "/a/d")
unfolding starts nat_eq
not_below = (refl, tt)

only_once : Absent (str "/a") (str "/d")
unfolding starts nat_eq
only_once = (refl, (refl, tt))

rewrite_path_for_dest-append_example :
    rewrite_path_for_dest ((str "/b", str "/x") ∷ (str "/a", str "/root") ∷ []) (str "/a/d")
    ≡ some (str "/root/d")
rewrite_path_for_dest-append_example =
    rewrite_path_for_dest-append ((str "/b", str "/x") ∷ []) [] b'/' (str "a") (str "/root")
      (str "/d") not_below only_once

-- Elsewhere in the path it is replaced as well.
twice :
    rewrite_path_for_dest ((str "/a", str "/root") ∷ []) (str "/a/b/a") ≡ some (str "/root/b/root")
unfolding rewrite_path_for_dest nat_eq
twice = refl
