-- ===== src/Syncer.antt =====
-- tools/syncer/__init__.py: what a syncer sends to its clients.
pub mod Rewrite
pub mod Synced
use js_ng.Prelude.{
  ℕ, zero, suc, ◌-◌, Bool, true, false, Option, none, some, List, [], ◌∷◌, ◌++◌, starts, nat_eq,
  str_eq, length, drop, if◌then◌else◌, Str, str,
}
use js_ng.Prelude.Dict.{Dict, lookup}
use js_ng.Prelude.Result.{Result, ok, err, type_error, key_error, ◌>>=◌}
use js_ng.Text.Replace.{replace}
use js_ng.Fs.{Disk, walk_files, walk_dirs}

-- The clients by their names; a client that cannot be had is not modelled.
pub record Syncer : Type 0 where
  pub sshclients_names : List Str
  pub paths : Dict Str Str

-- cl.run(…), cl.sftp.put(…, …) and cl.sftp.mkdir(…)
pub data Command : Type 0 where
  run : Str → Command
  put : Str → Str → Command
  mkdir : Str → Command

-- A client and what it is sent
abbrev pub Sent : Type 0
Sent = Str × Command

-- An event of the watchdog: whether it is of a directory, its path, and where it was moved to
pub record Event : Type 0 where
  pub is_directory : Bool
  pub src_path : Str
  pub dest_path : Str

-- str(s), of a text or None
unfoldable pub shown : Option Str → Str
shown none = str "None"
shown (some s) = s

-- _get_dest_path, and its loop over the paths that are left; the destination that it looks up is that
-- of its argument.
unfoldable pub get_dest_path_in : Dict Str Str → Dict Str Str → Str → Result (Option Str)
unfolding starts nat_eq str_eq lookup
get_dest_path_in paths [] s = ok none
get_dest_path_in paths ((path, _) ∷ rest) s =
    let further = get_dest_path_in paths rest s in
    if starts s path
    then elim (lookup s paths) [ none ↦ err key_error | some dest ↦ ok (some dest) ]
    else further

unfoldable pub get_dest_path : Dict Str Str → Str → Result (Option Str)
unfolding get_dest_path_in
get_dest_path paths s = get_dest_path_in paths paths s

-- _rewrite_path_for_dest
unfoldable pub rewrite_path_for_dest : Dict Str Str → Str → Option Str
unfolding starts nat_eq replace
rewrite_path_for_dest [] s = none
rewrite_path_for_dest ((path, dest) ∷ paths) s =
    if starts path s then some (replace path dest s) else rewrite_path_for_dest paths s

-- What one client is sent
unfoldable pub each : Str → List Command → List Sent
each name [] = []
each name (command ∷ commands) = (name, command) ∷ each name commands

-- The loop over the clients
unfoldable pub to_all : List Command → List Str → List Sent
unfolding each
to_all commands [] = []
to_all commands (name ∷ names) = each name commands ++ to_all commands names

-- A loop over the clients that needs a path: Path(None) raises.
unfoldable pub to_all_with : Option Str → (Str → List Command) → List Str → Result (List Sent)
unfolding to_all
to_all_with none commands [] = ok []
to_all_with none commands (name ∷ names) = err type_error
to_all_with (some path) commands names = ok (to_all (commands path) names)

module _ (disk : Disk) (syncer : Syncer) where
  -- ensure_dirs of sync: the directories below one watched path
  unfoldable pub make_dirs : List Str → List Sent
  unfolding shown rewrite_path_for_dest to_all
  make_dirs [] = []
  make_dirs (src_dir ∷ dirs) =
      to_all (run (str "mkdir -p " ++ shown (rewrite_path_for_dest syncer.paths src_dir)) ∷ [])
        syncer.sshclients_names
      ++ make_dirs dirs

  unfoldable pub ensure_dirs : Dict Str Str → List Sent
  unfolding make_dirs walk_dirs
  ensure_dirs [] = []
  ensure_dirs ((path, _) ∷ paths) = make_dirs (walk_dirs disk path true) ++ ensure_dirs paths

  -- What sync_file sends of a file with the given place
  unfoldable pub file_commands : Str → Str → List Command
  file_commands e dest_path = run (str "mkdir -p " ++ disk.parent dest_path) ∷ put e dest_path ∷ []

  -- sync_file of sync
  unfoldable pub sync_file : Str → Result (List Sent)
  unfolding rewrite_path_for_dest to_all_with file_commands
  sync_file e =
      to_all_with (rewrite_path_for_dest syncer.paths e) (file_commands e) syncer.sshclients_names

  unfoldable pub sync_files : List Str → Result (List Sent)
  unfolding sync_file
  sync_files [] = ok []
  sync_files (f ∷ fs) = sync_file f >>= λ sent. sync_files fs >>= λ rest. ok (sent ++ rest)

  -- The last loop of sync; the function that it gives for `recursive` is true.
  unfoldable pub sync_paths : Dict Str Str → Result (List Sent)
  unfolding sync_files walk_files
  sync_paths [] = ok []
  sync_paths ((path, _) ∷ paths) = sync_files (walk_files disk path true) >>= λ sent.
      sync_paths paths >>= λ rest. ok (sent ++ rest)

  unfoldable pub sync : Result (List Sent)
  unfolding ensure_dirs sync_paths
  sync = sync_paths syncer.paths >>= λ sent. ok (ensure_dirs syncer.paths ++ sent)

  unfoldable pub on_moved : Event → Result (List Sent)
  unfolding rewrite_path_for_dest to_all_with shown
  on_moved event =
      let remove = run (str "rm " ++ shown (rewrite_path_for_dest syncer.paths event.src_path)) in
      to_all_with (rewrite_path_for_dest syncer.paths event.dest_path)
        (λ dest_path.
          if disk.is_file dest_path
          then mkdir (disk.parent dest_path) ∷ put event.dest_path dest_path ∷ remove ∷ []
          else mkdir dest_path ∷ remove ∷ [])
        syncer.sshclients_names

  unfoldable pub on_created : Event → Result (List Sent)
  unfolding rewrite_path_for_dest to_all to_all_with shown
  on_created event =
      let dest = rewrite_path_for_dest syncer.paths event.src_path in
      if event.is_directory
      then ok (to_all (run (str "mkdir -p " ++ shown dest) ∷ []) syncer.sshclients_names)
      else to_all_with dest
          (λ dest_path. mkdir (disk.parent dest_path) ∷ run (str "touch " ++ dest_path) ∷ [])
          syncer.sshclients_names

  unfoldable pub on_deleted : Event → List Sent
  unfolding rewrite_path_for_dest to_all shown
  on_deleted event =
      to_all (run (str "rm " ++ shown (rewrite_path_for_dest syncer.paths event.src_path)) ∷ [])
        syncer.sshclients_names
