-- ===== src/Startup/Calls.antt =====
-- tools/startupcmd/startupcmd.py, StartupCmd: stop and start, over what the parent finds.
use js_ng.Prelude.{
  ℕ, zero, suc, Bool, true, false, Option, none, some, [], ◌∷◌, ◌++◌, contains, eqb, nat_eq,
  if◌then◌else◌, Str, str,
}
use js_ng.Prelude.Dict.{Dict}
use js_ng.Prelude.Result.{Result, ok, err, value_error, ◌>>=◌}
use js_ng.Text.{strip}
use js_ng.Startup.{
  System, StartupCmd, State, reset, get_process, get_processes, kill_processes, is_running, wait,
}

-- Executor
pub data Executor : Type 0 where
  tmux foreground : Executor

-- The other fields of a command; None is the empty text.
pub record Commands : Type 0 where
  pub start_cmd : Str
  pub stop_cmd : Str
  pub executor : Executor
  pub path : Str
  pub env : Dict Str Str

-- What else the methods ask of the system and tell it: the clock, how the system changes in the sleeps
-- of a number of turns, commands with their exit code, files, and windows of tmux, which are numbers.
-- The texts that jinja2 renders are those of stop_cmd and of the script.
pub record Host (W : Type 0) : Type 0 where
  pub var_dir : Str
  pub timestamp : W → ℕ
  pub passes : ℕ → W → W
  pub execute : Str → W → Result (ℕ × W)
  pub mkdirs : Str → W → W
  pub write_script : Str → Str → W → W
  pub get_js_window : Str → W → ℕ × W
  pub send_keys : ℕ → Str → W → W
  pub kill_window : ℕ → W → W
  pub render_stop : Str → Str
  pub render_script : Commands → Str → Str

-- The attributes that __init__ sets: _process and _pid, _cmd_path and __tmux_window
pub record Attributes : Type 0 where
  pub found : State
  pub path_found : Option Str
  pub tmux_window : Option ℕ

module _ {W : Type 0} (system : System W) (host : Host W) (cmd : StartupCmd)
    (fields : Commands) where
  -- cmd_path
  unfoldable pub cmd_path : Attributes → W → Str × Attributes × W
  cmd_path a w = elim a.path_found [
    | some p ↦ (p, a, w)
    | none ↦
        let dir = host.var_dir ++ str "/cmds" in
        let p = dir ++ b'/' ∷ cmd.instance_name ++ str ".sh" in
        (p, record a { path_found = some p }, host.mkdirs dir w)
  ]

  -- _tmux_window, for the executor TMUX
  unfoldable pub get_window : Attributes → W → ℕ × Attributes × W
  get_window a w = elim a.tmux_window [
    | some v ↦ (v, a, w)
    | none ↦
        let (v, w') = host.get_js_window cmd.instance_name w in
        (v, record a { tmux_window = some v }, w')
  ]

  -- _soft_kill
  unfoldable pub soft_kill : Attributes → W → Result (Bool × Attributes × W)
  soft_kill a w = elim fields.stop_cmd [
    | [] ↦ ok (false, a, w)
    | c ∷ s ↦ do
      (code, w') ← host.execute (host.render_stop (c ∷ s)) w
      ok (eqb code 0, record a { found = reset }, w')
  ]

  -- The first statements of _hard_kill: the processes
  unfoldable pub end_processes : State → W → State × W
  unfolding get_process kill_processes get_processes
  end_processes s w =
      let (p, s') = get_process system cmd s w in
      elim p [
        | some q ↦
            let w' = kill_processes system cmd (q ∷ []) w in
            (reset, kill_processes system cmd (get_processes system cmd w') w')
        | none ↦ (s', kill_processes system cmd (get_processes system cmd w) w)
      ]

  -- _hard_kill
  unfoldable pub hard_kill : Attributes → W → Attributes × W
  unfolding end_processes get_window
  hard_kill a w =
      let (s, w') = end_processes a.found w in
      let ended = record a { found = s } in
      elim fields.executor [
        | foreground ↦ (ended, w')
        | tmux ↦
            let (v, a', w'') = get_window ended w' in
            (record a' { tmux_window = none }, host.kill_window v w'')
      ]

  -- What is_running leaves in the attributes
  unfoldable pub looked : Attributes → W → Attributes
  unfolding is_running
  looked a w = record a { found = (is_running system cmd a.found w).1 }

  -- stop, up to the wait
  unfoldable pub end_running : Bool → Attributes → W → Result (Attributes × W)
  unfolding is_running looked soft_kill hard_kill
  end_running force a w = do
    (a', w') ←
        (if (is_running system cmd a.found w).0
          then (do (ended, a', w') ← soft_kill (looked a w) w; ok (a', w'))
          else ok (looked a w, w))
    ok (if force then hard_kill a' w' else (a', w'))

  -- stop, behind the wait
  unfoldable pub remove_script : Attributes → W → Result (Attributes × W)
  unfolding cmd_path
  remove_script a w =
      let (p, a', w') = cmd_path a w in
      do (code, w'') ← host.execute (str "rm " ++ p) w'; ok (a', w'')

  -- `timeout or self.timeout`
  unfoldable pub stop_timeout : Option ℕ → ℕ
  stop_timeout none = cmd.timeout
  stop_timeout (some zero) = cmd.timeout
  stop_timeout (some (suc n)) = suc n

  -- _wait on the clock of the system, on fuel for its turns: the attributes and the system in the turn
  -- that it returns in
  unfoldable pub wait_here : Bool → ℕ → Bool → ℕ → Attributes → W → Option (Result (Attributes × W))
  unfolding wait
  wait_here for_running fuel die timeout a w =
      elim (wait system cmd (λ k. host.timestamp (host.passes k w)) (λ k. host.passes k w) fuel
        (host.timestamp w) for_running die timeout a.found) [
          | none ↦ none
          | some (err e) ↦ some (err e)
          | some (ok (k, s)) ↦ some (ok (record a { found = s }, host.passes k w))
        ]

  -- stop
  unfoldable pub stop :
      ℕ → Bool → Bool → Bool → Option ℕ → Attributes → W → Option (Result (Attributes × W))
  unfolding end_running wait_here remove_script stop_timeout
  stop fuel force waits die timeout a w = elim (end_running force a w) [
    | err e ↦ some (err e)
    | ok (a', w') ↦
        if waits
        then (elim (wait_here false fuel die (stop_timeout timeout) a' w') [
          | none ↦ none
          | some (err e) ↦ some (err e)
          | some (ok (a'', w'')) ↦ some (remove_script a'' w'')
        ])
        else some (remove_script a' w')
  ]

  -- The command that start runs, of which the script is written unless start_cmd has several lines
  unfoldable pub prepare : Attributes → W → Str × Attributes × W
  unfolding cmd_path strip contains
  prepare a w =
      if contains (strip fields.start_cmd) 10
      then (fields.start_cmd, a, w)
      else let (p, a', w') = cmd_path a w in
        (str "sh " ++ p, a', host.write_script p (host.render_script fields cmd.instance_name) w')

  -- start, between the test of start_cmd and the wait
  unfoldable pub launch : Attributes → W → Result (Attributes × W)
  unfolding prepare get_window
  launch a w =
      let (command, a', w') = prepare a w in
      elim fields.executor [
        | foreground ↦ do (code, w'') ← host.execute command w'; ok (a', w'')
        | tmux ↦ let (v, a'', w'') = get_window a' w' in ok (a'', host.send_keys v command w'')
      ]

  -- start
  unfoldable pub start : ℕ → Attributes → W → Option (Result (Attributes × W))
  unfolding is_running looked launch wait_here
  start fuel a w =
      if (is_running system cmd a.found w).0
      then some (ok (looked a w, w))
      else (elim fields.start_cmd [
        | [] ↦ some (err value_error)
        | _ ∷ _ ↦ elim (launch (looked a w) w) [
          | err e ↦ some (err e)
          | ok (a', w') ↦ wait_here true fuel true cmd.timeout a' w'
        ]
      ])
