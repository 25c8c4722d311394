-- ===== src/Startup.antt =====
-- tools/startupcmd/startupcmd.py: finding the processes of a command, and waiting for them.
pub mod Wait
pub mod Calls
pub mod Running
use js_ng.Prelude.{
  ℕ, zero, suc, ◌+◌, ◌*◌, Bool, true, false, not, Option, none, some, List, [], ◌∷◌, ◌++◌, ◌==◌,
  nat_eq, contains, ltb, if◌then◌else◌, Str, str,
}
use js_ng.Prelude.Result.{Result, ok, err, timeout_error}

-- What the methods ask the system, in one state of it, and what they tell it: get_pids,
-- get_process_by_port, get_filtered_pids, get_pids_filtered_by_regex, get_process_object, is_running and
-- kill of a process, and whether check_cmd exits with 0. Processes are their pids, which are not 0.
pub record System (W : Type 0) : Type 0 where
  pub get_pids : Str → W → List ℕ
  pub get_process_by_port : ℕ → W → Result (Option ℕ)
  pub get_filtered_pids : Str → W → List ℕ
  pub get_pids_filtered_by_regex : List Str → W → List ℕ
  pub exists : ℕ → W → Bool
  pub alive : ℕ → W → Bool
  pub kill : ℕ → W → W
  pub succeeds : Str → W → Bool

-- The fields of a command that is looked for
pub record StartupCmd : Type 0 where
  pub instance_name : Str
  pub ports : List ℕ
  pub check_cmd : Str
  pub timeout : ℕ
  pub process_strings : List Str
  pub process_strings_regex : List Str

-- The attributes _process and _pid
pub record State : Type 0 where
  pub process : Option ℕ
  pub pid : Option ℕ

-- reset
abbrev pub reset : State
reset = record { process = none; pid = none }

-- `==` of Booleans
abbrev pub same_bool : Bool → Bool → Bool
same_bool true b = b
same_bool false b = not b

-- _add_to_result
unfoldable pub add_to_result : Option ℕ → List ℕ → List ℕ
unfolding contains
add_to_result none result = result
add_to_result (some p) result = if contains result p then result else result ++ p ∷ []

module _ {W : Type 0} (system : System W) (cmd : StartupCmd) where
  -- get_process_object(pid, die=False)
  unfoldable pub get_process_object : ℕ → W → Option ℕ
  get_process_object p w = if system.exists p w then some p else none

  -- The loops of _get_processes_by_port_or_filter
  unfoldable pub add_ports : List ℕ → W → List ℕ → List ℕ
  unfolding add_to_result
  add_ports [] w result = result
  add_ports (port ∷ ports) w result = elim (system.get_process_by_port port w) [
    | err e ↦ add_ports ports w result
    | ok p ↦ add_ports ports w (add_to_result p result)
  ]

  unfoldable pub add_pids : List ℕ → W → List ℕ → List ℕ
  unfolding add_to_result get_process_object
  add_pids [] w result = result
  add_pids (p ∷ ps) w result = add_pids ps w (add_to_result (get_process_object p w) result)

  unfoldable pub add_strings : List Str → W → List ℕ → List ℕ
  unfolding add_pids
  add_strings [] w result = result
  add_strings (s ∷ ss) w result =
      add_strings ss w (add_pids (system.get_filtered_pids s w) w result)

  -- _get_processes_by_port_or_filter
  unfoldable pub get_processes : W → List ℕ
  unfolding add_ports add_strings add_pids
  get_processes w =
      add_pids (system.get_pids_filtered_by_regex cmd.process_strings_regex w) w
        (add_strings cmd.process_strings w (add_ports cmd.ports w []))

  -- _kill_processes
  unfoldable pub kill_processes : List ℕ → W → W
  kill_processes [] w = w
  kill_processes (p ∷ ps) w = kill_processes ps (system.kill p w)

  -- pid
  unfoldable pub get_pid : State → W → Option ℕ × State
  get_pid s w = elim s.pid [
    | some p ↦ (some p, s)
    | none ↦ elim (system.get_pids (str "startupcmd_" ++ cmd.instance_name) w) [
      | [] ↦ (none, s)
      | p ∷ ps ↦ (some p, record s { pid = some p })
    ]
  ]

  -- process, for a command that has not found its process yet
  unfoldable pub find_process : State → W → Option ℕ × State
  unfolding get_pid get_process_object get_processes
  find_process s w =
      let (found, s') = get_pid s w in
      elim found [
        | some p ↦ elim (get_process_object p w) [
          | some q ↦ (some q, record s' { process = some q })
          | none ↦ (none, record s' { process = none; pid = none })
        ]
        | none ↦ elim (get_processes w) [
          | p ∷ [] ↦ (some p, record s' { process = some p })
          | _ ↦ (none, s')
        ]
      ]

  -- process
  unfoldable pub get_process : State → W → Option ℕ × State
  unfolding find_process
  get_process s w = elim s.process [ some p ↦ (some p, s) | none ↦ find_process s w ]

  -- is_running
  unfoldable pub is_running : State → W → Bool × State
  unfolding get_process get_processes
  is_running s w = elim cmd.check_cmd [
    | _ ∷ _ ↦ (system.succeeds cmd.check_cmd w, s)
    | [] ↦
        let (found, s') = get_process reset w in
        elim found [
          | some p ↦ (system.alive p w, s')
          | none ↦ (elim (get_processes w) [ [] ↦ false | _ ∷ _ ↦ true ], s')
        ]
  ]

  -- What a turn of the loop of _wait finds: the time and the system
  module _ (now : ℕ → ℕ) (world : ℕ → W) where
    -- The loop of _wait from the given turn on, on fuel: whether it is left by the break, and the turn.
    unfoldable pub wait_loop : ℕ → ℕ → Bool → ℕ → State → Option (Bool × ℕ × State)
    unfolding is_running
    wait_loop zero end for_running k s = none
    wait_loop (suc fuel) end for_running k s =
        let (running, s') = is_running s (world k) in
        let rest = wait_loop fuel end for_running (suc k) s' in
        if ltb (now k) end
        then (if same_bool running for_running then some (true, k, s') else rest)
        else some (false, k, s)

    -- _wait, of which the end is reckoned at the time `start`: the turn that it returns in
    unfoldable pub wait : ℕ → ℕ → Bool → Bool → ℕ → State → Option (Result (ℕ × State))
    unfolding wait_loop
    wait fuel start for_running die timeout s =
        elim (wait_loop fuel (start + timeout) for_running 0 s) [
          | none ↦ none
          | some (true, k, s') ↦ some (ok (k, s'))
          | some (false, k, s') ↦ some (if die then err timeout_error else ok (k, s'))
        ]

    -- wait_for_stop
    unfoldable pub wait_for_stop : ℕ → ℕ → Bool → ℕ → State → Option (Result (ℕ × State))
    unfolding wait
    wait_for_stop fuel start die timeout s = wait fuel start false die timeout s

    -- wait_for_running
    unfoldable pub wait_for_running : ℕ → ℕ → Bool → ℕ → State → Option (Result (ℕ × State))
    unfolding wait
    wait_for_running fuel start die timeout s = wait fuel start true die timeout s
