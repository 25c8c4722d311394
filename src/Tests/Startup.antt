-- ===== src/Tests/Startup.antt =====
-- A command whose process starts when its window is told the command, and stops when it is killed.
use js_ng.Prelude.{
  ℕ, ◌+◌, ◌≡◌, leb, refl, true, false, none, some, [], ◌∷◌, List, str, contains, nat_eq, arith,
}
use js_ng.Prelude.Result.{ok, Result}
use js_ng.Startup.{
  System, StartupCmd, State, reset, get_pid, get_process_object, find_process, get_process,
  is_running, wait,
}
use js_ng.Startup.Calls.{
  Host, Commands, Attributes, tmux, start, stop, launch, prepare, get_window, cmd_path, looked,
  wait_here, end_running, hard_kill, end_processes, soft_kill, remove_script, stop_timeout,
}
use js_ng.Startup.Running.{start_twice, stop_waits, start-stop_end}

abbrev http_server : StartupCmd
http_server = record {
  instance_name = str "http";
  ports = [];
  check_cmd = [];
  timeout = 60;
  process_strings = [];
  process_strings_regex = [];
}

-- A clock, and the pids that are there, all of the command
record Machine : Type 0 where
  clock : ℕ
  pids : List ℕ

abbrev machine : System Machine
machine = record {
  get_pids = λ name w. w.pids;
  get_process_by_port = λ port w. ok none;
  get_filtered_pids = λ s w. [];
  get_pids_filtered_by_regex = λ rs w. [];
  exists = λ p w. contains w.pids p;
  alive = λ p w. contains w.pids p;
  kill = λ p w. record w { pids = [] };
  succeeds = λ check w. false;
}

-- What is typed into a window starts the process 5.
abbrev shell : Host Machine
shell = record {
  var_dir = str "/var";
  timestamp = λ w. w.clock;
  passes = λ k w. record w { clock = w.clock + k };
  execute = λ command w. ok (0, w);
  mkdirs = λ dir w. w;
  write_script = λ path script w. w;
  get_js_window = λ name w. (1, w);
  send_keys = λ v keys w. record w { pids = 5 ∷ [] };
  kill_window = λ v w. w;
  render_stop = λ s. s;
  render_script = λ commands name. commands.start_cmd;
}

abbrev http_commands : Commands
http_commands = record {
  start_cmd = str "python3 -m http.server";
  stop_cmd = [];
  executor = tmux;
  path = str "/tmp";
  env = [];
}

abbrev new_attributes : Attributes
new_attributes = record { found = reset; path_found = none; tmux_window = none }

abbrev idle : Machine
idle = record { clock = 100; pids = [] }

abbrev busy : Machine
busy = record { clock = 100; pids = 5 ∷ [] }

abbrev started_attributes : Attributes
started_attributes = record {
  found = record { process = some 5; pid = some 5 };
  path_found = some (str "/var/cmds/http.sh");
  tmux_window = some 1;
}

abbrev stopped_attributes : Attributes
stopped_attributes = record {
  found = reset;
  path_found = some (str "/var/cmds/http.sh");
  tmux_window = none;
}

started_once :
    start machine shell http_server http_commands 3 new_attributes idle
    ≡ some (ok (started_attributes, busy))
unfolding start looked launch prepare get_window cmd_path wait_here wait is_running get_process
    find_process get_pid get_process_object contains nat_eq
started_once = refl

stopped_once :
    stop machine shell http_server http_commands 3 true true true none started_attributes busy
    ≡ some (ok (stopped_attributes, idle))
unfolding stop end_running looked soft_kill hard_kill end_processes get_window cmd_path wait_here
    wait remove_script stop_timeout is_running get_process find_process get_pid get_process_object
    contains nat_eq
stopped_once = refl

start_twice_example :
    ((t : State) → (is_running machine http_server t busy).0 ≡ true)
    × (start machine shell http_server http_commands 1 started_attributes busy
        ≡ some (ok (looked machine shell http_server http_commands started_attributes busy, busy)))
start_twice_example =
    start_twice machine shell http_server http_commands 3 1 new_attributes started_attributes idle
      busy started_once

stop_waits_example :
    (b : Attributes) × (v : Machine) × ((t : State)
      → (is_running machine http_server t v).0 ≡ false)
    × (remove_script machine shell http_server http_commands b v ≡ ok (stopped_attributes, idle))
stop_waits_example =
    stop_waits machine shell http_server http_commands 3 true none started_attributes
      stopped_attributes busy idle stopped_once

minute_over : (v : Machine) → leb (v.clock + 60) (v.clock + 60) ≡ true
minute_over v = ground arith

start-stop_end_example :
    ((r : Result (Attributes × Machine)) × (start machine shell http_server http_commands 61
          new_attributes idle
        ≡ some r))
    × ((r : Result (Attributes × Machine)) × (stop machine shell http_server http_commands 61 true
            true true none new_attributes idle
          ≡ some r))
start-stop_end_example =
    start-stop_end machine shell http_server http_commands 61 60 true true true new_attributes idle
      minute_over (omega arith)
