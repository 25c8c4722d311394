-- ===== src/Tests/Process.antt =====
-- A machine on which at most one daemon is found; its state is how often that was started.
use js_ng.Prelude.{
  ℕ, zero, suc, ◌≡◌, refl, true, some, none, [], ◌∷◌, ◌==◌, nat_eq, str_eq, if◌then◌else◌, ◌⊎◌, Str,
  str,
}
use js_ng.Prelude.Result.{ok, err, type_error}
use js_ng.Process.{Machine, Proc, check_start, check_stop, kill_process_by_port}
use js_ng.Process.Laws.{executed, IsFound, check_start_lem, check_stop_lem}

abbrev listed : ℕ → Str
listed zero = str "7 pts/0 S 0:00 grep daemon\n"
listed (suc n) = str "  12 ?  Ss  0:01 daemon\n7 pts/0 S 0:00 grep daemon\n"

abbrev daemon_process : Proc
daemon_process = record {
  pid = 12;
  name = str "daemon";
  cmdline = none;
  listening = some (80 ∷ []);
}

abbrev machine : Machine ℕ
machine = record {
  process_iter = λ w. daemon_process ∷ [];
  pid_exists = λ pid w. true;
  send_signal = λ pid sig w. some 0;
  output = λ cmd w. listed w;
  execute = λ cmd w. if cmd == str "stop" then w else suc w;
}

abbrev never : ℕ
never = 0

abbrev twice : ℕ
twice = 2

daemon_started : check_start machine (str "start") (str "daemon") 1 2 0 ≡ ok 2
unfolding check_start str_eq
daemon_started = refl

check_start_example :
    IsFound machine (str "daemon") 1 twice
    × ((twice ≡ never) ⊎ (twice ≡ executed machine 2 (str "start") never))
check_start_example = check_start_lem machine (str "start") (str "daemon") 1 2 0 2 daemon_started

daemon_stopped : check_stop machine (str "stop") (str "daemon") 1 0 2 ≡ ok 0
unfolding check_stop str_eq
daemon_stopped = refl

check_stop_example : IsFound machine (str "daemon") 0 0 ⊎ IsFound machine (str "daemon") 0 0
check_stop_example = check_stop_lem machine (str "stop") (str "daemon") 1 0 2 0 daemon_stopped

-- A process that listens is never killed by its port.
port_raises : kill_process_by_port machine 80 1 ≡ err type_error
unfolding kill_process_by_port nat_eq
port_raises = refl
