-- ===== src/Process.antt =====
-- sals/process/__init__.py: finding, ending, starting and stopping processes.
pub mod Laws
use js_ng.Prelude.{
  ℕ, zero, suc, Bool, true, false, not, ◌&&◌, ◌||◌, Option, none, some, List, [], ◌∷◌, ◌++◌, ◌==◌,
  contains, nat_eq, str_eq, eqb, length, if◌then◌else◌, Str, str, ℤ, pos, negsuc,
}
use js_ng.Prelude.Result.{
  Result, ok, err, runtime_error, value_error, type_error, index_error, not_found_error, ◌>>=◌,
}
use js_ng.Text.{strip, lower, split, join, occurs_in, int_of}

-- What psutil says of a process; its cmdline and its connections may raise.
pub record Proc : Type 0 where
  pub pid : ℕ
  pub name : Str
  pub cmdline : Option (List Str)
  pub listening : Option (List ℕ)

-- What is not of this module: psutil's processes, and signals to them, which may fail; what a command
-- prints, and what it does, the sleep after it included
pub record Machine (W : Type 0) : Type 0 where
  pub process_iter : W → List Proc
  pub pid_exists : ℕ → W → Bool
  pub send_signal : ℕ → ℕ → W → Option W
  pub output : Str → W → Str
  pub execute : Str → W → W

-- Whether a line is none of a process: the greps and the empty lines
unfoldable pub is_noise : Str → Bool
unfolding occurs_in strip str_eq
is_noise line = occurs_in (str "grep") line || strip line == []

-- int(line.split(" ")[0])
unfoldable pub first_number : Str → Result ℤ
unfolding split strip int_of
first_number line = elim (split b' ' line) [
  | [] ↦ err index_error
  | word ∷ _ ↦ elim (int_of (strip word)) [ none ↦ err value_error | some i ↦ ok i ]
]

-- [x for x in line.split(" ") if x]
unfoldable pub nonempty : List Str → List Str
nonempty [] = []
nonempty ([] ∷ words) = nonempty words
nonempty ((c ∷ word) ∷ words) = (c ∷ word) ∷ nonempty words

-- int([x for x in line.split(" ") if x][1])
unfoldable pub second_number : Str → Result ℤ
unfolding split nonempty strip int_of
second_number line = elim (nonempty (split b' ' line)) as (λ _. Result ℤ) [
  | _ ∷ word ∷ _ ↦ elim (int_of (strip word)) [ none ↦ err value_error | some i ↦ ok i ]
  | _ ↦ err index_error
]

-- checkexclude of get_filtered_pids
unfoldable pub check_exclude : Str → List Str → Bool
unfolding lower occurs_in
check_exclude c [] = false
check_exclude c (item ∷ excludes) = occurs_in (lower item) (lower c) || check_exclude c excludes

-- The loop over the lines: what is read of those that are kept
unfoldable pub read_lines : (Str → Bool) → (Str → Result ℤ) → List Str → Result (List ℤ)
unfolding strip
read_lines keep read [] = ok []
read_lines keep read (line ∷ lines) =
    let rest = read_lines keep read lines in
    if keep line then (read (strip line) >>= λ i. rest >>= λ found. ok (i ∷ found)) else rest

module _ {W : Type 0} (machine : Machine W) where
  unfoldable pub get_pids_filtered_sorted : Str → Option Str → W → Result (List ℤ)
  unfolding read_lines is_noise first_number second_number occurs_in split
  get_pids_filtered_sorted filterstr none w =
      read_lines (λ line. not (is_noise line) && occurs_in filterstr line) first_number
        (split 10 (machine.output (str "ps ax | grep '" ++ filterstr ++ str "'") w))
  get_pids_filtered_sorted filterstr (some sortkey) w =
      read_lines (λ line. not (is_noise line) && occurs_in filterstr line) second_number
        (split 10 (
          machine.output
            (str "ps aux --sort=" ++ sortkey ++ str " | grep '" ++ filterstr ++ str "'") w))

  unfoldable pub get_filtered_pids : Str → List Str → W → Result (List ℤ)
  unfolding read_lines is_noise first_number occurs_in split check_exclude strip
  get_filtered_pids filterstr excludes w =
      read_lines
        (λ line.
          not (is_noise line)
          && occurs_in filterstr line
          && not (check_exclude (strip line) excludes))
        first_number (split 10 (machine.output (str "ps ax | grep '" ++ filterstr ++ str "'") w))

  unfoldable pub get_defunct_processes : W → Result (List ℤ)
  unfolding read_lines first_number occurs_in split strip str_eq
  get_defunct_processes w =
      read_lines (λ line. not (strip line == []) && occurs_in (str "<defunct>") line) first_number
        (split 10 (machine.output (str "ps ax") w))

  -- kill: psutil.Process(pid) raises when there is no such process.
  unfoldable pub kill : ℕ → ℕ → W → Result W
  kill pid sig w =
      if machine.pid_exists pid w
      then elim (machine.send_signal pid sig w) [ none ↦ err runtime_error | some w' ↦ ok w' ]
      else err not_found_error

  -- The loop that kills each of some processes
  unfoldable pub kill_each : List ℕ → ℕ → W → Result W
  unfolding kill
  kill_each [] sig w = ok w
  kill_each (p ∷ pids) sig w = kill p sig w >>= λ w'. kill_each pids sig w'

  -- The processes of a name
  unfoldable pub named : Str → List Proc → List ℕ
  unfolding str_eq
  named name [] = []
  named name (proc ∷ procs) =
      let rest = named name procs in if proc.name == name then proc.pid ∷ rest else rest

  unfoldable pub ps_find : Str → W → Bool
  unfolding named
  ps_find name w = elim (named name (machine.process_iter w)) [ [] ↦ false | _ ∷ _ ↦ true ]

  unfoldable pub kill_all : Str → ℕ → W → Result W
  unfolding named kill_each
  kill_all name sig w = kill_each (named name (machine.process_iter w)) sig w

  -- The loop of get_process_by_port
  unfoldable pub listener : ℕ → List Proc → Option Proc
  unfolding contains nat_eq
  listener port [] = none
  listener port (proc ∷ procs) =
      let rest = listener port procs in
      elim proc.listening [
        | none ↦ rest
        | some ports ↦ if contains ports port then some proc else rest
      ]

  unfoldable pub get_process_by_port : ℕ → W → Option Proc
  unfolding listener
  get_process_by_port port w = listener port (machine.process_iter w)

  -- get_pid_by_port: an int, or an empty list for none
  unfoldable pub get_pid_by_port : ℕ → W → Option ℕ
  unfolding get_process_by_port
  get_pid_by_port port w = elim (get_process_by_port port w) [
    | none ↦ none
    | some proc ↦ some proc.pid
  ]

  -- kill_process_by_port loops over what get_pid_by_port returns, and an int raises.
  unfoldable pub kill_process_by_port : ℕ → W → Result W
  unfolding get_pid_by_port
  kill_process_by_port port w = elim (get_pid_by_port port w) [
    | none ↦ ok w
    | some pid ↦ err type_error
  ]

  -- The loop of check_start: `return` for none, and the machine when the loop ends
  unfoldable pub start_loop : ℕ → ℕ → Str → ℕ → W → Option W
  start_loop zero found cmd nrinstances w = some w
  start_loop (suc retry) found cmd nrinstances w =
      let rest = start_loop retry found cmd nrinstances (machine.execute cmd w) in
      if eqb found nrinstances then none else rest

  -- What follows the loop of check_start
  abbrev pub started : Str → ℕ → W → Option W → Result W
  started filterstr nrinstances w none = ok w
  started filterstr nrinstances w (some w') = get_filtered_pids filterstr [] w' >>= λ found.
      if eqb (length found) nrinstances then ok w' else err runtime_error

  unfoldable pub check_start : Str → Str → ℕ → ℕ → W → Result W
  unfolding start_loop get_filtered_pids
  check_start cmd filterstr nrinstances retry w = get_filtered_pids filterstr [] w >>= λ found.
      started filterstr nrinstances w (start_loop retry (length found) cmd nrinstances w)

  -- int(item) of a process that was found; psutil refuses one that is negative.
  unfoldable pub kill_found : List ℤ → ℕ → W → Result W
  unfolding kill
  kill_found [] sig w = ok w
  kill_found (pos p ∷ found) sig w = kill p sig w >>= λ w'. kill_found found sig w'
  kill_found (negsuc p ∷ found) sig w = err value_error

  -- One turn of check_stop: what is found at its end
  unfoldable pub stop_turn : Str → Str → W → Result (List ℤ × W)
  unfolding kill_found get_filtered_pids
  stop_turn cmd filterstr w = get_filtered_pids filterstr [] (machine.execute cmd w) >>= λ pids.
      kill_found pids 9 (machine.execute cmd w) >>= λ w'.
      get_filtered_pids filterstr [] w' >>= λ found. ok (found, w')

  -- The loop of check_stop: the number found at last if it ends, and none for its `return`
  unfoldable pub stop_loop : ℕ → ℕ → Str → Str → ℕ → W → Result (Option ℕ × W)
  unfolding stop_turn
  stop_loop zero found cmd filterstr nrinstances w = ok (some found, w)
  stop_loop (suc retry) found cmd filterstr nrinstances w =
      if eqb found nrinstances
      then ok (none, w)
      else (stop_turn cmd filterstr w >>= λ (left, w').
          stop_loop retry (length left) cmd filterstr nrinstances w')

  -- What follows the loop of check_stop
  abbrev pub stopped : Option ℕ × W → Result W
  stopped (none, w) = ok w
  stopped (some n, w) = if eqb n 0 then ok w else err runtime_error

  unfoldable pub check_stop : Str → Str → ℕ → ℕ → W → Result W
  unfolding stop_loop get_filtered_pids
  check_stop cmd filterstr retry nrinstances w = get_filtered_pids filterstr [] w >>= λ found.
      stop_loop retry (length found) cmd filterstr nrinstances w >>= stopped
