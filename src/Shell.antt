-- ===== src/Shell.antt =====
-- The shell of src/shell.c, and `scanf` of src/keyboard.c, which reads its lines. What a command does
-- to the ramdisk and to the processes is done; what it prints is an event. `none` is a fault.
pub mod Line
pub mod Name
pub mod Round
pub mod Commands
mod Tests
use os_implement.Prelude.{
  ℕ, zero, suc, ◌+◌, ◌-◌, ◌^◌, Bool, true, false, not, ◌&&◌, ◌||◌, Option, none, some, List, [],
  ◌∷◌, ◌++◌, ◌==◌, ltb, if◌then◌else◌, get_elem?, set, take, drop, replicate, map, ◌>>=◌,
}
use os_implement.Task.{Regs, Tasks, back, jump, fork, task_exit_pid}
use os_implement.Fs.Node.{NodeRef, Initrd}
use os_implement.Fs.Vfs.{open_fs, close_fs}

-- What is printed: the texts of the shell, a character that is typed, and the calls of functions that
-- print what they find.
pub data Event : Type 0 where
  tip newline page_test_tip file_test_tip thread_test_tip unknown_command : Event
  typed : ℕ → Event
  print_pages_status print_task print_curtask print_all_file print_all_file_content : Event

pub record Machine : Type 0 where
  pub fs : Initrd
  pub fs_root : NodeRef
  pub tasks : Tasks
  pub events : List Event

abbrev pub print : Event → Machine → Machine
print e m = record m { events = m.events ++ e ∷ [] }

-- How a call ends: with a value, past its end without a value, by the jump of `task_exit_pid`, or not.
pub data Outcome : Type 0 where
  returned : ℕ → Outcome
  no_value : Outcome
  jumped : ℕ → Regs → Outcome
  forever : Outcome

-- (uint32) -1
abbrev pub minus_one : ℕ
minus_one = 0xffff_ffff

-- The second loop of `scanf`, over what the calls of `keyboard_getchar` return: what is printed, the
-- array, and the calls that are left. `none` also where no newline comes.
unfoldable pub scanf_read : ℕ → List ℕ → List ℕ → Option (List ℕ × List ℕ × List ℕ)
scanf_read i v [] = none
scanf_read i v (c ∷ chars) = elim (c == 10) [
  | true ↦ some ([], v, chars)
  | false ↦ elim (c == 0) [
    | true ↦ scanf_read i v chars
    | false ↦ elim (get_elem? v i) [
      | none ↦ none
      | some old ↦ elim (scanf_read (i + 1) (set v i c) chars) [
        | none ↦ none
        | some (echo, v', rest) ↦ some (c ∷ echo, v', rest)
      ]
    ]
  ]
]

-- `scanf`, whose first loop waits for a character.
unfoldable pub scanf : List ℕ → List ℕ → Option (List ℕ × List ℕ × List ℕ)
unfolding scanf_read
scanf v [] = none
scanf v (c ∷ chars) = elim (c == 0) [ true ↦ scanf v chars | false ↦ scanf_read 0 v (c ∷ chars) ]

-- v[1] == ' ' && v[2] == '-'
unfoldable pub has_option : List ℕ → Option Bool
has_option v = do a ← get_elem? v 1; b ← get_elem? v 2; some (a == 32 && (b == 45))

unfoldable pub page_test : List ℕ → Machine → Option (Outcome × Machine)
unfolding has_option
page_test v m = do
  ok ← has_option v
  c ← get_elem? v 3
  some (
      if ok && (c == 97) then (returned 1, print print_pages_status m) else (returned minus_one, m))

-- The new task of `create_task` does not come back from it.
unfoldable pub create_task : ℕ → ℕ → Regs → Machine → Option (Outcome × Machine)
unfolding fork
create_task dir addr r m = do
  (ret, tasks) ← fork dir addr r m.tasks
  let m' = record m { tasks = tasks }
  some (if ret == 0 then (forever, m') else (returned 1, m'))

-- `t -k`, with the digit.
unfoldable pub exit_command : ℕ → Regs → Machine → Option (Outcome × Machine)
unfolding task_exit_pid
exit_command c r m = if ltb 57 c || ltb c 50 then some (returned 1, m) else (do
  (end, tasks) ← task_exit_pid (c - 48) r m.tasks
  let m' = record m { tasks = tasks }
  some (elim end [ back ↦ (returned 1, m') | jump addr regs ↦ (jumped addr regs, m') ]))

module _ (dir addr : ℕ) (r : Regs) where
  -- With the directory and the memory for `fork`, and the registers at a switch.
  unfoldable pub thread_test : List ℕ → Machine → Option (Outcome × Machine)
  unfolding has_option create_task exit_command
  thread_test v m = do
    ok ← has_option v
    c ← get_elem? v 3
    digit ← get_elem? v 5
    if not ok
        then some (returned minus_one, m)
        else if c == 97
        then some (returned 1, print print_task m)
        else if c == 99
        then some (returned 1, print print_curtask m)
        else if c == 110
        then create_task dir addr r m
        else if c == 107
        then exit_command digit r m
        else some (returned minus_one, m)

-- f after memcpy(f, &v[5], 250), with what its memory held before.
abbrev pub name_of : List ℕ → List ℕ → List ℕ
name_of f v = take 250 (drop 5 v) ++ drop 250 f

-- With the memory of `_malloc_s` for the name.
unfoldable pub file_test : List ℕ → List ℕ → Machine → Option (Outcome × Machine)
unfolding has_option open_fs close_fs
file_test f v m = do
  ok ← has_option v
  c ← get_elem? v 3
  if not ok
      then some (returned minus_one, m)
      else if c == 110
      then (do
        (node, fs) ← open_fs m.fs m.fs_root (name_of f v)
        some (returned 1, record m { fs = fs }))
      else if c == 100
      then (do fs ← close_fs m.fs m.fs_root (name_of f v); some (returned 1, record m { fs = fs }))
      else if c == 97
      then some (returned 1, print print_all_file m)
      else if c == 99
      then some (returned 1, print print_all_file_content m)
      else some (returned minus_one, m)

-- The value of a call that goes past its end is not the one that it ends with.
abbrev pub without_value : Outcome × Machine → Outcome × Machine
without_value (returned n, m) = (no_value, m)
without_value (no_value, m) = (no_value, m)
without_value (jumped a r, m) = (jumped a r, m)
without_value (forever, m) = (forever, m)

-- The end of a round of `init_shell`, with the value of `test_process`.
unfoldable pub round_end : ℕ → List ℕ → Machine → List ℕ × Machine
round_end error v m =
    if error == minus_one then (v, print unknown_command m) else (replicate 256 0, m)

module _ (dir addr : ℕ) (r : Regs) (f : List ℕ) where
  -- The case 't' has no return.
  unfoldable pub test_process : List ℕ → Machine → Option (Outcome × Machine)
  unfolding page_test file_test thread_test
  test_process v m = do
    c ← get_elem? v 0
    if c == 112
        then page_test v (print page_test_tip m)
        else if c == 102
        then file_test f v (print file_test_tip m)
        else if c == 116
        then (do out ← thread_test dir addr r v (print thread_test_tip m); some (without_value out))
        else some (returned minus_one, m)

  -- One round of `init_shell`: how it ends, the array, the input that is left, and the machine.
  -- `unspecified` is what the caller finds where `test_process` returns no value.
  unfoldable pub shell_round :
      ℕ → List ℕ → List ℕ → Machine → Option (Outcome × List ℕ × List ℕ × Machine)
  unfolding test_process scanf round_end
  shell_round unspecified chars v m = do
    (echo, v', rest) ← scanf v chars
    let m' = record m { events = m.events ++ tip ∷ map typed echo ++ newline ∷ [] }
    (out, m'') ← test_process v' m'
    some (elim out [
      | returned error ↦ let (w, m3) = round_end error v' m'' in (returned error, w, rest, m3)
      | no_value ↦ let (w, m3) = round_end unspecified v' m'' in (no_value, w, rest, m3)
      | jumped a regs ↦ (jumped a regs, v', rest, m'')
      | forever ↦ (forever, v', rest, m'')
    ])

  -- Rounds of the loop, one for each of the values that are found where none is returned. It goes on
  -- unless a round ends in another task or not at all.
  unfoldable pub shell_loop :
      List ℕ → List ℕ → List ℕ → Machine → Option (List ℕ × List ℕ × Machine)
  unfolding shell_round
  shell_loop [] chars v m = some (v, chars, m)
  shell_loop (value ∷ values) chars v m = elim (shell_round value chars v m) [
    | none ↦ none
    | some (returned error, v', rest, m') ↦ shell_loop values rest v' m'
    | some (no_value, v', rest, m') ↦ shell_loop values rest v' m'
    | some (jumped a regs, v', rest, m') ↦ some (v', rest, m')
    | some (forever, v', rest, m') ↦ some (v', rest, m')
  ]

  unfoldable pub init_shell : List ℕ → List ℕ → Machine → Option (List ℕ × List ℕ × Machine)
  unfolding shell_loop
  init_shell values chars m = shell_loop values chars (replicate 256 0) (print newline m)
