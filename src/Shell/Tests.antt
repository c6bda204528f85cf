-- ===== src/Shell/Tests.antt =====
-- Commands on a ramdisk with the files ab and b.
use os_implement.Prelude.{
  ℕ, ◌+◌, ◌<◌, ◌≡◌, refl, Bool, true, not, ◌&&◌, ◌==◌, none, some, List, [], ◌∷◌, ◌++◌, ltb,
  if◌then◌else◌, get_elem?, replicate, codes, arith,
}
use os_implement.Task.{Regs}
use os_implement.Fs.Node.{root}
use os_implement.Fs.Tests.{node_a, disk, node_a-IsNamed, disk-IsCounted}
use os_implement.Shell.{
  tip, newline, page_test_tip, thread_test_tip, unknown_command, print_pages_status, print_task,
  typed, Machine, print, returned, no_value, minus_one, scanf, scanf_read, test_process, page_test,
  thread_test, has_option, round_end, shell_round, init_shell, shell_loop,
}
use os_implement.Shell.Line.{NoNewline, scanf-letters}
use os_implement.Shell.Round.{with_line}
use os_implement.Shell.Commands.{close_command, open_command, unknown_command-kept}

abbrev no_regs : Regs
no_regs = record { esp = 0; ebp = 0; eip = 0 }

abbrev machine : Machine
machine = record {
  fs = disk;
  fs_root = root;
  tasks = record { list = []; cur_task = 0; next_pid = 1; cur_vm_page_dir = 0 };
  events = [];
}

-- After the line `x -a`, which is unknown, the key p alone runs `p -a`.
stale_run :
    init_shell 0 0 no_regs [] (0 ∷ 0 ∷ []) (codes "x -a" ++ 10 ∷ 112 ∷ 10 ∷ []) machine
    ≡ some (
      replicate 256 0,
      [],
      record machine {
        events =
            newline
            ∷ tip
            ∷ typed 120
            ∷ typed 32
            ∷ typed 45
            ∷ typed 97
            ∷ newline
            ∷ unknown_command
            ∷ tip
            ∷ typed 112
            ∷ newline
            ∷ page_test_tip
            ∷ print_pages_status
            ∷ [];
      },
    )
unfolding init_shell shell_loop shell_round scanf scanf_read test_process page_test has_option
    round_end
stale_run = refl

-- The value of a command on tasks is not returned.
no_value_run :
    test_process 0 0 no_regs [] (codes "t -a" ++ replicate 252 0) machine
    ≡ some (no_value, record machine { events = thread_test_tip ∷ print_task ∷ [] })
unfolding test_process thread_test has_option
no_value_run = refl

abbrev no_newline : List ℕ → Bool
no_newline [] = true
no_newline (c ∷ cs) = not (c == 10) && no_newline cs

NoNewline_lem : (cs : List ℕ) → no_newline cs ≡ true → NoNewline cs
NoNewline_lem [] h = tt
NoNewline_lem (c ∷ cs) h = (λ e. ground (arith, e, h), NoNewline_lem cs (ground (arith, h)))

scanf_example :
    scanf (0 ∷ 0 ∷ 7 ∷ []) ((0 ∷ 97 ∷ 0 ∷ 98 ∷ []) ++ 10 ∷ 99 ∷ [])
    ≡ some (97 ∷ 98 ∷ [], 97 ∷ 98 ∷ 7 ∷ [], 99 ∷ [])
scanf_example =
    scanf-letters (0 ∷ 97 ∷ 0 ∷ 98 ∷ []) (99 ∷ []) (0 ∷ 0 ∷ 7 ∷ [])
      (NoNewline_lem (0 ∷ 97 ∷ 0 ∷ 98 ∷ []) refl) (omega arith)

close_line_NoNewline : NoNewline (codes "f -d ab")
close_line_NoNewline = NoNewline_lem (codes "f -d ab") refl

close_command_example :
    (m' : Machine) × (shell_round 0 0 no_regs [] 0
        (codes "f -d ab" ++ 10 ∷ [])
        (replicate 256 0)
        machine
      ≡ some (returned 1, replicate 256 0, [], m'))
    × (m'.tasks ≡ machine.tasks)
    × (m'.fs.nroot_nodes + 1 ≡ 2)
    × ((j : ℕ)
        → j < m'.fs.nroot_nodes
        → get_elem? m'.fs.root_nodes j ≡ get_elem? disk.root_nodes (if ltb j 0 then j else j + 1))
close_command_example =
    close_command 0 0 no_regs [] 0 (codes "f -d ab") (codes "ab") [] machine 0 node_a
      close_line_NoNewline refl (omega arith) refl refl disk-IsCounted (omega arith) refl
      node_a-IsNamed (λ j h. absurd (omega arith))

open_line_NoNewline : NoNewline (codes "f -n c")
open_line_NoNewline = NoNewline_lem (codes "f -n c") refl

open_command_example :
    shell_round 0 0 no_regs [] 0 (codes "f -n c" ++ 10 ∷ []) (replicate 256 0) machine ≡ none
open_command_example =
    open_command 0 0 no_regs [] 0 (codes "f -n c") (codes "c") [] machine open_line_NoNewline refl
      (omega arith) refl refl disk-IsCounted

unknown_line_NoNewline : NoNewline (codes "x")
unknown_line_NoNewline = NoNewline_lem (codes "x") refl

unknown_command_example :
    shell_round 0 0 no_regs [] 0 (codes "x" ++ 10 ∷ []) (1 ∷ 2 ∷ []) machine
    ≡ some (
      returned minus_one,
      120 ∷ 2 ∷ [],
      [],
      print unknown_command (with_line (codes "x") machine),
    )
unknown_command_example =
    unknown_command-kept 0 0 no_regs [] 0 120 (codes "x") [] [] (1 ∷ 2 ∷ []) machine
      unknown_line_NoNewline refl (λ e. absurd (omega arith)) (λ e. absurd (omega arith))
      (λ e. absurd (omega arith)) (omega arith)
