-- ===== src/Shell/Commands.antt =====
-- Lines that are typed at the prompt, from the keys to the ramdisk.
use os_implement.Prelude.{
  ℕ, ◌+◌, ◌≤◌, ◌<◌, ◌≡◌, ◌≢◌, refl, ap, ◌∙◌, true, none, some, List, ◌∷◌, ◌++◌, ltb, if◌then◌else◌,
  get_elem?, drop, length, length-replicate, replicate, arith, ◌>>=◌,
}
use os_implement.Task.{Regs}
use os_implement.Text.Laws.{nul_terminated}
use os_implement.Fs.Node.{FsNode, root}
use os_implement.Fs.Vfs.{open_fs, close_fs}
use os_implement.Fs.Dir.{IsNamed, Differs}
use os_implement.Fs.Close.{IsCounted, initrd_close_found, initrd_open_outside}
use os_implement.Shell.{
  file_test_tip, unknown_command, Machine, print, returned, minus_one, name_of, test_process,
  round_end, shell_round,
}
use os_implement.Shell.Line.{letters, NoNewline}
use os_implement.Shell.Name.{zeros, left_of, name_of_line}
use os_implement.Shell.Round.{
  command, close_fs_root, open_fs_root, file_test_close, file_test_open, with_line,
  test_process_file, round_of_line, round_fault, refused, array_of_line,
}

module _ (dir addr : ℕ) (r : Regs) (f : List ℕ) where
  -- The line `f -d ` and a name, typed into an array of zeros: with as many nodes allocated as there
  -- are files, a root that can be closed, and a name of at most 249 characters that the directory has,
  -- the first file of that name leaves the directory: the files before it keep their places, those
  -- behind it move up by one. The array is zeros again, and the processes are as they were.
  pub close_command :
      (unspecified : ℕ) (cs t rest : List ℕ) (m : Machine) (k : ℕ) (node : FsNode)
      → NoNewline cs
      → letters cs ≡ command 100 t
      → length t ≤ 249
      → m.fs_root ≡ root
      → m.fs.initrd_root.close ≡ true
      → IsCounted m.fs
      → k < m.fs.nroot_nodes
      → get_elem? m.fs.root_nodes k ≡ some node
      → IsNamed node t
      → ((j : ℕ) → j < k → Differs m.fs.root_nodes t j)
      → (m' : Machine) × (shell_round dir addr r f unspecified (cs ++ 10 ∷ rest) (replicate 256 0) m
          ≡ some (returned 1, replicate 256 0, rest, m'))
        × (m'.tasks ≡ m.tasks)
        × (m'.fs.nroot_nodes + 1 ≡ m.fs.nroot_nodes)
        × ((j : ℕ)
            → j < m'.fs.nroot_nodes
            → get_elem? m'.fs.root_nodes j
              ≡ get_elem? m.fs.root_nodes (if ltb j k then j else j + 1))
  close_command unspecified cs t rest m k node ok e short at_root closes counted inside here named
        before =
      let (us, name) = name_of_line t f 102 32 45 100 32 short in
      let (fs, closed, files, _, places) =
        initrd_close_found m.fs t us k node counted named.letters inside here named before in
      let m1 = print file_test_tip (with_line (letters cs) m) in
      let v = command 100 (t ++ left_of (5 + length t) 256) in
      let call : close_fs m.fs m.fs_root (name_of f v) ≡ some fs =
        ap (close_fs m.fs m.fs_root) name
        ∙ ap (λ n. close_fs m.fs n (nul_terminated t us)) at_root
        ∙ close_fs_root m.fs (nul_terminated t us) closes
        ∙ closed in
      let room : length (letters cs) ≤ length (zeros 256) =
        omega (arith, ap (length {A = ℕ}) e, length-replicate {A = ℕ} 256 0) in
      (
        record m1 { fs = fs },
        round_of_line dir addr r f unspecified cs rest (zeros 256) m ok room 1
              (record m1 { fs = fs })
              (ap (λ x. test_process dir addr r f x (with_line (letters cs) m))
                  (array_of_line dir addr r f 100 cs t e)
                ∙ test_process_file dir addr r f 100 (t ++ left_of (5 + length t) 256)
                    (with_line (letters cs) m)
                ∙ file_test_close f m1 (t ++ left_of (5 + length t) 256) fs call)
            ∙ (unfold round_end in refl),
        refl,
        files,
        places,
      )

  -- The line `f -n ` and a name: with as many nodes allocated as there are files, and a root that can
  -- be opened, and a name of at most 249 characters, the command writes outside of the array of nodes, whatever the name.
  pub open_command :
      (unspecified : ℕ) (cs t rest : List ℕ) (m : Machine)
      → NoNewline cs
      → letters cs ≡ command 110 t
      → length t ≤ 249
      → m.fs_root ≡ root
      → m.fs.initrd_root.open_method ≡ true
      → IsCounted m.fs
      → shell_round dir addr r f unspecified (cs ++ 10 ∷ rest) (replicate 256 0) m ≡ none
  open_command unspecified cs t rest m ok e short at_root opens counted =
      let m1 = print file_test_tip (with_line (letters cs) m) in
      let name = name_of f (command 110 (t ++ left_of (5 + length t) 256)) in
      let call : open_fs m.fs m.fs_root name ≡ none =
        ap (λ n. open_fs m.fs n name) at_root
        ∙ open_fs_root m.fs name opens
        ∙ ap (λ o. o >>= λ (opened, s'). some (some opened, s'))
            (initrd_open_outside m.fs name counted) in
      let room : length (letters cs) ≤ length (zeros 256) =
        omega (arith, ap (length {A = ℕ}) e, length-replicate {A = ℕ} 256 0) in
      round_fault dir addr r f unspecified cs rest (zeros 256) m ok room (
        ap (λ x. test_process dir addr r f x (with_line (letters cs) m))
          (array_of_line dir addr r f 110 cs t e)
        ∙ test_process_file dir addr r f 110 (t ++ left_of (5 + length t) 256)
            (with_line (letters cs) m)
        ∙ file_test_open f m1 (t ++ left_of (5 + length t) 256) call)

  -- A line that starts with neither p, f nor t, with room for it in any array: the shell says that it
  -- does not know the command, the ramdisk and the processes are as they were, and the line stays in
  -- the array, in front of what was there: what is typed next is written over it.
  pub unknown_command-kept :
      (unspecified c : ℕ) (cs t rest v : List ℕ) (m : Machine)
      → NoNewline cs
      → letters cs ≡ c ∷ t
      → c ≢ 112
      → c ≢ 102
      → c ≢ 116
      → length (c ∷ t) ≤ length v
      → shell_round dir addr r f unspecified (cs ++ 10 ∷ rest) v m
        ≡ some (
          returned minus_one,
          c ∷ t ++ drop (length (c ∷ t)) v,
          rest,
          print unknown_command (with_line (c ∷ t) m),
        )
  unknown_command-kept unspecified c cs t rest v m ok e p q s room =
      round_of_line dir addr r f unspecified cs rest v m ok
        (omega (arith, ap (length {A = ℕ}) e, room)) minus_one (with_line (letters cs) m)
        (ap (λ x. test_process dir addr r f (x ++ drop (length x) v) (with_line (letters cs) m)) e
          ∙ refused dir addr r f c (t ++ drop (length (c ∷ t)) v) (with_line (letters cs) m) p q s)
      ∙ (unfold round_end in
          ap
            (λ x. some (
              returned minus_one,
              x ++ drop (length x) v,
              rest,
              print unknown_command (with_line x m),
            ))
            e)
