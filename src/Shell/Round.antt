-- ===== src/Shell/Round.antt =====
-- A round of the shell, from the line to the command.
use os_implement.Prelude.{
  ℕ, ◌+◌, ◌≤◌, ◌≡◌, ◌≢◌, refl, ap, ◌∙◌, true, none, some, List, [], ◌∷◌, ◌++◌, drop, length, map,
  arith, ==_ne, ◌>>=◌,
}
use os_implement.Task.{Regs}
use os_implement.Fs.Node.{Initrd, root}
use os_implement.Fs.Initrd.{initrd_open, initrd_close}
use os_implement.Fs.Vfs.{open_fs, close_fs}
use os_implement.Shell.{
  tip, newline, file_test_tip, typed, Machine, print, returned, minus_one, has_option, name_of,
  file_test, test_process, round_end, shell_round,
}
use os_implement.Shell.Line.{letters, NoNewline, scanf-letters}
use os_implement.Shell.Name.{zeros, left_of}

-- The first five characters of a command on files, with its letter.
abbrev pub command : ℕ → List ℕ → List ℕ
command c t = 102 ∷ 32 ∷ 45 ∷ c ∷ 32 ∷ t

pub close_fs_root :
    (s : Initrd) (name : List ℕ)
    → s.initrd_root.close ≡ true
    → close_fs s root name ≡ initrd_close s name
unfolding close_fs
close_fs_root s name e = rw e

pub open_fs_root :
    (s : Initrd) (name : List ℕ)
    → s.initrd_root.open_method ≡ true
    → open_fs s root name ≡ (initrd_open s name >>= λ (opened, s'). some (some opened, s'))
unfolding open_fs
open_fs_root s name e = rw e

module _ (f : List ℕ) (m : Machine) where
  pub file_test_close :
      (t : List ℕ) (s : Initrd)
      → close_fs m.fs m.fs_root (name_of f (command 100 t)) ≡ some s
      → file_test f (command 100 t) m ≡ some (returned 1, record m { fs = s })
  unfolding file_test has_option
  file_test_close t s e = rw e

  pub file_test_open :
      (t : List ℕ)
      → open_fs m.fs m.fs_root (name_of f (command 110 t)) ≡ none
      → file_test f (command 110 t) m ≡ none
  unfolding file_test has_option
  file_test_open t e = rw e

-- The machine after a line was read.
abbrev pub with_line : List ℕ → Machine → Machine
with_line text m = record m { events = m.events ++ tip ∷ map typed text ++ newline ∷ [] }

module _ (dir addr : ℕ) (r : Regs) (f : List ℕ) where
  pub test_process_file :
      (c : ℕ) (t : List ℕ) (m : Machine)
      → test_process dir addr r f (command c t) m
        ≡ file_test f (command c t) (print file_test_tip m)
  unfolding test_process
  test_process_file c t m = refl

  pub refused :
      (c : ℕ) (v : List ℕ) (m : Machine)
      → c ≢ 112
      → c ≢ 102
      → c ≢ 116
      → test_process dir addr r f (c ∷ v) m ≡ some (returned minus_one, m)
  unfolding test_process
  refused c v m p q s = rw (==_ne c 112 p, ==_ne c 102 q, ==_ne c 116 s)

  pub round_of_line :
      (unspecified : ℕ) (cs rest v : List ℕ) (m : Machine)
      → NoNewline cs
      → length (letters cs) ≤ length v
      → (error : ℕ) (m' : Machine)
      → test_process dir addr r f
          (letters cs ++ drop (length (letters cs)) v)
          (with_line (letters cs) m)
        ≡ some (returned error, m')
      → shell_round dir addr r f unspecified (cs ++ 10 ∷ rest) v m
        ≡ some (
          returned error,
          (round_end error (letters cs ++ drop (length (letters cs)) v) m').0,
          rest,
          (round_end error (letters cs ++ drop (length (letters cs)) v) m').1,
        )
  unfolding shell_round
  round_of_line unspecified cs rest v m ok room error m' e = rw (scanf-letters cs rest v ok room, e)

  pub round_fault :
      (unspecified : ℕ) (cs rest v : List ℕ) (m : Machine)
      → NoNewline cs
      → length (letters cs) ≤ length v
      → test_process dir addr r f
          (letters cs ++ drop (length (letters cs)) v)
          (with_line (letters cs) m)
        ≡ none
      → shell_round dir addr r f unspecified (cs ++ 10 ∷ rest) v m ≡ none
  unfolding shell_round
  round_fault unspecified cs rest v m ok room e = rw (scanf-letters cs rest v ok room, e)

  pub array_of_line :
      (c : ℕ) (cs t : List ℕ)
      → letters cs ≡ command c t
      → letters cs ++ drop (length (letters cs)) (zeros 256)
        ≡ command c (t ++ left_of (5 + length t) 256)
  array_of_line c cs t e =
      let n : length (command c t) ≡ 5 + length t = omega arith in
      ap (λ x. x ++ drop (length x) (zeros 256)) e ∙ ap (λ k. command c (t ++ drop k (zeros 256))) n
