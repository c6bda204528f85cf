-- ===== src/Fs/Close.antt =====
-- `initrd_close`, and `initrd_open` after start-up.
use os_implement.Prelude.{
  ℕ, zero, suc, ◌+◌, ◌-◌, ◌%◌, ◌^◌, ◌<◌, ◌≡◌, ◌≢◌, inl, inr, refl, sym, ap, ◌∙◌, ◌&&◌, Option, none,
  some, List, ◌==◌, ltb, leb, if◌then◌else◌, get_elem?, set, length, length-set, get_elem?_lt,
  get_elem?_ge, get_elem?-set_self, get_elem?-set_ne, arith, Bool-cases,
}
use os_implement.Text.Laws.{nul_terminated, IsText}
use os_implement.Fs.Node.{FsNode, Initrd}
use os_implement.Fs.Initrd.{rounds_of, find_name, shift_down, initrd_close, initrd_open}
use os_implement.Fs.Dir.{IsNamed, Differs, find_name-first, find_name-none}

-- The place that moves to place j when the k nodes behind place i move down by one.
abbrev moved : ℕ → ℕ → ℕ → ℕ
moved i k j = if leb i j && ltb j (i + k) then j + 1 else j

set-moved :
    (nodes : List FsNode) (m : FsNode) (i n j : ℕ)
    → i + suc n < length nodes
    → get_elem? nodes (i + 1) ≡ some m
    → get_elem? (set nodes i m) (moved (i + 1) n j) ≡ get_elem? nodes (moved i (suc n) j)
set-moved nodes m i n j h p = elim (Bool-cases (j == i)) [
  | inl e ↦
      let same : moved (i + 1) n j ≡ i = ground arith in
      let next : moved i (suc n) j ≡ i + 1 = ground arith in
      ap (get_elem? (set nodes i m)) same
      ∙ get_elem?-set_self nodes i m (omega arith)
      ∙ sym (ap (get_elem? nodes) next ∙ p)
  | inr d ↦
      let other : i ≢ moved (i + 1) n j = ground arith in
      get_elem?-set_ne nodes i (moved (i + 1) n j) m other ∙ ap (get_elem? nodes) (ground arith)
]

shift_step :
    (n i : ℕ) (nodes : List FsNode) (m : FsNode)
    → get_elem? nodes (i + 1) ≡ some m
    → shift_down (suc n) i nodes ≡ shift_down n (i + 1) (set nodes i m)
unfolding shift_down
shift_step n i nodes m p = ground (arith, p)

-- The second loop of `initrd_close` stays inside the array and moves the nodes behind i down by one.
shift_down-places :
    (n i : ℕ) (nodes : List FsNode)
    → i + n < length nodes
    → (out : List FsNode) × (shift_down n i nodes ≡ some out)
      × (length out ≡ length nodes)
      × ((j : ℕ) → get_elem? out j ≡ get_elem? nodes (moved i n j))
shift_down-places zero i nodes h =
    (nodes, unfold shift_down in refl, refl, λ j. ap (get_elem? nodes) (ground arith))
shift_down-places (suc n) i nodes h =
    let (m, p) = get_elem?_lt nodes (i + 1) (omega arith) in
    let (out, e, size, places) =
      shift_down-places n (i + 1) (set nodes i m) (omega (arith, length-set nodes i m)) in
    (
      out,
      shift_step n i nodes m p ∙ e,
      size ∙ length-set nodes i m,
      λ j. places j ∙ set-moved nodes m i n j h p,
    )

-- The ramdisk has as many nodes as files, and they are all allocated.
pub record IsCounted (s : Initrd) : Type 0 where
  pub files : s.nfiles ≡ s.nroot_nodes
  pub allocated : s.nroot_nodes ≡ length s.root_nodes
  pub few : s.nroot_nodes < 2 ^ 31

close_step :
    (s : Initrd) (name : List ℕ) (found : Option ℕ) (i n : ℕ) (out : List FsNode)
    → s.nroot_nodes < 2 ^ 31
    → find_name s.nroot_nodes 0 s.root_nodes name ≡ some found
    → (elim found [ none ↦ s.nroot_nodes | some j ↦ j ]) ≡ i
    → s.nroot_nodes - (i + 1) ≡ n
    → shift_down n i s.root_nodes ≡ some out
    → let files = (s.nfiles + 2 ^ 32 - 1) % 2 ^ 32 in
      initrd_close s name
      ≡ some (record s { root_nodes = out; nfiles = files; nroot_nodes = files })
unfolding initrd_close
close_step s name found i n out few p q r e =
    let all : rounds_of s.nroot_nodes ≡ s.nroot_nodes = ground arith in
    rw (initrd_close, all) (ground (arith, p, q, r, e))

-- Where as many nodes are allocated as there are files: closing a name that the directory has takes the first file of that name off it: there is one file
-- less, the files before it keep their places, and those behind it move up by one.
pub initrd_close_found :
    (s : Initrd) (t us : List ℕ) (k : ℕ) (m : FsNode)
    → IsCounted s
    → IsText t
    → k < s.nroot_nodes
    → get_elem? s.root_nodes k ≡ some m
    → IsNamed m t
    → ((j : ℕ) → j < k → Differs s.root_nodes t j)
    → (s' : Initrd) × (initrd_close s (nul_terminated t us) ≡ some s')
      × (s'.nroot_nodes + 1 ≡ s.nroot_nodes)
      × (s'.nfiles ≡ s'.nroot_nodes)
      × ((j : ℕ)
          → j < s'.nroot_nodes
          → get_elem? s'.root_nodes j ≡ get_elem? s.root_nodes (if ltb j k then j else j + 1))
initrd_close_found s t us k m ok letters inside here named before =
    let (out, e, size, places) =
      shift_down-places (s.nroot_nodes - (k + 1)) k s.root_nodes (omega (arith, ok.allocated)) in
    let files = (s.nfiles + 2 ^ 32 - 1) % 2 ^ 32 in
    (
      record s { root_nodes = out; nfiles = files; nroot_nodes = files },
      close_step s (nul_terminated t us) (some k) k (s.nroot_nodes - (k + 1)) out ok.few
          (find_name-first s.root_nodes t us letters s.nroot_nodes 0 k m (omega arith) (omega arith)
            here named (λ j h l. before j l))
          refl refl e,
      omega (arith, ok.files, ok.few),
      refl,
      λ j h. places j ∙ ap (get_elem? s.root_nodes) (ground (arith, ok.files, ok.few)),
    )

-- Where as many nodes are allocated as there are files, and there is one: closing a name that no
-- file has takes the last file off the directory.
pub initrd_close_missing :
    (s : Initrd) (t us : List ℕ)
    → IsCounted s
    → IsText t
    → 0 < s.nroot_nodes
    → ((j : ℕ) → j < s.nroot_nodes → Differs s.root_nodes t j)
    → (s' : Initrd) × (initrd_close s (nul_terminated t us) ≡ some s')
      × (s'.nroot_nodes + 1 ≡ s.nroot_nodes)
      × (s'.root_nodes ≡ s.root_nodes)
initrd_close_missing s t us ok letters some_file other =
    let files = (s.nfiles + 2 ^ 32 - 1) % 2 ^ 32 in
    (
      record s { nfiles = files; nroot_nodes = files },
      close_step s (nul_terminated t us) none s.nroot_nodes 0 s.root_nodes ok.few
          (find_name-none s.root_nodes t us letters s.nroot_nodes 0
            (λ j h l. other j (omega arith)))
          refl (omega arith) (unfold shift_down in refl),
      omega (arith, ok.files, ok.few),
      refl,
    )

-- As long as the array of nodes has no room behind the last file, `initrd_open` writes the new node
-- outside of the array.
pub initrd_open_outside : (s : Initrd) (name : List ℕ) → IsCounted s → initrd_open s name ≡ none
unfolding initrd_open
initrd_open_outside s name ok =
    let e : ((s.nfiles + 1) % 2 ^ 32 + 2 ^ 32 - 1) % 2 ^ 32 ≡ s.nroot_nodes =
      omega (arith, ok.files, ok.few) in
    let p : get_elem? s.root_nodes (((s.nfiles + 1) % 2 ^ 32 + 2 ^ 32 - 1) % 2 ^ 32) ≡ none =
      get_elem?_ge s.root_nodes _ (omega (arith, ok.allocated)) in
    ground (arith, p)
