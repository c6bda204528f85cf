-- ===== src/Fs/Tests.antt =====
-- A ramdisk of two files.
use os_implement.Prelude.{
  ℕ, zero, suc, ◌==◌, if◌then◌else◌, ◌+◌, ◌-◌, ◌<◌, ◌≡◌, ◌≢◌, refl, ap, some, List, [], ◌∷◌, arith,
  length, take, drop, codes, replicate, length-replicate, length-replicate, get_elem?, get_or,
  eq_of_some, true, false,
}
use os_implement.Text.{text}
use os_implement.Text.Laws.{nul_terminated, IsText}
use os_implement.Fs.Node.{FsNode, Dirent, FileHeader, NodeRef, root, Initrd, fs_file}
use os_implement.Fs.Initrd.{
  file_node, directory_node, initrd_read, initrd_close, initialise_initrd, headers_at, headers_in,
  file_header_at, load_bytes,
}
use os_implement.Heap.Bytes.{load8, load32}
use os_implement.Fs.Mount.{AreNamed, named, none_left, IsRamdisk, initialise_initrd-IsRamdisk}
use os_implement.Fs.Read.{contents, initrd_read_wraps}
use os_implement.Fs.Dir.{IsNamed, Differs}
use os_implement.Fs.Listing.{IsDirectory}
use os_implement.Fs.Vfs.{read_fs, readdir_fs, finddir_fs, IsMounted, read_by_name}
use os_implement.Fs.Close.{IsCounted, initrd_close_missing}

abbrev header_a : FileHeader
header_a = record { magic = 0xbf; name = nul_terminated (codes "ab") []; offset = 1000; length = 5 }

abbrev header_b : FileHeader
header_b = record { magic = 0xbf; name = nul_terminated (codes "b") []; offset = 1005; length = 9 }

abbrev pub node_a : FsNode
node_a = file_node (nul_terminated (codes "ab") (7 ∷ [])) 0 5

abbrev node_b : FsNode
node_b = file_node (nul_terminated (codes "b") []) 1 9

abbrev pub disk : Initrd
disk = record {
  nfiles = 2;
  file_headers = header_a ∷ header_b ∷ [];
  initrd_root = directory_node (nul_terminated (codes "initrd") []);
  initrd_dev = directory_node (nul_terminated (codes "dev") []);
  root_nodes = node_a ∷ node_b ∷ [];
  nroot_nodes = 2;
  dirent = record { name = replicate 128 0; ino = 0 };
  memory = λ i. i;
}

ab_IsText : IsText (codes "ab")
ab_IsText = (λ z. absurd (omega arith), (λ z. absurd (omega arith), tt))

b_IsText : IsText (codes "b")
b_IsText = (λ z. absurd (omega arith), tt)

pub node_a-IsNamed : IsNamed node_a (codes "ab")
node_a-IsNamed = record { rest = 7 ∷ []; field = refl; letters = ab_IsText }

node_b-IsNamed : IsNamed node_b (codes "b")
node_b-IsNamed = record { rest = []; field = refl; letters = b_IsText }

initrd_read_wraps_example :
    (bytes : List ℕ) × (initrd_read disk 0 2 0xffff_fffe ≡ some bytes)
    × (length bytes ≡ 0xffff_fffe)
    × (5 - 2 < length bytes)
initrd_read_wraps_example =
    initrd_read_wraps disk 0 2 0xffff_fffe header_a refl (omega arith) (omega arith) (omega arith)
      (omega arith)

abbrev names : List (List ℕ)
names = codes "ab" ∷ codes "b" ∷ []

disk-IsDirectory : IsDirectory disk names
disk-IsDirectory = record {
  count = refl;
  few = omega arith;
  buffer = length-replicate {A = ℕ} 128 0;
  named = λ i t p. named i t p;
  letters = λ i t p. letters i t p;
  distinct = λ i j t p q. distinct i j t p q;
  no_dev = λ i p. no_dev i p;
}
  where
    named :
        (i : ℕ) (t : List ℕ)
        → get_elem? names i ≡ some t
        → (m : FsNode) × (get_elem? disk.root_nodes i ≡ some m) × IsNamed m t
    named zero t p =
        let e : codes "ab" ≡ t = eq_of_some p in rw (← e) (node_a, refl, node_a-IsNamed)
    named (suc zero) t p =
        let e : codes "b" ≡ t = eq_of_some p in rw (← e) (node_b, refl, node_b-IsNamed)
    named (suc (suc i)) t p = cc

    letters : (i : ℕ) (t : List ℕ) → get_elem? names i ≡ some t → (t ≢ []) × (length t < 128)
    letters zero t p = let e : codes "ab" ≡ t = eq_of_some p in rw (← e) (λ q. cc, omega arith)
    letters (suc zero) t p = let e : codes "b" ≡ t = eq_of_some p in rw (← e) (λ q. cc, omega arith)
    letters (suc (suc i)) t p = cc

    sizes : (i : ℕ) (t : List ℕ) → get_elem? names i ≡ some t → i + length t ≡ 2
    sizes zero t p = let e : codes "ab" ≡ t = eq_of_some p in rw (← e)
    sizes (suc zero) t p = let e : codes "b" ≡ t = eq_of_some p in rw (← e)
    sizes (suc (suc i)) t p = cc

    distinct :
        (i j : ℕ) (t : List ℕ) → get_elem? names i ≡ some t → get_elem? names j ≡ some t → i ≡ j
    distinct i j t p q = omega (arith, sizes i t p, sizes j t q)

    no_dev : (i : ℕ) → get_elem? names i ≢ some (codes "dev")
    no_dev i p = omega (arith, sizes i (codes "dev") p)

pub disk-IsCounted : IsCounted disk
disk-IsCounted = record { files = refl; allocated = refl; few = omega arith }

zz_IsText : IsText (codes "zz")
zz_IsText = (λ z. absurd (omega arith), (λ z. absurd (omega arith), tt))

zz_Differs : (j : ℕ) → j < 2 → Differs disk.root_nodes (codes "zz") j
zz_Differs zero h = (
  node_a,
  codes "ab",
  refl,
  node_a-IsNamed,
  λ e. absurd (omega (arith, ap (λ l. get_or l 0 0) e)),
)
zz_Differs (suc zero) h =
    (node_b, codes "b", refl, node_b-IsNamed, λ e. absurd (omega (arith, ap length e)))
zz_Differs (suc (suc j)) h = absurd (omega arith)

initrd_close_missing_example :
    (s' : Initrd) × (initrd_close disk (nul_terminated (codes "zz") []) ≡ some s')
    × (s'.nroot_nodes + 1 ≡ 2)
    × (s'.root_nodes ≡ disk.root_nodes)
initrd_close_missing_example =
    initrd_close_missing disk (codes "zz") [] disk-IsCounted zz_IsText (omega arith) zz_Differs

-- The nodes of the disk are as they were made.
disk-IsMounted : IsMounted disk
disk-IsMounted = record {
  root_flags = refl;
  root_readdir = refl;
  root_finddir = refl;
  file_flags = λ i m p. (made i m p).0;
  file_inode = λ i m p. (made i m p).1;
  file_read = λ i m p. (made i m p).2;
  file_write = λ i m p. (made i m p).3;
}
  where
    made :
        (i : ℕ) (m : FsNode)
        → get_elem? disk.root_nodes i ≡ some m
        → (m.flags ≡ fs_file) × (m.inode ≡ i) × (m.read ≡ true) × (m.write ≡ false)
    made zero m p = let e : node_a ≡ m = eq_of_some p in rw (← e) (refl, refl, refl, refl)
    made (suc zero) m p = let e : node_b ≡ m = eq_of_some p in rw (← e) (refl, refl, refl, refl)
    made (suc (suc i)) m p = cc

read_by_name_example :
    (entry : Dirent) × (node : NodeRef) × (readdir_fs disk root 1
      ≡ some (some entry, record disk { dirent = entry }))
    × (text entry.name ≡ codes "ab")
    × (finddir_fs disk root (nul_terminated (codes "ab") []) ≡ some (some node))
    × (read_fs disk node 1 3 ≡ some (take 3 (drop 1 (contents disk header_a))))
read_by_name_example =
    read_by_name disk names 0 1 3 (codes "ab") [] header_a disk-IsDirectory disk-IsMounted refl refl
      (omega arith)

-- One header at 4100, of the file "ab".
abbrev ramdisk : ℕ → ℕ
ramdisk a =
    if a == 4096
    then 1
    else if a == 4100
    then 0xbf
    else if a == 4101
    then 97
    else if a == 4102
    then 98
    else if a == 4172
    then 5
    else 0

ramdisk-AreNamed : AreNamed (headers_in ramdisk 4096) (replicate 128 0 ∷ [])
unfolding headers_at file_header_at load_bytes load32 load8
ramdisk-AreNamed =
    named
      (record {
        first = 97;
        others = codes "b";
        rest = replicate 61 0;
        name = refl;
        is_text = ab_IsText;
        room = omega (arith, length-replicate {A = ℕ} 128 0);
      })
      none_left

initialise_initrd_example :
    (s : Initrd) × (initialise_initrd 4096 ramdisk
        (replicate 128 0)
        (replicate 128 0)
        (replicate 128 0 ∷ [])
        (record { name = []; ino = 0 })
      ≡ some (root, s))
    × IsRamdisk 4096 ramdisk s
initialise_initrd_example =
    initialise_initrd-IsRamdisk 4096 ramdisk (replicate 128 0) (replicate 128 0)
      (replicate 128 0 ∷ []) (record { name = []; ino = 0 }) ramdisk-AreNamed
      (omega (arith, length-replicate {A = ℕ} 128 0))
      (omega (arith, length-replicate {A = ℕ} 128 0))
