-- ===== src/Fs/Dir.antt =====
-- The directory: which file a name finds, and what listing the directory returns.
use os_implement.Prelude.{
  ℕ, zero, suc, ◌+◌, ◌≤◌, ◌<◌, ◌≡◌, ◌≢◌, inl, inr, refl, sym, ap, ◌∙◌, none, some, List, ltb,
  ltb→lt, get_elem?, arith, Bool-cases,
}
use os_implement.Text.{strcmp, equal, differ}
use os_implement.Text.Laws.{nul_terminated, IsText, strcmp-equal, strcmp-differ}
use os_implement.Fs.Node.{FsNode}
use os_implement.Fs.Initrd.{find_name}

-- The node's name field holds the text t.
pub record IsNamed (n : FsNode) (t : List ℕ) : Type 0 where
  pub rest : List ℕ
  pub field : n.name ≡ nul_terminated t rest
  pub letters : IsText t

-- The step of the search at one node.
find_name_hit :
    (n i : ℕ) (nodes : List FsNode) (name : List ℕ) (m : FsNode)
    → get_elem? nodes i ≡ some m
    → strcmp name m.name ≡ some equal
    → find_name (suc n) i nodes name ≡ some (some i)
unfolding find_name
find_name_hit n i nodes name m p e = ground (arith, p, e)

find_name_miss :
    (n i : ℕ) (nodes : List FsNode) (name : List ℕ) (m : FsNode) (a b : ℕ)
    → get_elem? nodes i ≡ some m
    → strcmp name m.name ≡ some (differ a b)
    → find_name (suc n) i nodes name ≡ find_name n (i + 1) nodes name
unfolding find_name
find_name_miss n i nodes name m a b p e = ground (arith, p, e)

-- The node at a place has a text other than the one that is looked for.
abbrev pub Differs : List FsNode → List ℕ → ℕ → Type 0
Differs nodes t j =
    (m : FsNode) × (u : List ℕ) × (get_elem? nodes j ≡ some m) × IsNamed m u × (u ≢ t)

module _ (nodes : List FsNode) (t us : List ℕ) (letters : IsText t) where
  compare_miss :
      (j : ℕ)
      → Differs nodes t j
      → (m : FsNode) × (a b : ℕ) × (get_elem? nodes j ≡ some m)
        × (strcmp (nul_terminated t us) m.name ≡ some (differ a b))
  compare_miss j (m, u, p, named, ne) =
      let (a, b, e) = strcmp-differ t u us named.rest letters named.letters (λ q. ne (sym q)) in
      (m, a, b, p, ap (strcmp (nul_terminated t us)) named.field ∙ e)

  -- The search returns the first place that has the name.
  pub find_name-first :
      (n i k : ℕ) (m : FsNode)
      → i ≤ k
      → k < i + n
      → get_elem? nodes k ≡ some m
      → IsNamed m t
      → ((j : ℕ) → i ≤ j → j < k → Differs nodes t j)
      → find_name n i nodes (nul_terminated t us) ≡ some (some k)
  find_name-first zero i k m h l p named before = absurd (omega arith)
  find_name-first (suc n) i k m h l p named before = elim (Bool-cases (ltb i k)) [
    | inl lt ↦
        let (m', a, b, p', e) = compare_miss i (before i (omega arith) (ltb→lt i k lt)) in
        find_name_miss n i nodes (nul_terminated t us) m' a b p' e
        ∙ find_name-first n (i + 1) k m (omega (arith, ltb→lt i k lt)) (omega arith) p named
            (λ j q r. before j (omega arith) r)
    | inr ge ↦
        let at : i ≡ k = ground arith in
        find_name_hit n i nodes (nul_terminated t us) m (ap (get_elem? nodes) at ∙ p) (
          ap (strcmp (nul_terminated t us)) named.field
          ∙ (strcmp-equal t t us named.rest letters named.letters).1 refl)
        ∙ ap (λ x. some (some x)) at
  ]

  pub find_name-none :
      (n i : ℕ)
      → ((j : ℕ) → i ≤ j → j < i + n → Differs nodes t j)
      → find_name n i nodes (nul_terminated t us) ≡ some none
  find_name-none zero i other = unfold find_name in refl
  find_name-none (suc n) i other =
      let (m', a, b, p', e) = compare_miss i (other i (omega arith) (omega arith)) in
      find_name_miss n i nodes (nul_terminated t us) m' a b p' e
      ∙ find_name-none n (i + 1) (λ j q r. other j (omega arith) (omega arith))
