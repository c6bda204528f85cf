-- ===== src/Task/Rounds.antt =====
-- A whole round of switches.
use os_implement.Prelude.{
  ℕ, ◌+◌, ◌%◌, ◌<◌, ◌≡◌, ◌≢◌, ◌⊎◌, inl, inr, sym, ap, ◌∙◌, false, Option, none, some, List, [], ◌∷◌,
  ◌==◌, ltb, ltb→lt, if◌then◌else◌, arith, length, get_elem?, get_elem?_lt, lt_of_get_elem?,
  ==_refl, ==_ne, Bool-cases, eq_of_some, All,
}
use mathlib.Core.Path.{subst}
use native.Mathlib.Nat.{mod-eq_of_lt}
use os_implement.Task.{Regs, Task, Tasks, End, jump, resumed, save, task_switch}
use os_implement.Task.Switch.{IsRunning, turn, switched, task_switch-turn}

-- One switch after another, each with the registers of the task that it interrupts; the end of the
-- last one.
unfoldable pub switches : End → List Regs → Tasks → Option (End × Tasks)
switches e [] s = some (e, s)
switches e (r ∷ rs) s = elim (task_switch r s) [ none ↦ none | some (e', s') ↦ switches e' rs s' ]

-- Registers of a task that was interrupted, and not of one that has just been resumed.
abbrev pub IsFresh : Regs → Type 0
IsFresh r = r.eip ≢ resumed

switches_step :
    (e e' : End) (r : Regs) (rs : List Regs) (s s' : Tasks)
    → task_switch r s ≡ some (e', s')
    → switches e (r ∷ rs) s ≡ switches e' rs s'
unfolding switches
switches_step e e' r rs s s' h = ground (arith, h)

turn_cases :
    (s : Tasks) (c : ℕ)
    → c < length s.list
    → ((turn s c ≡ c + 1) × (c + 1 < length s.list)) ⊎ ((turn s c ≡ 0) × (c + 1 ≡ length s.list))
turn_cases s c h = elim (Bool-cases (ltb (c + 1) (length s.list))) [
  | inl k ↦ inl (mod-eq_of_lt (ltb→lt _ _ k), ltb→lt _ _ k)
  | inr k ↦
      let e : c + 1 ≡ length s.list = ground arith in
      inr (ap (λ n. n % length s.list) e ∙ mod_self (length s.list) (omega arith), e)
]
  where
    mod_self : (n : ℕ) → 0 < n → n % n ≡ 0
    mod_self n h = grind arith

-- What one switch leaves for a task at another place.
record Stepped (s : Tasks) (r : Regs) (c i : ℕ) (u : Task) (e : End) (s' : Tasks) : Type 0 where
  done : task_switch r s ≡ some (e, s')
  run : IsRunning s' (turn s c)
  size : length s'.list ≡ length s.list
  here : get_elem? s'.list i ≡ some (if i == c then save r u else u)
  arrived : turn s c ≡ i → e ≡ jump u.page_dir (if i == c then r else u.regs)

step :
    (r : Regs) (s : Tasks) (c i : ℕ) (u : Task)
    → IsRunning s c
    → IsFresh r
    → get_elem? s.list i ≡ some u
    → (e : End) × (s' : Tasks) × Stepped s r c i u e s'
step r s c i u run fresh here =
    let (v, there) =
      get_elem?_lt s.list (turn s c) (omega (arith, run.inside, turn_cases s c run.inside)) in
    let (s', done, run', _, size, kept) = task_switch-turn r s c v run fresh there in
    (
      jump (switched r s c v).page_dir (switched r s c v).regs,
      s',
      record {
        done = done;
        run = run';
        size = size;
        here = kept i u here;
        arrived = λ a.
            let same : v ≡ u = eq_of_some (sym there ∙ ap (get_elem? s.list) a ∙ here) in
            ground (arith, same, ap (λ k. k == c) a);
      },
    )

-- A task at place i, as many switches ahead of the current one at place c as there are registers,
-- is reached by those switches, with what was saved in it.
reach :
    (rs : List Regs) (e : End) (s : Tasks) (c i : ℕ) (u : Task)
    → IsRunning s c
    → All IsFresh rs
    → get_elem? s.list i ≡ some u
    → length rs < length s.list
    → (c + length rs ≡ i) ⊎ (c + length rs ≡ i + length s.list)
    → (c ≡ i → e ≡ jump u.page_dir u.regs)
    → (s' : Tasks) × (switches e rs s ≡ some (jump u.page_dir u.regs, s')) × IsRunning s' i
unfolding switches
reach [] e s c i u run fresh here few ahead at =
    let c' : c ≡ i = omega (arith, run.inside, lt_of_get_elem? s.list i here) in
    (s, ap (λ x. some (x, s)) (at c'), subst (IsRunning s) c' run)
reach (r ∷ rs) e s c i u run fresh here few ahead at =
    let i_in = lt_of_get_elem? s.list i here in
    let (e', s', st) = step r s c i u run fresh.0 here in
    let away : (i == c) ≡ false = ==_ne i c (omega (arith, run.inside)) in
    let (s'', done, run'') =
      reach rs e' s' (turn s c) i u st.run fresh.1 (ground (arith, st.here, away))
        (omega (arith, st.size)) (omega (arith, st.size, run.inside, turn_cases s c run.inside))
        (λ a. ground (arith, st.arrived a, away)) in
    (s'', switches_step e e' r rs s s' st.done ∙ done, run'')

-- Round robin is fair and loses nothing: if the task at place i is interrupted with registers r,
-- and then every other task of the list once, none of them with the mark of a resumed task in eip,
-- the last switch goes back to that task, with its page
-- directory and with exactly the registers r.
pub switches_round :
    (r : Regs) (rs : List Regs) (e : End) (s : Tasks) (i : ℕ) (u : Task)
    → IsRunning s i
    → IsFresh r
    → All IsFresh rs
    → get_elem? s.list i ≡ some u
    → length (r ∷ rs) ≡ length s.list
    → (s' : Tasks) × (switches e (r ∷ rs) s ≡ some (jump u.page_dir r, s')) × IsRunning s' i
switches_round r rs e s i u run first fresh here all =
    let (e', s', st) = step r s i i u run first here in
    let (s'', done, run'') =
      reach rs e' s' (turn s i) i (save r u) st.run fresh (ground (arith, st.here, ==_refl i))
        (omega (arith, st.size)) (omega (arith, st.size, run.inside, turn_cases s i run.inside))
        (λ a. ground (arith, st.arrived a, ==_refl i)) in
    (s'', switches_step e e' r rs s s' st.done ∙ done, run'')
