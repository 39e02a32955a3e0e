-- ===== src/Isolation/Fork/Directory.antt =====
-- A task with a directory of its own, before and after its table is filled.
use so2fib.Common.{
  ◌==◌, ==-eq, ℕ, ◌+◌, ◌<◌, ◌≡◌, ◌≢◌, refl, ◌∙◌, ap, sym, true, false, arith, subst, pos, leb_ℤ,
  inl, inr, Bool-cases, update, has,
}
use so2fib.Task.{st_run, is_run}
use so2fib.Kernel.{Kernel, nr_tasks, task_list, freequeue, readyqueue}
use so2fib.Sched.Shape.{QueueMap, Shape}
use so2fib.Isolation.{alive, dir_of, CountTwice, IsIsolated, InHeap}
use so2fib.Isolation.Moves.{IsNew, anew, Origin, as_before, Moves}
use so2fib.Isolation.Fill.{Fills}
use so2fib.Isolation.Used.{KeepsUsed}

-- The idle task is not free.
pub idle-not_free :
    {k : Kernel} {q : QueueMap} (t : ℕ)
    → Shape k q
    → has (task_list t) (q freequeue) ≡ true
    → t ≢ k.idle_task
idle-not_free {k} {q} t s free same =
    elim (Bool-cases (has (task_list k.idle_task) (q readyqueue))) [
      | inl ready ↦
          let both : freequeue ≡ readyqueue =
            s.queues.apart freequeue readyqueue (task_list k.idle_task) refl refl
              (ap (λ i. has (task_list i) (q freequeue)) (sym same) ∙ free) ready in
          absurd (omega arith)
      | inr out ↦ cc (
          sym ((s.idle out).loose.1 freequeue refl)
          ∙ ap (λ i. has (task_list i) (q freequeue)) (sym same)
          ∙ free)
    ]

-- A task that did not change, in a kernel with the same current and idle tasks.
pub same-alive :
    (k k' : Kernel) (j : ℕ)
    → k'.task j ≡ k.task j
    → k'.running ≡ k.running
    → k'.idle_task ≡ k.idle_task
    → alive j k' ≡ true
    → (alive j k ≡ true) × (dir_of j k' ≡ dir_of j k)
same-alive k k' j same running idle a =
    let e : is_run (k'.task j).estado ≡ is_run (k.task j).estado = ap (λ t. is_run t.estado) same in
    (ground arith, ap (λ t. t.dir_pages_base_addr) same)

-- A task that did not change has the memory that it had.
pub other-Origin :
    {i : ℕ} {k k' : Kernel} (j : ℕ)
    → k'.task j ≡ k.task j
    → k'.running ≡ k.running
    → k'.idle_task ≡ k.idle_task
    → alive j k' ≡ true
    → Origin i k k' j
other-Origin {k} {k'} j same running idle a =
    let (b, d) = same-alive k k' j same running idle a in
    as_before j b d (ap (λ t. t.n_directorio) same)
      (λ x. subst (λ t. InHeap t.process_break) (sym same) x)

-- In `p`, the free task `t` of `k` has become a copy of the current one with the directory `i`.
pub record Placed (t i : ℕ) (k p : Kernel) : Type 0 where
  pub mem : p.phys_mem ≡ k.phys_mem
  pub tables : p.pagusr_table ≡ k.pagusr_table
  pub dirs : p.dir_pages ≡ k.dir_pages
  pub running : p.running ≡ k.running
  pub idle_task : p.idle_task ≡ k.idle_task
  pub row : dir_of t p ≡ i
  pub number : (p.task t).n_directorio ≡ i
  pub in_range : i < nr_tasks
  pub unused : k.refs_dir i ≡ pos 0
  pub refs : p.refs_dir ≡ update k.refs_dir i (pos 1)
  pub others : (j : ℕ) → j ≢ t → p.task j ≡ k.task j
  pub runs : (p.task t).estado ≡ st_run
  pub break_at : (p.task t).process_break ≡ (k.task k.running).process_break
  pub not_running : t ≢ k.running
  pub not_idle : t ≢ k.idle_task

module _ {t i : ℕ} {k p : Kernel} (c : IsIsolated k) (w : Placed t i k p) where
  -- Nobody alive has the directory.
  pub row-ne : (j : ℕ) → alive j k ≡ true → dir_of j k ≢ i
  row-ne j a same = cc (
      sym (c.counted j a)
      ∙ ap (λ r. leb_ℤ (pos 1) (k.refs_dir r)) same
      ∙ ap (leb_ℤ (pos 1)) w.unused)

  module _ (k_f k' : Kernel) (f : Fills i p k_f) (keeps : KeepsUsed p.phys_mem k_f.phys_mem)
      (mem : k'.phys_mem ≡ k_f.phys_mem) (tables : k'.pagusr_table ≡ k_f.pagusr_table)
      (dirs : k'.dir_pages ≡ k_f.dir_pages) (refs : k'.refs_dir ≡ k_f.refs_dir) where
    pub refs-new : leb_ℤ (pos 1) (k'.refs_dir i) ≡ true
    refs-new = rw (refs ∙ f.refs ∙ w.refs) (ground arith)

    refs-twice :
        (r : ℕ) → leb_ℤ (pos 2) (k.refs_dir r) ≡ true → leb_ℤ (pos 2) (k'.refs_dir r) ≡ true
    refs-twice r u =
        let free : leb_ℤ (pos 2) (k.refs_dir i) ≡ false = ap (leb_ℤ (pos 2)) w.unused in
        rw (refs ∙ f.refs ∙ w.refs) (ground arith)

    module _ (same : (j : ℕ) → j ≢ t → k'.task j ≡ k.task j) (running : k'.running ≡ k.running)
        (idle : k'.idle_task ≡ k.idle_task) (new : alive t k' ≡ true → IsNew i k k' t) where
      before : (j : ℕ) → j ≢ t → alive j k' ≡ true → (alive j k ≡ true) × (dir_of j k' ≡ dir_of j k)
      before j ne live = same-alive k k' j (same j ne) running idle live

      -- The new task shares its directory with nobody.
      alone : (j : ℕ) → j ≢ t → alive j k' ≡ true → alive t k' ≡ true → dir_of j k' ≢ dir_of t k'
      alone j ne live live_t e =
          let (a, d) = before j ne live in row-ne j a (sym d ∙ e ∙ (new live_t).at)

      pair : CountTwice k → CountTwice k'
      pair two j j' ne a a' e = elim (Bool-cases (j == t)) [
        | inl at ↦
            let is : j ≡ t = ==-eq j t at in
            absurd (
              alone j' (λ g. ne (is ∙ sym g)) a' (sym (ap (λ l. alive l k') is) ∙ a)
                (sym e ∙ ap (λ l. dir_of l k') is))
        | inr off ↦ elim (Bool-cases (j' == t)) [
          | inl at ↦
              let is : j' ≡ t = ==-eq j' t at in
              absurd (
                alone j (ground arith) a (sym (ap (λ l. alive l k') is) ∙ a')
                  (e ∙ ap (λ l. dir_of l k') is))
          | inr off' ↦
              let (b, d) = before j (ground arith) a in
              let (b', d') = before j' (ground arith) a' in
              rw d (refs-twice (dir_of j k) (two j j' ne b b' (sym d ∙ e ∙ d')))
        ]
      ]

      origin : (j : ℕ) → alive j k' ≡ true → Origin i k k' j
      origin j live = elim (Bool-cases (j == t)) [
        | inl at ↦
            let is : j ≡ t = ==-eq j t at in
            subst (Origin i k k') (sym is) (anew (new (sym (ap (λ l. alive l k') is) ∙ live)))
        | inr off ↦ other-Origin j (same j (ground arith)) running idle live
      ]

    -- The others are as they were, and the task is new, if it is alive.
    pub placed-Moves :
        ((j : ℕ) → j ≢ t → k'.task j ≡ k.task j)
        → k'.running ≡ k.running
        → k'.idle_task ≡ k.idle_task
        → (alive t k' ≡ true → IsNew i k k' t)
        → Moves i k k'
    placed-Moves same running idle new = record {
      twice = pair same running idle new;
      dirs = dirs ∙ f.dirs ∙ w.dirs;
      used = λ x u. rw mem (keeps x (rw w.mem u));
      refs = λ r e. rw (refs ∙ f.refs ∙ w.refs) (ground arith);
      frames = λ j l a h.
          ap (λ g. (g (dir_of j k) (264 + l)).pbase_addr) tables
          ∙ f.frames (dir_of j k) l (row-ne j a) h
          ∙ ap (λ g. (g (dir_of j k) (264 + l)).pbase_addr) w.tables;
      heap = λ row a lo hi e. rw tables (f.heap row a lo hi (rw w.tables e));
      origin = origin same running idle new;
    }

-- A task that runs, but is neither current nor idle, is not alive.
pub not_alive :
    (k : Kernel) (t : ℕ)
    → (k.task t).estado ≡ st_run
    → t ≢ k.running
    → t ≢ k.idle_task
    → alive t k ≡ false
not_alive k t runs not_running not_idle =
    let e : is_run (k.task t).estado ≡ true = ap is_run runs in ground arith
