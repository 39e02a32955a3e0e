-- ===== src/Isolation/Fork.antt =====
-- `sys_fork` gives the new task memory that nobody alive has; where it gives up, the task that it
-- took is not alive.
pub mod Directory
pub mod Space
use so2fib.Common.{
  ℕ, ◌+◌, ◌<◌, ◌≤◌, ◌≡◌, ◌≢◌, refl, ◌∙◌, ap, sym, true, false, arith, subst, ℤ, pos, leb_ℤ, ltb_ℤ,
  inl, inr, ◌==◌, ==-eq, Bool, Bool-cases, Option-cases, update, List, ◌∷◌, has,
}
use so2fib.LinkedList.{Addr}
use so2fib.Frames.{free_mark}
use so2fib.Task.{Task, State, st_run}
use so2fib.Kernel.{Kernel, nr_tasks, task_list, freequeue, current}
use so2fib.Sched.{get_dir}
use so2fib.Sched.Shape.{QueueMap, Valid}
use so2fib.Sched.Next.{list_head_to_task_struct-task_list}
use so2fib.Space.{get_pt, copy_union, set_cr3}
use so2fib.Processes.{find_dir, allocate_dir, get_dir_position}
use so2fib.Processes.Directory.{Allocated, taken, all_used, IsUnused, allocate_dir-Allocated}
use so2fib.Fork.{fork_end, fork_space, fork_task, sys_fork}
use so2fib.Fork.Birth.{born, born-ne}
use so2fib.Fork.Outcome.{first_free}
use so2fib.Fork.Memory.{InUse, data_frame}
use so2fib.Fork.Filled.{Inherits, filled, filled-Inherits}
use so2fib.Semaphores.Signal.{empty_of_nil, empty_of_cons}
use so2fib.Steps.Front.{Front, nobody, somebody, front}
use so2fib.Isolation.Fork.Space.{fork_space-IsIsolated}
use so2fib.Isolation.{alive, dir_of, IsIsolated, InHeap}
use so2fib.Isolation.Sched.{alive-running}
use so2fib.Isolation.Moves.{keeps-CountTwice, Moves-IsIsolated}
use so2fib.Isolation.Fill.{Fills, filled-Fills}
use so2fib.Isolation.Used.{KeepsUsed, filled-KeepsUsed}
use so2fib.Isolation.Fork.Directory.{
  idle-not_free, Placed, row-ne, refs-new, placed-Moves, other-Origin, same-alive, not_alive,
}

-- What `allocate_dir` leaves of the tasks.
allocate_dir-task :
    (p : ℕ) (k : Kernel)
    → let k' = (allocate_dir p k).1 in
      ((j : ℕ) → j ≢ p → k'.task j ≡ k.task j)
      × ((k'.task p).estado ≡ (k.task p).estado)
      × ((k'.task p).process_break ≡ (k.task p).process_break)
      × (k'.phys_mem ≡ k.phys_mem)
      × (k'.pagusr_table ≡ k.pagusr_table)
      × (k'.dir_pages ≡ k.dir_pages)
      × (k'.running ≡ k.running)
      × (k'.idle_task ≡ k.idle_task)
unfolding allocate_dir
allocate_dir-task p k = elim (Option-cases (find_dir nr_tasks 0 k.refs_dir)) [
  | inl e ↦ rw (e, allocate_dir) (λ j ne. refl, refl, refl, refl, refl, refl, refl, refl)
  | inr (i, e) ↦
      rw (e, allocate_dir)
        (λ j ne. ground arith, ground arith, ground arith, refl, refl, refl, refl, refl)
]

-- The directory that was found.
record HasDir (p i : ℕ) (k k' : Kernel) : Type 0 where
  in_range : i < nr_tasks
  unused : k.refs_dir i ≡ pos 0
  row : get_dir p k' ≡ i
  number : get_dir_position p k' ≡ i
  refs : k'.refs_dir ≡ update k.refs_dir i (pos 1)

Allocated-HasDir :
    {p : ℕ} {k : Kernel} {r : ℤ × Kernel}
    → Allocated p k r
    → ltb_ℤ r.0 (pos 0) ≡ false
    → (i : ℕ) × HasDir p i k r.1
Allocated-HasDir (taken lt unused _ row number refs) ok =
    (_, record { in_range = lt; unused = unused; row = row; number = number; refs = refs })
Allocated-HasDir (all_used _) ok = cc

Allocated-none :
    {p : ℕ} {k : Kernel} {r : ℤ × Kernel} → Allocated p k r → ltb_ℤ r.0 (pos 0) ≡ true → r.1 ≡ k
Allocated-none (taken _ _ _ _ _ _) some_dir = cc
Allocated-none (all_used _) none_left = refl

module _ {k : Kernel} {q : QueueMap} (v : Valid k q) (c : IsIsolated k) (t : ℕ) (rs : List Addr)
    (e : q freequeue ≡ task_list t ∷ rs) where
  not_idle : t ≢ k.idle_task
  not_idle = idle-not_free t v.shape (rw e (ground arith))

  not_running : t ≢ k.running
  not_running same = born-ne v t rs e (sym same)

  -- The copied task, when no directory is left, is not alive.
  was_other : (j : ℕ) → alive j (born v t rs e) ≡ true → j ≢ t
  unfolding copy_union
  was_other j live same =
      let dead : alive t (born v t rs e) ≡ false =
        not_alive (born v t rs e) t (ground (arith, v.current.runs)) not_running not_idle in
      cc (sym dead ∙ ap (λ i. alive i (born v t rs e)) (sym same) ∙ live)

  same_task : (j : ℕ) → alive j (born v t rs e) ≡ true → (born v t rs e).task j ≡ k.task j
  unfolding copy_union
  same_task j live = let ne = was_other j live in ground arith

  born-IsIsolated : IsIsolated (born v t rs e)
  unfolding copy_union
  born-IsIsolated = Moves-IsIsolated {d = 0} c (record {
    dirs = refl;
    used = λ x u. u;
    refs = λ r u. u;
    twice =
        keeps-CountTwice k (born v t rs e)
          (λ j live. same-alive k (born v t rs e) j (same_task j live) refl refl live) (λ r u. u);
    frames = λ i j a h. refl;
    heap = λ row p lo hi g. g;
    origin = λ j live. other-Origin j (same_task j live) refl refl live;
  })

  abbrev given : ℤ × Kernel
  given = allocate_dir t (born v t rs e)

  no_dir-IsIsolated : ltb_ℤ given.0 (pos 0) ≡ true → IsIsolated given.1
  no_dir-IsIsolated none_left =
      subst IsIsolated (sym (Allocated-none (allocate_dir-Allocated t (born v t rs e)) none_left))
        born-IsIsolated

  given-Placed : ltb_ℤ given.0 (pos 0) ≡ false → (i : ℕ) × Placed t i k given.1
  unfolding copy_union get_dir get_dir_position
  given-Placed ok =
      let (i, d) = Allocated-HasDir (allocate_dir-Allocated t (born v t rs e)) ok in
      let (others, estado, brk, mem, tables, dirs, running, idle) =
        allocate_dir-task t (born v t rs e) in
      (
        i,
        record {
          mem = mem;
          tables = tables;
          dirs = dirs;
          running = running;
          idle_task = idle;
          row = d.row;
          number = d.number;
          in_range = d.in_range;
          unused = d.unused;
          refs = d.refs;
          others = λ j ne. others j ne ∙ ground arith;
          runs = estado ∙ ground (arith, v.current.runs);
          break_at = brk ∙ ground arith;
          not_running = not_running;
          not_idle = not_idle;
        },
      )

  fork_task-IsIsolated : IsIsolated (fork_task (task_list t) k).1
  unfolding fork_task current
  fork_task-IsIsolated =
      rw (list_head_to_task_struct-task_list t) (elim (Bool-cases (ltb_ℤ given.0 (pos 0))) [
        | inl none_left ↦ rw none_left (no_dir-IsIsolated none_left)
        | inr ok ↦ rw ok (fork_space-IsIsolated c (given-Placed ok).1)
      ])

sys_fork-Front :
    {k : Kernel} {q : QueueMap}
    → Valid k q
    → IsIsolated k
    → Front q freequeue
    → IsIsolated (sys_fork k).1
unfolding sys_fork
sys_fork-Front v c (nobody n) = rw (empty_of_nil v freequeue refl n) c
sys_fork-Front v c (somebody t rs e) =
    rw (empty_of_cons v freequeue refl e, first_free v t rs e) (fork_task-IsIsolated v c t rs e)

pub sys_fork-IsIsolated :
    {k : Kernel} {q : QueueMap} → Valid k q → IsIsolated k → IsIsolated (sys_fork k).1
sys_fork-IsIsolated v c = sys_fork-Front v c (front freequeue v refl)
