-- ===== src/Isolation/Always.antt =====
-- What memory the tasks share in every state that the kernel comes to.
use so2fib.Common.{some, ℕ, ◌<◌, ◌≡◌, ◌≢◌, refl, ◌∙◌, ap, sym, ℤ, pos, leb_ℤ, List, ◌∷◌, subst, ◌⊎◌}
use so2fib.LinkedList.{Addr}
use so2fib.Task.{st_run, add_user, add_system}
use so2fib.Kernel.{Kernel, nr_tasks, task_list, freequeue, current}
use so2fib.Sched.{stats_entry_sys, stats_leave_sys, get_dir}
use so2fib.Sched.Shape.{QueueMap, Valid}
use so2fib.Space.{get_pt}
use so2fib.Boot.{start}
use so2fib.Semaphores.Signal.{empty_of_nil}
use so2fib.Sbrk.{sys_sbrk}
use so2fib.Fork.{enomem, sys_fork}
use so2fib.Frames.{free_mark}
use so2fib.Processes.{to_unsigned}
use so2fib.Sbrk.Grow.{break_of}
use so2fib.Fork.Memory.{data_frame}
use so2fib.Fork.Filled.{Inherits}
use so2fib.Fork.Inherit.{sys_fork-Inherits}
use so2fib.Fork.Outcome.{Forked, spawned, no_memory, sys_fork-Forked}
use so2fib.Exit.{sys_exit}
use so2fib.Exit.Release.{OwnsNone}
use so2fib.Exit.Outcome.{sys_exit-Ended}
use so2fib.Isolation.Exit.{Spares, Vacated-Spares}
use so2fib.Steps.{
  Step, tick, key, entry_sys, leave_sys, sem_init, sem_wait, sem_signal, sem_destroy, clone, fork,
  sbrk, read, read_on, Reach, here, next,
}
use so2fib.Steps.Front.{IsConsistent, Front, nobody, somebody, front}
use so2fib.Steps.Always.{start-Reach-IsConsistent}
use so2fib.Isolation.{dir_of, IsIsolated, Still}
use so2fib.Isolation.Sched.{alive-running, charge-Still}
use so2fib.Isolation.Calls.{clock_rutine-Still, store_key-Still}
use so2fib.Isolation.Sems.{
  sys_sem_init-Still, sys_sem_signal-Still, sys_sem_wait-Still, sys_sem_destroy-Still,
}
use so2fib.Isolation.Reads.{sys_read-Still, read_pass-Still}
use so2fib.Isolation.Moves.{Still-IsIsolated}
use so2fib.Isolation.Clone.{sys_clone-IsIsolated}
use so2fib.Isolation.Fork.{sys_fork-IsIsolated}
use so2fib.Isolation.Heap.{asked_break, asked_page, sys_sbrk-maps_nothing, sys_sbrk-IsIsolated}
use so2fib.Isolation.Start.{start-IsIsolated}

-- A step that asks for no break in the page right behind the table, which `sys_sbrk` takes for one
-- of the table.
abbrev pub IsInside : {k k' : Kernel} → Step k k' → Type 0
IsInside {k} (sbrk incr e) = asked_page incr k ≢ 1024
IsInside (tick e) = Unit
IsInside (key b e) = Unit
IsInside (entry_sys e) = Unit
IsInside (leave_sys e) = Unit
IsInside (sem_init n v r e) = Unit
IsInside (sem_wait n user e) = Unit
IsInside (sem_signal n e) = Unit
IsInside (sem_destroy n out e) = Unit
IsInside (clone f s e) = Unit
IsInside (fork e) = Unit
IsInside (read fd buf n m user inside e) = Unit
IsInside (read_on buff m user inside e) = Unit

-- Steps of this kind, one after the other.
pub data Runs (k : Kernel) : Kernel → Type 0 where
  begins : Runs k k
  goes_on : {k_1 k_2 : Kernel} → Runs k k_1 → (s : Step k_1 k_2) → IsInside s → Runs k k_2

Runs-Reach : {k k' : Kernel} → Runs k k' → Reach k k'
Runs-Reach begins = here
Runs-Reach (goes_on r s inside) = next (Runs-Reach r) s

IsIsolated-of : {k k' : Kernel} → k' ≡ k → IsIsolated k → IsIsolated k'
IsIsolated-of e c = subst IsIsolated (sym e) c

still : {k k' k'' : Kernel} → k'' ≡ k' → Still k k' → IsIsolated k → IsIsolated k''
still e s c = IsIsolated-of e (Still-IsIsolated s c)

-- Each step keeps the tasks isolated.
Step-IsIsolated :
    {k k' : Kernel} (s : Step k k') → IsInside s → IsConsistent k → IsIsolated k → IsIsolated k'
unfolding stats_entry_sys stats_leave_sys
Step-IsIsolated (tick e) i v c = still e (clock_rutine-Still v.valid) c
Step-IsIsolated (key b e) i v c = still e (store_key-Still b v.valid) c
Step-IsIsolated {k} (entry_sys e) i v c = still e (charge-Still add_user (current k) k) c
Step-IsIsolated {k} (leave_sys e) i v c = still e (charge-Still add_system (current k) k) c
Step-IsIsolated {k} (sem_init n x r e) i v c =
    still (sym (ap (λ p. p.1) e)) (sys_sem_init-Still n x k) c
Step-IsIsolated (sem_wait n user e) i v c = still e (sys_sem_wait-Still v.valid n user) c
Step-IsIsolated (sem_signal n e) i v c = still e (sys_sem_signal-Still v.valid n) c
Step-IsIsolated (sem_destroy n out e) i v c =
    Still-IsIsolated (sys_sem_destroy-Still n out v.valid e) c
Step-IsIsolated {k} (clone f s e) i v c = IsIsolated-of e (sys_clone-IsIsolated f s k c)
Step-IsIsolated (fork e) i v c = IsIsolated-of e (sys_fork-IsIsolated v.valid c)
Step-IsIsolated (sbrk n e) i v c = IsIsolated-of e (sys_sbrk-IsIsolated c n i)
Step-IsIsolated (read fd buf n m user inside e) i v c =
    still e (sys_read-Still fd buf n m v.valid user) c
Step-IsIsolated (read_on buff m user inside e) i v c =
    still e (read_pass-Still buff m v.valid user) c

module _ (k : Kernel) (zeroed : (j : ℕ) → (k.task j).estado ≡ st_run) where
  -- From the start of the system on a memory of zeros, in every state that clock ticks, keys,
  -- semaphore calls, clones, forks, changes of the break and reads lead to, in any order: of two
  -- tasks that are current, idle or waiting, no data page of the one is in a frame behind the
  -- kernel's in which the other has one, unless they use one directory, and then it is the same
  -- page; their directories are counted, as two where two use one, the frames of their data pages
  -- are in use, and no page is mapped behind the data. The idle task makes no call that blocks,
  -- no call leaves the array of semaphores or the keyboard's, and none asks for a break in the
  -- page right behind the table.
  pub start-Runs-IsIsolated : {k' : Kernel} → Runs (start k) k' → IsIsolated k'
  start-Runs-IsIsolated begins = start-IsIsolated k zeroed
  start-Runs-IsIsolated (goes_on r s inside) =
      Step-IsIsolated s inside (start-Reach-IsConsistent k zeroed (Runs-Reach r))
        (start-Runs-IsIsolated r)

-- What `sys_fork` of `k` makes, where it does not return -ENOMEM.
pub record Child (k : Kernel) (t : ℕ) : Type 0 where
  pub inherits : let k' = (sys_fork k).1 in Inherits (get_pt t k') (get_pt k.running k) k k'
  pub named :
      (((sys_fork k).1.task t).pid ≡ k.incremental_pid) × ((sys_fork k).0 ≡ k.incremental_pid)

Forked-named :
    {k : Kernel} {q : QueueMap} {v : Valid k q} {t : ℕ} {rs : List Addr}
    {e : q freequeue ≡ task_list t ∷ rs} {r : ℤ × Kernel}
    → Forked v t rs e r
    → r.0 ≢ enomem
    → ((r.1.task t).pid ≡ k.incremental_pid) × (r.0 ≡ k.incremental_pid)
Forked-named (spawned r _ _ p _) done = (p, r)
Forked-named (no_memory r _ _ _) done = absurd (done r)

-- What `sys_fork` needs of the memory of the current task.
module _ {k : Kernel} (c : IsIsolated k) where
  in_table : get_dir k.running k < nr_tasks
  unfolding get_dir
  in_table = c.placed k.running (alive-running k)

  held : k.refs_dir (get_dir k.running k) ≢ pos 0
  unfolding get_dir
  held none = cc (sym (c.counted k.running (alive-running k)) ∙ ap (leb_ℤ (pos 1)) none)

  in_use : (j : ℕ) → j < 20 → k.phys_mem (data_frame (get_pt k.running k) j k) ≢ free_mark
  unfolding get_pt get_dir
  in_use j h =
      rw (c.own_tables (dir_of k.running k) (c.placed k.running (alive-running k)))
        (c.in_use k.running j (alive-running k) h)

sys_fork-Child :
    {k : Kernel} {q : QueueMap}
    → Valid k q
    → IsIsolated k
    → Front q freequeue
    → (sys_fork k).0 ≢ enomem
    → (t : ℕ) × Child k t
unfolding sys_fork
sys_fork-Child {k} v c (nobody n) done = absurd (done (rw (empty_of_nil v freequeue refl n) refl))
sys_fork-Child {k} v c (somebody t rs e) done = (
  t,
  record {
    inherits = sys_fork-Inherits v t rs e c.own_tables (in_table c) (held c) (in_use c) done;
    named = Forked-named (sys_fork-Forked v t rs e) done;
  },
)

-- In every state that the kernel comes to from its start on a memory of zeros by clock ticks,
-- keys and calls other than `sys_exit`, where the idle task makes no call that blocks, none
-- leaves an array, and none asks for a break in the page right behind the table: a `sys_fork`
-- that does not return -ENOMEM returns the next PID, which is that of a task with a table of its
-- own; it has the entries of the kernel's pages and the code pages of the current task, and each
-- data page in a frame of its own that was free, with the bytes of the current task's page; the
-- frames that were in use keep their bytes, and the current task its data pages.
pub start-Runs-Child :
    (k : Kernel) {k' : Kernel}
    → ((j : ℕ) → (k.task j).estado ≡ st_run)
    → Runs (start k) k'
    → (sys_fork k').0 ≢ enomem
    → (t : ℕ) × Child k' t
start-Runs-Child k zeroed r done =
    let v = (start-Reach-IsConsistent k zeroed (Runs-Reach r)).valid in
    sys_fork-Child v (start-Runs-IsIsolated k zeroed r) (front freequeue v refl) done

-- In every state that the kernel comes to from its start on a memory of zeros by clock ticks,
-- keys and calls other than `sys_exit`, where the idle task makes no call that blocks, none
-- leaves an array, and none asks for a break in the page right behind the table: a `sys_sbrk`
-- that itself asks for no break in that page maps and unmaps no page, and takes and frees no
-- frame; it is refused with -ENOMEM, changing nothing, or returns the old break and moves it to
-- the one asked for, or to the start of the heap where that would lie below.
pub start-Runs-sbrk :
    (k : Kernel) {k' : Kernel} (incr : ℤ)
    → ((j : ℕ) → (k.task j).estado ≡ st_run)
    → Runs (start k) k'
    → asked_page incr k' ≢ 1024
    → let (r, k'') = sys_sbrk incr k' in
      (((r ≡ to_unsigned enomem) × (k'' ≡ k'))
        ⊎ ((r ≡ break_of k') × (break_of k'' ≡ asked_break incr k')))
      × (k''.pagusr_table ≡ k'.pagusr_table)
      × (k''.phys_mem ≡ k'.phys_mem)
start-Runs-sbrk k incr zeroed r near =
    sys_sbrk-maps_nothing (start-Runs-IsIsolated k zeroed r) incr near

-- In every state that the kernel comes to from its start on a memory of zeros by clock ticks,
-- keys and calls other than `sys_exit`, where the idle task makes no call that blocks, none
-- leaves an array, and none asks for a break in the page right behind the table: a `sys_exit` of
-- a task that owns no semaphore ends, and the other tasks that are current, idle or waiting keep
-- their data pages: the tables map them as before, and their frames behind the kernel's stay in
-- use.
pub start-Runs-exit :
    (k : Kernel) {k' : Kernel}
    → ((j : ℕ) → (k.task j).estado ≡ st_run)
    → Runs (start k) k'
    → OwnsNone k'
    → (k'' : Kernel) × (sys_exit k' ≡ some k'') × Spares k' k''
start-Runs-exit k zeroed r free =
    let (k'', done, _, w) =
      sys_exit-Ended (start-Reach-IsConsistent k zeroed (Runs-Reach r)).valid free in
    (k'', done, Vacated-Spares (start-Runs-IsIsolated k zeroed r) w)
