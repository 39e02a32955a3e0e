-- ===== src/Isolation/Fork/Space.antt =====
-- `sys_fork` once a directory is found, for the new task's row.
use so2fib.Common.{
  ℕ, ◌+◌, ◌<◌, ◌≡◌, ◌≢◌, refl, ◌∙◌, ap, sym, true, false, arith, subst, inl, inr, Bool, Bool-cases,
  if◌then◌else◌, [],
}
use so2fib.Frames.{num_pag_kernel}
use so2fib.Kernel.{Kernel, task_list, current}
use so2fib.Sched.{get_dir}
use so2fib.Sched.Next.{list_head_to_task_struct-task_list}
use so2fib.Space.{get_pt, set_cr3}
use so2fib.Fork.{enomem, fork_end, fork_space}
use so2fib.Fork.Pages.{Kept, Kept-trans, share_pages-Kept, copy_pages-Kept}
use so2fib.Fork.Memory.{InUse, data_frame}
use so2fib.Fork.Filled.{Inherits, shared_1, shared_2, filled, filled-Inherits}
use so2fib.Fork.Inherit.{OwnTables}
use so2fib.Isolation.{alive, dir_of, IsIsolated, InHeap}
use so2fib.Isolation.Sched.{alive-running}
use so2fib.Isolation.Moves.{IsNew, Moves-IsIsolated}
use so2fib.Isolation.Fill.{filled-Fills}
use so2fib.Isolation.Used.{filled-KeepsUsed}
use so2fib.Isolation.Fork.Directory.{Placed, row-ne, refs-new, placed-Moves, not_alive}

filled-Kept : (new parent : ℕ) (k : Kernel) → Kept k (filled new parent k).1
filled-Kept new parent k = Kept-trans (share_pages-Kept num_pag_kernel 1 new parent k) (
    Kept-trans (share_pages-Kept 8 256 new parent (shared_1 new parent k))
      (copy_pages-Kept 20 0 new parent [] (shared_2 new parent k)))

-- The end of `sys_fork` changes no memory.
fork_end-task :
    (t : ℕ) (k : Kernel)
    → let k' = (fork_end (task_list t) k).1 in
      (dir_of t k' ≡ dir_of t k)
      × ((k'.task t).n_directorio ≡ (k.task t).n_directorio)
      × ((k'.task t).process_break ≡ (k.task t).process_break)
      × ((j : ℕ) → j ≢ t → k'.task j ≡ k.task j)
unfolding fork_end set_cr3 get_dir current
fork_end-task t k =
    rw (list_head_to_task_struct-task_list t)
      (ground arith, ground arith, ground arith, λ j ne. ground arith)

fork_end-rest :
    (t : ℕ) (k : Kernel)
    → let k' = (fork_end (task_list t) k).1 in
      (k'.phys_mem ≡ k.phys_mem)
      × (k'.pagusr_table ≡ k.pagusr_table)
      × (k'.dir_pages ≡ k.dir_pages)
      × (k'.refs_dir ≡ k.refs_dir)
      × (k'.running ≡ k.running)
      × (k'.idle_task ≡ k.idle_task)
unfolding fork_end set_cr3 get_dir current
fork_end-rest t k = (refl, refl, refl, refl, refl, refl)

module _ {t i : ℕ} {k p : Kernel} (c : IsIsolated k) (w : Placed t i k p) where
  abbrev parent : ℕ
  parent = dir_of k.running k

  own_p : OwnTables p
  own_p r lt = ap (λ f. (f r).pbase_addr) w.dirs ∙ c.own_tables r lt

  new_row : get_pt t p ≡ i
  unfolding get_pt get_dir
  new_row = own_p (dir_of t p) (rw w.row w.in_range) ∙ w.row

  parent_row : get_pt p.running p ≡ parent
  unfolding get_pt get_dir
  parent_row =
      let at : dir_of p.running p ≡ parent =
        ap (λ j. dir_of j p) w.running
        ∙ ap (λ a. a.dir_pages_base_addr) (w.others k.running (λ same. w.not_running (sym same))) in
      own_p (dir_of p.running p) (rw at (c.placed k.running (alive-running k))) ∙ at

  abbrev result : Bool × Kernel
  result = filled i parent p

  fork_space-result :
      fork_space (task_list t) p
      ≡ (if result.0 then fork_end (task_list t) result.1 else (enomem, result.1))
  unfolding fork_space current
  fork_space-result = rw (list_head_to_task_struct-task_list t, new_row, parent_row) refl

  running-result : result.1.running ≡ k.running
  running-result = (filled-Kept i parent p).running ∙ w.running

  idle-result : result.1.idle_task ≡ k.idle_task
  idle-result = (filled-Kept i parent p).idle_task ∙ w.idle_task

  task-result : result.1.task ≡ p.task
  task-result = (filled-Fills i parent p).tasks

  others-result : (j : ℕ) → j ≢ t → result.1.task j ≡ k.task j
  others-result j ne = ap (λ f. f j) task-result ∙ w.others j ne

  lost : alive t result.1 ≡ false
  lost =
      not_alive result.1 t (ap (λ f. (f t).estado) task-result ∙ w.runs)
        (λ same. w.not_running (same ∙ running-result)) (λ same. w.not_idle (same ∙ idle-result))

  lost-IsIsolated : IsIsolated result.1
  lost-IsIsolated = Moves-IsIsolated c (
      placed-Moves c w result.1 result.1 (filled-Fills i parent p) (filled-KeepsUsed i parent p)
        refl refl refl refl others-result running-result idle-result (λ live. cc (sym lost ∙ live)))

  apart : parent ≢ i
  apart = row-ne c w k.running (alive-running k)

  in_use : InUse i parent apart 20 0 p
  in_use j lo hi =
      rw (w.mem, ap (λ g. (g parent (264 + j)).pbase_addr) w.tables)
        (c.in_use k.running j (alive-running k) (omega arith))

  module _ (done : result.0 ≡ true) where
    inherits : Inherits i parent p result.1
    inherits = filled-Inherits i parent apart p in_use done

    abbrev child : Kernel
    child = (fork_end (task_list t) result.1).1

    distinct :
        (j j' : ℕ) → j < 20 → j' < 20 → data_frame i j result.1 ≡ data_frame i j' result.1 → j ≡ j'
    distinct j j' h h' same = ground (
      arith,
      inherits.copies.distinct j j' (omega arith),
      inherits.copies.distinct j' j (omega arith),
    )

    mem-child : child.phys_mem ≡ result.1.phys_mem
    mem-child = (fork_end-rest t result.1).0

    tables-child : child.pagusr_table ≡ result.1.pagusr_table
    tables-child = (fork_end-rest t result.1).1

    refs-child : child.refs_dir ≡ result.1.refs_dir
    refs-child = (fork_end-rest t result.1).3

    dirs-child : child.dir_pages ≡ result.1.dir_pages
    dirs-child = (fork_end-rest t result.1).2

    frame-child : (j : ℕ) → data_frame i j child ≡ data_frame i j result.1
    frame-child j = ap (λ g. (g i (264 + j)).pbase_addr) tables-child

    task_t : result.1.task t ≡ p.task t
    task_t = ap (λ f. f t) task-result

    child-IsNew : IsNew i k child t
    child-IsNew =
        let (row, number, brk, _) = fork_end-task t result.1 in
        record {
          at = row ∙ ap (λ a. a.dir_pages_base_addr) task_t ∙ w.row;
          number = number ∙ ap (λ a. a.n_directorio) task_t ∙ w.number;
          in_range = w.in_range;
          counted =
              refs-new c w result.1 child (filled-Fills i parent p) (filled-KeepsUsed i parent p)
                mem-child tables-child dirs-child refs-child;
          fresh = λ j h.
              ap k.phys_mem (frame-child j)
              ∙ sym (ap (λ f. f (data_frame i j result.1)) w.mem)
              ∙ inherits.copies.fresh j (omega arith) (omega arith);
          taken = λ j h.
              rw (frame-child j, mem-child) (inherits.copies.taken j (omega arith) (omega arith));
          distinct =
              λ j j' h h' same. distinct j j' h h' (sym (frame-child j) ∙ same ∙ frame-child j');
          break_in =
              subst InHeap (sym (brk ∙ ap (λ a. a.process_break) task_t ∙ w.break_at))
                (c.break_in k.running (alive-running k));
        }

    child-IsIsolated : IsIsolated child
    child-IsIsolated =
        let (_, _, _, same) = fork_end-task t result.1 in
        let (_, _, _, _, running, idle) = fork_end-rest t result.1 in
        Moves-IsIsolated c (
          placed-Moves c w result.1 child (filled-Fills i parent p) (filled-KeepsUsed i parent p)
            mem-child tables-child dirs-child refs-child (λ j ne. same j ne ∙ others-result j ne)
            (running ∙ running-result) (idle ∙ idle-result) (λ live. child-IsNew))

  pub fork_space-IsIsolated : IsIsolated (fork_space (task_list t) p).1
  fork_space-IsIsolated = rw fork_space-result (elim (Bool-cases result.0) [
    | inl done ↦ rw done (child-IsIsolated done)
    | inr full ↦ rw full lost-IsIsolated
  ])
