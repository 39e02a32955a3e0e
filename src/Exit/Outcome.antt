-- ===== src/Exit/Outcome.antt =====
-- What `sys_exit` of a task that owns no semaphore leaves.
use so2fib.Common.{
  ℕ, ◌+◌, ◌≡◌, ◌≢◌, refl, ◌∙◌, ap, sym, some, Bool-cases, inl, inr, arith, update, subst, pos, ◌-ℤ◌,
  -ℤ-one_ne, eqb_ℤ, eqb_ℤ-of_eq, eqb_ℤ-of_ne, ap₂, zero, suc, Bool, neg, List, [], ◌∷◌, ◌-◌,
}
use so2fib.LinkedList.{Addr, list_empty, list_add_tail}
use so2fib.Task.{Task, st_run}
use so2fib.Kernel.{
  Kernel, readyqueue, freequeue, current, get_ticks, task_list, set_task, set_links,
}
use so2fib.Sched.{
  get_dir, charge, update_process_state_rr, inner_task_switch, run_next, sched_next_rr,
}
use so2fib.Sched.Shape.{QueueMap, Valid}
use so2fib.Sched.Place.{park-eq}
use so2fib.Steps.Front.{same-Valid}
use so2fib.Space.{get_pt}
use so2fib.Processes.{get_dir_position}
use so2fib.Fork.Pages.{Kept, Kept-SameLists}
use so2fib.Exit.{release_pages, leave_space, sys_exit}
use so2fib.Space.Unmap.{Unmapped, Unmapped-same}
use so2fib.Exit.Pages.{between, release_pages-Unmapped}
use so2fib.Exit.Release.{
  OwnsNone, Ended, parked, parked-Ended, destroy_owned-none, leave_space-Kept,
}

-- Frames and page tables are as they were.
abbrev SameSpace : Kernel → Kernel → Type 0
SameSpace k k' = (k'.phys_mem ≡ k.phys_mem) × (k'.pagusr_table ≡ k.pagusr_table)

space-update : (t h : Addr) (k : Kernel) → SameSpace k (update_process_state_rr t h k)
unfolding update_process_state_rr
space-update t h k = (ground arith, ground arith)

space-run_next : (t : ℕ) (k : Kernel) → SameSpace k (run_next t k)
unfolding run_next inner_task_switch current charge get_ticks
space-run_next t k = let (m, p) = space-update t 0 _ in (m, p)

space-next : (k : Kernel) → SameSpace k (sched_next_rr k)
unfolding sched_next_rr inner_task_switch current
space-next k = elim (Bool-cases (list_empty readyqueue k.links)) [
  | inl e ↦ rw e (refl, refl)
  | inr e ↦ rw e (space-run_next _ k)
]

-- What becomes of the data pages of the task `k.running`.
pub record Vacated (k k' : Kernel) : Type 0 where
  pub last :
      k.refs_dir (get_dir_position k.running k) ≡ pos 1
      → Unmapped (get_pt k.running k) (between 264 284) k k'
  pub shared : k.refs_dir (get_dir_position k.running k) ≢ pos 1 → SameSpace k k'

module _ (k : Kernel) where
  abbrev uncounted : Kernel
  uncounted = record k {
    refs_dir =
        update k.refs_dir (get_dir_position k.running k)
          (k.refs_dir (get_dir_position k.running k) -ℤ pos 1);
  }

  abbrev home : ℕ
  home = get_dir_position k.running k

  uncounted-home : uncounted.refs_dir home ≡ k.refs_dir home -ℤ pos 1
  uncounted-home = ground arith

  leave_space-last :
      k.refs_dir home ≡ pos 1 → leave_space k ≡ release_pages 20 0 (get_pt k.running k) uncounted
  unfolding leave_space current get_pt get_dir
  leave_space-last e =
      let zero_left : uncounted.refs_dir home ≡ pos 0 = uncounted-home ∙ ground arith in
      rw (eqb_ℤ-of_eq (uncounted.refs_dir home) (pos 0) zero_left) refl

  leave_space-shared : k.refs_dir home ≢ pos 1 → leave_space k ≡ uncounted
  unfolding leave_space current
  leave_space-shared ne =
      let some_left : uncounted.refs_dir home ≢ pos 0 =
        λ e. -ℤ-one_ne (k.refs_dir home) ne (sym uncounted-home ∙ e) in
      rw (eqb_ℤ-of_ne (uncounted.refs_dir home) (pos 0) some_left) refl

  uncounted-Unmapped :
      {row : ℕ} {inside : ℕ → Bool} {k' : Kernel}
      → Unmapped row inside uncounted k'
      → Unmapped row inside k k'
  uncounted-Unmapped w = record {
    gone = w.gone;
    freed = w.freed;
    stays = w.stays;
    others = w.others;
    tables = w.tables;
  }

  leave_space-Vacated : (k' : Kernel) → SameSpace (leave_space k) k' → Vacated k k'
  leave_space-Vacated k' (mem, tables) = record {
    last = λ e.
        let eq = leave_space-last e in
        Unmapped-same (mem ∙ ap (λ s. s.phys_mem) eq) (tables ∙ ap (λ s. s.pagusr_table) eq)
          (uncounted-Unmapped (release_pages-Unmapped 20 0 (get_pt k.running k) uncounted));
    shared = λ ne.
        let eq = leave_space-shared ne in
        (mem ∙ ap (λ s. s.phys_mem) eq, tables ∙ ap (λ s. s.pagusr_table) eq);
  }

-- The task is current to the end, with the PID that it had.
release_pages-task : (n p row : ℕ) (k : Kernel) → (release_pages n p row k).task ≡ k.task
unfolding release_pages
release_pages-task zero p row k = refl
release_pages-task (suc n) p row k = release_pages-task n (p + 1) row _

leave_space-task : (k : Kernel) → (leave_space k).task ≡ k.task
unfolding leave_space current
leave_space-task k = elim (Bool-cases (eqb_ℤ ((uncounted k).refs_dir (home k)) (pos 0))) [
  | inl last ↦ rw last (release_pages-task 20 0 _ (uncounted k))
  | inr others ↦ rw others refl
]

-- What comes after `leave_space`.
abbrev exit_end : Kernel → Kernel
exit_end k = sched_next_rr (parked k)

sys_exit-eq :
    {k : Kernel} {q : QueueMap}
    → Valid k q
    → OwnsNone k
    → sys_exit k ≡ some (exit_end (leave_space k))
unfolding sys_exit current
sys_exit-eq {k} v free =
    let k_1 = leave_space k in
    let kept = leave_space-Kept k in
    let free_1 : OwnsNone k_1 = λ i lo e. free i lo (
      sym (ap (λ f. (f i).owner) kept.semaphores)
      ∙ e
      ∙ ap₂ (λ (f : ℕ → Task) (j : ℕ). (f j).pid) (leave_space-task k) kept.running) in
    let k_2 = set_links (list_add_tail (task_list k_1.running) freequeue) k_1 in
    let k_3 = set_task k_1.running (λ p. record p { pid = neg 1 }) k_2 in
    let runs : (k_3.task k_1.running).estado ≡ st_run =
      ground (arith, kept.estado k_1.running, kept.running, v.current.runs) in
    rw (destroy_owned-none 20 0 k_2 (omega arith) free_1, sys_exit)
      (ap (λ s. some (sched_next_rr s)) (park-eq k_3 k_1.running freequeue runs (omega arith)))

space-exit_end : (k : Kernel) → SameSpace k (exit_end k)
space-exit_end k = let (m, p) = space-next (parked k) in (m, p)

Ended-from :
    {k k_1 k' : Kernel} {q : QueueMap} {xs : List Addr}
    → Kept k k_1
    → Ended k_1 q xs k'
    → Ended k q xs k'
Ended-from {k'} {xs} kept w = record {
  running = subst (λ i. k'.running ≡ elim xs [ [] ↦ i | a ∷ rs ↦ a - 1 ]) kept.idle_task w.running;
  pid = ap (λ i. (k'.task i).pid) (sym kept.running) ∙ w.pid;
  ready = w.ready;
  endless = w.endless;
}

-- `sys_exit` of a task that owns no semaphore ends. The first ready task, or else the idle task, runs,
-- and the others stay ready in their order; the task has PID -1. If it was the last to refer to its
-- directory, its 20 data pages are unmapped and their frames from 257 to 1023 are free, else no
-- page and no frame changes. But the task has been put into `freequeue` twice, so that no walk
-- along `freequeue` comes to an end.
pub sys_exit-Ended :
    {k : Kernel} {q : QueueMap}
    → Valid k q
    → OwnsNone k
    → (k' : Kernel) × (sys_exit k ≡ some k') × Ended k q (q readyqueue) k' × Vacated k k'
sys_exit-Ended {k} {q} v free =
    let kept = leave_space-Kept k in
    let v_1 = same-Valid (Kept-SameLists kept) kept.running v in
    (
      exit_end (leave_space k),
      sys_exit-eq v free,
      Ended-from kept (parked-Ended (q readyqueue) v_1 refl),
      leave_space-Vacated k (exit_end (leave_space k)) (space-exit_end (leave_space k)),
    )
