-- ===== src/Exit.antt =====
-- sys.c: `sys_exit`.
pub mod Pages
pub mod Release
pub mod Outcome
use so2fib.Common.{
  ℕ, zero, suc, ◌+◌, ◌==◌, true, false, Option, none, some, ℤ, pos, neg, ◌-ℤ◌, eqb_ℤ, if◌then◌else◌,
  update,
}
use so2fib.LinkedList.{list_add_tail}
use so2fib.Frames.{free_frame}
use so2fib.Utils.{num_pag_data}
use so2fib.Paging.{pag_log_init_data, del_ss_pag, get_frame}
use so2fib.Task.{Semaphore}
use so2fib.Kernel.{Kernel, nr_semaphores, task_list, freequeue, current, set_task, set_links}
use so2fib.Sched.{update_process_state_rr, sched_next_rr}
use so2fib.Semaphores.{sys_sem_destroy}
use so2fib.Space.{get_pt, set_table, set_mem}
use so2fib.Processes.{get_dir_position}

-- The loop over the data pages of a table, from page `p` on for `n` pages.
unfoldable pub release_pages : ℕ → ℕ → ℕ → Kernel → Kernel
release_pages zero p row k = k
release_pages (suc n) p row k =
    let page = pag_log_init_data + p in
    let k_1 = set_mem (free_frame (get_frame page (k.pagusr_table row)) k.phys_mem) k in
    release_pages n (p + 1) row (set_table row (del_ss_pag page) k_1)

-- The first part of `sys_exit`: one task less refers to the directory, and the last one frees the
-- data pages.
unfoldable pub leave_space : Kernel → Kernel
unfolding current
leave_space k =
    let i = get_dir_position (current k) k in
    let k_1 = record k { refs_dir = update k.refs_dir i (k.refs_dir i -ℤ pos 1) } in
    if eqb_ℤ (k_1.refs_dir i) (pos 0)
    then release_pages num_pag_data 0 (get_pt (current k_1) k_1) k_1
    else k_1

-- The loop over the semaphores, from index `i` on; `none` when a call runs out of fuel.
unfoldable pub destroy_owned : ℕ → ℕ → Kernel → Option Kernel
unfolding current
destroy_owned zero i k = some k
destroy_owned (suc n) i k = elim (eqb_ℤ (k.semaphores i).owner (k.task (current k)).pid) [
  | true ↦ elim (sys_sem_destroy (k.semaphores i).n_sem k) [
    | none ↦ none
    | some (_, k_1) ↦ destroy_owned n (i + 1) k_1
  ]
  | false ↦ destroy_owned n (i + 1) k
]

-- `none` when a loop runs out of fuel.
unfoldable pub sys_exit : Kernel → Option Kernel
unfolding current
sys_exit k =
    let k_1 = leave_space k in
    let k_2 = set_links (list_add_tail (task_list (current k_1)) freequeue) k_1 in
    elim (destroy_owned nr_semaphores 0 k_2) [
      | none ↦ none
      | some k_3 ↦
          let k_4 = set_task (current k_3) (λ p. record p { pid = neg 1 }) k_3 in
          some (sched_next_rr (update_process_state_rr (current k_4) freequeue k_4))
    ]
