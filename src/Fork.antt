-- ===== src/Fork.antt =====
-- sys.c: `sys_fork` and `sys_clone`.
pub mod Birth
pub mod Pages
pub mod Outcome
pub mod Memory
pub mod Loops
pub mod Filled
pub mod Inherit
use so2fib.Common.{
  ℕ, zero, suc, ◌+◌, ◌-◌, ◌*◌, ◌==◌, Bool, true, false, not, ◌||◌, none, some, List, [], ◌∷◌, ℤ,
  pos, neg, ◌+ℤ◌, ltb_ℤ, if◌then◌else◌, update,
}
use so2fib.LinkedList.{Addr, list_empty, list_first, list_del, list_add_tail}
use so2fib.Task.{Task, init_stats, st_ready}
use so2fib.Frames.{PhysMem, num_pag_kernel, alloc_frame, free_frame}
use so2fib.Utils.{num_pag_code, num_pag_data, copy_data, access_ok, verify_read, verify_write}
use so2fib.Paging.{
  PageTable, pag_log_init_code, pag_log_init_data, set_ss_pag, del_ss_pag, get_frame,
}
use so2fib.Kernel.{
  Kernel, Word, word, ret_from_fork, task_list, freequeue, readyqueue, list_head_to_task_struct,
  current, set_task, get_ebp, set_links,
}
use so2fib.Sched.{get_dir}
use so2fib.Space.{get_pt, entry_at, set_table, set_mem, set_cr3, copy_union}
use so2fib.Processes.{allocate_dir}
use so2fib.Write.{efault}

abbrev pub enomem : ℤ
enomem = neg 12

abbrev pub page_size : ℕ
page_size = 4096

-- `for (i = 0; i < n; ++i) pageNew[page + i].entry = pageParent[page + i].entry`
unfoldable pub share_pages : ℕ → ℕ → ℕ → ℕ → Kernel → Kernel
share_pages zero page new parent k = k
share_pages (suc n) page new parent k =
    share_pages n (page + 1) new parent
      (set_table new (λ pt. update pt page (entry_at parent page k)) k)

-- The physical address at which a page of a table begins.
abbrev pub page_addr : ℕ → ℕ → Kernel → ℕ
page_addr row page k = get_frame page (k.pagusr_table row) * page_size

-- The copy of data page `i` of the parent to `frame`, that the parent sees for its time as the page
-- behind its own data; the child's page is `frame` from then on.
unfoldable pub copy_page : ℕ → ℕ → ℕ → ℕ → Kernel → Kernel
copy_page i new parent frame k =
    let from = pag_log_init_data + i in
    let to = pag_log_init_data + num_pag_data + i in
    let k_1 = set_table new (set_ss_pag from frame) k in
    let k_2 = set_table parent (set_ss_pag to frame) k_1 in
    let k_3 = record k_2 {
      ram = copy_data page_size (page_addr parent from k_2) (page_addr parent to k_2) k_2.ram;
    } in
    set_table parent (del_ss_pag to) k_3

-- The frames taken so far are freed, the newest first.
unfoldable pub revert : List ℕ → PhysMem → PhysMem
revert [] mem = mem
revert (frame ∷ frames) mem = revert frames (free_frame frame mem)

-- The loop over the data pages, from page `i` on for `n` pages, with the frames taken before;
-- false where no frame is left.
unfoldable pub copy_pages : ℕ → ℕ → ℕ → ℕ → List ℕ → Kernel → Bool × Kernel
copy_pages zero i new parent frames k = (true, k)
copy_pages (suc n) i new parent frames k =
    let (found, mem) = alloc_frame k.phys_mem in
    elim found [
      | none ↦ (false, set_mem (revert frames mem) k)
      | some frame ↦
          copy_pages n (i + 1) new parent (frame ∷ frames)
            (copy_page i new parent frame (set_mem mem k))
    ]

-- `new->PID = incrementalPID++; new->estado = ST_READY;`
abbrev pub name_task : ℕ → Kernel → Kernel
name_task t k =
    record (set_task t (λ p. record p { pid = k.incremental_pid; estado = st_ready }) k) {
      incremental_pid = k.incremental_pid +ℤ pos 1;
    }

abbrev pub set_word : ℕ → ℕ → Word → Kernel → Kernel
set_word t i w k = record k { stack = update k.stack t (update (k.stack t) i w) }

-- The end of `sys_fork`, from `set_cr3` on. The stack position of `getEbp` is above 0.
unfoldable pub fork_end : Addr → Kernel → ℤ × Kernel
unfolding current
fork_end list_aux k =
    let new = list_head_to_task_struct list_aux in
    let k_1 = name_task new (set_cr3 (get_dir (current k) k) k) in
    let k_2 = set_task new (λ p. record p { estadisticas = init_stats }) k_1 in
    let (i, k_3) = get_ebp k_2 in
    let k_4 = set_word new (i - 1) (word 0) (set_word new i ret_from_fork k_3) in
    let k_5 = set_task new (λ p. record p { kernel_esp = i - 1 }) k_4 in
    ((k_5.task new).pid, set_links (list_add_tail list_aux readyqueue) k_5)

-- `sys_fork` once a directory is found.
unfoldable pub fork_space : Addr → Kernel → ℤ × Kernel
unfolding current
fork_space list_aux k =
    let new = get_pt (list_head_to_task_struct list_aux) k in
    let parent = get_pt (current k) k in
    let k_1 = share_pages num_pag_kernel 1 new parent k in
    let k_2 = share_pages num_pag_code pag_log_init_code new parent k_1 in
    let (done, k_3) = copy_pages num_pag_data 0 new parent [] k_2 in
    if done then fork_end list_aux k_3 else (enomem, k_3)

-- `sys_fork` once the first free task is taken.
unfoldable pub fork_task : Addr → Kernel → ℤ × Kernel
unfolding current
fork_task list_aux k =
    let new = list_head_to_task_struct list_aux in
    let (found, k_1) =
      allocate_dir new (copy_union (current k) new (set_links (list_del list_aux) k)) in
    if ltb_ℤ found (pos 0) then (enomem, k_1) else fork_space list_aux k_1

unfoldable pub sys_fork : Kernel → ℤ × Kernel
sys_fork k =
    if list_empty freequeue k.links then (enomem, k) else fork_task (list_first freequeue k.links) k

-- `KERNEL_STACK_SIZE`
abbrev pub kernel_stack_size : ℕ
kernel_stack_size = 1024

-- `sys_clone` once the first free task is taken.
unfoldable pub clone_task : ℕ → ℕ → Addr → Kernel → ℤ × Kernel
unfolding current
clone_task function stack free_pcb k =
    let thread = list_head_to_task_struct free_pcb in
    let k_1 = copy_union (current k) thread (set_links (list_del free_pcb) k) in
    let dir = (k_1.task (current k_1)).n_directorio in
    let k_2 = record k_1 { refs_dir = update k_1.refs_dir dir (k_1.refs_dir dir +ℤ pos 1) } in
    let (ebp, k_3) = get_ebp k_2 in
    let k_4 = set_task thread (λ p. record p { kernel_esp = ebp }) k_3 in
    let k_5 =
      set_word thread (kernel_stack_size - 5) (word function)
        (set_word thread (kernel_stack_size - 2) (word stack) k_4) in
    let k_6 = set_links (list_add_tail (task_list thread) readyqueue) (name_task thread k_5) in
    let k_7 = set_task thread (λ p. record p { estadisticas = init_stats }) k_6 in
    ((k_7.task thread).pid, k_7)

-- `sys_clone(function, stack)`
unfoldable pub sys_clone : ℕ → ℕ → Kernel → ℤ × Kernel
sys_clone function stack k =
    if not (access_ok verify_write stack 4) || not (access_ok verify_read function 4)
    then (efault, k)
    else if list_empty freequeue k.links
    then (enomem, k)
    else clone_task function stack (list_first freequeue k.links) k
