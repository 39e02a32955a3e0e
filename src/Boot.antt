-- ===== src/Boot.antt =====
-- system.c, sched.c and mm.c: the start of the system, up to the first process.
pub mod Lists
pub mod Start
pub mod Sight
use so2fib.Common.{
  ℕ, zero, suc, ◌+◌, ◌-◌, ◌*◌, ◌^◌, ltb, if◌then◌else◌, Bool, ℤ, pos, neg, ◌+ℤ◌, update,
}
use so2fib.LinkedList.{Addr, init_list_head, list_add, list_first, list_del}
use so2fib.Task.{Task, init_stats, st_run, Semaphore, free_sem}
use so2fib.Frames.{init_frames}
use so2fib.Utils.{Bytes, dword_at, user_first_page, num_pag_code, num_pag_data}
use so2fib.Paging.{init_table_pages, set_user_pages}
use so2fib.Kernel.{
  Kernel, Machine, word, cpu_idle, nr_tasks, nr_semaphores, task_list, freequeue, readyqueue,
  keyboardqueue, list_head_to_task_struct, set_task, set_sem, set_links,
}
use so2fib.Sched.{get_dir}
use so2fib.Space.{seen, get_pt, set_table, set_mem, set_cr3, init_dir_pages}
use so2fib.Space.Mapped.{move_data}
use so2fib.Processes.{allocate_dir, get_dir_position}
use so2fib.Fork.{set_word, kernel_stack_size}

-- `init_table_pages` over `n` tables from row `j` on.
unfoldable pub init_tables : ℕ → ℕ → Kernel → Kernel
init_tables zero j k = k
init_tables (suc n) j k = init_tables n (j + 1) (set_table j init_table_pages k)

unfoldable pub init_mm : Kernel → Kernel
init_mm k =
    let k_1 = init_tables nr_tasks 0 k in
    let k_2 = init_dir_pages (set_mem (init_frames k_1.phys_mem) k_1) in
    let (_, k_3) = allocate_dir 0 k_2 in set_cr3 (get_dir 0 k_3) k_3

-- The loops of `init_sched`, from index `i` on.
unfoldable pub free_tasks : ℕ → ℕ → Kernel → Kernel
free_tasks zero i k = k
free_tasks (suc n) i k =
    free_tasks n (i + 1)
      (set_links (list_add (task_list i) freequeue) (set_task i (λ p. record p { pid = neg 1 }) k))

unfoldable pub clear_refs : ℕ → ℕ → Kernel → Kernel
clear_refs zero i k = k
clear_refs (suc n) i k = clear_refs n (i + 1) (record k { refs_dir = update k.refs_dir i (pos 0) })

unfoldable pub free_sems : ℕ → ℕ → Kernel → Kernel
free_sems zero i k = k
free_sems (suc n) i k =
    free_sems n (i + 1) (set_sem i (λ s. record s { counter = pos 0; state = free_sem }) k)

unfoldable pub init_sched : Kernel → Kernel
init_sched k =
    let k_1 = set_links (λ m. init_list_head freequeue (init_list_head keyboardqueue m)) k in
    let k_2 = set_links (init_list_head readyqueue) (free_tasks nr_tasks 0 k_1) in
    free_sems nr_semaphores 0 (clear_refs nr_tasks 0 k_2)

abbrev pub default_quantum : ℤ
default_quantum = pos 15

-- `HEAP_START`
abbrev pub heap_start : ℕ
heap_start = (user_first_page + num_pag_code + num_pag_data) * 4096

-- `refs_DIR[get_DIR_position(ts)]++`
abbrev pub count_dir : ℕ → Kernel → Kernel
count_dir ts k =
    let i = get_dir_position ts k in
    record k { refs_dir = update k.refs_dir i (k.refs_dir i +ℤ pos 1) }

-- `init_idle` for the first free task, `ts`.
unfoldable pub make_idle : ℕ → Kernel → Kernel
make_idle ts k =
    let k_1 =
      set_task ts
        (λ p. record p { pid = pos 0; quantum = default_quantum; estadisticas = init_stats }) k in
    let (_, k_2) = allocate_dir ts k_1 in
    let k_3 = set_word ts (kernel_stack_size - 1) cpu_idle (count_dir ts k_2) in
    let k_4 = set_word ts (kernel_stack_size - 2) (word 0) k_3 in
    let k_5 =
      set_task ts (λ p. record p { kernel_esp = kernel_stack_size - 2; process_break = heap_start })
        k_4 in
    record k_5 { idle_task = ts }

unfoldable pub init_idle : Kernel → Kernel
init_idle k =
    let aux = list_first freequeue k.links in
    make_idle (list_head_to_task_struct aux) (set_links (list_del aux) k)

-- `init_task1` for the first free task, `ts`.
unfoldable pub make_task_1 : ℕ → Kernel → Kernel
make_task_1 ts k =
    let k_1 =
      set_task ts
        (λ p. record p {
          pid = pos 1;
          quantum = default_quantum;
          estado = st_run;
          process_break = heap_start;
          estadisticas = init_stats;
        })
        (record k { q_left = default_quantum }) in
    let (_, k_2) = allocate_dir ts k_1 in
    let k_3 = count_dir ts k_2 in
    let row = get_pt ts k_3 in
    let (pt, mem) = set_user_pages (k_3.pagusr_table row, k_3.phys_mem) in
    let k_4 = set_mem mem (set_table row (λ _. pt) k_3) in
    record k_4 { machine = record k_4.machine { esp_0 = ts; msr_175 = ts; cr_3 = get_dir ts k_4 } }

unfoldable pub init_task_1 : Kernel → Kernel
init_task_1 k =
    let aux = list_first freequeue k.links in
    make_task_1 (list_head_to_task_struct aux) (set_links (list_del aux) k)

-- `PH_USER_START`: the address of `usr_main`, which stands at the start of the user pages.
abbrev pub usr_main : ℕ
usr_main = 2 ^ 20

abbrev pub kernel_start : ℕ
kernel_start = 2 ^ 16

-- The user program moves from behind the system, by the sizes at `p_sys_size` and `p_usr_size`.
-- Paging is on: the addresses go through the tables that CR3 leads to. The sizes are in a page of
-- the kernel, which is present. False where a page of the
-- copy is not present, with the memory as it is at the page fault.
unfoldable pub move_user : Kernel → Bool × Bytes
move_user k =
    let sys_size = dword_at kernel_start (seen k) in
    let usr_size = dword_at (kernel_start + 4) (seen k) in
    move_data k (if ltb usr_size (2 ^ 31) then usr_size else 0) (kernel_start + sys_size) usr_main
      k.ram

-- `main` of system.c up to the move.
unfoldable pub prepared : Kernel → Kernel
prepared k = init_task_1 (init_idle (init_sched (init_mm k)))

-- `main` of system.c, as far as the kernel's state goes; where the move faults, the state in which
-- it stops. After `return_gate` the processor enters the
-- kernel on the stack in `tss.esp0`, which `current()` finds the task by.
unfoldable pub start : Kernel → Kernel
start k =
    let k_1 = prepared k in record k_1 { ram = (move_user k_1).1; running = k_1.machine.esp_0 }
