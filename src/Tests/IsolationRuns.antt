-- ===== src/Tests/IsolationRuns.antt =====
-- Runs from the start of the system, with what they do to the memory.
use so2fib.Common.{some, ℕ, ◌≡◌, refl, ◌∙◌, sym, pos, arith}
use so2fib.LinkedList.{
  list_empty, list_first, list_del, list_add, list_add_tail, del_between, add_between,
  init_list_head,
}
use so2fib.Kernel.{Kernel, list_head_to_task_struct, current}
use so2fib.Frames.{alloc_frame, alloc_from, init_frames, fill}
use so2fib.Paging.{
  set_ss_pag, del_ss_pag, get_frame, clear_pages, map_kernel, init_table_pages, map_user,
  set_user_pages, frame_bits,
}
use so2fib.Utils.{copy_data}
use so2fib.Sched.{get_dir}
use so2fib.Space.{get_pt, set_cr3, copy_union, init_dirs, init_dir_pages}
use so2fib.Processes.{find_dir, allocate_dir, get_dir_position}
use so2fib.Boot.{
  init_tables, init_mm, free_tasks, clear_refs, free_sems, init_sched, make_idle, init_idle,
  make_task_1, init_task_1, prepared, start, move_user,
}
use so2fib.Fork.{
  enomem, sys_fork, fork_task, fork_space, share_pages, copy_pages, copy_page, fork_end,
}
use so2fib.Common.{eqb_ℤ, ◌⊎◌}
use so2fib.Interrupts.{clock_rutine}
use so2fib.Processes.{to_unsigned}
use so2fib.Sbrk.{clamp, sys_sbrk}
use so2fib.Sbrk.Grow.{break_of}
use so2fib.Steps.{tick, fork}
use so2fib.Isolation.{IsIsolated}
use so2fib.Isolation.Heap.{asked_break, asked_page}
use so2fib.Exit.{sys_exit}
use so2fib.Exit.Release.{OwnsNone}
use so2fib.Isolation.Exit.{Spares}
use so2fib.Isolation.Always.{
  start-Runs-exit, Runs, begins, goes_on, start-Runs-IsIsolated, Child, start-Runs-Child,
  start-Runs-sbrk,
}
use so2fib.Tests.Fixture.{alone}

-- The first process forks.
abbrev one_child : Kernel
one_child = (sys_fork (start alone)).1

second_child : (sys_fork one_child).0 ≡ pos 5
unfolding sys_fork fork_task fork_space share_pages copy_pages copy_page fork_end copy_union get_pt
    get_dir allocate_dir find_dir alloc_frame alloc_from list_empty list_first list_del list_add
    list_add_tail del_between add_between list_head_to_task_struct set_ss_pag del_ss_pag eqb_ℤ
    current get_frame copy_data set_cr3 init_tables init_mm free_tasks clear_refs free_sems
    init_sched make_idle init_idle make_task_1 init_task_1 prepared start move_user init_dirs
    init_dir_pages get_dir_position init_frames fill clear_pages map_kernel init_table_pages
    map_user set_user_pages frame_bits init_list_head
second_child = refl

asked : asked_page (pos 4096) one_child ≡ 285
unfolding sys_fork fork_task fork_space share_pages copy_pages copy_page fork_end copy_union get_pt
    get_dir allocate_dir find_dir alloc_frame alloc_from list_empty list_first list_del list_add
    list_add_tail del_between add_between list_head_to_task_struct set_ss_pag del_ss_pag eqb_ℤ
    current get_frame copy_data set_cr3 init_tables init_mm free_tasks clear_refs free_sems
    init_sched make_idle init_idle make_task_1 init_task_1 prepared start move_user init_dirs
    init_dir_pages get_dir_position init_frames fill clear_pages map_kernel init_table_pages
    map_user set_user_pages frame_bits init_list_head clamp
asked = refl

abbrev run : Runs (start alone) one_child
run = goes_on begins (fork refl) tt

-- A tick, and then the first process forks.
start-Runs-IsIsolated_example : IsIsolated (sys_fork (clock_rutine (start alone))).1
start-Runs-IsIsolated_example =
    start-Runs-IsIsolated alone (λ j. refl) (goes_on (goes_on begins (tick refl) tt) (fork refl) tt)

start-Runs-Child_example : (t : ℕ) × Child one_child t
start-Runs-Child_example =
    start-Runs-Child alone (λ j. refl) run (λ full. cc (sym second_child ∙ full))

start-Runs-sbrk_example :
    let (r, k') = sys_sbrk (pos 4096) one_child in
    (((r ≡ to_unsigned enomem) × (k' ≡ one_child))
      ⊎ ((r ≡ break_of one_child) × (break_of k' ≡ asked_break (pos 4096) one_child)))
    × (k'.pagusr_table ≡ one_child.pagusr_table)
    × (k'.phys_mem ≡ one_child.phys_mem)
start-Runs-sbrk_example =
    start-Runs-sbrk alone (pos 4096) (λ j. refl) run
      (λ out. let same : 285 ≡ 1024 = sym asked ∙ out in absurd (omega arith))

-- A memory in which nobody owns a semaphore.
abbrev ownerless : Kernel
ownerless = record alone { semaphores = λ _. alone.semaphores 1 }

abbrev ownerless_child : Kernel
ownerless_child = (sys_fork (start ownerless)).1

ownerless_child-OwnsNone : OwnsNone ownerless_child
unfolding sys_fork fork_task fork_space share_pages copy_pages copy_page fork_end copy_union get_pt
    get_dir allocate_dir find_dir alloc_frame alloc_from list_empty list_first list_del list_add
    list_add_tail del_between add_between list_head_to_task_struct set_ss_pag del_ss_pag eqb_ℤ
    current get_frame copy_data set_cr3 init_tables init_mm free_tasks clear_refs free_sems
    init_sched make_idle init_idle make_task_1 init_task_1 prepared start move_user init_dirs
    init_dir_pages get_dir_position init_frames fill clear_pages map_kernel init_table_pages
    map_user set_user_pages frame_bits init_list_head
ownerless_child-OwnsNone i lt e = ground (arith, e)

-- The first process forks and ends.
start-Runs-exit_example :
    (k : Kernel) × (sys_exit ownerless_child ≡ some k) × Spares ownerless_child k
start-Runs-exit_example =
    start-Runs-exit ownerless (λ j. refl) (goes_on begins (fork refl) tt) ownerless_child-OwnsNone
