-- ===== src/Tests/ForkRuns.antt =====
-- New tasks, and what a task's turn takes, on the kernels of `Fixture`.
use so2fib.Common.{
  ℕ, ◌+◌, ◌*◌, ◌≤◌, ◌≡◌, refl, true, [], arith, pos, update, ltb, if◌then◌else◌, eqb_ℤ, sym, ◌≢◌,
  ◌<◌, ◌∙◌,
}
use so2fib.Kernel.{Kernel, current, list_head_to_task_struct}
use so2fib.Utils.{copy_data, access_ok, user_pages, verify_read, verify_write}
use so2fib.Paging.{no_entry, set_ss_pag, del_ss_pag, get_frame}
use so2fib.Frames.{free_mark, alloc_frame, alloc_from}
use so2fib.Sched.{get_dir}
use so2fib.Sched.Shape.{Valid}
use so2fib.Fork.{
  sys_clone, sys_fork, fork_task, fork_space, fork_end, share_pages, copy_page, copy_pages,
}
use so2fib.Space.{get_pt, copy_union, set_cr3}
use so2fib.Processes.{allocate_dir, find_dir}
use so2fib.LinkedList.{list_empty, list_first, list_del, list_add_tail, del_between, add_between}
use so2fib.Fork.Outcome.{spawn_map, Forked, sys_clone-spawns, sys_fork-Forked}
use so2fib.Interrupts.Turn.{ticks, Timed, ready-runs}
use so2fib.Steps.Front.{same-Valid}
use so2fib.Fork.Memory.{data_frame}
use so2fib.Fork.Filled.{Inherits}
use so2fib.Fork.Inherit.{sys_fork-Inherits}
use so2fib.Tests.Fixture.{busy, busy_map, busy-Valid, spare, spare_map, spare-Valid}

data_page : access_ok verify_write (264 * 4096) 4 ≡ true
unfolding access_ok user_pages
data_page = refl

code_page : access_ok verify_read (256 * 4096) 4 ≡ true
unfolding access_ok user_pages
code_page = refl

sys_clone-spawns_example :
    let (r, k') = sys_clone (256 * 4096) (264 * 4096) spare in
    (r ≡ pos 4)
    × Valid k' (spawn_map spare_map 4 [])
    × (k'.running ≡ 1)
    × ((k'.task 4).pid ≡ pos 4)
    × (k'.incremental_pid ≡ pos 5)
    × (get_dir 4 k' ≡ get_dir 1 spare)
sys_clone-spawns_example =
    sys_clone-spawns spare-Valid 4 [] refl (256 * 4096) (264 * 4096) data_page code_page

sys_fork-Forked_example : Forked spare-Valid 4 [] refl (sys_fork spare)
sys_fork-Forked_example = sys_fork-Forked spare-Valid 4 [] refl

-- The kernel with task 4 free, where the tables of directory 1 map the data pages to the frames from
-- 300 on, all frames below 400 are in use, and directory 5 is unused.
abbrev settled : Kernel
settled = record spare {
  pagusr_table = λ row page. record no_entry { present = true; pbase_addr = page + 36 };
  phys_mem = λ x. if ltb x 400 then 1 else 0;
  refs_dir = update spare.refs_dir 5 (pos 0);
}

settled-Valid : Valid settled spare_map
settled-Valid =
    same-Valid (record { links = refl; heads = refl; idle = refl; estado = λ j. refl }) refl
      spare-Valid

settled-result : (sys_fork settled).0 ≡ pos 4
unfolding sys_fork fork_task fork_space share_pages copy_pages copy_page fork_end copy_union get_pt
    get_dir allocate_dir find_dir alloc_frame alloc_from list_empty list_first list_del
    list_add_tail del_between add_between list_head_to_task_struct set_ss_pag del_ss_pag eqb_ℤ
    current get_frame copy_data set_cr3
settled-result = refl

settled-held : settled.refs_dir (get_dir settled.running settled) ≢ pos 0
unfolding get_dir
settled-held h = ground (arith, h)

settled-in_use :
    (j : ℕ)
    → j < 20
    → settled.phys_mem (data_frame (get_pt settled.running settled) j settled) ≢ free_mark
settled-in_use j lo free = ground (arith, free)

sys_fork-Inherits_example :
    let k' = (sys_fork settled).1 in Inherits (get_pt 4 k') (get_pt 1 settled) settled k'
unfolding get_dir
sys_fork-Inherits_example =
    sys_fork-Inherits settled-Valid 4 [] refl (λ i lt. refl) (omega arith) settled-held
      settled-in_use (λ full. cc (sym settled-result ∙ full))

busy-Timed : Timed 15 busy busy_map
busy-Timed = record {
  valid = busy-Valid;
  quanta = λ i. record { ticks_left = 14; is = ground arith; most = omega arith };
  left = record { ticks_left = 0; is = refl; most = omega arith };
}

ready-runs_example : (n : ℕ) × (n ≤ 15) × ((ticks n busy).running ≡ 2)
ready-runs_example = ready-runs 15 2 [] [] busy-Timed refl
