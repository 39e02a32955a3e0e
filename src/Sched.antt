-- ===== src/Sched.antt =====
-- sched.c: the round-robin policy, the change of process, and the time accounting.
pub mod Shape
pub mod Place
pub mod Next
pub mod Rotate
pub mod Wake
pub mod Turn
pub mod Sems
pub mod Links
use so2fib.Common.{
  ℕ, ◌+◌, ◌-◌, ◌==◌, ◌&&◌, not, Bool, true, false, ℤ, pos, ◌-ℤ◌, eqb_ℤ, if◌then◌else◌, update,
}
use so2fib.LinkedList.{Addr, null, list_empty, list_first, list_del, list_add_tail}
use so2fib.Task.{
  Stats, add_user, add_system, add_ready, set_elapsed, add_trans, State, st_run, st_ready,
  st_blocked, is_run, Task,
}
use so2fib.Kernel.{
  Kernel, Machine, task_list, readyqueue, list_head_to_task_struct, current, get_ticks, set_task,
  get_ebp, set_stats, set_links,
}

unfoldable pub get_dir : ℕ → Kernel → ℕ
get_dir t k = (k.task t).dir_pages_base_addr

-- `get_quantum(t)`, which looks at the current task whatever `t` is.
unfoldable pub get_quantum : ℕ → Kernel → ℤ
unfolding current
get_quantum t k = (k.task (current k)).quantum

unfoldable pub set_quantum : ℕ → ℤ → Kernel → Kernel
unfolding current
set_quantum t q k = set_task (current k) (λ p. record p { quantum = q }) k

-- Two statements that recur: a counter grows by the ticks since the last reading of the clock,
-- which is read again and stored.
unfoldable pub charge : (ℕ → Stats → Stats) → ℕ → Kernel → Kernel
charge add i k =
    let (t, k_1) = get_ticks k in
    let (u, k_2) = get_ticks (set_stats i (add t) k_1) in set_stats i (set_elapsed u) k_2

unfoldable pub stats_entry_sys : Kernel → Kernel
stats_entry_sys k = charge add_user (current k) k

unfoldable pub stats_leave_sys : Kernel → Kernel
stats_leave_sys k = charge add_system (current k) k

unfoldable pub update_sched_data_rr : Kernel → Kernel
update_sched_data_rr k = record k { q_left = k.q_left -ℤ pos 1 }

unfoldable pub needs_sched_rr : Kernel → Bool × Kernel
needs_sched_rr k =
    let p_waiting = not (list_empty readyqueue k.links) in
    let counted = set_stats (current k) add_trans k in
    if p_waiting && eqb_ℤ k.q_left (pos 0)
    then (true, k)
    else if not p_waiting && eqb_ℤ k.q_left (pos 0)
    then (false, record counted { q_left = get_quantum (current counted) counted })
    else (false, k)

-- `dst_queue` is `null` for NULL.
unfoldable pub update_process_state_rr : ℕ → Addr → Kernel → Kernel
update_process_state_rr t dst_queue k =
    let k_1 = if is_run (k.task t).estado then k else set_links (list_del (task_list t)) k in
    if dst_queue == null
    then set_task t (λ p. record p { estado = st_run }) k_1
    else set_task t
        (λ p. record p { estado = if dst_queue == readyqueue then st_ready else st_blocked })
        (set_links (list_add_tail (task_list t) dst_queue) k_1)

-- `task_switch` of entry.S calls `inner_task_switch`, which saves the stack of the current task
-- and takes up that of `t`; from there on `current()` is `t`.
unfoldable pub inner_task_switch : ℕ → Kernel → Kernel
inner_task_switch t k =
    let m = record k.machine { esp_0 = t; msr_175 = t; cr_3 = get_dir t k } in
    let (ebp, k_1) = get_ebp (record k { machine = m }) in
    record (set_task (current k) (λ p. record p { kernel_esp = ebp }) k_1) { running = t }

-- `sched_next_rr` when `readyqueue` is not empty, for its first task.
unfoldable pub run_next : ℕ → Kernel → Kernel
run_next t k =
    let k_1 = record k { q_left = get_quantum t k } in
    let k_2 = set_stats t add_trans (charge add_ready t (charge add_system t k_1)) in
    inner_task_switch t (update_process_state_rr t null k_2)

unfoldable pub sched_next_rr : Kernel → Kernel
sched_next_rr k =
    if list_empty readyqueue k.links
    then inner_task_switch k.idle_task k
    else run_next (list_head_to_task_struct (list_first readyqueue k.links)) k

unfoldable pub exit_run_current : Addr → Kernel → Kernel
exit_run_current next_list_current k =
    let k_1 = charge add_system (current k) k in
    update_process_state_rr (current k_1) next_list_current k_1

unfoldable pub schedule : Kernel → Kernel
schedule k =
    let (needed, k_1) = needs_sched_rr (update_sched_data_rr k) in
    if needed then sched_next_rr (exit_run_current readyqueue k_1) else k_1
