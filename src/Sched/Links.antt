-- ===== src/Sched/Links.antt =====
-- `sched_next_rr` on lists and PIDs, whatever the other lists are.
use so2fib.Common.{ℕ, ◌≡◌, ◌≢◌, refl, ◌∙◌, ap, sym, true, false, Bool-cases, inl, inr, arith}
use so2fib.LinkedList.{Addr, list_empty, list_first, list_del}
use so2fib.Task.{Stats, add_system, add_ready, st_run, st_ready}
use so2fib.Kernel.{Kernel, task_list, readyqueue, current, get_ticks}
use so2fib.Sched.{
  charge, update_process_state_rr, inner_task_switch, get_quantum, run_next, sched_next_rr,
}
use so2fib.Sched.Place.{run-eq}
use so2fib.Sched.Next.{list_head_to_task_struct-task_list, prepared, prepared-SameLists}

pid-switch : (t : ℕ) (k : Kernel) (j : ℕ) → ((inner_task_switch t k).task j).pid ≡ (k.task j).pid
unfolding inner_task_switch current
pid-switch t k j = ground arith

pid-charge :
    (add : ℕ → Stats → Stats) (t : ℕ) (k : Kernel) (j : ℕ)
    → ((charge add t k).task j).pid ≡ (k.task j).pid
unfolding charge get_ticks
pid-charge add t k j = ground arith

pid-update :
    (t h : Addr) (k : Kernel) (j : ℕ)
    → ((update_process_state_rr t h k).task j).pid ≡ (k.task j).pid
unfolding update_process_state_rr
pid-update t h k j = ground arith

pid-run_next : (t : ℕ) (k : Kernel) (j : ℕ) → ((run_next t k).task j).pid ≡ (k.task j).pid
unfolding run_next
pid-run_next t k j =
    let k_1 = record k { q_left = get_quantum t k } in
    pid-switch t _ j
    ∙ pid-update t 0 _ j
    ∙ ground
        (arith, pid-charge add_ready t (charge add_system t k_1) j, pid-charge add_system t k_1 j)

-- How `sched_next_rr` ends, for a kernel of which the ready list alone need be well formed.
module _ (k : Kernel) where
  pub next_idle :
      list_empty readyqueue k.links ≡ true
      → ((sched_next_rr k).links ≡ k.links) × ((sched_next_rr k).running ≡ k.idle_task)
  unfolding sched_next_rr inner_task_switch current
  next_idle e = rw e (refl, refl)

  pub next_ready :
      (t : ℕ)
      → list_empty readyqueue k.links ≡ false
      → list_first readyqueue k.links ≡ task_list t
      → (k.task t).estado ≡ st_ready
      → ((sched_next_rr k).links ≡ list_del (task_list t) k.links) × ((sched_next_rr k).running ≡ t)
  unfolding sched_next_rr run_next inner_task_switch current
  next_ready t e f ready =
      let same = prepared-SameLists t k in
      let waits : ((prepared t k).task t).estado ≢ st_run =
        λ run. cc (sym (same.estado t ∙ ready) ∙ run) in
      rw (e, f, list_head_to_task_struct-task_list t, run-eq (prepared t k) t waits)
        (ap (list_del (task_list t)) same.links, refl)

  pub pid-next : (j : ℕ) → ((sched_next_rr k).task j).pid ≡ (k.task j).pid
  unfolding sched_next_rr
  pid-next j = elim (Bool-cases (list_empty readyqueue k.links)) [
    | inl e ↦ rw e (pid-switch k.idle_task k j)
    | inr e ↦ rw e (pid-run_next _ k j)
  ]
