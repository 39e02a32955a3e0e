-- ===== src/Sched/Sems.antt =====
-- The policy touches no semaphore.
use so2fib.Common.{ℕ, ◌≡◌, refl, ◌∙◌, inl, inr, Bool-cases, arith}
use so2fib.LinkedList.{Addr, list_empty}
use so2fib.Kernel.{Kernel, readyqueue, get_ticks, current}
use so2fib.Sched.{
  charge, update_sched_data_rr, needs_sched_rr, update_process_state_rr, inner_task_switch,
  run_next, sched_next_rr, exit_run_current, schedule,
}
use so2fib.Sched.Place.{update_process_state_rr-rest}
use so2fib.Sched.Next.{prepared}

pub semaphores-update :
    (t h : Addr) (k : Kernel) → (update_process_state_rr t h k).semaphores ≡ k.semaphores
semaphores-update t h k = (update_process_state_rr-rest t h k).2

semaphores-run_next : (t : ℕ) (k : Kernel) → (run_next t k).semaphores ≡ k.semaphores
unfolding run_next inner_task_switch current charge get_ticks
semaphores-run_next t k = semaphores-update t 0 (prepared t k)

pub semaphores-sched_next_rr : (k : Kernel) → (sched_next_rr k).semaphores ≡ k.semaphores
unfolding sched_next_rr inner_task_switch current
semaphores-sched_next_rr k = elim (Bool-cases (list_empty readyqueue k.links)) [
  | inl e ↦ rw e refl
  | inr e ↦ rw e (semaphores-run_next _ k)
]

pub semaphores-exit_run_current :
    (h : Addr) (k : Kernel) → (exit_run_current h k).semaphores ≡ k.semaphores
unfolding exit_run_current charge get_ticks current
semaphores-exit_run_current h k = semaphores-update k.running h _

semaphores-needs_sched_rr : (k : Kernel) → (needs_sched_rr k).1.semaphores ≡ k.semaphores
unfolding needs_sched_rr
semaphores-needs_sched_rr k = ground arith

pub semaphores-schedule : (k : Kernel) → (schedule k).semaphores ≡ k.semaphores
unfolding schedule update_sched_data_rr
semaphores-schedule k =
    let (needed, k_1) = needs_sched_rr (update_sched_data_rr k) in
    let same : k_1.semaphores ≡ k.semaphores = semaphores-needs_sched_rr (update_sched_data_rr k) in
    elim (Bool-cases needed) [
      | inl due ↦
          rw due (semaphores-sched_next_rr _ ∙ semaphores-exit_run_current readyqueue k_1 ∙ same)
      | inr stays ↦ rw stays same
    ]
