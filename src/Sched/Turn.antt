-- ===== src/Sched/Turn.antt =====
-- No tick changes a task's quantum.
use so2fib.Common.{ℕ, ◌≡◌, ◌∙◌, arith, Bool-cases, inl, inr, pos, ◌-ℤ◌}
use so2fib.LinkedList.{Addr, list_empty}
use so2fib.Kernel.{Kernel, readyqueue, get_ticks, current}
use so2fib.Sched.{
  charge, update_sched_data_rr, needs_sched_rr, update_process_state_rr, inner_task_switch,
  get_quantum, exit_run_current, run_next, sched_next_rr, schedule,
}
use so2fib.Task.{Stats, add_system, add_ready}
use so2fib.Sched.Rotate.{quantum-exit_run_current}

quantum-charge :
    (add : ℕ → Stats → Stats) (t : ℕ) (k : Kernel) (i : ℕ)
    → ((charge add t k).task i).quantum ≡ (k.task i).quantum
unfolding charge get_ticks
quantum-charge add t k i = ground arith

quantum-update :
    (t h : Addr) (k : Kernel) (i : ℕ)
    → ((update_process_state_rr t h k).task i).quantum ≡ (k.task i).quantum
unfolding update_process_state_rr
quantum-update t h k i = ground arith

quantum-switch :
    (t : ℕ) (k : Kernel) (i : ℕ) → ((inner_task_switch t k).task i).quantum ≡ (k.task i).quantum
unfolding inner_task_switch current
quantum-switch t k i = ground arith

quantum-run_next :
    (t : ℕ) (k : Kernel) (i : ℕ) → ((run_next t k).task i).quantum ≡ (k.task i).quantum
unfolding run_next
quantum-run_next t k i =
    quantum-switch t _ i
    ∙ quantum-update t 0 _ i
    ∙ ground (
      arith,
      quantum-charge add_ready t (charge add_system t (record k { q_left = get_quantum t k })) i,
      quantum-charge add_system t (record k { q_left = get_quantum t k }) i,
    )

quantum-next : (k : Kernel) (i : ℕ) → ((sched_next_rr k).task i).quantum ≡ (k.task i).quantum
unfolding sched_next_rr
quantum-next k i = elim (Bool-cases (list_empty readyqueue k.links)) [
  | inl e ↦ rw e (quantum-switch k.idle_task k i)
  | inr e ↦ rw e (quantum-run_next _ k i)
]

quantum-needs : (k : Kernel) (i : ℕ) → ((needs_sched_rr k).1.task i).quantum ≡ (k.task i).quantum
unfolding needs_sched_rr current
quantum-needs k i = ground arith

pub quantum-schedule : (k : Kernel) (i : ℕ) → ((schedule k).task i).quantum ≡ (k.task i).quantum
unfolding schedule update_sched_data_rr
quantum-schedule k i =
    let k_1 = record k { q_left = k.q_left -ℤ pos 1 } in
    elim (Bool-cases (needs_sched_rr k_1).0) [
      | inr stay ↦ rw stay (quantum-needs k_1 i)
      | inl go ↦ rw go (
          quantum-next (exit_run_current readyqueue (needs_sched_rr k_1).1) i
          ∙ quantum-exit_run_current readyqueue (needs_sched_rr k_1).1 i
          ∙ quantum-needs k_1 i)
    ]
