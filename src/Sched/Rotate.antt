-- ===== src/Sched/Rotate.antt =====
-- `schedule`, at each tick of the clock: round robin.
use so2fib.Common.{
  ℕ, ◌≡◌, refl, ◌≢◌, ◌⊎◌, inl, inr, true, false, List, [], ◌∷◌, ◌++◌, update, arith, ◌∙◌, subst,
  pos, ◌-ℤ◌, ap, Bool-cases, eqb_ℤ, eqb_ℤ-of_eq, eqb_ℤ-of_ne, -ℤ-one_ne, update-update,
}
use so2fib.LinkedList.{Addr, list_empty}
use so2fib.LinkedList.Queue.{list_empty_iff}
use so2fib.Task.{add_system, add_trans}
use so2fib.Kernel.{Kernel, task_list, readyqueue, is_head, set_stats, get_ticks, current}
use so2fib.Sched.{
  charge, get_quantum, update_sched_data_rr, needs_sched_rr, update_process_state_rr,
  exit_run_current, sched_next_rr, schedule,
}
use so2fib.Sched.Shape.{QueueMap, Shape, Valid}
use so2fib.Sched.Place.{park-eq, head-ne-null, enter-Shape}
use so2fib.Sched.Next.{SameLists, IsRunning-same, Shape-same, charge-SameLists, sched_next_rr-ready}

exit_run_current-eq :
    (h : Addr) (k : Kernel)
    → exit_run_current h k ≡ update_process_state_rr k.running h (charge add_system k.running k)
unfolding exit_run_current charge get_ticks current
exit_run_current-eq h k = refl

-- `exitRunCurrent` puts the current task behind the others in the list of `h`.
pub exit_run_current-Shape :
    {k : Kernel} {q : QueueMap} (h : Addr)
    → is_head k.semaphores h ≡ true
    → Valid k q
    → (k.running ≢ k.idle_task) ⊎ (h ≡ readyqueue)
    → Shape (exit_run_current h k) (update q h (q h ++ task_list k.running ∷ []))
unfolding charge get_ticks
exit_run_current-Shape {k} {q} h hh v other =
    let same = charge-SameLists add_system k.running k in
    let run = same.estado k.running ∙ v.current.runs in
    rw
      (
        exit_run_current-eq h k,
        park-eq (charge add_system k.running k) k.running h run (head-ne-null k.semaphores h hh),
      )
      (enter-Shape (Shape-same same v.shape) k.running h hh (IsRunning-same same v.current)
        (rw same.idle other))

-- The task that `exitRunCurrent` puts away is still the current one.
running-exit_run_current : (h : Addr) (k : Kernel) → (exit_run_current h k).running ≡ k.running
unfolding exit_run_current charge get_ticks current update_process_state_rr
running-exit_run_current h k = ground arith

pub idle_task-exit_run_current :
    (h : Addr) (k : Kernel) → (exit_run_current h k).idle_task ≡ k.idle_task
unfolding exit_run_current charge get_ticks current update_process_state_rr
idle_task-exit_run_current h k = ground arith

pub quantum-exit_run_current :
    (h : Addr) (k : Kernel) (i : ℕ) → ((exit_run_current h k).task i).quantum ≡ (k.task i).quantum
unfolding exit_run_current charge get_ticks current update_process_state_rr
quantum-exit_run_current h k i = ground arith

needs_sched_rr-no : (k : Kernel) → eqb_ℤ k.q_left (pos 0) ≡ false → needs_sched_rr k ≡ (false, k)
unfolding needs_sched_rr
needs_sched_rr-no k more = elim (Bool-cases (list_empty readyqueue k.links)) [
  | inl e ↦ rw (e, more)
  | inr e ↦ rw (e, more)
]

needs_sched_rr-yes :
    (k : Kernel)
    → eqb_ℤ k.q_left (pos 0) ≡ true
    → list_empty readyqueue k.links ≡ false
    → needs_sched_rr k ≡ (true, k)
unfolding needs_sched_rr
needs_sched_rr-yes k over e = rw (e, over)

-- The current task with a new quantum, and the switch counted.
abbrev renewed : Kernel → Kernel
renewed k =
    let counted = set_stats (current k) add_trans k in
    record counted { q_left = get_quantum (current counted) counted }

quantum-renewed : (k : Kernel) → (renewed k).q_left ≡ (k.task k.running).quantum
unfolding current get_quantum
quantum-renewed k = ground arith

needs_sched_rr-renew :
    (k : Kernel)
    → eqb_ℤ k.q_left (pos 0) ≡ true
    → list_empty readyqueue k.links ≡ true
    → needs_sched_rr k ≡ (false, renewed k)
unfolding needs_sched_rr
needs_sched_rr-renew k over e = rw (e, over)

used_up : (k : Kernel) → k.q_left ≡ pos 1 → eqb_ℤ (update_sched_data_rr k).q_left (pos 0) ≡ true
unfolding update_sched_data_rr
used_up k e = eqb_ℤ-of_eq (k.q_left -ℤ pos 1) (pos 0) (ground arith)

counted-Valid : {k : Kernel} {q : QueueMap} → Valid k q → Valid (update_sched_data_rr k) q
unfolding update_sched_data_rr
counted-Valid {k} v =
    let same : SameLists k (update_sched_data_rr k) = record {
      links = refl;
      heads = refl;
      idle = refl;
      estado = λ j. refl;
    } in
    record { shape = Shape-same same v.shape; current = IsRunning-same same v.current }

renewed-Valid : {k : Kernel} {q : QueueMap} → Valid k q → Valid (renewed k) q
unfolding current
renewed-Valid {k} v =
    let same : SameLists k (renewed k) = record {
      links = refl;
      heads = refl;
      idle = refl;
      estado = λ j. ground arith;
    } in
    record { shape = Shape-same same v.shape; current = IsRunning-same same v.current }

-- While the quantum is not used up, `schedule` only counts the tick.
pub schedule-count :
    (k : Kernel) → k.q_left ≢ pos 1 → schedule k ≡ record k { q_left = k.q_left -ℤ pos 1 }
unfolding schedule update_sched_data_rr
schedule-count k ne =
    let k_1 = record k { q_left = k.q_left -ℤ pos 1 } in
    rw (needs_sched_rr-no k_1 (eqb_ℤ-of_ne k_1.q_left (pos 0) (-ℤ-one_ne k.q_left ne)))

-- When it is used up and nobody is ready, the current task goes on with a new quantum.
pub schedule-alone :
    {k : Kernel} {q : QueueMap}
    → Valid k q
    → k.q_left ≡ pos 1
    → q readyqueue ≡ []
    → Valid (schedule k) q
      × ((schedule k).running ≡ k.running)
      × ((schedule k).q_left ≡ (k.task k.running).quantum)
unfolding schedule update_sched_data_rr
schedule-alone {k} {q} v e none_ready =
    let v_1 = counted-Valid v in
    let empty =
      (list_empty_iff (q readyqueue) (v_1.shape.queues.queue readyqueue refl)).1 none_ready in
    rw (needs_sched_rr-renew (update_sched_data_rr k) (used_up k e) empty)
      (renewed-Valid v_1, refl, quantum-renewed (update_sched_data_rr k))

-- When it is used up and others are ready, the current task goes behind them and the first of
-- them runs, with the quantum of the task that leaves.
pub schedule-rotate :
    {k : Kernel} {q : QueueMap} (t : ℕ) (rs : List Addr)
    → Valid k q
    → k.q_left ≡ pos 1
    → q readyqueue ≡ task_list t ∷ rs
    → Valid (schedule k) (update q readyqueue (rs ++ task_list k.running ∷ []))
      × ((schedule k).running ≡ t)
      × ((schedule k).q_left ≡ (k.task k.running).quantum)
unfolding schedule update_sched_data_rr
schedule-rotate {k} {q} t rs v e ready =
    let k_1 = update_sched_data_rr k in
    let v_1 = counted-Valid v in
    let is = v_1.shape.queues.queue readyqueue refl in
    let others : list_empty readyqueue k_1.links ≡ false =
      ground (arith, list_empty_iff (q readyqueue) is) in
    let left = exit_run_current-Shape readyqueue refl v_1 (inr refl) in
    let next =
      sched_next_rr-ready t (rs ++ task_list k_1.running ∷ []) left
        (ap (λ xs. xs ++ task_list k_1.running ∷ []) ready) in
    rw (needs_sched_rr-yes k_1 (used_up k e) others) (
      subst (Valid (sched_next_rr (exit_run_current readyqueue k_1)))
          (update-update q readyqueue _ _) next.0,
      next.1,
      next.2
          ∙ ap (λ i. ((exit_run_current readyqueue k_1).task i).quantum)
              (running-exit_run_current readyqueue k_1)
          ∙ quantum-exit_run_current readyqueue k_1 k.running,
    )
