-- ===== src/Isolation/Sched.antt =====
-- The policy takes up tasks that are alive, and leaves the memory alone.
use so2fib.Common.{ℕ, ◌-◌, ◌≡◌, ◌≢◌, refl, ◌∙◌, ap, true, false, List, [], ◌∷◌, arith, has}
use so2fib.LinkedList.{Addr, null, list_empty, list_first}
use so2fib.LinkedList.Queue.{list_empty_iff, list_first-IsQueue}
use so2fib.LinkedList.Seg.{first}
use so2fib.Task.{Stats, add_system, is_run}
use so2fib.Kernel.{Kernel, task_list, freequeue, readyqueue, is_head, get_ticks, current}
use so2fib.Sched.{
  charge, update_process_state_rr, inner_task_switch, run_next, sched_next_rr, exit_run_current,
}
use so2fib.Sched.Shape.{QueueMap, Shape, state_in}
use so2fib.Sched.Next.{prepared, list_head_to_task_struct-task_list}
use so2fib.Isolation.{alive, Still, Still-trans}

pub alive-running : (k : Kernel) → alive k.running k ≡ true
alive-running k = ground arith

pub alive-idle : (k : Kernel) → alive k.idle_task k ≡ true
alive-idle k = ground arith

state_in-waits : (h : Addr) → is_run (state_in h) ≡ false
state_in-waits h = ground arith

-- Who waits in a list is alive.
pub alive-queued :
    {k : Kernel} {q : QueueMap} (h : Addr) (t : ℕ)
    → Shape k q
    → is_head k.semaphores h ≡ true
    → h ≢ freequeue
    → has (task_list t) (q h) ≡ true
    → alive t k ≡ true
alive-queued {k} h t s hh ne there =
    let waits : is_run (k.task t).estado ≡ false =
      ap is_run (s.queued h t hh ne there) ∙ state_in-waits h in
    ground arith

pub update-Still :
    (t : ℕ) (h : Addr) (k : Kernel) → alive t k ≡ true → Still k (update_process_state_rr t h k)
unfolding update_process_state_rr
update-Still t h k a = record {
  mem = ground arith;
  tables = ground arith;
  dirs = ground arith;
  refs = ground arith;
  dir = λ j. ground arith;
  number = λ j. ground arith;
  break_at = λ j. ground arith;
  was_alive = λ j live. ground arith;
}

pub charge-Still : (add : ℕ → Stats → Stats) (i : ℕ) (k : Kernel) → Still k (charge add i k)
unfolding charge get_ticks
charge-Still add i k = record {
  mem = refl;
  tables = refl;
  dirs = refl;
  refs = refl;
  dir = λ j. ground arith;
  number = λ j. ground arith;
  break_at = λ j. ground arith;
  was_alive = λ j live. ground arith;
}

pub switch-Still : (t : ℕ) (k : Kernel) → alive t k ≡ true → Still k (inner_task_switch t k)
unfolding inner_task_switch current
switch-Still t k a = record {
  mem = refl;
  tables = refl;
  dirs = refl;
  refs = refl;
  dir = λ j. ground arith;
  number = λ j. ground arith;
  break_at = λ j. ground arith;
  was_alive = λ j live. ground arith;
}

prepared-Still : (t : ℕ) (k : Kernel) → Still k (prepared t k)
unfolding charge get_ticks
prepared-Still t k = record {
  mem = refl;
  tables = refl;
  dirs = refl;
  refs = refl;
  dir = λ j. ground arith;
  number = λ j. ground arith;
  break_at = λ j. ground arith;
  was_alive = λ j live. ground arith;
}

taken_up-Still :
    (t : ℕ) (k : Kernel)
    → alive t k ≡ true
    → Still k (inner_task_switch t (update_process_state_rr t null k))
unfolding update_process_state_rr inner_task_switch current
taken_up-Still t k a = record {
  mem = ground arith;
  tables = ground arith;
  dirs = ground arith;
  refs = ground arith;
  dir = λ j. ground arith;
  number = λ j. ground arith;
  break_at = λ j. ground arith;
  was_alive = λ j live. ground arith;
}

alive-prepared : (t : ℕ) (k : Kernel) → alive t k ≡ true → alive t (prepared t k) ≡ true
unfolding charge get_ticks
alive-prepared t k a = ground arith

run_next-Still : (t : ℕ) (k : Kernel) → alive t k ≡ true → Still k (run_next t k)
unfolding run_next
run_next-Still t k a =
    Still-trans (prepared-Still t k) (taken_up-Still t (prepared t k) (alive-prepared t k a))

next-Still :
    {k : Kernel} {q : QueueMap} (xs : List Addr)
    → Shape k q
    → q readyqueue ≡ xs
    → Still k (sched_next_rr k)
unfolding sched_next_rr
next-Still {k} {q} [] s e =
    rw ((list_empty_iff (q readyqueue) (s.queues.queue readyqueue refl)).1 e)
      (switch-Still k.idle_task k (alive-idle k))
next-Still {k} {q} (a ∷ rs) s e =
    let is = s.queues.queue readyqueue refl in
    let (low, _) = s.member readyqueue a refl (rw e (ground arith)) in
    let first_is : list_first readyqueue k.links ≡ task_list (a - 1) =
      list_first-IsQueue (q readyqueue) is ∙ ap (λ ys. first ys readyqueue) e ∙ omega arith in
    let some_ready : list_empty readyqueue k.links ≡ false =
      ground (arith, list_empty_iff (q readyqueue) is) in
    let at : task_list (a - 1) ≡ a = omega arith in
    rw (some_ready, first_is, list_head_to_task_struct-task_list)
      (run_next-Still (a - 1) k
        (alive-queued readyqueue (a - 1) s refl (omega arith) (rw (e, at) (ground arith))))

-- Who runs next was ready, or is the idle task.
pub sched_next_rr-Still : {k : Kernel} {q : QueueMap} → Shape k q → Still k (sched_next_rr k)
sched_next_rr-Still {q} s = next-Still (q readyqueue) s refl

pub exit_run_current-Still : (h : Addr) (k : Kernel) → Still k (exit_run_current h k)
unfolding exit_run_current current
exit_run_current-Still h k =
    let k_1 = charge add_system k.running k in
    Still-trans (charge-Still add_system k.running k)
      (update-Still k_1.running h k_1 (alive-running k_1))
