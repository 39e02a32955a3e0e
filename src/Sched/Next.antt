-- ===== src/Sched/Next.antt =====
-- `sched_next_rr`: who runs next.
use so2fib.Common.{
  ℕ, ◌-◌, ◌≡◌, refl, true, false, List, [], ◌∷◌, has, update, arith, subst, sym, ap, ◌∙◌, update-id,
  drop,
}
use so2fib.LinkedList.{Addr, list_empty, list_first}
use so2fib.LinkedList.Seg.{first}
use so2fib.LinkedList.Queue.{list_empty_iff, list_first-IsQueue}
use so2fib.LinkedList.Family.{Queues, IsLoose}
use so2fib.Task.{Stats, add_system, add_ready, add_trans}
use so2fib.Kernel.{
  Kernel, task_list, readyqueue, is_head, set_stats, get_ticks, list_head_to_task_struct, current,
}
use so2fib.Sched.{
  charge, get_quantum, update_process_state_rr, inner_task_switch, run_next, sched_next_rr,
}
use so2fib.Sched.Shape.{QueueMap, IsRunning, Shape, Valid}
use so2fib.Sched.Place.{run-eq, leave-Shape, leave-IsRunning}

-- A change that leaves lists and states alone.
pub record SameLists (k k' : Kernel) : Type 0 where
  pub links : k'.links ≡ k.links
  pub heads : is_head k'.semaphores ≡ is_head k.semaphores
  pub idle : k'.idle_task ≡ k.idle_task
  pub estado : (i : ℕ) → (k'.task i).estado ≡ (k.task i).estado

pub IsRunning-same :
    {k k' : Kernel} {q : QueueMap} {i : ℕ} → SameLists k k' → IsRunning k q i → IsRunning k' q i
IsRunning-same {q} {i} same r = record {
  in_table = r.in_table;
  loose = subst (λ is. IsLoose is q (task_list i)) (sym same.heads) r.loose;
  runs = same.estado i ∙ r.runs;
}

was_head :
    {k k' : Kernel}
    → SameLists k k'
    → (h : Addr) → is_head k'.semaphores h ≡ true
    → is_head k.semaphores h ≡ true
was_head same h e = sym (ap (λ is. is h) same.heads) ∙ e

pub Shape-same : {k k' : Kernel} {q : QueueMap} → SameLists k k' → Shape k q → Shape k' q
Shape-same {k} {k'} {q} same s = record {
  queues =
      subst (λ is. Queues is k'.links q) (sym same.heads)
        (subst (λ m. Queues (is_head k.semaphores) m q) (sym same.links) s.queues);
  member = λ h a hh i. s.member h a (was_head same h hh) i;
  queued = λ h i hh ne i_in. same.estado i ∙ s.queued h i (was_head same h hh) ne i_in;
  idle = λ out. subst (IsRunning k' q) (sym same.idle) (
      IsRunning-same same
        (s.idle (subst (λ i. has (task_list i) (q readyqueue) ≡ false) same.idle out)));
}

pub charge-SameLists : (add : ℕ → Stats → Stats) (i : ℕ) (k : Kernel) → SameLists k (charge add i k)
unfolding charge get_ticks
charge-SameLists add i k = record {
  links = refl;
  heads = refl;
  idle = refl;
  estado = λ j. ground arith;
}

switch-SameLists : (t : ℕ) (k : Kernel) → SameLists k (inner_task_switch t k)
unfolding inner_task_switch current
switch-SameLists t k = record {
  links = refl;
  heads = refl;
  idle = refl;
  estado = λ j. ground arith;
}

running-switch : (t : ℕ) (k : Kernel) → (inner_task_switch t k).running ≡ t
unfolding inner_task_switch
running-switch t k = refl

switch-Valid :
    {k : Kernel} {q : QueueMap} (t : ℕ)
    → Shape k q
    → IsRunning k q t
    → Valid (inner_task_switch t k) q
switch-Valid {k} {q} t s r = record {
  shape = Shape-same (switch-SameLists t k) s;
  current =
      subst (IsRunning (inner_task_switch t k) q) (sym (running-switch t k))
        (IsRunning-same (switch-SameLists t k) r);
}

-- What `run_next` does before it takes the task out of the list.
abbrev pub prepared : ℕ → Kernel → Kernel
prepared t k =
    set_stats t add_trans
      (charge add_ready t (charge add_system t (record k { q_left = get_quantum t k })))

pub prepared-SameLists : (t : ℕ) (k : Kernel) → SameLists k (prepared t k)
unfolding charge get_ticks
prepared-SameLists t k = record {
  links = refl;
  heads = refl;
  idle = refl;
  estado = λ j. ground arith;
}

run_next-Valid :
    {k : Kernel} {q : QueueMap} (t : ℕ) (rs : List Addr)
    → Shape k q
    → q readyqueue ≡ task_list t ∷ rs
    → Valid (run_next t k) (update q readyqueue rs)
unfolding run_next
run_next-Valid {k} {q} t rs s e =
    let s' = Shape-same (prepared-SameLists t k) s in
    let ready = s'.queued readyqueue t refl (omega arith) (rw e (ground arith)) in
    rw (run-eq (prepared t k) t (ground arith)) (
      switch-Valid t (leave-Shape s' readyqueue [] t rs refl e)
        (leave-IsRunning s' readyqueue [] t rs refl e))

run_next-running : (t : ℕ) (k : Kernel) → (run_next t k).running ≡ t
unfolding run_next
run_next-running t k = running-switch t _

run_next-q_left : (t : ℕ) (k : Kernel) → (run_next t k).q_left ≡ (k.task k.running).quantum
unfolding run_next inner_task_switch update_process_state_rr charge get_ticks get_quantum current
run_next-q_left t k = ground arith

pub list_head_to_task_struct-task_list : (t : ℕ) → list_head_to_task_struct (task_list t) ≡ t
unfolding list_head_to_task_struct
list_head_to_task_struct-task_list t = ground arith

-- With nobody ready, the idle task runs next, and no list changes.
sched_next_rr-idle :
    {k : Kernel} {q : QueueMap}
    → Shape k q
    → q readyqueue ≡ []
    → Valid (sched_next_rr k) q × ((sched_next_rr k).running ≡ k.idle_task)
unfolding sched_next_rr
sched_next_rr-idle {k} {q} s e =
    rw ((list_empty_iff (q readyqueue) (s.queues.queue readyqueue refl)).1 e)
      (switch-Valid k.idle_task s (s.idle (rw e)), running-switch k.idle_task k)

-- Otherwise the first ready task leaves the list and runs, with the quantum of the task that was
-- current before.
pub sched_next_rr-ready :
    {k : Kernel} {q : QueueMap} (t : ℕ) (rs : List Addr)
    → Shape k q
    → q readyqueue ≡ task_list t ∷ rs
    → Valid (sched_next_rr k) (update q readyqueue rs)
      × ((sched_next_rr k).running ≡ t)
      × ((sched_next_rr k).q_left ≡ (k.task k.running).quantum)
unfolding sched_next_rr
sched_next_rr-ready {k} {q} t rs s e =
    let is = s.queues.queue readyqueue refl in
    let first_is : list_first readyqueue k.links ≡ task_list t =
      list_first-IsQueue (q readyqueue) is ∙ ap (λ xs. first xs readyqueue) e in
    let some_ready : list_empty readyqueue k.links ≡ false =
      ground (arith, list_empty_iff (q readyqueue) is) in
    rw (some_ready, first_is, list_head_to_task_struct-task_list)
      (run_next-Valid t rs s e, run_next-running t k, run_next-q_left t k)

-- The lists after the first ready task has left, if there is one.
abbrev pub dequeue : QueueMap → QueueMap
dequeue q = update q readyqueue (drop 1 (q readyqueue))

-- Who runs next: the first ready task, or else the idle task.
abbrev pub next_task : QueueMap → ℕ → ℕ
next_task q idle = elim (q readyqueue) [ [] ↦ idle | a ∷ rs ↦ a - 1 ]

next_by :
    {k : Kernel} {q : QueueMap} (xs : List Addr)
    → Shape k q
    → q readyqueue ≡ xs
    → Valid (sched_next_rr k) (update q readyqueue (drop 1 xs))
      × ((sched_next_rr k).running ≡ elim xs [ [] ↦ k.idle_task | a ∷ rs ↦ a - 1 ])
next_by {k} {q} [] s e =
    let (v, r) = sched_next_rr-idle s e in
    (subst (Valid (sched_next_rr k)) (sym (update-id q readyqueue [] e)) v, r)
next_by {k} {q} (a ∷ rs) s e =
    let (low, _) = s.member readyqueue a refl (rw e (ground arith)) in
    let at : task_list (a - 1) ≡ a = omega arith in
    let (v, r, _) = sched_next_rr-ready (a - 1) rs s (e ∙ ap (λ b. b ∷ rs) (sym at)) in (v, r)

-- `sched_next_rr` keeps the kernel's lists well formed and runs the first ready task, or else the
-- idle task.
pub sched_next_rr_lem :
    {k : Kernel} {q : QueueMap}
    → Shape k q
    → Valid (sched_next_rr k) (dequeue q) × ((sched_next_rr k).running ≡ next_task q k.idle_task)
sched_next_rr_lem {q} s = next_by (q readyqueue) s refl
