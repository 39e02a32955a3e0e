-- ===== src/Semaphores.antt =====
-- sys.c: `sys_sem_init`, `sys_sem_wait`, `sys_sem_signal` and `sys_sem_destroy`.
pub mod Search
pub mod Init
pub mod Signal
pub mod Wait
pub mod Destroy
use so2fib.Common.{
  ℕ, zero, suc, ◌+◌, ◌-◌, ◌^◌, ◌==◌, ◌&&◌, Bool, true, false, not, Option, none, some, ℤ, pos, neg,
  sub_ℕ, ◌+ℤ◌, ◌-ℤ◌, leb_ℤ, eqb_ℤ, if◌then◌else◌, ltb, update,
}
use so2fib.LinkedList.{init_list_head, list_empty, list_first}
use so2fib.Task.{Task, Semaphore, SemState, free_sem, used_sem, is_free_sem}
use so2fib.Kernel.{
  Kernel, nr_tasks, nr_semaphores, readyqueue, blocked_queue, list_head_to_task_struct, current,
  set_task, set_sem, set_links,
}
use so2fib.Sched.{exit_run_current, sched_next_rr, update_process_state_rr}

abbrev pub eperm : ℤ
eperm = neg 1

abbrev pub ebusy : ℤ
ebusy = neg 16

abbrev pub einval : ℤ
einval = neg 22

-- How a call ends: with a result; with another task running, in which case the caller returns
-- its `sem_ret` when it runs again (`sem_wait_resume`); or with an access outside an array.
pub data Outcome : Type 0 where
  returns : ℤ → Outcome
  switched : Outcome
  stray : Outcome

-- The loops of `cerca_sem_lliure` and `cerca_sem` from index `i` on; `none` is the result -1.
unfoldable pub find_free : ℕ → ℕ → (ℕ → Semaphore) → Option ℕ
find_free zero i sems = none
find_free (suc n) i sems =
    let rest = find_free n (i + 1) sems in if is_free_sem (sems i).state then some i else rest

unfoldable pub cerca_sem_lliure : (ℕ → Semaphore) → Option ℕ
cerca_sem_lliure sems = find_free nr_semaphores 0 sems

unfoldable pub find_used : ℕ → ℕ → ℤ → (ℕ → Semaphore) → Option ℕ
find_used zero i n_sem sems = none
find_used (suc n) i n_sem sems =
    let rest = find_used n (i + 1) n_sem sems in
    if eqb_ℤ (sems i).n_sem n_sem && not (is_free_sem (sems i).state) then some i else rest

unfoldable pub cerca_sem : ℤ → (ℕ → Semaphore) → Option ℕ
cerca_sem n_sem sems = find_used nr_semaphores 0 n_sem sems

-- An `unsigned int` as an `int`.
abbrev pub to_int : ℕ → ℤ
to_int n = if ltb n (2 ^ 31) then pos n else sub_ℕ n (2 ^ 32)

-- With every semaphore used, the code goes on with `semaphores[-1]`.
unfoldable pub sys_sem_init : ℤ → ℕ → Kernel → Outcome × Kernel
sys_sem_init n_sem value k = elim (cerca_sem n_sem k.semaphores) [
  | some _ ↦ (returns ebusy, k)
  | none ↦ elim (cerca_sem_lliure k.semaphores) [
    | none ↦ (stray, k)
    | some i ↦
        let s : Semaphore = record {
          state = used_sem;
          n_sem = n_sem;
          owner = (k.task (current k)).pid;
          counter = to_int value;
        } in
        (returns (pos 0), set_links (init_list_head (blocked_queue i)) (set_sem i (λ _. s) k))
  ]
]

-- The loop of `sys_sem_destroy`: every waiting task becomes ready, and its call will return -1.
-- `none` when the fuel runs out.
unfoldable pub release_all : ℕ → ℕ → Kernel → Option Kernel
release_all zero i k = none
release_all (suc fuel) i k =
    let t = list_head_to_task_struct (list_first (blocked_queue i) k.links) in
    let rest =
      release_all fuel i
        (update_process_state_rr t readyqueue (set_task t (λ p. record p { sem_ret = neg 1 }) k)) in
    if list_empty (blocked_queue i) k.links then some k else rest

-- One more than the tasks there are.
abbrev pub release_fuel : ℕ
release_fuel = 16

abbrev pub forget : Semaphore → Semaphore
forget s = record s { state = free_sem; n_sem = neg 1; owner = pos 0 }

-- The rest of each call once `cerca_sem` has found semaphore `i`; `destroy_at` is `none` when the
-- loop runs out of fuel.
unfoldable pub destroy_at : ℕ → Kernel → Option (Outcome × Kernel)
destroy_at i k =
    let released = release_all release_fuel i k in
    if is_free_sem (k.semaphores i).state
    then some (returns einval, k)
    else if not (eqb_ℤ (k.semaphores i).owner (k.task (current k)).pid)
    then some (returns eperm, k)
    else elim released [ none ↦ none | some k_1 ↦ some (returns (pos 0), set_sem i forget k_1) ]

unfoldable pub signal_at : ℕ → Kernel → Outcome × Kernel
signal_at i k =
    let t = list_head_to_task_struct (list_first (blocked_queue i) k.links) in
    if is_free_sem (k.semaphores i).state
    then (returns einval, k)
    else if list_empty (blocked_queue i) k.links
    then (returns (pos 0), set_sem i (λ s. record s { counter = s.counter +ℤ pos 1 }) k)
    else (returns (pos 0), update_process_state_rr t readyqueue k)

unfoldable pub wait_at : ℕ → Kernel → Outcome × Kernel
wait_at i k =
    let k_1 = set_task (current k) (λ p. record p { sem_ret = pos 0 }) k in
    if is_free_sem (k.semaphores i).state
    then (returns einval, k)
    else if leb_ℤ (k.semaphores i).counter (pos 0)
    then (switched, sched_next_rr (exit_run_current (blocked_queue i) k_1))
    else (returns (pos 0), set_sem i (λ s. record s { counter = s.counter -ℤ pos 1 }) k_1)

unfoldable pub sys_sem_destroy : ℤ → Kernel → Option (Outcome × Kernel)
sys_sem_destroy n_sem k = elim (cerca_sem n_sem k.semaphores) [
  | none ↦ some (returns einval, k)
  | some i ↦ destroy_at i k
]

unfoldable pub sys_sem_signal : ℤ → Kernel → Outcome × Kernel
sys_sem_signal n_sem k = elim (cerca_sem n_sem k.semaphores) [
  | none ↦ (returns einval, k)
  | some i ↦ signal_at i k
]

unfoldable pub sys_sem_wait : ℤ → Kernel → Outcome × Kernel
sys_sem_wait n_sem k = elim (cerca_sem n_sem k.semaphores) [
  | none ↦ (returns einval, k)
  | some i ↦ wait_at i k
]

-- The rest of `sys_sem_wait`, when the task that waited runs again.
unfoldable pub sem_wait_resume : Kernel → ℤ
unfolding current
sem_wait_resume k = (k.task (current k)).sem_ret
