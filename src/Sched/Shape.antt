-- ===== src/Sched/Shape.antt =====
-- The kernel's lists and the states of its tasks, as a map from list heads to the tasks behind them.
use so2fib.Common.{ℕ, ◌≤◌, ◌<◌, ◌≡◌, ◌≢◌, true, false, List, has, ◌==◌, if◌then◌else◌}
use so2fib.LinkedList.{Addr}
use so2fib.LinkedList.Family.{Queues, IsLoose}
use so2fib.Task.{State, st_run, st_ready, st_blocked}
use so2fib.Kernel.{Kernel, nr_tasks, task_list, freequeue, readyqueue, is_head}

abbrev pub QueueMap : Type 0
QueueMap = Addr → List Addr

-- The state of a task that waits in the list of `h`.
abbrev pub state_in : Addr → State
state_in h = if h == readyqueue then st_ready else st_blocked

-- Task `i` is in no list, and runs.
pub record IsRunning (k : Kernel) (q : QueueMap) (i : ℕ) : Type 0 where
  pub in_table : i < nr_tasks
  pub loose : IsLoose (is_head k.semaphores) q (task_list i)
  pub runs : (k.task i).estado ≡ st_run

-- The lists are well formed and hold tasks, each in the state of its list; the idle task runs
-- unless it is ready.
pub record Shape (k : Kernel) (q : QueueMap) : Type 0 where
  pub queues : Queues (is_head k.semaphores) k.links q
  pub member :
      (h a : Addr) → (is_head k.semaphores) h ≡ true → has a (q h) ≡ true → (1 ≤ a) × (a ≤ nr_tasks)
  pub queued :
      (h i : Addr)
      → (is_head k.semaphores) h ≡ true
      → h ≢ freequeue
      → has (task_list i) (q h) ≡ true
      → (k.task i).estado ≡ state_in h
  pub idle : has (task_list k.idle_task) (q readyqueue) ≡ false → IsRunning k q k.idle_task

-- Between two calls of the kernel there is also a current task, which runs.
pub record Valid (k : Kernel) (q : QueueMap) : Type 0 where
  pub shape : Shape k q
  pub current : IsRunning k q k.running
