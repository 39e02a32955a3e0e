-- ===== src/Steps.antt =====
-- The kernel as a transition system: the interrupts, and the calls of the tasks that run.
pub mod Front
pub mod Calls
pub mod Owners
pub mod Tasks
pub mod Heap
pub mod Keys
pub mod Always
use so2fib.Common.{ℕ, ◌≡◌, ◌≢◌, true, some, ℤ}
use so2fib.Kernel.{Kernel}
use so2fib.Sched.{stats_entry_sys, stats_leave_sys}
use so2fib.Interrupts.{store_key, clock_rutine}
use so2fib.Semaphores.{
  Outcome, returns, cerca_sem, sys_sem_init, sys_sem_wait, sys_sem_signal, sys_sem_destroy,
}
use so2fib.Fork.{sys_fork, sys_clone}
use so2fib.Sbrk.{sys_sbrk}
use so2fib.Utils.{Bytes}
use so2fib.Read.{stray, sys_read, read_pass}

-- One entry into the kernel. The idle task makes no call that blocks; `sys_sem_init` is called while
-- it does not leave its array, and `sys_read` and the passes with which it goes on stay inside
-- the buffer's array. `sys_exit` is no step.
pub data Step (k k' : Kernel) : Type 0 where
  tick : k' ≡ clock_rutine k → Step k k'
  key : (c : ℕ) → k' ≡ store_key c k → Step k k'
  entry_sys : k' ≡ stats_entry_sys k → Step k k'
  leave_sys : k' ≡ stats_leave_sys k → Step k k'
  sem_init :
      (n_sem : ℤ) (value : ℕ) (r : ℤ) → sys_sem_init n_sem value k ≡ (returns r, k') → Step k k'
  sem_wait : (n_sem : ℤ) → k.running ≢ k.idle_task → k' ≡ (sys_sem_wait n_sem k).1 → Step k k'
  sem_signal : (n_sem : ℤ) → k' ≡ (sys_sem_signal n_sem k).1 → Step k k'
  sem_destroy : (n_sem : ℤ) (out : Outcome) → sys_sem_destroy n_sem k ≡ some (out, k') → Step k k'
  clone : (function stack : ℕ) → k' ≡ (sys_clone function stack k).1 → Step k k'
  fork : k' ≡ (sys_fork k).1 → Step k k'
  sbrk : (incr : ℤ) → k' ≡ (sys_sbrk incr k).1 → Step k k'
  read :
      (fd : ℤ) (buf : ℕ) (count : ℤ) (m : Bytes)
      → k.running ≢ k.idle_task
      → (sys_read fd buf count (k, m)).0 ≢ stray
      → k' ≡ (sys_read fd buf count (k, m)).1
      → Step k k'
  read_on :
      (buff : ℕ) (m : Bytes)
      → k.running ≢ k.idle_task
      → (read_pass buff (k, m)).0 ≢ stray
      → k' ≡ (read_pass buff (k, m)).1
      → Step k k'

pub data Reach (k : Kernel) : Kernel → Type 0 where
  here : Reach k k
  next : {k_1 k_2 : Kernel} → Reach k k_1 → Step k_1 k_2 → Reach k k_2
