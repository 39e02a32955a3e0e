-- ===== src/Steps/Always.antt =====
-- What holds in every state that the kernel comes to.
use so2fib.Common.{ℕ, ◌≡◌, refl, arith}
use so2fib.Task.{st_run, add_user, add_system}
use so2fib.Kernel.{Kernel, current}
use so2fib.Sched.{stats_entry_sys, stats_leave_sys}
use so2fib.Interrupts.{clock_rutine}
use so2fib.Boot.{start}
use so2fib.Boot.Start.{start_map, start-Valid}
use so2fib.Steps.{
  Step, tick, key, entry_sys, leave_sys, sem_init, sem_wait, sem_signal, sem_destroy, clone, fork,
  sbrk, read, read_on, Reach, here, next,
}
use so2fib.Steps.Front.{
  IsConsistent, same-Valid, same-IsClosed, IsConsistent-of, schedule-IsConsistent,
  charge-IsConsistent, store_key-IsConsistent,
}
use so2fib.Steps.Calls.{sys_sem_wait-IsConsistent, sys_sem_signal-IsConsistent}
use so2fib.Steps.Owners.{sys_sem_init-IsConsistent, sys_sem_destroy-IsConsistent}
use so2fib.Steps.Tasks.{sys_clone-IsConsistent, sys_fork-IsConsistent}
use so2fib.Steps.Heap.{sys_sbrk-IsConsistent}
use so2fib.Steps.Keys.{sys_read-IsConsistent, read_pass-IsConsistent}

clock_rutine-IsConsistent : {k : Kernel} → IsConsistent k → IsConsistent (clock_rutine k)
unfolding clock_rutine
clock_rutine-IsConsistent c =
    schedule-IsConsistent
      (same-Valid (record { links = refl; heads = refl; idle = refl; estado = λ j. refl }) refl
        c.valid)
      (same-IsClosed refl (λ i lt. refl) c.closed)

-- Each step keeps the kernel's lists, the states of its tasks and its semaphores well formed.
Step-IsConsistent : {k k' : Kernel} → Step k k' → IsConsistent k → IsConsistent k'
unfolding stats_entry_sys stats_leave_sys
Step-IsConsistent (tick e) c = IsConsistent-of e (clock_rutine-IsConsistent c)
Step-IsConsistent (key b e) c = IsConsistent-of e (store_key-IsConsistent b c)
Step-IsConsistent {k} (entry_sys e) c =
    IsConsistent-of e (charge-IsConsistent add_user (current k) c)
Step-IsConsistent {k} (leave_sys e) c =
    IsConsistent-of e (charge-IsConsistent add_system (current k) c)
Step-IsConsistent (sem_init n v r e) c = sys_sem_init-IsConsistent n v r c e
Step-IsConsistent (sem_wait n user e) c = IsConsistent-of e (sys_sem_wait-IsConsistent n user c)
Step-IsConsistent (sem_signal n e) c = IsConsistent-of e (sys_sem_signal-IsConsistent n c)
Step-IsConsistent (sem_destroy n out e) c = sys_sem_destroy-IsConsistent n out c e
Step-IsConsistent (clone f s e) c = IsConsistent-of e (sys_clone-IsConsistent f s c)
Step-IsConsistent (fork e) c = IsConsistent-of e (sys_fork-IsConsistent c)
Step-IsConsistent (sbrk n e) c = IsConsistent-of e (sys_sbrk-IsConsistent n c)
Step-IsConsistent (read fd buf n m user inside e) c =
    IsConsistent-of e (sys_read-IsConsistent fd buf n m c user)
Step-IsConsistent (read_on buff m user inside e) c =
    IsConsistent-of e (read_pass-IsConsistent buff m c user)

Reach-IsConsistent : {k k' : Kernel} → IsConsistent k → Reach k k' → IsConsistent k'
Reach-IsConsistent c here = c
Reach-IsConsistent c (next r s) = Step-IsConsistent s (Reach-IsConsistent c r)

-- From the start of the system on a memory of zeros, in every state that clock ticks, keys,
-- semaphore calls, clones, forks, changes of the break and reads lead to, in any order, the
-- kernel's lists are well formed, no task is in two of them, each task is in the state of its list,
-- the current task runs and is in none, and tasks wait for a semaphore only while its counter is
-- not positive. The idle task makes no call that blocks, and no call leaves the array of semaphores
-- or the keyboard's.
pub start-Reach-IsConsistent :
    (k : Kernel) {k' : Kernel}
    → ((j : ℕ) → (k.task j).estado ≡ st_run)
    → Reach (start k) k'
    → IsConsistent k'
start-Reach-IsConsistent k zeroed r =
    Reach-IsConsistent
      (record {
        lists = start_map;
        valid = (start-Valid k zeroed).0;
        closed = record { nobody_waits = λ i lt used more. ground arith };
      })
      r
