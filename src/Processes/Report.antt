-- ===== src/Processes/Report.antt =====
-- Which task `sys_get_stats` reports on.
use so2fib.Common.{
  ℕ, zero, suc, ◌+◌, ◌<◌, ◌≡◌, refl, true, Option, none, some, ℤ, pos, arith, eqb_ℤ, eqb_ℤ-eq,
  eqb_ℤ-of_eq, Bool-cases, inl, inr, le→not-ltb,
}
use so2fib.Task.{Stats, Task}
use so2fib.Kernel.{Kernel, nr_tasks}
use so2fib.Utils.{verify_write, access_ok}
use so2fib.Semaphores.Search.{Search, found, missing, later}
use so2fib.Processes.{find_pid, sys_get_stats, to_unsigned, esrch}

abbrev pub HasPid : (ℕ → Task) → ℤ → ℕ → Type 0
HasPid task pid i = (task i).pid ≡ pid

find_pid-Search :
    (n i : ℕ) (pid : ℤ) (task : ℕ → Task) → Search (HasPid task pid) i n (find_pid n i pid task)
unfolding find_pid
find_pid-Search zero i pid task = missing (λ l a b. absurd (omega arith))
find_pid-Search (suc n) i pid task = elim (Bool-cases (eqb_ℤ (task i).pid pid)) [
  | inl e ↦ rw e (
      found (omega arith) (omega arith) (eqb_ℤ-eq (task i).pid pid e)
        (λ l a b. absurd (omega arith)))
  | inr e ↦ rw e (
      later (HasPid task pid) i n (λ p. cc (e, eqb_ℤ-of_eq (task i).pid pid p))
        (find_pid-Search n (i + 1) pid task))
]

-- What `sys_get_stats` answers about a PID.
pub data Reported (pid : ℤ) (k : Kernel) : ℤ × Option Stats → Type 0 where
  reported :
      {i : ℕ}
      → i < nr_tasks
      → HasPid k.task pid i
      → ((l : ℕ) → l < i → ¬ HasPid k.task pid l)
      → Reported pid k
          (pos 0, some (record (k.task i).estadisticas { remaining_ticks = to_unsigned k.q_left }))
  unknown : ((l : ℕ) → l < nr_tasks → ¬ HasPid k.task pid l) → Reported pid k (esrch, none)

Search-Reported :
    (n st : ℕ) (k : Kernel) {r : Option ℕ}
    → access_ok verify_write st 28 ≡ true
    → Search (HasPid k.task (pos n)) 0 nr_tasks r
    → find_pid nr_tasks 0 (pos n) k.task ≡ r
    → Reported (pos n) k (sys_get_stats (pos n) st k)
unfolding sys_get_stats
Search-Reported n st k ok (found {j} lo hi has first) e =
    rw (le→not-ltb (n + 0) 0 (omega arith), ok, e, sys_get_stats)
      (reported (omega arith) has (λ l h. first l (omega arith) h))
Search-Reported n st k ok (missing off) e =
    rw (le→not-ltb (n + 0) 0 (omega arith), ok, e, sys_get_stats)
      (unknown (λ l h. off l (omega arith) (omega arith)))

-- For a PID from 0 on and an address that `access_ok` lets through, `sys_get_stats` returns 0 and
-- writes the statistics of the first task with that PID, the remaining ticks being those of the
-- running quantum, or returns -ESRCH and writes nothing when no task has it.
pub sys_get_stats-Reported :
    (n st : ℕ) (k : Kernel)
    → access_ok verify_write st 28 ≡ true
    → Reported (pos n) k (sys_get_stats (pos n) st k)
sys_get_stats-Reported n st k ok =
    Search-Reported n st k ok (find_pid-Search nr_tasks 0 (pos n) k.task) refl
