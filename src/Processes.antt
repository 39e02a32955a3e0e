-- ===== src/Processes.antt =====
-- sched.c: `allocate_DIR`; sys.c: the calls that only read the kernel's state.
pub mod Directory
pub mod Report
use so2fib.Common.{
  ℕ, zero, suc, ◌+◌, ◌-◌, ◌%◌, ◌^◌, Option, none, some, ℤ, pos, negsuc, neg, ◌+ℤ◌, eqb_ℤ, ltb_ℤ,
  pos_part, neg_part, not, if◌then◌else◌, update,
}
use so2fib.Task.{Stats, Task}
use so2fib.Kernel.{Kernel, nr_tasks, current, set_task}
use so2fib.Utils.{access_ok, verify_write}
use so2fib.Semaphores.{einval}
use so2fib.Write.{efault}

abbrev pub enosys : ℤ
enosys = neg 38

abbrev pub esrch : ℤ
esrch = neg 3

-- The loop of `allocate_DIR` from row `i` on; `none` when it ends.
unfoldable pub find_dir : ℕ → ℕ → (ℕ → ℤ) → Option ℕ
find_dir zero i refs = none
find_dir (suc n) i refs =
    let rest = find_dir n (i + 1) refs in if eqb_ℤ (refs i) (pos 0) then some i else rest

-- For the task of index `p`.
unfoldable pub allocate_dir : ℕ → Kernel → ℤ × Kernel
allocate_dir p k = elim (find_dir nr_tasks 0 k.refs_dir) [
  | none ↦ (neg 1, k)
  | some i ↦
      let k_1 = set_task p (λ t. record t { dir_pages_base_addr = i; n_directorio = i }) k in
      (pos 1, record k_1 { refs_dir = update k.refs_dir i (k.refs_dir i +ℤ pos 1) })
]

unfoldable pub get_dir_position : ℕ → Kernel → ℕ
get_dir_position t k = (k.task t).n_directorio

unfoldable pub sys_ni_syscall : ℤ
sys_ni_syscall = enosys

unfoldable pub sys_getpid : Kernel → ℤ
sys_getpid k = (k.task (current k)).pid

unfoldable pub sys_gettime : Kernel → ℤ
sys_gettime k = k.zeos_ticks

-- An `int` as an `unsigned long`.
abbrev pub to_unsigned : ℤ → ℕ
to_unsigned a = (pos_part a + (2 ^ 32 - neg_part a)) % 2 ^ 32

-- The loop of `sys_get_stats` from task `i` on.
unfoldable pub find_pid : ℕ → ℕ → ℤ → (ℕ → Task) → Option ℕ
find_pid zero i pid task = none
find_pid (suc n) i pid task =
    let rest = find_pid n (i + 1) pid task in if eqb_ℤ (task i).pid pid then some i else rest

-- With the result, what is written at the address `st`, of 28 bytes.
unfoldable pub sys_get_stats : ℤ → ℕ → Kernel → ℤ × Option Stats
sys_get_stats pid st k =
    let answer : ℤ × Option Stats = elim (find_pid nr_tasks 0 pid k.task) [
      | none ↦ (esrch, none)
      | some i ↦
          (pos 0, some (record (k.task i).estadisticas { remaining_ticks = to_unsigned k.q_left }))
    ] in
    if ltb_ℤ pid (pos 0)
    then (einval, none)
    else if not (access_ok verify_write st 28)
    then (efault, none)
    else answer
