-- ===== src/Kernel.antt =====
-- The state that the kernel's functions share, and the addresses of its lists.
use so2fib.Common.{
  ℕ, suc, ◌+◌, ◌-◌, ◌==◌, ◌&&◌, ◌||◌, not, Bool, ℤ, if◌then◌else◌, ltb, leb, update,
}
use so2fib.LinkedList.{Addr, null, Links}
use so2fib.Task.{Stats, Task, Semaphore, is_free_sem}
use so2fib.Frames.{PhysMem}
use so2fib.Paging.{Entry, PageTable}
use so2fib.Utils.{Bytes}
use so2fib.CirBuffer.{CirBuffer}

abbrev pub nr_tasks : ℕ
nr_tasks = 15

abbrev pub nr_semaphores : ℕ
nr_semaphores = 20

-- The list heads are numbered; only their being different and the inverse below matter.
-- `&task[i].task.list`
abbrev pub task_list : ℕ → Addr
task_list i = suc i

abbrev pub freequeue : Addr
freequeue = 100

abbrev pub readyqueue : Addr
readyqueue = 101

abbrev pub keyboardqueue : Addr
keyboardqueue = 102

-- `&semaphores[i].blockedQueue`
abbrev pub blocked_queue : ℕ → Addr
blocked_queue i = 200 + i

-- The list heads in use: a semaphore's list exists while the semaphore is used.
abbrev pub is_head : (ℕ → Semaphore) → Addr → Bool
is_head sems a =
    a == freequeue
    || a == readyqueue
    || a == keyboardqueue
    || (leb 200 a && ltb a 220 && not (is_free_sem (sems (a - 200)).state))

-- An index that is no task's.
abbrev pub no_task : ℕ
no_task = 1000

-- `list_head_to_task_struct`; a pointer to no task's list gives an index of 15 or more.
unfoldable pub list_head_to_task_struct : Addr → ℕ
list_head_to_task_struct l = if l == null then no_task else l - 1

-- A word of a kernel stack: a number, or the address of a routine.
pub data Word : Type 0 where
  word : ℕ → Word
  ret_from_fork cpu_idle : Word

-- The processor's registers that the kernel sets: `tss.esp0` and MSR 0x175, by the task whose
-- stack top they hold, and CR3, by the row of `dir_pages`; and what each call of `getEbp` returns, from
-- the next call on, as an offset in the current stack.
pub record Machine : Type 0 where
  pub esp_0 : ℕ
  pub msr_175 : ℕ
  pub cr_3 : ℕ
  pub ebp : ℕ → ℕ

pub record Kernel : Type 0 where
  pub links : Links
  pub task : ℕ → Task
  pub semaphores : ℕ → Semaphore
  -- the index of `current()`, the task whose stack `%esp` points into
  pub running : ℕ
  pub idle_task : ℕ
  pub q_left : ℤ
  pub refs_dir : ℕ → ℤ
  -- entry 0 of each page directory; its `pbase_addr` is the row of `pagusr_table` that it points to
  pub dir_pages : ℕ → Entry
  pub pagusr_table : ℕ → PageTable
  -- the words of each task's kernel stack
  pub stack : ℕ → ℕ → Word
  -- the bytes of physical memory
  pub ram : Bytes
  pub phys_mem : PhysMem
  pub incremental_pid : ℤ
  pub zeos_ticks : ℤ
  pub keyboard_buff : CirBuffer
  pub machine : Machine
  -- what each call of `get_ticks` returns, from the next call on
  pub clock : ℕ → ℕ

unfoldable pub current : Kernel → ℕ
current k = k.running

-- `get_ticks`: the processor's counter is read anew at each call.
unfoldable pub get_ticks : Kernel → ℕ × Kernel
get_ticks k = (k.clock 0, record k { clock = λ n. k.clock (suc n) })

-- `getEbp`: the frame pointer at the call, which depends on the calls that lead there.
abbrev pub get_ebp : Kernel → ℕ × Kernel
get_ebp k =
    (k.machine.ebp 0, record k { machine = record k.machine { ebp = λ n. k.machine.ebp (suc n) } })

-- A write to the fields of one task, and of one semaphore.
abbrev pub set_task : ℕ → (Task → Task) → Kernel → Kernel
set_task i f k = record k { task = update k.task i (f (k.task i)) }

abbrev pub set_stats : ℕ → (Stats → Stats) → Kernel → Kernel
set_stats i f = set_task i (λ t. record t { estadisticas = f t.estadisticas })

abbrev pub set_sem : ℕ → (Semaphore → Semaphore) → Kernel → Kernel
set_sem i f k = record k { semaphores = update k.semaphores i (f (k.semaphores i)) }

abbrev pub set_links : (Links → Links) → Kernel → Kernel
set_links f k = record k { links = f k.links }
