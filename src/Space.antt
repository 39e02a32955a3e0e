-- ===== src/Space.antt =====
-- sched.c and mm.c: the page tables of the tasks, as parts of the kernel's state; and the copy of
-- a `union task_union`, that sys.c makes of the current task for a new one.
pub mod Unmap
pub mod Mapped
use so2fib.Common.{
  ℕ, zero, suc, ◌+◌, ◌*◌, ◌/◌, ◌%◌, ◌^◌, ◌&&◌, Bool, true, false, update, Option, none, some,
  if◌then◌else◌, ltb,
}
use so2fib.LinkedList.{set_next, set_prev}
use so2fib.Frames.{PhysMem}
use so2fib.Utils.{Bytes}
use so2fib.Paging.{Entry, PageTable}
use so2fib.Kernel.{Kernel, nr_tasks, task_list}
use so2fib.Sched.{get_dir}

-- The row of `pagusr_table` that `get_PT(t)` points to.
unfoldable pub get_pt : ℕ → Kernel → ℕ
get_pt t k = (k.dir_pages (get_dir t k)).pbase_addr

-- `get_PT(t)[page]`, for the table of a row.
abbrev pub entry_at : ℕ → ℕ → Kernel → Entry
entry_at row page k = k.pagusr_table row page

-- A write to one table.
abbrev pub set_table : ℕ → (PageTable → PageTable) → Kernel → Kernel
set_table row f k = record k { pagusr_table = update k.pagusr_table row (f (k.pagusr_table row)) }

abbrev pub set_mem : PhysMem → Kernel → Kernel
set_mem mem k = record k { phys_mem = mem }

-- `set_cr3(get_DIR(current()))`
unfoldable pub set_cr3 : ℕ → Kernel → Kernel
set_cr3 dir k = record k { machine = record k.machine { cr_3 = dir } }

-- The processor's walk from CR3 to the physical address that an address of the kernel stands for;
-- `none` where it raises a page fault. Of a directory only entry 0 is ever set, so that no page from
-- 1024 on is present. The kernel may also write where a page's `rw` bit is 0.
unfoldable pub walk : ℕ → Kernel → Option ℕ
walk a k =
    let dir = k.dir_pages k.machine.cr_3 in
    let e = k.pagusr_table dir.pbase_addr (a / 2 ^ 12) in
    if ltb (a / 2 ^ 12) 1024 && dir.present && e.present
    then some (e.pbase_addr * 2 ^ 12 + a % 2 ^ 12)
    else none

-- The page of an address is present.
abbrev pub is_mapped : ℕ → Kernel → Bool
is_mapped a k = elim (walk a k) [ none ↦ false | some _ ↦ true ]

-- The physical address, where there is one.
abbrev pub phys : Kernel → ℕ → ℕ
phys k a = elim (walk a k) [ none ↦ 0 | some x ↦ x ]

-- The memory as the tables show it.
abbrev pub seen : Kernel → Bytes
seen k a = k.ram (phys k a)

-- `init_dir_pages`, from row `i` on for `n` rows.
unfoldable pub init_dirs : ℕ → ℕ → Kernel → Kernel
init_dirs zero i k = k
init_dirs (suc n) i k = init_dirs n (i + 1) (record k {
  dir_pages =
      update k.dir_pages i (record { present = true; rw_bit = true; user = true; pbase_addr = i });
})

unfoldable pub init_dir_pages : Kernel → Kernel
init_dir_pages k = init_dirs nr_tasks 0 k

-- `copy_data(from, to, sizeof(union task_union))`: the stack with the `struct task_struct` at its
-- lower end, whose `list` field is in `links`.
unfoldable pub copy_union : ℕ → ℕ → Kernel → Kernel
copy_union from to k = record k {
  task = update k.task to (k.task from);
  stack = update k.stack to (k.stack from);
  links =
      set_next (task_list to) (k.links.next (task_list from))
        (set_prev (task_list to) (k.links.prev (task_list from)) k.links);
}
