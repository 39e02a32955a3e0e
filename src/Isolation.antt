-- ===== src/Isolation.antt =====
-- sched.c, sys.c and mm.c: which tasks share memory, and what leaves that alone.
pub mod Sched
pub mod Calls
pub mod Sems
pub mod Reads
pub mod Moves
pub mod Clone
pub mod Fill
pub mod Used
pub mod Fork
pub mod Heap
pub mod Start
pub mod Exit
pub mod Always
use so2fib.Common.{
  ℕ, ◌+◌, ◌^◌, Bool, ◌<◌, ◌≤◌, ◌≡◌, ◌≢◌, refl, ◌∙◌, ap, sym, true, ◌==◌, ◌||◌, not, arith, ℤ, pos,
  leb_ℤ,
}
use so2fib.LinkedList.{Links}
use so2fib.CirBuffer.{CirBuffer}
use so2fib.Task.{is_run, Task, Semaphore}
use so2fib.Frames.{free_mark, total_pages}
use so2fib.Paging.{no_entry}
use so2fib.Boot.{heap_start}
use so2fib.Kernel.{Kernel, Machine, nr_tasks, set_task}
use so2fib.Fork.Memory.{data_frame}
use so2fib.Fork.Inherit.{OwnTables}

-- A task that is current, is the idle one, or waits in a list.
abbrev pub alive : ℕ → Kernel → Bool
alive t k = t == k.running || t == k.idle_task || not (is_run (k.task t).estado)

-- The row of a task's page directory, which is that of its table where each directory refers to its
-- own.
abbrev pub dir_of : ℕ → Kernel → ℕ
dir_of t k = (k.task t).dir_pages_base_addr

-- The frame of data page `j` of task `t`.
abbrev pub frame_at : ℕ → ℕ → Kernel → ℕ
frame_at t j k = data_frame (dir_of t k) j k

-- Two tasks alive that use one directory count twice.
abbrev pub CountTwice : Kernel → Type 0
CountTwice k =
    (t t' : ℕ)
    → t ≢ t'
    → alive t k ≡ true
    → alive t' k ≡ true
    → dir_of t k ≡ dir_of t' k
    → leb_ℤ (pos 2) (k.refs_dir (dir_of t k)) ≡ true

-- A break in the part of the table behind the data pages.
abbrev pub InHeap : ℕ → Type 0
InHeap b = (heap_start ≤ b) × (b < 2 ^ 22)

-- Each directory that a task alive uses is counted, as two where two use it, and the frames of its data pages are in use.
-- Two of these tasks have a frame behind the kernel's in common only where they have one directory,
-- and then at the same page. No page is mapped behind the data pages.
pub record IsIsolated (k : Kernel) : Type 0 where
  pub own_tables : OwnTables k
  pub placed : (t : ℕ) → alive t k ≡ true → dir_of t k < nr_tasks
  pub numbered : (t : ℕ) → alive t k ≡ true → (k.task t).n_directorio ≡ dir_of t k
  pub counted : (t : ℕ) → alive t k ≡ true → leb_ℤ (pos 1) (k.refs_dir (dir_of t k)) ≡ true
  pub twice : CountTwice k
  pub in_use : (t j : ℕ) → alive t k ≡ true → j < 20 → k.phys_mem (frame_at t j k) ≢ free_mark
  pub apart :
      (t t' j j' : ℕ)
      → alive t k ≡ true
      → alive t' k ≡ true
      → j < 20
      → j' < 20
      → 256 ≤ frame_at t j k
      → frame_at t j k ≡ frame_at t' j' k
      → (dir_of t k ≡ dir_of t' k) × (j ≡ j')
  pub no_heap :
      (row p : ℕ) → row < nr_tasks → 284 ≤ p → p < total_pages → k.pagusr_table row p ≡ no_entry
  pub break_in : (t : ℕ) → alive t k ≡ true → InHeap (k.task t).process_break

-- No page, frame or directory changes, and no task comes to life.
pub record Still (k k' : Kernel) : Type 0 where
  pub mem : k'.phys_mem ≡ k.phys_mem
  pub tables : k'.pagusr_table ≡ k.pagusr_table
  pub dirs : k'.dir_pages ≡ k.dir_pages
  pub refs : k'.refs_dir ≡ k.refs_dir
  pub dir : (t : ℕ) → dir_of t k' ≡ dir_of t k
  pub number : (t : ℕ) → (k'.task t).n_directorio ≡ (k.task t).n_directorio
  pub break_at : (t : ℕ) → (k'.task t).process_break ≡ (k.task t).process_break
  pub was_alive : (t : ℕ) → alive t k' ≡ true → alive t k ≡ true

pub Still-refl : (k : Kernel) → Still k k
Still-refl k = record {
  mem = refl;
  tables = refl;
  dirs = refl;
  refs = refl;
  dir = λ t. refl;
  number = λ t. refl;
  break_at = λ t. refl;
  was_alive = λ t a. a;
}

pub Still-trans : {k k' k'' : Kernel} → Still k k' → Still k' k'' → Still k k''
Still-trans a b = record {
  mem = b.mem ∙ a.mem;
  tables = b.tables ∙ a.tables;
  dirs = b.dirs ∙ a.dirs;
  refs = b.refs ∙ a.refs;
  dir = λ t. b.dir t ∙ a.dir t;
  number = λ t. b.number t ∙ a.number t;
  break_at = λ t. b.break_at t ∙ a.break_at t;
  was_alive = λ t x. a.was_alive t (b.was_alive t x);
}

-- A write to any of the fields that say nothing of memory and tasks.
pub rest-Still :
    (k : Kernel) {m : Links} {sems : ℕ → Semaphore} {b : CirBuffer} {ticks : ℤ} {regs : Machine}
    → Still k (record k {
      links = m;
      semaphores = sems;
      keyboard_buff = b;
      zeos_ticks = ticks;
      machine = regs;
    })
rest-Still k = record {
  mem = refl;
  tables = refl;
  dirs = refl;
  refs = refl;
  dir = λ t. refl;
  number = λ t. refl;
  break_at = λ t. refl;
  was_alive = λ t a. a;
}

-- A write to the fields of a task that is alive, other than its directory.
pub task-Still :
    (i : ℕ) (f : Task → Task) (k : Kernel)
    → alive i k ≡ true
    → (f (k.task i)).dir_pages_base_addr ≡ (k.task i).dir_pages_base_addr
    → (f (k.task i)).n_directorio ≡ (k.task i).n_directorio
    → (f (k.task i)).process_break ≡ (k.task i).process_break
    → Still k (set_task i f k)
task-Still i f k a d n b = record {
  mem = refl;
  tables = refl;
  dirs = refl;
  refs = refl;
  dir = λ t. ground arith;
  number = λ t. ground arith;
  break_at = λ t. ground arith;
  was_alive = λ t live. ground arith;
}
