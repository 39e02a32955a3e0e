-- ===== src/Isolation/Start/Made.antt =====
-- `init_idle` and `init_task1` for their tasks: the directories, and the frames of the first process.
use so2fib.Common.{ℕ, zero, suc, ◌+◌, ◌*◌, ◌<◌, ◌≡◌, ◌≢◌, refl, arith, ℤ, pos, some, eqb_ℤ, update}
use so2fib.Frames.{PhysMem, free_mark, init_frames}
use so2fib.Frames.Alloc.{IsCandidate}
use so2fib.Frames.Trace.{allocs, UsedBelow-allocs}
use so2fib.Paging.{set_user_pages}
use so2fib.Kernel.{Kernel, nr_tasks}
use so2fib.Sched.{get_dir}
use so2fib.Space.{get_pt}
use so2fib.Processes.{find_dir, allocate_dir, get_dir_position}
use so2fib.Boot.{make_idle, make_task_1, heap_start}
use so2fib.Isolation.{dir_of}
use so2fib.Isolation.Used.{alloc_frame-KeepsUsed}

find_dir-first : (refs : ℕ → ℤ) → refs 0 ≡ pos 0 → find_dir nr_tasks 0 refs ≡ some 0
unfolding find_dir eqb_ℤ
find_dir-first refs e = rw e refl

find_dir-second :
    (refs : ℕ → ℤ) → refs 0 ≡ pos 2 → refs 1 ≡ pos 0 → find_dir nr_tasks 0 refs ≡ some 1
unfolding find_dir eqb_ℤ
find_dir-second refs e e' = rw (e, e') refl

-- What `make_idle` leaves.
pub record Idle (ts : ℕ) (k k' : Kernel) : Type 0 where
  pub dir : dir_of ts k' ≡ 0
  pub number : (k'.task ts).n_directorio ≡ 0
  pub break_at : (k'.task ts).process_break ≡ heap_start
  pub refs_0 : k'.refs_dir 0 ≡ pos 2
  pub refs_1 : k'.refs_dir 1 ≡ k.refs_dir 1
  pub dirs : k'.dir_pages ≡ k.dir_pages
  pub tables : k'.pagusr_table ≡ k.pagusr_table
  pub mem : k'.phys_mem ≡ k.phys_mem

pub make_idle-Idle : (ts : ℕ) (k : Kernel) → k.refs_dir 0 ≡ pos 0 → Idle ts k (make_idle ts k)
unfolding make_idle get_dir_position allocate_dir
make_idle-Idle ts k e =
    rw (find_dir-first k.refs_dir e, allocate_dir)
      (record {
        dir = ground arith;
        number = ground arith;
        break_at = ground arith;
        refs_0 = ground (arith, e);
        refs_1 = ground arith;
        dirs = refl;
        tables = refl;
        mem = refl;
      })

-- What `make_task_1` leaves, for a task that is not the idle one.
pub record First (ts idle : ℕ) (k k' : Kernel) : Type 0 where
  pub dir : dir_of ts k' ≡ 1
  pub number : (k'.task ts).n_directorio ≡ 1
  pub break_at : (k'.task ts).process_break ≡ heap_start
  pub refs_0 : k'.refs_dir 0 ≡ k.refs_dir 0
  pub refs_1 : k'.refs_dir 1 ≡ pos 2
  pub other : k'.task idle ≡ k.task idle
  pub dirs : k'.dir_pages ≡ k.dir_pages
  pub tables :
      k'.pagusr_table ≡ update k.pagusr_table 1 (set_user_pages (k.pagusr_table 1, k.phys_mem)).0
  pub mem : k'.phys_mem ≡ (set_user_pages (k.pagusr_table 1, k.phys_mem)).1

pub make_task_1-First :
    (ts idle : ℕ) (k : Kernel)
    → idle ≢ ts
    → k.refs_dir 0 ≡ pos 2
    → k.refs_dir 1 ≡ pos 0
    → (k.dir_pages 1).pbase_addr ≡ 1
    → First ts idle k (make_task_1 ts k)
unfolding make_task_1 get_dir_position get_pt get_dir allocate_dir
make_task_1-First ts idle k ne e e' own =
    rw (find_dir-second k.refs_dir e e', allocate_dir)
      (record {
        dir = ground arith;
        number = ground arith;
        break_at = ground arith;
        refs_0 = ground arith;
        refs_1 = ground (arith, e');
        other = ground arith;
        dirs = refl;
        tables = ground (arith, own);
        mem = ground (arith, own);
      })

-- Frames in use stay in use, and the first 28 frames that were given out are.
pub allocs-used : (n : ℕ) (mem : PhysMem) (x : ℕ) → mem x ≢ free_mark → allocs n mem x ≢ free_mark
unfolding allocs
allocs-used zero mem x u = u
allocs-used (suc n) mem x u = alloc_frame-KeepsUsed (allocs n mem) x (allocs-used n mem x u)

pub allocs-taken :
    (mem : PhysMem) (j : ℕ) → j < 28 → allocs 28 (init_frames mem) (256 + 2 * j) ≢ free_mark
allocs-taken mem j h free =
    let c : IsCandidate 256 (256 + 2 * j) = record {
      after = omega arith;
      inside = omega arith;
      step = omega arith;
    } in
    ground (arith, UsedBelow-allocs 28 mem (omega arith) (256 + 2 * j) c, free)
