-- ===== src/Isolation/Start/Tables.antt =====
-- Directories, tables, counts and frames before the first tasks are made.
use so2fib.Common.{
  ℕ, true, zero, suc, ◌+◌, ◌<◌, ◌≤◌, ◌≡◌, refl, ◌∙◌, ap, arith, ◌⊎◌, inl, inr, pos, Option-cases,
}
use so2fib.Frames.{PhysMem, init_frames}
use so2fib.Paging.{Entry, PageTable, no_entry, init_table_pages}
use so2fib.Paging.Boot.{kernel_entry, init_table_pages_lem}
use so2fib.Kernel.{Kernel, nr_tasks, nr_semaphores}
use so2fib.Space.{init_dirs, init_dir_pages, set_mem, set_cr3}
use so2fib.Processes.{find_dir, allocate_dir}
use so2fib.Fork.Inherit.{OwnTables}
use so2fib.Boot.{init_tables, init_mm, free_tasks, clear_refs, free_sems, init_sched}

-- Directories, tables and frames are as they were.
pub record SameSpace (k k' : Kernel) : Type 0 where
  pub dirs : k'.dir_pages ≡ k.dir_pages
  pub tables : k'.pagusr_table ≡ k.pagusr_table
  pub mem : k'.phys_mem ≡ k.phys_mem

SameSpace-trans : {k k' k'' : Kernel} → SameSpace k k' → SameSpace k' k'' → SameSpace k k''
SameSpace-trans a b = record {
  dirs = b.dirs ∙ a.dirs;
  tables = b.tables ∙ a.tables;
  mem = b.mem ∙ a.mem;
}

pub allocate_dir-SameSpace : (p : ℕ) (k : Kernel) → SameSpace k (allocate_dir p k).1
unfolding allocate_dir
allocate_dir-SameSpace p k = elim (Option-cases (find_dir nr_tasks 0 k.refs_dir)) [
  | inl e ↦ rw (e, allocate_dir) (record { dirs = refl; tables = refl; mem = refl })
  | inr (i, e) ↦ rw (e, allocate_dir) (record { dirs = refl; tables = refl; mem = refl })
]

free_tasks-SameSpace : (n i : ℕ) (k : Kernel) → SameSpace k (free_tasks n i k)
unfolding free_tasks
free_tasks-SameSpace zero i k = record { dirs = refl; tables = refl; mem = refl }
free_tasks-SameSpace (suc n) i k =
    let r = free_tasks-SameSpace n (i + 1) _ in
    record { dirs = r.dirs; tables = r.tables; mem = r.mem }

clear_refs-SameSpace : (n i : ℕ) (k : Kernel) → SameSpace k (clear_refs n i k)
unfolding clear_refs
clear_refs-SameSpace zero i k = record { dirs = refl; tables = refl; mem = refl }
clear_refs-SameSpace (suc n) i k =
    let r = clear_refs-SameSpace n (i + 1) _ in
    record { dirs = r.dirs; tables = r.tables; mem = r.mem }

free_sems-SameSpace : (n i : ℕ) (k : Kernel) → SameSpace k (free_sems n i k)
unfolding free_sems
free_sems-SameSpace zero i k = record { dirs = refl; tables = refl; mem = refl }
free_sems-SameSpace (suc n) i k =
    let r = free_sems-SameSpace n (i + 1) _ in
    record { dirs = r.dirs; tables = r.tables; mem = r.mem }

init_sched-SameSpace : (k : Kernel) → SameSpace k (init_sched k)
unfolding init_sched
init_sched-SameSpace k =
    SameSpace-trans
      (SameSpace-trans (record { dirs = refl; tables = refl; mem = refl })
        (free_tasks-SameSpace nr_tasks 0 _))
      (SameSpace-trans
        (SameSpace-trans (record { dirs = refl; tables = refl; mem = refl })
          (clear_refs-SameSpace nr_tasks 0 _))
        (free_sems-SameSpace nr_semaphores 0 _))

-- The loops over directories, tables and counts.
init_dirs-own :
    (n i : ℕ) (k : Kernel) (j : ℕ)
    → ((i ≤ j) × (j < i + n)) ⊎ ((k.dir_pages j).pbase_addr ≡ j)
    → ((init_dirs n i k).dir_pages j).pbase_addr ≡ j
unfolding init_dirs
init_dirs-own zero i k j h = ground (arith, h)
init_dirs-own (suc n) i k j h = init_dirs-own n (i + 1) _ j (ground (arith, h))

init_dirs-present :
    (n i : ℕ) (k : Kernel) (j : ℕ)
    → ((i ≤ j) × (j < i + n)) ⊎ ((k.dir_pages j).present ≡ true)
    → ((init_dirs n i k).dir_pages j).present ≡ true
unfolding init_dirs
init_dirs-present zero i k j h = ground (arith, h)
init_dirs-present (suc n) i k j h = init_dirs-present n (i + 1) _ j (ground (arith, h))

-- An entry that `init_table_pages` makes the same whatever the table was.
init_tables-entry :
    (n i : ℕ) (k : Kernel) (row p : ℕ) (e : Entry)
    → ((pt : PageTable) → init_table_pages pt p ≡ e)
    → ((i ≤ row) × (row < i + n)) ⊎ (k.pagusr_table row p ≡ e)
    → (init_tables n i k).pagusr_table row p ≡ e
unfolding init_tables
init_tables-entry zero i k row p e made h = ground (arith, h)
init_tables-entry (suc n) i k row p e made h =
    init_tables-entry n (i + 1) _ row p e made (ground (arith, h, made (k.pagusr_table i)))

clear_refs-none :
    (n i : ℕ) (k : Kernel) (j : ℕ)
    → ((i ≤ j) × (j < i + n)) ⊎ (k.refs_dir j ≡ pos 0)
    → (clear_refs n i k).refs_dir j ≡ pos 0
unfolding clear_refs
clear_refs-none zero i k j h = ground (arith, h)
clear_refs-none (suc n) i k j h = clear_refs-none n (i + 1) _ j (ground (arith, h))

free_sems-refs : (n i : ℕ) (k : Kernel) → (free_sems n i k).refs_dir ≡ k.refs_dir
unfolding free_sems
free_sems-refs zero i k = refl
free_sems-refs (suc n) i k = free_sems-refs n (i + 1) _

init_dirs-rest :
    (n i : ℕ) (k : Kernel)
    → ((init_dirs n i k).pagusr_table ≡ k.pagusr_table) × ((init_dirs n i k).phys_mem ≡ k.phys_mem)
unfolding init_dirs
init_dirs-rest zero i k = (refl, refl)
init_dirs-rest (suc n) i k = init_dirs-rest n (i + 1) _

-- Every directory refers to the table of its row and is used by nobody, each table maps the kernel's
-- pages and no user page, and the frames are as `init_frames` leaves them.
pub record Fresh (k : Kernel) : Type 0 where
  pub own_tables : OwnTables k
  pub empty : (row p : ℕ) → row < nr_tasks → 256 ≤ p → p < 1024 → k.pagusr_table row p ≡ no_entry
  pub present : (i : ℕ) → i < nr_tasks → (k.dir_pages i).present ≡ true
  pub kernel_pages :
      (row p : ℕ)
      → row < nr_tasks
      → 1 ≤ p
      → p < 256
      → k.pagusr_table row p ≡ kernel_entry p no_entry
  pub unused : (j : ℕ) → j < nr_tasks → k.refs_dir j ≡ pos 0
  pub before : PhysMem
  pub mem : k.phys_mem ≡ init_frames before

module _ (k : Kernel) where
  abbrev tabled : Kernel
  tabled = init_tables nr_tasks 0 k

  abbrev framed : Kernel
  framed = set_mem (init_frames tabled.phys_mem) tabled

  abbrev directed : Kernel
  directed = init_dirs nr_tasks 0 framed

  init_mm-SameSpace : SameSpace directed (init_mm k)
  unfolding init_mm init_dir_pages set_cr3
  init_mm-SameSpace =
      let a = allocate_dir-SameSpace 0 directed in
      record { dirs = a.dirs; tables = a.tables; mem = a.mem }

  readied : SameSpace directed (init_sched (init_mm k))
  readied = SameSpace-trans init_mm-SameSpace (init_sched-SameSpace (init_mm k))

  refs-readied : (j : ℕ) → j < nr_tasks → (init_sched (init_mm k)).refs_dir j ≡ pos 0
  unfolding init_sched
  refs-readied j lt =
      ap (λ f. f j) (free_sems-refs nr_semaphores 0 _)
      ∙ clear_refs-none nr_tasks 0 _ j (inl (omega arith))

  pub init_sched-Fresh : Fresh (init_sched (init_mm k))
  init_sched-Fresh =
      let (tables, mem) = init_dirs-rest nr_tasks 0 framed in
      record {
        own_tables = λ i lt.
            ap (λ f. (f i).pbase_addr) readied.dirs
            ∙ init_dirs-own nr_tasks 0 framed i (inl (omega arith));
        empty = λ row p lt lo hi.
            ap (λ f. f row p) readied.tables
            ∙ ap (λ f. f row p) tables
            ∙ init_tables-entry nr_tasks 0 k row p no_entry
                (λ pt. init_table_pages_lem pt p hi ∙ ground arith) (inl (omega arith));
        present = λ i lt.
            ap (λ f. (f i).present) readied.dirs
            ∙ init_dirs-present nr_tasks 0 framed i (inl (omega arith));
        kernel_pages = λ row p lt lo hi.
            ap (λ f. f row p) readied.tables
            ∙ ap (λ f. f row p) tables
            ∙ init_tables-entry nr_tasks 0 k row p (kernel_entry p no_entry)
                (λ pt. init_table_pages_lem pt p (omega arith) ∙ ground arith) (inl (omega arith));
        unused = refs-readied;
        before = tabled.phys_mem;
        mem = readied.mem ∙ mem;
      }
