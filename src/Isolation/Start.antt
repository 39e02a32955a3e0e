-- ===== src/Isolation/Start.antt =====
-- The memory of the first two tasks, as the start of the system makes it.
pub mod Tables
pub mod Made
use so2fib.Common.{
  ℕ, ◌+◌, ◌-◌, ◌*◌, ◌<◌, ◌≤◌, ◌≡◌, ◌≢◌, refl, ◌∙◌, ap, sym, arith, ℤ, pos, leb_ℤ, true, false, ◌⊎◌,
  inl, inr, Bool-cases, ◌==◌, ==-eq, subst, update, ltb, leb, ◌&&◌, if◌then◌else◌,
}
use so2fib.LinkedList.{list_del}
use so2fib.Task.{is_run, st_run}
use so2fib.Frames.{PhysMem, free_mark, init_frames}
use so2fib.Frames.Alloc.{init_frames_lem}
use so2fib.Frames.Trace.{allocs}
use so2fib.Paging.{PageTable, no_entry, set_user_pages}
use so2fib.Paging.Boot.{set_user_pages-allocs}
use so2fib.Kernel.{Kernel, nr_tasks, set_links}
use so2fib.Boot.{heap_start, start}
use so2fib.Boot.Lists.{
  on_stack, ready, idled, tasked, start-tasked, tasked-estado, tasked-idle_task,
}
use so2fib.Fork.Inherit.{OwnTables}
use so2fib.Fork.Memory.{data_frame}
use so2fib.Isolation.{alive, dir_of, frame_at, InHeap, IsIsolated}
use so2fib.Isolation.Start.Tables.{Fresh, init_sched-Fresh}
use so2fib.Isolation.Start.Made.{
  Idle, make_idle-Idle, First, make_task_1-First, allocs-used, allocs-taken,
}

-- The frame of data page `j` in the rows 0 and 1.
abbrev the_frame : ℕ → ℕ → ℕ
the_frame d j = if d == 0 then 0 else 272 + 2 * j

module _ (k : Kernel) (zeroed : (j : ℕ) → (k.task j).estado ≡ st_run) where
  pub fresh : Fresh (ready k)
  fresh = init_sched-Fresh k

  pub idle : Idle 14 (set_links (list_del 15) (ready k)) (idled k)
  idle = make_idle-Idle 14 _ (fresh.unused 0 (omega arith))

  pub own_idled : OwnTables (idled k)
  own_idled i lt = ap (λ f. (f i).pbase_addr) idle.dirs ∙ fresh.own_tables i lt

  pub first : First 13 14 (set_links (list_del 14) (idled k)) (tasked k)
  first =
      make_task_1-First 13 14 _ (omega arith) idle.refs_0
        (idle.refs_1 ∙ fresh.unused 1 (omega arith)) (own_idled 1 (omega arith))

  -- The frames, and the tables' entries from page 256 on.
  mem_before : (idled k).phys_mem ≡ init_frames fresh.before
  mem_before = idle.mem ∙ fresh.mem

  mem_after : (tasked k).phys_mem ≡ allocs 28 (init_frames fresh.before)
  mem_after =
      first.mem
      ∙ ap (λ m. (set_user_pages ((idled k).pagusr_table 1, m)).1) mem_before
      ∙ (set_user_pages-allocs ((idled k).pagusr_table 1) fresh.before).0

  empty_idled :
      (row p : ℕ) → row < nr_tasks → 256 ≤ p → p < 1024 → (idled k).pagusr_table row p ≡ no_entry
  empty_idled row p lt lo hi = ap (λ f. f row p) idle.tables ∙ fresh.empty row p lt lo hi

  pub row_1 :
      (p : ℕ)
      → (tasked k).pagusr_table 1 p
        ≡ (set_user_pages ((idled k).pagusr_table 1, init_frames fresh.before)).0 p
  row_1 p =
      ap (λ f. f 1 p) first.tables
      ∙ ap (λ m. (set_user_pages ((idled k).pagusr_table 1, m)).0 p) mem_before

  other_rows : (row p : ℕ) → row ≢ 1 → (tasked k).pagusr_table row p ≡ (idled k).pagusr_table row p
  other_rows row p ne = ap (λ f. f row p) first.tables ∙ ground arith

  heap_after :
      (row p : ℕ) → row < nr_tasks → 284 ≤ p → p < 1024 → (tasked k).pagusr_table row p ≡ no_entry
  heap_after row p lt lo hi = elim (Bool-cases (row == 1)) [
    | inl e ↦
        subst (λ r. (tasked k).pagusr_table r p ≡ no_entry) (sym (==-eq row 1 e))
          (row_1 p
            ∙ (set_user_pages-allocs ((idled k).pagusr_table 1) fresh.before).1 p
            ∙ ground (arith, empty_idled 1 p (omega arith) (omega arith) hi))
    | inr ne ↦ other_rows row p (ground arith) ∙ empty_idled row p lt (omega arith) hi
  ]

  -- The data pages of the first process are in the frames 272, 274, …, and those of the idle task in
  -- frame 0.
  frame_1 : (j : ℕ) → j < 20 → data_frame 1 j (tasked k) ≡ 272 + 2 * j
  frame_1 j h =
      ap (λ e. e.pbase_addr)
        (row_1 (264 + j)
          ∙ (set_user_pages-allocs ((idled k).pagusr_table 1) fresh.before).1 (264 + j))
      ∙ ground arith

  frame_0 : (j : ℕ) → j < 20 → data_frame 0 j (tasked k) ≡ 0
  frame_0 j h =
      ap (λ e. e.pbase_addr)
        (other_rows 0 (264 + j) (omega arith)
          ∙ empty_idled 0 (264 + j) (omega arith) (omega arith) (omega arith))

  abbrev begun : Kernel
  begun = on_stack 13 (tasked k)

  -- The first process and the idle task are the ones alive.
  two_alive : (t : ℕ) → alive t begun ≡ true → (t ≡ 13) ⊎ (t ≡ 14)
  two_alive t live =
      let runs : is_run ((tasked k).task t).estado ≡ true =
        ap is_run (tasked-estado k t (zeroed t)) in
      ground (arith, tasked-idle_task k)

  -- What a task has that uses row `d` of the two.
  record Uses (t d : ℕ) : Type 0 where
    dir : dir_of t begun ≡ d
    number : (begun.task t).n_directorio ≡ d
    is_two : (d ≡ 0) ⊎ (d ≡ 1)
    counted : begun.refs_dir d ≡ pos 2
    break_at : (begun.task t).process_break ≡ heap_start

  process-Uses : Uses 13 1
  process-Uses = record {
    dir = first.dir;
    number = first.number;
    is_two = inr refl;
    counted = first.refs_1;
    break_at = first.break_at;
  }

  idle-Uses : Uses 14 0
  idle-Uses = record {
    dir = ap (λ t. t.dir_pages_base_addr) first.other ∙ idle.dir;
    number = ap (λ t. t.n_directorio) first.other ∙ idle.number;
    is_two = inl refl;
    counted = first.refs_0 ∙ idle.refs_0;
    break_at = ap (λ t. t.process_break) first.other ∙ idle.break_at;
  }

  uses : (t : ℕ) → alive t begun ≡ true → (d : ℕ) × Uses t d
  uses t live = elim (two_alive t live) [
    | inl e ↦ (1, subst (λ i. Uses i 1) (sym e) process-Uses)
    | inr e ↦ (0, subst (λ i. Uses i 0) (sym e) idle-Uses)
  ]

  frame_of_row : (d j : ℕ) → (d ≡ 0) ⊎ (d ≡ 1) → j < 20 → data_frame d j begun ≡ the_frame d j
  frame_of_row d j (inl e) h = ap (λ r. data_frame r j begun) e ∙ frame_0 j h ∙ ground arith
  frame_of_row d j (inr e) h = ap (λ r. data_frame r j begun) e ∙ frame_1 j h ∙ ground arith

  frame_begun : {t d : ℕ} (j : ℕ) → Uses t d → j < 20 → frame_at t j begun ≡ the_frame d j
  frame_begun {d} j u h = ap (λ r. data_frame r j begun) u.dir ∙ frame_of_row d j u.is_two h

  frame_taken : (d j : ℕ) → (d ≡ 0) ⊎ (d ≡ 1) → j < 20 → begun.phys_mem (the_frame d j) ≢ free_mark
  frame_taken d j (inl e) h =
      let at : the_frame d j ≡ 0 = ground arith in
      rw (at, mem_after)
        (allocs-used 28 (init_frames fresh.before) 0
          (λ free. ground (arith, init_frames_lem fresh.before 0, free)))
  frame_taken d j (inr e) h =
      let at : the_frame d j ≡ 256 + 2 * (8 + j) = ground arith in
      rw (at, mem_after) (allocs-taken fresh.before (8 + j) (omega arith))

  -- The two tasks do not use one directory.
  apart_dirs :
      (t t' : ℕ)
      → t ≢ t'
      → alive t begun ≡ true
      → alive t' begun ≡ true
      → dir_of t begun ≢ dir_of t' begun
  apart_dirs t t' ne a a' e =
      ground (arith, two_alive t a, two_alive t' a', process-Uses.dir, idle-Uses.dir)

  begun-IsIsolated : IsIsolated begun
  begun-IsIsolated = record {
    own_tables = λ i lt. ap (λ f. (f i).pbase_addr) first.dirs ∙ own_idled i lt;
    placed = λ t a. let (d, u) = uses t a in ground (arith, u.dir, u.is_two);
    numbered = λ t a. let (d, u) = uses t a in u.number ∙ sym u.dir;
    counted = λ t a. let (d, u) = uses t a in rw (u.dir, u.counted) (ground arith);
    twice = λ t t' ne a a' e. absurd (apart_dirs t t' ne a a' e);
    in_use =
        λ t j a h. let (d, u) = uses t a in rw (frame_begun j u h) (frame_taken d j u.is_two h);
    apart = λ t t' j j' a a' h h' low same.
        let (d, u) = uses t a in
        let (d', u') = uses t' a' in
        let f = frame_begun j u h in
        let f' = frame_begun j' u' h' in ground (arith, u.is_two, u'.is_two, u.dir, u'.dir);
    no_heap = λ row p lt lo hi. heap_after row p lt lo hi;
    break_in = λ t a. let (d, u) = uses t a in rw u.break_at (omega arith, omega arith);
  }

-- After the start of the system on a memory of zeros, the first process and the idle task are
-- isolated.
pub start-IsIsolated : (k : Kernel) → ((j : ℕ) → (k.task j).estado ≡ st_run) → IsIsolated (start k)
start-IsIsolated k zeroed = subst IsIsolated (sym (start-tasked k)) (begun-IsIsolated k zeroed)
