-- ===== src/Fork/Inherit.antt =====
-- The memory of the task that `sys_fork` makes: all of its user pages.
use so2fib.Common.{
  ℕ, ◌+◌, ◌<◌, ◌≡◌, ◌≢◌, refl, ◌∙◌, ap, sym, true, false, List, ◌∷◌, Option-cases, Bool-cases, inl,
  inr, arith, ℤ, pos, ltb_ℤ, Bool, ap₂,
}
use mathlib.Core.Path.{subst₂}
use so2fib.LinkedList.{Addr}
use so2fib.Frames.{free_mark}
use so2fib.Paging.{Entry}
use so2fib.Task.{Task}
use so2fib.Kernel.{Kernel, task_list, freequeue, current, nr_tasks}
use so2fib.Sched.{get_dir}
use so2fib.Sched.Next.{list_head_to_task_struct-task_list}
use so2fib.Sched.Shape.{QueueMap, Valid}
use so2fib.Semaphores.Signal.{empty_of_cons}
use so2fib.Space.{get_pt, set_cr3, copy_union}
use so2fib.Processes.{find_dir, allocate_dir}
use so2fib.Processes.Directory.{Allocated, taken, all_used, IsUnused, allocate_dir-Allocated}
use so2fib.Fork.{enomem, fork_end, fork_space, fork_task, sys_fork}
use so2fib.Fork.Birth.{born, born-ne}
use so2fib.Fork.Outcome.{first_free}
use so2fib.Fork.Memory.{InUse, data_frame}
use so2fib.Fork.Filled.{Inherits, Inherits-from, filled, filled-Inherits, filled-rest}

-- The row of task `t`'s table, for a table of its own.
fork_end-get_pt : (t : ℕ) (k : Kernel) → get_pt t (fork_end (task_list t) k).1 ≡ get_pt t k
unfolding fork_end get_pt get_dir set_cr3 current
fork_end-get_pt t k = rw (list_head_to_task_struct-task_list t) (ground arith)

fork_end-Inherits :
    (new parent t : ℕ) (k k' : Kernel)
    → Inherits new parent k k'
    → Inherits new parent k (fork_end (task_list t) k').1
unfolding fork_end set_cr3 current
fork_end-Inherits new parent t k k' w =
    let c = w.copies in
    record {
      apart = w.apart;
      shared = w.shared;
      copies = record {
        used = c.used;
        bytes = c.bytes;
        copy = c.copy;
        fresh = c.fresh;
        taken = c.taken;
        distinct = c.distinct;
        other = c.other;
        parent_keeps = c.parent_keeps;
      };
      heap_gone = w.heap_gone;
    }

module _ (t : ℕ) (k : Kernel) where
  abbrev new_row : ℕ
  new_row = get_pt t k

  abbrev parent_row : ℕ
  parent_row = get_pt k.running k

  abbrev spaced : Bool × Kernel
  spaced = filled new_row parent_row k

  fork_space-done : spaced.0 ≡ true → fork_space (task_list t) k ≡ fork_end (task_list t) spaced.1
  unfolding fork_space current
  fork_space-done e = rw (list_head_to_task_struct-task_list t, e) refl

  fork_space-full : spaced.0 ≡ false → (fork_space (task_list t) k).0 ≡ enomem
  unfolding fork_space current
  fork_space-full e = rw (list_head_to_task_struct-task_list t, e) refl

  spaced-get_pt : get_pt t spaced.1 ≡ new_row
  unfolding get_pt get_dir
  spaced-get_pt =
      let (d, p) = filled-rest new_row parent_row k in
      ap₂ (λ (f : ℕ → Entry) (g : ℕ → Task). (f (g t).dir_pages_base_addr).pbase_addr) d p

  fork_space-Inherits :
      (ne : parent_row ≢ new_row)
      → InUse new_row parent_row ne 20 0 k
      → (fork_space (task_list t) k).0 ≢ enomem
      → let k' = (fork_space (task_list t) k).1 in
        Inherits new_row parent_row k k' × (get_pt t k' ≡ new_row)
  fork_space-Inherits ne in_use some_left = elim (Bool-cases spaced.0) [
    | inl e ↦ rw (fork_space-done e) (
      fork_end-Inherits new_row parent_row t k spaced.1
          (filled-Inherits new_row parent_row ne k in_use e),
      fork_end-get_pt t spaced.1 ∙ spaced-get_pt,
    )
    | inr e ↦ absurd (some_left (fork_space-full e))
  ]

-- What `allocate_dir` leaves alone.
allocate_dir-rest :
    (p : ℕ) (k : Kernel)
    → let k' = (allocate_dir p k).1 in
      (k'.phys_mem ≡ k.phys_mem)
      × (k'.ram ≡ k.ram)
      × (k'.pagusr_table ≡ k.pagusr_table)
      × (k'.dir_pages ≡ k.dir_pages)
      × (k'.running ≡ k.running)
      × ((j : ℕ) → j ≢ p → get_dir j k' ≡ get_dir j k)
unfolding allocate_dir get_dir
allocate_dir-rest p k = elim (Option-cases (find_dir nr_tasks 0 k.refs_dir)) [
  | inl e ↦ rw (e, allocate_dir) (refl, refl, refl, refl, refl, λ j ne. refl)
  | inr (i, e) ↦ rw (e, allocate_dir) (refl, refl, refl, refl, refl, λ j ne. ground arith)
]

Allocated-row :
    {p : ℕ} {k : Kernel} {r : ℤ × Kernel}
    → Allocated p k r
    → ltb_ℤ r.0 (pos 0) ≡ false
    → (i : ℕ) × (i < nr_tasks) × IsUnused k.refs_dir i × (get_dir p r.1 ≡ i)
Allocated-row (taken lt u _ d _ _) e = (_, lt, u, d)
Allocated-row (all_used _) e = cc

-- Each directory refers to the table of its own row, as `init_dir_pages` leaves it.
abbrev pub OwnTables : Kernel → Type 0
OwnTables k = (i : ℕ) → i < nr_tasks → (k.dir_pages i).pbase_addr ≡ i

module _ {k : Kernel} {q : QueueMap} (v : Valid k q) (t : ℕ) (rs : List Addr)
    (e : q freequeue ≡ task_list t ∷ rs) (own : OwnTables k)
    (in_table : get_dir k.running k < nr_tasks)
    (held : k.refs_dir (get_dir k.running k) ≢ pos 0) where
  abbrev placed : ℤ × Kernel
  placed = allocate_dir t (born v t rs e)

  born-get_dir : get_dir k.running (born v t rs e) ≡ get_dir k.running k
  unfolding copy_union get_dir
  born-get_dir = ground arith

  parent-placed : get_dir k.running placed.1 ≡ get_dir k.running k
  unfolding copy_union
  parent-placed =
      let (_, _, _, _, _, dirs) = allocate_dir-rest t (born v t rs e) in
      dirs k.running (born-ne v t rs e) ∙ born-get_dir

  placed-OwnTables : OwnTables placed.1
  unfolding copy_union
  placed-OwnTables i lt =
      let (_, _, _, dirs, _, _) = allocate_dir-rest t (born v t rs e) in
      ap (λ f. (f i).pbase_addr) dirs ∙ own i lt

  parent_row-placed : parent_row t placed.1 ≡ get_dir k.running k
  unfolding get_pt copy_union
  parent_row-placed =
      let (_, _, _, _, r, _) = allocate_dir-rest t (born v t rs e) in
      let at : get_dir placed.1.running placed.1 ≡ get_dir k.running k =
        ap (λ j. get_dir j placed.1) r ∙ parent-placed in
      placed-OwnTables (get_dir placed.1.running placed.1) (rw at in_table) ∙ at

  own_row : get_pt k.running k ≡ get_dir k.running k
  unfolding get_pt
  own_row = own (get_dir k.running k) in_table

  module _ (some_dir : ltb_ℤ placed.0 (pos 0) ≡ false) where
    apart-placed : parent_row t placed.1 ≢ new_row t placed.1
    unfolding get_pt copy_union
    apart-placed same =
        let (i, lt, unused, at) =
          Allocated-row (allocate_dir-Allocated t (born v t rs e)) some_dir in
        let there : get_dir k.running k ≡ i =
          sym parent_row-placed ∙ same ∙ placed-OwnTables (get_dir t placed.1) (rw at lt) ∙ at in
        held (ap k.refs_dir there ∙ unused)

    sys_fork-placed : sys_fork k ≡ fork_space (task_list t) placed.1
    unfolding sys_fork fork_task current
    sys_fork-placed =
        rw
          (
            empty_of_cons v freequeue refl e,
            first_free v t rs e,
            list_head_to_task_struct-task_list t,
            some_dir,
          )
          refl

  sys_fork-none : ltb_ℤ placed.0 (pos 0) ≡ true → (sys_fork k).0 ≡ enomem
  unfolding sys_fork fork_task current
  sys_fork-none none_left =
      rw
        (
          empty_of_cons v freequeue refl e,
          first_free v t rs e,
          list_head_to_task_struct-task_list t,
          none_left,
        )
        refl

  -- In a kernel whose lists are well formed, whose directories each refer to the table of their
  -- row, and where the current task's directory is one of them and counted and its 20 data pages are in frames in
  -- use: a `sys_fork` that finds a free task and does not return -ENOMEM gives that task a table of
  -- its own, with the entries of the kernel's pages and the code pages that the parent has, and
  -- with each data page in a frame of its own that was free, holding the bytes that the parent's page held.
  -- The frames that were in use keep their bytes, and the parent keeps its data pages. But the 20
  -- pages behind these, with which the parent's heap begins, are not mapped any more.
  pub sys_fork-Inherits :
      ((j : ℕ) → j < 20 → k.phys_mem (data_frame (get_pt k.running k) j k) ≢ free_mark)
      → (sys_fork k).0 ≢ enomem
      → let k' = (sys_fork k).1 in Inherits (get_pt t k') (get_pt k.running k) k k'
  unfolding copy_union
  sys_fork-Inherits in_use done = elim (Bool-cases (ltb_ℤ placed.0 (pos 0))) [
    | inl none_left ↦ absurd (done (sys_fork-none none_left))
    | inr ok ↦
        let (mem, bytes, tables, _, _, _) = allocate_dir-rest t (born v t rs e) in
        let eq = sys_fork-placed ok in
        let same_row : parent_row t placed.1 ≡ get_pt k.running k =
          parent_row-placed ∙ sym own_row in
        let placed_in_use : InUse (new_row t placed.1) (parent_row t placed.1) (apart-placed ok) 20
            0 placed.1 =
          λ j lo hi free. in_use j (omega arith) (
            ap (λ row. k.phys_mem (data_frame row j k)) (sym same_row)
            ∙ sym (ap (λ f. k.phys_mem (f (parent_row t placed.1) (264 + j)).pbase_addr) tables)
            ∙ sym (ap (λ f. f (data_frame (parent_row t placed.1) j placed.1)) mem)
            ∙ free) in
        let (w, at) =
          fork_space-Inherits t placed.1 (apart-placed ok) placed_in_use
            (λ full. done (ap (λ r. r.0) eq ∙ full)) in
        rw eq (
          subst₂ (λ new parent. Inherits new parent k (fork_space (task_list t) placed.1).1)
            (sym at) same_row
            (Inherits-from (new_row t placed.1) (parent_row t placed.1) k placed.1
              (fork_space (task_list t) placed.1).1 mem bytes tables w))
  ]
