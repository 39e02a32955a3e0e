-- ===== src/Isolation/Heap.antt =====
-- `sys_sbrk` where no page is mapped behind the data: the break moves, and nothing else.
use so2fib.Common.{
  ℕ, zero, suc, ◌+◌, ◌-◌, ◌/◌, ◌%◌, ◌^◌, ◌<◌, ◌≤◌, ◌≡◌, ◌≢◌, refl, ap, true, false, arith, ℤ, pos,
  ltb, ltb_ℤ, inl, inr, ◌⊎◌, ◌==◌, Bool-cases, if◌then◌else◌, update-id,
}
use so2fib.Frames.{PhysMem, free_frame}
use so2fib.Paging.{PageTable, no_entry, del_ss_pag, get_frame}
use so2fib.Kernel.{Kernel, nr_tasks, current}
use so2fib.Sched.{get_dir}
use so2fib.Space.{get_pt, set_cr3}
use so2fib.Boot.{heap_start}
use so2fib.Fork.{enomem}
use so2fib.Processes.{to_unsigned}
use so2fib.Sbrk.{
  drop_page, grow_pages, shrink_pages, set_break, flush, add_int, clamp, move_break, sys_sbrk,
}
use so2fib.Sbrk.Grow.{break_of, grow_pages-none}
use so2fib.Isolation.{dir_of, IsIsolated, InHeap, rest-Still}
use so2fib.Isolation.Sched.{alive-running}
use so2fib.Isolation.Moves.{as_before, Moves, keeps-CountTwice, Moves-IsIsolated, Still-IsIsolated}

frame_none : (i : ℕ) (pt : PageTable) → pt i ≡ no_entry → get_frame i pt ≡ 0
unfolding get_frame
frame_none i pt e = ap (λ x. x.pbase_addr) e

free_none : (mem : PhysMem) → free_frame 0 mem ≡ mem
unfolding free_frame
free_none mem = refl

-- The break that a call asks for, and the page in which it would be.
abbrev pub asked_break : ℤ → Kernel → ℕ
asked_break incr k = add_int (break_of k) (clamp (break_of k) incr)

abbrev pub asked_page : ℤ → Kernel → ℕ
asked_page incr k = asked_break incr k / 4096

-- To drop a page that is not mapped changes nothing.
drop_page-none :
    (row i : ℕ) (k : Kernel) → i < 1024 → k.pagusr_table row i ≡ no_entry → drop_page row i k ≡ k
unfolding drop_page del_ss_pag
drop_page-none row i k h e =
    let at : row + i / 1024 ≡ row = omega arith in
    let page : i % 1024 ≡ i = omega arith in
    rw
      (
        at,
        page,
        frame_none i (k.pagusr_table row) e,
        update-id (k.pagusr_table row) i no_entry e,
        free_none k.phys_mem,
      )
      (ap (λ f. record k { pagusr_table = f })
        (update-id k.pagusr_table row (k.pagusr_table row) refl))

-- The clamped increment leads to the start of the heap, or behind it.
clamped : (old : ℕ) (incr : ℤ) → InHeap old → heap_start ≤ add_int old (clamp old incr)
unfolding clamp
clamped old incr (lo, hi) = elim (Bool-cases (ltb (add_int old incr) heap_start)) [
  | inr above ↦ rw above (ground arith)
  | inl below ↦ rw below (ground arith)
]

set_break-Moves : (b : ℕ) (k : Kernel) → InHeap b → Moves 0 k (set_break b k)
unfolding current
set_break-Moves b k inside = record {
  dirs = refl;
  used = λ x u. u;
  refs = λ r e. e;
  twice = keeps-CountTwice k (set_break b k) (λ t a. (ground arith, ground arith)) (λ r e. e);
  frames = λ t j a h. refl;
  heap = λ row p lo hi e. e;
  origin = λ t a.
      as_before t (ground arith) (ground arith) (ground arith)
        (λ old. elim (Bool-cases (t == k.running)) [ inl e ↦ rw e inside | inr ne ↦ rw ne old ]);
}

set_break-IsIsolated : (b : ℕ) (k : Kernel) → InHeap b → IsIsolated k → IsIsolated (set_break b k)
set_break-IsIsolated b k inside c = Moves-IsIsolated c (set_break-Moves b k inside)

flush-IsIsolated : (k : Kernel) → IsIsolated k → IsIsolated (flush k)
unfolding set_cr3
flush-IsIsolated k c = Still-IsIsolated (rest-Still k) c

-- How a call ends.
data Moved (old new : ℕ) (k : Kernel) : ℕ × Kernel → Type 0 where
  refused : Moved old new k (to_unsigned enomem, k)
  moved : InHeap new → Moved old new k (old, set_break new k)
  flushed : InHeap new → Moved old new k (old, set_break new (flush k))

Moved-IsIsolated :
    {old new : ℕ} {k : Kernel} {r : ℕ × Kernel} → IsIsolated k → Moved old new k r → IsIsolated r.1
Moved-IsIsolated c refused = c
Moved-IsIsolated {new} {k} c (moved inside) = set_break-IsIsolated new k inside c
Moved-IsIsolated {new} {k} c (flushed inside) =
    set_break-IsIsolated new (flush k) inside (flush-IsIsolated k c)

Moved-nothing :
    {old new : ℕ} {k : Kernel} {r : ℕ × Kernel}
    → Moved old new k r
    → (((r.0 ≡ to_unsigned enomem) × (r.1 ≡ k)) ⊎ ((r.0 ≡ old) × (break_of r.1 ≡ new)))
      × (r.1.pagusr_table ≡ k.pagusr_table)
      × (r.1.phys_mem ≡ k.phys_mem)
unfolding set_cr3 current
Moved-nothing refused = (inl (refl, refl), refl, refl)
Moved-nothing (moved inside) = (inr (refl, ground arith), refl, refl)
Moved-nothing (flushed inside) = (inr (refl, ground arith), refl, refl)

module _ {k : Kernel} (c : IsIsolated k) where
  row_in_table : get_pt k.running k < nr_tasks
  unfolding get_pt get_dir
  row_in_table =
      let lt = c.placed k.running (alive-running k) in rw (c.own_tables (dir_of k.running k) lt) lt

  shrink_pages-none :
      (n i : ℕ) → 284 + n ≤ i + 1 → i < 1024 → shrink_pages n i (get_pt k.running k) k ≡ (true, k)
  unfolding shrink_pages
  shrink_pages-none zero i h lt = refl
  shrink_pages-none (suc n) i h lt =
      let none_there = c.no_heap (get_pt k.running k) i row_in_table (omega arith) lt in
      let high : ltb i 284 ≡ false = ground arith in
      rw (high, drop_page-none (get_pt k.running k) i k lt none_there)
        (shrink_pages-none n (i - 1) (omega arith) (omega arith))

  grow_pages-absent :
      (n i undo_to : ℕ)
      → 284 ≤ i
      → i + n ≤ 1024
      → grow_pages n i undo_to (get_pt k.running k) k ≡ (true, k)
  grow_pages-absent n i undo_to lo hi =
      let row = get_pt k.running k in
      grow_pages-none n i undo_to row k (λ j from to.
        let at : row + j / 1024 ≡ row = omega arith in
        let page : j % 1024 ≡ j = omega arith in
        rw (at, page)
          (ap (λ x. x.present) (c.no_heap row j row_in_table (omega arith) (omega arith))))

  -- Every way out of the call, for a break `new` that leads to no page behind the table.
  move_break-Moved :
      (old new : ℕ) (incr : ℤ)
      → InHeap old
      → add_int old incr ≡ new
      → heap_start ≤ new
      → new / 4096 ≢ 1024
      → Moved old new k (move_break old incr k)
  unfolding move_break current
  move_break-Moved old new incr (lo, hi) at low near =
      let aux : ℕ = if new % 4096 == 0 then 0 else 1 in
      elim (Bool-cases (ltb 1024 (new / 4096))) [
        | inl far ↦ rw (at, far) refused
        | inr inside ↦
            let top : new < 2 ^ 22 = ground arith in
            let aux_le : aux ≤ 1 = ground arith in
            let grown =
              grow_pages-absent (new / 4096 + aux - old / 4096) (old / 4096) (old / 4096 + aux)
                (omega arith) (omega arith) in
            let shrunk =
              shrink_pages-none (old / 4096 - (new / 4096 + aux)) (old / 4096) (omega arith)
                (omega arith) in
            rw (at, inside, grown, shrunk)
              (elim (Bool-cases (ltb_ℤ (pos 0) incr)) [
                | inl up ↦ rw up (moved (low, top))
                | inr not_up ↦ elim (Bool-cases (ltb_ℤ incr (pos 0))) [
                  | inl down ↦ rw (not_up, down) (flushed (low, top))
                  | inr same ↦ rw (not_up, same) (moved (low, top))
                ]
              ])
      ]

  sys_sbrk-Moved :
      (incr : ℤ)
      → asked_page incr k ≢ 1024
      → Moved (break_of k) (asked_break incr k) k (sys_sbrk incr k)
  unfolding sys_sbrk current
  sys_sbrk-Moved incr near =
      let inside = c.break_in k.running (alive-running k) in
      move_break-Moved (break_of k) (asked_break incr k) (clamp (break_of k) incr) inside refl
        (clamped (break_of k) incr inside) near

  pub sys_sbrk-IsIsolated : (incr : ℤ) → asked_page incr k ≢ 1024 → IsIsolated (sys_sbrk incr k).1
  sys_sbrk-IsIsolated incr near = Moved-IsIsolated c (sys_sbrk-Moved incr near)

  pub sys_sbrk-maps_nothing :
      (incr : ℤ)
      → asked_page incr k ≢ 1024
      → let (r, k') = sys_sbrk incr k in
        (((r ≡ to_unsigned enomem) × (k' ≡ k))
          ⊎ ((r ≡ break_of k) × (break_of k' ≡ asked_break incr k)))
        × (k'.pagusr_table ≡ k.pagusr_table)
        × (k'.phys_mem ≡ k.phys_mem)
  sys_sbrk-maps_nothing incr near = Moved-nothing (sys_sbrk-Moved incr near)
