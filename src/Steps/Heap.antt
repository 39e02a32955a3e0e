-- ===== src/Steps/Heap.antt =====
-- `sys_sbrk` leaves lists and states alone, on all its branches.
use so2fib.Common.{
  ℕ, zero, suc, ◌+◌, ◌-◌, ◌/◌, ◌%◌, ◌==◌, if◌then◌else◌, refl, Bool-cases, Option-cases, inl, inr,
  ℤ, pos, ltb, ltb_ℤ, arith,
}
use so2fib.Frames.{alloc_frame}
use so2fib.Kernel.{Kernel, current}
use so2fib.Space.{get_pt, set_cr3}
use so2fib.Fork.Pages.{Kept, Kept-refl, Kept-trans, rest-Kept, Kept-SameLists}
use so2fib.Boot.{heap_start}
use so2fib.Sbrk.{
  drop_page, undo_pages, grow_pages, shrink_pages, set_break, flush, add_int, move_break, sys_sbrk,
  tp_row, tp_page,
}
use so2fib.Steps.Front.{IsConsistent, same-Valid, same-IsClosed}

drop_page-Kept : (row i : ℕ) (k : Kernel) → Kept k (drop_page row i k)
unfolding drop_page
drop_page-Kept row i k = rest-Kept k

undo_pages-Kept : (n j row : ℕ) (k : Kernel) → Kept k (undo_pages n j row k)
unfolding undo_pages
undo_pages-Kept zero j row k = Kept-refl k
undo_pages-Kept (suc n) j row k =
    Kept-trans (drop_page-Kept row j k) (undo_pages-Kept n (j - 1) row (drop_page row j k))

grow_pages-Kept : (n i undo_to row : ℕ) (k : Kernel) → Kept k (grow_pages n i undo_to row k).1
unfolding grow_pages
grow_pages-Kept zero i undo_to row k = Kept-refl k
grow_pages-Kept (suc n) i undo_to row k =
    elim (Bool-cases (k.pagusr_table (tp_row row i) (tp_page i)).present) [
      | inr absent ↦ rw (absent, grow_pages) (grow_pages-Kept n (i + 1) undo_to row k)
      | inl there ↦ elim (Option-cases (alloc_frame k.phys_mem).0) [
        | inl full ↦
            rw (there, full, grow_pages)
              (Kept-trans (rest-Kept k) (undo_pages-Kept (i - undo_to) i row _))
        | inr (frame, at) ↦
            rw (there, at, grow_pages)
              (Kept-trans (rest-Kept k) (grow_pages-Kept n (i + 1) undo_to row _))
      ]
    ]

shrink_pages-Kept : (n i row : ℕ) (k : Kernel) → Kept k (shrink_pages n i row k).1
unfolding shrink_pages
shrink_pages-Kept zero i row k = Kept-refl k
shrink_pages-Kept (suc n) i row k = elim (Bool-cases (ltb i 284)) [
  | inl low ↦ rw low (Kept-refl k)
  | inr more ↦
      rw more
        (Kept-trans (drop_page-Kept row i k) (shrink_pages-Kept n (i - 1) row (drop_page row i k)))
]

set_break-Kept : (b : ℕ) (k : Kernel) → Kept k (set_break b k)
unfolding current
set_break-Kept b k = record {
  links = refl;
  semaphores = refl;
  running = refl;
  idle_task = refl;
  incremental_pid = refl;
  estado = λ i. ground arith;
}

flush-Kept : (k : Kernel) → Kept k (flush k)
unfolding set_cr3
flush-Kept k = rest-Kept k

move_break-Kept : (old : ℕ) (incr : ℤ) (k : Kernel) → Kept k (move_break old incr k).1
unfolding move_break current
move_break-Kept old incr k =
    let new = add_int old incr in
    let aux : ℕ = if new % 4096 == 0 then 0 else 1 in
    let row = get_pt k.running k in
    let grown = grow_pages (new / 4096 + aux - old / 4096) (old / 4096) (old / 4096 + aux) row k in
    let shrunk = shrink_pages (old / 4096 - (new / 4096 + aux)) (old / 4096) row k in
    let grown_kept : Kept k grown.1 = grow_pages-Kept _ (old / 4096) _ row k in
    let shrunk_kept : Kept k shrunk.1 = shrink_pages-Kept _ (old / 4096) row k in
    elim (Bool-cases (ltb 1024 (new / 4096))) [
      | inl far ↦ rw far (Kept-refl k)
      | inr near ↦ elim (Bool-cases (ltb_ℤ (pos 0) incr)) [
        | inl up ↦ elim (Bool-cases grown.0) [
          | inl done ↦ rw (near, up, done) (Kept-trans grown_kept (set_break-Kept new grown.1))
          | inr full ↦ rw (near, up, full) grown_kept
        ]
        | inr not_up ↦ elim (Bool-cases (ltb_ℤ incr (pos 0))) [
          | inl down ↦ elim (Bool-cases shrunk.0) [
            | inl done ↦
                rw (near, not_up, down, done)
                  (Kept-trans shrunk_kept
                    (Kept-trans (flush-Kept shrunk.1) (set_break-Kept new (flush shrunk.1))))
            | inr low ↦
                rw (near, not_up, down, low)
                  (Kept-trans shrunk_kept
                    (Kept-trans (set_break-Kept heap_start shrunk.1) (flush-Kept _)))
          ]
          | inr same ↦ rw (near, not_up, same) (set_break-Kept new k)
        ]
      ]
    ]

pub sys_sbrk-IsConsistent :
    {k : Kernel} (incr : ℤ) → IsConsistent k → IsConsistent (sys_sbrk incr k).1
unfolding sys_sbrk
sys_sbrk-IsConsistent {k} incr c =
    let kept = move_break-Kept _ _ k in
    record {
      lists = c.lists;
      valid = same-Valid (Kept-SameLists kept) kept.running c.valid;
      closed = same-IsClosed kept.semaphores (λ i lt. refl) c.closed;
    }
