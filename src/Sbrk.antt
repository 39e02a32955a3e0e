-- ===== src/Sbrk.antt =====
-- sys.c: `sys_sbrk`.
pub mod Grow
pub mod Shrink
use so2fib.Common.{
  ℕ, zero, suc, ◌+◌, ◌-◌, ◌*◌, ◌/◌, ◌%◌, ◌^◌, ◌==◌, ◌&&◌, ◌||◌, not, Bool, true, false, Option,
  none, some, ℤ, pos, negsuc, neg, sub_ℕ, ltb_ℤ, if◌then◌else◌, ltb, leb,
}
use so2fib.Frames.{total_pages, alloc_frame, free_frame}
use so2fib.Utils.{num_pag_data}
use so2fib.Paging.{pag_log_init_data, set_ss_pag, del_ss_pag, get_frame}
use so2fib.Kernel.{Kernel, current, set_task}
use so2fib.Sched.{get_dir}
use so2fib.Space.{get_pt, set_table, set_mem, set_cr3}
use so2fib.Processes.{to_unsigned}
use so2fib.Fork.{page_size, enomem}
use so2fib.Boot.{heap_start}
use so2fib.Write.{efault}

abbrev pub pag_log_init_heap : ℕ
pag_log_init_heap = pag_log_init_data + num_pag_data

-- `TP[i]`: behind the last entry of a table the array goes on with the next table.
abbrev pub tp_row : ℕ → ℕ → ℕ
tp_row row i = row + i / total_pages

abbrev pub tp_page : ℕ → ℕ
tp_page i = i % total_pages

-- `free_frame(get_frame(TP, i)); del_ss_pag(TP, i);`
unfoldable pub drop_page : ℕ → ℕ → Kernel → Kernel
drop_page row i k =
    let pt = k.pagusr_table (tp_row row i) in
    set_table (tp_row row i) (del_ss_pag (tp_page i))
      (set_mem (free_frame (get_frame (tp_page i) pt) k.phys_mem) k)

-- The loop that undoes an allocation: `n` pages from `j` downwards.
unfoldable pub undo_pages : ℕ → ℕ → ℕ → Kernel → Kernel
undo_pages zero j row k = k
undo_pages (suc n) j row k = undo_pages n (j - 1) row (drop_page row j k)

-- The loop that allocates, from page `i` on for `n` pages; `undo_to` is `iPage + aux`. False when no
-- frame is left.
unfoldable pub grow_pages : ℕ → ℕ → ℕ → ℕ → Kernel → Bool × Kernel
grow_pages zero i undo_to row k = (true, k)
grow_pages (suc n) i undo_to row k = elim (k.pagusr_table (tp_row row i) (tp_page i)).present [
  | false ↦ grow_pages n (i + 1) undo_to row k
  | true ↦
      let (found, mem) = alloc_frame k.phys_mem in
      elim found [
        | some pag_f ↦
            grow_pages n (i + 1) undo_to row
              (set_table (tp_row row i) (set_ss_pag (tp_page i) pag_f) (set_mem mem k))
        | none ↦ (false, undo_pages (i - undo_to) i row (set_mem mem k))
      ]
]

-- The loop that frees, from page `i` downwards for `n` pages; false when it comes below the heap.
unfoldable pub shrink_pages : ℕ → ℕ → ℕ → Kernel → Bool × Kernel
shrink_pages zero i row k = (true, k)
shrink_pages (suc n) i row k =
    let rest = shrink_pages n (i - 1) row (drop_page row i k) in
    if ltb i pag_log_init_heap then (false, k) else rest

abbrev pub set_break : ℕ → Kernel → Kernel
set_break b k = set_task (current k) (λ p. record p { process_break = b }) k

abbrev pub flush : Kernel → Kernel
flush k = set_cr3 (get_dir (current k) k) k

-- `unsigned long` plus `int`
abbrev pub add_int : ℕ → ℤ → ℕ
add_int a b = (a + to_unsigned b) % 2 ^ 32

-- `incr`, or what leads to the heap's start where it would lead below.
unfoldable pub clamp : ℕ → ℤ → ℤ
clamp old incr = if ltb (add_int old incr) heap_start then sub_ℕ heap_start old else incr

-- `sys_sbrk` for the break `old` and an `incr` that is clamped.
unfoldable pub move_break : ℕ → ℤ → Kernel → ℕ × Kernel
unfolding current
move_break old incr k =
    let new = add_int old incr in
    let row = get_pt (current k) k in
    let i_page = old / page_size in
    let f_page = new / page_size in
    let aux : ℕ = if new % page_size == 0 then 0 else 1 in
    let (grown, k_1) = grow_pages (f_page + aux - i_page) i_page (i_page + aux) row k in
    let (shrunk, k_2) = shrink_pages (i_page - (f_page + aux)) i_page row k in
    if ltb total_pages f_page
    then (to_unsigned enomem, k)
    else if ltb_ℤ (pos 0) incr
    then if grown then (old, set_break new k_1) else (to_unsigned enomem, k_1)
    else if ltb_ℤ incr (pos 0)
    then if shrunk
      then (old, set_break new (flush k_2))
      else (to_unsigned efault, flush (set_break heap_start k_2))
    else (old, set_break new k)

-- The result is a pointer, and an error is a negative number as a pointer.
unfoldable pub sys_sbrk : ℤ → Kernel → ℕ × Kernel
unfolding current
sys_sbrk incr k = let old = (k.task (current k)).process_break in move_break old (clamp old incr) k
