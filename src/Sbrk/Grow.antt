-- ===== src/Sbrk/Grow.antt =====
-- `sys_sbrk` with an increment above 0.
use so2fib.Common.{
  ℕ, zero, suc, ◌+◌, ◌-◌, ◌*◌, ◌/◌, ◌%◌, ◌^◌, ◌≤◌, ◌<◌, ◌≡◌, refl, true, false, arith, ℤ, pos,
  ltb_ℤ, ◌==◌, if◌then◌else◌, le→not-ltb, lt→ltb, subst, sym,
}
use so2fib.Kernel.{Kernel, current}
use so2fib.Space.{get_pt}
use so2fib.Processes.{to_unsigned}
use so2fib.Fork.{enomem}
use so2fib.Boot.{heap_start}
use so2fib.Sbrk.{tp_row, tp_page, grow_pages, add_int, set_break, clamp, move_break, sys_sbrk}

-- The break of the current task.
abbrev pub break_of : Kernel → ℕ
break_of k = (k.task k.running).process_break

pub grow_pages-none :
    (n i undo_to row : ℕ) (k : Kernel)
    → ((j : ℕ) → i ≤ j → j < i + n → (k.pagusr_table (tp_row row j) (tp_page j)).present ≡ false)
    → grow_pages n i undo_to row k ≡ (true, k)
unfolding grow_pages
grow_pages-none zero i undo_to row k absent = refl
grow_pages-none (suc n) i undo_to row k absent =
    rw (absent i (omega arith) (omega arith), grow_pages)
      (grow_pages-none n (i + 1) undo_to row k (λ j lo hi. absent j (omega arith) (omega arith)))

clamp-up : (old d : ℕ) → heap_start ≤ old → old + d < 2 ^ 32 → clamp old (pos d) ≡ pos d
unfolding clamp
clamp-up old d low small = rw (le→not-ltb (add_int old (pos d)) heap_start (omega arith)) refl

-- The pages below a break, the last of them maybe in part.
abbrev pub pages_to : ℕ → ℕ
pages_to b = b / 4096 + (if b % 4096 == 0 then 0 else 1)

move_break-far :
    (old : ℕ) (incr : ℤ) (k : Kernel)
    → 1024 < add_int old incr / 4096
    → move_break old incr k ≡ (to_unsigned enomem, k)
unfolding move_break
move_break-far old incr k far = rw (lt→ltb 1024 (add_int old incr / 4096) far) refl

move_break-up :
    (old d new : ℕ) (k : Kernel)
    → add_int old (pos d) ≡ new
    → 0 < d
    → new / 4096 ≤ 1024
    → grow_pages
        (pages_to new - old / 4096)
        (old / 4096)
        (old / 4096 + (if new % 4096 == 0 then 0 else 1))
        (get_pt k.running k)
        k
      ≡ (true, k)
    → move_break old (pos d) k ≡ (old, set_break new k)
unfolding move_break current
move_break-up old d new k at up near grown =
    let positive : ltb_ℤ (pos 0) (pos d) ≡ true = ground arith in
    rw (at, le→not-ltb 1024 (new / 4096) near, grown, positive) refl

-- An increment that would lead past page 1024 is refused, with -ENOMEM, and nothing changes.
-- One that leads to page 1024 at most, where no page up to the new break is mapped, moves the break
-- and returns the old one, and changes nothing else: no frame is taken and no page is mapped.
pub sys_sbrk-grows :
    (d : ℕ) (k : Kernel)
    → 0 < d
    → heap_start ≤ break_of k
    → break_of k + d < 2 ^ 32
    → (1024 < (break_of k + d) / 4096 → sys_sbrk (pos d) k ≡ (to_unsigned enomem, k))
      × ((break_of k + d) / 4096 ≤ 1024
          → ((i : ℕ)
              → break_of k / 4096 ≤ i
              → i * 4096 < break_of k + d
              → (k.pagusr_table (tp_row (get_pt k.running k) i) (tp_page i)).present ≡ false)
          → sys_sbrk (pos d) k ≡ (break_of k, set_break (break_of k + d) k))
unfolding sys_sbrk current
sys_sbrk-grows d k up low small =
    let at : add_int (break_of k) (pos d) ≡ break_of k + d = omega arith in
    let same = clamp-up (break_of k) d low small in
    (
      λ far.
          rw same
            (move_break-far (break_of k) (pos d) k (subst (λ n. 1024 < n / 4096) (sym at) far)),
      λ near absent. rw same (
          move_break-up (break_of k) d (break_of k + d) k at up near (
            grow_pages-none _ (break_of k / 4096) _ (get_pt k.running k) k
              (λ j lo hi. absent j lo (ground arith)))),
    )
