-- ===== src/Sbrk/Shrink.antt =====
-- `sys_sbrk` with an increment below 0.
use so2fib.Common.{
  ℕ, zero, suc, ◌+◌, ◌-◌, ◌/◌, ◌%◌, ◌^◌, ◌≤◌, ◌<◌, ◌≡◌, refl, Bool, true, false, Bool-cases, inl,
  inr, arith, pos, negsuc, sub_ℕ, ltb, leb, ltb_ℤ, ◌==◌, if◌then◌else◌, le→not-ltb, lt→ltb, subst,
  ==-eq,
}
use so2fib.Kernel.{Kernel, current}
use so2fib.Space.{get_pt, set_cr3}
use so2fib.Space.Unmap.{
  unmapped, Unmapped, Unmapped-none, Unmapped-iff, Unmapped-same, Unmapped-step,
}
use so2fib.Exit.Pages.{between}
use so2fib.Boot.{heap_start}
use so2fib.Sbrk.{
  drop_page, shrink_pages, add_int, set_break, flush, clamp, move_break, sys_sbrk,
  pag_log_init_heap,
}
use so2fib.Sbrk.Grow.{break_of, pages_to}

drop_page-eq : (row i : ℕ) (k : Kernel) → i < 1024 → drop_page row i k ≡ unmapped row i k
unfolding drop_page
drop_page-eq row i k h =
    let at : row + i / 1024 ≡ row = omega arith in
    let page : i % 1024 ≡ i = omega arith in rw (at, page) refl

shrink_pages-Unmapped :
    (n i row : ℕ) (k : Kernel)
    → 284 + n ≤ i + 1
    → i < 1024
    → ((shrink_pages n i row k).0 ≡ true)
      × Unmapped row (between (i + 1 - n) (i + 1)) k (shrink_pages n i row k).1
unfolding shrink_pages
shrink_pages-Unmapped zero i row k h lt = (refl, Unmapped-none row _ k (λ a. ground arith))
shrink_pages-Unmapped (suc n) i row k h lt =
    let (done, w) =
      shrink_pages-Unmapped n (i - 1) row (unmapped row i k) (omega arith) (omega arith) in
    rw (drop_page-eq row i k lt, le→not-ltb i pag_log_init_heap (omega arith))
      (
        done,
        Unmapped-iff (λ a. ground arith)
            (Unmapped-step row i k (between (i - 1 + 1 - n) (i - 1 + 1)) _ (ground arith) w),
      )

module _ (b n : ℕ) (k : Kernel) (low : heap_start + suc n ≤ b) (small : b < 2 ^ 22) where
  abbrev row : ℕ
  row = get_pt k.running k

  abbrev new : ℕ
  new = b - suc n

  abbrev shrunk : Bool × Kernel
  shrunk = shrink_pages (b / 4096 - pages_to new) (b / 4096) row k

  shrunk-Unmapped :
      (shrunk.0 ≡ true) × Unmapped row (between (pages_to new + 1) (b / 4096 + 1)) k shrunk.1
  shrunk-Unmapped =
      let (done, w) =
        shrink_pages-Unmapped (b / 4096 - pages_to new) (b / 4096) row k (ground arith)
          (omega arith) in
      (done, Unmapped-iff (λ a. ground arith) w)

  move_break-down : move_break b (negsuc n) k ≡ (b, set_break new (flush shrunk.1))
  unfolding move_break current
  move_break-down =
      let at : add_int b (negsuc n) ≡ new = omega arith in
      let negative : ltb_ℤ (negsuc n) (pos 0) ≡ true = ground arith in
      let not_positive : ltb_ℤ (pos 0) (negsuc n) ≡ false = ground arith in
      rw (at, le→not-ltb 1024 (new / 4096) (omega arith), not_positive, negative, shrunk-Unmapped.0)
        refl

-- What a call that moves the break down to `new` leaves: it returns the old break, and the pages behind
-- the first one that the new break does not reach are unmapped, up to the page of the old break.
pub record Shrunk (new : ℕ) (k : Kernel) (r : ℕ × Kernel) : Type 0 where
  pub result : r.0 ≡ break_of k
  pub running : r.1.running ≡ k.running
  pub moved : break_of r.1 ≡ new
  pub pages :
      Unmapped (get_pt k.running k) (between (pages_to new + 1) (break_of k / 4096 + 1)) k r.1

shrink_pages-running : (n i row : ℕ) (k : Kernel) → (shrink_pages n i row k).1.running ≡ k.running
unfolding shrink_pages drop_page
shrink_pages-running zero i row k = refl
shrink_pages-running (suc n) i row k = elim (Bool-cases (ltb i pag_log_init_heap)) [
  | inl e ↦ rw e refl
  | inr e ↦ rw e (shrink_pages-running n (i - 1) row (drop_page row i k))
]

move_break-Shrunk :
    (n : ℕ) (k : Kernel)
    → heap_start + suc n ≤ break_of k
    → break_of k < 2 ^ 22
    → Shrunk (break_of k - suc n) k (move_break (break_of k) (negsuc n) k)
unfolding set_cr3 current
move_break-Shrunk n k low small =
    let (_, w) = shrunk-Unmapped (break_of k) n k low small in
    rw (move_break-down (break_of k) n k low small) (record {
      result = refl;
      running = shrink_pages-running _ _ _ k;
      moved = ground arith;
      pages = Unmapped-same refl refl w;
    })

-- The break is at the start of the heap already.
move_break-Shrunk_none :
    (k : Kernel) → break_of k ≡ heap_start → Shrunk heap_start k (move_break (break_of k) (pos 0) k)
unfolding move_break current
move_break-Shrunk_none k e =
    let at : add_int (break_of k) (pos 0) ≡ heap_start = omega arith in
    rw at (record {
      result = refl;
      running = refl;
      moved = ground arith;
      pages = Unmapped-same refl refl (Unmapped-none _ _ k (λ a. ground arith));
    })

move_break-Shrunk_stop :
    (k : Kernel)
    → heap_start ≤ break_of k
    → break_of k < 2 ^ 22
    → Shrunk heap_start k (move_break (break_of k) (sub_ℕ heap_start (break_of k)) k)
move_break-Shrunk_stop k low small =
    let b = break_of k in
    elim (Bool-cases (b == heap_start)) [
      | inl e ↦
          let none_left : pos 0 ≡ sub_ℕ heap_start b = ground arith in
          subst (λ z. Shrunk heap_start k (move_break b z k)) none_left
            (move_break-Shrunk_none k (==-eq b heap_start e))
      | inr ne ↦
          let m : ℕ = b - heap_start - 1 in
          let above : heap_start + suc m ≤ b = ground arith in
          let down : negsuc m ≡ sub_ℕ heap_start b = ground arith in
          let new : b - suc m ≡ heap_start = ground arith in
          subst (λ z. Shrunk heap_start k (move_break b z k)) down
            (subst (λ x. Shrunk x k (move_break b (negsuc m) k)) new
              (move_break-Shrunk m k above small))
    ]

-- The break after a call, which does not come below the start of the heap.
abbrev pub lowered : ℕ → ℕ → ℕ
lowered b d = if leb (heap_start + d) b then b - d else heap_start

clamp-kept : (b n : ℕ) → heap_start + suc n ≤ b → b < 2 ^ 22 → clamp b (negsuc n) ≡ negsuc n
unfolding clamp
clamp-kept b n low small = rw (le→not-ltb (add_int b (negsuc n)) heap_start (omega arith)) refl

clamp-stopped :
    (b n : ℕ)
    → b < heap_start + suc n
    → suc n ≤ b
    → b < 2 ^ 22
    → clamp b (negsuc n) ≡ sub_ℕ heap_start b
unfolding clamp
clamp-stopped b n high le small = rw (lt→ltb (add_int b (negsuc n)) heap_start (omega arith)) refl

-- `sys_sbrk` with a negative increment, from a break that is not below the start of the heap, below
-- page 1024 and not below the decrement, returns the old break and moves the break down by as much,
-- but not below the start of the heap. The pages from the second one that the new break does not
-- reach to the one of the old break are unmapped, their frames from 257 to 1023 are free, and no
-- other page or frame changes; the first page that the new break does not reach stays.
pub sys_sbrk-shrinks :
    (n : ℕ) (k : Kernel)
    → heap_start ≤ break_of k
    → suc n ≤ break_of k
    → break_of k < 2 ^ 22
    → Shrunk (lowered (break_of k) (suc n)) k (sys_sbrk (negsuc n) k)
unfolding sys_sbrk current
sys_sbrk-shrinks n k low le small =
    let b = break_of k in
    elim (Bool-cases (leb (heap_start + suc n) b)) [
      | inl room ↦
          rw (room, clamp-kept b n (ground arith) small)
            (move_break-Shrunk n k (ground arith) small)
      | inr short ↦
          rw (short, clamp-stopped b n (ground arith) le small) (move_break-Shrunk_stop k low small)
    ]
