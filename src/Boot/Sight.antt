-- ===== src/Boot/Sight.antt =====
-- The memory that the first process sees.
use so2fib.Common.{
  ℕ, ◌+◌, ◌-◌, ◌*◌, ◌/◌, ◌%◌, ◌^◌, ◌<◌, ◌≤◌, ◌≡◌, refl, ◌∙◌, ap, sym, arith, ap₂, Option, none,
  some, true, false, ◌&&◌, ltb, leb, if◌then◌else◌,
}
use so2fib.Task.{st_run}
use so2fib.Paging.{Entry, no_entry}
use so2fib.Paging.Boot.{kernel_entry, user_entry, set_user_pages-allocs}
use so2fib.Kernel.{Kernel}
use so2fib.Sched.{get_dir}
use so2fib.Space.{walk, phys, is_mapped}
use so2fib.Space.Mapped.{Fits}
use so2fib.Boot.{make_task_1}
use so2fib.Boot.Lists.{idled, tasked}
use so2fib.Isolation.Start.{fresh, idle, own_idled, first, row_1}

make_task_1-cr_3 :
    (ts : ℕ) (k : Kernel) → (make_task_1 ts k).machine.cr_3 ≡ get_dir ts (make_task_1 ts k)
unfolding make_task_1 get_dir
make_task_1-cr_3 ts k = refl

-- The walk ends at the page's frame.
walk-at :
    (k : Kernel) (a p frame : ℕ)
    → (k.dir_pages k.machine.cr_3).present ≡ true
    → (k.pagusr_table (k.dir_pages k.machine.cr_3).pbase_addr p).present ≡ true
    → (k.pagusr_table (k.dir_pages k.machine.cr_3).pbase_addr p).pbase_addr ≡ frame
    → a / 2 ^ 12 ≡ p
    → p < 1024
    → walk a k ≡ some (frame * 2 ^ 12 + a % 2 ^ 12)
unfolding walk
walk-at k a p frame dir here at page lt = rw (page, dir, here, at) (ground arith)

walk-phys : (k : Kernel) (a x : ℕ) → walk a k ≡ some x → phys k a ≡ x
walk-phys k a x e = ap (λ (o : Option ℕ). elim o [ none ↦ 0 | some y ↦ y ]) e

walk-mapped : (k : Kernel) (a x : ℕ) → walk a k ≡ some x → is_mapped a k ≡ true
walk-mapped k a x e = ap (λ (o : Option ℕ). elim o [ none ↦ false | some y ↦ true ]) e

-- Where a user page's byte is.
abbrev pub user_place : ℕ → ℕ
user_place a = (256 + 2 * (a / 2 ^ 12 - 256)) * 2 ^ 12 + a % 2 ^ 12

module _ (k : Kernel) (zeroed : (j : ℕ) → (k.task j).estado ≡ st_run) where
  dir_1 : (tasked k).machine.cr_3 ≡ 1
  unfolding get_dir
  dir_1 = make_task_1-cr_3 13 _ ∙ (first k zeroed).dir

  table_1 : ((tasked k).dir_pages (tasked k).machine.cr_3).pbase_addr ≡ 1
  table_1 =
      rw dir_1
        (ap (λ f. (f 1).pbase_addr) (first k zeroed).dirs ∙ own_idled k zeroed 1 (omega arith))

  present_1 : ((tasked k).dir_pages (tasked k).machine.cr_3).present ≡ true
  present_1 = rw dir_1 (
      ap (λ f. (f 1).present) (first k zeroed).dirs
      ∙ ap (λ f. (f 1).present) (idle k zeroed).dirs
      ∙ (fresh k zeroed).present 1 (omega arith))

  -- The entries of the table that CR3 leads to.
  abbrev entry : ℕ → Entry
  entry p = (tasked k).pagusr_table ((tasked k).dir_pages (tasked k).machine.cr_3).pbase_addr p

  entry_1 :
      (p : ℕ)
      → entry p ≡ (
          if leb 256 p && ltb p 284
          then user_entry (leb 264 p) (256 + 2 * (p - 256))
          else (idled k).pagusr_table 1 p)
  entry_1 p =
      ap (λ r. (tasked k).pagusr_table r p) table_1
      ∙ row_1 k zeroed p
      ∙ (set_user_pages-allocs ((idled k).pagusr_table 1) (fresh k zeroed).before).1 p

  kernel_1 : (p : ℕ) → 1 ≤ p → p < 256 → (idled k).pagusr_table 1 p ≡ kernel_entry p no_entry
  kernel_1 p lo hi =
      ap (λ f. f 1 p) (idle k zeroed).tables ∙ (fresh k zeroed).kernel_pages 1 p (omega arith) lo hi

  pub walk-kernel : (a : ℕ) → 2 ^ 12 ≤ a → a < 2 ^ 20 → walk a (tasked k) ≡ some a
  walk-kernel a lo hi =
      let p : ℕ = a / 2 ^ 12 in
      let e : entry p ≡ kernel_entry p no_entry =
        entry_1 p ∙ ground (arith, kernel_1 p (omega arith) (omega arith)) in
      walk-at (tasked k) a p p present_1 (ap (λ (x : Entry). x.present) e)
        (ap (λ (x : Entry). x.pbase_addr) e ∙ omega arith) refl (omega arith)
      ∙ ap some (omega arith)

  pub walk-user : (a : ℕ) → 2 ^ 20 ≤ a → a < 284 * 2 ^ 12 → walk a (tasked k) ≡ some (user_place a)
  walk-user a lo hi =
      let p : ℕ = a / 2 ^ 12 in
      let e : entry p ≡ user_entry (leb 264 p) (256 + 2 * (p - 256)) = entry_1 p ∙ ground arith in
      walk-at (tasked k) a p (256 + 2 * (p - 256)) present_1 (ap (λ (x : Entry). x.present) e)
        (ap (λ (x : Entry). x.pbase_addr) e) refl (omega arith)

  pub phys-kernel : (a : ℕ) → 2 ^ 12 ≤ a → a < 2 ^ 20 → phys (tasked k) a ≡ a
  phys-kernel a lo hi = walk-phys (tasked k) a a (walk-kernel a lo hi)

  pub phys-user : (a : ℕ) → 2 ^ 20 ≤ a → a < 284 * 2 ^ 12 → phys (tasked k) a ≡ user_place a
  phys-user a lo hi = walk-phys (tasked k) a (user_place a) (walk-user a lo hi)

  -- A copy from the kernel's pages to the 28 pages of the user program.
  pub Fits-user :
      (n start : ℕ)
      → 2 ^ 12 ≤ start
      → start + n ≤ 2 ^ 20
      → n ≤ 28 * 2 ^ 12
      → Fits (tasked k) n start (2 ^ 20)
  Fits-user n start lo hi fits =
      let from = λ (i : ℕ) (h : i < n). phys-kernel (start + i) (omega arith) (omega arith) in
      let to = λ (i : ℕ) (h : i < n). phys-user (2 ^ 20 + i) (omega arith) (omega arith) in
      record {
        mapped = λ i h.
            let from_here = walk-kernel (start + i) (omega arith) (omega arith) in
            let to_here = walk-user (2 ^ 20 + i) (omega arith) (omega arith) in
            ap₂ ◌&&◌ (walk-mapped (tasked k) (start + i) (start + i) from_here)
              (walk-mapped (tasked k) (2 ^ 20 + i) (user_place (2 ^ 20 + i)) to_here);
        once = λ i j l h same.
            let places : user_place (2 ^ 20 + i) ≡ user_place (2 ^ 20 + j) =
              sym (to i (omega arith)) ∙ same ∙ to j h in
            absurd (omega (arith, places));
        apart = λ i j h h' same.
            let places : user_place (2 ^ 20 + i) ≡ start + j = sym (to i h) ∙ same ∙ from j h' in
            absurd (omega (arith, places));
      }
