-- ===== src/Space/Unmap.antt =====
-- Pages of a table that are unmapped, their frames freed, one after the other.
use so2fib.Common.{
  ℕ, ◌<◌, ◌≡◌, ◌≢◌, refl, ◌∙◌, ap, sym, ◌⊎◌, inl, inr, Bool, true, false, Bool-cases, arith, ◌==◌,
  ==-eq, ltb, ◌&&◌, ◌||◌, if◌then◌else◌, fun_ext, subst,
}
use so2fib.Frames.{free_mark, free_frame}
use so2fib.Paging.{no_entry, del_ss_pag, get_frame}
use so2fib.Kernel.{Kernel}
use so2fib.Space.{set_table, set_mem}

-- `free_frame(get_frame(PT, page)); del_ss_pag(PT, page);`
abbrev pub unmapped : ℕ → ℕ → Kernel → Kernel
unmapped row page k =
    set_table row (del_ss_pag page)
      (set_mem (free_frame (get_frame page (k.pagusr_table row)) k.phys_mem) k)

-- The frame of a page.
abbrev pub frame_of : ℕ → ℕ → Kernel → ℕ
frame_of row page k = (k.pagusr_table row page).pbase_addr

-- `k'` is `k` without the pages of a table that are inside.
pub record Unmapped (row : ℕ) (inside : ℕ → Bool) (k k' : Kernel) : Type 0 where
  pub gone : (a : ℕ) → inside a ≡ true → k'.pagusr_table row a ≡ no_entry
  pub freed :
      (a : ℕ)
      → inside a ≡ true
      → 256 < frame_of row a k
      → frame_of row a k < 1024
      → k'.phys_mem (frame_of row a k) ≡ free_mark
  pub stays : (x : ℕ) → k.phys_mem x ≡ free_mark → k'.phys_mem x ≡ free_mark
  pub others :
      (x : ℕ) → ((a : ℕ) → inside a ≡ true → frame_of row a k ≢ x) → k'.phys_mem x ≡ k.phys_mem x
  pub tables : (r a : ℕ) → (r ≢ row) ⊎ (inside a ≡ false) → k'.pagusr_table r a ≡ k.pagusr_table r a

pub Unmapped-none :
    (row : ℕ) (inside : ℕ → Bool) (k : Kernel)
    → ((a : ℕ) → inside a ≡ false)
    → Unmapped row inside k k
Unmapped-none row inside k out = record {
  gone = λ a i. cc (sym (out a) ∙ i);
  freed = λ a i low high. cc (sym (out a) ∙ i);
  stays = λ x h. h;
  others = λ x h. refl;
  tables = λ r a h. refl;
}

pub Unmapped-iff :
    {row : ℕ} {inside inside' : ℕ → Bool} {k k' : Kernel}
    → ((a : ℕ) → inside a ≡ inside' a)
    → Unmapped row inside k k'
    → Unmapped row inside' k k'
Unmapped-iff {row} {k} {k'} same w = subst (λ f. Unmapped row f k k') (fun_ext same) w

-- Later kernels with the same memory.
pub Unmapped-same :
    {row : ℕ} {inside : ℕ → Bool} {k k_1 k' : Kernel}
    → k'.phys_mem ≡ k_1.phys_mem
    → k'.pagusr_table ≡ k_1.pagusr_table
    → Unmapped row inside k k_1
    → Unmapped row inside k k'
Unmapped-same {k'} mem tables w = record {
  gone = λ a i. rw tables (w.gone a i);
  freed = λ a i low high. rw mem (w.freed a i low high);
  stays = λ x h. rw mem (w.stays x h);
  others = λ x out. rw mem (w.others x out);
  tables = λ r a h. rw tables (w.tables r a h);
}

module _ (row p : ℕ) (k : Kernel) where
  mem-unmapped :
      (x : ℕ)
      → (unmapped row p k).phys_mem x ≡ (
          if ltb 256 (frame_of row p k) && ltb (frame_of row p k) 1024 && x == frame_of row p k
          then free_mark
          else k.phys_mem x)
  unfolding free_frame get_frame
  mem-unmapped x = ground arith

  table-unmapped :
      (r a : ℕ)
      → (unmapped row p k).pagusr_table r a
        ≡ (if r == row && a == p then no_entry else k.pagusr_table r a)
  unfolding del_ss_pag
  table-unmapped r a = ground arith

  frame-unmapped : (a : ℕ) → a ≢ p → frame_of row a (unmapped row p k) ≡ frame_of row a k
  frame-unmapped a ne =
      ap (λ e. e.pbase_addr) {y = k.pagusr_table row a} (table-unmapped row a ∙ ground arith)

  -- One page, and then others.
  pub Unmapped-step :
      (inside : ℕ → Bool) (k' : Kernel)
      → inside p ≡ false
      → Unmapped row inside (unmapped row p k) k'
      → Unmapped row (λ a. a == p || inside a) k k'
  Unmapped-step inside k' out w = record {
    gone = λ a i. elim (Bool-cases (a == p)) [
      | inl e ↦
          let at : inside a ≡ false = ap inside (==-eq a p e) ∙ out in
          w.tables row a (inr at) ∙ table-unmapped row a ∙ ground arith
      | inr ne ↦ w.gone a (ground arith)
    ];
    freed = λ a i low high. elim (Bool-cases (a == p)) [
      | inl e ↦
          let at : frame_of row a k ≡ frame_of row p k = ap (λ b. frame_of row b k) (==-eq a p e) in
          w.stays (frame_of row a k) (mem-unmapped (frame_of row a k) ∙ ground arith)
      | inr ne ↦
          let same = frame-unmapped a (ground arith) in
          ap k'.phys_mem (sym same) ∙ w.freed a (ground arith) (rw same low) (rw same high)
    ];
    stays = λ x h. w.stays x (mem-unmapped x ∙ ground arith);
    others = λ x free.
        w.others x (λ a i e. elim (Bool-cases (a == p)) [
          | inl same ↦ cc (sym i ∙ ap inside (==-eq a p same) ∙ out)
          | inr ne ↦ free a (ground arith) (sym (frame-unmapped a (ground arith)) ∙ e)
        ])
        ∙ mem-unmapped x
        ∙ ground (arith, free p);
    tables = λ r a h. w.tables r a (ground (arith, h)) ∙ table-unmapped r a ∙ ground (arith, h);
  }
