-- ===== src/Fork/Filled.antt =====
-- What a child's table holds when `sys_fork` has filled it.
use so2fib.Common.{
  ℕ, ◌+◌, ◌*◌, ◌≤◌, ◌<◌, ◌≡◌, ◌≢◌, ◌∙◌, ap, sym, true, [], Bool-cases, inl, inr, ◌⊎◌, arith, Bool,
  ltb,
}
use so2fib.Frames.{num_pag_kernel}
use so2fib.Utils.{num_pag_code, num_pag_data}
use so2fib.Paging.{no_entry, pag_log_init_code}
use so2fib.Kernel.{Kernel}
use so2fib.Fork.{share_pages, copy_pages}
use so2fib.Fork.Memory.{Copies, InUse, copy_pages-Copies, data_frame, byte_of}
use so2fib.Fork.Loops.{
  share_pages-outside, share_pages-inside, share_pages-rest, copy_pages-rest, copy_pages-heap,
}

module _ (new parent : ℕ) where
  -- What is said of the parent's pages may be said of an earlier kernel with the same pages.
  module _ (ne : parent ≢ new) (k k_1 : Kernel) (mem : k_1.phys_mem ≡ k.phys_mem)
      (bytes : k_1.ram ≡ k.ram)
      (frames : (row j : ℕ) → data_frame row j k_1 ≡ data_frame row j k) where
    InUse-from : InUse new parent ne 20 0 k → InUse new parent ne 20 0 k_1
    InUse-from in_use j lo hi = rw (frames parent j, mem) (in_use j lo hi)

    Copies-from : (k' : Kernel) → Copies new parent ne 20 0 k_1 k' → Copies new parent ne 20 0 k k'
    Copies-from k' w = record {
      used = λ x u. w.used x (rw mem u);
      bytes = λ x o u ho. w.bytes x o (rw mem u) ho ∙ ap (λ m. m (x * 4096 + o)) bytes;
      copy = λ j o lo hi ho.
          w.copy j o lo hi ho
          ∙ ap (λ f. byte_of f o k_1) (frames parent j)
          ∙ ap (λ m. m (data_frame parent j k * 4096 + o)) bytes;
      fresh = λ j lo hi. sym (ap (λ m. m (data_frame new j k')) mem) ∙ w.fresh j lo hi;
      taken = w.taken;
      distinct = w.distinct;
      other = λ j out. w.other j out ∙ frames new j;
      parent_keeps = λ j hj. w.parent_keeps j hj ∙ frames parent j;
    }

  -- What a child's table of the row `new` holds in `k'`, when its parent's was the row `parent` of
  -- `k`: the kernel's pages and the code are the parent's, and each data page is a copy; the
  -- parent's pages behind its data, with which its heap begins, are unmapped.
  pub record Inherits (k k' : Kernel) : Type 0 where
    pub apart : parent ≢ new
    pub shared : (p : ℕ) → 1 ≤ p → p < 264 → k'.pagusr_table new p ≡ k.pagusr_table parent p
    pub copies : Copies new parent apart 20 0 k k'
    pub heap_gone : (j : ℕ) → j < 20 → k'.pagusr_table parent (284 + j) ≡ no_entry

  pub Inherits-from :
      (k k_1 k' : Kernel)
      → k_1.phys_mem ≡ k.phys_mem
      → k_1.ram ≡ k.ram
      → k_1.pagusr_table ≡ k.pagusr_table
      → Inherits k_1 k'
      → Inherits k k'
  Inherits-from k k_1 k' mem bytes tables w = record {
    apart = w.apart;
    shared = λ p lo hi. w.shared p lo hi ∙ ap (λ f. f parent p) tables;
    copies =
        Copies-from w.apart k k_1 mem bytes (λ row j. ap (λ f. (f row (264 + j)).pbase_addr) tables)
          k' w.copies;
    heap_gone = w.heap_gone;
  }

  abbrev pub shared_1 : Kernel → Kernel
  shared_1 k = share_pages num_pag_kernel 1 new parent k

  abbrev pub shared_2 : Kernel → Kernel
  shared_2 k = share_pages num_pag_code pag_log_init_code new parent (shared_1 k)

  abbrev pub filled : Kernel → Bool × Kernel
  filled k = copy_pages num_pag_data 0 new parent [] (shared_2 k)

  shared_2-outside :
      (k : Kernel) (row p : ℕ)
      → (row ≢ new) ⊎ (264 ≤ p)
      → (shared_2 k).pagusr_table row p ≡ k.pagusr_table row p
  shared_2-outside k row p h =
      share_pages-outside new parent 8 256 (shared_1 k) row p (ground (arith, h))
      ∙ share_pages-outside new parent 256 1 k row p (ground (arith, h))

  shared_2-inside :
      (k : Kernel) (p : ℕ)
      → parent ≢ new
      → 1 ≤ p
      → p < 264
      → (shared_2 k).pagusr_table new p ≡ k.pagusr_table parent p
  shared_2-inside k p ne lo hi = elim (Bool-cases (ltb p 256)) [
    | inl low ↦
        share_pages-outside new parent 8 256 (shared_1 k) new p (inr (inl (ground arith)))
        ∙ share_pages-inside new parent 256 1 k p ne lo (ground arith)
    | inr high ↦
        share_pages-inside new parent 8 256 (shared_1 k) p ne (ground arith) hi
        ∙ share_pages-outside new parent 256 1 k parent p (inl ne)
  ]

  shared_2-rest :
      (k : Kernel)
      → ((shared_2 k).phys_mem ≡ k.phys_mem)
        × ((shared_2 k).ram ≡ k.ram)
        × ((shared_2 k).dir_pages ≡ k.dir_pages)
        × ((shared_2 k).task ≡ k.task)
  shared_2-rest k =
      let (m, r, d, t) = share_pages-rest new parent 8 256 (shared_1 k) in
      let (m', r', d', t') = share_pages-rest new parent 256 1 k in (m ∙ m', r ∙ r', d ∙ d', t ∙ t')

  frame-shared_2 : (row j : ℕ) (k : Kernel) → data_frame row j (shared_2 k) ≡ data_frame row j k
  frame-shared_2 row j k =
      ap (λ e. e.pbase_addr) (shared_2-outside k row (264 + j) (inr (omega arith)))

  pub filled-Inherits :
      (ne : parent ≢ new) (k : Kernel)
      → InUse new parent ne 20 0 k
      → (filled k).0 ≡ true
      → Inherits k (filled k).1
  filled-Inherits ne k in_use done =
      let (_, _, below) = copy_pages-rest new parent 20 0 [] (shared_2 k) in
      let (mem, bytes, _, _) = shared_2-rest k in
      let frames : (row j : ℕ) → data_frame row j (shared_2 k) ≡ data_frame row j k =
        λ row j. frame-shared_2 row j k in
      record {
        apart = ne;
        shared = λ p lo hi. below new p hi ∙ shared_2-inside k p ne lo hi;
        copies = Copies-from ne k (shared_2 k) mem bytes frames (filled k).1 (
            copy_pages-Copies new parent ne 20 0 [] (shared_2 k) (omega arith)
              (InUse-from ne k (shared_2 k) mem bytes frames in_use) done);
        heap_gone =
            λ j h. copy_pages-heap new parent 20 0 [] (shared_2 k) j ne done (omega arith) h;
      }

  pub filled-rest :
      (k : Kernel) → ((filled k).1.dir_pages ≡ k.dir_pages) × ((filled k).1.task ≡ k.task)
  filled-rest k =
      let (d, t, _) = copy_pages-rest new parent 20 0 [] (shared_2 k) in
      let (_, _, d', t') = shared_2-rest k in (d ∙ d', t ∙ t')
