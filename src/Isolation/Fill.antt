-- ===== src/Isolation/Fill.antt =====
-- The loops of `sys_fork` over pages write to the child's table and to the parent's heap, and take
-- no frame in use, also where they give up.
use so2fib.Common.{
  ℕ, zero, suc, ◌+◌, ◌<◌, ◌≤◌, ◌≡◌, ◌≢◌, refl, ◌∙◌, ap, List, [], ◌∷◌, arith, Option-cases, inl,
  inr,
}
use so2fib.Frames.{PhysMem, total_pages, num_pag_kernel, alloc_frame}
use so2fib.Paging.{no_entry, set_ss_pag, del_ss_pag}
use so2fib.Kernel.{Kernel}
use so2fib.Space.{set_mem}
use so2fib.Fork.{share_pages, copy_page, copy_pages}
use so2fib.Fork.Memory.{data_frame}
use so2fib.Fork.Loops.{share_pages-outside}
use so2fib.Fork.Filled.{shared_1, shared_2, filled}

-- What the loops for a child's row leave of `k`.
pub record Fills (new : ℕ) (k k' : Kernel) : Type 0 where
  pub dirs : k'.dir_pages ≡ k.dir_pages
  pub tasks : k'.task ≡ k.task
  pub refs : k'.refs_dir ≡ k.refs_dir
  pub frames : (row j : ℕ) → row ≢ new → j < 20 → data_frame row j k' ≡ data_frame row j k
  pub heap :
      (row p : ℕ)
      → 284 ≤ p
      → p < total_pages
      → k.pagusr_table row p ≡ no_entry
      → k'.pagusr_table row p ≡ no_entry

Fills-trans : {new : ℕ} {k k' k'' : Kernel} → Fills new k k' → Fills new k' k'' → Fills new k k''
Fills-trans a b = record {
  dirs = b.dirs ∙ a.dirs;
  tasks = b.tasks ∙ a.tasks;
  refs = b.refs ∙ a.refs;
  frames = λ row j ne h. b.frames row j ne h ∙ a.frames row j ne h;
  heap = λ row p lo hi e. b.heap row p lo hi (a.heap row p lo hi e);
}

-- A write to the map of the frames.
mem-Fills : (new : ℕ) (mem : PhysMem) (k : Kernel) → Fills new k (set_mem mem k)
mem-Fills new mem k = record {
  dirs = refl;
  tasks = refl;
  refs = refl;
  frames = λ row j ne h. refl;
  heap = λ row p lo hi e. e;
}

module _ (new parent : ℕ) where
  share_pages-refs :
      (n page : ℕ) (k : Kernel)
      → ((share_pages n page new parent k).refs_dir ≡ k.refs_dir)
        × ((share_pages n page new parent k).dir_pages ≡ k.dir_pages)
        × ((share_pages n page new parent k).task ≡ k.task)
        × ((share_pages n page new parent k).phys_mem ≡ k.phys_mem)
  unfolding share_pages
  share_pages-refs zero page k = (refl, refl, refl, refl)
  share_pages-refs (suc n) page k = share_pages-refs n (page + 1) _

  share_pages-Fills :
      (n page : ℕ) (k : Kernel) → page + n ≤ 284 → Fills new k (share_pages n page new parent k)
  share_pages-Fills n page k h =
      let (r, d, t, _) = share_pages-refs n page k in
      record {
        dirs = d;
        tasks = t;
        refs = r;
        frames = λ row j ne lt.
            ap (λ e. e.pbase_addr) (share_pages-outside new parent n page k row (264 + j) (inl ne));
        heap = λ row p lo hi e.
            share_pages-outside new parent n page k row p (inr (inr (omega arith))) ∙ e;
      }

  copy_page-Fills :
      (i frame : ℕ) (k : Kernel) → i < 20 → Fills new k (copy_page i new parent frame k)
  unfolding copy_page set_ss_pag del_ss_pag
  copy_page-Fills i frame k h = record {
    dirs = refl;
    tasks = refl;
    refs = refl;
    frames = λ row j ne lt. ground arith;
    heap = λ row p lo hi e. ground arith;
  }

  copy_pages-Fills :
      (n i : ℕ) (frames : List ℕ) (k : Kernel)
      → i + n ≤ 20
      → Fills new k (copy_pages n i new parent frames k).1
  unfolding copy_pages
  copy_pages-Fills zero i frames k h = mem-Fills new k.phys_mem k
  copy_pages-Fills (suc n) i frames k h = elim (Option-cases (alloc_frame k.phys_mem).0) [
    | inl e ↦ rw (e, copy_pages) (mem-Fills new _ k)
    | inr (frame, e) ↦
        let k_0 = set_mem (alloc_frame k.phys_mem).1 k in
        rw (e, copy_pages)
          (Fills-trans (mem-Fills new _ k) (
            Fills-trans (copy_page-Fills i frame k_0 (omega arith)) (
              copy_pages-Fills n (i + 1) (frame ∷ frames) (copy_page i new parent frame k_0)
                (omega arith))))
  ]

  pub filled-Fills : (k : Kernel) → Fills new k (filled new parent k).1
  filled-Fills k = Fills-trans (share_pages-Fills num_pag_kernel 1 k (omega arith)) (
      Fills-trans (share_pages-Fills 8 256 (shared_1 new parent k) (omega arith))
        (copy_pages-Fills 20 0 [] (shared_2 new parent k) (omega arith)))
