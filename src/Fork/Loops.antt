-- ===== src/Fork/Loops.antt =====
-- The loops of `sys_fork` over the pages of its two tables.
use so2fib.Common.{
  ℕ, zero, suc, ◌+◌, ◌≤◌, ◌<◌, ◌≡◌, ◌≢◌, refl, ◌∙◌, ap, sym, true, List, ◌∷◌, Option-cases,
  Bool-cases, inl, inr, ◌⊎◌, arith, ◌==◌, ==-eq, if◌then◌else◌,
}
use so2fib.Frames.{alloc_frame}
use so2fib.Paging.{no_entry, set_ss_pag, del_ss_pag}
use so2fib.Kernel.{Kernel}
use so2fib.Space.{set_mem}
use so2fib.Fork.{share_pages, copy_page, copy_pages}
use so2fib.Fork.Memory.{copy_pages-full, copy_pages-some}

module _ (new parent : ℕ) where
  pub share_pages-outside :
      (n page : ℕ) (k : Kernel) (row p : ℕ)
      → (row ≢ new) ⊎ (p < page) ⊎ (page + n ≤ p)
      → (share_pages n page new parent k).pagusr_table row p ≡ k.pagusr_table row p
  unfolding share_pages
  share_pages-outside zero page k row p h = refl
  share_pages-outside (suc n) page k row p h =
      share_pages-outside n (page + 1) _ row p (ground (arith, h)) ∙ ground (arith, h)

  pub share_pages-inside :
      (n page : ℕ) (k : Kernel) (p : ℕ)
      → parent ≢ new
      → page ≤ p
      → p < page + n
      → (share_pages n page new parent k).pagusr_table new p ≡ k.pagusr_table parent p
  unfolding share_pages
  share_pages-inside zero page k p ne lo hi = absurd (omega arith)
  share_pages-inside (suc n) page k p ne lo hi = elim (Bool-cases (p == page)) [
    | inl e ↦
        share_pages-outside n (page + 1) _ new p (inr (inl (ground arith)))
        ∙ ground (arith, ==-eq p page e)
    | inr later ↦ share_pages-inside n (page + 1) _ p ne (ground arith) (omega arith) ∙ ground arith
  ]

  -- Neither loop touches what says whose table is whose.
  pub share_pages-rest :
      (n page : ℕ) (k : Kernel)
      → ((share_pages n page new parent k).phys_mem ≡ k.phys_mem)
        × ((share_pages n page new parent k).ram ≡ k.ram)
        × ((share_pages n page new parent k).dir_pages ≡ k.dir_pages)
        × ((share_pages n page new parent k).task ≡ k.task)
  unfolding share_pages
  share_pages-rest zero page k = (refl, refl, refl, refl)
  share_pages-rest (suc n) page k = share_pages-rest n (page + 1) _

  copy_page-rest :
      (i frame : ℕ) (k : Kernel)
      → ((copy_page i new parent frame k).dir_pages ≡ k.dir_pages)
        × ((copy_page i new parent frame k).task ≡ k.task)
        × ((row p : ℕ)
            → p < 264
            → (copy_page i new parent frame k).pagusr_table row p ≡ k.pagusr_table row p)
  unfolding copy_page set_ss_pag del_ss_pag
  copy_page-rest i frame k = (refl, refl, λ row p h. ground arith)

  pub copy_pages-rest :
      (n i : ℕ) (frames : List ℕ) (k : Kernel)
      → ((copy_pages n i new parent frames k).1.dir_pages ≡ k.dir_pages)
        × ((copy_pages n i new parent frames k).1.task ≡ k.task)
        × ((row p : ℕ)
            → p < 264
            → (copy_pages n i new parent frames k).1.pagusr_table row p ≡ k.pagusr_table row p)
  unfolding copy_pages
  copy_pages-rest zero i frames k = (refl, refl, λ row p h. refl)
  copy_pages-rest (suc n) i frames k = elim (Option-cases (alloc_frame k.phys_mem).0) [
    | inl e ↦ rw (e, copy_pages) (refl, refl, λ row p h. refl)
    | inr (frame, e) ↦
        let k_0 = set_mem (alloc_frame k.phys_mem).1 k in
        let (d, t, p) = copy_page-rest i frame k_0 in
        let (d', t', p') =
          copy_pages-rest n (i + 1) (frame ∷ frames) (copy_page i new parent frame k_0) in
        rw (e, copy_pages) (d' ∙ d, t' ∙ t, λ row a h. p' row a h ∙ p row a h)
  ]

  -- The page behind the parent's data pages that a round maps for its copy is unmapped after it.
  copy_page-heap :
      (i frame : ℕ) (k : Kernel) (j : ℕ)
      → parent ≢ new
      → (copy_page i new parent frame k).pagusr_table parent (284 + j)
        ≡ (if j == i then no_entry else k.pagusr_table parent (284 + j))
  unfolding copy_page set_ss_pag del_ss_pag
  copy_page-heap i frame k j ne = ground arith

  copy_pages-later :
      (n i : ℕ) (frames : List ℕ) (k : Kernel) (j : ℕ)
      → parent ≢ new
      → j < i
      → (copy_pages n i new parent frames k).1.pagusr_table parent (284 + j)
        ≡ k.pagusr_table parent (284 + j)
  unfolding copy_pages
  copy_pages-later zero i frames k j ne h = refl
  copy_pages-later (suc n) i frames k j ne h = elim (Option-cases (alloc_frame k.phys_mem).0) [
    | inl e ↦ rw (e, copy_pages) refl
    | inr (frame, e) ↦
        let k_0 = set_mem (alloc_frame k.phys_mem).1 k in
        rw (e, copy_pages)
          (copy_pages-later n (i + 1) (frame ∷ frames) (copy_page i new parent frame k_0) j ne
              (omega arith)
            ∙ copy_page-heap i frame k_0 j ne
            ∙ ground arith)
  ]

  pub copy_pages-heap :
      (n i : ℕ) (frames : List ℕ) (k : Kernel) (j : ℕ)
      → parent ≢ new
      → (copy_pages n i new parent frames k).0 ≡ true
      → i ≤ j
      → j < i + n
      → (copy_pages n i new parent frames k).1.pagusr_table parent (284 + j) ≡ no_entry
  unfolding copy_pages
  copy_pages-heap zero i frames k j ne done lo hi = absurd (omega arith)
  copy_pages-heap (suc n) i frames k j ne done lo hi =
      elim (Option-cases (alloc_frame k.phys_mem).0) [
        | inl e ↦ cc (sym (copy_pages-full new parent ne n i frames k e) ∙ done)
        | inr (frame, e) ↦
            let k_1 = copy_page i new parent frame (set_mem (alloc_frame k.phys_mem).1 k) in
            let eq = copy_pages-some new parent ne n i frames frame k e in
            rw eq (elim (Bool-cases (j == i)) [
              | inl at ↦
                  copy_pages-later n (i + 1) (frame ∷ frames) k_1 j ne (ground arith)
                  ∙ copy_page-heap i frame _ j ne
                  ∙ ground arith
              | inr after ↦
                  copy_pages-heap n (i + 1) (frame ∷ frames) k_1 j ne
                    (ap (λ r. r.0) (sym eq) ∙ done) (ground arith) (omega arith)
            ])
      ]
