-- ===== src/Isolation/Used.antt =====
-- The frames in use stay in use through `sys_fork`: what it frees when it gives up was free before.
use so2fib.Common.{
  ℕ, zero, suc, ◌+◌, ◌≡◌, ◌≢◌, refl, ◌∙◌, ap, sym, true, List, [], ◌∷◌, has, arith, some,
  Option-cases, inl, inr, ◌==◌, ==-eq, Bool-cases, subst,
}
use so2fib.Frames.{PhysMem, free_mark, alloc_frame, free_frame}
use so2fib.Frames.Alloc.{alloc_frame-Search, alloc_frame-Found}
use so2fib.Frames.Trace.{used-Search}
use so2fib.Kernel.{Kernel}
use so2fib.Space.{set_mem}
use so2fib.Fork.{copy_page, revert, copy_pages}
use so2fib.Fork.Loops.{share_pages-rest}
use so2fib.Fork.Filled.{shared_1, shared_2, filled}

-- Every frame in use of `mem` is in use in `mem'`.
abbrev pub KeepsUsed : PhysMem → PhysMem → Type 0
KeepsUsed mem mem' = (x : ℕ) → mem x ≢ free_mark → mem' x ≢ free_mark

pub alloc_frame-KeepsUsed : (mem : PhysMem) → KeepsUsed mem (alloc_frame mem).1
alloc_frame-KeepsUsed mem x u = used-Search x (alloc_frame-Search mem) u

-- All of these frames were free.
abbrev WereFree : PhysMem → List ℕ → Type 0
WereFree mem frames = (x : ℕ) → has x frames ≡ true → mem x ≡ free_mark

revert-KeepsUsed :
    (mem_0 : PhysMem) (frames : List ℕ) (mem : PhysMem)
    → WereFree mem_0 frames
    → KeepsUsed mem_0 mem
    → KeepsUsed mem_0 (revert frames mem)
unfolding revert free_frame
revert-KeepsUsed mem_0 [] mem were keeps = keeps
revert-KeepsUsed mem_0 (frame ∷ frames) mem were keeps =
    revert-KeepsUsed mem_0 frames (free_frame frame mem) (λ x i. were x (ground arith))
      (λ x u. ground (arith, keeps x u, were frame))

-- The frame that was found was free before.
found_free :
    (mem_0 mem mem' : PhysMem) (frame : ℕ)
    → KeepsUsed mem_0 mem
    → alloc_frame mem ≡ (some frame, mem')
    → mem_0 frame ≡ free_mark
found_free mem_0 mem mem' frame keeps e =
    let was = (alloc_frame-Found e).was_free in
    elim (Bool-cases (mem_0 frame == free_mark)) [
      | inl free ↦ ==-eq (mem_0 frame) free_mark free
      | inr used ↦ absurd (keeps frame (ground arith) was)
    ]

module _ (new parent : ℕ) where
  copy_page-mem :
      (i frame : ℕ) (k : Kernel) → (copy_page i new parent frame k).phys_mem ≡ k.phys_mem
  unfolding copy_page
  copy_page-mem i frame k = refl

  copy_pages-KeepsUsed :
      (n i : ℕ) (frames : List ℕ) (k : Kernel) (mem_0 : PhysMem)
      → WereFree mem_0 frames
      → KeepsUsed mem_0 k.phys_mem
      → KeepsUsed mem_0 (copy_pages n i new parent frames k).1.phys_mem
  unfolding copy_pages
  copy_pages-KeepsUsed zero i frames k mem_0 were keeps = keeps
  copy_pages-KeepsUsed (suc n) i frames k mem_0 were keeps =
      let mem = (alloc_frame k.phys_mem).1 in
      let keeps_1 : KeepsUsed mem_0 mem = λ x u. alloc_frame-KeepsUsed k.phys_mem x (keeps x u) in
      elim (Option-cases (alloc_frame k.phys_mem).0) [
        | inl e ↦ rw (e, copy_pages) (revert-KeepsUsed mem_0 frames mem were keeps_1)
        | inr (frame, e) ↦
            let k_1 = copy_page i new parent frame (set_mem mem k) in
            let was : mem_0 frame ≡ free_mark =
              found_free mem_0 k.phys_mem mem frame keeps (λ s. (e s, mem)) in
            rw (e, copy_pages)
              (copy_pages-KeepsUsed n (i + 1) (frame ∷ frames) k_1 mem_0
                (λ x i_in. elim (Bool-cases (x == frame)) [
                  | inl same ↦ ap mem_0 (==-eq x frame same) ∙ was
                  | inr other ↦ were x (ground arith)
                ])
                (subst (KeepsUsed mem_0) (sym (copy_page-mem i frame (set_mem mem k))) keeps_1))
      ]

  pub filled-KeepsUsed : (k : Kernel) → KeepsUsed k.phys_mem (filled new parent k).1.phys_mem
  filled-KeepsUsed k =
      let (m_1, _, _, _) = share_pages-rest new parent 256 1 k in
      let (m_2, _, _, _) = share_pages-rest new parent 8 256 (shared_1 new parent k) in
      copy_pages-KeepsUsed 20 0 [] (shared_2 new parent k) k.phys_mem (λ x i_in. cc)
        (λ x u. rw (m_2 ∙ m_1) u)
