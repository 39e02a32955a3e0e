-- ===== src/Fork/Memory.antt =====
-- The memory of the child that `sys_fork` makes: each data page is a copy of the parent's.
use so2fib.Common.{
  ℕ, zero, suc, ◌+◌, ◌*◌, ◌≤◌, ◌<◌, ◌≡◌, ◌≢◌, refl, ◌∙◌, ap, sym, true, false, List, ◌∷◌, none,
  some, Option-cases, Bool-cases, inl, inr, arith, ◌⊎◌, ◌==◌, if◌then◌else◌,
}
use so2fib.Frames.{PhysMem, free_mark, alloc_frame}
use so2fib.Frames.Alloc.{Found, alloc_frame-Found}
use so2fib.Utils.Copy.{copied, copy_data-copied}
use so2fib.Paging.{set_ss_pag, del_ss_pag, get_frame}
use so2fib.Kernel.{Kernel}
use so2fib.Space.{set_mem, set_table}
use so2fib.Fork.{page_addr, copy_page, copy_pages}

-- The frame of data page `j` in the table of a row.
abbrev pub data_frame : ℕ → ℕ → Kernel → ℕ
data_frame row j k = (k.pagusr_table row (264 + j)).pbase_addr

-- Byte `o` of a frame.
abbrev pub byte_of : ℕ → ℕ → Kernel → ℕ
byte_of frame o k = k.ram (frame * 4096 + o)

module _ (new parent : ℕ) (apart : parent ≢ new) where
  -- `k'` is `k` with the data pages `i` to `i + n - 1` of the parent copied: the frames in use keep
  -- their bytes, and each copy is in a frame that was free.
  pub record Copies (n i : ℕ) (k k' : Kernel) : Type 0 where
    pub used : (x : ℕ) → k.phys_mem x ≢ free_mark → k'.phys_mem x ≢ free_mark
    pub bytes : (x o : ℕ) → k.phys_mem x ≢ free_mark → o < 4096 → byte_of x o k' ≡ byte_of x o k
    pub copy :
        (j o : ℕ)
        → i ≤ j
        → j < i + n
        → o < 4096
        → byte_of (data_frame new j k') o k' ≡ byte_of (data_frame parent j k) o k
    pub fresh : (j : ℕ) → i ≤ j → j < i + n → k.phys_mem (data_frame new j k') ≡ free_mark
    pub taken : (j : ℕ) → i ≤ j → j < i + n → k'.phys_mem (data_frame new j k') ≢ free_mark
    pub distinct :
        (j j' : ℕ) → i ≤ j → j < j' → j' < i + n → data_frame new j k' ≢ data_frame new j' k'
    pub other : (j : ℕ) → (j < i) ⊎ (i + n ≤ j) → data_frame new j k' ≡ data_frame new j k
    pub parent_keeps : (j : ℕ) → j < 20 → data_frame parent j k' ≡ data_frame parent j k

  module _ (i frame : ℕ) (k : Kernel) (mem : PhysMem)
      (found : alloc_frame k.phys_mem ≡ (some frame, mem)) where
    f : Found k.phys_mem 256 frame mem
    f = alloc_frame-Found found

    abbrev paged : Kernel
    paged = copy_page i new parent frame (set_mem mem k)

    paged-new : (j : ℕ) → data_frame new j paged ≡ (if j == i then frame else data_frame new j k)
    unfolding copy_page set_ss_pag del_ss_pag
    paged-new j = ground (arith, f.candidate.inside)

    paged-parent : (j : ℕ) → j < 20 → data_frame parent j paged ≡ data_frame parent j k
    unfolding copy_page set_ss_pag del_ss_pag
    paged-parent j h = ground arith

    -- The kernel with both tables written, before the bytes move.
    abbrev mapped : Kernel
    mapped =
        set_table parent (set_ss_pag (284 + i) frame)
          (set_table new (set_ss_pag (264 + i) frame) (set_mem mem k))

    page_addr-from : i < 20 → page_addr parent (264 + i) mapped ≡ data_frame parent i k * 4096
    unfolding set_ss_pag get_frame
    page_addr-from h = ground arith

    page_addr-to : page_addr parent (284 + i) mapped ≡ frame * 4096
    unfolding set_ss_pag get_frame
    page_addr-to = ground (arith, f.candidate.inside)

    paged-ram :
        (a : ℕ)
        → data_frame parent i k ≢ frame
        → i < 20
        → paged.ram a ≡ copied 4096 (data_frame parent i k * 4096) (frame * 4096) k.ram a
    unfolding copy_page
    paged-ram a ne h =
        rw (page_addr-from h, page_addr-to)
          (copy_data-copied 4096 (data_frame parent i k * 4096) (frame * 4096) k.ram a
            (ground arith))

    at_start :
        (j o : ℕ)
        → j ≡ i
        → o < 4096
        → copied 4096 (data_frame parent i k * 4096) (frame * 4096) k.ram (frame * 4096 + o)
          ≡ byte_of (data_frame parent j k) o k
    at_start j o at ho = rw at (ground arith)

    -- One round copies one page.
    paged-Copies : i < 20 → k.phys_mem (data_frame parent i k) ≢ free_mark → Copies 1 i k paged
    unfolding copy_page
    paged-Copies h in_use =
        let ne : data_frame parent i k ≢ frame = λ same. in_use (ap k.phys_mem same ∙ f.was_free) in
        record {
          used = λ x u. ground (arith, ap (λ g. g x) f.after);
          bytes = λ x o u ho.
              let off : x ≢ frame = λ same. u (ap k.phys_mem same ∙ f.was_free) in
              paged-ram (x * 4096 + o) ne h ∙ ground arith;
          copy = λ j o lo hi ho.
              let at : j ≡ i = omega arith in
              ap (λ g. byte_of g o paged) (paged-new j ∙ ground arith)
              ∙ paged-ram (frame * 4096 + o) ne h
              ∙ at_start j o at ho;
          fresh = λ j lo hi.
              let at : data_frame new j paged ≡ frame = paged-new j ∙ ground arith in
              ap k.phys_mem at ∙ f.was_free;
          taken = λ j lo hi.
              let at : data_frame new j paged ≡ frame = paged-new j ∙ ground arith in
              rw at (ground (arith, ap (λ g. g frame) f.after));
          distinct = λ j j' lo lt hi. absurd (omega arith);
          other = λ j out. paged-new j ∙ ground arith;
          parent_keeps = λ j hj. paged-parent j hj;
        }

  -- The data pages from `i` on are in frames in use.
  abbrev pub InUse : ℕ → ℕ → Kernel → Type 0
  InUse n i k = (j : ℕ) → i ≤ j → j < i + n → k.phys_mem (data_frame parent j k) ≢ free_mark

  -- One page, and then the others.
  Copies-append :
      (n i : ℕ) (k k_1 k_2 : Kernel)
      → i + suc n ≤ 20
      → InUse (suc n) i k
      → Copies 1 i k k_1
      → Copies n (i + 1) k_1 k_2
      → Copies (suc n) i k k_2
  Copies-append n i k k_1 k_2 h in_use v w = record {
    used = λ x u. w.used x (v.used x u);
    bytes = λ x o u ho. w.bytes x o (v.used x u) ho ∙ v.bytes x o u ho;
    copy = λ j o lo hi ho. elim (Bool-cases (j == i)) [
      | inl e ↦
          let first : data_frame new j k_2 ≡ data_frame new j k_1 = w.other j (ground arith) in
          ap (λ g. byte_of g o k_2) first
          ∙ w.bytes (data_frame new j k_1) o (v.taken j lo (ground arith)) ho
          ∙ v.copy j o lo (ground arith) ho
      | inr ne ↦
          w.copy j o (ground arith) (omega arith) ho
          ∙ ap (λ g. byte_of g o k_1) (v.parent_keeps j (omega arith))
          ∙ v.bytes (data_frame parent j k) o (in_use j lo hi) ho
    ];
    fresh = λ j lo hi. elim (Bool-cases (j == i)) [
      | inl e ↦ ap k.phys_mem (w.other j (ground arith)) ∙ v.fresh j lo (ground arith)
      | inr ne ↦
          let later : k_1.phys_mem (data_frame new j k_2) ≡ free_mark =
            w.fresh j (ground arith) (omega arith) in
          ground (arith, v.used (data_frame new j k_2), later)
    ];
    taken = λ j lo hi. elim (Bool-cases (j == i)) [
      | inl e ↦
          let first : data_frame new j k_2 ≡ data_frame new j k_1 = w.other j (ground arith) in
          rw first (w.used (data_frame new j k_1) (v.taken j lo (ground arith)))
      | inr ne ↦ w.taken j (ground arith) (omega arith)
    ];
    distinct = λ j j' lo lt hi. elim (Bool-cases (j == i)) [
      | inl e ↦
          let first : data_frame new j k_2 ≡ data_frame new j k_1 = w.other j (ground arith) in
          λ same.
            v.taken j lo (ground arith)
              (ap k_1.phys_mem (sym first ∙ same) ∙ w.fresh j' (omega arith) (omega arith))
      | inr ne ↦ w.distinct j j' (ground arith) lt (omega arith)
    ];
    other = λ j out. w.other j (omega arith) ∙ v.other j (omega arith);
    parent_keeps = λ j hj. w.parent_keeps j hj ∙ v.parent_keeps j hj;
  }

  InUse-next :
      (n i : ℕ) (k k_1 : Kernel)
      → i + suc n ≤ 20
      → InUse (suc n) i k
      → Copies 1 i k k_1
      → InUse n (i + 1) k_1
  InUse-next n i k k_1 h in_use v j lo hi =
      rw (v.parent_keeps j (omega arith))
        (v.used (data_frame parent j k) (in_use j (omega arith) (omega arith)))

  pub copy_pages-full :
      (n i : ℕ) (frames : List ℕ) (k : Kernel)
      → (alloc_frame k.phys_mem).0 ≡ none
      → (copy_pages (suc n) i new parent frames k).0 ≡ false
  unfolding copy_pages
  copy_pages-full n i frames k e = rw (e, copy_pages) refl

  pub copy_pages-some :
      (n i : ℕ) (frames : List ℕ) (frame : ℕ) (k : Kernel)
      → (alloc_frame k.phys_mem).0 ≡ some frame
      → copy_pages (suc n) i new parent frames k
        ≡ copy_pages n
            (i + 1)
            new
            parent
            (frame ∷ frames)
            (copy_page i new parent frame (set_mem (alloc_frame k.phys_mem).1 k))
  unfolding copy_pages
  copy_pages-some n i frames frame k e = rw (e, copy_pages) refl

  -- When the loop of `sys_fork` over the data pages finds frames for all of them, each page of the
  -- child is in a frame of its own that was free and holds what the parent's page held; the frames that were
  -- in use keep their bytes, and the parent keeps its pages.
  pub copy_pages-Copies :
      (n i : ℕ) (frames : List ℕ) (k : Kernel)
      → i + n ≤ 20
      → InUse n i k
      → (copy_pages n i new parent frames k).0 ≡ true
      → Copies n i k (copy_pages n i new parent frames k).1
  unfolding copy_pages
  copy_pages-Copies zero i frames k h in_use done = record {
    used = λ x u. u;
    bytes = λ x o u ho. refl;
    copy = λ j o lo hi ho. absurd (omega arith);
    fresh = λ j lo hi. absurd (omega arith);
    taken = λ j lo hi. absurd (omega arith);
    distinct = λ j j' lo lt hi. absurd (omega arith);
    other = λ j out. refl;
    parent_keeps = λ j hj. refl;
  }
  copy_pages-Copies (suc n) i frames k h in_use done =
      let mem = (alloc_frame k.phys_mem).1 in
      elim (Option-cases (alloc_frame k.phys_mem).0) [
        | inl e ↦ cc (sym (copy_pages-full n i frames k e) ∙ done)
        | inr (frame, e) ↦
            let k_1 = copy_page i new parent frame (set_mem mem k) in
            let eq = copy_pages-some n i frames frame k e in
            let v =
              paged-Copies i frame k mem (λ s. (e s, mem)) (omega arith)
                (in_use i (omega arith) (omega arith)) in
            rw eq (
              Copies-append n i k k_1 _ h in_use v (
                copy_pages-Copies n (i + 1) (frame ∷ frames) k_1 (omega arith)
                  (InUse-next n i k k_1 h in_use v) (ap (λ r. r.0) (sym eq) ∙ done)))
      ]
