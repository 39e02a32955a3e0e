-- ===== src/Paging/Boot.antt =====
-- The address space of the first process, as the kernel's start makes it.
use so2fib.Common.{
  ℕ, zero, suc, ◌+◌, ◌-◌, ◌*◌, ◌≤◌, ◌<◌, ◌≡◌, ap, ◌∙◌, ◌&&◌, Bool, true, false, arith,
  if◌then◌else◌, ltb, leb, update, lt→ltb,
}
use so2fib.Frames.{PhysMem, num_pag_kernel, total_pages, init_frames, alloc_frame}
use so2fib.Frames.Trace.{allocs, alloc_frame-allocs}
use so2fib.Paging.{
  Entry, PageTable, no_entry, pbase, clear_pages, map_kernel, init_table_pages, map_user,
  set_user_pages, frame_bits,
}

clear_pages_lem :
    (n i : ℕ) (pt : PageTable) (k : ℕ)
    → clear_pages n i pt k ≡ (if leb i k && ltb k (i + n) then no_entry else pt k)
unfolding clear_pages
clear_pages_lem zero i pt k = ground arith
clear_pages_lem (suc n) i pt k = ground (arith, clear_pages_lem n (i + 1) (update pt i no_entry) k)

-- The kernel's entry for page `i`, over what was there.
abbrev pub kernel_entry : ℕ → Entry → Entry
kernel_entry i e = record e { present = true; rw_bit = true; pbase_addr = pbase i }

map_kernel_lem :
    (n i : ℕ) (pt : PageTable) (k : ℕ)
    → map_kernel n i pt k ≡ (if leb i k && ltb k (i + n) then kernel_entry k (pt k) else pt k)
unfolding map_kernel
map_kernel_lem zero i pt k = ground arith
map_kernel_lem (suc n) i pt k =
    map_kernel_lem n (i + 1) (update pt i (kernel_entry i (pt i))) k ∙ ground arith

-- After `init_table_pages`, a table maps the pages 1 to 255 to the frames of the same numbers, for
-- the kernel alone to read and write, and no other page.
pub init_table_pages_lem :
    (pt : PageTable) (k : ℕ)
    → k < total_pages
    → init_table_pages pt k
      ≡ (if ltb 0 k && ltb k num_pag_kernel then kernel_entry k no_entry else no_entry)
unfolding init_table_pages
init_table_pages_lem pt k h =
    map_kernel_lem (num_pag_kernel - 1) 1 (clear_pages total_pages 0 pt) k
    ∙ ground (arith, clear_pages_lem total_pages 0 pt k)

-- A user page's entry.
abbrev pub user_entry : Bool → ℕ → Entry
user_entry writable frame = record {
  present = true;
  rw_bit = writable;
  user = true;
  pbase_addr = frame;
}

-- Call number `j` of `alloc_frame`, as a field of an entry.
frame_bits-allocs :
    (j : ℕ) (mem : PhysMem)
    → j < 384
    → frame_bits (alloc_frame (allocs j (init_frames mem))).0 ≡ 256 + 2 * j
unfolding frame_bits
frame_bits-allocs j mem h =
    rw (alloc_frame-allocs j mem (omega arith), lt→ltb j 384 h) (omega arith)

map_user-step :
    (n j page : ℕ) (writable : Bool) (pt : PageTable) (mem : PhysMem)
    → j < 384
    → map_user (suc n) page writable (pt, allocs j (init_frames mem))
      ≡ map_user n
          (page + 1)
          writable
          (update pt page (user_entry writable (256 + 2 * j)), allocs (suc j) (init_frames mem))
unfolding map_user allocs
map_user-step n j page writable pt mem h =
    ap
      (λ f.
        map_user n (page + 1) writable
          (update pt page (user_entry writable f), allocs (suc j) (init_frames mem)))
      (frame_bits-allocs j mem h)

map_user-allocs :
    (n j page : ℕ) (writable : Bool) (pt : PageTable) (mem : PhysMem)
    → j + n ≤ 384
    → ((map_user n page writable (pt, allocs j (init_frames mem))).1
        ≡ allocs (j + n) (init_frames mem))
      × ((k : ℕ)
          → (map_user n page writable (pt, allocs j (init_frames mem))).0 k ≡ (
              if leb page k && ltb k (page + n)
              then user_entry writable (256 + 2 * (j + (k - page)))
              else pt k))
unfolding map_user
map_user-allocs zero j page writable pt mem h =
    (ap (λ i. allocs i (init_frames mem)) (omega arith), λ k. ground arith)
map_user-allocs (suc n) j page writable pt mem h =
    let pt_1 = update pt page (user_entry writable (256 + 2 * j)) in
    let (frames, pages) = map_user-allocs n (suc j) (page + 1) writable pt_1 mem (omega arith) in
    rw (map_user-step n j page writable pt mem (omega arith))
      (frames ∙ allocs_at (omega arith), λ k. pages k ∙ ground arith)
  where
    allocs_at :
        {a b : ℕ}
        → a ≡ b
        → ◌≡◌ {A = PhysMem} (allocs a (init_frames mem)) (allocs b (init_frames mem))
    allocs_at e = ap (λ i. allocs i (init_frames mem)) e

-- After `init_frames`, `set_user_pages` maps the pages from 256 on, the 8 of the code and the 20 of
-- the data, to the frames 256, 258, … in this order, for the task to read, and to write in the
-- data only; the other pages keep their entries, and 28 frames are taken.
pub set_user_pages-allocs :
    (pt : PageTable) (mem : PhysMem)
    → ((set_user_pages (pt, init_frames mem)).1 ≡ allocs 28 (init_frames mem))
      × ((k : ℕ)
          → (set_user_pages (pt, init_frames mem)).0 k ≡ (
              if leb 256 k && ltb k 284
              then user_entry (leb 264 k) (256 + 2 * (k - 256))
              else pt k))
unfolding set_user_pages allocs
set_user_pages-allocs pt mem =
    let st = map_user 8 256 false (pt, init_frames mem) in
    let (frames, pages) = map_user-allocs 8 0 256 false pt mem (omega arith) in
    let (frames', pages') = map_user-allocs 20 8 264 true st.0 mem (omega arith) in
    (
      ap (λ m. (map_user 20 264 true (st.0, m)).1) frames ∙ frames',
      λ k.
          ap (λ m. (map_user 20 264 true (st.0, m)).0 k) frames
          ∙ pages' k
          ∙ ground (arith, pages k),
    )
