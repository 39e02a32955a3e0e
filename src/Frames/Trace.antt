-- ===== src/Frames/Trace.antt =====
-- The allocator over sequences of calls.
use so2fib.Common.{
  ℕ, zero, suc, ◌+◌, ◌*◌, ◌≤◌, ◌<◌, ◌≡◌, refl, ap, ◌≢◌, Option, none, some, List, [], ◌∷◌, arith,
  ltb, if◌then◌else◌, Bool-cases, subst, inl, inr,
}
use so2fib.Frames.{
  PhysMem, total_pages, num_pag_kernel, free_mark, used_mark, init_frames, alloc_frame, free_frame,
}
use so2fib.Frames.Alloc.{
  Search, found, full, IsCandidate, alloc_frame-Search, alloc_frame-Found, init_frames_lem,
}

pub data FrameOp : Type 0 where
  alloc : FrameOp
  free : ℕ → FrameOp

unfoldable pub run : PhysMem → List FrameOp → PhysMem
run mem [] = mem
run mem (alloc ∷ ops) = run (alloc_frame mem).1 ops
run mem (free frame ∷ ops) = run (free_frame frame mem) ops

pub used-Search :
    {mem : PhysMem} {i : ℕ} {r : Option ℕ × PhysMem} (k : ℕ)
    → Search mem i r
    → mem k ≢ free_mark
    → r.1 k ≢ free_mark
used-Search k (found c f first e) used = ground (arith, ap (λ g. g k) e)
used-Search k (full none_free e) used = ground (arith, ap (λ g. g k) e)

first_frame-run :
    (ops : List FrameOp) (mem : PhysMem)
    → mem num_pag_kernel ≢ free_mark
    → run mem ops num_pag_kernel ≢ free_mark
unfolding run free_frame
first_frame-run [] mem used = used
first_frame-run (alloc ∷ ops) mem used =
    first_frame-run ops (alloc_frame mem).1
      (used-Search num_pag_kernel (alloc_frame-Search mem) used)
first_frame-run (free frame ∷ ops) mem used =
    first_frame-run ops (free_frame frame mem) (ground arith)

-- Frame 256, once taken, is never given out again, whatever is freed: `free_frame` refuses it.
pub first_frame-lost :
    (ops : List FrameOp) (mem : PhysMem)
    → mem num_pag_kernel ≢ free_mark
    → (alloc_frame (run mem ops)).0 ≢ some num_pag_kernel
first_frame-lost ops mem used e =
    let after = run mem ops in
    let f = alloc_frame-Found {mem = after} (λ i. (e i, (alloc_frame after).1)) in
    first_frame-run ops mem used f.was_free

-- The map after `n` calls of `alloc_frame`.
unfoldable pub allocs : ℕ → PhysMem → PhysMem
allocs zero mem = mem
allocs (suc n) mem = (alloc_frame (allocs n mem)).1

-- Of the frames that `alloc_frame` looks at, those below `limit` are used and the others free.
abbrev pub UsedBelow : ℕ → PhysMem → Type 0
UsedBelow limit mem =
    (k : ℕ) → IsCandidate num_pag_kernel k → mem k ≡ (if ltb k limit then used_mark else free_mark)

next-Search :
    {mem : PhysMem} {r : Option ℕ × PhysMem} (n : ℕ)
    → Search mem num_pag_kernel r
    → UsedBelow (num_pag_kernel + 2 * n) mem
    → n < 384
    → (r.0 ≡ some (num_pag_kernel + 2 * n)) × UsedBelow (num_pag_kernel + 2 * suc n) r.1
next-Search n (found {j} c f first e) below lt =
    let limit : ℕ = num_pag_kernel + 2 * n in
    let here : IsCandidate num_pag_kernel limit = omega arith in
    let at : j ≡ limit = ground (arith, below j c, f, first limit here, below limit here) in
    (ap some at, λ k ck. ground (arith, ap (λ g. g k) e, below k ck, at, ck.step, ck.after))
next-Search n (full none_free e) below lt =
    let limit : ℕ = num_pag_kernel + 2 * n in
    let here : IsCandidate num_pag_kernel limit = omega arith in
    absurd (none_free limit here (ground (arith, below limit here)))

pub UsedBelow-allocs :
    (n : ℕ) (mem : PhysMem)
    → n ≤ 384
    → UsedBelow (num_pag_kernel + 2 * n) (allocs n (init_frames mem))
unfolding allocs
UsedBelow-allocs zero mem h = λ k ck. ground (arith, init_frames_lem mem k, ck.inside, ck.after)
UsedBelow-allocs (suc n) mem h =
    (next-Search n (alloc_frame-Search (allocs n (init_frames mem)))
      (UsedBelow-allocs n mem (omega arith)) (omega arith)).1

exhausted-Search :
    {mem : PhysMem} {r : Option ℕ × PhysMem}
    → Search mem num_pag_kernel r
    → UsedBelow total_pages mem
    → r.0 ≡ none
exhausted-Search (found {j} c f first e) below = absurd (ground (arith, below j c, c.inside))
exhausted-Search (full none_free e) below = refl

-- From `init_frames` on, 384 calls of `alloc_frame` return the frames 256, 258, …, 1022, in this
-- order, and the next call finds none: half of the user memory is never given out.
pub alloc_frame-allocs :
    (n : ℕ) (mem : PhysMem)
    → n ≤ 384
    → (alloc_frame (allocs n (init_frames mem))).0
      ≡ (if ltb n 384 then some (num_pag_kernel + 2 * n) else none)
alloc_frame-allocs n mem h = elim (Bool-cases (ltb n 384)) [
  | inl lt ↦
      rw lt
        (next-Search n (alloc_frame-Search (allocs n (init_frames mem))) (UsedBelow-allocs n mem h)
          (ground arith)).0
  | inr over ↦ rw over (
      exhausted-Search (alloc_frame-Search (allocs n (init_frames mem))) (
        subst (λ l. UsedBelow l (allocs n (init_frames mem))) (ground arith)
          (UsedBelow-allocs n mem h)))
]
