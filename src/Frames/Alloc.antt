-- ===== src/Frames/Alloc.antt =====
-- Which frame `alloc_frame` takes, and what `free_frame` gives back.
use so2fib.Common.{
  ℕ, zero, suc, ◌+◌, ◌*◌, ◌%◌, ◌≤◌, ◌<◌, ◌≡◌, refl, ap, ◌∙◌, sym, ◌≢◌, Option, none, some, arith,
  update, fun_ext, subst, ==-eq, ◌==◌, ◌⊎◌, inl, inr, ltb, leb, ◌&&◌, Bool-cases, if◌then◌else◌,
}
use so2fib.Frames.{
  PhysMem, total_pages, num_pag_kernel, free_mark, used_mark, fill, init_frames, alloc_from,
  alloc_frame, alloc_fuel, free_frame,
}

-- The frames from `i` on that `alloc_frame` looks at.
pub record IsCandidate (i j : ℕ) : Type 0 where
  pub after : i ≤ j
  pub inside : j < total_pages
  pub step : j % 2 ≡ i % 2

-- What the search from `i` found: the first free candidate, marked and nothing else changed, or
-- no free candidate and no change.
pub data Search (mem : PhysMem) (i : ℕ) : Option ℕ × PhysMem → Type 0 where
  found :
      {j : ℕ} {mem' : PhysMem}
      → IsCandidate i j
      → mem j ≡ free_mark
      → ((k : ℕ) → IsCandidate i k → k < j → mem k ≢ free_mark)
      → mem' ≡ update mem j used_mark
      → Search mem i (some j, mem')
  full :
      {mem' : PhysMem}
      → ((k : ℕ) → IsCandidate i k → mem k ≢ free_mark)
      → mem' ≡ mem
      → Search mem i (none, mem')

IsCandidate-split : {i k : ℕ} → IsCandidate i k → (k ≡ i) ⊎ IsCandidate (i + 2) k
IsCandidate-split {i} {k} c = elim (Bool-cases (k == i)) [
  | inl e ↦ inl (==-eq k i e)
  | inr ne ↦
      let apart : k ≢ i = ground arith in
      inr (record {
        after = omega (arith, c.after, c.step);
        inside = c.inside;
        step = omega (arith, c.step);
      })
]

used-at : (mem : PhysMem) {i k : ℕ} → mem i ≢ free_mark → k ≡ i → mem k ≢ free_mark
used-at mem used e free = used (ap mem (sym e) ∙ free)

Search-step :
    (mem : PhysMem) (i : ℕ) (r : Option ℕ × PhysMem)
    → mem i ≢ free_mark
    → Search mem (i + 2) r
    → Search mem i r
Search-step mem i r used (found c free first e) =
    found
      (record { after = omega (arith, c.after); inside = c.inside; step = omega (arith, c.step) })
      free
      (λ k ck lt. elim (IsCandidate-split ck) [
        | inl here ↦ used-at mem used here
        | inr later ↦ first k later lt
      ])
      e
Search-step mem i r used (full none_free e) =
    full
      (λ k ck. elim (IsCandidate-split ck) [
        | inl here ↦ used-at mem used here
        | inr later ↦ none_free k later
      ])
      e

alloc_from-Search :
    (fuel i : ℕ) (mem : PhysMem) → total_pages < i + 2 * fuel → Search mem i (alloc_from fuel i mem)
unfolding alloc_from
alloc_from-Search zero i mem h = full (λ k ck. absurd (omega (arith, ck.after, ck.inside))) refl
alloc_from-Search (suc fuel) i mem h = elim (Bool-cases (ltb i total_pages)) [
  | inr over ↦
      let past : total_pages ≤ i = ground arith in
      rw over (full (λ k ck. absurd (omega (arith, ck.after, ck.inside))) refl)
  | inl lt ↦
      let inside : i < total_pages = ground arith in
      elim (Bool-cases (mem i == free_mark)) [
        | inl free ↦
            rw (lt, free)
              (found (record { after = omega arith; inside = inside; step = refl }) (ground arith)
                (λ k ck lt'. absurd (omega (arith, ck.after))) refl)
        | inr used ↦
            rw (lt, used)
              (Search-step mem i (alloc_from fuel (i + 2) mem) (ground arith)
                (alloc_from-Search fuel (i + 2) mem (omega arith)))
      ]
]

-- `alloc_frame` takes the first free frame of 256, 258, …, 1022 and marks it, or says that none
-- of these is free; it changes nothing else.
pub alloc_frame-Search : (mem : PhysMem) → Search mem num_pag_kernel (alloc_frame mem)
unfolding alloc_frame
alloc_frame-Search mem = alloc_from-Search alloc_fuel num_pag_kernel mem (omega arith)

fill_lem :
    (n start mark : ℕ) (mem : PhysMem) (k : ℕ)
    → fill n start mark mem k ≡ (if leb start k && ltb k (start + n) then mark else mem k)
unfolding fill
fill_lem zero start mark mem k = ground arith
fill_lem (suc n) start mark mem k =
    ground (arith, fill_lem n (start + 1) mark (update mem start mark) k)

-- `init_frames` marks the kernel's frames as used and the others as free.
pub init_frames_lem :
    (mem : PhysMem) (k : ℕ)
    → k < total_pages
    → init_frames mem k ≡ (if ltb k num_pag_kernel then used_mark else free_mark)
unfolding init_frames
init_frames_lem mem k h = ground (
  arith,
  fill_lem num_pag_kernel 0 used_mark (fill total_pages 0 free_mark mem) k,
  fill_lem total_pages 0 free_mark mem k,
)

-- The content of a search that found frame `j`.
pub record Found (mem : PhysMem) (i j : ℕ) (mem' : PhysMem) : Type 0 where
  pub candidate : IsCandidate i j
  pub was_free : mem j ≡ free_mark
  pub is_first : (k : ℕ) → IsCandidate i k → k < j → mem k ≢ free_mark
  pub after : mem' ≡ update mem j used_mark

Search-Found : {mem mem' : PhysMem} {i j : ℕ} → Search mem i (some j, mem') → Found mem i j mem'
Search-Found (found c free first e) = record {
  candidate = c;
  was_free = free;
  is_first = first;
  after = e;
}

pub alloc_frame-Found :
    {mem mem' : PhysMem} {j : ℕ}
    → alloc_frame mem ≡ (some j, mem')
    → Found mem num_pag_kernel j mem'
alloc_frame-Found {mem} e =
    Search-Found (subst (Search mem num_pag_kernel) e (alloc_frame-Search mem))

-- To free the frame that `alloc_frame` returned restores the map, unless it is the first frame.
pub free_frame-alloc_frame :
    {mem mem' : PhysMem} {j : ℕ}
    → alloc_frame mem ≡ (some j, mem')
    → j ≢ num_pag_kernel
    → free_frame j mem' ≡ mem
unfolding free_frame
free_frame-alloc_frame {mem} {mem'} {j} e ne =
    let f = alloc_frame-Found e in
    fun_ext (λ k.
      ground (arith, f.candidate.after, f.candidate.inside, ap (λ g. g k) f.after, f.was_free))
