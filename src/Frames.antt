-- ===== src/Frames.antt =====
-- mm.c, the byte map of physical frames: `init_frames`, `alloc_frame` and `free_frame`.
pub mod Alloc
pub mod Trace
use so2fib.Common.{
  ℕ, zero, suc, ◌+◌, ◌==◌, ◌&&◌, Bool, true, false, Option, none, some, if◌then◌else◌, ltb, update,
}

abbrev pub total_pages : ℕ
total_pages = 1024

abbrev pub num_pag_kernel : ℕ
num_pag_kernel = 256

abbrev pub free_mark : ℕ
free_mark = 0

abbrev pub used_mark : ℕ
used_mark = 1

-- `phys_mem`, by frame number.
abbrev pub PhysMem : Type 0
PhysMem = ℕ → ℕ

-- `for (i = start; i < start + n; i++) phys_mem[i] = mark;`
unfoldable pub fill : ℕ → ℕ → ℕ → PhysMem → PhysMem
fill zero start mark mem = mem
fill (suc n) start mark mem = fill n (start + 1) mark (update mem start mark)

unfoldable pub init_frames : PhysMem → PhysMem
init_frames mem = fill num_pag_kernel 0 used_mark (fill total_pages 0 free_mark mem)

-- The loop of `alloc_frame` at frame `i`. `none` is the result -1; so is the end of the fuel,
-- which `alloc_frame` is given enough of.
unfoldable pub alloc_from : ℕ → ℕ → PhysMem → Option ℕ × PhysMem
alloc_from zero i mem = (none, mem)
alloc_from (suc fuel) i mem =
    let rest = alloc_from fuel (i + 2) mem in
    if ltb i total_pages
    then if mem i == free_mark then (some i, update mem i used_mark) else rest
    else (none, mem)

-- 385 is one more than the frames that the loop looks at.
abbrev pub alloc_fuel : ℕ
alloc_fuel = 385

unfoldable pub alloc_frame : PhysMem → Option ℕ × PhysMem
alloc_frame mem = alloc_from alloc_fuel num_pag_kernel mem

unfoldable pub free_frame : ℕ → PhysMem → PhysMem
free_frame frame mem =
    if ltb num_pag_kernel frame && ltb frame total_pages then update mem frame free_mark else mem
