-- ===== src/Tests/FramesRuns.antt =====
-- The frame allocator.
use so2fib.Common.{◌≡◌, refl, ◌≢◌, some, List, [], ◌∷◌, arith, update}
use so2fib.Frames.{PhysMem, init_frames, alloc_frame, alloc_from, free_frame}
use so2fib.Frames.Alloc.{Search, alloc_frame-Search, init_frames_lem, free_frame-alloc_frame}
use so2fib.Frames.Trace.{FrameOp, alloc, free, run, allocs, first_frame-lost, alloc_frame-allocs}

abbrev all_free : PhysMem
all_free _ = 0

alloc_frame-Search_example : Search all_free 256 (alloc_frame all_free)
alloc_frame-Search_example = alloc_frame-Search all_free

init_frames_lem_example : init_frames all_free 300 ≡ 0
init_frames_lem_example = init_frames_lem all_free 300 (omega arith)

-- Frame 256 is taken.
abbrev one_used : PhysMem
one_used = update all_free 256 1

takes_258 : alloc_frame one_used ≡ (some 258, update one_used 258 1)
unfolding alloc_frame alloc_from
takes_258 = refl

free_frame-alloc_frame_example : free_frame 258 (update one_used 258 1) ≡ one_used
free_frame-alloc_frame_example = free_frame-alloc_frame takes_258 (omega arith)

abbrev history : List FrameOp
history = alloc ∷ free 256 ∷ alloc ∷ []

first_frame-lost_example : (alloc_frame (run one_used history)).0 ≢ some 256
first_frame-lost_example = first_frame-lost history one_used (omega arith)

alloc_frame-allocs_example : (alloc_frame (allocs 2 (init_frames all_free))).0 ≡ some 260
alloc_frame-allocs_example = alloc_frame-allocs 2 all_free (omega arith)
