-- ===== src/Tests/PagingRuns.antt =====
-- The page tables at the start.
use so2fib.Common.{ℕ, ◌+◌, ◌-◌, ◌*◌, ◌≡◌, ◌&&◌, arith, if◌then◌else◌, ltb, leb}
use so2fib.Frames.{PhysMem, init_frames}
use so2fib.Frames.Trace.{allocs}
use so2fib.Paging.{PageTable, no_entry, init_table_pages, set_user_pages}
use so2fib.Paging.Boot.{kernel_entry, user_entry, init_table_pages_lem, set_user_pages-allocs}

abbrev empty_table : PageTable
empty_table _ = no_entry

abbrev unused : PhysMem
unused _ = 0

init_table_pages_lem_example : init_table_pages empty_table 7 ≡ kernel_entry 7 no_entry
init_table_pages_lem_example = init_table_pages_lem empty_table 7 (omega arith)

set_user_pages-allocs_example :
    ((set_user_pages (empty_table, init_frames unused)).1 ≡ allocs 28 (init_frames unused))
    × ((k : ℕ)
        → (set_user_pages (empty_table, init_frames unused)).0 k ≡ (
            if leb 256 k && ltb k 284
            then user_entry (leb 264 k) (256 + 2 * (k - 256))
            else no_entry))
set_user_pages-allocs_example = set_user_pages-allocs empty_table unused
