-- ===== src/Tests/ProcessRuns.antt =====
-- The directories and the report on a task.
use so2fib.Common.{◌*◌, ◌≡◌, refl, true, pos, update}
use so2fib.Kernel.{Kernel}
use so2fib.Utils.{verify_write, access_ok, user_pages}
use so2fib.Processes.{allocate_dir, sys_get_stats}
use so2fib.Processes.Directory.{Allocated, allocate_dir-Allocated}
use so2fib.Processes.Report.{Reported, sys_get_stats-Reported}
use so2fib.Tests.Fixture.{busy}

-- Nobody refers to directory 4.
abbrev one_unused : Kernel
one_unused = record busy { refs_dir = update busy.refs_dir 4 (pos 0) }

allocate_dir-Allocated_example : Allocated 3 one_unused (allocate_dir 3 one_unused)
allocate_dir-Allocated_example = allocate_dir-Allocated 3 one_unused

-- The first data page.
data_page : access_ok verify_write (264 * 4096) 28 ≡ true
unfolding access_ok user_pages
data_page = refl

sys_get_stats-Reported_example : Reported (pos 2) busy (sys_get_stats (pos 2) (264 * 4096) busy)
sys_get_stats-Reported_example = sys_get_stats-Reported 2 (264 * 4096) busy data_page
