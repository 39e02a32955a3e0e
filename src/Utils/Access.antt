-- ===== src/Utils/Access.antt =====
-- Which blocks `access_ok` lets through.
use so2fib.Common.{ℕ, ◌+◌, ◌*◌, ◌^◌, ◌≤◌, ◌<◌, ◌≡◌, true, arith}
use so2fib.Utils.{Verify, verify_read, verify_write, user_pages, access_ok}

-- A write is let through exactly where a read is.
pub access_ok-write-read :
    (addr size : ℕ) → access_ok verify_write addr size ≡ access_ok verify_read addr size
unfolding access_ok user_pages
access_ok-write-read addr size = ground arith

-- A block that does not run over the end of the address space and is let through starts at or
-- after the first user page, and ends before the end of the page behind the last data page.
pub access_ok-bounds :
    (type : Verify) (addr size : ℕ)
    → addr + size < 2 ^ 32
    → access_ok type addr size ≡ true
    → (256 * 4096 ≤ addr) × (addr + size < 285 * 4096)
unfolding access_ok user_pages
access_ok-bounds verify_read addr size h ok = ground arith
access_ok-bounds verify_write addr size h ok = ground arith
