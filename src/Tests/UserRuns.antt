-- ===== src/Tests/UserRuns.antt =====
-- The copies, the pointer check, `itoa`, the screen and `write`.
use so2fib.Common.{
  ℕ, ◌+◌, ◌*◌, ◌≤◌, ◌<◌, ◌≡◌, refl, inl, true, some, List, [], ◌∷◌, pos, arith, eqb_ℤ,
}
use so2fib.Utils.{Bytes, copy_data, verify_read, verify_write, access_ok, user_pages}
use so2fib.Utils.Copy.{copy_data-copied}
use so2fib.Utils.Access.{access_ok-bounds, access_ok-write-read}
use so2fib.Libc.{Chars, itoa, strlen, strlen_from, text, malos_parametros, einval_no, perror}
use so2fib.Libc.Itoa.{IsDecimal, itoa-IsDecimal}
use so2fib.Console.{Screen, printk}
use so2fib.Console.Cursor.{OnScreen, OutOfVideo, printk-port}
use so2fib.Write.{Io, sys_write}
use so2fib.Write.Chunks.{Wrote, sys_write-Wrote}

-- Each byte is its address.
abbrev by_address : Bytes
by_address a = a

-- Six bytes move down by two, so that source and destination meet.
copy_data-copied_example : copy_data 6 12 10 by_address 13 ≡ 15
copy_data-copied_example = copy_data-copied 6 12 10 by_address 13 (inl (omega arith))

lets_code : access_ok verify_write (256 * 4096) 16 ≡ true
unfolding access_ok user_pages
lets_code = refl

access_ok-bounds_example : (256 * 4096 ≤ 256 * 4096) × (256 * 4096 + 16 < 285 * 4096)
access_ok-bounds_example = access_ok-bounds verify_write (256 * 4096) 16 (omega arith) lets_code

access_ok-write-read_example :
    access_ok verify_write (256 * 4096) 16 ≡ access_ok verify_read (256 * 4096) 16
access_ok-write-read_example = access_ok-write-read (256 * 4096) 16

itoa-IsDecimal_example : (c : Chars) × (itoa (pos 1024) by_address ≡ some c) × IsDecimal 1024 c
itoa-IsDecimal_example = itoa-IsDecimal 1024 by_address

-- The cursor is at the end of a row, the last one.
abbrev corner : Screen
corner = record { x = 79; y = 24; video = by_address; port = [] }

corner-OnScreen : OnScreen corner
corner-OnScreen = record { column = omega arith; row = omega arith }

abbrev hi : List ℕ
hi = 72 ∷ 105 ∷ 10 ∷ []

printk-port_example :
    OnScreen (printk hi corner)
    × ((a : ℕ) → OutOfVideo a → (printk hi corner).video a ≡ a)
    × ((printk hi corner).port ≡ hi)
printk-port_example = printk-port hi corner corner-OnScreen

abbrev before : Io
before = record { memory = by_address; screen = corner }

sys_write-Wrote_example :
    ((sys_write (pos 1) 8 (pos 6) 100 before).0 ≡ pos 6)
    × Wrote 6 8 100 before (sys_write (pos 1) 8 (pos 6) 100 before).1
sys_write-Wrote_example =
    sys_write-Wrote 6 8 100 before (omega arith) (inl (omega arith)) corner-OnScreen

perror-einval : perror einval_no ≡ some (text malos_parametros, 16)
unfolding perror strlen strlen_from text eqb_ℤ
perror-einval = refl
