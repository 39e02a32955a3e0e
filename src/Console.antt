-- ===== src/Console.antt =====
-- io.c: the screen; and `sys_write_console` of devices.c.
pub mod Cursor
use so2fib.Common.{
  ℕ, zero, suc, ◌+◌, ◌*◌, ◌%◌, ◌==◌, List, [], ◌∷◌, ◌++◌, if◌then◌else◌, leb, update,
}
use so2fib.Utils.{Bytes}

abbrev pub num_columns : ℕ
num_columns = 80

abbrev pub num_rows : ℕ
num_rows = 25

-- The cursor, the words of video memory by address, and the bytes sent to port 0xe9.
pub record Screen : Type 0 where
  pub x : ℕ
  pub y : ℕ
  pub video : ℕ → ℕ
  pub port : List ℕ

-- 0xb8000 + (y * NUM_COLUMNS + x) * 2
abbrev pub cell : ℕ → ℕ → ℕ
cell x y = 753664 + (y * num_columns + x) * 2

unfoldable pub next_row : Screen → Screen
next_row s = record s { x = 0; y = (s.y + 1) % num_rows }

-- `ch` has the character, a byte, below the attribute 0x02.
unfoldable pub printc : ℕ → Screen → Screen
printc c s =
    let s_1 = record s { port = s.port ++ c ∷ [] } in
    let x_1 = (s.x + 1) % 256 in
    let s_2 = record s_1 { x = x_1; video = update s.video (cell s.x s.y) (c % 256 + 512) } in
    if c == 10 then next_row s_1 else if leb num_columns x_1 then next_row s_2 else s_2

unfoldable pub printc_xy : ℕ → ℕ → ℕ → Screen → Screen
printc_xy mx my c s = record (printc c (record s { x = mx; y = my })) { x = s.x; y = s.y }

-- `printk`, for the characters before the string's 0.
unfoldable pub printk : List ℕ → Screen → Screen
printk [] s = s
printk (c ∷ string) s = printk string (printc c s)

-- The loop of `sys_write_console`, for the `n` bytes from `buffer` on.
unfoldable pub print_bytes : ℕ → ℕ → Bytes → Screen → Screen
print_bytes zero buffer m s = s
print_bytes (suc n) buffer m s = print_bytes n (buffer + 1) m (printc (m buffer) s)

unfoldable pub sys_write_console : ℕ → ℕ → Bytes → Screen → ℕ × Screen
sys_write_console buffer size m s = (size, print_bytes size buffer m s)
