-- ===== src/CirBuffer.antt =====
-- cirBuffer.c and include/cirBuffer.h: the buffer between the keyboard interrupt and `read`.
pub mod Window
pub mod Lenght
pub mod Fifo
pub mod Stuck
use so2fib.Common.{
  ℕ, ◌+◌, ◌-◌, ◌==◌, Bool, true, false, Option, List, if◌then◌else◌, ltb, leb, set, get_elem?, ℤ,
  pos, sub_ℕ,
}

abbrev pub cirbuffer_size : ℕ
cirbuffer_size = 16

-- `struct cirBuffer`. `full` is 0 or 1 in C. The positions start at 0 and only grow or restart,
-- so they are numbers; `readPos` is an `int` that the model does not wrap.
pub record CirBuffer : Type 0 where
  pub write_pos : ℕ
  pub read_pos : ℕ
  pub full : Bool
  pub buffer : List ℕ

-- `writePos` after `writePos += 1` and the test that restarts it
abbrev pub step_write : ℕ → ℕ
step_write w = if leb cirbuffer_size (w + 1) then 0 else w + 1

unfoldable pub cir_buff_write : CirBuffer → ℕ → CirBuffer
cir_buff_write b add =
    let w = step_write b.write_pos in
    if b.full then b else record b {
      buffer = set b.buffer b.write_pos add;
      write_pos = w;
      full = if w == b.read_pos then true else b.full;
    }

-- The byte is `none` where the code reads behind the array.
unfoldable pub cir_buff_read : CirBuffer → Option ℕ × CirBuffer
cir_buff_read b =
    let r = b.read_pos + 1 in
    (
      get_elem? b.buffer b.read_pos,
      record b { read_pos = r; full = if r == b.write_pos then false else b.full },
    )

unfoldable pub cir_buff_full : CirBuffer → Bool
cir_buff_full b = b.full

unfoldable pub cir_buff_lenght : CirBuffer → ℤ
cir_buff_lenght b =
    if ltb b.read_pos b.write_pos
    then pos (b.write_pos - b.read_pos)
    else if b.write_pos == b.read_pos
    then if b.full then pos cirbuffer_size else pos 0
    else sub_ℕ (cirbuffer_size + b.write_pos) b.read_pos

-- A caller's use of the buffer.
pub data Op : Type 0 where
  write : ℕ → Op
  read : Op
