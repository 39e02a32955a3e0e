-- ===== src/CirBuffer/Lenght.antt =====
-- `cirBuffLenght` against the bytes that a buffer holds.
use so2fib.Common.{◌≡◌, ap, sym, ◌∙◌, arith, pos, length}
use so2fib.CirBuffer.{CirBuffer, cir_buff_lenght}
use so2fib.CirBuffer.Window.{IsValid, count, contents, length-window}

pub lenght-count : (b : CirBuffer) → IsValid b → cir_buff_lenght b ≡ pos (count b)
unfolding cir_buff_lenght count
lenght-count b v = ground arith

pub length-contents : (b : CirBuffer) → length (contents b) ≡ count b
unfolding contents
length-contents b = length-window b.buffer b.read_pos (count b)

-- On every branch `cirBuffLenght` is the number of bytes that a valid buffer holds.
pub lenght-contents : (b : CirBuffer) → IsValid b → cir_buff_lenght b ≡ pos (length (contents b))
lenght-contents b v = lenght-count b v ∙ ap pos (sym (length-contents b))
