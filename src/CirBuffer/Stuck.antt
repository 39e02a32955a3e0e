-- ===== src/CirBuffer/Stuck.antt =====
-- What becomes of a buffer that has been full, or read sixteen times.
use so2fib.Common.{
  ℕ, suc, ◌+◌, ◌≤◌, ◌≡◌, true, none, List, [], ◌∷◌, arith, get_elem?-none, length, length-set,
}
use so2fib.CirBuffer.{CirBuffer, cirbuffer_size, Op, write, read, cir_buff_write, cir_buff_read}
use so2fib.CirBuffer.Window.{IsValid}

-- The buffer after a sequence of calls.
unfoldable pub run : CirBuffer → List Op → CirBuffer
run b [] = b
run b (write x ∷ ops) = run (cir_buff_write b x) ops
run b (read ∷ ops) = run (cir_buff_read b).1 ops

abbrev pub reads : List Op → ℕ
reads [] = 0
reads (write x ∷ ops) = reads ops
reads (read ∷ ops) = suc (reads ops)

-- Once full, and with the reader not behind the writer, a buffer stays full whatever is called:
-- no byte is ever stored again, and the writer does not move.
pub full-run :
    (ops : List Op) (b : CirBuffer)
    → b.full ≡ true
    → b.write_pos ≤ b.read_pos
    → ((run b ops).full ≡ true)
      × ((run b ops).buffer ≡ b.buffer)
      × ((run b ops).write_pos ≡ b.write_pos)
unfolding run cir_buff_write cir_buff_read
full-run [] b f h = ground arith
full-run (write x ∷ ops) b f h = simp f (full-run ops b f h)
full-run (read ∷ ops) b f h = full-run ops (cir_buff_read b).1 (ground arith) (omega arith)

read_pos-run :
    (ops : List Op) (b : CirBuffer)
    → ((run b ops).read_pos ≡ b.read_pos + reads ops)
      × (length (run b ops).buffer ≡ length b.buffer)
unfolding run cir_buff_write cir_buff_read
read_pos-run [] b = omega arith
read_pos-run (write x ∷ ops) b =
    ground (arith, read_pos-run ops (cir_buff_write b x), length-set b.buffer b.write_pos x)
read_pos-run (read ∷ ops) b = ground (arith, read_pos-run ops (cir_buff_read b).1)

-- Whatever is written in between, a read that comes after sixteen others is outside the array.
pub read-run :
    (ops : List Op) (b : CirBuffer)
    → IsValid b
    → cirbuffer_size ≤ b.read_pos + reads ops
    → (cir_buff_read (run b ops)).0 ≡ none
unfolding cir_buff_read
read-run ops b v h =
    get_elem?-none (run b ops).buffer (run b ops).read_pos
      (omega (arith, read_pos-run ops b, v.storage))
