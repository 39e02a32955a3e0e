-- ===== src/Tests/CirBufferRuns.antt =====
-- The keyboard's buffer.
use so2fib.Common.{
  ℕ, ◌≡◌, refl, true, false, none, some, List, [], ◌∷◌, ◌++◌, arith, pos, length, neg,
}
use so2fib.CirBuffer.{
  CirBuffer, Op, write, read, cir_buff_write, cir_buff_read, cir_buff_lenght, cir_buff_full,
}
use so2fib.CirBuffer.Window.{IsValid, contents, count, contents-write, contents-read}
use so2fib.CirBuffer.Lenght.{lenght-contents}
use so2fib.CirBuffer.Fifo.{replies, queue_replies, replies-queue}
use so2fib.CirBuffer.Stuck.{run, full-run, read-run}

abbrev zeros : List ℕ
zeros = 0 ∷ 0 ∷ 0 ∷ 0 ∷ 0 ∷ 0 ∷ 0 ∷ 0 ∷ 0 ∷ 0 ∷ 0 ∷ 0 ∷ 0 ∷ 0 ∷ 0 ∷ 0 ∷ []

abbrev empty : CirBuffer
empty = record { write_pos = 0; read_pos = 0; full = false; buffer = zeros }

abbrev filled : CirBuffer
filled = record { write_pos = 5; read_pos = 5; full = true; buffer = zeros }

abbrev half : CirBuffer
half = record {
  write_pos = 2;
  read_pos = 0;
  full = false;
  buffer = 8 ∷ 9 ∷ 0 ∷ 0 ∷ 0 ∷ 0 ∷ 0 ∷ 0 ∷ 0 ∷ 0 ∷ 0 ∷ 0 ∷ 0 ∷ 0 ∷ 0 ∷ 0 ∷ [];
}

empty-IsValid : IsValid empty
empty-IsValid = ground arith

half-IsValid : IsValid half
half-IsValid = ground arith

-- Sixteen writes fill the buffer.
sixteen : List Op
sixteen =
    write 1
    ∷ write 2
    ∷ write 3
    ∷ write 4
    ∷ write 5
    ∷ write 6
    ∷ write 7
    ∷ write 8
    ∷ write 9
    ∷ write 10
    ∷ write 11
    ∷ write 12
    ∷ write 13
    ∷ write 14
    ∷ write 15
    ∷ write 16
    ∷ []

fills : cir_buff_full (run empty sixteen) ≡ true
unfolding run cir_buff_full sixteen cir_buff_write
fills = refl

-- After sixteen reads of a full buffer and one more the length is negative.
negative_lenght : cir_buff_lenght (record empty { read_pos = 17; full = true }) ≡ neg 1
unfolding cir_buff_lenght
negative_lenght = refl

contents-write_example : contents (cir_buff_write half 7) ≡ contents half ++ 7 ∷ []
contents-write_example = contents-write half 7 half-IsValid refl

contents-read_example :
    (x : ℕ) × ((cir_buff_read half).0 ≡ some x)
    × (contents half ≡ x ∷ contents (cir_buff_read half).1)
    × IsValid (cir_buff_read half).1
contents-read_example = contents-read half half-IsValid refl (omega arith) (omega arith)

lenght-contents_example : cir_buff_lenght half ≡ pos (length (contents half))
lenght-contents_example = lenght-contents half half-IsValid

abbrev calls : List Op
calls = write 5 ∷ read ∷ write 6 ∷ read ∷ read ∷ []

replies-queue_example : replies half calls ≡ queue_replies (8 ∷ 9 ∷ []) calls
unfolding contents count
replies-queue_example =
    replies-queue calls half (8 ∷ 9 ∷ [])
      (record { valid = half-IsValid; room = refl; order = omega arith }) refl (omega arith) tt

full-run_example :
    ((run filled calls).full ≡ true)
    × ((run filled calls).buffer ≡ zeros)
    × ((run filled calls).write_pos ≡ 5)
full-run_example = full-run calls filled refl (omega arith)

abbrev late : CirBuffer
late = record empty { read_pos = 14; write_pos = 3 }

read-run_example : (cir_buff_read (run late calls)).0 ≡ none
read-run_example = read-run calls late (ground arith) (omega arith)
