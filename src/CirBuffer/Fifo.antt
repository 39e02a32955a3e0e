-- ===== src/CirBuffer/Fifo.antt =====
-- Until a position restarts, the buffer is a queue.
use so2fib.Common.{
  ℕ, suc, ◌+◌, ◌≤◌, ◌<◌, ◌≡◌, refl, ap, ap₂, ◌∙◌, false, Option, some, none, List, [], ◌∷◌, ◌++◌,
  arith, length,
}
use so2fib.CirBuffer.{CirBuffer, cirbuffer_size, Op, write, read, cir_buff_write, cir_buff_read}
use so2fib.CirBuffer.Lenght.{length-contents}
use so2fib.CirBuffer.Window.{
  IsValid, count, contents, cir_buff_write-IsValid, contents-write, contents-read,
}

-- What the reads of a caller return.
unfoldable pub replies : CirBuffer → List Op → List (Option ℕ)
replies b [] = []
replies b (write x ∷ ops) = replies (cir_buff_write b x) ops
replies b (read ∷ ops) = let (x, b') = cir_buff_read b in x ∷ replies b' ops

-- The same calls of a queue with no bound; `none` is a read of an empty queue.
unfoldable pub queue_replies : List ℕ → List Op → List (Option ℕ)
queue_replies q [] = []
queue_replies q (write x ∷ ops) = queue_replies (q ++ x ∷ []) ops
queue_replies [] (read ∷ ops) = none ∷ queue_replies [] ops
queue_replies (x ∷ q) (read ∷ ops) = some x ∷ queue_replies q ops

-- No read finds the queue empty.
abbrev pub Served : List ℕ → List Op → Type 0
Served q [] = Unit
Served q (write x ∷ ops) = Served (q ++ x ∷ []) ops
Served [] (read ∷ ops) = ⊥
Served (x ∷ q) (read ∷ ops) = Served q ops

abbrev pub writes : List Op → ℕ
writes [] = 0
writes (write x ∷ ops) = suc (writes ops)
writes (read ∷ ops) = writes ops

-- Neither position has restarted.
pub record IsFirstLap (b : CirBuffer) : Type 0 where
  pub valid : IsValid b
  pub room : b.full ≡ false
  pub order : b.read_pos ≤ b.write_pos

write-IsFirstLap :
    (b : CirBuffer) (x : ℕ)
    → IsFirstLap b
    → b.write_pos < 15
    → IsFirstLap (cir_buff_write b x) × ((cir_buff_write b x).write_pos ≡ suc b.write_pos)
unfolding cir_buff_write
write-IsFirstLap b x v h = (
  record { valid = cir_buff_write-IsValid b x v.valid; room = ground arith; order = ground arith },
  ground arith,
)

read-IsFirstLap :
    (b : CirBuffer)
    → IsFirstLap b
    → b.read_pos < b.write_pos
    → IsFirstLap (cir_buff_read b).1 × ((cir_buff_read b).1.write_pos ≡ b.write_pos)
unfolding cir_buff_read
read-IsFirstLap b v h = ground arith

lt_of_contents :
    (b : CirBuffer) {x : ℕ} {q : List ℕ}
    → IsFirstLap b
    → contents b ≡ x ∷ q
    → b.read_pos < b.write_pos
unfolding count
lt_of_contents b v e = ground (arith, length-contents b, ap length e)

-- Reads return the bytes written, in order, as long as at most fifteen bytes are written in all
-- and no read finds the buffer empty.
pub replies-queue :
    (ops : List Op) (b : CirBuffer) (q : List ℕ)
    → IsFirstLap b
    → contents b ≡ q
    → b.write_pos + writes ops < cirbuffer_size
    → Served q ops
    → replies b ops ≡ queue_replies q ops
unfolding replies queue_replies
replies-queue [] b q v e h s = refl
replies-queue (write x ∷ ops) b q v e h s =
    let (lap, w) = write-IsFirstLap b x v (omega arith) in
    replies-queue ops (cir_buff_write b x) (q ++ x ∷ []) lap
      (contents-write b x v.valid v.room ∙ ap (λ r. r ++ x ∷ []) e) (omega arith) s
replies-queue (read ∷ ops) b [] v e h s = absurd s
replies-queue (read ∷ ops) b (x ∷ q) v e h s =
    let lt = lt_of_contents b v e in
    let (lap, w) = read-IsFirstLap b v lt in
    let (y, got, rest, _) = contents-read b v.valid v.room (omega arith) (omega arith) in
    ap₂ ◌∷◌ (got ∙ ap some (cc)) (replies-queue ops (cir_buff_read b).1 q lap (cc) (omega arith) s)
