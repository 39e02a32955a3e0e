-- ===== src/Read/Keys.antt =====
-- A `read` that finds its keys in the ring.
use so2fib.Common.{
  ℕ, suc, ◌+◌, ◌/◌, ◌^◌, ◌<◌, ◌≤◌, ◌≡◌, ◌≢◌, refl, true, false, some, length, get_or,
  get_elem?-eq-get_or, arith, ltb, pos, ◌-ℤ◌, leb_ℤ, ==-ne, le→not-ltb, eqb_ℤ, Bool-cases, inl, inr,
}
use so2fib.CirBuffer.{CirBuffer, cir_buff_read, cir_buff_lenght}
use so2fib.Utils.{Bytes, access_ok, verify_write}
use so2fib.LinkedList.{list_empty}
use so2fib.Task.{Task}
use so2fib.Kernel.{Kernel, keyboardqueue, current, set_task}
use so2fib.Space.{walk, is_mapped}
use so2fib.Processes.{to_unsigned}
use so2fib.Write.{check_fd}
use so2fib.Read.{
  ReadEnd, faults, char_addr, read_keys, read_round, read_pass, sys_read_keyboard, sys_read,
}

-- Page 0 is not present in the tables that CR3 leads to.
abbrev pub NoPageZero : Kernel → Type 0
NoPageZero k = (k.pagusr_table (k.dir_pages k.machine.cr_3).pbase_addr 0).present ≡ false

-- An address in a page that is not present, and one behind the first 1024 pages.
walk-absent :
    (a p : ℕ) (k : Kernel)
    → a / 2 ^ 12 ≡ p
    → (k.pagusr_table (k.dir_pages k.machine.cr_3).pbase_addr p).present ≡ false
    → is_mapped a k ≡ false
unfolding walk
walk-absent a p k at absent = rw (at, is_mapped, walk) (ground (arith, absent))

walk-behind : (a : ℕ) (k : Kernel) → 1024 ≤ a / 2 ^ 12 → is_mapped a k ≡ false
unfolding walk
walk-behind a k h = ground arith

-- A key is an address in page 0 or, where the `char` is negative, in the last page.
key-absent : (c : ℕ) (k : Kernel) → c < 256 → NoPageZero k → is_mapped (char_addr c) k ≡ false
key-absent c k h absent = elim (Bool-cases (ltb c 128)) [
  | inl low ↦ walk-absent (char_addr c) 0 k (ground arith) absent
  | inr high ↦ walk-behind (char_addr c) k (ground arith)
]

-- The buffer holds `n` keys, which are bytes, and the next of them stands in its array.
pub record HasKeys (n : ℕ) (b : CirBuffer) : Type 0 where
  pub enough : leb_ℤ (pos n) (cir_buff_lenght b) ≡ true
  pub in_array : b.read_pos < length b.buffer
  pub is_byte : get_or b.buffer b.read_pos 0 < 256

-- The ring after one read.
abbrev pub taken : CirBuffer → CirBuffer
taken b = (cir_buff_read b).1

cir_buff_read-key :
    (b : CirBuffer)
    → b.read_pos < length b.buffer
    → (cir_buff_read b).0 ≡ some (get_or b.buffer b.read_pos 0)
unfolding cir_buff_read
cir_buff_read-key b h = get_elem?-eq-get_or b.buffer b.read_pos 0 h

read_keys-stops :
    (n buff : ℕ) (k : Kernel) (b : CirBuffer) (m : Bytes)
    → NoPageZero k
    → b.read_pos < length b.buffer
    → get_or b.buffer b.read_pos 0 < 256
    → read_keys k (suc n) buff (b, m) ≡ some (false, taken b, m)
unfolding read_keys
read_keys-stops n buff k b m absent h byte =
    rw (cir_buff_read-key b h, read_keys)
      (rw (key-absent (get_or b.buffer b.read_pos 0) k byte absent) refl)

-- What a read that faults leaves: one key is taken from the ring, and none is in the task's memory.
pub record Faulted (k : Kernel) (m : Bytes) (r : ReadEnd × Kernel × Bytes) : Type 0 where
  pub result : r.0 ≡ faults
  pub running : r.1.running ≡ k.running
  pub ring : r.1.keyboard_buff.read_pos ≡ k.keyboard_buff.read_pos + 1
  pub bytes : r.2 ≡ m

read_round-Faulted :
    (n buf : ℕ) (k : Kernel) (m : Bytes)
    → NoPageZero k
    → HasKeys (suc n) k.keyboard_buff
    → Faulted k m (read_round (pos (suc n)) (pos 0) buf (k, m))
unfolding read_round cir_buff_read
read_round-Faulted n buf k m absent h =
    let wanted : (pos (suc n)) -ℤ (pos 0) ≡ pos (suc n) = ground arith in
    rw (wanted, h.enough, read_keys-stops n buf k k.keyboard_buff m absent h.in_array h.is_byte)
      (record { result = refl; running = refl; ring = refl; bytes = refl })

read_pass-Faulted :
    (n buf : ℕ) (k : Kernel) (m : Bytes)
    → NoPageZero k
    → HasKeys (suc n) k.keyboard_buff
    → (k.task k.running).required_keys ≡ pos (suc n)
    → (k.task k.running).read_keys ≡ pos 0
    → Faulted k m (read_pass buf (k, m))
unfolding read_pass current
read_pass-Faulted n buf k m absent h required read =
    rw (required, read) (read_round-Faulted n buf k m absent h)

-- `sys_read` of one key or more, into a buffer that `access_ok` lets through, when no task waits for
-- the keyboard, the ring holds as many keys, the next of them inside its array, and page 0 is not
-- present, does not return: `copy_to_user` is given the key for the address to copy from, which lies in
-- page 0 or in the last page, so that the first copy raises a page fault. By then one key is taken
-- from the ring, and nothing is written to the task's memory.
pub sys_read-faults :
    (n buf : ℕ) (k : Kernel) (m : Bytes)
    → list_empty keyboardqueue k.links ≡ true
    → buf ≢ 0
    → access_ok verify_write buf (to_unsigned (pos (suc n))) ≡ true
    → NoPageZero k
    → HasKeys (suc n) k.keyboard_buff
    → Faulted k m (sys_read (pos 0) buf (pos (suc n)) (k, m))
unfolding sys_read sys_read_keyboard current check_fd eqb_ℤ
sys_read-faults n buf k m nobody ne ok absent h =
    let asked = λ (p : Task). record p { read_keys = pos 0; required_keys = pos (suc n) } in
    let k_1 = set_task k.running asked k in
    let a = read_pass-Faulted n buf k_1 m absent h (ground arith) (ground arith) in
    rw (==-ne buf 0 ne, le→not-ltb (suc n + 0) 0 (omega arith), ok, nobody)
      (record { result = a.result; running = a.running; ring = a.ring; bytes = a.bytes })
