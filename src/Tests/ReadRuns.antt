-- ===== src/Tests/ReadRuns.antt =====
-- `read` on the kernel of `Fixture`.
use so2fib.Common.{◌*◌, ◌≡◌, refl, true, false, [], ◌∷◌, ◌++◌, ◌+◌, ◌==◌, if◌then◌else◌, arith, pos}
use so2fib.Paging.{no_entry}
use so2fib.Kernel.{Kernel}
use so2fib.CirBuffer.{CirBuffer, cir_buff_lenght}
use so2fib.Utils.{Bytes, access_ok, user_pages, verify_write}
use so2fib.Read.{sys_read}
use so2fib.Read.Keys.{HasKeys, Faulted, sys_read-faults}
use so2fib.LinkedList.{list_empty}
use so2fib.Kernel.{keyboardqueue}
use so2fib.Sched.Shape.{Valid}
use so2fib.CirBuffer.Window.{IsValid, count, contents}
use so2fib.Interrupts.Arrive.{keys, woken_by}
use so2fib.Read.{waits}
use so2fib.Read.Wait.{waiting_map, sys_read-woken_by}
use so2fib.Tests.Fixture.{alone, busy, busy_map, busy-Valid}

-- The keys `a` and `b` are in the ring.
abbrev two_keys : CirBuffer
two_keys = record {
  write_pos = 2;
  read_pos = 0;
  full = false;
  buffer = 97 ∷ 98 ∷ 0 ∷ 0 ∷ 0 ∷ 0 ∷ 0 ∷ 0 ∷ 0 ∷ 0 ∷ 0 ∷ 0 ∷ 0 ∷ 0 ∷ 0 ∷ 0 ∷ [];
}

-- The page of the task's buffer is present.
abbrev typed : Kernel
typed = record alone {
  keyboard_buff = two_keys;
  pagusr_table = λ _ p.
      if p == 264
      then record { present = true; rw_bit = true; user = true; pbase_addr = 272 }
      else no_entry;
}

abbrev by_address : Bytes
by_address a = a

two_keys-HasKeys : HasKeys 2 two_keys
unfolding cir_buff_lenght
two_keys-HasKeys = record { enough = refl; in_array = omega arith; is_byte = omega arith }

nobody_waits : list_empty keyboardqueue typed.links ≡ true
unfolding list_empty
nobody_waits = refl

data_page : access_ok verify_write (264 * 4096) 2 ≡ true
unfolding access_ok user_pages
data_page = refl

sys_read-faults_example :
    Faulted typed by_address (sys_read (pos 0) (264 * 4096) (pos 2) (typed, by_address))
sys_read-faults_example =
    sys_read-faults 1 (264 * 4096) typed by_address nobody_waits (omega arith) data_page refl
      two_keys-HasKeys

busy-ring : IsValid busy.keyboard_buff
busy-ring = record {
  write_in = omega arith;
  read_in = omega arith;
  meet = λ full. cc;
  storage = refl;
}

busy-count : count busy.keyboard_buff ≡ 0
unfolding count
busy-count = refl

-- Task 1 reads two keys, which come then.
sys_read-woken_by_example :
    let (out, k_1, _) = sys_read (pos 0) (264 * 4096) (pos 2) (busy, by_address) in
    (out ≡ waits (264 * 4096))
    × Valid
        (keys (97 ∷ 98 ∷ []) k_1)
        (woken_by 1 2 [] (count busy.keyboard_buff + 2) (waiting_map 1 busy_map))
    × (contents (keys (97 ∷ 98 ∷ []) k_1).keyboard_buff
        ≡ contents busy.keyboard_buff ++ 97 ∷ 98 ∷ [])
sys_read-woken_by_example =
    sys_read-woken_by 2 (264 * 4096) (97 ∷ 98 ∷ []) by_address busy-Valid (omega arith) refl
      busy-ring (omega arith) (omega (arith, busy-count)) (omega (arith, busy-count)) (omega arith)
      data_page
