-- ===== src/Interrupts/Keyboard.antt =====
-- A key that comes in while a task waits for the keyboard.
use so2fib.Common.{
  ℕ, ◌≡◌, refl, List, [], ◌∷◌, arith, if◌then◌else◌, Bool-cases, inl, inr, ◌+◌, ◌-ℤ◌, ℤ,
}
use so2fib.LinkedList.{Addr}
use so2fib.CirBuffer.{CirBuffer, cir_buff_write}
use so2fib.CirBuffer.Window.{count}
use so2fib.Kernel.{Kernel, task_list, keyboardqueue}
use so2fib.Sched.Shape.{QueueMap, Valid}
use so2fib.Sched.Next.{SameLists, IsRunning-same, Shape-same}
use so2fib.Sched.Wake.{wake_map, wake-Valid}
use so2fib.Semaphores.Signal.{empty_of_nil, empty_of_cons, first_of_cons}
use so2fib.Interrupts.{has_enough, store_key}

-- The kernel with the byte in the buffer.
abbrev pub stored : ℕ → Kernel → Kernel
stored c k = record k { keyboard_buff = cir_buff_write k.keyboard_buff c }

pub stored-Valid : (c : ℕ) {k : Kernel} {q : QueueMap} → Valid k q → Valid (stored c k) q
stored-Valid c {k} v =
    let same : SameLists k (stored c k) = record {
      links = refl;
      heads = refl;
      idle = refl;
      estado = λ j. refl;
    } in
    record { shape = Shape-same same v.shape; current = IsRunning-same same v.current }

pub store_key-alone :
    (c : ℕ) {k : Kernel} {q : QueueMap}
    → Valid k q
    → q keyboardqueue ≡ []
    → store_key c k ≡ stored c k
unfolding store_key
store_key-alone c v e = rw (empty_of_nil v keyboardqueue refl e) refl

pub store_key-wakes :
    (c : ℕ) {k : Kernel} {q : QueueMap} (t : ℕ) (rs : List Addr)
    → Valid k q
    → q keyboardqueue ≡ task_list t ∷ rs
    → Valid (store_key c k) (if has_enough t (stored c k) then wake_map q keyboardqueue rs t else q)
unfolding store_key
store_key-wakes c {k} {q} t rs v e = elim (Bool-cases (has_enough t (stored c k))) [
  | inl enough ↦
      rw (empty_of_cons v keyboardqueue refl e, first_of_cons v keyboardqueue refl e, enough)
        (wake-Valid (stored-Valid c v) keyboardqueue [] t rs refl (omega arith) e)
  | inr wait ↦
      rw (empty_of_cons v keyboardqueue refl e, first_of_cons v keyboardqueue refl e, wait)
        (stored-Valid c v)
]

-- How many keys a task still waits for.
abbrev pub wanted : ℕ → Kernel → ℤ
wanted t k = (k.task t).required_keys -ℤ (k.task t).read_keys

-- How many keys the buffer holds after one more came, which is dropped where it is full.
abbrev pub held : CirBuffer → ℕ
held b = if b.full then 16 else count b + 1
