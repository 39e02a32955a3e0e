-- ===== src/Tests/InterruptRuns.antt =====
-- The keyboard routine and the gates.
use so2fib.Common.{ℕ, ◌≡◌, ◌≢◌, refl, [], ◌∷◌, ◌++◌, arith, ◌+◌}
use so2fib.Kernel.{Kernel}
use so2fib.Console.{Screen}
use so2fib.Sched.Shape.{Valid}
use so2fib.Interrupts.{Idt, set_interrupt_handler}
use so2fib.Interrupts.Gates.{offset, dpl, present_bit, set_interrupt_handler-offset}
use so2fib.Interrupts.Arrive.{keys, woken_by, keys-woken_by}
use so2fib.CirBuffer.Window.{IsValid, count, contents}
use so2fib.Tests.Fixture.{listening, listening_map, listening-Valid}

abbrev blank : Screen
blank = record { x = 3; y = 19; video = λ _. 0; port = [] }

listening-ring : IsValid listening.keyboard_buff
listening-ring = record {
  write_in = omega arith;
  read_in = omega arith;
  meet = λ full. cc;
  storage = refl;
}

listening-count : count listening.keyboard_buff ≡ 0
unfolding count
listening-count = refl

-- The two keys that task 3 waits for.
keys-woken_by_example :
    Valid
      (keys (97 ∷ 98 ∷ []) listening)
      (woken_by 3 2 [] (count listening.keyboard_buff + 2) listening_map)
    × (contents (keys (97 ∷ 98 ∷ []) listening).keyboard_buff
        ≡ contents listening.keyboard_buff ++ 97 ∷ 98 ∷ [])
keys-woken_by_example =
    keys-woken_by 3 2 [] (omega arith) (97 ∷ 98 ∷ []) listening-Valid refl listening-ring refl
      (omega (arith, listening-count)) (omega (arith, listening-count))

abbrev no_gates : Idt
no_gates _ = record { low_offset = 0; segment_selector = 0; flags = 0; high_offset = 0 }

-- The gate of the system calls.
set_interrupt_handler-offset_example :
    (offset (set_interrupt_handler 128 70000 3 no_gates 128) ≡ 70000)
    × (dpl (set_interrupt_handler 128 70000 3 no_gates 128) ≡ 3)
    × (present_bit (set_interrupt_handler 128 70000 3 no_gates 128) ≡ 1)
    × ((v : ℕ) → v ≢ 128 → set_interrupt_handler 128 70000 3 no_gates v ≡ no_gates v)
set_interrupt_handler-offset_example =
    set_interrupt_handler-offset 128 70000 3 no_gates (omega arith) (omega arith)
