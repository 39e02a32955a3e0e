-- ===== src/Interrupts/Gates.antt =====
-- What the processor reads from a gate.
use so2fib.Common.{ℕ, ◌+◌, ◌*◌, ◌/◌, ◌%◌, ◌^◌, ◌<◌, ◌≡◌, ◌≢◌, arith}
use so2fib.Interrupts.{Gate, Idt, gate_flags, set_interrupt_handler}

-- The handler's address, the lowest privilege that may use the gate, and the present bit.
abbrev pub offset : Gate → ℕ
offset g = g.high_offset * 2 ^ 16 + g.low_offset

abbrev pub dpl : Gate → ℕ
dpl g = (g.flags / 2 ^ 13) % 4

abbrev pub present_bit : Gate → ℕ
present_bit g = (g.flags / 2 ^ 15) % 2

-- The gate that `setInterruptHandler` writes for an address of 32 bits and one of the four levels gives
-- back both and is present; the other gates stay.
pub set_interrupt_handler-offset :
    (vector handler level : ℕ) (idt : Idt)
    → handler < 2 ^ 32
    → level < 4
    → (offset (set_interrupt_handler vector handler level idt vector) ≡ handler)
      × (dpl (set_interrupt_handler vector handler level idt vector) ≡ level)
      × (present_bit (set_interrupt_handler vector handler level idt vector) ≡ 1)
      × ((v : ℕ) → v ≢ vector → set_interrupt_handler vector handler level idt v ≡ idt v)
unfolding set_interrupt_handler gate_flags
set_interrupt_handler-offset vector handler level idt h l =
    (ground arith, ground arith, ground arith, λ v ne. ground arith)
