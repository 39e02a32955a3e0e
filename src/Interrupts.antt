-- ===== src/Interrupts.antt =====
-- interrupt.c: the keyboard and clock routines, and the gates of the interrupt table.
pub mod Gates
pub mod Keyboard
pub mod Turn
pub mod Arrive
use so2fib.Common.{
  ℕ, zero, suc, ◌+◌, ◌*◌, ◌/◌, ◌%◌, ◌^◌, ◌==◌, ◌&&◌, ◌||◌, not, Bool, Option, none, some, List, [],
  ◌∷◌, pos, ◌+ℤ◌, ◌-ℤ◌, leb_ℤ, if◌then◌else◌, update, get_elem?,
}
use so2fib.LinkedList.{list_empty, list_first}
use so2fib.CirBuffer.{CirBuffer, cir_buff_write, cir_buff_full, cir_buff_lenght}
use so2fib.Console.{Screen, printc_xy}
use so2fib.Kernel.{Kernel, readyqueue, keyboardqueue, list_head_to_task_struct}
use so2fib.Sched.{update_process_state_rr, schedule}

-- The characters by scan code, as bytes: of a character that the source file, in UTF-8, writes with
-- two bytes the compiler keeps the second.
abbrev pub char_map : List ℕ
char_map =
    0 ∷ 0 ∷ 49 ∷ 50 ∷ 51 ∷ 52 ∷ 53 ∷ 54 ∷ 55 ∷ 56 ∷ 57 ∷ 48 ∷ 39 ∷ 161 ∷ 0 ∷ 0 ∷ 113 ∷ 119 ∷ 101
    ∷ 114 ∷ 116 ∷ 121 ∷ 117 ∷ 105 ∷ 111 ∷ 112 ∷ 96 ∷ 43 ∷ 0 ∷ 0 ∷ 97 ∷ 115 ∷ 100 ∷ 102 ∷ 103 ∷ 104
    ∷ 106 ∷ 107 ∷ 108 ∷ 177 ∷ 0 ∷ 186 ∷ 0 ∷ 167 ∷ 122 ∷ 120 ∷ 99 ∷ 118 ∷ 98 ∷ 110 ∷ 109 ∷ 44 ∷ 46
    ∷ 45 ∷ 0 ∷ 42 ∷ 0 ∷ 0 ∷ 0 ∷ 0 ∷ 0 ∷ 0 ∷ 0 ∷ 0 ∷ 0 ∷ 0 ∷ 0 ∷ 0 ∷ 0 ∷ 0 ∷ 0 ∷ 55 ∷ 56 ∷ 57 ∷ 45
    ∷ 52 ∷ 53 ∷ 54 ∷ 43 ∷ 49 ∷ 50 ∷ 51 ∷ 48 ∷ 0 ∷ 0 ∷ 0 ∷ 60 ∷ 0 ∷ 0 ∷ 0 ∷ 0 ∷ 0 ∷ 0 ∷ 0 ∷ 0 ∷ 0 ∷ 0
    ∷ 0 ∷ []

-- The buffer is full, or holds what task `t` still waits for.
unfoldable pub has_enough : ℕ → Kernel → Bool
has_enough t k =
    cir_buff_full k.keyboard_buff
    || leb_ℤ ((k.task t).required_keys -ℤ (k.task t).read_keys) (cir_buff_lenght k.keyboard_buff)

-- `cirBuffWrite` and the test of `keyboardqueue`.
unfoldable pub store_key : ℕ → Kernel → Kernel
store_key c k =
    let k_1 = record k { keyboard_buff = cir_buff_write k.keyboard_buff c } in
    let t = list_head_to_task_struct (list_first keyboardqueue k_1.links) in
    if not (list_empty keyboardqueue k_1.links) && has_enough t k_1
    then update_process_state_rr t readyqueue k_1
    else k_1

-- `keyboard_rutine`, for the byte that the port gives; `none` where the scan code is behind the end of
-- `char_map`.
unfoldable pub keyboard_rutine : ℕ → Kernel × Screen → Option (Kernel × Screen)
keyboard_rutine entrada (k, s) =
    let make_or_break = entrada / 2 ^ 7 in
    let scan_code = entrada % 2 ^ 7 in
    if make_or_break == 0
    then elim (get_elem? char_map scan_code) [
      | none ↦ none
      | some c ↦ some (store_key c k, printc_xy 0 0 (if c == 0 then 67 else c) s)
    ]
    else some (k, s)

-- `clock_rutine`, but for the clock on the screen.
unfoldable pub clock_rutine : Kernel → Kernel
clock_rutine k = schedule (record k { zeos_ticks = k.zeos_ticks +ℤ pos 1 })

-- `Gate`, and the table.
pub record Gate : Type 0 where
  pub low_offset : ℕ
  pub segment_selector : ℕ
  pub flags : ℕ
  pub high_offset : ℕ

abbrev pub Idt : Type 0
Idt = ℕ → Gate

abbrev pub kernel_cs : ℕ
kernel_cs = 16

-- `(Word)(level << 13) | 0x8E00`: of the shifted level's bits 13, 14 and 15, the last is set anyway.
unfoldable pub gate_flags : ℕ → ℕ
gate_flags level = (level * 2 ^ 13) % 2 ^ 15 + 36352

unfoldable pub set_interrupt_handler : ℕ → ℕ → ℕ → Idt → Idt
set_interrupt_handler vector handler max_accessible_from_pl idt = update idt vector (record {
  low_offset = handler % 2 ^ 16;
  segment_selector = kernel_cs;
  flags = gate_flags max_accessible_from_pl;
  high_offset = (handler / 2 ^ 16) % 2 ^ 16;
})

-- The same, since a trap gate would let interrupts into a system call.
unfoldable pub set_trap_handler : ℕ → ℕ → ℕ → Idt → Idt
set_trap_handler vector handler max_accessible_from_pl idt = update idt vector (record {
  low_offset = handler % 2 ^ 16;
  segment_selector = kernel_cs;
  flags = gate_flags max_accessible_from_pl;
  high_offset = (handler / 2 ^ 16) % 2 ^ 16;
})
