-- ===== src/Tests/ExitRuns.antt =====
-- A task that exits, breaks that move, and the start of the processor.
use so2fib.Common.{ℕ, ◌+◌, ◌*◌, ◌/◌, ◌≤◌, ◌<◌, ◌≡◌, refl, false, some, arith, pos, negsuc}
use so2fib.Kernel.{Kernel, readyqueue, set_task}
use so2fib.Space.{get_pt}
use so2fib.Sched.Shape.{Valid}
use so2fib.Steps.Front.{same-Valid}
use so2fib.Processes.{to_unsigned}
use so2fib.Fork.{enomem}
use so2fib.Boot.{heap_start}
use so2fib.Exit.{sys_exit}
use so2fib.Exit.Release.{OwnsNone, Ended}
use so2fib.Exit.Outcome.{Vacated, sys_exit-Ended}
use so2fib.Sbrk.{tp_row, tp_page, set_break, sys_sbrk}
use so2fib.Sbrk.Grow.{break_of, sys_sbrk-grows}
use so2fib.Sbrk.Shrink.{Shrunk, lowered, sys_sbrk-shrinks}
use so2fib.Hardware.{Register, Cpu, Hardware, Layout, Tss, main_hardware}
use so2fib.Hardware.Tables.{IsLayout, Started, main_hardware-Started}
use so2fib.Tests.Fixture.{alone, busy, busy_map, busy-Valid}

-- Task 1 has PID 9, which owns nothing.
abbrev leaving : Kernel
leaving = set_task 1 (λ p. record p { pid = pos 9 }) busy

leaving-Valid : Valid leaving busy_map
leaving-Valid =
    same-Valid (record { links = refl; heads = refl; idle = refl; estado = λ j. ground arith }) refl
      busy-Valid

leaving-OwnsNone : OwnsNone leaving
leaving-OwnsNone i h e = ground (arith, e)

sys_exit-Ended_example :
    (k' : Kernel) × (sys_exit leaving ≡ some k')
    × Ended leaving busy_map (busy_map readyqueue) k'
    × Vacated leaving k'
sys_exit-Ended_example = sys_exit-Ended leaving-Valid leaving-OwnsNone

-- Task 1 has a heap of two pages and a part of a third.
abbrev heaped : Kernel
heaped = set_task 1 (λ p. record p { process_break = heap_start + 9000 }) alone

heaped-absent :
    (i : ℕ)
    → break_of heaped / 4096 ≤ i
    → i * 4096 < break_of heaped + 5000
    → (heaped.pagusr_table (tp_row (get_pt heaped.running heaped) i) (tp_page i)).present ≡ false
heaped-absent i lo hi = refl

sys_sbrk-grows_example :
    (1024 < (break_of heaped + 5000) / 4096
      → sys_sbrk (pos 5000) heaped ≡ (to_unsigned enomem, heaped))
    × ((break_of heaped + 5000) / 4096 ≤ 1024
        → ((i : ℕ)
            → break_of heaped / 4096 ≤ i
            → i * 4096 < break_of heaped + 5000
            → (heaped.pagusr_table (tp_row (get_pt heaped.running heaped) i) (tp_page i)).present
              ≡ false)
        → sys_sbrk (pos 5000) heaped ≡ (break_of heaped, set_break (break_of heaped + 5000) heaped))
sys_sbrk-grows_example = sys_sbrk-grows 5000 heaped (omega arith) (omega arith) (omega arith)

sys_sbrk-shrinks_example :
    Shrunk (lowered (break_of heaped) 5000) heaped (sys_sbrk (negsuc 4999) heaped)
sys_sbrk-shrinks_example = sys_sbrk-shrinks 4999 heaped (omega arith) (omega arith) (omega arith)

abbrev table_register : Register
table_register = record { limit = 0; base = 0 }

abbrev bare_cpu : Cpu
bare_cpu = record {
  ds = 0;
  es = 0;
  fs = 0;
  gs = 0;
  ss = 0;
  esp = 0;
  cs = 0;
  eip = 0;
  gdtr = table_register;
  idtr = table_register;
  tr = 0;
  interrupts = false;
  mask = 255;
  msr_174 = 0;
  msr_175 = 0;
  msr_176 = 0;
  cr_0 = 17;
}

abbrev no_tss : Tss
no_tss = record {
  previous_task_link = 0;
  esp_0 = 0;
  ss_0 = 0;
  esp_1 = 0;
  ss_1 = 0;
  esp_2 = 0;
  ss_2 = 0;
  cr_3 = 0;
  eip = 0;
  e_flags = 0;
  eax = 0;
  ecx = 0;
  edx = 0;
  ebx = 0;
  esp = 0;
  ebp = 0;
  esi = 0;
  edi = 0;
  es = 0;
  cs = 0;
  ss = 0;
  ds = 0;
  fs = 0;
  gs = 0;
  ldt_segment_selector = 0;
  debug_trap = 0;
  iomap_base_address = 0;
}

abbrev off : Hardware
off = record {
  cpu = bare_cpu;
  gdt = λ i. record {
    limit = 65535;
    low_base = 0;
    mid_base = 0;
    flags_1 = 0;
    flags_2 = 0;
    high_base = 0;
  };
  idt = λ v. record { low_offset = 0; segment_selector = 0; flags = 0; high_offset = 0 };
  tss = no_tss;
}

abbrev layout : Layout
layout = record {
  tss_addr = 74565;
  idt_addr = 80000;
  tasks = 90112;
  keyboard_handler = 66000;
  clock_handler = 66100;
  system_call_handler = 66200;
  syscall_handler_sysenter = 66300;
  set_handlers = λ idt. idt;
}

layout-IsLayout : IsLayout layout
layout-IsLayout = record {
  tss_addr = omega arith;
  keyboard_handler = omega arith;
  clock_handler = omega arith;
  system_call_handler = omega arith;
}

main_hardware-Started_example : Started layout off (main_hardware layout alone off)
main_hardware-Started_example = main_hardware-Started layout alone off layout-IsLayout
