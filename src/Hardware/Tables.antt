-- ===== src/Hardware/Tables.antt =====
-- What the processor finds in its tables when the first process starts.
use so2fib.Common.{
  ap, ℕ, ◌+◌, ◌*◌, ◌/◌, ◌%◌, ◌^◌, ◌≤◌, ◌<◌, ◌≡◌, ◌≢◌, refl, ◌∙◌, true, arith, subst, sym,
}
use so2fib.Kernel.{Kernel}
use so2fib.Boot.{start}
use so2fib.Boot.Lists.{start-tasked, make_task_1-esp_0}
use so2fib.Interrupts.{Gate, Idt, set_interrupt_handler}
use so2fib.Interrupts.Gates.{offset, dpl, present_bit, set_interrupt_handler-offset}
use so2fib.Hardware.{
  Descriptor, Hardware, Layout, kernel_ds, user_cs, user_ds, gdt_start, user_start, main_hardware,
}

-- The address in a descriptor.
abbrev pub base_of : Descriptor → ℕ
base_of d = d.high_base * 2 ^ 24 + d.mid_base * 2 ^ 16 + d.low_base

-- A gate for a handler, that code of a privilege level up to `level` may use.
pub record Leads (g : Gate) (handler level : ℕ) : Type 0 where
  pub handler_is : offset g ≡ handler
  pub level_is : dpl g ≡ level
  pub is_present : present_bit g ≡ 1

pub record IsLayout (l : Layout) : Type 0 where
  pub tss_addr : l.tss_addr < 2 ^ 32
  pub keyboard_handler : l.keyboard_handler < 2 ^ 32
  pub clock_handler : l.clock_handler < 2 ^ 32
  pub system_call_handler : l.system_call_handler < 2 ^ 32

-- The processor and its tables at the first instruction of the user program.
pub record Started (l : Layout) (h h' : Hardware) : Type 0 where
  -- the task register selects a descriptor of the GDT whose base is the TSS
  pub tss_base : base_of (h'.gdt (h'.cpu.tr / 8)) ≡ l.tss_addr
  pub in_gdt : h'.cpu.tr < h'.cpu.gdtr.limit
  pub gdt_base : h'.cpu.gdtr.base ≡ gdt_start
  pub other_descriptors : (i : ℕ) → i ≢ h'.cpu.tr / 8 → h'.gdt i ≡ h.gdt i
  pub kernel_stack : (h'.tss.esp_0 ≡ l.tasks + 14 * 4096) × (h'.tss.ss_0 ≡ kernel_ds)
  pub sysenter_stack : h'.cpu.msr_175 ≡ l.tasks + 14 * 4096
  pub other_segments : (h'.tss.fs ≡ 0) × (h'.tss.gs ≡ 0)
  pub paging : (h'.cpu.cr_0 / 2 ^ 31 ≡ 1) × (h'.cpu.cr_0 % 2 ^ 31 ≡ h.cpu.cr_0 % 2 ^ 31)
  pub idt_base : h'.cpu.idtr.base ≡ l.idt_addr
  pub clock_gate : Leads (h'.idt 32) l.clock_handler 3
  pub keyboard_gate : Leads (h'.idt 33) l.keyboard_handler 0
  pub system_call_gate : Leads (h'.idt 128) l.system_call_handler 3
  pub other_gates : (v : ℕ) → v ≢ 32 → v ≢ 33 → v ≢ 128 → h'.idt v ≡ l.set_handlers h.idt v
  pub enabled : h'.cpu.interrupts ≡ true
  pub unmasked : (h'.cpu.mask % 4 ≡ 0) × (h'.cpu.mask / 4 ≡ 63)
  pub user_code : (h'.cpu.cs ≡ user_cs) × (h'.cpu.eip ≡ user_start)
  pub user_stack :
      (h'.cpu.ss ≡ user_ds) × (264 * 4096 ≤ h'.cpu.esp) × (h'.cpu.esp + 16 ≡ 284 * 4096)

gate-Leads :
    (vector handler level : ℕ) (idt : Idt)
    → handler < 2 ^ 32
    → level < 4
    → Leads (set_interrupt_handler vector handler level idt vector) handler level
gate-Leads vector handler level idt h l =
    let (a, b, c, _) = set_interrupt_handler-offset vector handler level idt h l in
    record { handler_is = a; level_is = b; is_present = c }

gate-other :
    (vector handler level v : ℕ) (idt : Idt)
    → v ≢ vector
    → set_interrupt_handler vector handler level idt v ≡ idt v
unfolding set_interrupt_handler
gate-other vector handler level v idt ne = ground arith

-- `init_task1` takes task 13.
first_task : (k : Kernel) → (start k).machine.esp_0 ≡ 13
first_task k = ap (λ (j : Kernel). j.machine.esp_0) (start-tasked k) ∙ make_task_1-esp_0 13 _

-- `main` leaves the processor at the start of the user program, on a stack at the end of the data
-- pages, with paging and interrupts on and the clock and the keyboard alone unmasked. The task register
-- selects a descriptor of the GDT whose base is the TSS, with the end of the stack of task 13, the
-- first process, which MSR 0x175 holds too, and the other descriptors stay. The gates 32, 33 and 128 lead to the clock, the keyboard and the system calls,
-- and user programs may use 32 and 128; the other gates are those of `set_handlers`.
pub main_hardware-Started :
    (l : Layout) (k : Kernel) (h : Hardware) → IsLayout l → Started l h (main_hardware l k h)
unfolding main_hardware
main_hardware-Started l k h ok =
    let stack : l.tasks + (start k).machine.esp_0 * 4096 + 4096 ≡ l.tasks + 14 * 4096 =
      ap (λ t. l.tasks + t * 4096 + 4096) (first_task k) ∙ omega arith in
    let idt_0 = l.set_handlers h.idt in
    let idt_1 = set_interrupt_handler 33 l.keyboard_handler 0 idt_0 in
    let idt_2 = set_interrupt_handler 128 l.system_call_handler 3 idt_1 in
    record {
      tss_base = omega arith;
      in_gdt = omega arith;
      gdt_base = refl;
      other_descriptors = λ i ne. ground arith;
      kernel_stack = (stack, refl);
      sysenter_stack = stack;
      other_segments = (refl, refl);
      paging = (omega arith, omega arith);
      idt_base = refl;
      clock_gate = gate-Leads 32 l.clock_handler 3 idt_2 ok.clock_handler (omega arith);
      keyboard_gate =
          subst (λ g. Leads g l.keyboard_handler 0)
            (sym (
              gate-other 32 l.clock_handler 3 33 idt_2 (omega arith)
              ∙ gate-other 128 l.system_call_handler 3 33 idt_1 (omega arith)))
            (gate-Leads 33 l.keyboard_handler 0 idt_0 ok.keyboard_handler (omega arith));
      system_call_gate =
          subst (λ g. Leads g l.system_call_handler 3)
            (sym (gate-other 32 l.clock_handler 3 128 idt_2 (omega arith)))
            (gate-Leads 128 l.system_call_handler 3 idt_1 ok.system_call_handler (omega arith));
      other_gates = λ v a b c.
          gate-other 32 l.clock_handler 3 v idt_2 a
          ∙ gate-other 128 l.system_call_handler 3 v idt_1 c
          ∙ gate-other 33 l.keyboard_handler 0 v idt_0 b;
      enabled = refl;
      unmasked = (refl, refl);
      user_code = (refl, refl);
      user_stack = (refl, omega arith, omega arith);
    }
