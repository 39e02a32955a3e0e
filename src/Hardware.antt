-- ===== src/Hardware.antt =====
-- hardware.c, the parts of mm.c, interrupt.c and sched.c that fill the processor's tables, and the
-- parts of `main` of system.c that set the processor's registers.
pub mod Tables
use so2fib.Common.{ℕ, ◌+◌, ◌-◌, ◌*◌, ◌/◌, ◌%◌, ◌^◌, Bool, true, false, update}
use so2fib.Kernel.{Kernel}
use so2fib.Boot.{start}
use so2fib.Interrupts.{Gate, Idt, kernel_cs, set_interrupt_handler}

-- `Register`: the GDTR or the IDTR
pub record Register : Type 0 where
  pub limit : ℕ
  pub base : ℕ

-- `Descriptor`: a segment descriptor
pub record Descriptor : Type 0 where
  pub limit : ℕ
  pub low_base : ℕ
  pub mid_base : ℕ
  pub flags_1 : ℕ
  pub flags_2 : ℕ
  pub high_base : ℕ

-- `TSS`, without the halves of words that are not used.
pub record Tss : Type 0 where
  pub previous_task_link : ℕ
  pub esp_0 : ℕ
  pub ss_0 : ℕ
  pub esp_1 : ℕ
  pub ss_1 : ℕ
  pub esp_2 : ℕ
  pub ss_2 : ℕ
  pub cr_3 : ℕ
  pub eip : ℕ
  pub e_flags : ℕ
  pub eax : ℕ
  pub ecx : ℕ
  pub edx : ℕ
  pub ebx : ℕ
  pub esp : ℕ
  pub ebp : ℕ
  pub esi : ℕ
  pub edi : ℕ
  pub es : ℕ
  pub cs : ℕ
  pub ss : ℕ
  pub ds : ℕ
  pub fs : ℕ
  pub gs : ℕ
  pub ldt_segment_selector : ℕ
  pub debug_trap : ℕ
  pub iomap_base_address : ℕ

-- The processor: the segment registers, the stack and instruction pointers, the table registers, the
-- interrupt flag, the mask of the interrupt controller at port 0x21, the MSRs 0x174 to 0x176, and
-- CR0. CR3 is in the kernel's state.
pub record Cpu : Type 0 where
  pub ds : ℕ
  pub es : ℕ
  pub fs : ℕ
  pub gs : ℕ
  pub ss : ℕ
  pub esp : ℕ
  pub cs : ℕ
  pub eip : ℕ
  pub gdtr : Register
  pub idtr : Register
  pub tr : ℕ
  pub interrupts : Bool
  pub mask : ℕ
  pub msr_174 : ℕ
  pub msr_175 : ℕ
  pub msr_176 : ℕ
  pub cr_0 : ℕ

-- The tables in memory, and the processor.
pub record Hardware : Type 0 where
  pub cpu : Cpu
  pub gdt : ℕ → Descriptor
  pub idt : Idt
  pub tss : Tss

abbrev pub set_cpu : (Cpu → Cpu) → Hardware → Hardware
set_cpu f h = record h { cpu = f h.cpu }

-- `pushl $0; popfl`
unfoldable pub set_eflags : Hardware → Hardware
set_eflags h = set_cpu (λ c. record c { interrupts = false }) h

unfoldable pub set_gdt_reg : Register → Hardware → Hardware
set_gdt_reg r h = set_cpu (λ c. record c { gdtr = r }) h

unfoldable pub set_idt_reg : Register → Hardware → Hardware
set_idt_reg r h = set_cpu (λ c. record c { idtr = r }) h

unfoldable pub set_task_reg : ℕ → Hardware → Hardware
set_task_reg tr h = set_cpu (λ c. record c { tr = tr }) h

-- The mask 0xFC, then `sti`.
unfoldable pub enable_int : Hardware → Hardware
enable_int h = set_cpu (λ c. record c { mask = 252; interrupts = true }) h

-- `cr0 |= 0x80000000`
unfoldable pub set_pe_flag : Hardware → Hardware
set_pe_flag h = set_cpu (λ c. record c { cr_0 = c.cr_0 % 2 ^ 31 + 2 ^ 31 }) h

unfoldable pub set_seg_regs : ℕ → ℕ → ℕ → Hardware → Hardware
set_seg_regs data_sel stack_sel esp h =
    set_cpu
      (λ c. record c {
        ds = data_sel;
        es = data_sel;
        fs = data_sel;
        gs = data_sel;
        ss = stack_sel;
        esp = esp - 20;
      })
      h

-- The far return takes up the four values that are pushed before it. The write to the user's stack,
-- at `esp + 12`, is left out.
unfoldable pub return_gate : ℕ → ℕ → ℕ → ℕ → ℕ → Hardware → Hardware
return_gate ds ss esp cs eip h =
    set_cpu (λ c. record c { es = ds; ds = ds; ss = ss; esp = esp; cs = cs; eip = eip }) h

-- The selectors of include/segment.h
abbrev pub kernel_ds : ℕ
kernel_ds = 24

abbrev pub user_cs : ℕ
user_cs = 35

abbrev pub user_ds : ℕ
user_ds = 43

abbrev pub kernel_tss : ℕ
kernel_tss = 48

abbrev pub gdt_start : ℕ
gdt_start = 590259

-- `lowWord`, `highWord`, `midByte` and `highByte`
abbrev pub low_word : ℕ → ℕ
low_word a = a % 2 ^ 16

abbrev pub mid_byte : ℕ → ℕ
mid_byte a = (a / 2 ^ 16) % 2 ^ 8

abbrev pub high_byte : ℕ → ℕ
high_byte a = (a / 2 ^ 24) % 2 ^ 8

-- `USER_ESP` and `L_USER_START`
abbrev pub user_start : ℕ
user_start = 2 ^ 20

abbrev pub user_esp : ℕ
user_esp = user_start + (8 + 20) * 4096 - 16

-- The addresses at which the linker puts the kernel's tables, stacks and handlers, and `set_handlers`,
-- whose file is not among the sources.
pub record Layout : Type 0 where
  pub tss_addr : ℕ
  pub idt_addr : ℕ
  pub tasks : ℕ
  pub keyboard_handler : ℕ
  pub clock_handler : ℕ
  pub system_call_handler : ℕ
  pub syscall_handler_sysenter : ℕ
  pub set_handlers : Idt → Idt

module _ (l : Layout) where
  -- `&task[t]`, of `union task_union`s that take up a page each.
  abbrev pub task_addr : ℕ → ℕ
  task_addr t = l.tasks + t * 4096

  -- `KERNEL_ESP(&task[t])`
  abbrev pub kernel_esp : ℕ → ℕ
  kernel_esp t = task_addr t + 1024 * 4

  -- `INITIAL_ESP`
  abbrev pub initial_esp : ℕ
  initial_esp = kernel_esp 1

  unfoldable pub set_gdt : Hardware → Hardware
  unfolding set_gdt_reg
  set_gdt h =
      let d = record (h.gdt (kernel_tss / 8)) {
        low_base = low_word l.tss_addr;
        mid_base = mid_byte l.tss_addr;
        high_base = high_byte l.tss_addr;
      } in
      set_gdt_reg (record { limit = 256 * 8; base = gdt_start })
        (record h { gdt = update h.gdt (kernel_tss / 8) d })

  unfoldable pub set_tss : Hardware → Hardware
  unfolding set_task_reg
  set_tss h = set_task_reg kernel_tss (record h {
    tss = record {
      previous_task_link = 0;
      esp_0 = initial_esp;
      ss_0 = kernel_ds;
      esp_1 = 0;
      ss_1 = 0;
      esp_2 = 0;
      ss_2 = 0;
      cr_3 = 0;
      eip = 0;
      e_flags = 512;
      eax = 0;
      ecx = 0;
      edx = 0;
      ebx = 0;
      esp = user_esp;
      ebp = user_esp;
      esi = 0;
      edi = 0;
      es = user_ds;
      cs = user_cs;
      ss = user_ds;
      ds = user_ds;
      fs = 0;
      gs = 0;
      ldt_segment_selector = kernel_tss;
      debug_trap = 0;
      iomap_base_address = 0;
    };
  })

  -- `writeMsr` is a single instruction.
  unfoldable pub set_idt : Hardware → Hardware
  unfolding set_idt_reg
  set_idt h =
      let h_1 =
        set_cpu
          (λ c. record c {
            msr_174 = kernel_cs;
            msr_175 = initial_esp;
            msr_176 = l.syscall_handler_sysenter;
          })
          (record h { idt = l.set_handlers h.idt }) in
      let idt_1 = set_interrupt_handler 33 l.keyboard_handler 0 h_1.idt in
      let idt_2 = set_interrupt_handler 128 l.system_call_handler 3 idt_1 in
      set_idt_reg (record { limit = 256 * 8 - 1; base = l.idt_addr })
        (record h_1 { idt = set_interrupt_handler 32 l.clock_handler 3 idt_2 })

  -- The writes of `init_task1` to the TSS and to MSR 0x175, for the task `ts`.
  unfoldable pub set_task_1_stack : ℕ → Hardware → Hardware
  set_task_1_stack ts h =
      let h_1 = record h { tss = record h.tss { esp_0 = kernel_esp ts } } in
      set_cpu (λ c. record c { msr_175 = kernel_esp ts }) h_1

  -- `main` of system.c, as far as the processor and its tables go, on the kernel `k`, of which
  -- `init_task1` takes the first process.
  unfoldable pub main_hardware : Kernel → Hardware → Hardware
  unfolding set_eflags set_seg_regs set_gdt set_idt set_tss set_pe_flag set_task_1_stack enable_int
      return_gate
  main_hardware k h =
      let h_1 = set_seg_regs kernel_ds kernel_ds (task_addr 4) (set_eflags h) in
      let h_2 = set_pe_flag (set_tss (set_idt (set_gdt h_1))) in
      let h_3 = set_task_1_stack (start k).machine.esp_0 h_2 in
      return_gate user_ds user_ds user_esp user_cs user_start (enable_int h_3)
