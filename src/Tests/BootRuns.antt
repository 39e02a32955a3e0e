-- ===== src/Tests/BootRuns.antt =====
-- The start of the system, steps from it, and the image that it is loaded from.
use so2fib.Common.{
  ℕ, zero, suc, ◌+◌, ◌-◌, ◌^◌, ◌≤◌, ◌<◌, ◌≡◌, ◌∙◌, refl, true, get_or, ap, some, [], ◌∷◌, ◌++◌,
  length, arith, eqb_ℤ,
}
use so2fib.Fork.{sys_fork}
use so2fib.Interrupts.{clock_rutine}
use so2fib.Sched.Shape.{Valid}
use so2fib.Boot.{
  init_tables, init_mm, free_tasks, clear_refs, free_sems, init_sched, make_idle, init_idle,
  make_task_1, init_task_1, prepared, start, move_user, kernel_start, usr_main,
}
use so2fib.Processes.{find_dir, allocate_dir, get_dir_position}
use so2fib.LinkedList.{list_first, init_list_head, list_add, add_between}
use so2fib.Kernel.{Kernel, list_head_to_task_struct}
use so2fib.Space.{seen, set_cr3, init_dirs, init_dir_pages}
use so2fib.Boot.Start.{start_map, start-Valid}
use so2fib.Steps.{here, next, tick, fork}
use so2fib.Steps.Front.{IsConsistent}
use so2fib.Steps.Always.{start-Reach-IsConsistent}
use so2fib.Image.{File, Out, minix_open, differs, build}
use so2fib.Image.Layout.{IsBootSector, Image, build-Image}
use so2fib.Image.Loaded.{IsLoaded, start-Image}
use so2fib.Utils.{Bytes}
use so2fib.Tests.Fixture.{alone}

start-Valid_example :
    Valid (start alone) start_map × ((start alone).running ≡ 13) × ((start alone).idle_task ≡ 14)
start-Valid_example = start-Valid alone (λ j. refl)

-- A tick, and then the first process forks.
start-Reach-IsConsistent_example : IsConsistent (sys_fork (clock_rutine (start alone))).1
start-Reach-IsConsistent_example =
    start-Reach-IsConsistent alone (λ j. refl) (next (next here (tick refl)) (fork refl))

abbrev repeat : ℕ → ℕ → File
repeat zero b = []
repeat (suc n) b = b ∷ repeat n b

-- A boot sector that does nothing, with the flag, and behind the header of a Minix executable.
abbrev sector : File
sector = repeat 510 144 ++ (85 ∷ 170 ∷ [])

abbrev header : File
header = 1 ∷ 3 ∷ 16 ∷ 4 ∷ 32 ∷ repeat 27 0

abbrev system : File
system = repeat 16 1

abbrev user : File
user = 5 ∷ 6 ∷ 7 ∷ []

abbrev no_output : Out
no_output = record { pos = 0; at = λ a. 0 }

opens : minix_open (some (header ++ sector)) ≡ some sector
unfolding minix_open differs
opens = refl

sector-IsBootSector : IsBootSector sector
sector-IsBootSector = record { all = refl; low = refl; high = refl }

build-Image_example :
    (o' : Out) × (build (some (header ++ sector)) (some system) (some user) no_output ≡ some o')
    × Image sector system user o'
build-Image_example =
    build-Image (some (header ++ sector)) system user no_output opens sector-IsBootSector
      (omega arith) (omega arith) (omega arith) refl

room : 12 ≤ length system
room = omega arith

system_small : length system < 2 ^ 32
system_small = omega arith

user_small : length user < 2 ^ 32
user_small = omega arith

abbrev run :
    (o' : Out) × (build (some (header ++ sector)) (some system) (some user) no_output ≡ some o')
    × Image sector system user o'
run =
    build-Image (some (header ++ sector)) system user no_output opens sector-IsBootSector room
      system_small user_small refl

-- The memory that the boot sector loads the image of this run into.
abbrev image_memory : Bytes
image_memory a = run.0.at (a - kernel_start + 512)

abbrev loaded_kernel : Kernel
loaded_kernel = record alone { ram = image_memory }

-- The start writes the kernel's data, which the model keeps apart from these bytes.
prepared-ram : (prepared loaded_kernel).ram ≡ image_memory
unfolding init_tables init_mm free_tasks clear_refs free_sems init_sched make_idle init_idle
    make_task_1 init_task_1 prepared init_dirs init_dir_pages set_cr3 allocate_dir find_dir eqb_ℤ
    get_dir_position list_head_to_task_struct list_first init_list_head list_add add_between
prepared-ram = refl

image_memory-IsLoaded : IsLoaded (length system) (length user) run.0 (prepared loaded_kernel).ram
image_memory-IsLoaded = record {
  sizes = λ i h. ap (λ f. f (kernel_start + i)) prepared-ram ∙ ap run.0.at (omega arith);
  program = λ i h.
      ap (λ f. f (kernel_start + length system + i)) prepared-ram ∙ ap run.0.at (omega arith);
}

start-Image_example :
    ((move_user (prepared loaded_kernel)).0 ≡ true)
    × ((i : ℕ) → i < 3 → seen (start loaded_kernel) (usr_main + i) ≡ get_or user i 0)
    × ((x : ℕ) → x < usr_main → (start loaded_kernel).ram x ≡ (prepared loaded_kernel).ram x)
start-Image_example =
    start-Image {sector = sector} system user {o = run.0} loaded_kernel (λ j. refl) run.2
      image_memory-IsLoaded room (omega arith) (omega arith)
