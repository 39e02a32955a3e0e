-- ===== src/Tests/Fixture.antt =====
-- A kernel with task 1 current, task 2 ready, and task 3 waiting for the semaphore of number 7.
use so2fib.Common.{ℕ, ◌<◌, refl, true, false, ◌%◌, [], ◌∷◌, arith, pos, update, inl, inr}
use so2fib.LinkedList.{Addr, Links, list_add_tail}
use so2fib.Task.{Stats, st_run, Task, Semaphore, free_sem, used_sem}
use so2fib.Paging.{no_entry}
use so2fib.Kernel.{
  Kernel, word, task_list, freequeue, readyqueue, keyboardqueue, blocked_queue, set_task, set_links,
}
use so2fib.CirBuffer.{CirBuffer}
use so2fib.Sched.Shape.{QueueMap, state_in, IsRunning, Shape, Valid}
use so2fib.Sched.Place.{enter-Shape}
use so2fib.Sched.Next.{SameLists, Shape-same}

abbrev no_stats : Stats
no_stats = record {
  user_ticks = 0;
  system_ticks = 0;
  blocked_ticks = 0;
  ready_ticks = 0;
  elapsed_total_ticks = 0;
  total_trans = 0;
  remaining_ticks = 0;
}

-- Task `i` has PID `i`.
abbrev plain_task : ℕ → Task
plain_task i = record {
  pid = pos i;
  dir_pages_base_addr = i;
  kernel_esp = 0;
  estado = st_run;
  estadisticas = no_stats;
  n_directorio = i;
  sem_ret = pos 0;
  quantum = pos 15;
  read_keys = pos 0;
  required_keys = pos 0;
  process_break = 0;
}

abbrev plain_sem : Semaphore
plain_sem = record { state = free_sem; n_sem = pos 0; owner = pos 0; counter = pos 0 }

abbrev sem_7 : Semaphore
sem_7 = record { state = used_sem; n_sem = pos 7; owner = pos 1; counter = pos 0 }

abbrev empty_buffer : CirBuffer
empty_buffer = record {
  write_pos = 0;
  read_pos = 0;
  full = false;
  buffer = 0 ∷ 0 ∷ 0 ∷ 0 ∷ 0 ∷ 0 ∷ 0 ∷ 0 ∷ 0 ∷ 0 ∷ 0 ∷ 0 ∷ 0 ∷ 0 ∷ 0 ∷ 0 ∷ [];
}

-- Every list head points to itself.
abbrev pub fresh_links : Links
fresh_links = record { next = λ a. a; prev = λ a. a }

abbrev pub alone : Kernel
alone = record {
  links = fresh_links;
  task = plain_task;
  semaphores = update (λ _. plain_sem) 0 sem_7;
  running = 1;
  idle_task = 0;
  q_left = pos 1;
  refs_dir = λ _. pos 1;
  dir_pages = λ i. record { present = true; rw_bit = true; user = true; pbase_addr = i };
  pagusr_table = λ _ _. no_entry;
  stack = λ _ _. word 0;
  ram = λ a. a % 256;
  phys_mem = λ _. 0;
  incremental_pid = pos 4;
  zeos_ticks = pos 0;
  keyboard_buff = empty_buffer;
  machine = record { esp_0 = 1; msr_175 = 1; cr_3 = 1; ebp = λ _. 0 };
  clock = λ n. n;
}

abbrev pub no_queues : QueueMap
no_queues _ = []

running-alone : (i : ℕ) → i < 15 → IsRunning alone no_queues i
running-alone i h = record { in_table = h; loose = (ground arith, λ h' hh. refl); runs = refl }

alone-Shape : Shape alone no_queues
alone-Shape = record {
  queues = record {
    queue = λ h hh. record { chain = (refl, refl); distinct = (refl, tt) };
    not_head = λ h a hh i. cc;
    apart = λ h k a hh hk i. cc;
  };
  member = λ h a hh i. cc;
  queued = λ h i hh ne j. cc;
  idle = λ out. running-alone 0 (omega arith);
}

pub alone-Valid : Valid alone no_queues
alone-Valid = record { shape = alone-Shape; current = running-alone 1 (omega arith) }

abbrev enter : ℕ → Addr → Kernel → Kernel
enter t h k =
    set_task t (λ p. record p { estado = state_in h }) (set_links (list_add_tail (task_list t) h) k)

abbrev one_ready : Kernel
one_ready = enter 2 readyqueue alone

abbrev one_ready_map : QueueMap
one_ready_map = update no_queues readyqueue (task_list 2 ∷ [])

one_ready-Shape : Shape one_ready one_ready_map
one_ready-Shape =
    enter-Shape alone-Shape 2 readyqueue refl (running-alone 2 (omega arith)) (inr refl)

-- Task 3 waits for semaphore 0.
abbrev pub busy : Kernel
busy = enter 3 (blocked_queue 0) one_ready

abbrev pub busy_map : QueueMap
busy_map = update one_ready_map (blocked_queue 0) (task_list 3 ∷ [])

loose_in : (i : ℕ) → i < 2 → IsRunning busy busy_map i
loose_in i h = record {
  in_table = omega arith;
  loose = (ground arith, λ h' hh. ground arith);
  runs = ground arith;
}

pub busy-Valid : Valid busy busy_map
busy-Valid = record {
  shape =
      enter-Shape one_ready-Shape 3 (blocked_queue 0) refl
        (record { in_table = omega arith; loose = (refl, λ h' hh. ground arith); runs = refl })
        (inl (omega arith));
  current = loose_in 1 (omega arith);
}

-- Task 4 is free.
abbrev pub spare : Kernel
spare = enter 4 freequeue busy

abbrev pub spare_map : QueueMap
spare_map = update busy_map freequeue (task_list 4 ∷ [])

pub spare-Valid : Valid spare spare_map
spare-Valid = record {
  shape =
      enter-Shape busy-Valid.shape 4 freequeue refl
        (record {
          in_table = omega arith;
          loose = (ground arith, λ h' hh. ground arith);
          runs = refl;
        })
        (inl (omega arith));
  current = record {
    in_table = omega arith;
    loose = (ground arith, λ h' hh. ground arith);
    runs = ground arith;
  };
}

-- Task 3 waits for two keys.
abbrev pub listening : Kernel
listening = set_task 3 (λ p. record p { required_keys = pos 2 }) (enter 3 keyboardqueue one_ready)

abbrev pub listening_map : QueueMap
listening_map = update one_ready_map keyboardqueue (task_list 3 ∷ [])

entered-Shape : Shape (enter 3 keyboardqueue one_ready) listening_map
entered-Shape =
    enter-Shape one_ready-Shape 3 keyboardqueue refl
      (record { in_table = omega arith; loose = (refl, λ h' hh. ground arith); runs = refl })
      (inl (omega arith))

listening-SameLists : SameLists (enter 3 keyboardqueue one_ready) listening
listening-SameLists = record { links = refl; heads = refl; idle = refl; estado = λ j. ground arith }

pub listening-Valid : Valid listening listening_map
listening-Valid = record {
  shape = Shape-same listening-SameLists entered-Shape;
  current = record {
    in_table = omega arith;
    loose = (ground arith, λ h' hh. ground arith);
    runs = ground arith;
  };
}
