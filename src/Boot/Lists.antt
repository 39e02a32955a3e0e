-- ===== src/Boot/Lists.antt =====
-- The lists, states and semaphores through the start of the system.
use so2fib.Common.{ℕ, zero, suc, ◌+◌, ◌<◌, ◌≤◌, ◌≡◌, refl, ◌∙◌, ap, ◌⊎◌, inl, arith}
use so2fib.LinkedList.{
  Links, init_list_head, add_between, list_add, list_first, del_between, list_del,
}
use so2fib.Task.{free_sem, st_run}
use so2fib.Kernel.{
  Kernel, nr_tasks, nr_semaphores, task_list, freequeue, readyqueue, keyboardqueue, set_links,
  list_head_to_task_struct,
}
use so2fib.Sched.Next.{list_head_to_task_struct-task_list}
use so2fib.Space.{init_dirs, init_dir_pages, set_cr3}
use so2fib.Fork.Pages.{Kept, Kept-refl, Kept-trans, rest-Kept, allocate_dir-Kept}
use so2fib.Boot.{
  init_tables, init_mm, free_tasks, clear_refs, free_sems, init_sched, make_idle, init_idle,
  make_task_1, init_task_1, prepared, start, move_user,
}

init_tables-Kept : (n j : ℕ) (k : Kernel) → Kept k (init_tables n j k)
unfolding init_tables
init_tables-Kept zero j k = Kept-refl k
init_tables-Kept (suc n) j k = Kept-trans (rest-Kept k) (init_tables-Kept n (j + 1) _)

init_dirs-Kept : (n i : ℕ) (k : Kernel) → Kept k (init_dirs n i k)
unfolding init_dirs
init_dirs-Kept zero i k = Kept-refl k
init_dirs-Kept (suc n) i k = Kept-trans (rest-Kept k) (init_dirs-Kept n (i + 1) _)

init_mm-Kept : (k : Kernel) → Kept k (init_mm k)
unfolding init_mm init_dir_pages set_cr3
init_mm-Kept k = Kept-trans (init_tables-Kept nr_tasks 0 k) (
    Kept-trans (rest-Kept _)
      (Kept-trans (init_dirs-Kept nr_tasks 0 _) (Kept-trans (allocate_dir-Kept 0 _) (rest-Kept _))))

clear_refs-Kept : (n i : ℕ) (k : Kernel) → Kept k (clear_refs n i k)
unfolding clear_refs
clear_refs-Kept zero i k = Kept-refl k
clear_refs-Kept (suc n) i k = Kept-trans (rest-Kept k) (clear_refs-Kept n (i + 1) _)

-- The lists that `init_sched` makes, and then those that `init_idle` and `init_task1` leave.
abbrev all_free : ℕ → ℕ → Links → Links
all_free zero i m = m
all_free (suc n) i m = all_free n (i + 1) (list_add (task_list i) freequeue m)

unfoldable pub sched_links : Links → Links
sched_links m =
    init_list_head readyqueue
      (all_free nr_tasks 0 (init_list_head freequeue (init_list_head keyboardqueue m)))

unfoldable pub start_links : Links → Links
start_links m = list_del 14 (list_del 15 (sched_links m))

free_tasks-links : (n i : ℕ) (k : Kernel) → (free_tasks n i k).links ≡ all_free n i k.links
unfolding free_tasks
free_tasks-links zero i k = refl
free_tasks-links (suc n) i k = free_tasks-links n (i + 1) _

free_tasks-estado :
    (n i : ℕ) (k : Kernel) (j : ℕ) → ((free_tasks n i k).task j).estado ≡ (k.task j).estado
unfolding free_tasks
free_tasks-estado zero i k j = refl
free_tasks-estado (suc n) i k j = free_tasks-estado n (i + 1) _ j ∙ ground arith

free_sems-links : (n i : ℕ) (k : Kernel) → (free_sems n i k).links ≡ k.links
unfolding free_sems
free_sems-links zero i k = refl
free_sems-links (suc n) i k = free_sems-links n (i + 1) _

free_sems-estado :
    (n i : ℕ) (k : Kernel) (j : ℕ) → ((free_sems n i k).task j).estado ≡ (k.task j).estado
unfolding free_sems
free_sems-estado zero i k j = refl
free_sems-estado (suc n) i k j = free_sems-estado n (i + 1) _ j

-- The semaphores that the loop has passed, or that were free, are free.
free_sems-state :
    (n i : ℕ) (k : Kernel) (j : ℕ)
    → ((i ≤ j) × (j < i + n)) ⊎ ((k.semaphores j).state ≡ free_sem)
    → ((free_sems n i k).semaphores j).state ≡ free_sem
unfolding free_sems
free_sems-state zero i k j h = ground arith
free_sems-state (suc n) i k j h = free_sems-state n (i + 1) _ j (ground arith)

init_sched-links : (k : Kernel) → (init_sched k).links ≡ sched_links k.links
unfolding init_sched sched_links
init_sched-links k =
    free_sems-links nr_semaphores 0 _
    ∙ (clear_refs-Kept nr_tasks 0 _).links
    ∙ ap (init_list_head readyqueue) (free_tasks-links nr_tasks 0 _)

init_sched-estado : (k : Kernel) (j : ℕ) → ((init_sched k).task j).estado ≡ (k.task j).estado
unfolding init_sched
init_sched-estado k j =
    free_sems-estado nr_semaphores 0 _ j
    ∙ (clear_refs-Kept nr_tasks 0 _).estado j
    ∙ free_tasks-estado nr_tasks 0 _ j

init_sched-state :
    (k : Kernel) (j : ℕ) → j < nr_semaphores → ((init_sched k).semaphores j).state ≡ free_sem
unfolding init_sched
init_sched-state k j h = free_sems-state nr_semaphores 0 _ j (inl (omega arith))

-- What the two functions for the first tasks leave of lists, states and semaphores.
record Made (ts : ℕ) (k k' : Kernel) : Type 0 where
  links : k'.links ≡ k.links
  semaphores : k'.semaphores ≡ k.semaphores
  estado : (j : ℕ) → (k.task j).estado ≡ st_run → (k'.task j).estado ≡ st_run

make_idle-Made : (ts : ℕ) (k : Kernel) → Made ts k (make_idle ts k)
unfolding make_idle
make_idle-Made ts k =
    let a = allocate_dir-Kept ts _ in
    record {
      links = a.links;
      semaphores = a.semaphores;
      estado = λ j r. ground (arith, a.estado j);
    }

make_task_1-Made : (ts : ℕ) (k : Kernel) → Made ts k (make_task_1 ts k)
unfolding make_task_1
make_task_1-Made ts k =
    let a = allocate_dir-Kept ts _ in
    record {
      links = a.links;
      semaphores = a.semaphores;
      estado = λ j r. ground (arith, a.estado j);
    }

make_task_1-idle_task : (ts : ℕ) (k : Kernel) → (make_task_1 ts k).idle_task ≡ k.idle_task
unfolding make_task_1
make_task_1-idle_task ts k = (allocate_dir-Kept ts _).idle_task

pub make_task_1-esp_0 : (ts : ℕ) (k : Kernel) → (make_task_1 ts k).machine.esp_0 ≡ ts
unfolding make_task_1
make_task_1-esp_0 ts k = refl

make_idle-idle_task : (ts : ℕ) (k : Kernel) → (make_idle ts k).idle_task ≡ ts
unfolding make_idle
make_idle-idle_task ts k = refl

-- `list_add` puts the tasks before each other, so the last of them is the first free one.
first_free : (m : Links) → list_first freequeue (sched_links m) ≡ task_list 14
unfolding list_first sched_links init_list_head list_add add_between
first_free m = refl

next_free : (m : Links) → list_first freequeue (list_del 15 (sched_links m)) ≡ task_list 13
unfolding list_first sched_links init_list_head list_add add_between list_del del_between
next_free m = refl

init_idle-first :
    (k : Kernel) (ts : ℕ)
    → list_first freequeue k.links ≡ task_list ts
    → init_idle k ≡ make_idle ts (set_links (list_del (task_list ts)) k)
unfolding init_idle
init_idle-first k ts e =
    ap (λ a. make_idle (list_head_to_task_struct a) (set_links (list_del a) k)) e
    ∙ ap (λ t. make_idle t (set_links (list_del (task_list ts)) k))
        (list_head_to_task_struct-task_list ts)

init_task_1-first :
    (k : Kernel) (ts : ℕ)
    → list_first freequeue k.links ≡ task_list ts
    → init_task_1 k ≡ make_task_1 ts (set_links (list_del (task_list ts)) k)
unfolding init_task_1
init_task_1-first k ts e =
    ap (λ a. make_task_1 (list_head_to_task_struct a) (set_links (list_del a) k)) e
    ∙ ap (λ t. make_task_1 t (set_links (list_del (task_list ts)) k))
        (list_head_to_task_struct-task_list ts)

abbrev pub on_stack : ℕ → Kernel → Kernel
on_stack r j = record j { ram = (move_user j).1; running = r }

module _ (k : Kernel) where
  -- The kernel after `init_sched`, `init_idle` and `init_task1`.
  abbrev pub ready : Kernel
  ready = init_sched (init_mm k)

  abbrev pub idled : Kernel
  idled = make_idle 14 (set_links (list_del 15) ready)

  abbrev pub tasked : Kernel
  tasked = make_task_1 13 (set_links (list_del 14) idled)

  ready-links : ready.links ≡ sched_links k.links
  ready-links = init_sched-links (init_mm k) ∙ ap sched_links (init_mm-Kept k).links

  idled-links : idled.links ≡ list_del 15 (sched_links k.links)
  idled-links = (make_idle-Made 14 _).links ∙ ap (list_del 15) ready-links

  -- Task 14 becomes the idle task, and task 13 the first process.
  pub prepared-tasked : prepared k ≡ tasked
  unfolding prepared
  prepared-tasked =
      let first =
        init_idle-first ready 14 (ap (list_first freequeue) ready-links ∙ first_free k.links) in
      let second =
        init_task_1-first idled 13 (ap (list_first freequeue) idled-links ∙ next_free k.links) in
      ap init_task_1 first ∙ second

  pub start-tasked : start k ≡ on_stack 13 tasked
  unfolding start
  start-tasked =
      ap (λ (j : Kernel). on_stack j.machine.esp_0 j) prepared-tasked
      ∙ ap (λ r. on_stack r tasked) (make_task_1-esp_0 13 _)

  pub tasked-links : tasked.links ≡ start_links k.links
  unfolding start_links
  tasked-links = (make_task_1-Made 13 _).links ∙ ap (list_del 14) idled-links

  pub tasked-state : (j : ℕ) → j < nr_semaphores → (tasked.semaphores j).state ≡ free_sem
  tasked-state j h =
      ap (λ s. (s j).state) ((make_task_1-Made 13 _).semaphores ∙ (make_idle-Made 14 _).semaphores)
      ∙ init_sched-state (init_mm k) j h

  pub tasked-estado : (j : ℕ) → (k.task j).estado ≡ st_run → (tasked.task j).estado ≡ st_run
  tasked-estado j r = (make_task_1-Made 13 _).estado j (
      (make_idle-Made 14 _).estado j
        (init_sched-estado (init_mm k) j ∙ (init_mm-Kept k).estado j ∙ r))

  pub tasked-idle_task : tasked.idle_task ≡ 14
  tasked-idle_task = make_task_1-idle_task 13 _ ∙ make_idle-idle_task 14 _
