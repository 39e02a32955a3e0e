-- ===== src/Sched/Place.antt =====
-- What `update_process_state_rr` does to the lists: a task leaves its list, or enters one.
use so2fib.Common.{
  ℕ, ◌≡◌, refl, ◌≢◌, ◌⊎◌, inl, inr, true, false, List, [], ◌∷◌, ◌++◌, has, has-append, update, ◌==◌,
  ◌||◌, arith, ==-eq, ==-ne, subst, sym, Bool-cases, ap,
}
use so2fib.LinkedList.{Addr, Links, null, list_add, list_del, list_add_tail}
use so2fib.LinkedList.Front.{list_add-Queues}
use so2fib.LinkedList.Family.{
  Queues, IsLoose, has-update, has-middle, has-middle_ne, list_add_tail-Queues, list_del-Queues,
}
use so2fib.Task.{State, st_run, st_ready, st_blocked, is_run, Semaphore}
use so2fib.Kernel.{Kernel, task_list, readyqueue, is_head, set_task, set_links}
use so2fib.Sched.{update_process_state_rr}
use so2fib.Sched.Shape.{QueueMap, state_in, IsRunning, Shape}

is_run-ne : (s : State) → s ≢ st_run → is_run s ≡ false
is_run-ne st_run ne = absurd (ne refl)
is_run-ne st_ready ne = refl
is_run-ne st_blocked ne = refl

-- A task that runs and is put into a list.
pub park-eq :
    (k : Kernel) (t h : Addr)
    → (k.task t).estado ≡ st_run
    → h ≢ null
    → update_process_state_rr t h k
      ≡ set_task t
          (λ p. record p { estado = state_in h })
          (set_links (list_add_tail (task_list t) h) k)
unfolding update_process_state_rr
park-eq k t h run ne = simp (ap is_run run, ==-ne h null ne)

-- A task that waits and goes on to run.
pub run-eq :
    (k : Kernel) (t : Addr)
    → (k.task t).estado ≢ st_run
    → update_process_state_rr t null k
      ≡ set_task t (λ p. record p { estado = st_run }) (set_links (list_del (task_list t)) k)
unfolding update_process_state_rr
run-eq k t wait = simp (is_run-ne (k.task t).estado wait)

pub head-ne-null : (sems : ℕ → Semaphore) (h : Addr) → is_head sems h ≡ true → h ≢ null
head-ne-null sems h e = ground arith

-- A task that waits and goes on to wait elsewhere.
pub move-eq :
    (k : Kernel) (t h : Addr)
    → (k.task t).estado ≢ st_run
    → h ≢ null
    → update_process_state_rr t h k
      ≡ set_task t
          (λ p. record p { estado = state_in h })
          (set_links (λ m. list_add_tail (task_list t) h (list_del (task_list t) m)) k)
unfolding update_process_state_rr
move-eq k t h wait ne = simp (is_run-ne (k.task t).estado wait, ==-ne h null ne)

-- `update_process_state_rr` touches the lists and one task's state only.
pub update_process_state_rr-rest :
    (t h : Addr) (k : Kernel)
    → ((update_process_state_rr t h k).running ≡ k.running)
      × ((update_process_state_rr t h k).idle_task ≡ k.idle_task)
      × ((update_process_state_rr t h k).semaphores ≡ k.semaphores)
unfolding update_process_state_rr
update_process_state_rr-rest t h k = ground arith

-- Task `t` comes into the list of `h`, in the state that belongs to it: the list is `ys` then.
module _ {k : Kernel} {q : QueueMap} (s : Shape k q) (t h : Addr) (m : Links) (ys : List Addr)
    (hh : is_head k.semaphores h ≡ true) (r : IsRunning k q t)
    (other : (t ≢ k.idle_task) ⊎ (h ≡ readyqueue))
    (in_ys : (a : Addr) → has a ys ≡ (a == task_list t || has a (q h))) where
  abbrev entered : Kernel
  entered = set_task t (λ p. record p { estado = state_in h }) (set_links (λ _. m) k)

  entered-idle :
      has (task_list k.idle_task) (update q h ys readyqueue) ≡ false
      → IsRunning entered (update q h ys) k.idle_task
  entered-idle out =
      let mid = in_ys (task_list k.idle_task) in
      let apart : t ≢ k.idle_task = ground (arith, mid) in
      let old = s.idle (ground (arith, mid)) in
      record {
        in_table = old.in_table;
        loose = (old.loose.0, λ l hl. ground (arith, old.loose.1 l, mid));
        runs = ground (arith, old.runs);
      }

  entered-Shape : Queues (is_head k.semaphores) m (update q h ys) → Shape entered (update q h ys)
  entered-Shape queues = record {
    queues = queues;
    member = λ h' a hh' i. ground (arith, r.in_table, in_ys a, s.member h a, s.member h' a);
    queued = λ h' i hh' ne i_in.
        ground (arith, in_ys (task_list i), r.loose.1 h', s.queued h' i, s.queued h i);
    idle = entered-idle;
  }

module _ {k : Kernel} {q : QueueMap} (s : Shape k q) (t h : Addr)
    (hh : is_head k.semaphores h ≡ true) (r : IsRunning k q t)
    (other : (t ≢ k.idle_task) ⊎ (h ≡ readyqueue)) where
  -- A running task goes to the end of the list of `h`.
  pub enter-Shape :
      Shape
        (set_task t
          (λ p. record p { estado = state_in h })
          (set_links (list_add_tail (task_list t) h) k))
        (update q h (q h ++ task_list t ∷ []))
  enter-Shape =
      entered-Shape s t h _ _ hh r other
        (λ a. ground (arith, has-append a (q h) (task_list t ∷ [])))
        (list_add_tail-Queues (is_head k.semaphores) s.queues (task_list t) h hh r.loose)

  -- A running task goes to the start of the list of `h`.
  pub enter_first-Shape :
      Shape
        (set_task t
          (λ p. record p { estado = state_in h })
          (set_links (list_add (task_list t) h) k))
        (update q h (task_list t ∷ q h))
  enter_first-Shape =
      entered-Shape s t h _ _ hh r other (λ a. ground arith)
        (list_add-Queues (is_head k.semaphores) s.queues (task_list t) h hh r.loose)

-- A waiting task leaves its list and runs.
module _ {k : Kernel} {q : QueueMap} (s : Shape k q) (h : Addr) (xs : List Addr) (t : ℕ)
    (ys : List Addr) (hh : (is_head k.semaphores) h ≡ true) (e : q h ≡ xs ++ task_list t ∷ ys) where
  abbrev pub left : Kernel
  left = set_task t (λ p. record p { estado = st_run }) (set_links (list_del (task_list t)) k)

  abbrev pub rest : QueueMap
  rest = update q h (xs ++ ys)

  pub was_in : (l a : Addr) → has a (rest l) ≡ true → has a (q l) ≡ true
  was_in l a = has-update (is_head k.semaphores) s.queues h xs (task_list t) ys l a e

  leave-IsLoose :
      Queues (is_head k.semaphores) left.links rest
      × IsLoose (is_head k.semaphores) rest (task_list t)
  leave-IsLoose = list_del-Queues (is_head k.semaphores) s.queues h xs (task_list t) ys hh e

  pub leave-IsRunning : IsRunning left rest t
  leave-IsRunning =
      let member = s.member h (task_list t) hh (rw e (has-middle xs (task_list t) ys)) in
      record { in_table = omega arith; loose = leave-IsLoose.1; runs = ground arith }

  leave-idle :
      has (task_list k.idle_task) (rest readyqueue) ≡ false → IsRunning left rest k.idle_task
  leave-idle out = elim (Bool-cases (k.idle_task == t)) [
    | inl same ↦ subst (IsRunning left rest) (sym (==-eq k.idle_task t same)) leave-IsRunning
    | inr ne ↦
        let apart : task_list k.idle_task ≢ task_list t = ground arith in
        let old = s.idle (
          ground (
            arith,
            has-middle_ne (task_list k.idle_task) xs (task_list t) ys apart,
            ap (has (task_list k.idle_task)) e,
          )) in
        record {
          in_table = old.in_table;
          loose = (
            old.loose.0,
            λ l hl. ground (arith, old.loose.1 l, was_in l (task_list k.idle_task)),
          );
          runs = ground (arith, old.runs);
        }
  ]

  pub leave-Shape : Shape left rest
  leave-Shape = record {
    queues = leave-IsLoose.0;
    member = λ l a hl i. s.member l a hl (was_in l a i);
    queued =
        λ l i hl ne i_in. ground (arith, leave-IsLoose.1.1 l, s.queued l i, was_in l (task_list i));
    idle = leave-idle;
  }
