-- ===== src/Boot/Start.antt =====
-- The state in which the first process enters user mode.
use so2fib.Common.{
  ℕ, ◌-◌, ◌<◌, ◌≤◌, ◌≡◌, refl, sym, ◌⊎◌, inl, inr, arith, subst, true, [], ◌∷◌, ◌==◌, has,
  if◌then◌else◌,
}
use so2fib.LinkedList.{Addr, Links, init_list_head, add_between, list_add, del_between, list_del}
use so2fib.LinkedList.Queue.{IsQueue}
use so2fib.Task.{st_run}
use so2fib.Kernel.{Kernel, nr_tasks, task_list, freequeue, readyqueue, keyboardqueue, is_head}
use so2fib.Sched.Shape.{QueueMap, IsRunning, Shape, Valid}
use so2fib.Boot.{start}
use so2fib.Boot.Lists.{
  sched_links, start_links, on_stack, tasked, start-tasked, tasked-links, tasked-state,
  tasked-estado, tasked-idle_task,
}

-- The tasks 12 to 0 are free, in this order, and nobody waits.
abbrev pub start_map : QueueMap
start_map h =
    if h == freequeue then 13 ∷ 12 ∷ 11 ∷ 10 ∷ 9 ∷ 8 ∷ 7 ∷ 6 ∷ 5 ∷ 4 ∷ 3 ∷ 2 ∷ 1 ∷ [] else []

freequeue-start_links : (m : Links) → IsQueue (start_links m) freequeue (start_map freequeue)
unfolding start_links sched_links init_list_head list_add add_between list_del del_between
freequeue-start_links m = record { chain = omega arith; distinct = ground arith }

readyqueue-start_links : (m : Links) → IsQueue (start_links m) readyqueue []
unfolding start_links sched_links init_list_head list_add add_between list_del del_between
readyqueue-start_links m = record { chain = (refl, refl); distinct = ground arith }

keyboardqueue-start_links : (m : Links) → IsQueue (start_links m) keyboardqueue []
unfolding start_links sched_links init_list_head list_add add_between list_del del_between
keyboardqueue-start_links m = record { chain = (refl, refl); distinct = ground arith }

entry_bound : (h a : Addr) → has a (start_map h) ≡ true → (h ≡ freequeue) × (1 ≤ a) × (a ≤ 13)
entry_bound h a e = ground (arith, e)

start_links-IsQueue :
    (m : Links) (h : Addr)
    → (h ≡ freequeue) ⊎ (h ≡ readyqueue) ⊎ (h ≡ keyboardqueue)
    → IsQueue (start_links m) h (start_map h)
start_links-IsQueue m h (inl e) =
    subst (λ l. IsQueue (start_links m) l (start_map l)) (sym e) (freequeue-start_links m)
start_links-IsQueue m h (inr (inl e)) =
    subst (λ l. IsQueue (start_links m) l (start_map l)) (sym e) (readyqueue-start_links m)
start_links-IsQueue m h (inr (inr e)) =
    subst (λ l. IsQueue (start_links m) l (start_map l)) (sym e) (keyboardqueue-start_links m)

module _ (k : Kernel) (zeroed : (j : ℕ) → (k.task j).estado ≡ st_run) where
  abbrev first : Kernel
  first = on_stack 13 (tasked k)

  -- With every semaphore free, the kernel has three lists.
  three_heads :
      (h : Addr)
      → is_head first.semaphores h ≡ true
      → (h ≡ freequeue) ⊎ (h ≡ readyqueue) ⊎ (h ≡ keyboardqueue)
  three_heads h e = ground (arith, tasked-state k (h - 200), e)

  loose : (j : ℕ) → 13 ≤ j → j < nr_tasks → IsRunning first start_map j
  loose j lo hi = record {
    in_table = hi;
    loose = (ground (arith, hi), λ h hh. ground (arith, entry_bound h (task_list j)));
    runs = tasked-estado k j (zeroed j);
  }

  first-Shape : Shape first start_map
  first-Shape = record {
    queues = record {
      queue = λ h hh. rw (tasked-links k) (start_links-IsQueue k.links h (three_heads h hh));
      not_head = λ h a hh e. ground (arith, entry_bound h a e);
      apart = λ h l a hh hl e f. ground (arith, entry_bound h a e, entry_bound l a f);
    };
    member = λ h a hh e. ground (arith, entry_bound h a e);
    queued = λ h j hh ne e. absurd (ne (entry_bound h (task_list j) e).0);
    idle = λ out.
        subst (IsRunning first start_map) (sym (tasked-idle_task k))
          (loose 14 (omega arith) (omega arith));
  }

  -- `main`, from a memory of zeros, where the state of each task is 0 (ST_RUN), makes lists and
  -- states well formed: tasks 12 to 0 are free, in this order, no task waits, task 13 is current
  -- and task 14 is the idle task.
  pub start-Valid :
      Valid (start k) start_map × ((start k).running ≡ 13) × ((start k).idle_task ≡ 14)
  start-Valid = rw (start-tasked k) (
    record { shape = first-Shape; current = loose 13 (omega arith) (omega arith) },
    refl,
    tasked-idle_task k,
  )
