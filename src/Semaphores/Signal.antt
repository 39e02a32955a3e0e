-- ===== src/Semaphores/Signal.antt =====
-- `sys_sem_signal`: the counter grows, or the first task that waits becomes ready.
use so2fib.Common.{ℕ, ◌≡◌, refl, true, false, List, [], ◌∷◌, arith, ◌∙◌, some, ℤ, pos, ◌+ℤ◌, ap}
use so2fib.LinkedList.{Addr, list_empty, list_first}
use so2fib.LinkedList.Seg.{first}
use so2fib.LinkedList.Queue.{list_empty_iff, list_first-IsQueue}
use so2fib.Task.{is_free_sem}
use so2fib.Kernel.{
  Kernel, task_list, readyqueue, blocked_queue, is_head, set_sem, list_head_to_task_struct,
}
use so2fib.Sched.Shape.{QueueMap, Valid}
use so2fib.Sched.Place.{update_process_state_rr-rest}
use so2fib.Sched.Next.{list_head_to_task_struct-task_list}
use so2fib.Sched.Wake.{wake_map, wake-Valid}
use so2fib.Semaphores.{returns, cerca_sem, sys_sem_signal, signal_at}
use so2fib.Semaphores.Wait.{cerca_sem-found, is_head-blocked_queue}

module _ {k : Kernel} {q : QueueMap} (v : Valid k q) (h : Addr)
    (hh : is_head k.semaphores h ≡ true) where
  pub empty_of_nil : q h ≡ [] → list_empty h k.links ≡ true
  empty_of_nil e = (list_empty_iff (q h) (v.shape.queues.queue h hh)).1 e

  pub empty_of_cons : {a : Addr} {rs : List Addr} → q h ≡ a ∷ rs → list_empty h k.links ≡ false
  empty_of_cons e = ground (arith, list_empty_iff (q h) (v.shape.queues.queue h hh))

  pub first_of_cons :
      {t : ℕ} {rs : List Addr}
      → q h ≡ task_list t ∷ rs
      → list_head_to_task_struct (list_first h k.links) ≡ t
  first_of_cons {t} e =
      ap list_head_to_task_struct
        (list_first-IsQueue (q h) (v.shape.queues.queue h hh) ∙ ap (λ xs. first xs h) e)
      ∙ list_head_to_task_struct-task_list t

module _ (k : Kernel) (n_sem : ℤ) {i : ℕ} (at : cerca_sem n_sem k.semaphores ≡ some i)
    {q : QueueMap} (v : Valid k q) where
  used : (is_free_sem (k.semaphores i).state) ≡ false
  used = ground (arith, cerca_sem-found k.semaphores n_sem at)

  head : is_head k.semaphores (blocked_queue i) ≡ true
  head =
      let (lt, _, in_use) = cerca_sem-found k.semaphores n_sem at in
      is_head-blocked_queue k.semaphores i lt in_use

  signal_at-eq : sys_sem_signal n_sem k ≡ signal_at i k
  unfolding sys_sem_signal
  signal_at-eq = rw (at, sys_sem_signal)

  -- With nobody waiting, a signal adds one to the counter and does no more.
  pub sys_sem_signal-counts :
      q (blocked_queue i) ≡ []
      → sys_sem_signal n_sem k
        ≡ (returns (pos 0), set_sem i (λ s. record s { counter = s.counter +ℤ pos 1 }) k)
  unfolding signal_at
  sys_sem_signal-counts e = rw (signal_at-eq, used, empty_of_nil v (blocked_queue i) head e)

  -- Otherwise the first task that waits becomes ready, behind the others that are, and the counter
  -- stays.
  pub sys_sem_signal-wakes :
      (t : ℕ) (rs : List Addr)
      → q (blocked_queue i) ≡ task_list t ∷ rs
      → let (out, k') = sys_sem_signal n_sem k in
        (out ≡ returns (pos 0))
        × Valid k' (wake_map q (blocked_queue i) rs t)
        × (k'.running ≡ k.running)
        × (k'.semaphores ≡ k.semaphores)
  unfolding signal_at
  sys_sem_signal-wakes t rs e =
      let kept = update_process_state_rr-rest t readyqueue k in
      rw
        (
          signal_at-eq,
          used,
          empty_of_cons v (blocked_queue i) head e,
          first_of_cons v (blocked_queue i) head e,
        )
        (refl, wake-Valid v (blocked_queue i) [] t rs head (omega arith) e, kept.0, kept.2)
