-- ===== src/Semaphores/Wait.antt =====
-- `sys_sem_wait`: what the caller gets, and who runs.
use so2fib.Common.{
  ℕ, ◌-◌, ◌<◌, ◌≡◌, refl, ◌≢◌, inl, true, false, [], ◌∷◌, ◌++◌, update, arith, ◌∙◌, subst, some, ℤ,
  pos, ◌-ℤ◌, leb_ℤ, ap, not,
}
use so2fib.Task.{Semaphore, used_sem, is_free_sem}
use so2fib.Kernel.{
  Kernel, nr_semaphores, task_list, blocked_queue, is_head, current, set_task, set_sem,
}
use so2fib.Sched.Shape.{QueueMap, Valid}
use so2fib.Sched.Next.{SameLists, IsRunning-same, Shape-same, dequeue, next_task, sched_next_rr_lem}
use so2fib.Sched.Rotate.{exit_run_current-Shape, idle_task-exit_run_current}
use so2fib.Semaphores.{returns, switched, cerca_sem, sys_sem_wait, wait_at}
use so2fib.Semaphores.Search.{Search, cerca_sem-Search, Search-found, Names}

-- What `cerca_sem` says of the semaphore that it returns.
pub cerca_sem-found :
    (sems : ℕ → Semaphore) (n_sem : ℤ) {i : ℕ}
    → cerca_sem n_sem sems ≡ some i
    → (i < nr_semaphores) × ((sems i).n_sem ≡ n_sem) × ((sems i).state ≡ used_sem)
cerca_sem-found sems n_sem e =
    let (_, lt, names) =
      Search-found
        (subst (Search (Names sems n_sem) 0 nr_semaphores) e (cerca_sem-Search sems n_sem)) in
    (lt, names.0, names.1)

-- The list of a used semaphore is one of the kernel's.
pub is_head-blocked_queue :
    (sems : ℕ → Semaphore) (i : ℕ)
    → i < nr_semaphores
    → (sems i).state ≡ used_sem
    → is_head sems (blocked_queue i) ≡ true
is_head-blocked_queue sems i lt used =
    let at : blocked_queue i - 200 ≡ i = omega arith in
    let in_use : not (is_free_sem (sems (blocked_queue i - 200)).state) ≡ true =
      rw at (ground arith) in
    ground (arith, in_use)

-- The kernel with `sem_ret = 0` in the caller's task.
abbrev pub cleared : Kernel → Kernel
cleared k = set_task (current k) (λ p. record p { sem_ret = pos 0 }) k

module _ (k : Kernel) (n_sem : ℤ) {i : ℕ} (at : cerca_sem n_sem k.semaphores ≡ some i) where
  used : (is_free_sem (k.semaphores i).state) ≡ false
  used = ground (arith, cerca_sem-found k.semaphores n_sem at)

  wait_at-eq : sys_sem_wait n_sem k ≡ wait_at i k
  unfolding sys_sem_wait
  wait_at-eq = rw (at, sys_sem_wait)

  -- A semaphore with a positive counter lets the caller through, one less.
  pub sys_sem_wait-takes :
      leb_ℤ (k.semaphores i).counter (pos 0) ≡ false
      → sys_sem_wait n_sem k
        ≡ (returns (pos 0), set_sem i (λ s. record s { counter = s.counter -ℤ pos 1 }) (cleared k))
  unfolding wait_at
  sys_sem_wait-takes more = rw (wait_at-eq, used, more)

  -- At any other the caller goes behind those that wait for it, and another task runs.
  pub sys_sem_wait-blocks :
      {q : QueueMap}
      → Valid k q
      → k.running ≢ k.idle_task
      → leb_ℤ (k.semaphores i).counter (pos 0) ≡ true
      → let h = blocked_queue i in
        let waiting = update q h (q h ++ task_list k.running ∷ []) in
        let (out, k') = sys_sem_wait n_sem k in
        (out ≡ switched) × Valid k' (dequeue waiting) × (k'.running ≡ next_task waiting k.idle_task)
  unfolding wait_at current
  sys_sem_wait-blocks {q} v user closed =
      let (lt, _, in_use) = cerca_sem-found k.semaphores n_sem at in
      let hh = is_head-blocked_queue k.semaphores i lt in_use in
      let same : SameLists k (cleared k) = record {
        links = refl;
        heads = refl;
        idle = refl;
        estado = λ j. ground arith;
      } in
      let v_1 : Valid (cleared k) q = record {
        shape = Shape-same same v.shape;
        current = IsRunning-same same v.current;
      } in
      let away = exit_run_current-Shape (blocked_queue i) hh v_1 (inl user) in
      let (v_2, r) = sched_next_rr_lem away in
      rw (wait_at-eq, used, closed)
        (
          refl,
          v_2,
          r
              ∙ ap
                  (next_task
                    (update q (blocked_queue i) (q (blocked_queue i) ++ task_list k.running ∷ [])))
                  (idle_task-exit_run_current (blocked_queue i) (cleared k)),
        )
