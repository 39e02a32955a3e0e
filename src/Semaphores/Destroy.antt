-- ===== src/Semaphores/Destroy.antt =====
-- `sys_sem_destroy`: its loop ends, and everybody who waited becomes ready.
use so2fib.Common.{
  ℕ, zero, suc, ◌-◌, ◌≤◌, ◌<◌, ◌≡◌, refl, ◌≢◌, true, false, List, [], ◌∷◌, ◌++◌, update, arith, sym,
  ◌∙◌, subst, some, ℤ, pos, neg, ap, length, has, append_assoc, append-nil, fun_ext, if◌then◌else◌,
  update-id, length-le_of_Distinct, eqb_ℤ-of_eq,
}
use so2fib.LinkedList.{Addr}
use so2fib.Task.{is_free_sem}
use so2fib.Kernel.{
  Kernel, nr_tasks, task_list, readyqueue, blocked_queue, is_head, set_task, set_sem, current,
}
use so2fib.Sched.{update_process_state_rr}
use so2fib.Sched.Place.{update_process_state_rr-rest}
use so2fib.Sched.Shape.{QueueMap, IsRunning, Valid}
use so2fib.Sched.Next.{SameLists, IsRunning-same, Shape-same}
use so2fib.Sched.Wake.{wake_map, wake-Valid}
use so2fib.Semaphores.Wait.{cerca_sem-found, is_head-blocked_queue}
use so2fib.Semaphores.{
  returns, release_all, release_fuel, forget, cerca_sem, destroy_at, sys_sem_destroy,
}
use so2fib.Semaphores.Signal.{empty_of_nil, empty_of_cons, first_of_cons}

-- The lists after all of `ts` have left the list of `h` for the end of `readyqueue`.
abbrev pub release_map : QueueMap → Addr → List Addr → QueueMap
release_map q h ts = update (update q h []) readyqueue (q readyqueue ++ ts)

release_map-step :
    (q : QueueMap) (h : Addr) (t : ℕ) (rs : List Addr)
    → h ≢ readyqueue
    → release_map (wake_map q h rs t) h rs ≡ release_map q h (task_list t ∷ rs)
release_map-step q h t rs ne =
    fun_ext (λ l. ground (arith, append_assoc (q readyqueue) (task_list t ∷ []) rs))

release_map-nil : (q : QueueMap) (h : Addr) → q h ≡ [] → release_map q h [] ≡ q
release_map-nil q h e =
    ap (λ f. update f readyqueue (q readyqueue ++ [])) (update-id q h [] e)
    ∙ update-id q readyqueue (q readyqueue ++ []) (sym (append-nil (q readyqueue)))

-- What the loop has done to the kernel `k` when it leaves `k'`, with `ts` waiting at the start.
pub record Released (k : Kernel) (q : QueueMap) (h : Addr) (ts : List Addr) (k' : Kernel)
    : Type 0 where
  pub valid : Valid k' (release_map q h ts)
  pub running : k'.running ≡ k.running
  pub semaphores : k'.semaphores ≡ k.semaphores
  pub sem_ret :
      (j : ℕ) → (k'.task j).sem_ret ≡ (if has (task_list j) ts then neg 1 else (k.task j).sem_ret)

-- `tsUnblock->sem_ret = -1`
abbrev pub failed : ℕ → Kernel → Kernel
failed t k = set_task t (λ p. record p { sem_ret = neg 1 }) k

pub failed-Valid : {k : Kernel} {q : QueueMap} (t : ℕ) → Valid k q → Valid (failed t k) q
failed-Valid {k} t v =
    let same : SameLists k (failed t k) = record {
      links = refl;
      heads = refl;
      idle = refl;
      estado = λ j. ground arith;
    } in
    record { shape = Shape-same same v.shape; current = IsRunning-same same v.current }

sem_ret-update :
    (t h : Addr) (k : Kernel) (j : ℕ)
    → ((update_process_state_rr t h k).task j).sem_ret ≡ (k.task j).sem_ret
unfolding update_process_state_rr
sem_ret-update t h k j = ground arith

-- One round of the loop, for the task `t`.
abbrev round : ℕ → Kernel → Kernel
round t k = update_process_state_rr t readyqueue (failed t k)

Released-round :
    {k k' : Kernel} {q : QueueMap} {h : Addr} (t : ℕ) (rs : List Addr)
    → h ≢ readyqueue
    → Released (round t k) (wake_map q h rs t) h rs k'
    → Released k q h (task_list t ∷ rs) k'
Released-round {k} {k'} {q} {h} t rs ne r =
    let kept = update_process_state_rr-rest t readyqueue (failed t k) in
    record {
      valid = subst (Valid k') (release_map-step q h t rs ne) r.valid;
      running = r.running ∙ kept.0;
      semaphores = r.semaphores ∙ kept.2;
      sem_ret = λ j. ground (arith, r.sem_ret j, sem_ret-update t readyqueue (failed t k) j);
    }

module _ (i : ℕ) where
  pub release_all-Released :
      (fuel : ℕ) (k : Kernel) (q : QueueMap) (ts : List Addr)
      → Valid k q
      → is_head k.semaphores (blocked_queue i) ≡ true
      → q (blocked_queue i) ≡ ts
      → length ts < fuel
      → (k' : Kernel) × (release_all fuel i k ≡ some k') × Released k q (blocked_queue i) ts k'
  unfolding release_all
  release_all-Released zero k q ts v hh e f = absurd (omega arith)
  release_all-Released (suc fuel) k q [] v hh e f = (
    k,
    rw (empty_of_nil v (blocked_queue i) hh e),
    record {
      valid = subst (Valid k) (sym (release_map-nil q (blocked_queue i) e)) v;
      running = refl;
      semaphores = refl;
      sem_ret = λ j. refl;
    },
  )
  release_all-Released (suc fuel) k q (a ∷ rs) v hh e f =
      let h = blocked_queue i in
      let t = a - 1 in
      let (low, _) = v.shape.member h a hh (rw e (ground arith)) in
      let at : task_list t ≡ a = omega arith in
      let e_t : q h ≡ task_list t ∷ rs = e ∙ ap (λ b. b ∷ rs) (sym at) in
      let v_1 = wake-Valid (failed-Valid t v) h [] t rs hh (omega arith) e_t in
      let kept = update_process_state_rr-rest t readyqueue (failed t k) in
      let (k', done, r) =
        release_all-Released fuel (round t k) (wake_map q h rs t) rs v_1
          (subst (λ sems. is_head sems h ≡ true) (sym kept.2) hh) (ground arith) (omega arith) in
      (
        k',
        rw (empty_of_cons v h hh e, first_of_cons v h hh e_t) done,
        subst (λ b. Released k q h (b ∷ rs) k') at (Released-round t rs (omega arith) r),
      )

-- A used semaphore becomes free, so its list is no longer the kernel's.
forget_head :
    (k : Kernel) (i h : Addr)
    → is_head (set_sem i forget k).semaphores h ≡ true
    → is_head k.semaphores h ≡ true
forget_head k i h e = ground (arith, e)

forget-IsRunning :
    {k : Kernel} {q : QueueMap} {j : ℕ} (i : ℕ)
    → IsRunning k q j
    → IsRunning (set_sem i forget k) q j
forget-IsRunning {k} {q} {j} i r = record {
  in_table = r.in_table;
  loose = (
    ground (arith, r.loose.0, forget_head k i (task_list j)),
    λ h hh. r.loose.1 h (forget_head k i h hh),
  );
  runs = r.runs;
}

forget-Valid : {k : Kernel} {q : QueueMap} (i : ℕ) → Valid k q → Valid (set_sem i forget k) q
forget-Valid {k} {q} i v =
    let qs = v.shape.queues in
    record {
      shape = record {
        queues = record {
          queue = λ h hh. qs.queue h (forget_head k i h hh);
          not_head = λ h a hh i_in.
              ground (arith, qs.not_head h a (forget_head k i h hh) i_in, forget_head k i a);
          apart = λ h l a hh hl. qs.apart h l a (forget_head k i h hh) (forget_head k i l hl);
        };
        member = λ h a hh. v.shape.member h a (forget_head k i h hh);
        queued = λ h j hh. v.shape.queued h j (forget_head k i h hh);
        idle = λ out. forget-IsRunning i (v.shape.idle out);
      };
      current = forget-IsRunning i v.current;
    }

-- The list of a semaphore holds no more tasks than there are.
waiting_bound :
    {k : Kernel} {q : QueueMap} (h : Addr)
    → Valid k q
    → is_head k.semaphores h ≡ true
    → length (q h) ≤ nr_tasks
waiting_bound {q} h v hh =
    length-le_of_Distinct nr_tasks (q h) (v.shape.queues.queue h hh).distinct.1
      (λ a. v.shape.member h a hh)

-- The kernel that the owner's call leaves, for semaphore `i` with `ts` in its list.
pub record Destroyed (k : Kernel) (q : QueueMap) (i : ℕ) (ts : List Addr) (k' : Kernel)
    : Type 0 where
  pub valid : Valid k' (release_map q (blocked_queue i) ts)
  pub running : k'.running ≡ k.running
  pub sem_ret :
      (j : ℕ) → (k'.task j).sem_ret ≡ (if has (task_list j) ts then neg 1 else (k.task j).sem_ret)
  pub is_free : is_free_sem (k'.semaphores i).state ≡ true
  pub no_number : (k'.semaphores i).n_sem ≡ neg 1
  pub no_owner : (k'.semaphores i).owner ≡ pos 0
  pub others : (j : ℕ) → j ≢ i → k'.semaphores j ≡ k.semaphores j

Released-Destroyed :
    {k k' : Kernel} {q : QueueMap} (i : ℕ) (ts : List Addr)
    → Released k q (blocked_queue i) ts k'
    → Destroyed k q i ts (set_sem i forget k')
Released-Destroyed i ts r = record {
  valid = forget-Valid i r.valid;
  running = r.running;
  sem_ret = r.sem_ret;
  is_free = ground arith;
  no_number = ground arith;
  no_owner = ground arith;
  others = λ j ne. ground (arith, ap (λ f. f j) r.semaphores);
}

-- What the owner's `sys_sem_destroy` does: it returns 0 (its loop ends), all who waited are ready
-- behind those that were, in their order and with `sem_ret = -1`, and the semaphore is free, with
-- the number -1 and the owner 0; the current task goes on, and the other semaphores stay.
pub sys_sem_destroy-Released :
    (k : Kernel) (q : QueueMap) (n_sem : ℤ) {i : ℕ}
    → Valid k q
    → cerca_sem n_sem k.semaphores ≡ some i
    → (k.semaphores i).owner ≡ (k.task k.running).pid
    → (k' : Kernel) × (sys_sem_destroy n_sem k ≡ some (returns (pos 0), k'))
      × Destroyed k q i (q (blocked_queue i)) k'
unfolding sys_sem_destroy destroy_at current
sys_sem_destroy-Released k q n_sem {i} v at own =
    let (lt, _, in_use) = cerca_sem-found k.semaphores n_sem at in
    let hh = is_head-blocked_queue k.semaphores i lt in_use in
    let (k', done, r) =
      release_all-Released i release_fuel k q (q (blocked_queue i)) v hh refl
        (omega (arith, waiting_bound (blocked_queue i) v hh)) in
    let used : is_free_sem (k.semaphores i).state ≡ false = ground arith in
    let owner = eqb_ℤ-of_eq (k.semaphores i).owner (k.task k.running).pid own in
    (
      set_sem i forget k',
      rw (at, sys_sem_destroy) (rw (used, owner, done, destroy_at)),
      Released-Destroyed i (q (blocked_queue i)) r,
    )
