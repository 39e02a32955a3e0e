-- ===== src/Isolation/Sems.antt =====
-- The semaphore calls leave the memory alone.
use so2fib.Common.{
  ℕ, zero, suc, ◌≡◌, ◌≢◌, refl, ◌∙◌, ap, sym, true, false, [], arith, subst, Bool-cases,
  Option-cases, inl, inr, Option, none, some, ℤ, pos, neg, leb_ℤ, eqb_ℤ,
}
use so2fib.LinkedList.{list_empty, list_first}
use so2fib.Task.{is_free_sem}
use so2fib.Kernel.{
  Kernel, readyqueue, blocked_queue, is_head, set_sem, set_task, list_head_to_task_struct, current,
}
use so2fib.Sched.{update_process_state_rr}
use so2fib.Sched.Shape.{QueueMap, Valid}
use so2fib.Sched.Place.{update_process_state_rr-rest}
use so2fib.Sched.Wake.{wake_map, wake-Valid}
use so2fib.Sched.Rotate.{exit_run_current-Shape}
use so2fib.Semaphores.{
  Outcome, returns, einval, forget, release_all, release_fuel, cerca_sem, cerca_sem_lliure,
  destroy_at, signal_at, wait_at, sys_sem_init, sys_sem_wait, sys_sem_signal, sys_sem_destroy,
}
use so2fib.Semaphores.Destroy.{failed, failed-Valid}
use so2fib.Semaphores.Wait.{cerca_sem-found, is_head-blocked_queue}
use so2fib.Semaphores.Signal.{empty_of_nil, empty_of_cons, first_of_cons}
use so2fib.Steps.Owners.{kernel_of, destroy_at-refused}
use so2fib.Steps.Front.{same-Valid, Front, nobody, somebody, front}
use so2fib.Isolation.{Still, Still-refl, Still-trans, rest-Still, task-Still}
use so2fib.Isolation.Sched.{
  alive-running, alive-queued, update-Still, sched_next_rr-Still, exit_run_current-Still,
}
use so2fib.Isolation.Calls.{alive-first}

pub sys_sem_init-Still :
    (n_sem : ℤ) (value : ℕ) (k : Kernel) → Still k (sys_sem_init n_sem value k).1
unfolding sys_sem_init
sys_sem_init-Still n_sem value k = elim (Option-cases (cerca_sem n_sem k.semaphores)) [
  | inr (i, at) ↦ rw (at, sys_sem_init) (Still-refl k)
  | inl unknown ↦ elim (Option-cases (cerca_sem_lliure k.semaphores)) [
    | inl full ↦ rw (unknown, full, sys_sem_init) (Still-refl k)
    | inr (i, at) ↦ rw (unknown, at, sys_sem_init) (rest-Still k)
  ]
]

module _ {k : Kernel} {q : QueueMap} (v : Valid k q) (n_sem : ℤ) where
  -- The list of a semaphore that was found.
  list_of :
      {i : ℕ}
      → cerca_sem n_sem k.semaphores ≡ some i
      → is_head k.semaphores (blocked_queue i) ≡ true
  list_of {i} at =
      let (lt, _, in_use) = cerca_sem-found k.semaphores n_sem at in
      is_head-blocked_queue k.semaphores i lt in_use

  signal_at-Still :
      (i : ℕ) → is_head k.semaphores (blocked_queue i) ≡ true → Still k (signal_at i k).1
  unfolding signal_at
  signal_at-Still i hh =
      let t = list_head_to_task_struct (list_first (blocked_queue i) k.links) in
      elim (Bool-cases (is_free_sem (k.semaphores i).state)) [
        | inl unused ↦ rw unused (Still-refl k)
        | inr used ↦ elim (Bool-cases (list_empty (blocked_queue i) k.links)) [
          | inl nobody_waits ↦ rw (used, nobody_waits) (rest-Still k)
          | inr some_wait ↦
              rw (used, some_wait)
                (update-Still t readyqueue k (
                  alive-first (blocked_queue i) v hh (omega arith) (front (blocked_queue i) v hh)
                    some_wait))
        ]
      ]

  pub sys_sem_signal-Still : Still k (sys_sem_signal n_sem k).1
  unfolding sys_sem_signal
  sys_sem_signal-Still = elim (Option-cases (cerca_sem n_sem k.semaphores)) [
    | inl e ↦ rw (e, sys_sem_signal) (Still-refl k)
    | inr (i, e) ↦ rw (e, sys_sem_signal) (signal_at-Still i (list_of e))
  ]

  wait_at-Still :
      (i : ℕ)
      → is_head k.semaphores (blocked_queue i) ≡ true
      → k.running ≢ k.idle_task
      → Still k (wait_at i k).1
  unfolding wait_at current
  wait_at-Still i hh user =
      let k_1 = set_task k.running (λ p. record p { sem_ret = pos 0 }) k in
      let cleared : Still k k_1 =
        task-Still k.running (λ p. record p { sem_ret = pos 0 }) k (alive-running k) refl refl
          refl in
      let v_1 : Valid k_1 q =
        same-Valid (record { links = refl; heads = refl; idle = refl; estado = λ j. ground arith })
          refl v in
      elim (Bool-cases (is_free_sem (k.semaphores i).state)) [
        | inl unused ↦ rw unused (Still-refl k)
        | inr used ↦ elim (Bool-cases (leb_ℤ (k.semaphores i).counter (pos 0))) [
          | inr more ↦ rw (used, more) (Still-trans cleared (rest-Still k_1))
          | inl shut ↦
              rw (used, shut)
                (Still-trans cleared (
                  Still-trans (exit_run_current-Still (blocked_queue i) k_1) (
                    sched_next_rr-Still
                      (exit_run_current-Shape (blocked_queue i) hh v_1 (inl user)))))
        ]
      ]

  pub sys_sem_wait-Still : k.running ≢ k.idle_task → Still k (sys_sem_wait n_sem k).1
  unfolding sys_sem_wait
  sys_sem_wait-Still user = elim (Option-cases (cerca_sem n_sem k.semaphores)) [
    | inl e ↦ rw (e, sys_sem_wait) (Still-refl k)
    | inr (i, e) ↦ rw (e, sys_sem_wait) (wait_at-Still i (list_of e) user)
  ]

abbrev else_kernel : Kernel → Option Kernel → Kernel
else_kernel k none = k
else_kernel k (some k') = k'

-- Every round of the loop wakes a task that is alive.
module _ (i : ℕ) where
  release_all-Front :
      (fuel : ℕ) (k k' : Kernel) (q : QueueMap)
      → Valid k q
      → is_head k.semaphores (blocked_queue i) ≡ true
      → Front q (blocked_queue i)
      → release_all fuel i k ≡ some k'
      → Still k k'
  unfolding release_all
  release_all-Front zero k k' q v hh f e = cc
  release_all-Front (suc fuel) k k' q v hh (nobody n) e =
      let done : release_all (suc fuel) i k ≡ some k = rw (empty_of_nil v (blocked_queue i) hh n) in
      subst (Still k) (ap (λ r. else_kernel k r) (sym done ∙ e)) (Still-refl k)
  release_all-Front (suc fuel) k k' q v hh (somebody t rs at) e =
      let h = blocked_queue i in
      let k_1 = update_process_state_rr t readyqueue (failed t k) in
      let again : release_all (suc fuel) i k ≡ release_all fuel i k_1 =
        rw (empty_of_cons v h hh at, first_of_cons v h hh at) in
      let live = alive-queued h t v.shape hh (omega arith) (rw at (ground arith)) in
      let gone = task-Still t (λ p. record p { sem_ret = neg 1 }) k live refl refl refl in
      let live' =
        alive-queued h t (failed-Valid t v).shape hh (omega arith) (rw at (ground arith)) in
      let v_1 = wake-Valid (failed-Valid t v) h [] t rs hh (omega arith) at in
      let kept = update_process_state_rr-rest t readyqueue (failed t k) in
      let hh_1 = subst (λ sems. is_head sems h ≡ true) (sym kept.2) hh in
      Still-trans gone (
        Still-trans (update-Still t readyqueue (failed t k) live') (
          release_all-Front fuel k_1 k' (wake_map q h rs t) v_1 hh_1 (front h v_1 hh_1)
            (sym again ∙ e)))

Still-of : {k k' k'' : Kernel} → k'' ≡ k' → Still k k' → Still k k''
Still-of {k} e s = subst (Still k) (sym e) s

destroy_at-own :
    (k : Kernel) (i : ℕ) (r : Option Kernel)
    → is_free_sem (k.semaphores i).state ≡ false
    → eqb_ℤ (k.semaphores i).owner (k.task k.running).pid ≡ true
    → release_all release_fuel i k ≡ r
    → destroy_at i k
      ≡ elim r [ none ↦ none | some k_1 ↦ some (returns (pos 0), set_sem i forget k_1) ]
unfolding destroy_at current
destroy_at-own k i none used own e = rw (used, own, e)
destroy_at-own k i (some k_1) used own e = rw (used, own, e)

pub sys_sem_destroy-Still :
    {k k' : Kernel} {q : QueueMap} (n_sem : ℤ) (out : Outcome)
    → Valid k q
    → sys_sem_destroy n_sem k ≡ some (out, k')
    → Still k k'
unfolding sys_sem_destroy
sys_sem_destroy-Still {k} {k'} {q} n_sem out v e =
    elim (Option-cases (cerca_sem n_sem k.semaphores)) [
      | inl unknown ↦
          let no : sys_sem_destroy n_sem k ≡ some (returns einval, k) =
            rw (unknown, sys_sem_destroy) refl in
          Still-of (ap (kernel_of k) (sym e ∙ no)) (Still-refl k)
      | inr (i, at) ↦
          let (_, _, in_use) = cerca_sem-found k.semaphores n_sem at in
          let used : is_free_sem (k.semaphores i).state ≡ false = ground (arith, in_use) in
          let found : sys_sem_destroy n_sem k ≡ destroy_at i k = rw (at, sys_sem_destroy) refl in
          elim (Bool-cases (eqb_ℤ (k.semaphores i).owner (k.task k.running).pid)) [
            | inr other ↦
                Still-of (ap (kernel_of k) (sym e ∙ found ∙ destroy_at-refused k i used other))
                  (Still-refl k)
            | inl own ↦ elim (Option-cases (release_all release_fuel i k)) [
              | inl endless ↦ cc (sym e ∙ found ∙ destroy_at-own k i none used own endless)
              | inr (k_1, done) ↦
                  let hh = list_of v n_sem at in
                  Still-of
                    (ap (kernel_of k) (sym e ∙ found ∙ destroy_at-own k i (some k_1) used own done))
                    (Still-trans
                      (release_all-Front i release_fuel k k_1 q v hh (front (blocked_queue i) v hh)
                        done)
                      (rest-Still k_1))
            ]
          ]
    ]
