-- ===== src/Steps/Calls.antt =====
-- `sys_sem_signal` and `sys_sem_wait` keep lists, states and semaphores well formed, on all their
-- branches.
use so2fib.Common.{
  ℕ, ◌≡◌, ◌≢◌, refl, ◌∙◌, sym, inl, inr, arith, true, false, Bool-cases, Option-cases, some, ℤ, pos,
  [], ◌==◌, ==-eq, subst, ◌-ℤ◌, ◌+ℤ◌, leb_ℤ, fun_ext,
}
use so2fib.Task.{is_free_sem}
use so2fib.Kernel.{Kernel, blocked_queue, is_head, set_sem, current}
use so2fib.Sched.Shape.{QueueMap, Valid}
use so2fib.Sched.Sems.{semaphores-sched_next_rr, semaphores-exit_run_current}
use so2fib.Sched.Wake.{wake_map}
use so2fib.Semaphores.{wait_at, cerca_sem, sys_sem_wait, sys_sem_signal}
use so2fib.Semaphores.Signal.{sys_sem_signal-counts, sys_sem_signal-wakes}
use so2fib.Semaphores.Wait.{
  cerca_sem-found, is_head-blocked_queue, cleared, sys_sem_wait-takes, sys_sem_wait-blocks,
}
use so2fib.Steps.Front.{
  IsClosed, IsConsistent, same-IsClosed, shut-IsClosed, waited-shut, same-Valid, Front, nobody,
  somebody, front,
}

-- A change of one semaphore's counter, which stays closed if nobody waits.
abbrev recount : ℕ → (ℤ → ℤ) → Kernel → Kernel
recount i f k = set_sem i (λ s. record s { counter = f s.counter }) k

counter-Valid :
    {k : Kernel} {q : QueueMap} (i : ℕ) (f : ℤ → ℤ) → Valid k q → Valid (recount i f k) q
counter-Valid {k} i f v =
    same-Valid
      (record {
        links = refl;
        heads = fun_ext (λ h. ground arith);
        idle = refl;
        estado = λ j. refl;
      })
      refl v

counter-IsClosed :
    {k : Kernel} {q : QueueMap} (i : ℕ) (f : ℤ → ℤ)
    → q (blocked_queue i) ≡ []
    → IsClosed k q
    → IsClosed (recount i f k) q
counter-IsClosed {k} {q} i f nobody_there c = record {
  nobody_waits = λ j lt used more. elim (Bool-cases (j == i)) [
    | inl e ↦ subst (λ n. q (blocked_queue n) ≡ []) (sym (==-eq j i e)) nobody_there
    | inr ne ↦ c.nobody_waits j lt (ground (arith, used)) (ground (arith, more))
  ];
}

signal-Front :
    {k : Kernel} (n_sem : ℤ) {i : ℕ}
    → cerca_sem n_sem k.semaphores ≡ some i
    → (c : IsConsistent k) → Front c.lists (blocked_queue i)
    → IsConsistent (sys_sem_signal n_sem k).1
signal-Front {k} n_sem {i} at c (nobody n) =
    rw (sys_sem_signal-counts k n_sem at c.valid n) (record {
      lists = c.lists;
      valid = counter-Valid i (λ n. n +ℤ pos 1) c.valid;
      closed = counter-IsClosed i (λ n. n +ℤ pos 1) n c.closed;
    })
signal-Front {k} n_sem {i} at c (somebody t rs e) =
    let (_, v', _, same) = sys_sem_signal-wakes k n_sem at c.valid t rs e in
    let (lt, _, in_use) = cerca_sem-found k.semaphores n_sem at in
    record {
      lists = wake_map c.lists (blocked_queue i) rs t;
      valid = v';
      closed =
          shut-IsClosed i same (waited-shut i t rs c.closed lt (ground arith) e)
            (λ j low ne. ground arith) c.closed;
    }

-- The list of the semaphore that `cerca_sem` returns.
found_head :
    (k : Kernel) (n_sem : ℤ) {i : ℕ}
    → cerca_sem n_sem k.semaphores ≡ some i
    → is_head k.semaphores (blocked_queue i) ≡ true
found_head k n_sem {i} at =
    let (lt, _, in_use) = cerca_sem-found k.semaphores n_sem at in
    is_head-blocked_queue k.semaphores i lt in_use

pub sys_sem_signal-IsConsistent :
    {k : Kernel} (n_sem : ℤ) → IsConsistent k → IsConsistent (sys_sem_signal n_sem k).1
unfolding sys_sem_signal
sys_sem_signal-IsConsistent {k} n_sem c = elim (Option-cases (cerca_sem n_sem k.semaphores)) [
  | inl e ↦ rw (e, sys_sem_signal) c
  | inr (i, e) ↦ signal-Front n_sem e c (front (blocked_queue i) c.valid (found_head k n_sem e))
]

cleared-Valid : {k : Kernel} {q : QueueMap} → Valid k q → Valid (cleared k) q
cleared-Valid v =
    same-Valid (record { links = refl; heads = refl; idle = refl; estado = λ j. ground arith }) refl
      v

-- A call that blocks touches no semaphore.
wait_at-semaphores :
    (k : Kernel) (n_sem : ℤ) {i : ℕ}
    → cerca_sem n_sem k.semaphores ≡ some i
    → leb_ℤ (k.semaphores i).counter (pos 0) ≡ true
    → (sys_sem_wait n_sem k).1.semaphores ≡ k.semaphores
unfolding sys_sem_wait wait_at current
wait_at-semaphores k n_sem {i} at shut =
    let (_, _, in_use) = cerca_sem-found k.semaphores n_sem at in
    let used : is_free_sem (k.semaphores i).state ≡ false = ground arith in
    rw (at, sys_sem_wait, used, shut)
      (semaphores-sched_next_rr _ ∙ semaphores-exit_run_current (blocked_queue i) (cleared k))

pub sys_sem_wait-IsConsistent :
    {k : Kernel} (n_sem : ℤ)
    → k.running ≢ k.idle_task
    → IsConsistent k
    → IsConsistent (sys_sem_wait n_sem k).1
unfolding sys_sem_wait
sys_sem_wait-IsConsistent {k} n_sem user c = elim (Option-cases (cerca_sem n_sem k.semaphores)) [
  | inl e ↦ rw (e, sys_sem_wait) c
  | inr (i, e) ↦ elim (Bool-cases (leb_ℤ (k.semaphores i).counter (pos 0))) [
    | inl shut ↦
        let (_, v', _) = sys_sem_wait-blocks k n_sem e c.valid user shut in
        record {
          lists = _;
          valid = v';
          closed =
              shut-IsClosed i (wait_at-semaphores k n_sem e shut) shut (λ j low ne. ground arith)
                c.closed;
        }
    | inr more ↦
        let (lt, _, in_use) = cerca_sem-found k.semaphores n_sem e in
        let nobody_there = c.closed.nobody_waits i lt (ground (arith, in_use)) more in
        rw (sys_sem_wait-takes k n_sem e more) (record {
          lists = c.lists;
          valid = counter-Valid i (λ n. n -ℤ pos 1) (cleared-Valid c.valid);
          closed =
              counter-IsClosed i (λ n. n -ℤ pos 1) nobody_there
                (same-IsClosed refl (λ j low. refl) c.closed);
        })
  ]
]
