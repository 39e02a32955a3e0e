-- ===== src/Steps/Owners.antt =====
-- `sys_sem_init` and `sys_sem_destroy` keep lists, states and semaphores well formed, on all their
-- branches.
use so2fib.Common.{
  ℕ, ◌≡◌, ◌≢◌, refl, ◌∙◌, ap, sym, inl, inr, arith, true, false, Bool-cases, Option-cases, Option,
  none, some, ℤ, pos, List, ◌==◌, ==-eq, subst, eqb_ℤ, eqb_ℤ-eq, leb_ℤ,
}
use so2fib.LinkedList.{Addr}
use so2fib.Task.{is_free_sem, Semaphore}
use so2fib.Kernel.{Kernel, blocked_queue, current}
use so2fib.Sched.Shape.{QueueMap, Valid}
use so2fib.Semaphores.{
  Outcome, returns, stray, ebusy, einval, eperm, cerca_sem, cerca_sem_lliure, destroy_at,
  sys_sem_init, sys_sem_destroy,
}
use so2fib.Semaphores.Wait.{cerca_sem-found}
use so2fib.Semaphores.Destroy.{Destroyed, release_map, sys_sem_destroy-Released}
use so2fib.Semaphores.Init.{new_sem, opened, open_map, sys_sem_init-opens}
use so2fib.Steps.Front.{IsClosed, IsConsistent, IsConsistent-of}

stray-ne : (r : ℤ) → stray ≢ returns r
stray-ne r e = cc

-- A new semaphore has nobody waiting.
opened-IsClosed :
    {k : Kernel} {q : QueueMap} (i : ℕ) (s : Semaphore)
    → IsClosed k q
    → IsClosed (opened i s k) (open_map i q)
opened-IsClosed {k} {q} i s c = record {
  nobody_waits = λ j lt used more. elim (Bool-cases (j == i)) [
    | inl e ↦ ground (arith, ==-eq j i e)
    | inr ne ↦ ground (arith, c.nobody_waits j lt (ground (arith, used)) (ground (arith, more)))
  ];
}

pub sys_sem_init-IsConsistent :
    {k k' : Kernel} (n_sem : ℤ) (value : ℕ) (r : ℤ)
    → IsConsistent k
    → sys_sem_init n_sem value k ≡ (returns r, k')
    → IsConsistent k'
unfolding sys_sem_init
sys_sem_init-IsConsistent {k} {k'} n_sem value r c e =
    elim (Option-cases (cerca_sem n_sem k.semaphores)) [
      | inr (i, at) ↦
          let busy : sys_sem_init n_sem value k ≡ (returns ebusy, k) = rw (at, sys_sem_init) refl in
          IsConsistent-of (ap (λ p. p.1) (sym e ∙ busy)) c
      | inl unknown ↦ elim (Option-cases (cerca_sem_lliure k.semaphores)) [
        | inl full ↦
            let off : sys_sem_init n_sem value k ≡ (stray, k) =
              rw (unknown, full, sys_sem_init) refl in
            absurd (stray-ne r (ap (λ p. p.0) (sym off ∙ e)))
        | inr (i, at) ↦
            let s = new_sem n_sem value k in
            let opens : sys_sem_init n_sem value k ≡ (returns (pos 0), opened i s k) =
              rw (unknown, at, sys_sem_init) refl in
            let (k_1, eq, _, _, v', _) =
              sys_sem_init-opens k c.lists n_sem value c.valid unknown at in
            IsConsistent-of (ap (λ p. p.1) (sym e ∙ opens)) (record {
              lists = open_map i c.lists;
              valid =
                  subst (λ k_2. Valid k_2 (open_map i c.lists)) (ap (λ p. p.1) (sym eq ∙ opens)) v';
              closed = opened-IsClosed i s c.closed;
            })
      ]
    ]

-- The kernel in a result, or else `k`.
abbrev pub kernel_of : Kernel → Option (Outcome × Kernel) → Kernel
kernel_of k none = k
kernel_of k (some (out, k')) = k'

pub destroy_at-refused :
    (k : Kernel) (i : ℕ)
    → is_free_sem (k.semaphores i).state ≡ false
    → eqb_ℤ (k.semaphores i).owner (k.task k.running).pid ≡ false
    → destroy_at i k ≡ some (returns eperm, k)
unfolding destroy_at current
destroy_at-refused k i used other = rw (used, other) refl

-- A semaphore that is free again, whose tasks are ready.
Destroyed-IsClosed :
    {k k' : Kernel} {q : QueueMap} (i : ℕ) (ts : List Addr)
    → Destroyed k q i ts k'
    → IsClosed k q
    → IsClosed k' (release_map q (blocked_queue i) ts)
Destroyed-IsClosed {k} {k'} {q} i ts d c = record {
  nobody_waits = λ j lt used more. elim (Bool-cases (j == i)) [
    | inl e ↦
        let free : is_free_sem (k'.semaphores j).state ≡ true =
          ap (λ l. is_free_sem (k'.semaphores l).state) (==-eq j i e) ∙ d.is_free in
        cc (sym free ∙ used)
    | inr ne ↦
        let as_it_was = d.others j (ground arith) in
        let empty =
          c.nobody_waits j lt (sym (ap (λ s. is_free_sem s.state) as_it_was) ∙ ground (arith, used))
            (sym (ap (λ s. leb_ℤ s.counter (pos 0)) as_it_was) ∙ ground (arith, more)) in
        ground (arith, empty)
  ];
}

pub sys_sem_destroy-IsConsistent :
    {k k' : Kernel} (n_sem : ℤ) (out : Outcome)
    → IsConsistent k
    → sys_sem_destroy n_sem k ≡ some (out, k')
    → IsConsistent k'
unfolding sys_sem_destroy
sys_sem_destroy-IsConsistent {k} {k'} n_sem out c e =
    elim (Option-cases (cerca_sem n_sem k.semaphores)) [
      | inl unknown ↦
          let no : sys_sem_destroy n_sem k ≡ some (returns einval, k) =
            rw (unknown, sys_sem_destroy) refl in
          IsConsistent-of (ap (kernel_of k) (sym e ∙ no)) c
      | inr (i, at) ↦ elim (Bool-cases (eqb_ℤ (k.semaphores i).owner (k.task k.running).pid)) [
        | inl own ↦
            let (k_1, eq, d) =
              sys_sem_destroy-Released k c.lists n_sem c.valid at (eqb_ℤ-eq _ _ own) in
            IsConsistent-of (ap (kernel_of k) (sym e ∙ eq)) (record {
              lists = _;
              valid = d.valid;
              closed = Destroyed-IsClosed i (c.lists (blocked_queue i)) d c.closed;
            })
        | inr other ↦
            let (_, _, in_use) = cerca_sem-found k.semaphores n_sem at in
            let no : sys_sem_destroy n_sem k ≡ some (returns eperm, k) =
              rw (at, sys_sem_destroy) (destroy_at-refused k i (ground (arith, in_use)) other) in
            IsConsistent-of (ap (kernel_of k) (sym e ∙ no)) c
      ]
    ]
