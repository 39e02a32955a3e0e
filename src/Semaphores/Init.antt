-- ===== src/Semaphores/Init.antt =====
-- `sys_sem_init`: a new semaphore.
use so2fib.Common.{
  ℕ, ◌≤◌, ◌<◌, ◌≡◌, refl, ◌≢◌, true, [], update, arith, sym, subst, Option, none, some, ℤ, pos, ap,
  has, inl, inr, Bool-cases, ==-eq, ◌==◌, update_self,
}
use so2fib.LinkedList.{Addr, init_list_head}
use so2fib.LinkedList.Queue.{IsQueue, init_list_head-IsQueue}
use so2fib.LinkedList.Family.{IsQueue-frame}
use so2fib.Task.{Semaphore, used_sem}
use so2fib.Kernel.{
  Kernel, nr_semaphores, task_list, blocked_queue, is_head, set_sem, set_links, current,
}
use so2fib.Sched.Shape.{QueueMap, IsRunning, Shape, Valid}
use so2fib.Semaphores.{returns, to_int, cerca_sem, cerca_sem_lliure, sys_sem_init}
use so2fib.Semaphores.Search.{
  Search, found, missing, Names, IsFree, cerca_sem-Search, cerca_sem_lliure-Search, Search-found,
}

abbrev pub new_sem : ℤ → ℕ → Kernel → Semaphore
new_sem n_sem value k = record {
  state = used_sem;
  n_sem = n_sem;
  owner = (k.task (current k)).pid;
  counter = to_int value;
}

-- The kernel after semaphore `i` has become `s`, with an empty list.
abbrev pub opened : ℕ → Semaphore → Kernel → Kernel
opened i s k = set_links (init_list_head (blocked_queue i)) (set_sem i (λ _. s) k)

abbrev pub open_map : ℕ → QueueMap → QueueMap
open_map i q = update q (blocked_queue i) []

module _ {k : Kernel} {q : QueueMap} (i : ℕ) (s : Semaphore) (shape : Shape k q) where
  -- The new list is the only new one.
  old_head :
      (h : Addr)
      → is_head (opened i s k).semaphores h ≡ true
      → h ≢ blocked_queue i
      → is_head k.semaphores h ≡ true
  old_head h e ne = ground (arith, e)

  old_entry :
      (h a : Addr) → has a (open_map i q h) ≡ true → (h ≢ blocked_queue i) × (has a (q h) ≡ true)
  old_entry h a e = ground (arith, e)

  task_entry :
      (h a : Addr)
      → is_head (opened i s k).semaphores h ≡ true
      → has a (open_map i q h) ≡ true
      → (1 ≤ a) × (a ≤ 15)
  task_entry h a hh e = let (ne, old) = old_entry h a e in shape.member h a (old_head h hh ne) old

  init_list_head-ne :
      (a : Addr)
      → a ≢ blocked_queue i
      → ((opened i s k).links.next a ≡ k.links.next a)
        × ((opened i s k).links.prev a ≡ k.links.prev a)
  unfolding init_list_head
  init_list_head-ne a ne = ground arith

  opened-IsQueue :
      (h : Addr)
      → is_head (opened i s k).semaphores h ≡ true
      → IsQueue (opened i s k).links h (open_map i q h)
  opened-IsQueue h hh = elim (Bool-cases (h == blocked_queue i)) [
    | inl e ↦ rw e (
        subst (λ l. IsQueue (opened i s k).links l []) (sym (==-eq h (blocked_queue i) e))
          (init_list_head-IsQueue k.links (blocked_queue i)))
    | inr ne ↦
        let old = old_head h hh (ground arith) in
        rw ne (
          IsQueue-frame (opened i s k).links (shape.queues.queue h old)
            (λ a is. init_list_head-ne a (ground (arith, shape.member h a old))))
  ]

  opened-IsRunning : {j : ℕ} → IsRunning k q j → IsRunning (opened i s k) (open_map i q) j
  opened-IsRunning {j} r = record {
    in_table = r.in_table;
    loose = (ground (arith, r.in_table), λ h hh. ground (arith, r.loose.1 h, old_head h hh));
    runs = r.runs;
  }

  opened-Shape : Shape (opened i s k) (open_map i q)
  opened-Shape = record {
    queues = record {
      queue = opened-IsQueue;
      not_head = λ h a hh e. ground (arith, task_entry h a hh e);
      apart = λ h l a hh hl e f.
          let (ne, old) = old_entry h a e in
          let (ne', old') = old_entry l a f in
          shape.queues.apart h l a (old_head h hh ne) (old_head l hl ne') old old';
    };
    member = task_entry;
    queued = λ h j hh ne e.
        let (ne', old) = old_entry h (task_list j) e in shape.queued h j (old_head h hh ne') ne old;
    idle = λ out. opened-IsRunning (shape.idle (ground (arith, out)));
  }

module _ (sems : ℕ → Semaphore) (n_sem : ℤ) (i : ℕ) (s : Semaphore) (lt : i < nr_semaphores)
    (num : s.n_sem ≡ n_sem) (used : s.state ≡ used_sem) where
  old-Names : (j : ℕ) → j ≢ i → Names (update sems i s) n_sem j → Names sems n_sem j
  old-Names j ne p = ground (arith, p)

  new-Names : Names (update sems i s) n_sem i
  new-Names = ground (arith, num, used)

  only_new :
      {r : Option ℕ}
      → Search (Names sems n_sem) 0 nr_semaphores none
      → Search (Names (update sems i s) n_sem) 0 nr_semaphores r
      → r ≡ some i
  only_new (missing off) (missing off') = absurd (off' i (omega arith) (omega arith) new-Names)
  only_new (missing off) (found {j} lo hi p first) = elim (Bool-cases (j == i)) [
    | inl e ↦ ap some (==-eq j i e)
    | inr ne ↦ absurd (off j lo hi (old-Names j (ground arith) p))
  ]

  -- The search that found nothing now finds the new semaphore.
  cerca_sem-update : cerca_sem n_sem sems ≡ none → cerca_sem n_sem (update sems i s) ≡ some i
  cerca_sem-update e =
      only_new (subst (Search (Names sems n_sem) 0 nr_semaphores) e (cerca_sem-Search sems n_sem))
        (cerca_sem-Search (update sems i s) n_sem)

-- With a number that no used semaphore has and a free semaphore, `sys_sem_init` returns 0; from then
-- on `cerca_sem` finds the semaphore under the number, owned by the current task, with the
-- counter and nobody waiting; every other list stays, and lists and states stay well formed.
pub sys_sem_init-opens :
    (k : Kernel) (q : QueueMap) (n_sem : ℤ) (value : ℕ) {i : ℕ}
    → Valid k q
    → cerca_sem n_sem k.semaphores ≡ none
    → cerca_sem_lliure k.semaphores ≡ some i
    → (k' : Kernel) × (sys_sem_init n_sem value k ≡ (returns (pos 0), k'))
      × (cerca_sem n_sem k'.semaphores ≡ some i)
      × (k'.semaphores i ≡ new_sem n_sem value k)
      × Valid k' (open_map i q)
      × (k'.running ≡ k.running)
unfolding sys_sem_init
sys_sem_init-opens k q n_sem value {i} v unknown at =
    let s = new_sem n_sem value k in
    let (_, lt, _) = Search-found (
      subst (Search (IsFree k.semaphores) 0 nr_semaphores) at
        (cerca_sem_lliure-Search k.semaphores)) in
    (
      opened i s k,
      rw (unknown, at, sys_sem_init) refl,
      cerca_sem-update k.semaphores n_sem i s (omega arith) refl refl unknown,
      update_self k.semaphores i s,
      record { shape = opened-Shape i s v.shape; current = opened-IsRunning i s v.shape v.current },
      refl,
    )
