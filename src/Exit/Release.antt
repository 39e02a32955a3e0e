-- ===== src/Exit/Release.antt =====
-- `sys_exit` of a task that owns no semaphore.
use so2fib.Common.{
  ℕ, zero, suc, ◌+◌, ◌-◌, ◌≤◌, ◌<◌, ◌≡◌, ◌≢◌, refl, ◌∙◌, ap, sym, true, false, none, some,
  Bool-cases, inl, inr, List, [], ◌∷◌, ◌++◌, has, arith, update, pos, neg, ◌-ℤ◌, eqb_ℤ, eqb_ℤ-of_ne,
  drop, subst,
}
use so2fib.LinkedList.{Addr, Links, add_between, list_del, list_add_tail, list_for_each}
use so2fib.LinkedList.Queue.{IsQueue, list_empty_iff, list_first-IsQueue, list_del-IsQueue}
use so2fib.LinkedList.Family.{Queues, IsQueue-frame, list_add_tail-Queues}
use so2fib.LinkedList.Looped.{
  IsLooped, list_for_each-IsLooped, list_add_tail-IsLooped, list_del-IsLooped,
  list_add_tail-elsewhere,
}
use so2fib.Task.{st_ready, st_blocked}
use so2fib.Kernel.{Kernel, task_list, freequeue, readyqueue, is_head, current, set_task, set_links}
use so2fib.Sched.{sched_next_rr}
use so2fib.Sched.Shape.{QueueMap, Valid}
use so2fib.Sched.Links.{next_idle, next_ready, pid-next}
use so2fib.Space.{get_pt}
use so2fib.Processes.{get_dir_position}
use so2fib.Fork.Pages.{Kept, Kept-trans, rest-Kept}
use so2fib.Exit.{leave_space, destroy_owned}
use so2fib.Exit.Pages.{release_pages-Kept}

-- The current task owns no semaphore.
abbrev pub OwnsNone : Kernel → Type 0
OwnsNone k = (i : ℕ) → i < 20 → (k.semaphores i).owner ≢ (k.task k.running).pid

pub destroy_owned-none :
    (n i : ℕ) (k : Kernel) → i + n ≤ 20 → OwnsNone k → destroy_owned n i k ≡ some k
unfolding destroy_owned current
destroy_owned-none zero i k h free = refl
destroy_owned-none (suc n) i k h free =
    rw
      (
        eqb_ℤ-of_ne (k.semaphores i).owner (k.task k.running).pid (free i (omega arith)),
        destroy_owned,
      )
      (destroy_owned-none n (i + 1) k (omega arith) free)

pub leave_space-Kept : (k : Kernel) → Kept k (leave_space k)
unfolding leave_space current
leave_space-Kept k =
    let i = get_dir_position k.running k in
    let k_1 = record k { refs_dir = update k.refs_dir i (k.refs_dir i -ℤ pos 1) } in
    elim (Bool-cases (eqb_ℤ (k_1.refs_dir i) (pos 0))) [
      | inl last ↦
          rw last (Kept-trans (rest-Kept k) (release_pages-Kept 20 0 (get_pt k.running k_1) k_1))
      | inr others ↦ rw others (rest-Kept k)
    ]

-- The kernel that a running task leaves to `sched_next_rr`: it is in `freequeue` twice.
abbrev twice_free : Kernel → Links
twice_free k =
    list_add_tail (task_list k.running) freequeue
      (list_add_tail (task_list k.running) freequeue k.links)

module _ {k : Kernel} {q : QueueMap} (v : Valid k q) where
  abbrev me : Addr
  me = task_list k.running

  abbrev once : Links
  once = list_add_tail me freequeue k.links

  once-Queues : Queues (is_head k.semaphores) once (update q freequeue (q freequeue ++ me ∷ []))
  once-Queues =
      list_add_tail-Queues (is_head k.semaphores) v.shape.queues me freequeue refl v.current.loose

  twice-IsLooped : IsLooped (twice_free k) freequeue (q freequeue) me
  twice-IsLooped =
      list_add_tail-IsLooped (q freequeue) me (v.shape.queues.queue freequeue refl)
        (ground (arith, v.current.loose.0, v.current.loose.1 freequeue))

  me-last : once.prev freequeue ≡ me
  unfolding list_add_tail add_between
  me-last = ground (arith, v.current.loose.0)

  -- The list heads and entries of `readyqueue` are not those that change.
  ready-off : (a : Addr) → has a (readyqueue ∷ q readyqueue) ≡ true → (a ≢ freequeue) × (a ≢ me)
  ready-off a i = (
    λ e. ground (arith, e, i, v.shape.queues.not_head readyqueue freequeue refl),
    λ e. ground (arith, e, i, v.current.loose.0, v.current.loose.1 readyqueue refl),
  )

  ready-IsQueue : IsQueue (twice_free k) readyqueue (q readyqueue)
  ready-IsQueue = IsQueue-frame (twice_free k) (once-Queues.queue readyqueue refl) (λ a i.
      list_add_tail-elsewhere once freequeue me a (ready-off a i).0 (ready-off a i).1 me-last)

  -- The first ready task leaves its list, and `freequeue` stays as it is.
  module _ (t : ℕ) (rs : List Addr) (e : q readyqueue ≡ task_list t ∷ rs) where
    dequeued-IsQueue : IsQueue (list_del (task_list t) (twice_free k)) readyqueue rs
    dequeued-IsQueue =
        list_del-IsQueue [] (task_list t) rs
          (subst (IsQueue (twice_free k) readyqueue) e ready-IsQueue)

    t-off : has (task_list t) (me ∷ freequeue ∷ q freequeue) ≡ false
    t-off =
        let (a, b) = ready-off (task_list t) (ground (arith, ap (has (task_list t)) e)) in
        ground (
          arith,
          a,
          b,
          v.shape.queues.apart readyqueue freequeue (task_list t),
          ap (has (task_list t)) e,
        )

    head-off : has readyqueue (me ∷ freequeue ∷ q freequeue) ≡ false
    head-off = ground (
      arith,
      (ready-off readyqueue (ground arith)).1,
      v.shape.queues.not_head freequeue readyqueue,
    )

    dequeued-IsLooped : IsLooped (list_del (task_list t) (twice_free k)) freequeue (q freequeue) me
    dequeued-IsLooped =
        let is = subst (IsQueue (twice_free k) readyqueue) e ready-IsQueue in
        list_del-IsLooped (task_list t) twice-IsLooped t-off
          (subst (λ a. has a (me ∷ freequeue ∷ q freequeue) ≡ false) (sym is.chain.1) head-off)

-- The task is put into `freequeue` for the second time, with PID -1.
abbrev pub parked : Kernel → Kernel
parked k =
    set_task k.running (λ p. record p { estado = st_blocked })
      (set_links (list_add_tail (task_list k.running) freequeue) (
        set_task k.running (λ p. record p { pid = neg 1 })
          (set_links (list_add_tail (task_list k.running) freequeue) k)))

-- `k'` is `k` after the current task has left it, when `xs` are ready.
pub record Ended (k : Kernel) (q : QueueMap) (xs : List Addr) (k' : Kernel) : Type 0 where
  pub running : k'.running ≡ elim xs [ [] ↦ k.idle_task | a ∷ rs ↦ a - 1 ]
  pub pid : (k'.task k.running).pid ≡ neg 1
  pub ready : IsQueue k'.links readyqueue (drop 1 xs)
  pub endless : (fuel : ℕ) → list_for_each fuel freequeue k'.links ≡ none

pub parked-Ended :
    {k : Kernel} {q : QueueMap} (xs : List Addr)
    → Valid k q
    → q readyqueue ≡ xs
    → Ended k q xs (sched_next_rr (parked k))
parked-Ended {k} {q} [] v e =
    let is = subst (IsQueue (twice_free k) readyqueue) e (ready-IsQueue v) in
    let (l, r) = next_idle (parked k) ((list_empty_iff [] is).1 refl) in
    record {
      running = r;
      pid = pid-next (parked k) k.running ∙ ground arith;
      ready = rw l is;
      endless = λ fuel. rw l (list_for_each-IsLooped fuel (twice-IsLooped v));
    }
parked-Ended {k} {q} (a ∷ rs) v e =
    let (low, _) = v.shape.member readyqueue a refl (rw e (ground arith)) in
    let t = a - 1 in
    let at : task_list t ≡ a = omega arith in
    let e_t : q readyqueue ≡ task_list t ∷ rs = e ∙ ap (λ b. b ∷ rs) (sym at) in
    let is = subst (IsQueue (twice_free k) readyqueue) e_t (ready-IsQueue v) in
    let ready : (k.task t).estado ≡ st_ready =
      v.shape.queued readyqueue t refl (omega arith) (rw e_t (ground arith)) in
    let other : t ≢ k.running =
      λ same. cc (sym v.current.runs ∙ ap (λ j. (k.task j).estado) (sym same) ∙ ready) in
    let (l, r) =
      next_ready (parked k) t (ground (arith, list_empty_iff (task_list t ∷ rs) is))
        (list_first-IsQueue (task_list t ∷ rs) is) (ground arith) in
    record {
      running = r;
      pid = pid-next (parked k) k.running ∙ ground arith;
      ready = rw l (dequeued-IsQueue v t rs e_t);
      endless = λ fuel. rw l (list_for_each-IsLooped fuel (dequeued-IsLooped v t rs e_t));
    }
