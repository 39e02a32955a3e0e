-- ===== src/Steps/Front.antt =====
-- The interrupts keep lists and states well formed, whatever the lists are.
use so2fib.Common.{
  ℕ, ◌-◌, ◌<◌, ◌≡◌, leb_ℤ, false, Bool, ◌++◌, update, if◌then◌else◌, not, ◌&&◌, ◌≢◌, refl, ◌∙◌, ap,
  sym, inl, inr, arith, subst, true, List, [], ◌∷◌, Bool-cases, pos, eqb_ℤ, eqb_ℤ-eq, eqb_ℤ-of_eq,
}
use so2fib.LinkedList.{Addr, list_empty, list_first}
use so2fib.Task.{Stats, is_free_sem}
use so2fib.Kernel.{
  Kernel, task_list, readyqueue, keyboardqueue, blocked_queue, nr_semaphores, is_head, get_ticks,
  list_head_to_task_struct,
}
use so2fib.Sched.{schedule, charge}
use so2fib.Sched.Shape.{QueueMap, IsRunning, Valid}
use so2fib.Sched.Next.{SameLists, IsRunning-same, Shape-same, charge-SameLists}
use so2fib.Interrupts.{store_key, has_enough}
use so2fib.Sched.Sems.{semaphores-update, semaphores-schedule}
use so2fib.Sched.Wake.{wake_map}
use so2fib.Interrupts.Keyboard.{stored, stored-Valid, store_key-alone, store_key-wakes}
use so2fib.Sched.Rotate.{schedule-count, schedule-alone, schedule-rotate}

-- Tasks wait for a semaphore only while its counter is not positive.
pub record IsClosed (k : Kernel) (q : QueueMap) : Type 0 where
  pub nobody_waits :
      (i : ℕ)
      → i < nr_semaphores
      → is_free_sem (k.semaphores i).state ≡ false
      → leb_ℤ (k.semaphores i).counter (pos 0) ≡ false
      → q (blocked_queue i) ≡ []

-- The kernel's lists, states and semaphores are well formed, for some lists.
pub record IsConsistent (k : Kernel) : Type 0 where
  pub lists : QueueMap
  pub valid : Valid k lists
  pub closed : IsClosed k lists

-- Semaphores and their lists are as they were.
pub same-IsClosed :
    {k k' : Kernel} {q q' : QueueMap}
    → k'.semaphores ≡ k.semaphores
    → ((i : ℕ) → i < nr_semaphores → q' (blocked_queue i) ≡ q (blocked_queue i))
    → IsClosed k q
    → IsClosed k' q'
same-IsClosed {q} {q'} same lists c = record {
  nobody_waits = λ i lt used more.
      lists i lt
      ∙ c.nobody_waits i lt (sym (ap (λ f. is_free_sem (f i).state) same) ∙ used)
          (sym (ap (λ f. leb_ℤ (f i).counter (pos 0)) same) ∙ more);
}

pub same-Valid :
    {k k' : Kernel} {q : QueueMap}
    → SameLists k k'
    → k'.running ≡ k.running
    → Valid k q
    → Valid k' q
same-Valid {k'} {q} same r v = record {
  shape = Shape-same same v.shape;
  current = subst (IsRunning k' q) (sym r) (IsRunning-same same v.current);
}

-- A list is empty, or starts with a task.
pub data Front (q : QueueMap) (h : Addr) : Type 0 where
  nobody : q h ≡ [] → Front q h
  somebody : (t : ℕ) (rs : List Addr) → q h ≡ task_list t ∷ rs → Front q h

Front-of :
    {k : Kernel} {q : QueueMap} (h : Addr) (xs : List Addr)
    → Valid k q
    → is_head k.semaphores h ≡ true
    → q h ≡ xs
    → Front q h
Front-of h [] v hh e = nobody e
Front-of h (a ∷ rs) v hh e =
    let (low, _) = v.shape.member h a hh (rw e (ground arith)) in
    let at : a ≡ task_list (a - 1) = omega arith in somebody (a - 1) rs (e ∙ ap (λ b. b ∷ rs) at)

pub front :
    {k : Kernel} {q : QueueMap} (h : Addr) → Valid k q → is_head k.semaphores h ≡ true → Front q h
front {q} h v hh = Front-of h (q h) v hh refl

schedule-Front :
    {k : Kernel} {q : QueueMap}
    → Valid k q
    → IsClosed k q
    → k.q_left ≡ pos 1
    → Front q readyqueue
    → IsConsistent (schedule k)
schedule-Front {k} {q} v c e (nobody n) = record {
  lists = q;
  valid = (schedule-alone v e n).0;
  closed = same-IsClosed (semaphores-schedule k) (λ i lt. refl) c;
}
schedule-Front {k} {q} v c e (somebody t rs r) = record {
  lists = update q readyqueue (rs ++ task_list k.running ∷ []);
  valid = (schedule-rotate t rs v e r).0;
  closed = same-IsClosed (semaphores-schedule k) (λ i lt. ground arith) c;
}

pub schedule-IsConsistent :
    {k : Kernel} {q : QueueMap} → Valid k q → IsClosed k q → IsConsistent (schedule k)
schedule-IsConsistent {k} {q} v c = elim (Bool-cases (eqb_ℤ k.q_left (pos 1))) [
  | inl e ↦ schedule-Front v c (eqb_ℤ-eq k.q_left (pos 1) e) (front readyqueue v refl)
  | inr ne ↦
      let more : k.q_left ≢ pos 1 = λ e. cc (ne, eqb_ℤ-of_eq k.q_left (pos 1) e) in
      rw (schedule-count k more) (record {
        lists = q;
        valid =
            same-Valid (record { links = refl; heads = refl; idle = refl; estado = λ j. refl }) refl
              v;
        closed = same-IsClosed refl (λ i lt. refl) c;
      })
]

-- One semaphore whose counter is not positive may get another list.
pub shut-IsClosed :
    {k k' : Kernel} {q q' : QueueMap} (i : ℕ)
    → k'.semaphores ≡ k.semaphores
    → leb_ℤ (k.semaphores i).counter (pos 0) ≡ true
    → ((j : ℕ) → j < nr_semaphores → j ≢ i → q' (blocked_queue j) ≡ q (blocked_queue j))
    → IsClosed k q
    → IsClosed k' q'
shut-IsClosed {k} i same shut lists c = record {
  nobody_waits = λ j lt used more.
      let more_j : leb_ℤ (k.semaphores j).counter (pos 0) ≡ false =
        sym (ap (λ f. leb_ℤ (f j).counter (pos 0)) same) ∙ more in
      lists j lt (λ e. cc (shut, more_j, e))
      ∙ c.nobody_waits j lt (sym (ap (λ f. is_free_sem (f j).state) same) ∙ used) more_j;
}

-- A used semaphore that a task waits for.
pub waited-shut :
    {k : Kernel} {q : QueueMap} (i t : ℕ) (rs : List Addr)
    → IsClosed k q
    → i < nr_semaphores
    → is_free_sem (k.semaphores i).state ≡ false
    → q (blocked_queue i) ≡ task_list t ∷ rs
    → leb_ℤ (k.semaphores i).counter (pos 0) ≡ true
waited-shut {k} i t rs c lt used e = elim (Bool-cases (leb_ℤ (k.semaphores i).counter (pos 0))) [
  | inl shut ↦ shut
  | inr more ↦ cc (sym (c.nobody_waits i lt used more) ∙ e)
]

running-charge :
    (add : ℕ → Stats → Stats) (i : ℕ) (k : Kernel) → (charge add i k).running ≡ k.running
unfolding charge get_ticks
running-charge add i k = refl

semaphores-charge :
    (add : ℕ → Stats → Stats) (i : ℕ) (k : Kernel) → (charge add i k).semaphores ≡ k.semaphores
unfolding charge get_ticks
semaphores-charge add i k = refl

pub charge-IsConsistent :
    {k : Kernel} (add : ℕ → Stats → Stats) (i : ℕ) → IsConsistent k → IsConsistent (charge add i k)
charge-IsConsistent {k} add i c = record {
  lists = c.lists;
  valid = same-Valid (charge-SameLists add i k) (running-charge add i k) c.valid;
  closed = same-IsClosed (semaphores-charge add i k) (λ j lt. refl) c.closed;
}

semaphores-store_key : (c : ℕ) (k : Kernel) → (store_key c k).semaphores ≡ k.semaphores
unfolding store_key
semaphores-store_key c k =
    let t = list_head_to_task_struct (list_first keyboardqueue k.links) in
    elim (Bool-cases (not (list_empty keyboardqueue k.links) && has_enough t (stored c k))) [
      | inl e ↦ rw e (semaphores-update t readyqueue (stored c k))
      | inr e ↦ rw e refl
    ]

wake_map-blocked :
    (q : QueueMap) (rs : List Addr) (t i : ℕ) (moves : Bool)
    → i < nr_semaphores
    → (if moves then wake_map q keyboardqueue rs t else q) (blocked_queue i) ≡ q (blocked_queue i)
wake_map-blocked q rs t i moves lt = ground arith

store_key-Front :
    {k : Kernel} (b : ℕ) (c : IsConsistent k)
    → Front c.lists keyboardqueue
    → IsConsistent (store_key b k)
store_key-Front {k} b c (nobody n) = record {
  lists = c.lists;
  valid = rw (store_key-alone b c.valid n) (stored-Valid b c.valid);
  closed = same-IsClosed (semaphores-store_key b k) (λ i lt. refl) c.closed;
}
store_key-Front {k} b c (somebody t rs e) = record {
  lists = _;
  valid = store_key-wakes b t rs c.valid e;
  closed =
      same-IsClosed (semaphores-store_key b k)
        (λ i lt. wake_map-blocked c.lists rs t i (has_enough t (stored b k)) lt) c.closed;
}

pub store_key-IsConsistent : {k : Kernel} (b : ℕ) → IsConsistent k → IsConsistent (store_key b k)
store_key-IsConsistent b c = store_key-Front b c (front keyboardqueue c.valid refl)

-- Another kernel that a call returns.
pub IsConsistent-of : {k k' : Kernel} → k' ≡ k → IsConsistent k → IsConsistent k'
IsConsistent-of e c = subst IsConsistent (sym e) c
