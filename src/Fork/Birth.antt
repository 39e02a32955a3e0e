-- ===== src/Fork/Birth.antt =====
-- A task that leaves the free ones and becomes a copy of the current task.
use so2fib.Common.{
  ℕ, Bool, ◌≡◌, refl, ◌≢◌, true, List, [], ◌∷◌, ◌++◌, has, has-append, update, arith, ap, inr,
}
use so2fib.LinkedList.{Addr, Links, list_del, list_add_tail}
use so2fib.LinkedList.Family.{Queues, IsLoose, IsQueue-frame}
use so2fib.Kernel.{Kernel, task_list, freequeue, readyqueue, is_head, set_task, set_links}
use so2fib.Sched.Shape.{QueueMap, state_in, IsRunning, Shape, Valid}
use so2fib.Sched.Place.{leave-Shape, leave-IsRunning, left, was_in, enter-Shape}
use so2fib.Sched.Next.{SameLists, IsRunning-same, Shape-same}
use so2fib.Space.{copy_union}

-- The fields of what is in no list may change.
Queues-loose :
    {is_head : Addr → Bool} {m : Links} {q : Addr → List Addr} (m' : Links) (n : Addr)
    → Queues is_head m q
    → IsLoose is_head q n
    → ((a : Addr) → a ≢ n → (m'.next a ≡ m.next a) × (m'.prev a ≡ m.prev a))
    → Queues is_head m' q
Queues-loose m' n qs loose same = record {
  queue =
      λ h hh. IsQueue-frame m' (qs.queue h hh) (λ a i. same a (ground (arith, loose.0, loose.1 h)));
  not_head = qs.not_head;
  apart = qs.apart;
}

-- A change of the fields of a task that is in no list, and of nothing else in the lists.
pub Shape-loose :
    {k : Kernel} {q : QueueMap} (m' : Links) (t : ℕ)
    → Shape k q
    → IsRunning k q t
    → ((a : Addr) → a ≢ task_list t → (m'.next a ≡ k.links.next a) × (m'.prev a ≡ k.links.prev a))
    → Shape (record k { links = m' }) q
Shape-loose m' t s r same = record {
  queues = Queues-loose m' (task_list t) s.queues r.loose same;
  member = s.member;
  queued = s.queued;
  idle = λ out.
      let old = s.idle out in
      record { in_table = old.in_table; loose = old.loose; runs = old.runs };
}

module _ {k : Kernel} {q : QueueMap} (v : Valid k q) (t : ℕ) (rs : List Addr)
    (e : q freequeue ≡ task_list t ∷ rs) where
  -- The kernel with the first free task taken out and made a copy.
  abbrev pub born : Kernel
  born = copy_union k.running t (set_links (list_del (task_list t)) k)

  abbrev pub born_map : QueueMap
  born_map = update q freequeue rs

  pub born-ne : k.running ≢ t
  born-ne same = ground (arith, v.current.loose.1 freequeue refl, ap (has (task_list t)) e)

  abbrev out : Kernel
  out = left v.shape freequeue [] t rs refl e

  abbrev copied : Kernel
  copied = record out { links = born.links }

  off :
      (a : Addr)
      → a ≢ task_list t
      → (born.links.next a ≡ out.links.next a) × (born.links.prev a ≡ out.links.prev a)
  unfolding copy_union
  off a ne = ground arith

  copied-SameLists : SameLists copied born
  unfolding copy_union
  copied-SameLists = record {
    links = refl;
    heads = refl;
    idle = refl;
    estado = λ j. ground (arith, v.current.runs);
  }

  pub born-Shape : Shape born born_map
  born-Shape = Shape-same copied-SameLists (
      Shape-loose born.links t (leave-Shape v.shape freequeue [] t rs refl e)
        (leave-IsRunning v.shape freequeue [] t rs refl e) off)

  pub born-IsRunning : IsRunning born born_map t
  born-IsRunning =
      let r = leave-IsRunning v.shape freequeue [] t rs refl e in
      IsRunning-same copied-SameLists
        (record { in_table = r.in_table; loose = r.loose; runs = r.runs })

  pub born-current : IsRunning born born_map k.running
  unfolding copy_union
  born-current = record {
    in_table = v.current.in_table;
    loose = (
      v.current.loose.0,
      λ l hl. ground (
        arith,
        v.current.loose.1 l,
        was_in v.shape freequeue [] t rs refl e l (task_list k.running),
      ),
    );
    runs = ground (arith, v.current.runs);
  }

-- Task `t` at the end of the list of `h`, in the state that belongs to it.
abbrev pub entered : ℕ → Addr → Kernel → Kernel
entered t h k =
    set_task t (λ p. record p { estado = state_in h }) (set_links (list_add_tail (task_list t) h) k)

-- What is in no list stays so when another task enters one.
enter-IsRunning :
    {k : Kernel} {q : QueueMap} (t h j : ℕ)
    → IsRunning k q j
    → j ≢ t
    → is_head k.semaphores h ≡ true
    → IsRunning (entered t h k) (update q h (q h ++ task_list t ∷ [])) j
enter-IsRunning {q} t h j r ne hh = record {
  in_table = r.in_table;
  loose = (
    r.loose.0,
    λ l hl. ground (arith, r.loose.1 l, has-append (task_list j) (q h) (task_list t ∷ [])),
  );
  runs = ground (arith, r.runs);
}

-- A task that is in no list becomes ready, while another is current.
pub ready-Valid :
    {k k' : Kernel} {q : QueueMap} (t : ℕ)
    → Shape k q
    → IsRunning k q t
    → IsRunning k q k'.running
    → k'.running ≢ t
    → SameLists (entered t readyqueue k) k'
    → Valid k' (update q readyqueue (q readyqueue ++ task_list t ∷ []))
ready-Valid {k'} t s r c ne same = record {
  shape = Shape-same same (enter-Shape s t readyqueue refl r (inr refl));
  current = IsRunning-same same (enter-IsRunning t readyqueue k'.running c ne refl);
}
