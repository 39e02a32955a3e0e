-- ===== src/Steps/Tasks.antt =====
-- `sys_clone` and `sys_fork` keep lists and states well formed, on all their branches.
use so2fib.Common.{
  ℕ, ◌≡◌, refl, ◌∙◌, inl, inr, true, List, [], ◌∷◌, Bool-cases, ℤ, pos, ltb_ℤ, not, ◌||◌, update,
  arith,
}
use so2fib.LinkedList.{Addr, list_empty, list_del}
use so2fib.Frames.{num_pag_kernel}
use so2fib.Paging.{pag_log_init_code}
use so2fib.Kernel.{Kernel, task_list, freequeue, current, set_links, list_head_to_task_struct}
use so2fib.Space.{get_pt, set_cr3, copy_union}
use so2fib.Semaphores.Signal.{empty_of_nil}
use so2fib.Utils.{num_pag_code, num_pag_data, access_ok, verify_read, verify_write}
use so2fib.Processes.{allocate_dir}
use so2fib.Fork.{
  share_pages, copy_pages, fork_end, fork_space, fork_task, clone_task, sys_clone, sys_fork,
}
use so2fib.Fork.Pages.{Kept-trans, allocate_dir-Kept, share_pages-Kept, copy_pages-Kept}
use so2fib.Fork.Outcome.{spawn_map, sys_clone-spawns, sys_fork-Forked, Forked, spawned, no_memory}
use so2fib.Steps.Front.{IsConsistent, same-IsClosed, Front, nobody, somebody, front}

-- Neither call touches a semaphore.
semaphores-sys_clone :
    (function stack : ℕ) (k : Kernel) → (sys_clone function stack k).1.semaphores ≡ k.semaphores
unfolding sys_clone clone_task copy_union current
semaphores-sys_clone function stack k =
    elim (Bool-cases
      (not (access_ok verify_write stack 4) || not (access_ok verify_read function 4))) [
        | inl bad ↦ rw bad refl
        | inr ok ↦ elim (Bool-cases (list_empty freequeue k.links)) [
          | inl none_free ↦ rw (ok, none_free) refl
          | inr some_free ↦ rw (ok, some_free) refl
        ]
      ]

semaphores-fork_end :
    (list_aux : Addr) (k : Kernel) → (fork_end list_aux k).1.semaphores ≡ k.semaphores
unfolding fork_end set_cr3 current
semaphores-fork_end list_aux k = refl

semaphores-fork_space :
    (list_aux : Addr) (k : Kernel) → (fork_space list_aux k).1.semaphores ≡ k.semaphores
unfolding fork_space current
semaphores-fork_space list_aux k =
    let new = get_pt (list_head_to_task_struct list_aux) k in
    let parent = get_pt k.running k in
    let k_1 = share_pages num_pag_kernel 1 new parent k in
    let k_2 = share_pages num_pag_code pag_log_init_code new parent k_1 in
    let kept = Kept-trans (share_pages-Kept num_pag_kernel 1 new parent k) (
      Kept-trans (share_pages-Kept num_pag_code pag_log_init_code new parent k_1)
        (copy_pages-Kept num_pag_data 0 new parent [] k_2)) in
    elim (Bool-cases (copy_pages num_pag_data 0 new parent [] k_2).0) [
      | inl done ↦ rw done (semaphores-fork_end list_aux _ ∙ kept.semaphores)
      | inr full ↦ rw full kept.semaphores
    ]

semaphores-fork_task :
    (list_aux : Addr) (k : Kernel) → (fork_task list_aux k).1.semaphores ≡ k.semaphores
unfolding fork_task copy_union current
semaphores-fork_task list_aux k =
    let new = list_head_to_task_struct list_aux in
    let k_1 = copy_union k.running new (set_links (list_del list_aux) k) in
    let kept = allocate_dir-Kept new k_1 in
    elim (Bool-cases (ltb_ℤ (allocate_dir new k_1).0 (pos 0))) [
      | inl none_left ↦ rw none_left kept.semaphores
      | inr found ↦ rw found (semaphores-fork_space list_aux _ ∙ kept.semaphores)
    ]

semaphores-sys_fork : (k : Kernel) → (sys_fork k).1.semaphores ≡ k.semaphores
unfolding sys_fork
semaphores-sys_fork k = elim (Bool-cases (list_empty freequeue k.links)) [
  | inl none_free ↦ rw none_free refl
  | inr some_free ↦ rw some_free (semaphores-fork_task _ k)
]

clone-Front :
    {k : Kernel} (function stack : ℕ) (c : IsConsistent k)
    → access_ok verify_write stack 4 ≡ true
    → access_ok verify_read function 4 ≡ true
    → Front c.lists freequeue
    → IsConsistent (sys_clone function stack k).1
unfolding sys_clone
clone-Front function stack c ok ok' (nobody n) =
    rw (ok, ok', empty_of_nil c.valid freequeue refl n) c
clone-Front {k} function stack c ok ok' (somebody t rs e) = record {
  lists = spawn_map c.lists t rs;
  valid = (sys_clone-spawns c.valid t rs e function stack ok ok').1;
  closed = same-IsClosed (semaphores-sys_clone function stack k) (λ i lt. ground arith) c.closed;
}

pub sys_clone-IsConsistent :
    {k : Kernel} (function stack : ℕ) → IsConsistent k → IsConsistent (sys_clone function stack k).1
unfolding sys_clone
sys_clone-IsConsistent function stack c = elim (Bool-cases (access_ok verify_write stack 4)) [
  | inr bad ↦ rw bad c
  | inl ok ↦ elim (Bool-cases (access_ok verify_read function 4)) [
    | inr bad ↦ rw (ok, bad) c
    | inl ok' ↦ clone-Front function stack c ok ok' (front freequeue c.valid refl)
  ]
]

Forked-IsConsistent :
    {k : Kernel} (c : IsConsistent k) (t : ℕ) (rs : List Addr)
    (e : c.lists freequeue ≡ task_list t ∷ rs) {r : ℤ × Kernel}
    → r.1.semaphores ≡ k.semaphores
    → Forked c.valid t rs e r
    → IsConsistent r.1
Forked-IsConsistent c t rs e same (spawned _ v' _ _ _) = record {
  lists = spawn_map c.lists t rs;
  valid = v';
  closed = same-IsClosed same (λ i lt. ground arith) c.closed;
}
Forked-IsConsistent c t rs e same (no_memory _ v' _ _) = record {
  lists = update c.lists freequeue rs;
  valid = v';
  closed = same-IsClosed same (λ i lt. ground arith) c.closed;
}

fork-Front :
    {k : Kernel} (c : IsConsistent k) → Front c.lists freequeue → IsConsistent (sys_fork k).1
unfolding sys_fork
fork-Front c (nobody n) = rw (empty_of_nil c.valid freequeue refl n) c
fork-Front {k} c (somebody t rs e) =
    Forked-IsConsistent c t rs e (semaphores-sys_fork k) (sys_fork-Forked c.valid t rs e)

pub sys_fork-IsConsistent : {k : Kernel} → IsConsistent k → IsConsistent (sys_fork k).1
sys_fork-IsConsistent c = fork-Front c (front freequeue c.valid refl)
