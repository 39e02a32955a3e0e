-- ===== src/Fork/Outcome.antt =====
-- `sys_clone` and `sys_fork` on a kernel whose lists are well formed.
use so2fib.Common.{
  ℕ, ◌≡◌, refl, ◌≢◌, true, List, [], ◌∷◌, ◌++◌, update, arith, ap, ◌∙◌, ℤ, pos, ◌+ℤ◌, sym, subst,
  Bool-cases, inl, inr, ltb_ℤ,
}
use so2fib.LinkedList.{Addr, list_first}
use so2fib.LinkedList.Queue.{list_first-IsQueue}
use so2fib.LinkedList.Seg.{first}
use so2fib.Utils.{num_pag_code, num_pag_data, access_ok, verify_read, verify_write}
use so2fib.Kernel.{Kernel, task_list, freequeue, readyqueue, current, list_head_to_task_struct}
use so2fib.Sched.{get_dir}
use so2fib.Sched.Shape.{QueueMap, IsRunning, Valid}
use so2fib.Sched.Next.{IsRunning-same, Shape-same, list_head_to_task_struct-task_list}
use so2fib.Semaphores.Signal.{empty_of_cons}
use so2fib.Paging.{pag_log_init_code}
use so2fib.Frames.{num_pag_kernel}
use so2fib.Space.{copy_union, get_pt, set_cr3}
use so2fib.Processes.{allocate_dir}
use so2fib.Fork.Pages.{
  Kept, Kept-trans, Kept-SameLists, allocate_dir-Kept, share_pages-Kept, copy_pages-Kept,
}
use so2fib.Fork.Birth.{
  born, born_map, born-ne, born-Shape, born-IsRunning, born-current, ready-Valid,
}
use so2fib.Fork.{
  enomem, clone_task, sys_clone, share_pages, copy_pages, fork_end, fork_space, fork_task, sys_fork,
}

-- The lists after the first free task has gone to the end of `readyqueue`.
abbrev pub spawn_map : QueueMap → ℕ → List Addr → QueueMap
spawn_map q t rs = update (update q freequeue rs) readyqueue (q readyqueue ++ task_list t ∷ [])

module _ {k : Kernel} {q : QueueMap} (v : Valid k q) (t : ℕ) (rs : List Addr)
    (e : q freequeue ≡ task_list t ∷ rs) where
  pub first_free : list_first freequeue k.links ≡ task_list t
  first_free =
      list_first-IsQueue (q freequeue) (v.shape.queues.queue freequeue refl)
      ∙ ap (λ xs. first xs freequeue) e

  clone_task-spawns :
      (function stack : ℕ)
      → let (r, k') = clone_task function stack (task_list t) k in
        (r ≡ k.incremental_pid)
        × Valid k' (spawn_map q t rs)
        × (k'.running ≡ k.running)
        × ((k'.task t).pid ≡ k.incremental_pid)
        × (k'.incremental_pid ≡ k.incremental_pid +ℤ pos 1)
        × (get_dir t k' ≡ get_dir k.running k)
  unfolding clone_task current copy_union get_dir
  clone_task-spawns function stack = rw (list_head_to_task_struct-task_list t) (
    ground arith,
    ready-Valid t (born-Shape v t rs e) (born-IsRunning v t rs e) (born-current v t rs e)
        (born-ne v t rs e)
        (record { links = refl; heads = refl; idle = refl; estado = λ j. ground arith }),
    refl,
    ground arith,
    refl,
    ground arith,
  )

  -- `sys_clone` with two addresses that `access_ok` lets through and a free task: the first free task
  -- becomes ready, behind the others that are, with the next PID, which is returned and counted up,
  -- and with the page directory of the current task, which goes on; lists and states stay well formed.
  pub sys_clone-spawns :
      (function stack : ℕ)
      → access_ok verify_write stack 4 ≡ true
      → access_ok verify_read function 4 ≡ true
      → let (r, k') = sys_clone function stack k in
        (r ≡ k.incremental_pid)
        × Valid k' (spawn_map q t rs)
        × (k'.running ≡ k.running)
        × ((k'.task t).pid ≡ k.incremental_pid)
        × (k'.incremental_pid ≡ k.incremental_pid +ℤ pos 1)
        × (get_dir t k' ≡ get_dir k.running k)
  unfolding sys_clone
  sys_clone-spawns function stack ok ok' =
      rw (ok, ok', empty_of_cons v freequeue refl e, first_free) (clone_task-spawns function stack)

  -- How `sys_fork` ends when there is a free task `t`, with `rs` free behind it. Where memory runs out,
  -- the task is no longer free, and in no list.
  pub data Forked : ℤ × Kernel → Type 0 where
    spawned :
        {r : ℤ} {k' : Kernel}
        → r ≡ k.incremental_pid
        → Valid k' (spawn_map q t rs)
        → k'.running ≡ k.running
        → (k'.task t).pid ≡ k.incremental_pid
        → k'.incremental_pid ≡ k.incremental_pid +ℤ pos 1
        → Forked (r, k')
    no_memory :
        {r : ℤ} {k' : Kernel}
        → r ≡ enomem
        → Valid k' (born_map v t rs e)
        → k'.running ≡ k.running
        → k'.incremental_pid ≡ k.incremental_pid
        → Forked (r, k')

  born-Valid : {k' : Kernel} → Kept (born v t rs e) k' → Valid k' (born_map v t rs e)
  unfolding copy_union
  born-Valid {k'} kept =
      let same = Kept-SameLists kept in
      record {
        shape = Shape-same same (born-Shape v t rs e);
        current =
            subst (IsRunning k' (born_map v t rs e)) (sym kept.running)
              (IsRunning-same same (born-current v t rs e));
      }

  lost-Forked : {k' : Kernel} → Kept (born v t rs e) k' → Forked (enomem, k')
  unfolding copy_union
  lost-Forked kept = no_memory refl (born-Valid kept) kept.running kept.incremental_pid

  fork_end-Forked : (k' : Kernel) → Kept (born v t rs e) k' → Forked (fork_end (task_list t) k')
  unfolding fork_end set_cr3 get_dir copy_union
  fork_end-Forked k' kept =
      let b = born-Valid kept in
      let me : k'.running ≢ t = λ same. born-ne v t rs e (sym kept.running ∙ same) in
      rw (list_head_to_task_struct-task_list t) (
        spawned (ground (arith, kept.incremental_pid))
          (ready-Valid {k = k'} t b.shape
            (IsRunning-same (Kept-SameLists kept) (born-IsRunning v t rs e)) b.current me
            (record { links = refl; heads = refl; idle = refl; estado = λ j. ground arith }))
          kept.running (ground (arith, kept.incremental_pid))
          (ap (λ n. n +ℤ pos 1) kept.incremental_pid))

  fork_space-Forked : (k' : Kernel) → Kept (born v t rs e) k' → Forked (fork_space (task_list t) k')
  unfolding fork_space
  fork_space-Forked k' kept =
      let new = get_pt (list_head_to_task_struct (task_list t)) k' in
      let parent = get_pt (current k') k' in
      let k_1 = share_pages num_pag_kernel 1 new parent k' in
      let k_2 = share_pages num_pag_code pag_log_init_code new parent k_1 in
      let kept_3 : Kept (born v t rs e) (copy_pages num_pag_data 0 new parent [] k_2).1 =
        Kept-trans kept (
          Kept-trans (share_pages-Kept num_pag_kernel 1 new parent k') (
            Kept-trans (share_pages-Kept num_pag_code pag_log_init_code new parent k_1)
              (copy_pages-Kept num_pag_data 0 new parent [] k_2))) in
      elim (Bool-cases (copy_pages num_pag_data 0 new parent [] k_2).0) [
        | inl done ↦ rw done (fork_end-Forked _ kept_3)
        | inr full ↦ rw full (lost-Forked kept_3)
      ]

  -- `sys_fork` with a free task makes the first of them ready, behind the others that are, with the
  -- next PID, which is returned and counted up; or it returns -ENOMEM and no task moves but
  -- the free one, that is lost. Either way the current task goes on, and lists and states stay
  -- well formed.
  pub sys_fork-Forked : Forked (sys_fork k)
  unfolding sys_fork fork_task current
  sys_fork-Forked =
      let a = allocate_dir t (born v t rs e) in
      let kept = allocate_dir-Kept t (born v t rs e) in
      rw (empty_of_cons v freequeue refl e, first_free, list_head_to_task_struct-task_list t)
        (elim (Bool-cases (ltb_ℤ a.0 (pos 0))) [
          | inl none_left ↦ rw none_left (lost-Forked kept)
          | inr ok ↦ rw ok (fork_space-Forked a.1 kept)
        ])
