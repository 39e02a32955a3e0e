-- ===== src/Sched/Wake.antt =====
-- `update_process_state_rr` to `readyqueue`: a waiting task becomes ready.
use so2fib.Common.{
  ℕ, ◌≡◌, refl, ◌≢◌, inr, true, List, [], ◌∷◌, ◌++◌, has, has-append, update, arith,
}
use so2fib.LinkedList.{Addr, list_add_tail}
use so2fib.LinkedList.Family.{IsLoose, has-middle}
use so2fib.Task.{st_run}
use so2fib.Kernel.{Kernel, task_list, freequeue, readyqueue, is_head, set_task, set_links}
use so2fib.Sched.{update_process_state_rr}
use so2fib.Sched.Shape.{QueueMap, state_in, IsRunning, Shape, Valid}
use so2fib.Sched.Place.{move-eq, enter-Shape, leave-Shape, leave-IsRunning, left, was_in}
use so2fib.Sched.Next.{SameLists, Shape-same}

-- The lists after a task has left `xs ++ t ∷ ys` in the list of `h` for the end of `readyqueue`.
abbrev pub wake_map : QueueMap → Addr → List Addr → ℕ → QueueMap
wake_map q h others t =
    let q_1 = update q h others in update q_1 readyqueue (q_1 readyqueue ++ task_list t ∷ [])

module _ {k : Kernel} {q : QueueMap} (v : Valid k q) (h : Addr) (xs : List Addr) (t : ℕ)
    (ys : List Addr) (hh : is_head k.semaphores h ≡ true) (waits : h ≢ freequeue)
    (e : q h ≡ xs ++ task_list t ∷ ys) where
  abbrev woken : Kernel
  woken = update_process_state_rr t readyqueue k

  in_list : has (task_list t) (q h) ≡ true
  in_list = rw e (has-middle xs (task_list t) ys)

  not_run : (k.task t).estado ≢ st_run
  not_run = ground (arith, v.shape.queued h t hh waits in_list)

  woken-SameLists :
      SameLists
        (set_task t
          (λ p. record p { estado = state_in readyqueue })
          (set_links (list_add_tail (task_list t) readyqueue) (left v.shape h xs t ys hh e)))
        woken
  woken-SameLists =
      rw (move-eq k t readyqueue not_run (omega arith))
        (record { links = refl; heads = refl; idle = refl; estado = λ j. ground arith })

  woken-Shape : Shape woken (wake_map q h (xs ++ ys) t)
  woken-Shape = Shape-same woken-SameLists (
      enter-Shape (leave-Shape v.shape h xs t ys hh e) t readyqueue refl
        (leave-IsRunning v.shape h xs t ys hh e) (inr refl))

  not_current : k.running ≢ t
  not_current same = ground (arith, v.current.loose.1 h hh, in_list)

  kept-IsLoose : IsLoose (is_head k.semaphores) (wake_map q h (xs ++ ys) t) (task_list k.running)
  kept-IsLoose =
      let me = task_list k.running in
      let old = v.current.loose in
      (
        old.0,
        λ l hl. ground (
          arith,
          not_current,
          old.1 l,
          old.1 readyqueue,
          was_in v.shape h xs t ys hh e l me,
          was_in v.shape h xs t ys hh e readyqueue me,
          has-append me (update q h (xs ++ ys) readyqueue) (task_list t ∷ []),
        ),
      )

  woken-current : IsRunning woken (wake_map q h (xs ++ ys) t) woken.running
  woken-current = rw (move-eq k t readyqueue not_run (omega arith)) (record {
    in_table = v.current.in_table;
    loose = kept-IsLoose;
    runs = ground (arith, not_current, v.current.runs);
  })

  -- The woken task goes behind the ready ones, the others of its list keep their order, and the
  -- current task goes on.
  pub wake-Valid : Valid woken (wake_map q h (xs ++ ys) t)
  wake-Valid = record { shape = woken-Shape; current = woken-current }
