-- ===== src/Isolation/Calls.antt =====
-- The interrupts and the calls that allocate nothing leave the memory alone.
use so2fib.Common.{ℕ, ◌≡◌, ◌≢◌, refl, ◌∙◌, sym, true, false, arith, Bool-cases, inl, inr}
use so2fib.LinkedList.{Addr, list_empty, list_first}
use so2fib.CirBuffer.{cir_buff_write}
use so2fib.Kernel.{
  Kernel, freequeue, readyqueue, keyboardqueue, is_head, list_head_to_task_struct, current,
}
use so2fib.Sched.{update_sched_data_rr, needs_sched_rr, schedule}
use so2fib.Sched.Shape.{QueueMap, Valid}
use so2fib.Sched.Next.{SameLists}
use so2fib.Sched.Rotate.{exit_run_current-Shape}
use so2fib.Interrupts.{store_key, has_enough, clock_rutine}
use so2fib.Semaphores.Signal.{empty_of_nil, first_of_cons}
use so2fib.Steps.Front.{same-Valid, Front, nobody, somebody, front}
use so2fib.Isolation.{alive, Still, Still-trans, rest-Still}
use so2fib.Isolation.Sched.{alive-queued, update-Still, sched_next_rr-Still, exit_run_current-Still}

needs-Still : (k : Kernel) → Still k (needs_sched_rr (update_sched_data_rr k)).1
unfolding needs_sched_rr update_sched_data_rr current
needs-Still k = record {
  mem = ground arith;
  tables = ground arith;
  dirs = ground arith;
  refs = ground arith;
  dir = λ j. ground arith;
  number = λ j. ground arith;
  break_at = λ j. ground arith;
  was_alive = λ j live. ground arith;
}

needs-SameLists : (k : Kernel) → SameLists k (needs_sched_rr (update_sched_data_rr k)).1
unfolding needs_sched_rr update_sched_data_rr current
needs-SameLists k = record {
  links = ground arith;
  heads = ground arith;
  idle = ground arith;
  estado = λ j. ground arith;
}

needs-running : (k : Kernel) → (needs_sched_rr (update_sched_data_rr k)).1.running ≡ k.running
unfolding needs_sched_rr update_sched_data_rr current
needs-running k = ground arith

pub schedule-Still : {k : Kernel} {q : QueueMap} → Valid k q → Still k (schedule k)
unfolding schedule
schedule-Still {k} v =
    let (needed, k_1) = needs_sched_rr (update_sched_data_rr k) in
    let v_1 = same-Valid (needs-SameLists k) (needs-running k) v in
    elim (Bool-cases needed) [
      | inl due ↦ rw due (
          Still-trans (needs-Still k) (
            Still-trans (exit_run_current-Still readyqueue k_1)
              (sched_next_rr-Still (exit_run_current-Shape readyqueue refl v_1 (inr refl)))))
      | inr stays ↦ rw stays (needs-Still k)
    ]

pub clock_rutine-Still : {k : Kernel} {q : QueueMap} → Valid k q → Still k (clock_rutine k)
unfolding clock_rutine
clock_rutine-Still {k} v = Still-trans (rest-Still k) (
    schedule-Still
      (same-Valid (record { links = refl; heads = refl; idle = refl; estado = λ j. refl }) refl v))

-- The first task of a list is alive.
pub alive-first :
    {k : Kernel} {q : QueueMap} (h : Addr)
    → Valid k q
    → is_head k.semaphores h ≡ true
    → h ≢ freequeue
    → Front q h
    → list_empty h k.links ≡ false
    → alive (list_head_to_task_struct (list_first h k.links)) k ≡ true
alive-first h v hh ne (nobody n) some_wait = cc (sym (empty_of_nil v h hh n) ∙ some_wait)
alive-first {k} h v hh ne (somebody t rs e) some_wait =
    rw (first_of_cons v h hh e) (alive-queued h t v.shape hh ne (rw e (ground arith)))

pub store_key-Still : {k : Kernel} {q : QueueMap} (c : ℕ) → Valid k q → Still k (store_key c k)
unfolding store_key
store_key-Still {k} c v =
    let k_1 = record k { keyboard_buff = cir_buff_write k.keyboard_buff c } in
    let stored : Still k k_1 = rest-Still k in
    let t = list_head_to_task_struct (list_first keyboardqueue k.links) in
    elim (Bool-cases (list_empty keyboardqueue k.links)) [
      | inl nobody_there ↦ rw nobody_there stored
      | inr some_wait ↦ elim (Bool-cases (has_enough t k_1)) [
        | inr too_few ↦ rw (some_wait, too_few) stored
        | inl enough ↦
            rw (some_wait, enough)
              (Still-trans stored (
                update-Still t readyqueue k_1 (
                  alive-first keyboardqueue v refl (omega arith) (front keyboardqueue v refl)
                    some_wait)))
      ]
    ]
