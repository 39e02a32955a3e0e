-- ===== src/Isolation/Reads.antt =====
-- `sys_read` leaves the memory map alone.
use so2fib.Common.{
  ℕ, true, false, ◌≢◌, ◌==◌, refl, Bool-cases, Option-cases, inl, inr, ℤ, pos, ◌+ℤ◌, ◌-ℤ◌, leb_ℤ,
  ltb_ℤ, arith, pos_part,
}
use so2fib.LinkedList.{list_empty, list_add}
use so2fib.CirBuffer.{CirBuffer, cirbuffer_size, cir_buff_full, cir_buff_lenght}
use so2fib.Task.{st_blocked}
use so2fib.Utils.{Bytes, access_ok, verify_write}
use so2fib.Kernel.{Kernel, current, keyboardqueue, task_list, set_task, set_links}
use so2fib.Sched.Shape.{QueueMap, Valid}
use so2fib.Sched.Place.{park-eq, enter-Shape, enter_first-Shape}
use so2fib.Processes.{to_unsigned}
use so2fib.Write.{check_fd, lectura}
use so2fib.Read.{read_keys, add_read, wait_keys, read_round, read_pass, sys_read_keyboard, sys_read}
use so2fib.Steps.Front.{same-Valid}
use so2fib.Isolation.{Still, Still-refl, Still-trans, rest-Still, task-Still}
use so2fib.Isolation.Sched.{alive-running, update-Still, sched_next_rr-Still}

wait_keys-Still :
    {k : Kernel} {q : QueueMap} → Valid k q → k.running ≢ k.idle_task → Still k (wait_keys k)
unfolding wait_keys current
wait_keys-Still {k} v user =
    let k_1 = set_links (list_add (task_list k.running) keyboardqueue) k in
    Still-trans (rest-Still k) (
      Still-trans
        (task-Still k.running (λ p. record p { estado = st_blocked }) k_1 (alive-running k_1) refl
          refl refl)
        (sched_next_rr-Still
          (enter_first-Shape v.shape k.running keyboardqueue refl v.current (inl user))))

-- A round of the loop changes the ring, and the count of the current task.
abbrev counted : ℤ → CirBuffer → Kernel → Kernel
counted n b k = add_read n (record k { keyboard_buff = b })

counted-Still : (n : ℤ) (b : CirBuffer) (k : Kernel) → Still k (counted n b k)
unfolding current
counted-Still n b k =
    let k_1 = record k { keyboard_buff = b } in
    Still-trans (rest-Still k) (
      task-Still k.running (λ p. record p { read_keys = p.read_keys +ℤ n }) k_1 (alive-running k_1)
        refl refl refl)

counted-Valid :
    {k : Kernel} {q : QueueMap} (n : ℤ) (b : CirBuffer) → Valid k q → Valid (counted n b k) q
unfolding current
counted-Valid n b v =
    same-Valid (record { links = refl; heads = refl; idle = refl; estado = λ j. ground arith }) refl
      v

module _ {q : QueueMap} (buff : ℕ) (m : Bytes) where
  read_round-Still :
      {k : Kernel} (required read : ℤ)
      → Valid k q
      → k.running ≢ k.idle_task
      → Still k (read_round required read buff (k, m)).1
  unfolding read_round current
  read_round-Still {k} required read v user =
      let wanted = required -ℤ read in
      elim (Bool-cases (leb_ℤ wanted (cir_buff_lenght k.keyboard_buff))) [
        | inl enough ↦
            elim (Option-cases (read_keys k (pos_part required) buff (k.keyboard_buff, m))) [
              | inl off ↦ rw (enough, off) (Still-refl k)
              | inr ((false, b, m'), got) ↦ rw (enough, got) (rest-Still k)
              | inr ((true, b, m'), got) ↦ rw (enough, got) (counted-Still wanted b k)
            ]
        | inr short ↦ elim (Bool-cases (cir_buff_full k.keyboard_buff)) [
          | inr room ↦ rw (short, room) (wait_keys-Still v user)
          | inl full ↦ elim (Option-cases (read_keys k cirbuffer_size buff (k.keyboard_buff, m))) [
            | inl off ↦ rw (short, full, off) (Still-refl k)
            | inr ((false, b, m'), got) ↦ rw (short, full, got) (rest-Still k)
            | inr ((true, b, m'), got) ↦
                rw (short, full, got)
                  (Still-trans (counted-Still (pos cirbuffer_size) b k)
                    (wait_keys-Still (counted-Valid (pos cirbuffer_size) b v) user))
          ]
        ]
      ]

  pub read_pass-Still :
      {k : Kernel} → Valid k q → k.running ≢ k.idle_task → Still k (read_pass buff (k, m)).1
  unfolding read_pass
  read_pass-Still v user = read_round-Still _ _ v user

  sys_read_keyboard-Still :
      {k : Kernel} (size : ℤ)
      → Valid k q
      → k.running ≢ k.idle_task
      → Still k (sys_read_keyboard buff size (k, m)).1
  unfolding sys_read_keyboard current
  sys_read_keyboard-Still {k} size v user =
      let k_1 = set_task k.running (λ p. record p { read_keys = pos 0; required_keys = size }) k in
      let asked : Still k k_1 =
        task-Still k.running (λ p. record p { read_keys = pos 0; required_keys = size }) k
          (alive-running k) refl refl refl in
      let v_1 : Valid k_1 q =
        same-Valid (record { links = refl; heads = refl; idle = refl; estado = λ j. ground arith })
          refl v in
      elim (Bool-cases (list_empty keyboardqueue k.links)) [
        | inl nobody ↦ rw nobody (Still-trans asked (read_pass-Still v_1 user))
        | inr others ↦
            let away = enter-Shape v_1.shape k.running keyboardqueue refl v_1.current (inl user) in
            rw others (
              Still-trans asked (
                Still-trans (update-Still k.running keyboardqueue k_1 (alive-running k_1)) (
                  rw (park-eq k_1 k.running keyboardqueue v_1.current.runs (omega arith))
                    (sched_next_rr-Still away))))
      ]

pub sys_read-Still :
    {k : Kernel} {q : QueueMap} (fd : ℤ) (buf : ℕ) (count : ℤ) (m : Bytes)
    → Valid k q
    → k.running ≢ k.idle_task
    → Still k (sys_read fd buf count (k, m)).1
unfolding sys_read
sys_read-Still {k} fd buf count m v user = elim (Bool-cases (buf == 0)) [
  | inl e ↦ rw e (Still-refl k)
  | inr ne ↦ elim (Bool-cases (ltb_ℤ count (pos 0))) [
    | inl e ↦ rw (ne, e) (Still-refl k)
    | inr ge ↦ elim (Bool-cases (ltb_ℤ (check_fd fd lectura) (pos 0))) [
      | inl e ↦ rw (ne, ge, e) (Still-refl k)
      | inr ok ↦ elim (Bool-cases (access_ok verify_write buf (to_unsigned count))) [
        | inr e ↦ rw (ne, ge, ok, e) (Still-refl k)
        | inl let_through ↦
            rw (ne, ge, ok, let_through) (sys_read_keyboard-Still buf m count v user)
      ]
    ]
  ]
]
