-- ===== src/Steps/Keys.antt =====
-- `sys_read` keeps lists and states well formed, on all its branches that stay inside the buffer's
-- array.
use so2fib.Common.{
  ℕ, true, false, ◌≢◌, refl, Bool-cases, Option-cases, inl, inr, ℤ, pos, ◌-ℤ◌, leb_ℤ, ltb_ℤ, arith,
  ◌==◌, pos_part, [], ◌∷◌, ◌++◌, update,
}
use so2fib.LinkedList.{list_empty}
use so2fib.CirBuffer.{CirBuffer, cirbuffer_size, cir_buff_full, cir_buff_lenght}
use so2fib.Utils.{Bytes, access_ok, verify_write}
use so2fib.Kernel.{Kernel, current, keyboardqueue, task_list, set_task}
use so2fib.Sched.Shape.{Valid}
use so2fib.Sched.Place.{park-eq, enter-Shape, enter_first-Shape}
use so2fib.Sched.Next.{dequeue, sched_next_rr_lem}
use so2fib.Processes.{to_unsigned}
use so2fib.Write.{check_fd, lectura}
use so2fib.Read.{read_keys, add_read, wait_keys, read_round, read_pass, sys_read_keyboard, sys_read}
use so2fib.Sched.Sems.{semaphores-sched_next_rr}
use so2fib.Steps.Front.{IsClosed, IsConsistent, same-Valid, same-IsClosed}

wait_keys-IsConsistent :
    {k : Kernel} → IsConsistent k → k.running ≢ k.idle_task → IsConsistent (wait_keys k)
unfolding wait_keys current
wait_keys-IsConsistent {k} c user = record {
  lists = dequeue (update c.lists keyboardqueue (task_list k.running ∷ c.lists keyboardqueue));
  valid =
      (sched_next_rr_lem (
        enter_first-Shape c.valid.shape k.running keyboardqueue refl c.valid.current (inl user))).0;
  closed = same-IsClosed (semaphores-sched_next_rr _) (λ i lt. ground arith) c.closed;
}

-- A round of the loop changes the ring, and the count of the current task.
abbrev counted : ℤ → CirBuffer → Kernel → Kernel
counted n b k = add_read n (record k { keyboard_buff = b })

counted-IsConsistent :
    {k : Kernel} (n : ℤ) (b : CirBuffer) → IsConsistent k → IsConsistent (counted n b k)
unfolding current
counted-IsConsistent n b c = record {
  lists = c.lists;
  valid =
      same-Valid (record { links = refl; heads = refl; idle = refl; estado = λ j. ground arith })
        refl c.valid;
  closed = same-IsClosed refl (λ i lt. refl) c.closed;
}

ring-IsConsistent :
    {k : Kernel} (b : CirBuffer) → IsConsistent k → IsConsistent (record k { keyboard_buff = b })
ring-IsConsistent b c = record {
  lists = c.lists;
  valid =
      same-Valid (record { links = refl; heads = refl; idle = refl; estado = λ j. refl }) refl
        c.valid;
  closed = same-IsClosed refl (λ i lt. refl) c.closed;
}

read_round-IsConsistent :
    {k : Kernel} (required read : ℤ) (buff : ℕ) (m : Bytes)
    → IsConsistent k
    → k.running ≢ k.idle_task
    → IsConsistent (read_round required read buff (k, m)).1
unfolding read_round current
read_round-IsConsistent {k} required read buff m c user =
    let wanted = required -ℤ read in
    elim (Bool-cases (leb_ℤ wanted (cir_buff_lenght k.keyboard_buff))) [
      | inl enough ↦
          elim (Option-cases (read_keys k (pos_part required) buff (k.keyboard_buff, m))) [
            | inl off ↦ rw (enough, off) c
            | inr ((false, b, m'), got) ↦ rw (enough, got) (ring-IsConsistent b c)
            | inr ((true, b, m'), got) ↦ rw (enough, got) (counted-IsConsistent wanted b c)
          ]
      | inr short ↦ elim (Bool-cases (cir_buff_full k.keyboard_buff)) [
        | inr room ↦ rw (short, room) (wait_keys-IsConsistent c user)
        | inl full ↦ elim (Option-cases (read_keys k cirbuffer_size buff (k.keyboard_buff, m))) [
          | inl off ↦ rw (short, full, off) c
          | inr ((false, b, m'), got) ↦ rw (short, full, got) (ring-IsConsistent b c)
          | inr ((true, b, m'), got) ↦
              rw (short, full, got)
                (wait_keys-IsConsistent (counted-IsConsistent (pos cirbuffer_size) b c) user)
        ]
      ]
    ]

pub read_pass-IsConsistent :
    {k : Kernel} (buff : ℕ) (m : Bytes)
    → IsConsistent k
    → k.running ≢ k.idle_task
    → IsConsistent (read_pass buff (k, m)).1
unfolding read_pass
read_pass-IsConsistent buff m c user = read_round-IsConsistent _ _ buff m c user

sys_read_keyboard-IsConsistent :
    {k : Kernel} (buff : ℕ) (size : ℤ) (m : Bytes)
    → IsConsistent k
    → k.running ≢ k.idle_task
    → IsConsistent (sys_read_keyboard buff size (k, m)).1
unfolding sys_read_keyboard current
sys_read_keyboard-IsConsistent {k} buff size m c user =
    let k_1 = set_task k.running (λ p. record p { read_keys = pos 0; required_keys = size }) k in
    let v_1 : Valid k_1 c.lists =
      same-Valid (record { links = refl; heads = refl; idle = refl; estado = λ j. ground arith })
        refl c.valid in
    let c_1 : IsClosed k_1 c.lists = same-IsClosed refl (λ i lt. refl) c.closed in
    elim (Bool-cases (list_empty keyboardqueue k.links)) [
      | inl nobody ↦ rw nobody (
          read_pass-IsConsistent buff m (record { lists = c.lists; valid = v_1; closed = c_1 })
            user)
      | inr others ↦
          rw (others, park-eq k_1 k.running keyboardqueue v_1.current.runs (omega arith))
            (record {
              lists = dequeue (
                  update c.lists keyboardqueue (c.lists keyboardqueue ++ task_list k.running ∷ []));
              valid =
                  (sched_next_rr_lem
                    (enter-Shape v_1.shape k.running keyboardqueue refl v_1.current (inl user))).0;
              closed = same-IsClosed (semaphores-sched_next_rr _) (λ i lt. ground arith) c_1;
            })
    ]

pub sys_read-IsConsistent :
    {k : Kernel} (fd : ℤ) (buf : ℕ) (count : ℤ) (m : Bytes)
    → IsConsistent k
    → k.running ≢ k.idle_task
    → IsConsistent (sys_read fd buf count (k, m)).1
unfolding sys_read
sys_read-IsConsistent fd buf count m c user = elim (Bool-cases (buf == 0)) [
  | inl e ↦ rw e c
  | inr ne ↦ elim (Bool-cases (ltb_ℤ count (pos 0))) [
    | inl e ↦ rw (ne, e) c
    | inr ge ↦ elim (Bool-cases (ltb_ℤ (check_fd fd lectura) (pos 0))) [
      | inl e ↦ rw (ne, ge, e) c
      | inr ok ↦ elim (Bool-cases (access_ok verify_write buf (to_unsigned count))) [
        | inr e ↦ rw (ne, ge, ok, e) c
        | inl let_through ↦
            rw (ne, ge, ok, let_through) (sys_read_keyboard-IsConsistent buf count m c user)
      ]
    ]
  ]
]
