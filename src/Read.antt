-- ===== src/Read.antt =====
-- devices.c: `sys_read_keyboard`; sys.c: `sys_read`.
pub mod Keys
pub mod Wait
use so2fib.Common.{
  ℕ, zero, suc, ◌+◌, ◌-◌, ◌==◌, Bool, true, false, not, Option, none, some, ℤ, pos, negsuc, neg,
  ◌+ℤ◌, ◌-ℤ◌, ltb_ℤ, leb_ℤ, if◌then◌else◌, pos_part, ◌^◌, ltb, ◌&&◌,
}
use so2fib.LinkedList.{list_empty, list_add}
use so2fib.Task.{Task, st_blocked}
use so2fib.CirBuffer.{CirBuffer, cirbuffer_size, cir_buff_read, cir_buff_full, cir_buff_lenght}
use so2fib.Utils.{Bytes, copy_to_user, access_ok, verify_write}
use so2fib.Kernel.{Kernel, task_list, keyboardqueue, current, set_task, set_links}
use so2fib.Space.{is_mapped}
use so2fib.Sched.{update_process_state_rr, sched_next_rr}
use so2fib.Semaphores.{einval}
use so2fib.Write.{check_fd, lectura, ebadf, efault}
use so2fib.Processes.{to_unsigned}

-- How an entry into `sys_read_keyboard` ends: with a result; with the task waiting, in which case
-- it goes on with `read_pass` when it runs again, with this pointer; behind the buffer's array; or
-- with a page fault, whose handler is not among the sources.
pub data ReadEnd : Type 0 where
  returns : ℤ → ReadEnd
  waits : ℕ → ReadEnd
  stray faults : ReadEnd

-- A `char`, which has a sign, where an address is expected.
abbrev pub char_addr : ℕ → ℕ
char_addr c = if ltb c 128 then c else c + (2 ^ 32 - 256)

module _ (k : Kernel) where
  -- `n` rounds of `key = cirBuffRead(...); copy_to_user(key, buff++, 1)`, where the key is passed for
  -- the address of the source; `none` behind the array, and false where a page of the copy is not
  -- present in the tables of `k`. The memory is the one that the task sees.
  unfoldable pub read_keys : ℕ → ℕ → CirBuffer × Bytes → Option (Bool × CirBuffer × Bytes)
  read_keys zero buff (b, m) = some (true, b, m)
  read_keys (suc n) buff (b, m) =
      let (found, b_1) = cir_buff_read b in
      elim found [
        | none ↦ none
        | some key ↦
            let rest = read_keys n (buff + 1) (b_1, (copy_to_user 1 (char_addr key) buff m).1) in
            if is_mapped (char_addr key) k && is_mapped buff k then rest else some (false, b_1, m)
      ]

abbrev pub add_read : ℤ → Kernel → Kernel
add_read n k = set_task (current k) (λ p. record p { read_keys = p.read_keys +ℤ n }) k

-- The end of a round of the loop: the task waits for keys, before the others.
unfoldable pub wait_keys : Kernel → Kernel
unfolding current
wait_keys k = sched_next_rr (
    set_task (current k) (λ p. record p { estado = st_blocked })
      (set_links (list_add (task_list (current k)) keyboardqueue) k))

-- What one round of the loop does, from `buff` on, for the current task's `requiredKeys` and
-- `readKeys`.
unfoldable pub read_round : ℤ → ℤ → ℕ → Kernel × Bytes → ReadEnd × Kernel × Bytes
read_round required read buff (k, m) =
    let wanted = required -ℤ read in
    if leb_ℤ wanted (cir_buff_lenght k.keyboard_buff)
    then elim (read_keys k (pos_part required) buff (k.keyboard_buff, m)) [
      | none ↦ (stray, k, m)
      | some (copied, b, m_1) ↦
          let k_1 = record k { keyboard_buff = b } in
          if copied
          then (returns (read +ℤ wanted), add_read wanted k_1, m_1)
          else (faults, k_1, m_1)
    ]
    else if cir_buff_full k.keyboard_buff
    then elim (read_keys k cirbuffer_size buff (k.keyboard_buff, m)) [
      | none ↦ (stray, k, m)
      | some (copied, b, m_1) ↦
          let k_1 = record k { keyboard_buff = b } in
          if copied
          then (waits (buff + cirbuffer_size), wait_keys (add_read (pos cirbuffer_size) k_1), m_1)
          else (faults, k_1, m_1)
    ]
    else (waits buff, wait_keys k, m)

unfoldable pub read_pass : ℕ → Kernel × Bytes → ReadEnd × Kernel × Bytes
unfolding current
read_pass buff (k, m) =
    let t = k.task (current k) in read_round t.required_keys t.read_keys buff (k, m)

-- The first entry: the task waits behind the others, if any wait.
unfoldable pub sys_read_keyboard : ℕ → ℤ → Kernel × Bytes → ReadEnd × Kernel × Bytes
unfolding current
sys_read_keyboard buff size (k, m) =
    let k_1 = set_task (current k) (λ p. record p { read_keys = pos 0; required_keys = size }) k in
    if not (list_empty keyboardqueue k_1.links)
    then (waits buff, sched_next_rr (update_process_state_rr (current k_1) keyboardqueue k_1), m)
    else read_pass buff (k_1, m)

unfoldable pub sys_read : ℤ → ℕ → ℤ → Kernel × Bytes → ReadEnd × Kernel × Bytes
sys_read fd buf count (k, m) =
    if buf == 0
    then (returns efault, k, m)
    else if ltb_ℤ count (pos 0)
    then (returns einval, k, m)
    else if ltb_ℤ (check_fd fd lectura) (pos 0)
    then (returns ebadf, k, m)
    else if not (access_ok verify_write buf (to_unsigned count))
    then (returns efault, k, m)
    else sys_read_keyboard buf count (k, m)
