-- ===== src/Read/Wait.antt =====
-- A reader that waits until its keys have come.
use so2fib.Common.{
  ℕ, ◌+◌, ◌<◌, ◌≤◌, ◌≡◌, ◌≢◌, refl, ◌∙◌, ap, sym, true, false, Bool-cases, inl, inr, List, [], ◌∷◌,
  ◌++◌, length, arith, pos, ◌-ℤ◌, leb_ℤ, update, subst, ==-ne, le→not-ltb, eqb_ℤ,
}
use so2fib.LinkedList.{list_empty}
use so2fib.CirBuffer.{cir_buff_full, cir_buff_lenght}
use so2fib.CirBuffer.Window.{IsValid, count, contents}
use so2fib.CirBuffer.Lenght.{lenght-count}
use so2fib.Task.{Stats, add_system, add_ready, add_trans}
use so2fib.Utils.{Bytes, access_ok, verify_write}
use so2fib.Kernel.{
  Kernel, current, task_list, readyqueue, keyboardqueue, set_task, set_stats, get_ticks,
}
use so2fib.Sched.{get_quantum, charge, inner_task_switch, run_next, sched_next_rr}
use so2fib.Sched.Shape.{QueueMap, Valid}
use so2fib.Sched.Place.{enter_first-Shape}
use so2fib.Sched.Next.{dequeue, prepared, sched_next_rr_lem}
use so2fib.Semaphores.Signal.{empty_of_nil}
use so2fib.Steps.Front.{same-Valid}
use so2fib.Processes.{to_unsigned}
use so2fib.Write.{check_fd}
use so2fib.Interrupts.Keyboard.{wanted}
use so2fib.Interrupts.Arrive.{keys, woken_by, update-keyboard, full-count, keys-woken_by}
use so2fib.Read.{waits, wait_keys, read_round, read_pass, sys_read_keyboard, sys_read}

wanted-switch : (j t : ℕ) (k : Kernel) → wanted j (inner_task_switch t k) ≡ wanted j k
unfolding inner_task_switch current
wanted-switch j t k = ground arith

wanted-charge :
    (j t : ℕ) (add : ℕ → Stats → Stats) (k : Kernel) → wanted j (charge add t k) ≡ wanted j k
unfolding charge get_ticks
wanted-charge j t add k = ground arith

wanted-stats : (j t : ℕ) (f : Stats → Stats) (k : Kernel) → wanted j (set_stats t f k) ≡ wanted j k
wanted-stats j t f k = ground arith

keyboard-switch : (t : ℕ) (k : Kernel) → (inner_task_switch t k).keyboard_buff ≡ k.keyboard_buff
unfolding inner_task_switch
keyboard-switch t k = refl

keyboard-prepared : (t : ℕ) (k : Kernel) → (prepared t k).keyboard_buff ≡ k.keyboard_buff
unfolding charge get_ticks
keyboard-prepared t k = refl

keyboard-run_next :
    (j t : ℕ) (k : Kernel)
    → ((run_next t k).keyboard_buff ≡ k.keyboard_buff) × (wanted j (run_next t k) ≡ wanted j k)
unfolding run_next
keyboard-run_next j t k =
    let k_1 = record k { q_left = get_quantum t k } in
    let k_2 = charge add_system t k_1 in
    let (ring, want) = update-keyboard j t 0 (prepared t k) in
    (
      keyboard-switch t _ ∙ ring ∙ keyboard-prepared t k,
      wanted-switch j t _
          ∙ want
          ∙ wanted-stats j t add_trans (charge add_ready t k_2)
          ∙ wanted-charge j t add_ready k_2
          ∙ wanted-charge j t add_system k_1,
    )

-- The switch to another task leaves the ring, and what each task waits for.
keyboard-sched_next_rr :
    (j : ℕ) (k : Kernel)
    → ((sched_next_rr k).keyboard_buff ≡ k.keyboard_buff)
      × (wanted j (sched_next_rr k) ≡ wanted j k)
unfolding sched_next_rr inner_task_switch current
keyboard-sched_next_rr j k = elim (Bool-cases (list_empty readyqueue k.links)) [
  | inl e ↦ rw e (refl, ground arith)
  | inr e ↦ rw e (keyboard-run_next j _ k)
]

-- The lists when the current task waits for the keyboard, where nobody else does.
abbrev pub waiting_map : ℕ → QueueMap → QueueMap
waiting_map i q = dequeue (update q keyboardqueue (task_list i ∷ []))

wait_keys-Valid :
    {k : Kernel} {q : QueueMap}
    → Valid k q
    → k.running ≢ k.idle_task
    → q keyboardqueue ≡ []
    → Valid (wait_keys k) (waiting_map k.running q)
unfolding wait_keys current
wait_keys-Valid {k} {q} v user nobody =
    subst (λ xs. Valid (wait_keys k) (dequeue (update q keyboardqueue (task_list k.running ∷ xs))))
      nobody
      (sched_next_rr_lem
        (enter_first-Shape v.shape k.running keyboardqueue refl v.current (inl user))).0

wait_keys-keyboard :
    (j : ℕ) (k : Kernel)
    → ((wait_keys k).keyboard_buff ≡ k.keyboard_buff) × (wanted j (wait_keys k) ≡ wanted j k)
unfolding wait_keys current
wait_keys-keyboard j k =
    let (ring, want) = keyboard-sched_next_rr j _ in (ring, want ∙ ground arith)

read_round-waits :
    (n buf : ℕ) (k : Kernel) (m : Bytes)
    → IsValid k.keyboard_buff
    → n < 16
    → count k.keyboard_buff < n
    → read_round (pos n) (pos 0) buf (k, m) ≡ (waits buf, wait_keys k, m)
unfolding read_round cir_buff_full
read_round-waits n buf k m ring small less =
    let short : leb_ℤ (pos n -ℤ pos 0) (cir_buff_lenght k.keyboard_buff) ≡ false =
      ap (leb_ℤ (pos n -ℤ pos 0)) (lenght-count k.keyboard_buff ring) ∙ ground arith in
    rw (short, full-count k.keyboard_buff (omega arith)) refl

read_pass-waits :
    (n buf : ℕ) (k : Kernel) (m : Bytes)
    → IsValid k.keyboard_buff
    → n < 16
    → count k.keyboard_buff < n
    → (k.task k.running).required_keys ≡ pos n
    → (k.task k.running).read_keys ≡ pos 0
    → read_pass buf (k, m) ≡ (waits buf, wait_keys k, m)
unfolding read_pass current
read_pass-waits n buf k m ring small less required read =
    rw (required, read) (read_round-waits n buf k m ring small less)

-- The current task asks for `n` keys.
abbrev pub asking : ℕ → Kernel → Kernel
asking n k = set_task k.running (λ p. record p { read_keys = pos 0; required_keys = pos n }) k

asking-Valid : (n : ℕ) {k : Kernel} {q : QueueMap} → Valid k q → Valid (asking n k) q
asking-Valid n v =
    same-Valid (record { links = refl; heads = refl; idle = refl; estado = λ j. ground arith }) refl
      v

sys_read-waits :
    (n buf : ℕ) (k : Kernel) (m : Bytes)
    → list_empty keyboardqueue k.links ≡ true
    → IsValid k.keyboard_buff
    → n < 16
    → count k.keyboard_buff < n
    → buf ≢ 0
    → access_ok verify_write buf (to_unsigned (pos n)) ≡ true
    → sys_read (pos 0) buf (pos n) (k, m) ≡ (waits buf, wait_keys (asking n k), m)
unfolding sys_read sys_read_keyboard current check_fd eqb_ℤ
sys_read-waits n buf k m nobody ring small less ne ok =
    rw (==-ne buf 0 ne, le→not-ltb (n + 0) 0 (omega arith), ok, nobody)
      (read_pass-waits n buf (asking n k) m ring small less (ground arith) (ground arith))

-- The keys that come when the task waits.
waiting-woken_by :
    (n : ℕ) (cs : List ℕ) {k : Kernel} {q : QueueMap}
    → Valid k q
    → k.running ≢ k.idle_task
    → q keyboardqueue ≡ []
    → IsValid k.keyboard_buff
    → n < 16
    → count k.keyboard_buff + length cs ≤ n
    → count k.keyboard_buff < n
    → let k_1 = wait_keys (asking n k) in
      Valid
        (keys cs k_1)
        (woken_by k.running n [] (count k.keyboard_buff + length cs) (waiting_map k.running q))
      × (contents (keys cs k_1).keyboard_buff ≡ contents k.keyboard_buff ++ cs)
waiting-woken_by n cs {k} {q} v user nobody ring small fits less =
    let k_1 = wait_keys (asking n k) in
    let (kept, wants) = wait_keys-keyboard k.running (asking n k) in
    let same : count k_1.keyboard_buff ≡ count k.keyboard_buff = ap count kept in
    let (v_1, held) =
      keys-woken_by k.running n [] small cs (wait_keys-Valid (asking-Valid n v) user nobody)
        (ground arith) (subst IsValid (sym kept) ring) (wants ∙ ground arith)
        (omega (arith, same, less)) (omega (arith, same, fits)) in
    (
      subst
          (λ c.
            Valid (keys cs k_1) (woken_by k.running n [] (c + length cs) (waiting_map k.running q)))
          same v_1,
      held ∙ ap (λ b. contents b ++ cs) kept,
    )

-- `sys_read` of `n` keys, at most 15, by a task other than the idle task, into a buffer that
-- `access_ok` lets through, while nobody waits for the keyboard and the ring holds fewer than `n`
-- keys: the task waits, and the first ready task, if there is one, leaves readyqueue. Keys that
-- come then, up to `n` in all, are stored behind those in the ring; while there are fewer than `n`
-- the task waits, and the one that makes it `n` makes the task ready, behind the others that are.
-- Lists and states stay well formed.
pub sys_read-woken_by :
    (n buf : ℕ) (cs : List ℕ) {k : Kernel} {q : QueueMap} (m : Bytes)
    → Valid k q
    → k.running ≢ k.idle_task
    → q keyboardqueue ≡ []
    → IsValid k.keyboard_buff
    → n < 16
    → count k.keyboard_buff + length cs ≤ n
    → count k.keyboard_buff < n
    → buf ≢ 0
    → access_ok verify_write buf (to_unsigned (pos n)) ≡ true
    → let (out, k_1, _) = sys_read (pos 0) buf (pos n) (k, m) in
      (out ≡ waits buf)
      × Valid
          (keys cs k_1)
          (woken_by k.running n [] (count k.keyboard_buff + length cs) (waiting_map k.running q))
      × (contents (keys cs k_1).keyboard_buff ≡ contents k.keyboard_buff ++ cs)
sys_read-woken_by n buf cs {k} {q} m v user nobody ring small fits less ne ok =
    let empty = empty_of_nil v keyboardqueue refl nobody in
    let (v_1, held) = waiting-woken_by n cs v user nobody ring small fits less in
    rw (sys_read-waits n buf k m empty ring small less ne ok) (refl, v_1, held)
