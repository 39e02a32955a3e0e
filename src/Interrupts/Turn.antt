-- ===== src/Interrupts/Turn.antt =====
-- Round robin over clock ticks: a ready task comes to run.
use so2fib.Common.{
  ℕ, zero, suc, ◌+◌, ◌-◌, ◌<◌, ◌≤◌, ◌≡◌, refl, ◌∙◌, ap, sym, arith, subst, List, [], ◌∷◌, ◌++◌,
  append_assoc, ℤ, pos, ◌+ℤ◌, ◌-ℤ◌, update,
}
use so2fib.LinkedList.{Addr}
use so2fib.Kernel.{Kernel, task_list, readyqueue}
use so2fib.Sched.Shape.{QueueMap, Valid}
use so2fib.Sched.Next.{SameLists, IsRunning-same, Shape-same}
use so2fib.Sched.Rotate.{schedule-count, schedule-rotate}
use so2fib.Sched.Turn.{quantum-schedule}
use so2fib.Interrupts.{clock_rutine}

-- `n` ticks of the clock, and nothing else.
unfoldable pub ticks : ℕ → Kernel → Kernel
ticks zero k = k
ticks (suc n) k = ticks n (clock_rutine k)

ticks-add : (n m : ℕ) (k : Kernel) → ticks m (ticks n k) ≡ ticks (n + m) k
unfolding ticks
ticks-add zero m k = let e : m ≡ 0 + m = omega arith in ap (λ j. ticks j k) e
ticks-add (suc n) m k =
    let e : suc (n + m) ≡ suc n + m = omega arith in
    ticks-add n m (clock_rutine k) ∙ ap (λ j. ticks j k) e

-- From 1 to `bound`.
pub record IsQuantum (bound : ℕ) (q : ℤ) : Type 0 where
  pub ticks_left : ℕ
  pub is : q ≡ pos (suc ticks_left)
  pub most : ticks_left < bound

-- A state between two kernel calls in which no quantum is above `bound`.
pub record Timed (bound : ℕ) (k : Kernel) (q : QueueMap) : Type 0 where
  pub valid : Valid k q
  pub quanta : (i : ℕ) → IsQuantum bound (k.task i).quantum
  pub left : IsQuantum bound k.q_left

clocked-Valid :
    {k : Kernel} {q : QueueMap} (l z : ℤ)
    → Valid k q
    → Valid (record k { q_left = l; zeos_ticks = z }) q
clocked-Valid {k} l z v =
    let same : SameLists k (record k { q_left = l; zeos_ticks = z }) = record {
      links = refl;
      heads = refl;
      idle = refl;
      estado = λ j. refl;
    } in
    record { shape = Shape-same same v.shape; current = IsRunning-same same v.current }

quantum-clock_rutine : (k : Kernel) (i : ℕ) → ((clock_rutine k).task i).quantum ≡ (k.task i).quantum
unfolding clock_rutine
quantum-clock_rutine k i = quantum-schedule _ i

kept-IsQuantum :
    {bound : ℕ} (k : Kernel)
    → ((i : ℕ) → IsQuantum bound (k.task i).quantum)
    → (i : ℕ) → IsQuantum bound ((clock_rutine k).task i).quantum
kept-IsQuantum {bound} k quanta i =
    subst (IsQuantum bound) (sym (quantum-clock_rutine k i)) (quanta i)

-- A tick before the last of a quantum.
clock_rutine-count :
    {k : Kernel} {q : QueueMap} (n : ℕ)
    → Valid k q
    → k.q_left ≡ pos (suc (suc n))
    → Valid (clock_rutine k) q
      × ((clock_rutine k).q_left ≡ pos (suc n))
      × ((clock_rutine k).running ≡ k.running)
unfolding clock_rutine
clock_rutine-count {k} n v e =
    rw
      (schedule-count (record k { zeos_ticks = k.zeos_ticks +ℤ pos 1 }) (λ f. ground (arith, e, f)))
      (clocked-Valid (k.q_left -ℤ pos 1) (k.zeos_ticks +ℤ pos 1) v, rw e (ground arith), refl)

-- The last.
clock_rutine-last :
    {k : Kernel} {q : QueueMap} (bound t : ℕ) (rs : List Addr)
    → Valid k q
    → ((i : ℕ) → IsQuantum bound (k.task i).quantum)
    → k.q_left ≡ pos 1
    → q readyqueue ≡ task_list t ∷ rs
    → Timed bound (clock_rutine k) (update q readyqueue (rs ++ task_list k.running ∷ []))
      × ((clock_rutine k).running ≡ t)
unfolding clock_rutine
clock_rutine-last {k} bound t rs v quanta e ready =
    let v_1 = clocked-Valid k.q_left (k.zeos_ticks +ℤ pos 1) v in
    let (v_2, r, l) = schedule-rotate t rs v_1 e ready in
    (
      record {
        valid = v_2;
        quanta = kept-IsQuantum k quanta;
        left = subst (IsQuantum bound) (sym l) (quanta k.running);
      },
      r,
    )

-- After the quantum of the current task the first ready task runs, and the other has gone to the end.
whole_quantum :
    (bound m t : ℕ) (rs : List Addr) {k : Kernel} {q : QueueMap}
    → Valid k q
    → ((i : ℕ) → IsQuantum bound (k.task i).quantum)
    → k.q_left ≡ pos (suc m)
    → q readyqueue ≡ task_list t ∷ rs
    → Timed bound (ticks (suc m) k) (update q readyqueue (rs ++ task_list k.running ∷ []))
      × ((ticks (suc m) k).running ≡ t)
unfolding ticks
whole_quantum bound zero t rs v quanta e ready = clock_rutine-last bound t rs v quanta e ready
whole_quantum bound (suc m) t rs {k} {q} v quanta e ready =
    let (v_1, e_1, r) = clock_rutine-count m v e in
    let (timed, runs) = whole_quantum bound m t rs v_1 (kept-IsQuantum k quanta) e_1 ready in
    (
      subst
          (λ i.
            Timed bound (ticks (suc m) (clock_rutine k))
              (update q readyqueue (rs ++ task_list i ∷ [])))
          r timed,
      runs,
    )

-- The ticks that the current task and `xs` may take.
abbrev pub wait_bound : ℕ → List Addr → ℕ
wait_bound bound [] = bound
wait_bound bound (x ∷ xs) = bound + wait_bound bound xs

-- A ready task runs after at most as many ticks as the current task and those ready before it have
-- quanta for, if nothing but the clock enters the kernel and no quantum is 0 or above `bound`.
pub ready-runs :
    (bound t : ℕ) (xs ys : List Addr) {k : Kernel} {q : QueueMap}
    → Timed bound k q
    → q readyqueue ≡ xs ++ task_list t ∷ ys
    → (n : ℕ) × (n ≤ wait_bound bound xs) × ((ticks n k).running ≡ t)
ready-runs bound t [] ys s ready =
    let l = s.left in
    let (_, runs) = whole_quantum bound l.ticks_left t ys s.valid s.quanta l.is ready in
    (suc l.ticks_left, omega (arith, l.most), runs)
ready-runs bound t (x ∷ xs) ys {k} s ready =
    let l = s.left in
    let (low, _) = s.valid.shape.member readyqueue x refl (rw ready (ground arith)) in
    let at : x ≡ task_list (x - 1) = omega arith in
    let (s_1, _) =
      whole_quantum bound l.ticks_left (x - 1) (xs ++ task_list t ∷ ys) s.valid s.quanta l.is
        (ready ∙ ap (λ b. b ∷ xs ++ task_list t ∷ ys) at) in
    let (n, most, runs) =
      ready-runs bound t xs (ys ++ task_list k.running ∷ []) s_1
        (append_assoc xs (task_list t ∷ ys) (task_list k.running ∷ [])) in
    (
      suc l.ticks_left + n,
      omega (arith, l.most, most),
      ap (λ j. j.running) (sym (ticks-add (suc l.ticks_left) n k)) ∙ runs,
    )
