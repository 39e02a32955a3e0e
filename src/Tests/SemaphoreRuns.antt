-- ===== src/Tests/SemaphoreRuns.antt =====
-- The semaphore calls on the kernel of `Fixture`.
use so2fib.Common.{◌≡◌, refl, none, some, [], ◌∷◌, arith, pos, update, eqb_ℤ, ◌-ℤ◌, ◌+ℤ◌}
use so2fib.Kernel.{Kernel, task_list, blocked_queue, set_sem}
use so2fib.Sched.Shape.{Valid}
use so2fib.Sched.Next.{dequeue}
use so2fib.Sched.Wake.{wake_map}
use so2fib.Semaphores.{
  returns, switched, cerca_sem, find_used, find_free, cerca_sem_lliure, sys_sem_init, sys_sem_wait,
  sys_sem_signal, sys_sem_destroy,
}
use so2fib.Semaphores.Search.{Search, Names, IsFree, cerca_sem-Search, cerca_sem_lliure-Search}
use so2fib.Semaphores.Init.{new_sem, open_map, sys_sem_init-opens}
use so2fib.Semaphores.Wait.{cleared, sys_sem_wait-blocks, sys_sem_wait-takes}
use so2fib.Semaphores.Signal.{sys_sem_signal-wakes, sys_sem_signal-counts}
use so2fib.Semaphores.Destroy.{Destroyed, sys_sem_destroy-Released}
use so2fib.Tests.Fixture.{busy, busy_map, busy-Valid, alone, alone-Valid}

finds_7 : cerca_sem (pos 7) busy.semaphores ≡ some 0
unfolding cerca_sem find_used eqb_ℤ
finds_7 = refl

cerca_sem-Search_example :
    Search (Names busy.semaphores (pos 7)) 0 20 (cerca_sem (pos 7) busy.semaphores)
cerca_sem-Search_example = cerca_sem-Search busy.semaphores (pos 7)

cerca_sem_lliure-Search_example :
    Search (IsFree busy.semaphores) 0 20 (cerca_sem_lliure busy.semaphores)
cerca_sem_lliure-Search_example = cerca_sem_lliure-Search busy.semaphores

sys_sem_wait-blocks_example :
    let waiting = update busy_map (blocked_queue 0) (task_list 3 ∷ task_list 1 ∷ []) in
    let (out, k') = sys_sem_wait (pos 7) busy in
    (out ≡ switched) × Valid k' (dequeue waiting) × (k'.running ≡ 2)
sys_sem_wait-blocks_example = sys_sem_wait-blocks busy (pos 7) finds_7 busy-Valid (omega arith) refl

abbrev open_gate : Kernel
open_gate = set_sem 0 (λ s. record s { counter = pos 2 }) busy

finds_open : cerca_sem (pos 7) open_gate.semaphores ≡ some 0
unfolding cerca_sem find_used eqb_ℤ
finds_open = refl

sys_sem_wait-takes_example : sys_sem_wait (pos 7) open_gate ≡ (
  returns (pos 0),
  set_sem 0 (λ s. record s { counter = s.counter -ℤ pos 1 }) (cleared open_gate),
)
sys_sem_wait-takes_example = sys_sem_wait-takes open_gate (pos 7) finds_open refl

sys_sem_signal-wakes_example :
    let (out, k') = sys_sem_signal (pos 7) busy in
    (out ≡ returns (pos 0))
    × Valid k' (wake_map busy_map (blocked_queue 0) [] 3)
    × (k'.running ≡ 1)
    × (k'.semaphores ≡ busy.semaphores)
sys_sem_signal-wakes_example = sys_sem_signal-wakes busy (pos 7) finds_7 busy-Valid 3 [] refl

sys_sem_signal-counts_example :
    sys_sem_signal (pos 7) alone
    ≡ (returns (pos 0), set_sem 0 (λ s. record s { counter = s.counter +ℤ pos 1 }) alone)
sys_sem_signal-counts_example = sys_sem_signal-counts alone (pos 7) finds_7 alone-Valid refl

sys_sem_destroy-Released_example :
    (k' : Kernel) × (sys_sem_destroy (pos 7) busy ≡ some (returns (pos 0), k'))
    × Destroyed busy busy_map 0 (task_list 3 ∷ []) k'
sys_sem_destroy-Released_example =
    sys_sem_destroy-Released busy busy_map (pos 7) busy-Valid finds_7 refl

misses_9 : cerca_sem (pos 9) busy.semaphores ≡ none
unfolding cerca_sem find_used eqb_ℤ
misses_9 = refl

next_free : cerca_sem_lliure busy.semaphores ≡ some 1
unfolding cerca_sem_lliure find_free
next_free = refl

sys_sem_init-opens_example :
    (k' : Kernel) × (sys_sem_init (pos 9) 2 busy ≡ (returns (pos 0), k'))
    × (cerca_sem (pos 9) k'.semaphores ≡ some 1)
    × (k'.semaphores 1 ≡ new_sem (pos 9) 2 busy)
    × Valid k' (open_map 1 busy_map)
    × (k'.running ≡ 1)
sys_sem_init-opens_example =
    sys_sem_init-opens busy busy_map (pos 9) 2 busy-Valid misses_9 next_free
