-- ===== src/Tests/SchedRuns.antt =====
-- The policy on the kernel of `Fixture`.
use so2fib.Common.{◌≡◌, refl, inr, [], ◌∷◌, arith, pos, update}
use so2fib.Kernel.{task_list, readyqueue, blocked_queue}
use so2fib.Sched.{schedule, sched_next_rr, exit_run_current, update_process_state_rr}
use so2fib.Sched.Shape.{Shape, Valid}
use so2fib.Sched.Next.{dequeue, sched_next_rr_lem}
use so2fib.Sched.Rotate.{schedule-rotate, schedule-count, schedule-alone, exit_run_current-Shape}
use so2fib.Sched.Wake.{wake_map, wake-Valid}
use so2fib.Tests.Fixture.{busy, busy_map, busy-Valid, alone, no_queues, alone-Valid}

schedule-rotate_example :
    Valid (schedule busy) (update busy_map readyqueue (task_list 1 ∷ []))
    × ((schedule busy).running ≡ 2)
    × ((schedule busy).q_left ≡ pos 15)
schedule-rotate_example = schedule-rotate 2 [] busy-Valid refl refl

schedule-alone_example :
    Valid (schedule alone) no_queues
    × ((schedule alone).running ≡ 1)
    × ((schedule alone).q_left ≡ pos 15)
schedule-alone_example = schedule-alone alone-Valid refl refl

schedule-count_example : schedule (record busy { q_left = pos 3 }) ≡ record busy { q_left = pos 2 }
schedule-count_example = schedule-count (record busy { q_left = pos 3 }) (ground arith)

sched_next_rr_lem_example :
    Valid (sched_next_rr busy) (dequeue busy_map) × ((sched_next_rr busy).running ≡ 2)
sched_next_rr_lem_example = sched_next_rr_lem busy-Valid.shape

exit_run_current-Shape_example :
    Shape
      (exit_run_current readyqueue busy)
      (update busy_map readyqueue (task_list 2 ∷ task_list 1 ∷ []))
exit_run_current-Shape_example = exit_run_current-Shape readyqueue refl busy-Valid (inr refl)

wake-Valid_example :
    Valid (update_process_state_rr 3 readyqueue busy) (wake_map busy_map (blocked_queue 0) [] 3)
wake-Valid_example = wake-Valid busy-Valid (blocked_queue 0) [] 3 [] refl (omega arith) refl
