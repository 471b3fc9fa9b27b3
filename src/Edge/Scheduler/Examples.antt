-- ===== src/Edge/Scheduler/Examples.antt =====
-- The scheduler of the edge runtime at concrete histories.
use rfidsystem.Prelude.{◌≡◌, refl, List, [], ◌∷◌, ◌++◌, map, drop, take, keep, All}
use rfidsystem.Edge.Scheduler.{
  localization, local_ai, EdgeScheduler, new_scheduler, before, insert, schedule_task,
  execute_next_task, fill_loop, tick, erase_first, cancel_task, set_max_concurrent_tasks,
}
use rfidsystem.Edge.Scheduler.Order.{IsLessUrgent}
use rfidsystem.Edge.Scheduler.Ticks.{
  started, starting, tick_exact, Call, schedules, cancels, limits, step, run, urgent_first,
}

abbrev three : List Call
three =
    limits 2 ∷ schedules localization 1 50 ∷ schedules local_ai 9 90 ∷ schedules local_ai 9 10 ∷ []

-- The number of a task that was cancelled is given out while another task has it.
schedule_task-repeats :
    map
      (λ t. t.task_id)
      (run
        (schedules localization 1 1
          ∷ schedules localization 1 2
          ∷ cancels 1
          ∷ schedules localization 1 3
          ∷ [])
        new_scheduler).pending_tasks
    ≡ 2 ∷ 2 ∷ []
unfolding run step new_scheduler schedule_task insert before cancel_task erase_first
schedule_task-repeats = refl

-- The two tasks of the high priority start, the one of the earlier deadline first.
tick-urgent : map (λ t. t.task_id) (tick (run three new_scheduler)).running_tasks ≡ 3 ∷ 2 ∷ []
unfolding run step new_scheduler schedule_task insert before set_max_concurrent_tasks tick fill_loop
    execute_next_task
tick-urgent = refl

abbrev scheduled : EdgeScheduler
scheduled = run three new_scheduler

tick_exact_example :
    ((tick scheduled).pending_tasks ≡ drop (starting scheduled) scheduled.pending_tasks)
    × ((tick scheduled).running_tasks
        ≡ keep (λ t. t.running) scheduled.running_tasks
          ++ map started (take (starting scheduled) scheduled.pending_tasks))
tick_exact_example = tick_exact scheduled

urgent_first_example :
    All
      (λ t. All (λ u. IsLessUrgent t u) (tick scheduled).pending_tasks)
      (take (starting scheduled) scheduled.pending_tasks)
urgent_first_example = urgent_first three
