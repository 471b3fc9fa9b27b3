-- ===== src/Edge/Scheduler/Ticks.antt =====
-- What a tick of edge_runtime/edge_scheduler.cpp starts.
use rfidsystem.Prelude.{
  ℕ, suc, ◌-◌, min, ◌==◌, ltb, ◌≡◌, refl, sym, ap, subst, ◌∙◌, inl, inr, Bool, true, false, List,
  [], ◌∷◌, ◌++◌, map, arith, length, drop, take, snoc, keep, All, length-snoc, append_nil,
  Bool-cases, Option-cases,
}
use rfidsystem.Edge.Scheduler.{
  EdgeTaskType, EdgeTask, EdgeScheduler, new_scheduler, clear, schedule_task, execute_next_task,
  fill_loop, tick, erase_first, stop_first, cancel_task, set_max_concurrent_tasks,
}
use rfidsystem.Edge.Scheduler.Order.{
  IsLessUrgent, IsOrdered, insert-IsOrdered, erase_first-IsOrdered, drop-IsOrdered, take-IsUrgent,
}

abbrev pub started : EdgeTask → EdgeTask
started t = record t { running = true; start_time = 0 }

-- How many tasks there is room for.
abbrev pub starting : EdgeScheduler → ℕ
starting s = min (s.max_concurrent_tasks - length s.running_tasks) (length s.pending_tasks)

abbrev pub filled : EdgeScheduler → EdgeScheduler
filled s = record s {
  pending_tasks = drop (starting s) s.pending_tasks;
  running_tasks = s.running_tasks ++ map started (take (starting s) s.pending_tasks);
}

snoc-append :
    (xs : List EdgeTask) (x : EdgeTask) (ys : List EdgeTask) → snoc xs x ++ ys ≡ xs ++ (x ∷ ys)
snoc-append [] x ys = refl
snoc-append (y ∷ xs) x ys = ap (λ zs. y ∷ zs) (snoc-append xs x ys)

none_starting :
    (s : EdgeScheduler) (n : ℕ)
    → n ≡ 0
    → record s {
      pending_tasks = drop n s.pending_tasks;
      running_tasks = s.running_tasks ++ map started (take n s.pending_tasks);
    }
      ≡ s
none_starting s n h = rw (h, append_nil s.running_tasks) refl

abbrev of : List EdgeTask → List EdgeTask → ℕ → EdgeScheduler
of ps rs max = record { pending_tasks = ps; running_tasks = rs; max_concurrent_tasks = max }

fill_loop-filled :
    (ps rs : List EdgeTask) (max : ℕ) → fill_loop (length ps) (of ps rs max) ≡ filled (of ps rs max)
unfolding fill_loop execute_next_task
fill_loop-filled [] rs max =
    sym (none_starting (of [] rs max) (starting (of [] rs max)) (omega arith))
fill_loop-filled (p ∷ ps) rs max = elim (Bool-cases (ltb (length rs) max)) [
  | inl room ↦
      let nonzero : (suc (length ps) == 0) ≡ false = ground arith in
      let k = starting (of ps (snoc rs (started p)) max) in
      let later = fill_loop-filled ps (snoc rs (started p)) max in
      let one : starting (of (p ∷ ps) rs max) ≡ suc (starting (of ps (snoc rs (started p)) max)) =
        ground (arith, room, length-snoc rs (started p)) in
      rw (room, one, nonzero)
        (later
          ∙ ap (λ r. of (drop k ps) r max) (snoc-append rs (started p) (map started (take k ps))))
  | inr full ↦
      let none_more : starting (of (p ∷ ps) rs max) ≡ 0 = ground (arith, full) in
      rw full (sym (none_starting (of (p ∷ ps) rs max) (starting (of (p ∷ ps) rs max)) none_more))
]

keep-append :
    (q : EdgeTask → Bool) (xs ys : List EdgeTask) → keep q (xs ++ ys) ≡ keep q xs ++ keep q ys
keep-append q [] ys = refl
keep-append q (x ∷ xs) ys = elim (Bool-cases (q x)) [
  | inl e ↦ rw e (ap (λ zs. x ∷ zs) (keep-append q xs ys))
  | inr e ↦ rw e (keep-append q xs ys)
]

keep-started : (ts : List EdgeTask) → keep (λ t. t.running) (map started ts) ≡ map started ts
keep-started [] = refl
keep-started (t ∷ ts) = ap (λ us. started t ∷ us) (keep-started ts)

-- A tick starts as many of the first pending tasks as there is room for, counting the tasks that were
-- cancelled as running, and then drops those that were cancelled.
pub tick_exact :
    (s : EdgeScheduler)
    → ((tick s).pending_tasks ≡ drop (starting s) s.pending_tasks)
      × ((tick s).running_tasks
          ≡ keep (λ t. t.running) s.running_tasks
            ++ map started (take (starting s) s.pending_tasks))
unfolding tick
tick_exact s =
    let looped = fill_loop-filled s.pending_tasks s.running_tasks s.max_concurrent_tasks in
    let n = starting s in
    (
      ap (λ (r : EdgeScheduler). r.pending_tasks) looped,
      ap (λ (r : EdgeScheduler). keep (λ t. t.running) r.running_tasks) looped
          ∙ (keep-append (λ t. t.running) s.running_tasks (map started (take n s.pending_tasks))
              ∙ ap (λ us. keep (λ t. t.running) s.running_tasks ++ us)
                  (keep-started (take n s.pending_tasks))),
    )

pub data Call : Type 0 where
  ticks clears : Call
  schedules : EdgeTaskType → ℕ → ℕ → Call
  cancels limits : ℕ → Call

unfoldable pub step : Call → EdgeScheduler → EdgeScheduler
step ticks s = tick s
step clears s = clear s
step (schedules type priority deadline_ms) s = (schedule_task type priority deadline_ms s).0
step (cancels id) s = (cancel_task id s).0
step (limits n) s = set_max_concurrent_tasks n s

unfoldable pub run : List Call → EdgeScheduler → EdgeScheduler
run [] s = s
run (c ∷ cs) s = run cs (step c s)

cancel-IsOrdered :
    (id : ℕ) (s : EdgeScheduler)
    → IsOrdered s.pending_tasks
    → IsOrdered (cancel_task id s).0.pending_tasks
unfolding cancel_task
cancel-IsOrdered id s h = elim (Option-cases (erase_first id s.pending_tasks)) [
  | inr (ts, there) ↦ rw (cancel_task, there) (erase_first-IsOrdered id s.pending_tasks ts there h)
  | inl gone ↦ elim (Option-cases (stop_first id s.running_tasks)) [
    | inl none_there ↦ rw (cancel_task, gone, none_there) h
    | inr (us, stopped) ↦ rw (cancel_task, gone, stopped) h
  ]
]

step-IsOrdered :
    (c : Call) (s : EdgeScheduler) → IsOrdered s.pending_tasks → IsOrdered (step c s).pending_tasks
unfolding step clear schedule_task set_max_concurrent_tasks
step-IsOrdered ticks s h =
    subst IsOrdered (sym (tick_exact s).0) (drop-IsOrdered (starting s) s.pending_tasks h)
step-IsOrdered clears s h = tt
step-IsOrdered (schedules type priority deadline_ms) s h = insert-IsOrdered _ s.pending_tasks h
step-IsOrdered (cancels id) s h = cancel-IsOrdered id s h
step-IsOrdered (limits n) s h = h

run-IsOrdered :
    (cs : List Call) (s : EdgeScheduler)
    → IsOrdered s.pending_tasks
    → IsOrdered (run cs s).pending_tasks
unfolding run
run-IsOrdered [] s h = h
run-IsOrdered (c ∷ cs) s h = run-IsOrdered cs (step c s) (step-IsOrdered c s h)

-- After any history of a new scheduler, every task that a tick leaves pending has a lower priority
-- than each that it starts, or the same priority and no earlier deadline.
pub urgent_first :
    (cs : List Call)
    → let s = run cs new_scheduler in
      All
        (λ t. All (λ u. IsLessUrgent t u) (tick s).pending_tasks)
        (take (starting s) s.pending_tasks)
unfolding new_scheduler
urgent_first cs =
    let s = run cs new_scheduler in
    subst (λ left. All (λ t. All (λ u. IsLessUrgent t u) left) (take (starting s) s.pending_tasks))
      (sym (tick_exact s).0)
      (take-IsUrgent (starting s) s.pending_tasks (run-IsOrdered cs new_scheduler tt))
