-- ===== src/Runtime/FrameLocking/Locks.antt =====
-- The lock numbers of server/runtime/ai_frame_locking.cpp over a history of calls.
use rfidsystem.Prelude.{
  ℕ, ◌+◌, ◌-◌, ◌/◌, ◌≤◌, ◌<◌, ◌==◌, ltb, ◌≡◌, refl, inl, inr, Bool, not, List, [], ◌∷◌, arith,
  length, snoc, keep, tally, tally-snoc, u64_mod, if◌then◌else◌, Bool-cases,
}
use rfidsystem.Runtime.FrameLocking.{
  Floats, FrameLock, AiFrameLocking, new_locking, shutdown, acquire_frame_lock, bind_lock,
  bind_first, bind_ai_result, release_frame_lock, cleanup_old_bindings, Call, acquires, releases,
  binds, cleans, shuts_down, step, run,
}

-- How many locks have a number.
abbrev pub numbered : {F : Type 0} → ℕ → List (FrameLock F) → ℕ
numbered i ls = tally (λ l. l.lock_id == i) ls

-- The numbers are told apart, and below the next one.
pub record IsNumbered {F : Type 0} (a : AiFrameLocking F) : Type 0 where
  pub once : (i : ℕ) → numbered i a.locks ≤ 1
  pub below : (i : ℕ) → a.next_lock_id ≤ i → numbered i a.locks ≡ 0

numbered-keep :
    {F : Type 0} (i : ℕ) (p : FrameLock F → Bool) (ls : List (FrameLock F))
    → numbered i (keep p ls) ≤ numbered i ls
numbered-keep i p [] = omega arith
numbered-keep i p (l ∷ ls) = ground (arith, numbered-keep i p ls)

numbered-bind_first :
    (fl : Floats) (i frame result now wall : ℕ) (ls : List (FrameLock fl.F))
    → numbered i (bind_first fl frame result now wall ls).0 ≡ numbered i ls
unfolding bind_first bind_lock
numbered-bind_first fl i frame result now wall [] = refl
numbered-bind_first fl i frame result now wall (l ∷ ls) =
    ground (arith, numbered-bind_first fl i frame result now wall ls)

numbered-snoc :
    {F : Type 0} (i : ℕ) (ls : List (FrameLock F)) (l : FrameLock F)
    → numbered i (snoc ls l) ≡ numbered i ls + (if l.lock_id == i then 1 else 0)
numbered-snoc i ls l = tally-snoc (λ l. l.lock_id == i) ls l

acquire-IsNumbered :
    (fl : Floats) (frame now : ℕ) (a : AiFrameLocking fl.F)
    → a.next_lock_id + 1 < u64_mod
    → IsNumbered a
    → IsNumbered (acquire_frame_lock fl frame now a).0
unfolding acquire_frame_lock
acquire-IsNumbered fl frame now a h v = record {
  once = λ i. rw (numbered-snoc i a.locks _) (elim (Bool-cases (a.next_lock_id == i)) [
    | inl same ↦ rw same (omega (arith, v.below i (ground (arith, same))))
    | inr other ↦ rw other (omega (arith, v.once i))
  ]);
  below = λ i le. rw (numbered-snoc i a.locks _) (ground (arith, v.below i (omega arith)));
}

step-IsNumbered :
    (fl : Floats) (a : AiFrameLocking fl.F) (c : Call)
    → a.next_lock_id + 1 < u64_mod
    → IsNumbered a
    → IsNumbered (step fl a c)
unfolding step release_frame_lock bind_ai_result cleanup_old_bindings shutdown
step-IsNumbered fl a (acquires frame now) h v = acquire-IsNumbered fl frame now a h v
step-IsNumbered fl a (releases frame) h v = record {
  once = λ i. omega (arith, v.once i, numbered-keep i (λ l. not (l.frame_id == frame)) a.locks);
  below =
      λ i le. omega (arith, v.below i le, numbered-keep i (λ l. not (l.frame_id == frame)) a.locks);
}
step-IsNumbered fl a (binds frame result now wall) h v = record {
  once = λ i. omega (arith, v.once i, numbered-bind_first fl i frame result now wall a.locks);
  below =
      λ i le. omega (arith, v.below i le, numbered-bind_first fl i frame result now wall a.locks);
}
step-IsNumbered fl a (cleans age now) h v =
    let old = λ (l : FrameLock fl.F). not (ltb age ((now - l.lock_time) / 1000)) in
    record {
      once = λ i. omega (arith, v.once i, numbered-keep i old a.locks);
      below = λ i le. omega (arith, v.below i le, numbered-keep i old a.locks);
    }
step-IsNumbered fl a shuts_down h v = record { once = λ i. omega arith; below = λ i le. refl }

step-next :
    (fl : Floats) (a : AiFrameLocking fl.F) (c : Call)
    → a.next_lock_id + 1 < u64_mod
    → (step fl a c).next_lock_id ≤ a.next_lock_id + 1
unfolding step release_frame_lock bind_ai_result cleanup_old_bindings shutdown acquire_frame_lock
step-next fl a c h = ground arith

run-IsNumbered :
    (fl : Floats) (a : AiFrameLocking fl.F) (cs : List Call)
    → a.next_lock_id + length cs < u64_mod
    → IsNumbered a
    → IsNumbered (run fl a cs)
unfolding run
run-IsNumbered fl a [] h v = v
run-IsNumbered fl a (c ∷ cs) h v =
    run-IsNumbered fl (step fl a c) cs (omega (arith, step-next fl a c (omega arith)))
      (step-IsNumbered fl a c (omega arith) v)

-- Over any history of calls on a new object, without `initialize` and of less than 2^64 - 1 calls, no
-- two locks that are held have the same number, whatever was acquired twice, released, bound, cleaned
-- up or shut down between.
pub locks_told_apart :
    (fl : Floats) (cs : List Call) (i : ℕ)
    → length cs + 1 < u64_mod
    → numbered i (run fl new_locking cs).locks ≤ 1
unfolding new_locking
locks_told_apart fl cs i h =
    (run-IsNumbered fl new_locking cs (omega arith)
        (record { once = λ i. omega arith; below = λ i le. refl })).once
      i
