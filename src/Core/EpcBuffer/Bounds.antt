-- ===== src/Core/EpcBuffer/Bounds.antt =====
-- The size of the buffer of server/core/epc_buffer.cpp.
use rfidsystem.Prelude.{suc, ◌≤◌, ◌≡◌, List, [], ◌∷◌, arith, length-snoc}
use rfidsystem.Prelude.Int.{ℤ}
use rfidsystem.Core.EpcBuffer.{
  EpcEntry, Buffers, EpcBuffer, max_buffer_size, new_buffer, sum_sizes, total_size, push_back,
  store, push, erase, flush, flush_all, clear, clear_all, Call, pushes, flushes, clears,
  flushes_all, clears_all, step, run,
}

sum_sizes-push_back :
    (task : ℤ) (e : EpcEntry) (bs : Buffers) → sum_sizes (push_back task e bs) ≡ suc (sum_sizes bs)
unfolding sum_sizes push_back
sum_sizes-push_back task e [] = omega arith
sum_sizes-push_back task e ((t, es) ∷ bs) =
    ground (arith, length-snoc es e, sum_sizes-push_back task e bs)

sum_sizes-erase : (task : ℤ) (bs : Buffers) → sum_sizes (erase task bs) ≤ sum_sizes bs
unfolding sum_sizes erase
sum_sizes-erase task [] = omega arith
sum_sizes-erase task ((t, es) ∷ bs) = ground (arith, sum_sizes-erase task bs)

pub total_size-store : (e : EpcEntry) (b : EpcBuffer) → total_size (store e b) ≡ suc (total_size b)
unfolding total_size store
total_size-store e b = sum_sizes-push_back e.task_id e b.task_buffers

push-bounded :
    (e : EpcEntry) (b : EpcBuffer)
    → total_size b ≤ max_buffer_size
    → total_size (push e b) ≤ max_buffer_size
unfolding push total_size
push-bounded e b h = ground (arith, total_size-store e b)

step-bounded :
    (b : EpcBuffer) (c : Call)
    → total_size b ≤ max_buffer_size
    → total_size (step b c).0 ≤ max_buffer_size
unfolding step flush flush_all clear clear_all total_size sum_sizes
step-bounded b (pushes e) h = push-bounded e b h
step-bounded b (flushes t) h = omega (arith, sum_sizes-erase t b.task_buffers)
step-bounded b (clears t) h = omega (arith, sum_sizes-erase t b.task_buffers)
step-bounded b flushes_all h = omega arith
step-bounded b clears_all h = omega arith

run-bounded :
    (b : EpcBuffer) (cs : List Call)
    → total_size b ≤ max_buffer_size
    → total_size (run b cs).0 ≤ max_buffer_size
unfolding run
run-bounded b [] h = h
run-bounded b (c ∷ cs) h = run-bounded (step b c).0 cs (step-bounded b c h)

-- After any history of calls on a new buffer at most 10000 entries are buffered, over all tasks.
pub buffer_bounded : (cs : List Call) → total_size (run new_buffer cs).0 ≤ max_buffer_size
unfolding new_buffer total_size sum_sizes
buffer_bounded cs = run-bounded new_buffer cs (omega arith)
