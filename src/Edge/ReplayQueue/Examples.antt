-- ===== src/Edge/ReplayQueue/Examples.antt =====
-- The queue of frames of the edge runtime at concrete calls.
use rfidsystem.Prelude.{◌≡◌, refl, [], ◌∷◌, map}
use rfidsystem.Edge.ReplayQueue.{enqueue, dequeue}

-- The number of an entry is given out again while another entry has it.
enqueue-repeats :
    map (λ e. e.entry_id) (enqueue 3 12 [] (dequeue (enqueue 2 11 [] (enqueue 1 10 [] []))).0)
    ≡ 2 ∷ 2 ∷ []
unfolding enqueue dequeue
enqueue-repeats = refl
