-- ===== src/Core/EpcBuffer/Conservation.antt =====
-- No entry of server/core/epc_buffer.cpp is lost or made up between `push` and the flushes.
use rfidsystem.Prelude.{
  ℕ, ◌+◌, ltb, ◌≡◌, refl, Bool, true, false, not, ◌&&◌, List, [], ◌∷◌, ◌++◌, arith, All, tally,
  tally-append, tally-snoc, if◌then◌else◌,
}
use rfidsystem.Prelude.Int.{ℤ}
use rfidsystem.Core.EpcBuffer.{
  EpcEntry, Buffers, EpcBuffer, max_buffer_size, is_duplicate, total_size, push_back, store, push,
  entries_of, erase, flush, all_entries, flush_all, Call, pushes, flushes, clears, flushes_all,
  clears_all, step, run,
}

-- How many of the buffered entries pass a test.
unfoldable pub held : (EpcEntry → Bool) → Buffers → ℕ
held p [] = 0
held p ((t, es) ∷ bs) = tally p es + held p bs

held-push_back :
    (p : EpcEntry → Bool) (task : ℤ) (e : EpcEntry) (bs : Buffers)
    → held p (push_back task e bs) ≡ held p bs + (if p e then 1 else 0)
unfolding held push_back
held-push_back p task e [] = omega arith
held-push_back p task e ((t, es) ∷ bs) =
    ground (arith, tally-snoc p es e, held-push_back p task e bs)

held-erase :
    (p : EpcEntry → Bool) (task : ℤ) (bs : Buffers)
    → held p bs ≡ tally p (entries_of task bs) + held p (erase task bs)
unfolding held entries_of erase
held-erase p task [] = omega arith
held-erase p task ((t, es) ∷ bs) = ground (arith, held-erase p task bs)

tally-all_entries : (p : EpcEntry → Bool) (bs : Buffers) → tally p (all_entries bs) ≡ held p bs
unfolding held all_entries
tally-all_entries p [] = refl
tally-all_entries p ((t, es) ∷ bs) =
    omega (arith, tally-append p es (all_entries bs), tally-all_entries p bs)

-- Whether `push` stores the entry.
abbrev pub accepts : EpcEntry → EpcBuffer → Bool
accepts e b = not (is_duplicate e.epc e.timestamp_ms b) && ltb (total_size b) max_buffer_size

abbrev pub accepted_now : EpcBuffer → Call → List EpcEntry
accepted_now b (pushes e) = if accepts e b then e ∷ [] else []
accepted_now b _ = []

-- The entries that a history stores.
unfoldable pub accepted : EpcBuffer → List Call → List EpcEntry
accepted b [] = []
accepted b (c ∷ cs) = accepted_now b c ++ accepted (step b c).0 cs

-- Calls that do not throw entries away.
abbrev pub keeps : Call → Bool
keeps (clears t) = false
keeps clears_all = false
keeps _ = true

step-conserves :
    (p : EpcEntry → Bool) (b : EpcBuffer) (c : Call)
    → keeps c ≡ true
    → tally p (step b c).1 + held p (step b c).0.task_buffers
      ≡ held p b.task_buffers + tally p (accepted_now b c)
unfolding step push store flush flush_all held
step-conserves p b (pushes e) k = ground (arith, held-push_back p e.task_id e b.task_buffers)
step-conserves p b (flushes t) k = omega (arith, held-erase p t b.task_buffers)
step-conserves p b flushes_all k = omega (arith, tally-all_entries p b.task_buffers)
step-conserves p b (clears t) k = cc
step-conserves p b clears_all k = cc

-- Over any history without `clear` and `clearAll`, what the flushes handed out and what is still
-- buffered are, together and whatever the test by which one counts, what was buffered before and what
-- the pushes stored.
pub entries_conserved :
    (p : EpcEntry → Bool) (b : EpcBuffer) (cs : List Call)
    → All (λ c. keeps c ≡ true) cs
    → tally p (run b cs).1 + held p (run b cs).0.task_buffers
      ≡ held p b.task_buffers + tally p (accepted b cs)
unfolding run accepted
entries_conserved p b [] k = omega arith
entries_conserved p b (c ∷ cs) k = omega (
  arith,
  step-conserves p b c k.0,
  entries_conserved p (step b c).0 cs k.1,
  tally-append p (step b c).1 (run (step b c).0 cs).1,
  tally-append p (accepted_now b c) (accepted (step b c).0 cs),
)
