-- ===== src/Core/EpcBuffer/Examples.antt =====
-- The EPC buffer at concrete entries.
use rfidsystem.Prelude.{
  ℕ, ◌+◌, ◌≤◌, ◌≡◌, refl, true, false, List, [], ◌∷◌, arith, String, length, tally,
}
use rfidsystem.Prelude.Int.{pos, negsuc, ◌-ℤ◌}
use rfidsystem.Core.EpcBuffer.{
  EpcEntry, new_buffer, is_duplicate, sum_sizes, total_size, store, push, entries_of, erase, flush,
  size, empty, Call, pushes, flushes, step, run,
}
use rfidsystem.Core.EpcBuffer.Bounds.{buffer_bounded}
use rfidsystem.Core.EpcBuffer.Conservation.{held, accepted, entries_conserved}
use rfidsystem.Core.EpcBuffer.Duplicates.{second_read}

abbrev read : String → ℕ → EpcEntry
read epc now = record {
  epc = epc;
  task_id = pos 0;
  timestamp_ms = pos now;
  rssi = negsuc 59;
  reader_id = "";
}

abbrev calls : List Call
calls =
    pushes (read "A" 5000)
    ∷ pushes (read "B" 5001)
    ∷ pushes (read "B" 5002)
    ∷ flushes (pos 0)
    ∷ pushes (read "C" 5003)
    ∷ []

history_runs :
    ((run new_buffer calls).0.total_duplicates ≡ 1)
    × (length (run new_buffer calls).1 ≡ 2)
    × (size (pos 0) (run new_buffer calls).0 ≡ 1)
    × (empty (run new_buffer calls).0 ≡ false)
unfolding run step push store flush new_buffer is_duplicate total_size sum_sizes entries_of erase
    ◌-ℤ◌ size empty
history_runs = (refl, refl, refl, refl)

buffer-one : total_size (run new_buffer calls).0 ≤ 10000
buffer-one = buffer_bounded calls

entries_conserved_example :
    tally (λ e. true) (run new_buffer calls).1
      + held (λ e. true) (run new_buffer calls).0.task_buffers
    ≡ held (λ e. true) new_buffer.task_buffers + tally (λ e. true) (accepted new_buffer calls)
entries_conserved_example =
    entries_conserved (λ e. true) new_buffer calls (refl, (refl, (refl, (refl, (refl, tt)))))

-- The first tag read after the start is stored twice.
second_read_example :
    push (read "A" 5000) (push (read "A" 5000) new_buffer)
    ≡ store (read "A" 5000) (push (read "A" 5000) new_buffer)
unfolding new_buffer is_duplicate total_size sum_sizes ◌-ℤ◌
second_read_example = second_read (read "A" 5000) (read "A" 5000) new_buffer refl refl (omega arith)
