-- ===== src/Rfid/EpcProcessor/Examples.antt =====
-- The filter of repeated tags at concrete events.
use rfidsystem.Prelude.{
  ℕ, ◌≤◌, min, ◌≡◌, refl, true, ◌&&◌, some, List, [], ◌∷◌, map, String, length, tally,
}
use rfidsystem.Prelude.Int.{pos, negsuc, ◌-ℤ◌, ltb_ℤ}
use rfidsystem.Rfid.EpcProcessor.{
  EpcEvent, EpcProcessor, find, is_duplicate, record_event, process_event, process_all, oldest_time,
  erase_time, erase_oldest, evict, drop_expired, cleanup_cache, process_events,
}
use rfidsystem.Rfid.EpcProcessor.Filter.{window_from_taken}
use rfidsystem.Rfid.EpcProcessor.Eviction.{since, fresh, cleanup_keeps_newest}

abbrev seen : String → ℕ → EpcEvent
seen epc time = record { epc = epc; rssi = negsuc 59; timestamp_ms = pos time }

abbrev start : EpcProcessor
start = record {
  has_callback = true;
  duplicate_filter_window_ms = pos 1000;
  max_cache_size = 2;
  epc_cache = [];
  processed_count = 0;
  filtered_count = 0;
}

abbrev batch : List EpcEvent
batch = seen "A" 5000 ∷ seen "B" 4900 ∷ seen "A" 5200 ∷ seen "C" 5100 ∷ seen "D" 3000 ∷ []

abbrev processed : EpcProcessor
processed = process_all batch start

-- Five events of which one is a repetition; D is expired, and B the oldest of the three others. The
-- repetition is aggregated for the callback all the same.
batch-run :
    (map (λ e. e.key) (process_events batch (pos 5300) start).0.epc_cache ≡ "A" ∷ "C" ∷ [])
    × ((process_events batch (pos 5300) start).0.filtered_count ≡ 1)
    × ((process_events batch (pos 5300) start).0.processed_count ≡ 5)
    × ((process_events batch (pos 5300) start).1 ≡ some batch)
unfolding process_events process_all process_event is_duplicate find record_event cleanup_cache
    drop_expired evict erase_oldest erase_time oldest_time ◌-ℤ◌
batch-run = (refl, refl, refl, refl)

cleanup_keeps_newest_example :
    (length (cleanup_cache (pos 5300) processed).epc_cache ≤ processed.max_cache_size)
    × (tally (since (pos 5000)) (cleanup_cache (pos 5300) processed).epc_cache
        ≡ min processed.max_cache_size
            (tally (λ e. fresh (pos 5300) processed e && since (pos 5000) e) processed.epc_cache))
cleanup_keeps_newest_example = cleanup_keeps_newest (pos 5300) (pos 5000) processed

-- A is taken at 5000; B comes, the repetition at 5900 is filtered, and a read at 6000 is taken again.
window_from_taken_example :
    is_duplicate "A"
      (pos 6000)
      (process_all (seen "A" 5000 ∷ seen "B" 5400 ∷ seen "A" 5900 ∷ []) start)
    ≡ ltb_ℤ (pos 6000 -ℤ pos 5000) (pos 1000)
unfolding is_duplicate find ◌-ℤ◌
window_from_taken_example =
    window_from_taken (seen "A" 5000) (seen "B" 5400 ∷ seen "A" 5900 ∷ []) start (pos 6000) refl
      ((λ h. refl), ((λ h. refl), tt))
