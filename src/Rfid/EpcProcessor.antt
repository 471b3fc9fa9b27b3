-- ===== src/Rfid/EpcProcessor.antt =====
-- server/rfid/epc_processor.h and .cpp: EPCProcessor, the filter of repeated tags between the readers and
-- their clients. Times are `int64_t` milliseconds, here integers without overflow, and the clock's
-- reading `now` an argument. The unordered map is an association list in its iteration order, which is
-- not specified: a new tag comes last. What the callback gets is the aggregate of a batch of events;
-- the model tells the batch that is aggregated.
pub mod Eviction
pub mod Filter
mod Examples
use rfidsystem.Prelude.{
  ℕ, zero, suc, ◌+◌, ltb, Bool, false, not, Option, none, some, List, [], ◌∷◌, String, length, keep,
  u64, if◌then◌else◌,
}
use rfidsystem.Prelude.Int.{ℤ, ◌-ℤ◌, ltb_ℤ, eq_ℤ}
use text.Mathlib.Text.{◌==◌ as str_eq}

-- The fields of EPCEvent that are read here.
pub record EpcEvent : Type 0 where
  pub epc : String
  pub rssi : ℤ
  pub timestamp_ms : ℤ

pub record CacheEntry : Type 0 where
  pub key : String
  pub last_timestamp : ℤ
  pub best_rssi : ℤ

pub record EpcProcessor : Type 0 where
  pub has_callback : Bool
  pub duplicate_filter_window_ms : ℤ
  pub max_cache_size : ℕ
  pub epc_cache : List CacheEntry
  pub processed_count : ℕ
  pub filtered_count : ℕ

-- `epcCache_.find(epc)`
unfoldable pub find : String → List CacheEntry → Option CacheEntry
find epc [] = none
find epc (e ∷ es) = let rest = find epc es in if str_eq e.key epc then some e else rest

unfoldable pub is_duplicate : String → ℤ → EpcProcessor → Bool
is_duplicate epc timestamp p = elim (find epc p.epc_cache) [
  | none ↦ false
  | some e ↦ ltb_ℤ (timestamp -ℤ e.last_timestamp) p.duplicate_filter_window_ms
]

-- The new entry, or the update of the one that was found.
unfoldable pub record_event : EpcEvent → List CacheEntry → List CacheEntry
record_event event [] =
    record { key = event.epc; last_timestamp = event.timestamp_ms; best_rssi = event.rssi } ∷ []
record_event event (e ∷ es) =
    let rest = record_event event es in
    if str_eq e.key event.epc
    then record e {
      best_rssi = if ltb_ℤ e.best_rssi event.rssi then event.rssi else e.best_rssi;
      last_timestamp = event.timestamp_ms;
    }
      ∷ es
    else e ∷ rest

-- One round of the loop over the events.
unfoldable pub process_event : EpcEvent → EpcProcessor → EpcProcessor
process_event event p =
    let p' : EpcProcessor = record p { processed_count = u64 (p.processed_count + 1) } in
    if is_duplicate event.epc event.timestamp_ms p'
    then record p' { filtered_count = u64 (p'.filtered_count + 1) }
    else record p' { epc_cache = record_event event p'.epc_cache }

unfoldable pub process_all : List EpcEvent → EpcProcessor → EpcProcessor
process_all [] p = p
process_all (e ∷ es) p = process_all es (process_event e p)

-- The least timestamp, from one found so far.
unfoldable pub oldest_time : ℤ → List CacheEntry → ℤ
oldest_time t [] = t
oldest_time t (e ∷ es) = oldest_time (if ltb_ℤ e.last_timestamp t then e.last_timestamp else t) es

-- The first entry of a timestamp is erased: with the least timestamp it is the one the loop stops at.
unfoldable pub erase_time : ℤ → List CacheEntry → List CacheEntry
erase_time t [] = []
erase_time t (e ∷ es) =
    let rest = erase_time t es in if eq_ℤ e.last_timestamp t then es else e ∷ rest

unfoldable pub erase_oldest : List CacheEntry → List CacheEntry
erase_oldest [] = []
erase_oldest (e ∷ es) = erase_time (oldest_time e.last_timestamp (e ∷ es)) (e ∷ es)

-- The loop of evictions, on fuel: as many rounds as there are entries are enough.
unfoldable pub evict : ℕ → ℕ → List CacheEntry → List CacheEntry
evict zero max_size cache = cache
evict (suc n) max_size cache =
    let rest = evict n max_size (erase_oldest cache) in
    if ltb max_size (length cache) then rest else cache

-- The first loop of `cleanupCache`.
unfoldable pub drop_expired : ℤ → List CacheEntry → List CacheEntry
drop_expired expire_time cache = keep (λ e. not (ltb_ℤ e.last_timestamp expire_time)) cache

unfoldable pub cleanup_cache : ℤ → EpcProcessor → EpcProcessor
cleanup_cache now p =
    let fresh : List CacheEntry = drop_expired (now -ℤ p.duplicate_filter_window_ms) p.epc_cache in
    record p { epc_cache = evict (length fresh) p.max_cache_size fresh }

-- The batch that is aggregated for the callback is the whole one, with the filtered events.
unfoldable pub process_events :
    List EpcEvent → ℤ → EpcProcessor → EpcProcessor × Option (List EpcEvent)
process_events [] now p = (p, none)
process_events (e ∷ es) now p =
    (cleanup_cache now (process_all (e ∷ es) p), if p.has_callback then some (e ∷ es) else none)

unfoldable pub set_callback : Bool → EpcProcessor → EpcProcessor
set_callback given p = record p { has_callback = given }

unfoldable pub clear_cache : EpcProcessor → EpcProcessor
clear_cache p = record p { epc_cache = []; processed_count = 0; filtered_count = 0 }

unfoldable pub set_duplicate_filter_window : ℤ → EpcProcessor → EpcProcessor
set_duplicate_filter_window w p = record p { duplicate_filter_window_ms = w }

unfoldable pub set_max_cache_size : ℕ → EpcProcessor → EpcProcessor
set_max_cache_size n p = record p { max_cache_size = n }
