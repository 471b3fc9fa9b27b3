-- ===== src/Edge/Cache.antt =====
-- edge_runtime/edge_cache.h and .cpp: EdgeCache, a cache with a limit on its bytes. A `std::map` is the
-- list of its entries by key; `size_t` arithmetic wraps at 2^64.
pub mod Sizes
pub mod Evictions
pub mod Histories
mod Examples
use rfidsystem.Prelude.{
  ℕ, zero, suc, ◌+◌, ◌-◌, ◌%◌, ◌==◌, ltb, leb, Bool, true, false, not, ◌&&◌, Option, none, some,
  List, [], ◌∷◌, length, u64, u64_mod, if◌then◌else◌,
}
use rfidsystem.Replay.Bytes.{Bytes}

-- `content` is the field `data`.
pub record CacheEntry : Type 0 where
  pub key : ℕ
  pub content : Bytes
  pub timestamp : ℕ
  pub access_count : ℕ

pub record EdgeCache : Type 0 where
  pub cache : List CacheEntry
  pub max_size_bytes : ℕ
  pub current_size_bytes : ℕ

unfoldable pub new_cache : EdgeCache
new_cache = record { cache = []; max_size_bytes = 104857600; current_size_bytes = 0 }

-- The entries stay.
unfoldable pub initialize : ℕ → EdgeCache → EdgeCache
initialize max_size_bytes c = record c { max_size_bytes = max_size_bytes; current_size_bytes = 0 }

unfoldable pub clear : EdgeCache → EdgeCache
clear c = record c { cache = []; current_size_bytes = 0 }

unfoldable pub shutdown : EdgeCache → EdgeCache
shutdown c = clear c

-- `cache_.find(key)`
unfoldable pub find : ℕ → List CacheEntry → Option CacheEntry
find key [] = none
find key (e ∷ rest) = let later = find key rest in if e.key == key then some e else later

unfoldable pub erase : ℕ → List CacheEntry → List CacheEntry
erase key [] = []
erase key (e ∷ rest) = let others = erase key rest in if e.key == key then rest else e ∷ others

unfoldable pub insert : CacheEntry → List CacheEntry → List CacheEntry
insert new [] = new ∷ []
insert new (e ∷ rest) =
    let more = insert new rest in if ltb new.key e.key then new ∷ e ∷ rest else e ∷ more

unfoldable pub replace : CacheEntry → List CacheEntry → List CacheEntry
replace new [] = []
replace new (e ∷ rest) =
    let more = replace new rest in if e.key == new.key then new ∷ rest else e ∷ more

-- `cache_[key] = entry`
unfoldable pub store : CacheEntry → List CacheEntry → List CacheEntry
store new entries = elim (find new.key entries) [
  | none ↦ insert new entries
  | some e ↦ replace new entries
]

-- `a -= b` of a `size_t`.
unfoldable pub minus : ℕ → ℕ → ℕ
minus a b = (a + (u64_mod - b % u64_mod)) % u64_mod

unfoldable pub remove : ℕ → EdgeCache → EdgeCache × Bool
remove key c = elim (find key c.cache) [
  | none ↦ (c, false)
  | some e ↦ (
    record c {
      cache = erase key c.cache;
      current_size_bytes = minus c.current_size_bytes (length e.content);
    },
    true,
  )
]

-- The loop for the oldest entry: the first of those with the smallest timestamp below `time`.
unfoldable pub oldest : ℕ → ℕ → List CacheEntry → ℕ
oldest key time [] = key
oldest key time (e ∷ rest) =
    if ltb e.timestamp time then oldest e.key e.timestamp rest else oldest key time rest

-- The loop of `evictIfNeeded`, on fuel: `none` when the rounds were not enough.
unfoldable pub evict_loop : ℕ → EdgeCache → Option EdgeCache
evict_loop zero c = none
evict_loop (suc fuel) c =
    let rest = evict_loop fuel (remove (oldest 0 (u64_mod - 1) c.cache) c).0 in
    if leb c.max_size_bytes c.current_size_bytes && not (length c.cache == 0) then rest else some c

-- A round erases an entry.
unfoldable pub evict_if_needed : EdgeCache → Option EdgeCache
evict_if_needed c = evict_loop (length c.cache + 1) c

-- `put` after the eviction. The size of an entry of the key is taken off first.
unfoldable pub put_entry : ℕ → Bytes → EdgeCache → EdgeCache
put_entry key content c =
    let replaced : ℕ = elim (find key c.cache) [
      | none ↦ c.current_size_bytes
      | some e ↦ minus c.current_size_bytes (length e.content)
    ] in
    record c {
      cache =
          store (record { key = key; content = content; timestamp = 0; access_count = 0 }) c.cache;
      current_size_bytes = u64 (replaced + length content);
    }

unfoldable pub put : ℕ → Bytes → EdgeCache → Option EdgeCache
put key content c = elim (evict_if_needed c) [
  | none ↦ none
  | some d ↦ some (put_entry key content d)
]

-- The entry that was found, with one access more.
unfoldable pub touch : ℕ → List CacheEntry → List CacheEntry
touch key [] = []
touch key (e ∷ rest) =
    let others = touch key rest in
    if e.key == key
    then record e { access_count = u64 (e.access_count + 1); timestamp = 0 } ∷ rest
    else e ∷ others

unfoldable pub get : ℕ → EdgeCache → EdgeCache × Option Bytes
get key c = elim (find key c.cache) [
  | none ↦ (c, none)
  | some e ↦ (record c { cache = touch key c.cache }, some e.content)
]

unfoldable pub size : EdgeCache → ℕ
size c = length c.cache

unfoldable pub is_full : EdgeCache → Bool
is_full c = leb c.max_size_bytes c.current_size_bytes

unfoldable pub set_max_size : ℕ → EdgeCache → Option EdgeCache
set_max_size max_size_bytes c = evict_if_needed (record c { max_size_bytes = max_size_bytes })
