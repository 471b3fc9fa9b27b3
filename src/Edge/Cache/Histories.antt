-- ===== src/Edge/Cache/Histories.antt =====
-- edge_runtime/edge_cache.cpp over histories of calls, but for `initialize`.
use rfidsystem.Prelude.{
  ℕ, ◌≡◌, refl, inl, inr, Option, none, some, List, [], ◌∷◌, arith, Option-cases,
}
use rfidsystem.Edge.Cache.{
  EdgeCache, new_cache, clear, shutdown, find, remove, put_entry, put, get, set_max_size,
}
use rfidsystem.Edge.Cache.Sizes.{
  total, touch-total, touch-All, IsAccounted, remove-IsAccounted, put_entry-IsAccounted,
}
use rfidsystem.Edge.Cache.Evictions.{evict_if_needed-Evicted}
use rfidsystem.Replay.Bytes.{Bytes}

pub data Call : Type 0 where
  puts : ℕ → Bytes → Call
  gets removes limits : ℕ → Call
  clears shutdowns : Call

-- `none` when a call does not return.
unfoldable pub step : Call → EdgeCache → Option EdgeCache
step (puts key content) c = put key content c
step (gets key) c = some (get key c).0
step (removes key) c = some (remove key c).0
step (limits n) c = set_max_size n c
step clears c = some (clear c)
step shutdowns c = some (shutdown c)

unfoldable pub run : List Call → EdgeCache → Option EdgeCache
run [] c = some c
run (call ∷ calls) c = elim (step call c) [ none ↦ none | some d ↦ run calls d ]

abbrev IsSound : Option EdgeCache → Type 0
IsSound o = (d : EdgeCache) × ((o ≡ some d) × IsAccounted d)

get-IsAccounted : (key : ℕ) (c : EdgeCache) → IsAccounted c → IsAccounted (get key c).0
unfolding get
get-IsAccounted key c a = elim (Option-cases (find key c.cache)) [
  | inl gone ↦ rw (get, gone) a
  | inr (e, there) ↦
      rw (get, there)
        (record {
          sized = omega (arith, a.sized, touch-total key c.cache);
          timeless = touch-All key c.cache a.timeless;
        })
]

step-IsSound : (call : Call) (c : EdgeCache) → IsAccounted c → IsSound (step call c)
unfolding step put set_max_size clear shutdown total
step-IsSound (puts key content) c a =
    let (e, found) = evict_if_needed-Evicted c a in
    (
      put_entry key content e,
      (rw (put, found.0) refl, put_entry-IsAccounted key content e found.1.accounted),
    )
step-IsSound (gets key) c a = ((get key c).0, (refl, get-IsAccounted key c a))
step-IsSound (removes key) c a = ((remove key c).0, (refl, remove-IsAccounted key c a))
step-IsSound (limits n) c a =
    let limited : IsAccounted (record c { max_size_bytes = n }) = record {
      sized = a.sized;
      timeless = a.timeless;
    } in
    let (e, found) = evict_if_needed-Evicted (record c { max_size_bytes = n }) limited in
    (e, (found.0, found.1.accounted))
step-IsSound clears c a = (clear c, (refl, record { sized = omega arith; timeless = tt }))
step-IsSound shutdowns c a = (shutdown c, (refl, record { sized = omega arith; timeless = tt }))

run-IsSound : (calls : List Call) (c : EdgeCache) → IsAccounted c → IsSound (run calls c)
unfolding run
run-IsSound [] c a = (c, (refl, a))
run-IsSound (call ∷ calls) c a =
    let (d, now) = step-IsSound call c a in
    let (e, later) = run-IsSound calls d now.1 in (e, (rw (run, now.0) later.0, later.1))

-- Every history of calls but `initialize` on a new cache returns, evictions included, and at its end the
-- count of bytes is the sum of the sizes of the entries, modulo 2^64.
pub run-IsAccounted :
    (calls : List Call) → (d : EdgeCache) × ((run calls new_cache ≡ some d) × IsAccounted d)
unfolding new_cache total
run-IsAccounted calls = run-IsSound calls new_cache (record { sized = omega arith; timeless = tt })
