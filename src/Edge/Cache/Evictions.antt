-- ===== src/Edge/Cache/Evictions.antt =====
-- The evictions of edge_runtime/edge_cache.cpp end, and what they leave.
use rfidsystem.Prelude.{
  ℕ, zero, suc, ◌%◌, ◌+◌, ◌-◌, ◌≤◌, ◌<◌, leb, ◌≡◌, refl, sym, ap, subst, ◌∙◌, ◌⊎◌, inl, inr, true,
  false, some, List, [], ◌∷◌, arith, length, drop, All, u64_mod, Bool-cases,
}
use rfidsystem.Edge.Cache.{
  CacheEntry, EdgeCache, find, erase, remove, oldest, evict_loop, evict_if_needed, put_entry, put,
}
use rfidsystem.Edge.Cache.Sizes.{
  total, IsTimeless, IsAccounted, remove-IsAccounted, put_entry-IsAccounted, put_entry-total,
  oldest-first, erase-first,
}
use rfidsystem.Replay.Bytes.{Bytes}

List-cases :
    (es : List CacheEntry)
    → (es ≡ []) ⊎ ((e : CacheEntry) × (rest : List CacheEntry) × (es ≡ e ∷ rest))
List-cases [] = inl refl
List-cases (e ∷ rest) = inr (e, rest, refl)

-- What evictions make of a cache: the first `gone` entries of the map are gone, and there is room, or
-- nothing is left; with one entry fewer gone there was no room.
pub record Evicted (c d : EdgeCache) : Type 0 where
  pub accounted : IsAccounted d
  pub room : (d.current_size_bytes < d.max_size_bytes) ⊎ (d.cache ≡ [])
  pub limit : d.max_size_bytes ≡ c.max_size_bytes
  pub gone : ℕ
  pub left : d.cache ≡ drop gone c.cache
  pub needed :
      (gone ≡ 0)
      ⊎ ((fewer : ℕ) × (gone ≡ suc fewer)
          × (d.max_size_bytes ≤ total (drop fewer c.cache) % u64_mod))

abbrev next : EdgeCache → EdgeCache
next c = (remove (oldest 0 (u64_mod - 1) c.cache) c).0

find-first : (e : CacheEntry) (rest : List CacheEntry) → find e.key (e ∷ rest) ≡ some e
unfolding find
find-first e rest = ground arith

next_drops :
    (c : EdgeCache) (e : CacheEntry) (rest : List CacheEntry)
    → IsAccounted c
    → c.cache ≡ e ∷ rest
    → ((next c).cache ≡ rest) × ((next c).max_size_bytes ≡ c.max_size_bytes)
unfolding remove
next_drops c e rest h there =
    let first : oldest 0 (u64_mod - 1) c.cache ≡ e.key =
      subst (λ es. oldest 0 (u64_mod - 1) es ≡ e.key) (sym there)
        (oldest-first e rest (subst (All IsTimeless) there h.timeless)) in
    let found : find e.key c.cache ≡ some e =
      subst (λ es. find e.key es ≡ some e) (sym there) (find-first e rest) in
    subst (λ k. ((remove k c).0.cache ≡ rest) × ((remove k c).0.max_size_bytes ≡ c.max_size_bytes))
      (sym first) (rw (remove, found) (ap (erase e.key) there ∙ erase-first e rest, refl))

stop_empty : (fuel : ℕ) (c : EdgeCache) → c.cache ≡ [] → evict_loop (suc fuel) c ≡ some c
unfolding evict_loop
stop_empty fuel c empty =
    let none_left : length c.cache ≡ 0 = ap length empty in ground (arith, none_left)

stop_below :
    (fuel : ℕ) (c : EdgeCache)
    → leb c.max_size_bytes c.current_size_bytes ≡ false
    → evict_loop (suc fuel) c ≡ some c
unfolding evict_loop
stop_below fuel c below = ground (arith, below)

go_on :
    (fuel : ℕ) (c : EdgeCache) (n : ℕ)
    → leb c.max_size_bytes c.current_size_bytes ≡ true
    → length c.cache ≡ suc n
    → evict_loop (suc fuel) c ≡ evict_loop fuel (next c)
unfolding evict_loop
go_on fuel c n over some_left = ground (arith, over, some_left)

-- A round that was made had no room before it; then the last one had none either.
needed_next :
    (c : EdgeCache) (e : CacheEntry) (rest : List CacheEntry) (d : EdgeCache)
    (v : Evicted (next c) d)
    → IsAccounted c
    → c.cache ≡ e ∷ rest
    → ((next c).cache ≡ rest) × ((next c).max_size_bytes ≡ c.max_size_bytes)
    → leb c.max_size_bytes c.current_size_bytes ≡ true
    → d.max_size_bytes ≤ total (drop v.gone c.cache) % u64_mod
needed_next c e rest d v a there first over = elim v.needed [
  | inl none_later ↦
      subst (λ n. d.max_size_bytes ≤ total (drop n c.cache) % u64_mod) (sym none_later)
        (ground (arith, over, a.sized, v.limit, first.1))
  | inr (fewer, next_gone, no_room) ↦
      let same : drop v.gone c.cache ≡ drop fewer (next c).cache =
        (ap (λ n. drop n c.cache) next_gone ∙ ap (drop (suc fewer)) there)
        ∙ ap (drop fewer) (sym first.0) in
      subst (λ es. d.max_size_bytes ≤ total es % u64_mod) (sym same) no_room
]

evict_loop-Evicted :
    (fuel : ℕ) (c : EdgeCache)
    → length c.cache < fuel
    → IsAccounted c
    → (d : EdgeCache) × ((evict_loop fuel c ≡ some d) × Evicted c d)
evict_loop-Evicted zero c h a = ground arith
evict_loop-Evicted (suc fuel) c h a = elim (List-cases c.cache) [
  | inl empty ↦ (
    c,
    (
      stop_empty fuel c empty,
      record {
        accounted = a;
        room = inr empty;
        limit = refl;
        gone = 0;
        left = refl;
        needed = inl refl;
      },
    ),
  )
  | inr (e, rest, there) ↦ elim (Bool-cases (leb c.max_size_bytes c.current_size_bytes)) [
    | inr below ↦ (
      c,
      (
        stop_below fuel c below,
        record {
          accounted = a;
          room = inl (ground arith);
          limit = refl;
          gone = 0;
          left = refl;
          needed = inl refl;
        },
      ),
    )
    | inl over ↦
        let first = next_drops c e rest a there in
        let (d, found) =
          evict_loop-Evicted fuel (next c) (omega (arith, ap length first.0, ap length there))
            (remove-IsAccounted (oldest 0 (u64_mod - 1) c.cache) c a) in
        (
          d,
          (
            go_on fuel c (length rest) over (ap length there) ∙ found.0,
            record {
              accounted = found.1.accounted;
              room = found.1.room;
              limit = found.1.limit ∙ first.1;
              gone = suc found.1.gone;
              left =
                  found.1.left
                  ∙ (ap (drop found.1.gone) first.0 ∙ ap (drop (suc found.1.gone)) (sym there));
              needed = inr (found.1.gone, refl, needed_next c e rest d found.1 a there first over);
            },
          ),
        )
  ]
]

pub evict_if_needed-Evicted :
    (c : EdgeCache) → IsAccounted c → (d : EdgeCache) × ((evict_if_needed c ≡ some d) × Evicted c d)
unfolding evict_if_needed
evict_if_needed-Evicted c a = evict_loop-Evicted (length c.cache + 1) c (omega arith) a

total-drop : (n : ℕ) (es : List CacheEntry) → total (drop n es) ≤ total es
unfolding total
total-drop zero es = omega arith
total-drop (suc n) [] = omega arith
total-drop (suc n) (e ∷ es) = omega (arith, total-drop n es)

total-empty : (es : List CacheEntry) → es ≡ [] → total es ≡ 0
unfolding total
total-empty es h = rw h refl

-- `put` into a cache whose count of bytes is right, with less than 2^64 of them and every timestamp 0 as
-- `put` and `get` leave it, always returns. It evicts the first entries of the map, as few as make room,
-- or all when no number of them does, and keeps the others; it keeps the count right, and leaves at most
-- as many bytes as the limit and the new entry have together.
pub put_settles :
    (key : ℕ) (content : Bytes) (c : EdgeCache)
    → IsAccounted c
    → total c.cache < u64_mod
    → (d : EdgeCache) × (e : EdgeCache) × (put key content c ≡ some d)
      × (d ≡ put_entry key content e)
      × Evicted c e
      × IsAccounted d
      × (total d.cache ≤ c.max_size_bytes + length content)
unfolding put
put_settles key content c a small =
    let (e, found) = evict_if_needed-Evicted c a in
    let d = put_entry key content e in
    let put_e = put_entry-total key content e in
    let left_small = total-drop found.1.gone c.cache in
    let same = ap total found.1.left in
    (
      d,
      e,
      rw (put, found.0) refl,
      refl,
      found.1,
      put_entry-IsAccounted key content e found.1.accounted,
      elim found.1.room [
        | inl below ↦
            omega
              (arith, put_e, left_small, same, below, found.1.accounted.sized, found.1.limit, small)
        | inr empty ↦ omega (arith, put_e, total-empty e.cache empty)
      ],
    )
