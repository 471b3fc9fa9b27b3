-- ===== src/Edge/Cache/Sizes.antt =====
-- The count of bytes and the evictions of edge_runtime/edge_cache.cpp.
use rfidsystem.Prelude.{
  ℕ, ◌+◌, ◌-◌, ◌%◌, ◌≤◌, ◌==◌, ltb, ◌≡◌, refl, ap, inl, inr, Option, none, some, List, [], ◌∷◌,
  arith, length, All, u64_mod, Bool-cases, Option-cases,
}
use rfidsystem.Edge.Cache.{
  CacheEntry, EdgeCache, find, erase, insert, replace, store, minus, remove, oldest, put_entry,
  touch,
}
use rfidsystem.Replay.Bytes.{Bytes}

-- The bytes of all entries.
unfoldable pub total : List CacheEntry → ℕ
total [] = 0
total (e ∷ rest) = length e.content + total rest

-- No entry has a time.
abbrev pub IsTimeless : CacheEntry → Type 0
IsTimeless e = e.timestamp ≡ 0

abbrev pub size_of : Option CacheEntry → ℕ
size_of none = 0
size_of (some e) = length e.content

erase-total :
    (key : ℕ) (es : List CacheEntry) → total (erase key es) + size_of (find key es) ≡ total es
unfolding total erase find
erase-total key [] = refl
erase-total key (e ∷ rest) = elim (Bool-cases (e.key == key)) [
  | inl h ↦ rw h (omega arith)
  | inr h ↦ rw h (omega (arith, erase-total key rest))
]

insert-total :
    (new : CacheEntry) (es : List CacheEntry)
    → total (insert new es) ≡ total es + length new.content
unfolding total insert
insert-total new [] = omega arith
insert-total new (e ∷ rest) = elim (Bool-cases (ltb new.key e.key)) [
  | inl h ↦ rw h (omega arith)
  | inr h ↦ rw h (omega (arith, insert-total new rest))
]

replace-total :
    (new e : CacheEntry) (es : List CacheEntry)
    → find new.key es ≡ some e
    → total (replace new es) + length e.content ≡ total es + length new.content
unfolding total replace find
replace-total new e [] h = ground (arith, h)
replace-total new e (f ∷ rest) h = elim (Bool-cases (f.key == new.key)) [
  | inl k ↦ let same = ap size_of (rw k at h) in rw k (omega (arith, same))
  | inr k ↦ rw k (omega (arith, replace-total new e rest (rw k at h)))
]

pub touch-total : (key : ℕ) (es : List CacheEntry) → total (touch key es) ≡ total es
unfolding total touch
touch-total key [] = refl
touch-total key (e ∷ rest) = elim (Bool-cases (e.key == key)) [
  | inl h ↦ rw h refl
  | inr h ↦ rw h (omega (arith, touch-total key rest))
]

erase-All {ℓ} :
    (P : CacheEntry → Type ℓ) (key : ℕ) (es : List CacheEntry) → All P es → All P (erase key es)
unfolding erase
erase-All P key [] h = tt
erase-All P key (e ∷ rest) h = elim (Bool-cases (e.key == key)) [
  | inl k ↦ rw k h.1
  | inr k ↦ rw k (h.0, erase-All P key rest h.1)
]

insert-All {ℓ} :
    (P : CacheEntry → Type ℓ) (new : CacheEntry) (es : List CacheEntry)
    → P new
    → All P es
    → All P (insert new es)
unfolding insert
insert-All P new [] p h = (p, tt)
insert-All P new (e ∷ rest) p h = elim (Bool-cases (ltb new.key e.key)) [
  | inl k ↦ rw k (p, h)
  | inr k ↦ rw k (h.0, insert-All P new rest p h.1)
]

replace-All {ℓ} :
    (P : CacheEntry → Type ℓ) (new : CacheEntry) (es : List CacheEntry)
    → P new
    → All P es
    → All P (replace new es)
unfolding replace
replace-All P new [] p h = tt
replace-All P new (e ∷ rest) p h = elim (Bool-cases (e.key == new.key)) [
  | inl k ↦ rw k (p, h.1)
  | inr k ↦ rw k (h.0, replace-All P new rest p h.1)
]

pub touch-All : (key : ℕ) (es : List CacheEntry) → All IsTimeless es → All IsTimeless (touch key es)
unfolding touch
touch-All key [] h = tt
touch-All key (e ∷ rest) h = elim (Bool-cases (e.key == key)) [
  | inl k ↦ rw k (refl, h.1)
  | inr k ↦ rw k (h.0, touch-All key rest h.1)
]

-- The size that is kept is that of the entries, and no entry has a time.
pub record IsAccounted (c : EdgeCache) : Type 0 where
  pub sized : c.current_size_bytes ≡ total c.cache % u64_mod
  pub timeless : All IsTimeless c.cache

pub remove-IsAccounted : (key : ℕ) (c : EdgeCache) → IsAccounted c → IsAccounted (remove key c).0
unfolding remove minus
remove-IsAccounted key c h = elim (Option-cases (find key c.cache)) [
  | inl gone ↦ rw (remove, gone) h
  | inr (e, there) ↦
      let erased = rw there at (erase-total key c.cache) in
      rw (remove, there)
        (record {
          sized = omega (arith, erased, h.sized);
          timeless = erase-All IsTimeless key c.cache h.timeless;
        })
]

abbrev pub entry : ℕ → Bytes → CacheEntry
entry key content = record { key = key; content = content; timestamp = 0; access_count = 0 }

pub put_entry-IsAccounted :
    (key : ℕ) (content : Bytes) (c : EdgeCache)
    → IsAccounted c
    → IsAccounted (put_entry key content c)
unfolding put_entry store minus
put_entry-IsAccounted key content c h = elim (Option-cases (find key c.cache)) [
  | inl gone ↦
      rw (put_entry, store, gone)
        (record {
          sized = omega (arith, insert-total (entry key content) c.cache, h.sized);
          timeless = insert-All IsTimeless (entry key content) c.cache refl h.timeless;
        })
  | inr (e, there) ↦
      rw (put_entry, store, there)
        (record {
          sized = omega (arith, replace-total (entry key content) e c.cache there, h.sized);
          timeless = replace-All IsTimeless (entry key content) c.cache refl h.timeless;
        })
]

pub put_entry-total :
    (key : ℕ) (content : Bytes) (c : EdgeCache)
    → total (put_entry key content c).cache ≤ total c.cache + length content
unfolding put_entry store
put_entry-total key content c = elim (Option-cases (find key c.cache)) [
  | inl gone ↦ rw (put_entry, store, gone) (omega (arith, insert-total (entry key content) c.cache))
  | inr (e, there) ↦
      rw (put_entry, store, there)
        (omega (arith, replace-total (entry key content) e c.cache there))
]

oldest-zero : (key : ℕ) (es : List CacheEntry) → All IsTimeless es → oldest key 0 es ≡ key
unfolding oldest
oldest-zero key [] h = refl
oldest-zero key (e ∷ rest) h = rw h.0 (oldest-zero key rest h.1)

-- Among entries without times the first one, of the smallest key, is evicted.
pub oldest-first :
    (e : CacheEntry) (rest : List CacheEntry)
    → All IsTimeless (e ∷ rest)
    → oldest 0 (u64_mod - 1) (e ∷ rest) ≡ e.key
unfolding oldest
oldest-first e rest h = rw h.0 (oldest-zero e.key rest h.1)

pub erase-first : (e : CacheEntry) (rest : List CacheEntry) → erase e.key (e ∷ rest) ≡ rest
unfolding erase
erase-first e rest = ground arith
