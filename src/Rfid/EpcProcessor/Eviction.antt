-- ===== src/Rfid/EpcProcessor/Eviction.antt =====
-- Which entries server/rfid/epc_processor.cpp keeps when it cleans its cache up.
use rfidsystem.Prelude.{
  ℕ, zero, suc, ◌+◌, ◌≤◌, min, ltb, ◌≡◌, refl, sym, ap, subst, ◌∙◌, inl, inr, Bool, true, false,
  not, ◌&&◌, ◌||◌, List, [], ◌∷◌, arith, length, keep, any, tally, if◌then◌else◌, Bool-cases,
}
use rfidsystem.Prelude.Int.{ℤ, ◌-ℤ◌, ltb_ℤ, leb_ℤ, eq_ℤ}
use rfidsystem.Rfid.EpcProcessor.{
  CacheEntry, EpcProcessor, oldest_time, erase_time, erase_oldest, evict, drop_expired,
  cleanup_cache,
}

-- An entry at least as recent as a time.
abbrev pub since : ℤ → CacheEntry → Bool
since t e = leb_ℤ t e.last_timestamp

abbrev at_time : ℤ → CacheEntry → Bool
at_time t e = eq_ℤ e.last_timestamp t

tally-erase_time :
    (t m : ℤ) (es : List CacheEntry)
    → any (at_time m) es ≡ true
    → tally (since t) (erase_time m es) + (if leb_ℤ t m then 1 else 0) ≡ tally (since t) es
unfolding erase_time
tally-erase_time t m [] h = cc
tally-erase_time t m (e ∷ es) h = ground (arith, tally-erase_time t m es)

length-erase_time :
    (m : ℤ) (es : List CacheEntry)
    → any (at_time m) es ≡ true
    → length (erase_time m es) + 1 ≡ length es
unfolding erase_time
length-erase_time m [] h = cc
length-erase_time m (e ∷ es) h = ground (arith, length-erase_time m es)

oldest-le :
    (t s : ℤ) (es : List CacheEntry)
    → leb_ℤ s (oldest_time t es) ≡ true
    → (leb_ℤ s t ≡ true) × (tally (since s) es ≡ length es)
unfolding oldest_time
oldest-le t s [] h = (h, refl)
oldest-le t s (e ∷ es) h =
    let rest = oldest-le (if ltb_ℤ e.last_timestamp t then e.last_timestamp else t) s es h in
    ground (arith, rest)

there_less :
    (m t : ℤ) (e : CacheEntry) (es : List CacheEntry)
    → (eq_ℤ e.last_timestamp m || any (at_time m) es) ≡ true
    → (eq_ℤ t m || any (at_time m) (e ∷ es)) ≡ true
there_less m t e es h = ground arith

there_more :
    (m t : ℤ) (e : CacheEntry) (es : List CacheEntry)
    → (eq_ℤ t m || any (at_time m) es) ≡ true
    → (eq_ℤ t m || any (at_time m) (e ∷ es)) ≡ true
there_more m t e es h = ground arith

oldest_less :
    (t : ℤ) (e : CacheEntry) (es : List CacheEntry)
    → ltb_ℤ e.last_timestamp t ≡ true
    → oldest_time t (e ∷ es) ≡ oldest_time e.last_timestamp es
unfolding oldest_time
oldest_less t e es h = rw h refl

oldest_more :
    (t : ℤ) (e : CacheEntry) (es : List CacheEntry)
    → ltb_ℤ e.last_timestamp t ≡ false
    → oldest_time t (e ∷ es) ≡ oldest_time t es
unfolding oldest_time
oldest_more t e es h = rw h refl

oldest-there :
    (t : ℤ) (es : List CacheEntry)
    → (eq_ℤ t (oldest_time t es) || any (at_time (oldest_time t es)) es) ≡ true
unfolding oldest_time
oldest-there t [] = ground arith
oldest-there t (e ∷ es) = elim (Bool-cases (ltb_ℤ e.last_timestamp t)) [
  | inl less ↦ there_less (oldest_time t (e ∷ es)) t e es (
      subst (λ m. (eq_ℤ e.last_timestamp m || any (at_time m) es) ≡ true)
        (sym (oldest_less t e es less)) (oldest-there e.last_timestamp es))
  | inr more ↦ there_more (oldest_time t (e ∷ es)) t e es (
      subst (λ m. (eq_ℤ t m || any (at_time m) es) ≡ true) (sym (oldest_more t e es more))
        (oldest-there t es))
]

found_first :
    (e : CacheEntry) (es : List CacheEntry)
    → any (at_time (oldest_time e.last_timestamp (e ∷ es))) (e ∷ es) ≡ true
found_first e es = ground (arith, oldest-there e.last_timestamp (e ∷ es))

erase_oldest-length :
    (e : CacheEntry) (es : List CacheEntry) → length (erase_oldest (e ∷ es)) ≡ length es
unfolding erase_oldest
erase_oldest-length e es =
    let there = found_first e es in
    omega (arith, length-erase_time (oldest_time e.last_timestamp (e ∷ es)) (e ∷ es) there)

-- What an eviction from more than `n` entries does to the count of the recent ones.
erase_oldest-tally :
    (n : ℕ) (t : ℤ) (e : CacheEntry) (es : List CacheEntry)
    → n ≤ length es
    → min n (tally (since t) (erase_oldest (e ∷ es))) ≡ min n (tally (since t) (e ∷ es))
unfolding erase_oldest
erase_oldest-tally n t e es h =
    let m = oldest_time e.last_timestamp (e ∷ es) in
    let less = tally-erase_time t m (e ∷ es) (found_first e es) in
    elim (Bool-cases (leb_ℤ t m)) [
      | inl all ↦
          let whole = (oldest-le e.last_timestamp t (e ∷ es) all).1 in
          let one = ap (λ b. tally (since t) (erase_time m (e ∷ es)) + (if b then 1 else 0)) all in
          omega (arith, less, whole, one)
      | inr part ↦
          let zero_more =
            ap (λ b. tally (since t) (erase_time m (e ∷ es)) + (if b then 1 else 0)) part in
          omega (arith, less, zero_more)
    ]

evict-newest :
    (fuel n : ℕ) (t : ℤ) (es : List CacheEntry)
    → length es ≤ fuel
    → (length (evict fuel n es) ≤ n)
      × (min n (tally (since t) (evict fuel n es)) ≡ min n (tally (since t) es))
unfolding evict
evict-newest zero n t [] h = (omega arith, refl)
evict-newest zero n t (e ∷ es) h = ground arith
evict-newest (suc fuel) n t [] h = ground arith
evict-newest (suc fuel) n t (e ∷ es) h = elim (Bool-cases (ltb n (suc (length es)))) [
  | inl much ↦
      let later =
        evict-newest fuel n t (erase_oldest (e ∷ es)) (omega (arith, erase_oldest-length e es)) in
      rw much (later.0, later.1 ∙ erase_oldest-tally n t e es (ground (arith, much)))
  | inr fits ↦ rw fits (ground (arith, fits), refl)
]

tally-le : (p : CacheEntry → Bool) (es : List CacheEntry) → tally p es ≤ length es
tally-le p [] = omega arith
tally-le p (e ∷ es) = ground (arith, tally-le p es)

tally-keep :
    (p q : CacheEntry → Bool) (es : List CacheEntry)
    → tally p (keep q es) ≡ tally (λ e. q e && p e) es
tally-keep p q [] = refl
tally-keep p q (e ∷ es) = ground (arith, tally-keep p q es)

-- An entry that is not older than the filter's window.
abbrev pub fresh : ℤ → EpcProcessor → CacheEntry → Bool
fresh now p e = not (ltb_ℤ e.last_timestamp (now -ℤ p.duplicate_filter_window_ms))

-- The clean-up leaves at most as many entries as the cache may have, and they are the newest of the
-- fresh ones: of those at least as recent as any time `t` it leaves as many as there were, or as many
-- as the cache may have if there were more. The loop of evictions, which erases one entry in a round,
-- comes to its end.
pub cleanup_keeps_newest :
    (now t : ℤ) (p : EpcProcessor)
    → (length (cleanup_cache now p).epc_cache ≤ p.max_cache_size)
      × (tally (since t) (cleanup_cache now p).epc_cache
          ≡ min p.max_cache_size (tally (λ e. fresh now p e && since t e) p.epc_cache))
unfolding cleanup_cache drop_expired
cleanup_keeps_newest now t p =
    let kept = keep (fresh now p) p.epc_cache in
    let newest = evict-newest (length kept) p.max_cache_size t kept (omega arith) in
    let fits = tally-le (since t) (evict (length kept) p.max_cache_size kept) in
    (
      newest.0,
      omega (arith, newest.0, newest.1, fits, tally-keep (since t) (fresh now p) p.epc_cache),
    )
