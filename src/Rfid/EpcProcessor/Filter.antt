-- ===== src/Rfid/EpcProcessor/Filter.antt =====
-- When server/rfid/epc_processor.cpp filters a read after one that it has taken.
use rfidsystem.Prelude.{
  Option, ◌+◌, ◌≡◌, refl, ap, All, ◌∙◌, inl, inr, true, false, none, some, List, [], ◌∷◌, arith,
  String, u64, Bool-cases,
}
use rfidsystem.Prelude.Int.{ℤ, ◌-ℤ◌, ltb_ℤ}
use rfidsystem.Rfid.EpcProcessor.{
  EpcEvent, CacheEntry, EpcProcessor, find, is_duplicate, record_event, process_event, process_all,
}
use text.Mathlib.Text.{◌==◌ as str_eq}
use text.Mathlib.TextEquality.{eq_iff}
use text.Mathlib.TextPositions.{eq_refl}

-- What the cache holds of the tag of an event that was recorded.
recorded :
    (event : EpcEvent) (es : List CacheEntry) (t w : ℤ)
    → (elim (find event.epc (record_event event es)) [
      | none ↦ false
      | some e ↦ ltb_ℤ (t -ℤ e.last_timestamp) w
    ])
      ≡ ltb_ℤ (t -ℤ event.timestamp_ms) w
unfolding find record_event
recorded event [] t w = rw (eq_refl event.epc) refl
recorded event (e ∷ es) t w = elim (Bool-cases (str_eq e.key event.epc)) [
  | inl same ↦ rw (same, same) refl
  | inr other ↦ rw (other, other) (recorded event es t w)
]

taken :
    (event : EpcEvent) (p : EpcProcessor)
    → is_duplicate event.epc event.timestamp_ms p ≡ false
    → process_event event p ≡ record p {
      processed_count = u64 (p.processed_count + 1);
      epc_cache = record_event event p.epc_cache;
    }
unfolding process_event is_duplicate
taken event p h = ground arith

-- The time recorded last for a tag is that of its own event: one of another tag leaves it.
recorded_other :
    (epc : String) (event : EpcEvent) (es : List CacheEntry)
    → str_eq event.epc epc ≡ false
    → find epc (record_event event es) ≡ find epc es
unfolding find record_event
recorded_other epc event [] other = rw other refl
recorded_other epc event (e ∷ es) other = elim (Bool-cases (str_eq e.key event.epc)) [
  | inl same ↦
      let key : e.key ≡ event.epc = (eq_iff e.key event.epc).0 same in rw (same, key, other) refl
  | inr distinct ↦ elim (Bool-cases (str_eq e.key epc)) [
    | inl here ↦ rw (distinct, here) refl
    | inr there ↦ rw (distinct, there) (recorded_other epc event es other)
  ]
]

other_taken :
    (event later : EpcEvent) (p : EpcProcessor)
    → is_duplicate later.epc later.timestamp_ms p ≡ false
    → str_eq later.epc event.epc ≡ false
    → (t : ℤ) → is_duplicate event.epc t (process_event later p) ≡ is_duplicate event.epc t p
unfolding is_duplicate
other_taken event later p new other t =
    ap (is_duplicate event.epc t) (taken later p new)
    ∙ ap
        (λ (o : Option CacheEntry). elim o [
          | none ↦ false
          | some e ↦ ltb_ℤ (t -ℤ e.last_timestamp) p.duplicate_filter_window_ms
        ])
        (recorded_other event.epc later p.epc_cache other)

-- The filter holds an event's time for its tag, with this window.
abbrev Holds : EpcEvent → ℤ → EpcProcessor → Type 0
Holds event w p = (t : ℤ) → is_duplicate event.epc t p ≡ ltb_ℤ (t -ℤ event.timestamp_ms) w

taken-Holds :
    (event : EpcEvent) (p : EpcProcessor)
    → is_duplicate event.epc event.timestamp_ms p ≡ false
    → Holds event p.duplicate_filter_window_ms (process_event event p)
unfolding is_duplicate
taken-Holds event p new t =
    rw (taken event p new) (recorded event p.epc_cache t p.duplicate_filter_window_ms)

-- An event of the tag comes within the window.
abbrev pub IsWithin : EpcEvent → ℤ → EpcEvent → Type 0
IsWithin event w e =
    str_eq e.epc event.epc ≡ true → ltb_ℤ (e.timestamp_ms -ℤ event.timestamp_ms) w ≡ true

filtered-Holds :
    (event later : EpcEvent) (w : ℤ) (p : EpcProcessor)
    → is_duplicate later.epc later.timestamp_ms p ≡ true
    → Holds event w p
    → Holds event w (process_event later p)
unfolding is_duplicate process_event
filtered-Holds event later w p old h t = rw old (h t)

other-Holds :
    (event later : EpcEvent) (w : ℤ) (p : EpcProcessor)
    → str_eq later.epc event.epc ≡ false
    → Holds event w p
    → Holds event w (process_event later p)
other-Holds event later w p other h =
    elim (Bool-cases (is_duplicate later.epc later.timestamp_ms p)) [
      | inl old ↦ filtered-Holds event later w p old h
      | inr new ↦ λ t. other_taken event later p new other t ∙ h t
    ]

process_event-Holds :
    (event later : EpcEvent) (w : ℤ) (p : EpcProcessor)
    → IsWithin event w later
    → Holds event w p
    → Holds event w (process_event later p)
process_event-Holds event later w p within h = elim (Bool-cases (str_eq later.epc event.epc)) [
  | inr other ↦ other-Holds event later w p other h
  | inl same ↦
      let tag : later.epc ≡ event.epc = (eq_iff later.epc event.epc).0 same in
      filtered-Holds event later w p
        (ap (λ epc. is_duplicate epc later.timestamp_ms p) tag
          ∙ (h later.timestamp_ms ∙ within same))
        h
]

process_all-Holds :
    (event : EpcEvent) (laters : List EpcEvent) (w : ℤ) (p : EpcProcessor)
    → All (IsWithin event w) laters
    → Holds event w p
    → Holds event w (process_all laters p)
unfolding process_all
process_all-Holds event [] w p within h = h
process_all-Holds event (e ∷ es) w p within h =
    process_all-Holds event es w (process_event e p) within.1
      (process_event-Holds event e w p within.0 h)

-- Within a batch, before its `cleanupCache`: when an event is taken, and each event of the same tag among
-- the next ones of the batch comes less than the window after it, then after all of these, of whatever
-- tags, a read of the tag is filtered exactly when it comes less than the window after that first event;
-- so a repetition does not prolong the window, and other tags do not end it.
pub window_from_taken :
    (event : EpcEvent) (laters : List EpcEvent) (p : EpcProcessor) (t : ℤ)
    → is_duplicate event.epc event.timestamp_ms p ≡ false
    → All (IsWithin event p.duplicate_filter_window_ms) laters
    → is_duplicate event.epc t (process_all (event ∷ laters) p)
      ≡ ltb_ℤ (t -ℤ event.timestamp_ms) p.duplicate_filter_window_ms
unfolding process_all
window_from_taken event laters p t new within =
    process_all-Holds event laters p.duplicate_filter_window_ms (process_event event p) within
      (taken-Holds event p new) t
