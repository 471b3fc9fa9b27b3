-- ===== src/Core/EpcBuffer/Duplicates.antt =====
-- When server/core/epc_buffer.cpp takes a second read of a tag for a duplicate.
use rfidsystem.Prelude.{
  u64, if◌then◌else◌, ◌+◌, ◌*◌, ◌<◌, ◌≡◌, refl, inl, inr, Bool, true, not, List, arith, String, any,
  Bool-cases,
}
use rfidsystem.Prelude.Int.{ℤ, pos, ◌-ℤ◌, ltb_ℤ}
use rfidsystem.Core.EpcBuffer.{
  EpcEntry, EpcBuffer, max_buffer_size, duplicate_window_ms, is_duplicate, total_size,
  insert_recent, store, push,
}
use text.Mathlib.Text.{◌==◌ as str_eq}
use text.Mathlib.TextPositions.{eq_refl}
use rfidsystem.Core.EpcBuffer.Bounds.{total_size-store}
use rfidsystem.Core.EpcBuffer.Conservation.{accepts}

-- The entry comes more than two windows after the last clearing of the set.
abbrev pub expires : EpcEntry → EpcBuffer → Bool
expires e b = ltb_ℤ (pos (duplicate_window_ms * 2)) (e.timestamp_ms -ℤ b.last_cleanup_time)

recent_inserted :
    (epc : String) (recent : List String)
    → any (λ e. str_eq e epc) (insert_recent epc recent) ≡ true
unfolding insert_recent
recent_inserted epc recent = elim (Bool-cases (any (λ e. str_eq e epc) recent)) [
  | inl old ↦ rw old old
  | inr new ↦ rw (new, eq_refl epc) refl
]

push_accepted : (e : EpcEntry) (b : EpcBuffer) → accepts e b ≡ true → push e b ≡ store e b
unfolding push
push_accepted e b h = ground arith

-- What the set holds of the EPC just stored.
duplicate_after :
    (e : EpcEntry) (now : ℤ) (b : EpcBuffer)
    → is_duplicate e.epc now (store e b) ≡ not (expires e b)
unfolding is_duplicate store
duplicate_after e now b = elim (Bool-cases (expires e b)) [
  | inl out ↦ rw out
  | inr in_time ↦ rw in_time (recent_inserted e.epc b.recent_epcs)
]

-- When an entry has been pushed that the buffer accepts, and there is room for another, pushing a second
-- read of the same EPC, at whatever time, by whatever reader and for whatever task, does nothing but count
-- a duplicate, unless the first came more than two windows after the last clearing of the set; in that
-- case it is stored as well, even if it is read at the same millisecond.
pub second_read :
    (e again : EpcEntry) (b : EpcBuffer)
    → accepts e b ≡ true
    → again.epc ≡ e.epc
    → total_size b + 1 < max_buffer_size
    → push again (push e b) ≡ (
        if expires e b
        then store again (push e b)
        else record (push e b) { total_duplicates = u64 ((push e b).total_duplicates + 1) })
unfolding push
second_read e again b h same room =
    rw (push_accepted e b h, same, total_size-store e b, duplicate_after e again.timestamp_ms b)
      (ground arith)
