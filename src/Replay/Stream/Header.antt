-- ===== src/Replay/Stream/Header.antt =====
-- How server/runtime/spatial_frame_player.cpp reads the header that
-- server/runtime/spatial_frame_recorder.cpp wrote.
use rfidsystem.Prelude.{
  ℕ, ◌+◌, ◌^◌, ◌<◌, ◌≡◌, refl, ap, subst, ◌∙◌, false, some, [], ◌++◌, arith, length, drop, take,
  length-append, drop-append, take-append, append_assoc, append_nil, u64_mod,
}
use rfidsystem.Replay.Bytes.{
  Bytes, to_bytes, from_bytes, length-to_bytes, from_bytes-to_bytes, u32_mod,
}
use rfidsystem.Replay.Recorder.{FrameRecordHeader, magic_number, header_size, header_bytes}
use rfidsystem.Replay.Stream.{Stream, read, header_from, read_header}

-- A stream without an error, at a position.
abbrev pub at : Bytes → ℕ → Stream
at bytes n = record { bytes = bytes; position = n; failed = false }

take_first : (n : ℕ) (xs ys : Bytes) → length xs ≡ n → take n (xs ++ ys) ≡ xs
take_first n xs ys e = subst (λ k. take k (xs ++ ys) ≡ xs) e (take-append xs ys)

drop_first : (n : ℕ) (xs ys : Bytes) → length xs ≡ n → drop n (xs ++ ys) ≡ ys
drop_first n xs ys e = subst (λ k. drop k (xs ++ ys) ≡ ys) e (drop-append xs ys)

pub read-at :
    (pre bs post : Bytes)
    → read (length bs) (at (pre ++ (bs ++ post)) (length pre))
      ≡ (at (pre ++ (bs ++ post)) (length pre + length bs), bs)
unfolding read
read-at pre bs post =
    rw (drop-append pre (bs ++ post), take-append bs post) (ground (arith, length-append bs post))

-- The members fit their types.
pub record IsHeader (h : FrameRecordHeader) : Type 0 where
  pub magical : h.magic ≡ magic_number
  pub stamped : h.timestamp < u64_mod
  pub sized : h.payload_size < u32_mod
  pub checked : h.checksum < u32_mod

pub length-header_bytes : (h : FrameRecordHeader) → length (header_bytes h) ≡ header_size
unfolding header_bytes
length-header_bytes h =
    let a = to_bytes 8 h.magic in
    let b = to_bytes 8 h.timestamp in
    let c = to_bytes 4 h.payload_size in
    let d = to_bytes 4 h.checksum in
    omega (
      arith,
      length-append a (b ++ (c ++ d)),
      length-append b (c ++ d),
      length-append c d,
      length-to_bytes 8 h.magic,
      length-to_bytes 8 h.timestamp,
      length-to_bytes 4 h.payload_size,
      length-to_bytes 4 h.checksum,
    )

-- A number that stands somewhere in a buffer.
from_bytes-there :
    (n k v : ℕ) (pre post : Bytes)
    → length pre ≡ k
    → v < 256 ^ n
    → from_bytes (take n (drop k (pre ++ (to_bytes n v ++ post)))) ≡ v
from_bytes-there n k v pre post e h =
    rw
      (
        drop_first k pre (to_bytes n v ++ post) e,
        take_first n (to_bytes n v) post (length-to_bytes n v),
      )
      (from_bytes-to_bytes n v h)

header_magic : (h : FrameRecordHeader) → IsHeader h → from_bytes (take 8 (header_bytes h)) ≡ h.magic
unfolding header_bytes
header_magic h v = from_bytes-there 8 0 h.magic [] _ refl (omega arith)

header_timestamp :
    (h : FrameRecordHeader)
    → IsHeader h
    → from_bytes (take 8 (drop 8 (header_bytes h))) ≡ h.timestamp
unfolding header_bytes
header_timestamp h v =
    from_bytes-there 8 8 h.timestamp (to_bytes 8 h.magic) _ (length-to_bytes 8 h.magic)
      (omega arith)

header_payload :
    (h : FrameRecordHeader)
    → IsHeader h
    → from_bytes (take 4 (drop 16 (header_bytes h))) ≡ h.payload_size
unfolding header_bytes
header_payload h v =
    let a = to_bytes 8 h.magic in
    let b = to_bytes 8 h.timestamp in
    subst (λ bs. from_bytes (take 4 (drop 16 bs)) ≡ h.payload_size) (append_assoc a b _)
      (from_bytes-there 4 16 h.payload_size (a ++ b) (to_bytes 4 h.checksum)
        (length-append a b
          ∙ omega (arith, length-to_bytes 8 h.magic, length-to_bytes 8 h.timestamp))
        (omega arith))

header_checksum :
    (h : FrameRecordHeader)
    → IsHeader h
    → from_bytes (take 4 (drop 20 (header_bytes h))) ≡ h.checksum
unfolding header_bytes
header_checksum h v =
    let a = to_bytes 8 h.magic in
    let b = to_bytes 8 h.timestamp in
    let c = to_bytes 4 h.payload_size in
    let d = to_bytes 4 h.checksum in
    let shape =
      append_assoc (a ++ b) c (d ++ [])
      ∙ (append_assoc a b (c ++ (d ++ [])) ∙ ap (λ x. a ++ (b ++ (c ++ x))) (append_nil d)) in
    subst (λ bs. from_bytes (take 4 (drop 20 bs)) ≡ h.checksum) shape
      (from_bytes-there 4 20 h.checksum ((a ++ b) ++ c) []
        (omega (
          arith,
          length-append (a ++ b) c,
          length-append a b,
          length-to_bytes 8 h.magic,
          length-to_bytes 8 h.timestamp,
          length-to_bytes 4 h.payload_size,
        ))
        (omega arith))

header_from-header_bytes : (h : FrameRecordHeader) → IsHeader h → header_from (header_bytes h) ≡ h
unfolding header_from
header_from-header_bytes h v =
    rw (header_magic h v, header_timestamp h v, header_payload h v, header_checksum h v) refl

pub read_header-at :
    (h : FrameRecordHeader) (pre post : Bytes)
    → IsHeader h
    → read_header (at (pre ++ (header_bytes h ++ post)) (length pre))
      ≡ (at (pre ++ (header_bytes h ++ post)) (length pre + header_size), some h)
unfolding read_header
read_header-at h pre post v =
    let there =
      subst
        (λ n.
          read n (at (pre ++ (header_bytes h ++ post)) (length pre))
          ≡ (at (pre ++ (header_bytes h ++ post)) (length pre + n), header_bytes h))
        (length-header_bytes h) (read-at pre (header_bytes h) post) in
    rw (there, header_from-header_bytes h v, v.magical) refl
