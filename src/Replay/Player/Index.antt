-- ===== src/Replay/Player/Index.antt =====
-- The index that server/runtime/spatial_frame_player.cpp makes of a file of
-- server/runtime/spatial_frame_recorder.cpp.
use rfidsystem.Prelude.{
  ℕ, zero, suc, ◌+◌, ◌-◌, ◌≤◌, ◌<◌, ◌≡◌, refl, sym, ap, subst, ◌∙◌, Option, none, some, List, [],
  ◌∷◌, ◌++◌, arith, length, All, length-append, drop-append, append_assoc,
}
use rfidsystem.Replay.Bytes.{Bytes, compute_checksum-lt, u32_mod, int_to_u64, int_to_u64-lt}
use rfidsystem.Replay.SpatialFrame.{Machine, SpatialFrame, ProtoFrame}
use rfidsystem.Replay.Recorder.{
  FrameRecordHeader, header_size, header_bytes, to_proto, header_of, record_bytes,
}
use rfidsystem.Replay.Stream.Header.{at, IsHeader, length-header_bytes, read_header-at}
use rfidsystem.Replay.Stream.{Stream, seekg, read, read_header, load_loop, load_index}

load_step :
    (fuel : ℕ) (s t : Stream) (h : FrameRecordHeader)
    → read_header s ≡ (t, some h)
    → load_loop (suc fuel) s
      ≡ (t.position - header_size, h.timestamp)
        ∷ load_loop fuel (seekg (t.position + h.payload_size) t)
unfolding load_loop
load_step fuel s t h e =
    let o = ap (λ (r : Stream × Option FrameRecordHeader). r.1) e in
    let q = ap (λ (r : Stream × Option FrameRecordHeader). r.0) e in rw (o, q, load_loop) refl

load_stop : (fuel : ℕ) (s : Stream) → (read_header s).1 ≡ none → load_loop (suc fuel) s ≡ []
unfolding load_loop
load_stop fuel s e = rw (e, load_loop) refl

module _ (m : Machine) (serialize : ProtoFrame m.D m.F → Bytes) where
  abbrev Frame : Type 0
  Frame = SpatialFrame m.D m.F

  -- The payload of a frame fits the header's 32 bits.
  abbrev pub IsRecordable : Frame → Type 0
  IsRecordable f = length (serialize (to_proto m f)) < u32_mod

  -- What the recorder writes for frames in a row.
  unfoldable pub records : List Frame → Bytes
  records [] = []
  records (f ∷ fs) = record_bytes m serialize f ++ records fs

  -- Where the records stand, from a position on, with their timestamps.
  unfoldable pub index_from : ℕ → List Frame → List (ℕ × ℕ)
  index_from start [] = []
  index_from start (f ∷ fs) =
      (start, int_to_u64 f.timestamp) ∷ index_from (start + length (record_bytes m serialize f)) fs

  pub header_of-IsHeader : (f : Frame) → IsHeader (header_of m serialize f)
  unfolding header_of
  header_of-IsHeader f = record {
    magical = refl;
    stamped = int_to_u64-lt f.timestamp;
    sized = omega arith;
    checked = compute_checksum-lt (serialize (to_proto m f));
  }

  pub length-record_bytes :
      (f : Frame)
      → length (record_bytes m serialize f) ≡ header_size + length (serialize (to_proto m f))
  unfolding record_bytes
  length-record_bytes f = omega (
    arith,
    length-append (header_bytes (header_of m serialize f)) (serialize (to_proto m f)),
    length-header_bytes (header_of m serialize f),
  )

  pub payload_size_kept :
      (f : Frame)
      → IsRecordable f
      → (header_of m serialize f).payload_size ≡ length (serialize (to_proto m f))
  unfolding header_of
  payload_size_kept f h = omega arith

  -- The header of the first of the records that follow.
  pub read_record :
      (pre rest : Bytes) (f : Frame)
      → let bytes = pre ++ (record_bytes m serialize f ++ rest) in
        read_header (at bytes (length pre))
        ≡ (at bytes (length pre + header_size), some (header_of m serialize f))
  unfolding record_bytes
  read_record pre rest f =
      let hb = header_bytes (header_of m serialize f) in
      let payload = serialize (to_proto m f) in
      subst
        (λ bs.
          read_header (at (pre ++ bs) (length pre))
          ≡ (at (pre ++ bs) (length pre + header_size), some (header_of m serialize f)))
        (sym (append_assoc hb payload rest))
        (read_header-at (header_of m serialize f) pre (payload ++ rest) (header_of-IsHeader f))

  read_end : (pre : Bytes) → (read_header (at (pre ++ []) (length pre))).1 ≡ none
  unfolding read_header read
  read_end pre = rw (drop-append pre []) refl

  load_loop-records :
      (fuel : ℕ) (pre : Bytes) (fs : List Frame)
      → All IsRecordable fs
      → length fs < fuel
      → load_loop fuel (at (pre ++ records fs) (length pre)) ≡ index_from (length pre) fs
  unfolding records index_from seekg header_of
  load_loop-records zero pre fs h lt = absurd (omega arith)
  load_loop-records (suc fuel) pre [] h lt = load_stop fuel _ (read_end pre)
  load_loop-records (suc fuel) pre (f ∷ fs) h lt =
      let rec = record_bytes m serialize f in
      let whole = pre ++ (rec ++ records fs) in
      let size = (header_of m serialize f).payload_size in
      let shape = λ (b : Bytes) (k n : ℕ). load_loop fuel (at b k) ≡ index_from n fs in
      let next = load_loop-records fuel (pre ++ rec) fs h.1 (omega arith) in
      let joined =
        subst (λ b. shape b (length (pre ++ rec)) (length (pre ++ rec)))
          (append_assoc pre rec (records fs)) next in
      let after = length-append pre rec in
      let there : length (pre ++ rec) ≡ length pre + header_size + size =
        omega (arith, after, length-record_bytes f, payload_size_kept f h.0) in
      let tail =
        subst (λ k. shape whole k (length pre + length rec)) there
          (subst (λ n. shape whole (length (pre ++ rec)) n) after joined) in
      let back : length pre + header_size - header_size ≡ length pre = omega arith in
      load_step fuel (at whole (length pre)) (at whole (length pre + header_size))
        (header_of m serialize f) (read_record pre (records fs) f)
      ∙ rw (tail, back) refl

  length-records : (fs : List Frame) → length fs ≤ length (records fs)
  unfolding records
  length-records [] = omega arith
  length-records (f ∷ fs) = omega (
    arith,
    length-append (record_bytes m serialize f) (records fs),
    length-records fs,
    length-record_bytes f,
  )

  -- The index of a recorded file has each record's position and timestamp, in order.
  pub load_index-records :
      (fs : List Frame) → All IsRecordable fs → load_index (records fs) ≡ index_from 0 fs
  unfolding load_index
  load_index-records fs h =
      load_loop-records (suc (length (records fs))) [] fs h (omega (arith, length-records fs))
