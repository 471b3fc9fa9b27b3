-- ===== src/Replay/Player/RoundTrip.antt =====
-- What is played by server/runtime/spatial_frame_player.cpp is what was recorded by
-- server/runtime/spatial_frame_recorder.cpp.
use rfidsystem.Prelude.{
  ℕ, zero, suc, ◌+◌, ◌<◌, leb, ◌≡◌, refl, sym, ap, subst, ◌∙◌, Bool, true, false, Option, none,
  some, List, [], ◌∷◌, ◌++◌, map, arith, length, All, length-append, append_assoc, append_nil, u64,
  u64_mod,
}
use rfidsystem.Replay.Bytes.{Bytes, int_to_u64}
use rfidsystem.Replay.SpatialFrame.{Machine, SpatialFrame, ProtoFrame}
use rfidsystem.Replay.SpatialFrame.Hash.{hash}
use rfidsystem.Replay.Recorder.{
  header_size, header_bytes, SpatialFrameRecorder, new_recorder, open_recorder, to_proto, header_of,
  record_bytes, append,
}
use rfidsystem.Replay.Stream.Header.{at, read-at, length-header_bytes}
use rfidsystem.Replay.Player.Index.{
  IsRecordable, records, index_from, payload_size_kept, read_record, load_index-records,
}
use rfidsystem.Replay.Stream.{seekg, read, load_index}
use rfidsystem.Replay.Player.{
  new_player, open_player, position_at, Player, fill, take_payload, take_buffer, take_header,
  read_frame_from, read_frame_at, next_frame,
}
use rfidsystem.Replay.Player.Copies.{IsMap, recorded, from_proto-to_proto}

module _ (m : Machine) (serialize : ProtoFrame m.D m.F → Bytes)
    (parse : Bytes → Option (ProtoFrame m.D m.F)) where
  abbrev Frame : Type 0
  Frame = SpatialFrame m.D m.F

  -- `ParseFromArray` of what `SerializeAsString` gave for the frame is its message.
  abbrev pub IsParsed : Frame → Type 0
  IsParsed f = parse (serialize (to_proto m f)) ≡ some (to_proto m f)

  -- The maps of a frame are maps, and its payload fits the header's 32 bits.
  abbrev pub IsStorable : Frame → Type 0
  IsStorable f = All IsMap f.assets × IsRecordable m serialize f

  fill_same : (bs : Bytes) → fill m parse (length bs) bs ≡ bs
  unfolding fill
  fill_same [] = refl
  fill_same (b ∷ bs) = ap (λ cs. b ∷ cs) (fill_same bs)

  -- A player in the middle of a file.
  abbrev mid : Bytes → ℕ → List (ℕ × ℕ) → ℕ → ℕ → Player m parse
  mid bytes n index i hashed = record new_player {
    file = at bytes n;
    is_open = true;
    index = index;
    current_frame_index = i;
    last_frame_hash = hashed;
  }

  taken :
      (f : Frame) (p : Player m parse)
      → IsParsed f
      → IsStorable f
      → take_payload m parse (header_of m serialize f) (serialize (to_proto m f)) p
        ≡ (record p { last_frame_hash = hash m f }, some (recorded m f))
  unfolding take_payload header_of to_proto
  taken f p c h = rw (c, from_proto-to_proto m f h.0) (ground arith)

  -- The read of the payload of the record that stands after `pre`.
  payload_there :
      (pre rest : Bytes) (f : Frame)
      → IsRecordable m serialize f
      → let bytes = pre ++ (record_bytes m serialize f ++ rest) in
        let payload = serialize (to_proto m f) in
        read (header_of m serialize f).payload_size (at bytes (length pre + header_size))
        ≡ (at bytes (length pre + header_size + length payload), payload)
  unfolding record_bytes
  payload_there pre rest f h =
      let payload = serialize (to_proto m f) in
      let hb = header_bytes (header_of m serialize f) in
      let size = payload_size_kept m serialize f h in
      let start : length (pre ++ hb) ≡ length pre + header_size =
        omega (arith, length-append pre hb, length-header_bytes (header_of m serialize f)) in
      let shape =
        append_assoc pre hb (payload ++ rest)
        ∙ ap (λ b. pre ++ b) (sym (append_assoc hb payload rest)) in
      subst
        (λ k. read k (at (pre ++ ((hb ++ payload) ++ rest)) (length pre + header_size)) ≡ (
          at (pre ++ ((hb ++ payload) ++ rest)) (length pre + header_size + length payload),
          payload,
        ))
        (sym size)
        (subst
          (λ k.
            read (length payload) (at (pre ++ ((hb ++ payload) ++ rest)) k)
            ≡ (at (pre ++ ((hb ++ payload) ++ rest)) (k + length payload), payload))
          start
          (subst
            (λ b.
              read (length payload) (at b (length (pre ++ hb)))
              ≡ (at b (length (pre ++ hb) + length payload), payload))
            shape (read-at (pre ++ hb) payload rest)))

  filled :
      (f : Frame)
      → IsRecordable m serialize f
      → fill m parse (header_of m serialize f).payload_size (serialize (to_proto m f))
        ≡ serialize (to_proto m f)
  filled f h = rw (payload_size_kept m serialize f h) (fill_same (serialize (to_proto m f)))

  -- The read of the record that stands after `pre`.
  read_there :
      (pre rest : Bytes) (f : Frame) (n i hashed : ℕ) (index : List (ℕ × ℕ))
      → IsParsed f
      → IsStorable f
      → let bytes = pre ++ (record_bytes m serialize f ++ rest) in
        read_frame_from m parse (length pre) (mid bytes n index i hashed) ≡ (
          mid bytes
              (length pre + header_size + length (serialize (to_proto m f)))
              index
              i
              (hash m f),
          some (recorded m f),
        )
  unfolding read_frame_from seekg new_player take_header take_buffer
  read_there pre rest f n i hashed index c h =
      let p = mid (pre ++ (record_bytes m serialize f ++ rest)) n index i hashed in
      let hd = header_of m serialize f in
      ap (λ r. take_header m parse r p) (read_record m serialize pre rest f)
      ∙ (ap (λ r. take_buffer m parse hd r p) (payload_there pre rest f h.1)
          ∙ rw (filled f h.1) (taken f _ c h))

  position_there :
      (front more : List (ℕ × ℕ)) (p t : ℕ)
      → position_at (length front) (front ++ ((p, t) ∷ more)) ≡ some p
  unfolding position_at
  position_there [] more p t = refl
  position_there ((q, s) ∷ front) more p t = position_there front more p t

  next_indexed :
      (p : Player m parse) (position : ℕ)
      → leb (length p.index) p.current_frame_index ≡ false
      → position_at p.current_frame_index p.index ≡ some position
      → next_frame m parse p
        ≡ read_frame_from m parse position
            (record p { current_frame_index = u64 (p.current_frame_index + 1) })
  unfolding next_frame read_frame_at
  next_indexed p position h e = rw (h, read_frame_at, e) refl

  next_there :
      (pre rest : Bytes) (f : Frame) (n hashed t : ℕ) (front more : List (ℕ × ℕ))
      → IsParsed f
      → IsStorable f
      → length front + 1 < u64_mod
      → let bytes = pre ++ (record_bytes m serialize f ++ rest) in
        let index = front ++ ((length pre, t) ∷ more) in
        next_frame m parse (mid bytes n index (length front) hashed) ≡ (
          mid bytes
              (length pre + header_size + length (serialize (to_proto m f)))
              index
              (length front + 1)
              (hash m f),
          some (recorded m f),
        )
  unfolding new_player
  next_there pre rest f n hashed t front more c h small =
      let index = front ++ ((length pre, t) ∷ more) in
      let before : leb (length index) (length front) ≡ false =
        ground (arith, length-append front ((length pre, t) ∷ more)) in
      let wrapped : u64 (length front + 1) ≡ length front + 1 = omega arith in
      next_indexed (mid (pre ++ (record_bytes m serialize f ++ rest)) n index (length front) hashed)
        (length pre) before (position_there front more (length pre) t)
      ∙ rw wrapped (read_there pre rest f n (length front + 1) hashed index c h)

  -- The frames that calls of `nextFrame` in a row give, each with `getLastFrameHash` after it.
  unfoldable pub frames : ℕ → Player m parse → List (Option Frame × ℕ)
  frames zero p = []
  frames (suc n) p =
      ((next_frame m parse p).1, (next_frame m parse p).0.last_frame_hash)
      ∷ frames n (next_frame m parse p).0

  frames_from :
      (pre : Bytes) (fs : List Frame) (n hashed : ℕ) (front : List (ℕ × ℕ))
      → All IsParsed fs
      → All IsStorable fs
      → length front + length fs < u64_mod
      → frames (length fs) (
          mid
            (pre ++ records m serialize fs)
            n
            (front ++ index_from m serialize (length pre) fs)
            (length front)
            hashed)
        ≡ map (λ f. (some (recorded m f), hash m f)) fs
  unfolding frames records index_from
  frames_from pre [] n hashed front c h small = refl
  frames_from pre (f ∷ fs) n hashed front c h small =
      let rec = record_bytes m serialize f in
      let t = int_to_u64 f.timestamp in
      let more = index_from m serialize (length pre + length rec) fs in
      let next =
        next_there pre (records m serialize fs) f n hashed t front more c.0 h.0 (omega arith) in
      let later =
        frames_from (pre ++ rec) fs (length pre + header_size + length (serialize (to_proto m f)))
          (hash m f) (front ++ ((length pre, t) ∷ [])) c.1 h.1
          (omega (arith, length-append front ((length pre, t) ∷ []))) in
      let o = ap (λ (r : Player m parse × Option Frame). r.1) next in
      let q = ap (λ (r : Player m parse × Option Frame). r.0) next in
      let shape = λ (b : Bytes) (ix : List (ℕ × ℕ)) (i : ℕ).
        frames (length fs)
          (mid b (length pre + header_size + length (serialize (to_proto m f))) ix i (hash m f))
        ≡ map (λ f. (some (recorded m f), hash m f)) fs in
      let bytes = pre ++ (rec ++ records m serialize fs) in
      let index = front ++ ((length pre, t) ∷ more) in
      let last = front ++ ((length pre, t) ∷ []) in
      let moved =
        subst
          (λ k.
            shape ((pre ++ rec) ++ records m serialize fs) (last ++ index_from m serialize k fs)
              (length last))
          (length-append pre rec) later in
      let joined =
        subst (λ ix. shape ((pre ++ rec) ++ records m serialize fs) ix (length last))
          (append_assoc front ((length pre, t) ∷ []) more) moved in
      let counted =
        subst (λ i. shape ((pre ++ rec) ++ records m serialize fs) index i)
          (length-append front ((length pre, t) ∷ [])) joined in
      let tail =
        subst (λ b. shape b index (length front + 1))
          (append_assoc pre rec (records m serialize fs)) counted in
      rw (o, q) (ap (λ xs. (some (recorded m f), hash m f) ∷ xs) tail)

  unfoldable pub append_all : List Frame → SpatialFrameRecorder → SpatialFrameRecorder
  append_all [] r = r
  append_all (f ∷ fs) r = append_all fs (append m serialize f r)

  appended :
      (f : Frame) (r : SpatialFrameRecorder)
      → r.opened ≡ true
      → ((append m serialize f r).file ≡ r.file ++ record_bytes m serialize f)
        × ((append m serialize f r).opened ≡ true)
  unfolding append
  appended f r o = rw o (refl, refl)

  append_all-file :
      (fs : List Frame) (r : SpatialFrameRecorder)
      → r.opened ≡ true
      → (append_all fs r).file ≡ r.file ++ records m serialize fs
  unfolding append_all records
  append_all-file [] r o = sym (append_nil r.file)
  append_all-file (f ∷ fs) r o =
      let file = appended f r o in
      append_all-file fs (append m serialize f r) file.1
      ∙ rw file.0 (append_assoc r.file (record_bytes m serialize f) (records m serialize fs))

  storable-IsRecordable : (fs : List Frame) → All IsStorable fs → All (IsRecordable m serialize) fs
  storable-IsRecordable [] h = tt
  storable-IsRecordable (f ∷ fs) h = (h.0.1, storable-IsRecordable fs h.1)

  -- The state of an object after a call that returned.
  abbrev after {ℓ} : {A : Type ℓ} → A → Option (A × Bool) → A
  after a none = a
  after a (some (b, ok)) = b

  -- Frames that a recorder appends to an empty file are what a player of the file reads, one after the
  -- other and in order, all but their overlays, decision hashes and budget times; after each the last
  -- frame hash is the hash that the whole frame had. That Protocol Buffers parse what they serialized for
  -- these frames is assumed; payloads are below 2^32 bytes, action scores are maps, and there are less than 2^64 frames.
  pub recording_plays_back :
      (fs : List Frame) (r : SpatialFrameRecorder) (p : Player m parse)
      → All IsParsed fs
      → All IsStorable fs
      → length fs < u64_mod
      → open_recorder true [] new_recorder ≡ some (r, true)
      → open_player true (append_all fs r).file new_player ≡ some (p, true)
      → frames (length fs) p ≡ map (λ f. (some (recorded m f), hash m f)) fs
  unfolding open_recorder open_player new_recorder new_player
  recording_plays_back fs r p c h small opens plays =
      let opened = ap (after r) (sym opens) in
      let player = ap (after p) (sym plays) in
      let file =
        append_all-file fs r (ap (λ q. q.opened) opened)
        ∙ ap (λ q. q.file ++ records m serialize fs) opened in
      let index = load_index-records m serialize fs (storable-IsRecordable fs h) in
      let start =
        player
        ∙ (ap (λ b. mid b 0 (load_index b) 0 0) file
            ∙ ap (λ ix. mid (records m serialize fs) 0 ix 0 0) index) in
      subst (λ q. frames (length fs) q ≡ map (λ f. (some (recorded m f), hash m f)) fs) (sym start)
        (frames_from [] fs 0 0 [] c h (omega arith))
