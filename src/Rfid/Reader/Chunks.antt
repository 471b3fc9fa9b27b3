-- ===== src/Rfid/Reader/Chunks.antt =====
-- What the loops of server/rfid/reader.cpp hear does not depend on how the bytes came.
use rfidsystem.Prelude.{
  ◌==◌, ◌≡◌, refl, sym, ap, ◌∙◌, Bool, false, Option, List, [], ◌∷◌, ◌++◌, map, All, append_assoc,
  append_nil,
}
use rfidsystem.Prelude.Int.{ℤ}
use rfidsystem.Rfid.Reader.{Chars, Received, got, ReaderType, take_lines, parse_lines, read_loop}
use rfidsystem.Rfid.Reader.Lines.{
  take_lines-append, IsPartial, take_lines-IsPartial, until_nul_same, readings, both,
  parse_lines-shown, readings-append, heard, with_rest, after_events-heard,
}

-- The bytes of chunks that came one after the other.
unfoldable pub joined : List (ℤ × Chars) → Chars
joined [] = []
joined ((now, bs) ∷ chunks) = bs ++ joined chunks

abbrev pub gots : List (ℤ × Chars) → List Received
gots chunks = map (λ c. got c.0 c.1) chunks

abbrev pub HasNoNul : Chars → Type 0
HasNoNul bs = All (λ b. (b == 0) ≡ false) bs

append-HasNoNul : (xs ys : Chars) → HasNoNul xs → HasNoNul ys → HasNoNul (xs ++ ys)
append-HasNoNul [] ys h k = k
append-HasNoNul (x ∷ xs) ys h k = (h.0, append-HasNoNul xs ys h.1 k)

joined-HasNoNul :
    (chunks : List (ℤ × Chars)) → All (λ c. HasNoNul c.1) chunks → HasNoNul (joined chunks)
unfolding joined
joined-HasNoNul [] h = tt
joined-HasNoNul ((now, bs) ∷ chunks) h =
    append-HasNoNul bs (joined chunks) h.0 (joined-HasNoNul chunks h.1)

module _ (stoi : Chars → Option ℤ) (threshold : ℤ) where
  -- What all lines of a text give.
  abbrev pub heard_of : Chars → Option (List (Chars × ℤ) × Chars × Bool)
  heard_of text = with_rest (readings stoi threshold (take_lines text).0) (take_lines text).1

  pub read_loop-joined :
      (type : ReaderType) (reader_id buffer : Chars) (chunks : List (ℤ × Chars))
      → IsPartial buffer
      → All (λ c. HasNoNul c.1) chunks
      → heard stoi threshold (read_loop stoi threshold type reader_id buffer (gots chunks))
        ≡ heard_of (buffer ++ joined chunks)
  unfolding read_loop joined heard with_rest readings
  read_loop-joined type reader_id buffer [] p h = rw (append_nil buffer, p) refl
  read_loop-joined type reader_id buffer ((now, bs) ∷ chunks) p h =
      let taken = take_lines (buffer ++ bs) in
      let later =
        read_loop-joined type reader_id taken.1 chunks (take_lines-IsPartial (buffer ++ bs)) h.1 in
      let rest = take_lines (taken.1 ++ joined chunks) in
      let now_heard =
        after_events-heard stoi threshold (parse_lines stoi threshold reader_id now taken.0)
          (read_loop stoi threshold type reader_id taken.1 (gots chunks))
          (readings stoi threshold rest.0) rest.1 later in
      let split = sym (append_assoc buffer bs (joined chunks)) in
      let heard_now = parse_lines-shown stoi threshold reader_id now taken.0 in
      rw (until_nul_same bs h.0) (
        now_heard
        ∙ (ap (λ r. with_rest (both r (readings stoi threshold rest.0)) rest.1) heard_now
            ∙ (ap (λ r. with_rest r rest.1) (sym (readings-append stoi threshold taken.0 rest.0))
                ∙ ap (λ t. with_rest (readings stoi threshold t.0) t.1)
                    (sym
                      (ap take_lines split ∙ take_lines-append (buffer ++ bs) (joined chunks))))))

  -- Both loops give the same readings in the same order, and leave the same in the buffer, however the
  -- bytes of a connection without NULs are cut into the chunks that are read, and whenever they come.
  pub chunks_agree :
      (type : ReaderType) (reader_id : Chars) (now : ℤ) (chunks : List (ℤ × Chars))
      → All (λ c. HasNoNul c.1) chunks
      → heard stoi threshold (read_loop stoi threshold type reader_id [] (gots chunks))
        ≡ heard stoi threshold
            (read_loop stoi threshold type reader_id [] (got now (joined chunks) ∷ []))
  unfolding take_lines joined
  chunks_agree type reader_id now chunks h =
      read_loop-joined type reader_id [] chunks refl h
      ∙ (ap heard_of (sym (append_nil (joined chunks)))
          ∙ sym (
              read_loop-joined type reader_id [] ((now, joined chunks) ∷ []) refl
                (joined-HasNoNul chunks h, tt)))
