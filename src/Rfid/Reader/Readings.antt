-- ===== src/Rfid/Reader/Readings.antt =====
-- What a reader sends line by line is what server/rfid/reader.cpp hears.
use rfidsystem.Prelude.{
  ℕ, ◌==◌, ◌≡◌, refl, ap, ◌∙◌, inl, inr, false, Option, some, List, [], ◌∷◌, ◌++◌, map, arith, keep,
  All, Bool-cases,
}
use rfidsystem.Prelude.Int.{ℤ, leb_ℤ}
use rfidsystem.Rfid.Reader.{Chars, ReaderType, put_first, take_lines, is_line_end, scan, read_loop}
use rfidsystem.Rfid.Reader.Lines.{add_reading, readings, heard, with_rest}
use rfidsystem.Rfid.Reader.Chunks.{joined, gots, HasNoNul, heard_of, read_loop-joined}
use rfidsystem.Rfid.Reader.Tokens.{IsPlain, body, body-visible, parse_line-body}

-- A tag that was read: its code, the digits of its strength, and the strength.
pub record Reading : Type 0 where
  pub epc : Chars
  pub first_digit : ℕ
  pub digits : Chars
  pub rssi : ℤ

-- "EPC,<epc>,<strength>" with a return and a newline.
abbrev pub line : Reading → Chars
line r = body r.epc (r.first_digit ∷ r.digits) ++ (13 ∷ [])

unfoldable pub text : List Reading → Chars
text [] = []
text (r ∷ rs) = line r ++ (10 ∷ text rs)

-- A line without a newline in it, and what follows.
take_line :
    (xs rest : Chars)
    → All (λ c. (c == 10) ≡ false) xs
    → take_lines (xs ++ (10 ∷ rest)) ≡ (xs ∷ (take_lines rest).0, (take_lines rest).1)
unfolding take_lines put_first
take_line [] rest h = refl
take_line (x ∷ xs) rest h = rw (h.0, take_line xs rest h.1) refl

no_newline :
    (xs ys : Chars)
    → All (λ c. is_line_end c ≡ false) xs
    → All (λ c. (c == 10) ≡ false) ys
    → All (λ c. (c == 10) ≡ false) (xs ++ ys)
unfolding is_line_end
no_newline [] ys h k = k
no_newline (x ∷ xs) ys h k = (ground (arith, h.0), no_newline xs ys h.1 k)

module _ (stoi : Chars → Option ℤ) (threshold : ℤ) where
  -- No separator in the code and the digits, and `std::stoi` reads the digits as the strength.
  pub record IsClear (r : Reading) : Type 0 where
    pub plain_epc : All IsPlain r.epc
    pub plain_digits : All IsPlain (r.first_digit ∷ r.digits)
    pub read_digits : stoi (r.first_digit ∷ r.digits) ≡ some r.rssi

  -- What is strong enough.
  abbrev pub strong : List Reading → List (Chars × ℤ)
  strong rs = map (λ (r : Reading). (r.epc, r.rssi)) (keep (λ r. leb_ℤ threshold r.rssi) rs)

  text-lines : (rs : List Reading) → All IsClear rs → take_lines (text rs) ≡ (map line rs, [])
  unfolding take_lines text
  text-lines [] h = refl
  text-lines (r ∷ rs) h =
      take_line (line r) (text rs) (
        no_newline (body r.epc (r.first_digit ∷ r.digits)) (13 ∷ [])
          (body-visible r.epc (r.first_digit ∷ r.digits) h.0.plain_epc h.0.plain_digits) (refl, tt))
      ∙ ap (λ t. (line r ∷ t.0, t.1)) (text-lines rs h.1)

  lines-readings :
      (rs : List Reading)
      → All IsClear rs
      → readings stoi threshold (map line rs) ≡ some (strong rs)
  unfolding readings add_reading scan
  lines-readings [] h = refl
  lines-readings (r ∷ rs) h =
      let parsed =
        parse_line-body stoi threshold r.epc r.first_digit r.digits h.0.plain_epc
          h.0.plain_digits in
      elim (Bool-cases (leb_ℤ threshold r.rssi)) [
        | inl e ↦ rw (parsed, h.0.read_digits, scan, e, lines-readings rs h.1) refl
        | inr e ↦ rw (parsed, h.0.read_digits, scan, e, lines-readings rs h.1) refl
      ]

  -- When a reader sends a line for each tag, with any strengths, however the bytes are cut into chunks
  -- the loop ends with an event for each tag that is strong enough, in order, and with nothing left in the
  -- buffer. That `std::stoi` reads the digits is assumed.
  pub sent_is_heard :
      (type : ReaderType) (reader_id : Chars) (rs : List Reading) (chunks : List (ℤ × Chars))
      → All IsClear rs
      → All (λ c. HasNoNul c.1) chunks
      → joined chunks ≡ text rs
      → heard stoi threshold (read_loop stoi threshold type reader_id [] (gots chunks))
        ≡ some (strong rs, [], false)
  unfolding take_lines with_rest
  sent_is_heard type reader_id rs chunks h k sent =
      read_loop-joined stoi threshold type reader_id [] chunks refl k
      ∙ (ap (heard_of stoi threshold) (sent)
          ∙ (ap (λ t. with_rest (readings stoi threshold t.0) t.1) (text-lines rs h)
              ∙ ap (λ r. with_rest r []) (lines-readings rs h)))
