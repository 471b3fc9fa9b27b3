-- ===== src/Rfid/Reader/Examples.antt =====
-- The loops of the readers at concrete bytes.
use rfidsystem.Prelude.{
  ℕ, zero, suc, ◌+◌, ◌-◌, ◌*◌, ◌==◌, leb, ◌≡◌, refl, false, ◌&&◌, Option, none, some, List, [], ◌∷◌,
  arith, any, if◌then◌else◌,
}
use rfidsystem.Prelude.Int.{ℤ, pos, negsuc}
use rfidsystem.Rfid.Reader.{
  Chars, got, serial, tcp, until_nul, put_first, take_lines, is_line_end, trim, begin_token,
  rest_tokens, tokens, chars_eq, scan, parse_tokens, parse_line, add_event, parse_lines,
  after_events, read_loop,
}
use rfidsystem.Rfid.Reader.Lines.{heard}
use rfidsystem.Rfid.Reader.Chunks.{joined, gots, HasNoNul, chunks_agree}
use rfidsystem.Rfid.Reader.Readings.{Reading, text, strong, sent_is_heard}

-- The value of decimal digits after those of `n`.
unfoldable decimal : ℕ → Chars → Option ℕ
decimal n [] = some n
decimal n (c ∷ cs) =
    let rest = decimal (n * 10 + (c - 48)) cs in if leb 48 c && leb c 57 then rest else none

abbrev below_zero : Option ℕ → Option ℤ
below_zero none = none
below_zero (some zero) = some (pos 0)
below_zero (some (suc n)) = some (negsuc n)

-- `std::stoi` of a minus and decimal digits.
unfoldable stoi : Chars → Option ℤ
stoi [] = none
stoi (c ∷ cs) = if c == 45 then below_zero (decimal 0 cs) else none

-- "EPC,E2,-40" and "EPC,7F,-80"
abbrev two : List Reading
two =
    record { epc = 69 ∷ 50 ∷ []; first_digit = 45; digits = 52 ∷ 48 ∷ []; rssi = negsuc 39 }
    ∷ record { epc = 55 ∷ 70 ∷ []; first_digit = 45; digits = 56 ∷ 48 ∷ []; rssi = negsuc 79 }
    ∷ []

abbrev first_chunk : Chars
first_chunk = 69 ∷ 80 ∷ 67 ∷ 44 ∷ 69 ∷ 50 ∷ 44 ∷ 45 ∷ 52 ∷ []

abbrev second_chunk : Chars
second_chunk = 48 ∷ 13 ∷ 10 ∷ 69 ∷ 80 ∷ 67 ∷ 44 ∷ 55 ∷ 70 ∷ 44 ∷ 45 ∷ 56 ∷ 48 ∷ 13 ∷ []

-- Their bytes, cut in the middle of the first strength and before the last newline.
abbrev cut : List (ℤ × Chars)
cut = (pos 5, first_chunk) ∷ (pos 6, second_chunk) ∷ (pos 7, 10 ∷ []) ∷ []

no_nul : (bs : Chars) → any (λ b. b == 0) bs ≡ false → HasNoNul bs
no_nul [] h = tt
no_nul (b ∷ bs) h = (ground (arith, h), no_nul bs (ground (arith, h)))

sent_is_heard_example :
    heard stoi (negsuc 69) (read_loop stoi (negsuc 69) tcp (65 ∷ []) [] (gots cut))
    ≡ some (strong stoi (negsuc 69) two, [], false)
unfolding stoi decimal joined text is_line_end
sent_is_heard_example =
    sent_is_heard stoi (negsuc 69) tcp (65 ∷ []) two cut
      (
        record {
          plain_epc = (refl, (refl, tt));
          plain_digits = (refl, (refl, (refl, tt)));
          read_digits = refl;
        },
        (
          record {
            plain_epc = (refl, (refl, tt));
            plain_digits = (refl, (refl, (refl, tt)));
            read_digits = refl;
          },
          tt,
        ),
      )
      (no_nul first_chunk refl, (no_nul second_chunk refl, (no_nul (10 ∷ []) refl, tt))) refl

chunks_agree_example :
    heard stoi (negsuc 69) (
      read_loop stoi
        (negsuc 69)
        serial
        (65 ∷ [])
        []
        (gots ((pos 5, 69 ∷ []) ∷ (pos 6, 80 ∷ 10 ∷ 69 ∷ []) ∷ [])))
    ≡ heard stoi
        (negsuc 69)
        (read_loop stoi (negsuc 69) serial (65 ∷ []) [] (got (pos 9) (69 ∷ 80 ∷ 10 ∷ 69 ∷ []) ∷ []))
unfolding joined
chunks_agree_example =
    chunks_agree stoi (negsuc 69) serial (65 ∷ []) (pos 9)
      ((pos 5, 69 ∷ []) ∷ (pos 6, 80 ∷ 10 ∷ 69 ∷ []) ∷ [])
      ((refl, tt), ((refl, (refl, (refl, tt))), tt))

-- What a read gives after a NUL is lost.
until_nul-loses : until_nul (69 ∷ 0 ∷ 80 ∷ 67 ∷ 10 ∷ []) ≡ 69 ∷ []
unfolding until_nul
until_nul-loses = refl

-- A line with a strength that is no number, "EPC,E2,x", ends the program.
read_loop-ends :
    read_loop stoi
      (negsuc 69)
      tcp
      []
      []
      (got (pos 1) (69 ∷ 80 ∷ 67 ∷ 44 ∷ 69 ∷ 50 ∷ 44 ∷ 120 ∷ 10 ∷ []) ∷ [])
    ≡ none
unfolding read_loop after_events parse_lines add_event parse_line parse_tokens scan tokens
    begin_token rest_tokens trim is_line_end take_lines put_first until_nul chars_eq stoi
read_loop-ends = refl
