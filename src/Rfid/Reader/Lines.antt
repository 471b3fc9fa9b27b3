-- ===== src/Rfid/Reader/Lines.antt =====
-- The lines that the loops of server/rfid/reader.cpp take from the buffer do not depend on how the bytes
-- came.
use rfidsystem.Prelude.{
  from_some, ℕ, ◌==◌, ◌≡◌, refl, sym, ap, ◌∙◌, inl, inr, Bool, false, Option, none, some, List, [],
  ◌∷◌, ◌++◌, map, arith, All, Bool-cases, from_some,
}
use rfidsystem.Prelude.Int.{ℤ}
use rfidsystem.Rfid.Reader.{
  Chars, EpcEvent, until_nul, put_first, take_lines, Parsed, ignored, threw, scanned, parse_line,
  event_of, add_event, parse_lines, Outcome, after_events,
}

-- The lines of what is left after some lines, with more bytes.
abbrev pub resume : List Chars × Chars → Chars → List Chars × Chars
resume (ls, rest) more = (ls ++ (take_lines (rest ++ more)).0, (take_lines (rest ++ more)).1)

put_first-resume :
    (c : ℕ) (p : List Chars × Chars) (more : Chars)
    → (c == 10) ≡ false
    → put_first c (resume p more) ≡ resume (put_first c p) more
unfolding put_first take_lines
put_first-resume c ([], rest) more h = rw h refl
put_first-resume c (l ∷ ls, rest) more h = refl

pub take_lines-append : (xs ys : Chars) → take_lines (xs ++ ys) ≡ resume (take_lines xs) ys
unfolding take_lines
take_lines-append [] ys = refl
take_lines-append (c ∷ cs) ys = elim (Bool-cases (c == 10)) [
  | inl e ↦ rw (e, take_lines-append cs ys) refl
  | inr e ↦ rw (e, take_lines-append cs ys) (put_first-resume c (take_lines cs) ys e)
]

-- What is left has no line.
abbrev pub IsPartial : Chars → Type 0
IsPartial rest = take_lines rest ≡ ([], rest)

put_first-IsPartial :
    (c : ℕ) (p : List Chars × Chars)
    → (c == 10) ≡ false
    → IsPartial p.1
    → IsPartial (put_first c p).1
unfolding put_first take_lines
put_first-IsPartial c ([], rest) h k = rw (h, k) refl
put_first-IsPartial c (l ∷ ls, rest) h k = k

pub take_lines-IsPartial : (xs : Chars) → IsPartial (take_lines xs).1
unfolding take_lines
take_lines-IsPartial [] = refl
take_lines-IsPartial (c ∷ cs) = elim (Bool-cases (c == 10)) [
  | inl e ↦ rw e (take_lines-IsPartial cs)
  | inr e ↦ rw e (put_first-IsPartial c (take_lines cs) e (take_lines-IsPartial cs))
]

pub until_nul_same : (bs : Chars) → All (λ b. (b == 0) ≡ false) bs → until_nul bs ≡ bs
unfolding until_nul
until_nul_same [] h = refl
until_nul_same (b ∷ bs) h = rw (h.0, until_nul_same bs h.1) refl

-- What an event shows of its line.
abbrev pub shown : EpcEvent → Chars × ℤ
shown e = (e.epc, e.rssi)

unfoldable pub add_reading : Parsed → Option (List (Chars × ℤ)) → Option (List (Chars × ℤ))
add_reading ignored later = later
add_reading threw later = none
add_reading (scanned epc rssi) none = none
add_reading (scanned epc rssi) (some rs) = some ((epc, rssi) ∷ rs)

-- Readings, then readings.
unfoldable pub both :
    Option (List (Chars × ℤ)) → Option (List (Chars × ℤ)) → Option (List (Chars × ℤ))
both none later = none
both (some rs) none = none
both (some rs) (some qs) = some (rs ++ qs)

unfoldable pub shown_all : Option (List EpcEvent) → Option (List (Chars × ℤ))
shown_all none = none
shown_all (some es) = some (map shown es)

add_reading-both :
    (p : Parsed) (a b : Option (List (Chars × ℤ)))
    → add_reading p (both a b) ≡ both (add_reading p a) b
unfolding add_reading both
add_reading-both ignored a b = refl
add_reading-both threw a b = refl
add_reading-both (scanned epc rssi) none b = refl
add_reading-both (scanned epc rssi) (some rs) none = refl
add_reading-both (scanned epc rssi) (some rs) (some qs) = refl

pub both_nothing : (b : Option (List (Chars × ℤ))) → both (some []) b ≡ b
unfolding both
both_nothing none = refl
both_nothing (some qs) = refl

unfoldable pub with_rest :
    Option (List (Chars × ℤ)) → Chars → Option (List (Chars × ℤ) × Chars × Bool)
with_rest none rest = none
with_rest (some rs) rest = some (rs, rest, false)

map-append : (es fs : List EpcEvent) → map shown (es ++ fs) ≡ map shown es ++ map shown fs
map-append [] fs = refl
map-append (e ∷ es) fs = ap (λ rs. shown e ∷ rs) (map-append es fs)

module _ (stoi : Chars → Option ℤ) (threshold : ℤ) where
  -- The readings of lines; `none` when the program ended.
  unfoldable pub readings : List Chars → Option (List (Chars × ℤ))
  readings [] = some []
  readings (l ∷ ls) = add_reading (parse_line stoi threshold l) (readings ls)

  add_event-shown :
      (reader_id : Chars) (now : ℤ) (p : Parsed) (later : Option (List EpcEvent))
      → shown_all (add_event stoi threshold reader_id now p later) ≡ add_reading p (shown_all later)
  unfolding shown_all add_event add_reading event_of
  add_event-shown reader_id now ignored later = refl
  add_event-shown reader_id now threw later = refl
  add_event-shown reader_id now (scanned epc rssi) none = refl
  add_event-shown reader_id now (scanned epc rssi) (some es) = refl

  pub parse_lines-shown :
      (reader_id : Chars) (now : ℤ) (ls : List Chars)
      → shown_all (parse_lines stoi threshold reader_id now ls) ≡ readings ls
  unfolding parse_lines readings shown_all
  parse_lines-shown reader_id now [] = refl
  parse_lines-shown reader_id now (l ∷ ls) =
      add_event-shown reader_id now (parse_line stoi threshold l)
        (parse_lines stoi threshold reader_id now ls)
      ∙ ap (add_reading (parse_line stoi threshold l)) (parse_lines-shown reader_id now ls)

  pub readings-append :
      (ls ms : List Chars) → readings (ls ++ ms) ≡ both (readings ls) (readings ms)
  unfolding readings
  readings-append [] ms = sym (both_nothing (readings ms))
  readings-append (l ∷ ls) ms =
      ap (add_reading (parse_line stoi threshold l)) (readings-append ls ms)
      ∙ add_reading-both (parse_line stoi threshold l) (readings ls) (readings ms)

  -- What a loop was heard to give: the readings, what is left, and whether the connection was lost.
  unfoldable pub heard : Option (Outcome stoi threshold) → Option (List (Chars × ℤ) × Chars × Bool)
  heard none = none
  heard (some o) = some (map shown o.events, o.buffer, o.lost)

  pub after_events-heard :
      (es : Option (List EpcEvent)) (later : Option (Outcome stoi threshold))
      (rs : Option (List (Chars × ℤ))) (rest : Chars)
      → heard later ≡ with_rest rs rest
      → heard (after_events stoi threshold es later) ≡ with_rest (both (shown_all es) rs) rest
  unfolding heard with_rest both shown_all after_events
  after_events-heard none later rs rest h = refl
  after_events-heard (some es) none none rest h = refl
  after_events-heard (some es) none (some rs) rest h = ground (arith, h)
  after_events-heard (some es) (some o) none rest h = ground (arith, h)
  after_events-heard (some es) (some o) (some rs) rest h =
      let inner = ap (from_some (rs, rest, false)) h in
      rw (map-append es o.events) (ap (λ t. some (map shown es ++ t.0, t.1, t.2)) inner)
