-- ===== src/Core/EpcValidator/Normal.antt =====
-- The normal form of a code in server/core/epc_validator.cpp.
use rfidsystem.Prelude.{
  ℕ, ◌==◌, leb, ◌≡◌, refl, sym, ap, ◌∙◌, inl, inr, Bool, true, false, not, ◌&&◌, ◌||◌, [], ◌∷◌,
  arith, length, All, if◌then◌else◌, Bool-cases,
}
use rfidsystem.Core.EpcValidator.{
  Chars, is_separator, to_upper, is_hex_digit, normalize_epc, is_hex, has_valid_length,
  is_valid_epc,
}

to_upper_twice : (c : ℕ) → to_upper (to_upper c) ≡ to_upper c
unfolding to_upper
to_upper_twice c = ground arith

to_upper_separates : (c : ℕ) → is_separator c ≡ false → is_separator (to_upper c) ≡ false
unfolding to_upper is_separator
to_upper_separates c h = ground (arith, h)

pub normalize_epc_twice : (e : Chars) → normalize_epc (normalize_epc e) ≡ normalize_epc e
unfolding normalize_epc
normalize_epc_twice [] = refl
normalize_epc_twice (c ∷ cs) = elim (Bool-cases (is_separator c)) [
  | inl s ↦ rw s (normalize_epc_twice cs)
  | inr s ↦
      rw (s, to_upper_separates c s, to_upper_twice c)
        (ap (λ r. to_upper c ∷ r) (normalize_epc_twice cs))
]

-- A character of a code in normal form: a digit, or a letter from A to F.
abbrev pub IsUpperHex : ℕ → Type 0
IsUpperHex c = ((leb 48 c && leb c 57) || (leb 65 c && leb c 70)) ≡ true

pub record IsNormal (e : Chars) : Type 0 where
  pub digits : All IsUpperHex e
  pub long : has_valid_length e ≡ true

upper_digit : (c : ℕ) → is_hex_digit (to_upper c) ≡ true → IsUpperHex (to_upper c)
unfolding to_upper is_hex_digit
upper_digit c h = ground (arith, h)

and_true : (a b : Bool) → (a && b) ≡ true → (a ≡ true) × (b ≡ true)
and_true true b h = (refl, h)
and_true false b h = ground (arith, h)

upper_digits : (e : Chars) → is_hex (normalize_epc e) ≡ true → All IsUpperHex (normalize_epc e)
unfolding normalize_epc is_hex
upper_digits [] h = tt
upper_digits (c ∷ cs) h = elim (Bool-cases (is_separator c)) [
  | inl s ↦ rw s (upper_digits cs (rw (normalize_epc, s) at h))
  | inr s ↦
      let k = rw (normalize_epc, s) at h in
      let both = and_true (is_hex_digit (to_upper c)) (is_hex (normalize_epc cs)) k in
      rw s (upper_digit c both.0, upper_digits cs both.1)
]

-- The tests of a code in normal form.
abbrev fits : Chars → Bool
fits n = if not (has_valid_length n) then false else is_hex n

is_valid_epc-fits : (e : Chars) → is_valid_epc e ≡ fits (normalize_epc e)
unfolding is_valid_epc has_valid_length normalize_epc
is_valid_epc-fits [] = refl
is_valid_epc-fits (c ∷ cs) =
    let some_left : (length (c ∷ cs) == 0) ≡ false = ground arith in rw some_left refl

pub is_valid_epc-normalize_epc : (e : Chars) → is_valid_epc (normalize_epc e) ≡ is_valid_epc e
is_valid_epc-normalize_epc e =
    is_valid_epc-fits (normalize_epc e)
    ∙ (ap fits (normalize_epc_twice e) ∙ sym (is_valid_epc-fits e))

pub valid-IsNormal : (e : Chars) → is_valid_epc e ≡ true → IsNormal (normalize_epc e)
valid-IsNormal e h =
    let f = sym (is_valid_epc-fits e) ∙ h in
    elim (Bool-cases (has_valid_length (normalize_epc e))) [
      | inl l ↦ record { digits = upper_digits e (rw l at f); long = l }
      | inr l ↦ ground (arith, rw l at f)
    ]
