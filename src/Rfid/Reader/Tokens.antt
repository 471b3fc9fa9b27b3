-- ===== src/Rfid/Reader/Tokens.antt =====
-- How server/rfid/reader.cpp takes a line apart.
use rfidsystem.Prelude.{
  ℕ, ◌==◌, ◌≡◌, refl, ap, subst, ◌∙◌, false, ◌||◌, Option, List, [], ◌∷◌, ◌++◌, arith, All,
  append_nil,
}
use rfidsystem.Prelude.Int.{ℤ}
use rfidsystem.Rfid.Reader.{
  Chars, is_line_end, trim, begin_token, rest_tokens, tokens, chars_eq, scan, parse_tokens,
  parse_line,
}

-- Neither a comma, nor a return or newline, nor a NUL.
abbrev pub IsPlain : ℕ → Type 0
IsPlain c = (c == 44 || is_line_end c || c == 0) ≡ false

-- "EPC"
abbrev pub epc_word : Chars
epc_word = 69 ∷ 80 ∷ 67 ∷ []

-- "EPC,<epc>,<strength>"
abbrev pub body : Chars → Chars → Chars
body epc strength = epc_word ++ (44 ∷ (epc ++ (44 ∷ strength)))

rest_tokens-comma :
    (xs ys : Chars)
    → All IsPlain xs
    → rest_tokens (xs ++ (44 ∷ ys)) ≡ (xs, begin_token ys (rest_tokens ys))
unfolding rest_tokens
rest_tokens-comma [] ys h = refl
rest_tokens-comma (x ∷ xs) ys h =
    let plain : (x == 44) ≡ false = ground (arith, h.0) in
    rw (plain, rest_tokens-comma xs ys h.1) refl

rest_tokens-end : (xs : Chars) → All IsPlain xs → rest_tokens xs ≡ (xs, [])
unfolding rest_tokens
rest_tokens-end [] h = refl
rest_tokens-end (x ∷ xs) h =
    let plain : (x == 44) ≡ false = ground (arith, h.0) in rw (plain, rest_tokens-end xs h.1) refl

begin_token-some :
    (xs : Chars) (y : ℕ) (ys : Chars) (more : Chars × List Chars)
    → begin_token (xs ++ (y ∷ ys)) more ≡ more.0 ∷ more.1
unfolding begin_token
begin_token-some [] y ys more = refl
begin_token-some (x ∷ xs) y ys more = refl

pub tokens-body :
    (epc : Chars) (d : ℕ) (ds : Chars)
    → All IsPlain epc
    → All IsPlain (d ∷ ds)
    → tokens (body epc (d ∷ ds)) ≡ epc_word ∷ epc ∷ (d ∷ ds) ∷ []
unfolding tokens begin_token is_line_end
tokens-body epc d ds h k =
    let t = epc ++ (44 ∷ (d ∷ ds)) in
    let second : rest_tokens t ≡ (epc, (d ∷ ds) ∷ []) =
      rest_tokens-comma epc (d ∷ ds) h
      ∙ ap (λ r. (epc, begin_token (d ∷ ds) r)) (rest_tokens-end (d ∷ ds) k) in
    let after : begin_token t (rest_tokens t) ≡ epc ∷ (d ∷ ds) ∷ [] =
      begin_token-some epc 44 (d ∷ ds) (rest_tokens t) ∙ ap (λ m. m.0 ∷ m.1) second in
    let first : rest_tokens (epc_word ++ (44 ∷ t)) ≡ (epc_word, epc ∷ (d ∷ ds) ∷ []) =
      rest_tokens-comma epc_word t (refl, (refl, (refl, tt))) ∙ ap (λ b. (epc_word, b)) after in
    ap (λ m. m.0 ∷ m.1) first

trim-visible : (xs : Chars) → All (λ c. is_line_end c ≡ false) xs → trim (xs ++ (13 ∷ [])) ≡ xs
unfolding trim is_line_end
trim-visible [] h = refl
trim-visible (x ∷ xs) h = rw (trim-visible xs h.1, h.0) refl

visible :
    (xs ys : Chars)
    → All IsPlain xs
    → All (λ c. is_line_end c ≡ false) ys
    → All (λ c. is_line_end c ≡ false) (xs ++ ys)
visible [] ys h k = k
visible (x ∷ xs) ys h k = (ground (arith, h.0), visible xs ys h.1 k)

pub body-visible :
    (epc strength : Chars)
    → All IsPlain epc
    → All IsPlain strength
    → All (λ c. is_line_end c ≡ false) (body epc strength)
unfolding is_line_end
body-visible epc strength h k = (
  refl,
  (
    refl,
    (
      refl,
      (
        refl,
        visible epc (44 ∷ strength) h (
          refl,
          subst (All (λ c. is_line_end c ≡ false)) (append_nil strength) (visible strength [] k tt),
        ),
      ),
    ),
  ),
)

module _ (stoi : Chars → Option ℤ) (threshold : ℤ) where
  -- The line of a tag with its strength, as a reader sends it.
  pub parse_line-body :
      (epc : Chars) (d : ℕ) (ds : Chars)
      → All IsPlain epc
      → All IsPlain (d ∷ ds)
      → parse_line stoi threshold (body epc (d ∷ ds) ++ (13 ∷ []))
        ≡ scan stoi threshold epc (stoi (d ∷ ds))
  unfolding parse_line parse_tokens chars_eq
  parse_line-body epc d ds h k =
      rw
        (trim-visible (body epc (d ∷ ds)) (body-visible epc (d ∷ ds) h k), tokens-body epc d ds h k)
        (ground arith)
