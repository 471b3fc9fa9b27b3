-- ===== src/Core/IdempotencyManager/Keys.antt =====
-- The keys of server/core/idempotency_manager.cpp tell their task and their tag.
use rfidsystem.Prelude.{
  ◌==◌, ◌≡◌, refl, sym, ap, subst, ◌∙◌, inl, inr, true, false, ◌&&◌, [], ◌∷◌, ◌++◌, arith, any,
  Bool-cases,
}
use rfidsystem.Prelude.Int.{ℤ, eq_ℤ, eq_ℤ-iff}
use rfidsystem.Core.IdempotencyManager.{Chars, colon, chars_eq, starts_with, generate_key}

-- What is used of the printing of an `int`: no colon, and different numbers are printed differently.
pub record IsPrinting (digits : ℤ → Chars) : Type 0 where
  pub no_colon : (t : ℤ) → any (λ c. c == colon) (digits t) ≡ false
  pub one_number : (t u : ℤ) → digits t ≡ digits u → t ≡ u

pub chars_eq-same : (cs : Chars) → chars_eq cs cs ≡ true
unfolding chars_eq
chars_eq-same [] = refl
chars_eq-same (c ∷ cs) = ground (arith, chars_eq-same cs)

pub chars_eq-path : (cs ds : Chars) → chars_eq cs ds ≡ true → cs ≡ ds
unfolding chars_eq
chars_eq-path [] [] h = refl
chars_eq-path [] (d ∷ ds) h = cc
chars_eq-path (c ∷ cs) [] h = cc
chars_eq-path (c ∷ cs) (d ∷ ds) h = ground (arith, chars_eq-path cs ds)

chars_eq-true : (cs ds : Chars) → cs ≡ ds → chars_eq cs ds ≡ true
chars_eq-true cs ds e = subst (λ x. chars_eq cs x ≡ true) e (chars_eq-same cs)

-- Two strings that are cut at their first colon.
chars_eq-cut :
    (cs ds e f : Chars)
    → any (λ c. c == colon) cs ≡ false
    → any (λ c. c == colon) ds ≡ false
    → chars_eq (cs ++ (colon ∷ e)) (ds ++ (colon ∷ f)) ≡ (chars_eq cs ds && chars_eq e f)
unfolding chars_eq
chars_eq-cut [] [] e f h k = ground arith
chars_eq-cut [] (d ∷ ds) e f h k = ground arith
chars_eq-cut (c ∷ cs) [] e f h k = ground arith
chars_eq-cut (c ∷ cs) (d ∷ ds) e f h k = ground (arith, chars_eq-cut cs ds e f)

starts_with-cut :
    (ps cs f : Chars)
    → any (λ c. c == colon) ps ≡ false
    → any (λ c. c == colon) cs ≡ false
    → starts_with (ps ++ (colon ∷ [])) (cs ++ (colon ∷ f)) ≡ chars_eq ps cs
unfolding starts_with chars_eq
starts_with-cut [] [] f h k = ground arith
starts_with-cut [] (c ∷ cs) f h k = ground arith
starts_with-cut (p ∷ ps) [] f h k = ground arith
starts_with-cut (p ∷ ps) (c ∷ cs) f h k = ground (arith, starts_with-cut ps cs f)

module _ (digits : ℤ → Chars) (d : IsPrinting digits) where
  digits_eq : (t u : ℤ) → chars_eq (digits t) (digits u) ≡ eq_ℤ t u
  digits_eq t u = elim (Bool-cases (chars_eq (digits t) (digits u))) [
    | inl same ↦
        let e = d.one_number t u (chars_eq-path (digits t) (digits u) same) in
        same ∙ sym ((eq_ℤ-iff t u).1 e)
    | inr other ↦ elim (Bool-cases (eq_ℤ t u)) [
      | inl e ↦ chars_eq-true (digits t) (digits u) (ap digits ((eq_ℤ-iff t u).0 e)) ∙ sym e
      | inr e ↦ other ∙ sym e
    ]
  ]

  -- Keys are equal exactly for one task and one tag.
  pub key_eq :
      (t u : ℤ) (e f : Chars)
      → chars_eq (generate_key digits t e) (generate_key digits u f) ≡ (eq_ℤ t u && chars_eq e f)
  unfolding generate_key
  key_eq t u e f =
      rw (chars_eq-cut (digits t) (digits u) e f (d.no_colon t) (d.no_colon u), digits_eq t u) refl

  -- A task's prefix starts exactly the task's keys.
  pub prefix_eq :
      (t u : ℤ) (f : Chars)
      → starts_with (digits t ++ (colon ∷ [])) (generate_key digits u f) ≡ eq_ℤ t u
  unfolding generate_key
  prefix_eq t u f =
      rw (starts_with-cut (digits t) (digits u) f (d.no_colon t) (d.no_colon u), digits_eq t u) refl
