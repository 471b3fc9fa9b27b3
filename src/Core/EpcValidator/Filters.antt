-- ===== src/Core/EpcValidator/Filters.antt =====
-- The filters of server/core/epc_validator.cpp.
use rfidsystem.Prelude.{
  ◌+◌, ◌≡◌, refl, ap, ◌∙◌, inl, inr, Bool, true, false, not, none, some, List, [], ◌∷◌, map, arith,
  length, keep, All, length-map, Bool-cases,
}
use rfidsystem.Core.EpcValidator.{
  Chars, normalize_epc, is_valid_epc, validate_and_normalize, filter_valid_epcs,
  filter_invalid_epcs,
}
use rfidsystem.Core.EpcValidator.Normal.{
  normalize_epc_twice, IsNormal, is_valid_epc-normalize_epc, valid-IsNormal,
}

accepts : (e : Chars) → is_valid_epc e ≡ true → validate_and_normalize e ≡ some (normalize_epc e)
unfolding validate_and_normalize
accepts e h = rw (is_valid_epc-normalize_epc e, h) refl

refuses : (e : Chars) → is_valid_epc e ≡ false → validate_and_normalize e ≡ none
unfolding validate_and_normalize
refuses e h = rw (is_valid_epc-normalize_epc e, h) refl

valid_kept : (es : List Chars) → filter_valid_epcs es ≡ map normalize_epc (keep is_valid_epc es)
unfolding filter_valid_epcs
valid_kept [] = refl
valid_kept (e ∷ es) = elim (Bool-cases (is_valid_epc e)) [
  | inl h ↦ rw (filter_valid_epcs, accepts e h, h) (ap (λ r. normalize_epc e ∷ r) (valid_kept es))
  | inr h ↦ rw (filter_valid_epcs, refuses e h, h) (valid_kept es)
]

invalid_kept : (es : List Chars) → filter_invalid_epcs es ≡ keep (λ e. not (is_valid_epc e)) es
unfolding filter_invalid_epcs
invalid_kept [] = refl
invalid_kept (e ∷ es) = rw (is_valid_epc-normalize_epc e) (elim (Bool-cases (is_valid_epc e)) [
  | inl h ↦ rw h (invalid_kept es)
  | inr h ↦ rw h (ap (λ r. e ∷ r) (invalid_kept es))
])

keep-split :
    (q : Chars → Bool) (es : List Chars)
    → length (keep q es) + length (keep (λ e. not (q e)) es) ≡ length es
keep-split q [] = refl
keep-split q (e ∷ es) = elim (Bool-cases (q e)) [
  | inl h ↦ rw h (omega (arith, keep-split q es))
  | inr h ↦ rw h (omega (arith, keep-split q es))
]

-- The two filters part any list of codes: the one returns the normal forms of the valid codes and the
-- other the rest as they were, both in order, and no code is lost.
pub filters_part :
    (es : List Chars)
    → (filter_valid_epcs es ≡ map normalize_epc (keep is_valid_epc es))
      × (filter_invalid_epcs es ≡ keep (λ e. not (is_valid_epc e)) es)
      × (length (filter_valid_epcs es) + length (filter_invalid_epcs es) ≡ length es)
filters_part es = (
  valid_kept es,
  invalid_kept es,
  omega (
    arith,
    ap length (valid_kept es),
    ap length (invalid_kept es),
    length-map normalize_epc (keep is_valid_epc es),
    keep-split is_valid_epc es,
  ),
)

accepted-IsNormal :
    (e : Chars)
    → is_valid_epc e ≡ true
    → IsNormal (normalize_epc e)
      × (validate_and_normalize (normalize_epc e) ≡ some (normalize_epc e))
accepted-IsNormal e h = (
  valid-IsNormal e h,
  accepts (normalize_epc e) (is_valid_epc-normalize_epc e ∙ h) ∙ ap some (normalize_epc_twice e),
)

-- Every code that the filter returns has 8, 12, 16 or 24 characters, digits or letters from A to F, and is
-- accepted again as it is.
pub filter_valid-IsNormal :
    (es : List Chars)
    → All (λ e. IsNormal e × (validate_and_normalize e ≡ some e)) (filter_valid_epcs es)
unfolding filter_valid_epcs
filter_valid-IsNormal [] = tt
filter_valid-IsNormal (e ∷ es) = elim (Bool-cases (is_valid_epc e)) [
  | inl h ↦ rw (filter_valid_epcs, accepts e h) (accepted-IsNormal e h, filter_valid-IsNormal es)
  | inr h ↦ rw (filter_valid_epcs, refuses e h) (filter_valid-IsNormal es)
]
