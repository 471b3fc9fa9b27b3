-- ===== src/Core/IdempotencyManager/Examples.antt =====
-- The idempotency manager at concrete calls, numbers being printed as so many ones behind their sign.
use rfidsystem.Prelude.{
  ℕ, zero, suc, ◌==◌, ◌≡◌, refl, sym, ap, ◌∙◌, ◌≢◌, true, false, List, [], ◌∷◌, arith, length, drop,
  any,
}
use rfidsystem.Prelude.Int.{ℤ, pos, negsuc}
use rfidsystem.Core.IdempotencyManager.{
  Chars, colon, chars_eq, starts_with, new_manager, contains, cleanup_expired, get_cache_size,
  generate_key, is_processed, mark_processed, remove_task,
}
use rfidsystem.Core.IdempotencyManager.Keys.{IsPrinting}
use rfidsystem.Core.IdempotencyManager.Histories.{
  Call, marks, asks, removes, remembered, step, run, processed_exact,
}

abbrev ones : ℕ → Chars
ones zero = []
ones (suc n) = 49 ∷ ones n

abbrev signed : ℤ → Chars
signed (pos n) = ones n
signed (negsuc n) = 45 ∷ ones n

length-ones : (n : ℕ) → length (ones n) ≡ n
length-ones zero = refl
length-ones (suc n) = ap suc (length-ones n)

any-ones : (d : ℕ) (n : ℕ) → d ≢ 49 → any (λ c. c == d) (ones n) ≡ false
any-ones d zero h = refl
any-ones d (suc n) h = ground (arith, any-ones d n h)

ones-inj : (n m : ℕ) → ones n ≡ ones m → n ≡ m
ones-inj n m e = sym (length-ones n) ∙ (ap length e ∙ length-ones m)

signed-IsPrinting : IsPrinting signed
signed-IsPrinting = record { no_colon = plain; one_number = same }
  where
    plain : (t : ℤ) → any (λ c. c == colon) (signed t) ≡ false
    plain (pos n) = any-ones colon n (λ e. ground arith)
    plain (negsuc n) = any-ones colon n (λ e. ground arith)

    unlike : (n m : ℕ) → ones n ≢ 45 ∷ ones m
    unlike n m e =
        let dash = any-ones 45 n (λ k. ground arith) in
        let both = sym dash ∙ ap (any (λ c. c == 45)) e in ground (arith, both)

    same : (t u : ℤ) → signed t ≡ signed u → t ≡ u
    same (pos n) (pos m) e = ap pos (ones-inj n m e)
    same (pos n) (negsuc m) e = ground (arith, unlike n m e)
    same (negsuc n) (pos m) e = ground (arith, unlike m n (sym e))
    same (negsuc n) (negsuc m) e = ap negsuc (ones-inj n m (ap (drop 1) e))

-- Tag 65 of task 1 is done, and tag 66 of task 12; task 1 is removed.
abbrev calls : List Call
calls =
    marks (pos 1) (65 ∷ []) ∷ marks (pos 12) (66 ∷ []) ∷ asks (pos 1) [] 9000 ∷ removes (pos 1) ∷ []

calls-run :
    ((is_processed signed (pos 12) (66 ∷ []) 9100 (run signed (new_manager 0) calls)).1 ≡ true)
    × ((is_processed signed (pos 1) (65 ∷ []) 9100 (run signed (new_manager 0) calls)).1 ≡ false)
    × (get_cache_size (run signed (new_manager 0) calls) ≡ 1)
    × ((run signed (new_manager 0) calls).last_cleanup ≡ 9000)
unfolding is_processed run step new_manager mark_processed remove_task generate_key contains
    chars_eq starts_with get_cache_size cleanup_expired
calls-run = (refl, refl, refl, refl)

-- A pair marked long ago, long after the clean-up, is still there.
never_expires :
    (is_processed signed
      (pos 1)
      (65 ∷ [])
      90000
      (run signed (new_manager 0) (marks (pos 1) (65 ∷ []) ∷ asks (pos 1) [] 80000 ∷ []))).1
    ≡ true
unfolding is_processed run step new_manager mark_processed generate_key contains chars_eq
    cleanup_expired
never_expires = refl

processed_exact_example :
    (is_processed signed (pos 12) (66 ∷ []) 9100 (run signed (new_manager 0) calls)).1
    ≡ remembered (pos 12) (66 ∷ []) false calls
processed_exact_example = processed_exact signed 0 9100 calls (pos 12) (66 ∷ []) signed-IsPrinting
