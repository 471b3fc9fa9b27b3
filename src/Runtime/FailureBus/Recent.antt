-- ===== src/Runtime/FailureBus/Recent.antt =====
-- The query for the latest failures of server/runtime/runtime_failure_bus.cpp.
use rfidsystem.Prelude.{
  ℕ, zero, suc, ◌-◌, ◌≤◌, ◌<◌, min, ◌≡◌, refl, ap, List, [], ◌∷◌, ◌++◌, arith, length, drop,
}
use rfidsystem.Prelude.Int.{pos, negsuc}
use rfidsystem.Runtime.FailureBus.{
  FailureEvent, RuntimeFailureBus, max_recent_failures, recent_start, get_recent,
}

length-drop : {A : Type 0} (n : ℕ) (xs : List A) → length (drop n xs) ≡ length xs - n
length-drop zero xs = omega arith
length-drop (suc n) [] = omega arith
length-drop (suc n) (x ∷ xs) = omega (arith, length-drop n xs)

drop-split : {A : Type 0} (n : ℕ) (xs : List A) → (older : List A) × (xs ≡ older ++ drop n xs)
drop-split zero xs = ([], refl)
drop-split (suc n) [] = ([], refl)
drop-split (suc n) (x ∷ xs) = let r = drop-split n xs in (x ∷ r.0, ap (◌∷◌ x) r.1)

-- For a count that is not negative, on a window within its bound, `get_recent` returns the newest
-- failures in order: a suffix of the window, as long as the count or, if that is shorter, the window.
pub get_recent_suffix :
    {Double : Type 0} (n : ℕ) (b : RuntimeFailureBus Double)
    → length b.recent_failures ≤ max_recent_failures
    → (length (get_recent (pos n) b) ≡ min n (length b.recent_failures))
      × ((older : List (FailureEvent Double)) × (b.recent_failures ≡ older ++ get_recent (pos n) b))
unfolding get_recent
get_recent_suffix n b h = (
  rw (length-drop (recent_start (pos n) (length b.recent_failures)) b.recent_failures)
      (ground arith),
  drop-split (recent_start (pos n) (length b.recent_failures)) b.recent_failures,
)

drop_all : {A : Type 0} (n : ℕ) (xs : List A) → length xs ≤ n → drop n xs ≡ []
drop_all zero [] h = refl
drop_all zero (x ∷ xs) h = absurd (omega arith)
drop_all (suc n) [] h = refl
drop_all (suc n) (x ∷ xs) h = drop_all n xs (omega arith)

-- For a negative count (no less than the smallest `int`) nothing is returned: the conversion to
-- `size_t` puts the start past the end.
pub get_recent_negative :
    {Double : Type 0} (k : ℕ) (b : RuntimeFailureBus Double)
    → length b.recent_failures ≤ max_recent_failures
    → k < 2147483648
    → get_recent (negsuc k) b ≡ []
unfolding get_recent
get_recent_negative k b h r =
    drop_all (recent_start (negsuc k) (length b.recent_failures)) b.recent_failures (ground arith)
