-- ===== src/Core/RateLimiter/Examples.antt =====
-- The rate limiter at concrete times.
use rfidsystem.Prelude.{ℕ, ◌≤◌, leb, ◌≡◌, refl, true, false, List, [], ◌∷◌, arith, tally}
use rfidsystem.Core.RateLimiter.{
  new_limiter, clean_old_timestamps, try_acquire, release, get_current_rate, is_overloaded,
}
use rfidsystem.Core.RateLimiter.Window.{Ascending, answers, reference, answers_exact}
use rfidsystem.Core.RateLimiter.Bound.{granted, inside, window_bounded}

abbrev times : List ℕ
times = 5 ∷ 400000000 ∷ 900000000 ∷ 1000000005 ∷ 1000000006 ∷ []

times-Ascending : Ascending 0 times
times-Ascending = (omega arith, (omega arith, (omega arith, (omega arith, (omega arith, tt)))))

-- With two requests a second the fifth is let through, since the first is then over a second old.
times_answered : answers (new_limiter 2) times ≡ true ∷ true ∷ false ∷ false ∷ true ∷ []
unfolding answers try_acquire new_limiter clean_old_timestamps
times_answered = refl

-- A release forgets the oldest request, though it is not the one that has ended.
release_forgets : get_current_rate (release (try_acquire 9 (new_limiter 2)).0) ≡ 0
unfolding release try_acquire new_limiter clean_old_timestamps get_current_rate
release_forgets = refl

-- A limiter that was full reports overload however much later, until the next `tryAcquire`.
overload_stays : is_overloaded leb (try_acquire 7 (new_limiter 1)).0 ≡ true
unfolding is_overloaded try_acquire new_limiter clean_old_timestamps
overload_stays = refl

answers_exact_example : answers (new_limiter 2) times ≡ reference 2 [] times
answers_exact_example = answers_exact 2 times times-Ascending

window_bounded_example : tally (inside 400000000) (granted (new_limiter 2) times) ≤ 2
window_bounded_example = window_bounded 2 400000000 times times-Ascending
