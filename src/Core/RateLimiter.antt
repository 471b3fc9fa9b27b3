-- ===== src/Core/RateLimiter.antt =====
-- server/core/rate_limiter.h and .cpp: RateLimiter, a sliding window of one second over the requests
-- let through. Time is in nanoseconds of the steady clock, and each call's reading is an argument:
-- `tryAcquire` reads the clock twice under the mutex, in `cleanOldTimestamps` and for the timestamp that
-- it pushes, and the model takes both readings to be the same.
-- The atomic `currentRate_` is written under the mutex only. `size >= max * 0.8` in `double` is a
-- parameter of `is_overloaded`.
pub mod Window
pub mod Bound
mod Examples
use rfidsystem.Prelude.{
  ℕ, ◌+◌, ltb, leb, Bool, true, false, List, [], ◌∷◌, length, snoc, if◌then◌else◌,
}

pub record RateLimiter : Type 0 where
  pub max_requests_per_second : ℕ
  pub timestamps : List ℕ
  pub current_rate : ℕ

abbrev pub second : ℕ
second = 1000000000

unfoldable pub new_limiter : ℕ → RateLimiter
new_limiter n = record { max_requests_per_second = n; timestamps = []; current_rate = 0 }

-- `front < now - 1s` is a timestamp that leaves the window.
unfoldable pub clean_old_timestamps : ℕ → List ℕ → List ℕ
clean_old_timestamps now [] = []
clean_old_timestamps now (t ∷ ts) =
    let rest = clean_old_timestamps now ts in if ltb (t + second) now then rest else t ∷ ts

unfoldable pub try_acquire : ℕ → RateLimiter → RateLimiter × Bool
try_acquire now l =
    let kept : List ℕ = clean_old_timestamps now l.timestamps in
    if leb l.max_requests_per_second (length kept)
    then (record l { timestamps = kept }, false)
    else (record l { timestamps = snoc kept now; current_rate = length kept + 1 }, true)

unfoldable pub release : RateLimiter → RateLimiter
release l = elim l.timestamps [
  | [] ↦ l
  | t ∷ ts ↦ record l { timestamps = ts; current_rate = length ts }
]

unfoldable pub get_current_rate : RateLimiter → ℕ
get_current_rate l = length l.timestamps

unfoldable pub is_overloaded : (ℕ → ℕ → Bool) → RateLimiter → Bool
is_overloaded reaches_80_percent l =
    reaches_80_percent (length l.timestamps) l.max_requests_per_second
