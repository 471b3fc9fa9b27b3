-- ===== src/Core/RateLimiter/Bound.antt =====
-- How many requests server/core/rate_limiter.cpp lets through in a second.
use rfidsystem.Prelude.{
  ℕ, ◌+◌, ◌≤◌, ◌<◌, ltb, leb, inl, inr, Bool, ◌&&◌, List, [], ◌∷◌, arith, tally, if◌then◌else◌,
  Bool-cases, ltb→lt,
}
use rfidsystem.Core.RateLimiter.{RateLimiter, second, new_limiter, try_acquire}
use rfidsystem.Core.RateLimiter.Window.{
  Ascending, recent, IsWindow, granting, refusing, acquire_refused, acquire_granted,
  refused-IsWindow, granted-IsWindow, new-IsWindow,
}

-- The times at which a request was let through.
unfoldable pub granted : RateLimiter → List ℕ → List ℕ
granted l [] = []
granted l (t ∷ ts) =
    let rest = granted (try_acquire t l).0 ts in if (try_acquire t l).1 then t ∷ rest else rest

-- In the second that begins at `start`, both ends included.
abbrev pub inside : ℕ → ℕ → Bool
inside start t = leb start t && leb t (start + second)

inside-recent :
    (start t : ℕ) (all : List ℕ)
    → t ≤ start + second
    → tally (inside start) all ≤ tally (recent t) all
inside-recent start t [] h = omega arith
inside-recent start t (u ∷ us) h = ground (arith, inside-recent start t us h)

inside_granted :
    (start t n : ℕ) (all : List ℕ)
    → tally (inside start) all ≤ n
    → tally (recent t) all < n
    → tally (inside start) (t ∷ all) ≤ n
inside_granted start t n all h room = elim (Bool-cases (inside start t)) [
  | inl within ↦ rw within (omega (arith, inside-recent start t all (ground (arith, within))))
  | inr without ↦ rw without (omega arith)
]

bound_follows :
    (l : RateLimiter) (now start : ℕ) (all times : List ℕ)
    → IsWindow now all l.timestamps
    → Ascending now times
    → tally (inside start) all ≤ l.max_requests_per_second
    → tally (inside start) all + tally (inside start) (granted l times) ≤ l.max_requests_per_second
unfolding granted
bound_follows l now start all [] w a h = omega arith
bound_follows l now start all (t ∷ ts) w a h =
    let n = w.told t a.0 in
    elim (Bool-cases (ltb (tally (recent t) all) l.max_requests_per_second)) [
      | inl room ↦
          let later =
            bound_follows (granting t l) t start (t ∷ all) ts
              (granted-IsWindow now t all l.timestamps a.0 w) a.1
              (inside_granted start t l.max_requests_per_second all h (ltb→lt _ _ room)) in
          rw (acquire_granted t l (tally (recent t) all) n room) (omega (arith, later))
      | inr full ↦
          let later =
            bound_follows (refusing t l) t start all ts
              (refused-IsWindow now t all l.timestamps a.0 w) a.1 h in
          rw (acquire_refused t l (tally (recent t) all) n full) later
    ]

-- At times that do not go back, and without `release`, a new limiter for `n` requests a second lets at
-- most `n` requests through in any second, wherever that second begins.
pub window_bounded :
    (n start : ℕ) (times : List ℕ)
    → Ascending 0 times
    → tally (inside start) (granted (new_limiter n) times) ≤ n
unfolding new_limiter
window_bounded n start times a =
    omega (arith, bound_follows (new_limiter n) 0 start [] times (new-IsWindow n) a (omega arith))
