-- ===== src/Core/RateLimiter/Window.antt =====
-- The sliding window of server/core/rate_limiter.cpp, against a limiter that forgets nothing.
use rfidsystem.Prelude.{
  ℕ, ◌+◌, ◌≤◌, ltb, leb, ◌≡◌, refl, ap, inl, inr, Bool, true, false, List, [], ◌∷◌, arith, length,
  snoc, All, length-snoc, tally, if◌then◌else◌, Bool-cases,
}
use rfidsystem.Core.RateLimiter.{
  RateLimiter, second, new_limiter, clean_old_timestamps, try_acquire,
}

-- Times that do not go back.
abbrev pub Ascending : ℕ → List ℕ → Type 0
Ascending now [] = Unit
Ascending now (t ∷ ts) = (now ≤ t) × Ascending t ts

-- The answers of `tryAcquire` at the given times.
unfoldable pub answers : RateLimiter → List ℕ → List Bool
answers l [] = []
answers l (t ∷ ts) = (try_acquire t l).1 ∷ answers (try_acquire t l).0 ts

-- Not more than a second ago.
abbrev pub recent : ℕ → ℕ → Bool
recent now t = leb now (t + second)

-- A request is let through when fewer than `n` of all those let through are recent.
unfoldable pub reference : ℕ → List ℕ → List ℕ → List Bool
reference n all [] = []
reference n all (t ∷ ts) =
    let ok : Bool = ltb (tally (recent t) all) n in
    ok ∷ reference n (if ok then t ∷ all else all) ts

-- The kept timestamps tell of all those let through what is recent, now and later.
pub record IsWindow (now : ℕ) (all : List ℕ) (ts : List ℕ) : Type 0 where
  pub past : All (λ t. t ≤ now) ts
  pub told :
      (later : ℕ) → now ≤ later → length (clean_old_timestamps later ts) ≡ tally (recent later) all

past_clean :
    (n now : ℕ) (ts : List ℕ)
    → All (λ t. t ≤ now) ts
    → All (λ t. t ≤ now) (clean_old_timestamps n ts)
unfolding clean_old_timestamps
past_clean n now [] h = h
past_clean n now (t ∷ ts) h = elim (Bool-cases (ltb (t + second) n)) [
  | inl gone ↦ rw gone (past_clean n now ts h.1)
  | inr kept ↦ rw kept h
]

past_snoc :
    (now : ℕ) (t : ℕ) (ts : List ℕ) → All (λ t. t ≤ now) ts → now ≤ t → All (λ u. u ≤ t) (snoc ts t)
past_snoc now t [] h le = (omega arith, tt)
past_snoc now t (u ∷ us) h le = (omega (arith, h.0), past_snoc now t us h.1 le)

past_later :
    (now later : ℕ) (ts : List ℕ) → All (λ t. t ≤ now) ts → now ≤ later → All (λ t. t ≤ later) ts
past_later now later [] h le = tt
past_later now later (t ∷ ts) h le = (omega (arith, h.0), past_later now later ts h.1 le)

clean_clean :
    (now later : ℕ) (ts : List ℕ)
    → now ≤ later
    → clean_old_timestamps later (clean_old_timestamps now ts) ≡ clean_old_timestamps later ts
unfolding clean_old_timestamps
clean_clean now later [] h = refl
clean_clean now later (t ∷ ts) h = ground (arith, clean_clean now later ts h)

clean_snoc :
    (later t : ℕ) (ts : List ℕ)
    → All (λ u. u ≤ t) ts
    → length (clean_old_timestamps later (snoc ts t))
      ≡ length (clean_old_timestamps later ts) + (if recent later t then 1 else 0)
unfolding clean_old_timestamps
clean_snoc later t [] h = ground arith
clean_snoc later t (u ∷ us) h = ground (arith, h.0, clean_snoc later t us h.1, length-snoc us t)

kept_past :
    (now t : ℕ) (all ts : List ℕ)
    → now ≤ t
    → IsWindow now all ts
    → All (λ u. u ≤ t) (clean_old_timestamps t ts)
kept_past now t all ts h w =
    past_later now t (clean_old_timestamps t ts) (past_clean t now ts w.past) h

pub refused-IsWindow :
    (now t : ℕ) (all ts : List ℕ)
    → now ≤ t
    → IsWindow now all ts
    → IsWindow t all (clean_old_timestamps t ts)
refused-IsWindow now t all ts h w = record {
  past = kept_past now t all ts h w;
  told = λ later le. rw (clean_clean t later ts le) (w.told later (omega arith));
}

pub granted-IsWindow :
    (now t : ℕ) (all ts : List ℕ)
    → now ≤ t
    → IsWindow now all ts
    → IsWindow t (t ∷ all) (snoc (clean_old_timestamps t ts) t)
granted-IsWindow now t all ts h w = record {
  past = past_snoc t t (clean_old_timestamps t ts) (kept_past now t all ts h w) (omega arith);
  told = λ later le.
      rw
        (
          clean_snoc later t (clean_old_timestamps t ts) (kept_past now t all ts h w),
          clean_clean t later ts le,
          w.told later (omega arith),
        )
        (omega arith);
}

-- The limiter after a call that is refused, and after one that is let through.
abbrev pub refusing : ℕ → RateLimiter → RateLimiter
refusing t l = record l { timestamps = clean_old_timestamps t l.timestamps }

abbrev pub granting : ℕ → RateLimiter → RateLimiter
granting t l =
    let kept : List ℕ = clean_old_timestamps t l.timestamps in
    record l { timestamps = snoc kept t; current_rate = length kept + 1 }

pub acquire_refused :
    (t : ℕ) (l : RateLimiter) (n : ℕ)
    → length (clean_old_timestamps t l.timestamps) ≡ n
    → ltb n l.max_requests_per_second ≡ false
    → try_acquire t l ≡ (refusing t l, false)
unfolding try_acquire
acquire_refused t l n e h = rw e (ground arith)

pub acquire_granted :
    (t : ℕ) (l : RateLimiter) (n : ℕ)
    → length (clean_old_timestamps t l.timestamps) ≡ n
    → ltb n l.max_requests_per_second ≡ true
    → try_acquire t l ≡ (granting t l, true)
unfolding try_acquire
acquire_granted t l n e h = rw e (ground arith)

answers_follow :
    (l : RateLimiter) (now : ℕ) (all times : List ℕ)
    → IsWindow now all l.timestamps
    → Ascending now times
    → answers l times ≡ reference l.max_requests_per_second all times
unfolding answers reference
answers_follow l now all [] w a = refl
answers_follow l now all (t ∷ ts) w a =
    let n = w.told t a.0 in
    elim (Bool-cases (ltb (tally (recent t) all) l.max_requests_per_second)) [
      | inl room ↦
          let later =
            answers_follow (granting t l) t (t ∷ all) ts
              (granted-IsWindow now t all l.timestamps a.0 w) a.1 in
          rw (acquire_granted t l (tally (recent t) all) n room, room) (ap (λ bs. true ∷ bs) later)
      | inr full ↦
          let later =
            answers_follow (refusing t l) t all ts (refused-IsWindow now t all l.timestamps a.0 w)
              a.1 in
          rw (acquire_refused t l (tally (recent t) all) n full, full) (ap (λ bs. false ∷ bs) later)
    ]

pub new-IsWindow : (n : ℕ) → IsWindow 0 [] (new_limiter n).timestamps
unfolding new_limiter clean_old_timestamps
new-IsWindow n = record { past = tt; told = λ later h. refl }

-- At times that do not go back, and without `release`, `tryAcquire` of a new limiter for `n` requests a
-- second answers as the limiter that forgets nothing: it lets a request through exactly when fewer than
-- `n` of all those it has let through are at most a second old.
pub answers_exact :
    (n : ℕ) (times : List ℕ)
    → Ascending 0 times
    → answers (new_limiter n) times ≡ reference n [] times
unfolding new_limiter
answers_exact n times a = answers_follow (new_limiter n) 0 [] times (new-IsWindow n) a
