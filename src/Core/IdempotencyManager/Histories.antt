-- ===== src/Core/IdempotencyManager/Histories.antt =====
-- What server/core/idempotency_manager.cpp remembers after a history of calls.
use rfidsystem.Prelude.{
  ℕ, ◌≡◌, refl, ap, subst, ◌∙◌, inl, inr, Bool, true, false, not, ◌&&◌, ◌||◌, List, [], ◌∷◌, ◌++◌,
  arith, keep, if◌then◌else◌, Bool-cases,
}
use rfidsystem.Prelude.Int.{ℤ, eq_ℤ}
use rfidsystem.Core.IdempotencyManager.{
  Chars, colon, IdempotencyManager, chars_eq, starts_with, new_manager, contains, cleanup_expired,
  clear, generate_key, is_processed, mark_processed, remove_task,
}
use rfidsystem.Core.IdempotencyManager.Keys.{IsPrinting, chars_eq-path, key_eq, prefix_eq}

pub data Call : Type 0 where
  marks : ℤ → Chars → Call
  asks : ℤ → Chars → ℕ → Call
  removes : ℤ → Call
  clears : Call

-- One call, on a set of pairs of a task and a tag that tells whether one pair is in it.
abbrev pub told : ℤ → Chars → Bool → Call → Bool
told u f b (marks t e) = b || eq_ℤ t u && chars_eq e f
told u f b (asks t e now) = b
told u f b (removes t) = b && not (eq_ℤ t u)
told u f b clears = false

pub remembered : ℤ → Chars → Bool → List Call → Bool
remembered u f b [] = b
remembered u f b (c ∷ cs) = remembered u f (told u f b c) cs

contains-insert :
    (key k : Chars) (keys : List Chars)
    → contains key (if contains k keys then keys else k ∷ keys)
      ≡ (contains key keys || chars_eq k key)
unfolding contains
contains-insert key k keys = elim (Bool-cases (contains k keys)) [
  | inl old ↦
      let h = λ (e : chars_eq k key ≡ true).
        subst (λ x. contains x keys ≡ true) (chars_eq-path k key e) old in
      rw old (ground (arith, h))
  | inr new ↦ rw new (ground arith)
]

contains_none : (key : Chars) → contains key [] ≡ false
unfolding contains
contains_none key = refl

contains-keep :
    (key prefix : Chars) (keys : List Chars)
    → contains key (keep (λ k. not (starts_with prefix k)) keys)
      ≡ (contains key keys && not (starts_with prefix key))
unfolding contains
contains-keep key prefix [] = refl
contains-keep key prefix (k ∷ ks) = elim (Bool-cases (chars_eq k key)) [
  | inl same ↦
      let s = ap (starts_with prefix) (chars_eq-path k key same) in
      ground (arith, same, s, contains-keep key prefix ks)
  | inr other ↦ ground (arith, other, contains-keep key prefix ks)
]

module _ (digits : ℤ → Chars) where
  unfoldable pub step : IdempotencyManager → Call → IdempotencyManager
  step m (marks t e) = mark_processed digits t e m
  step m (asks t e now) = (is_processed digits t e now m).0
  step m (removes t) = remove_task digits t m
  step m clears = clear m

  unfoldable pub run : IdempotencyManager → List Call → IdempotencyManager
  run m [] = m
  run m (c ∷ cs) = run (step m c) cs

module _ (digits : ℤ → Chars) (d : IsPrinting digits) where
  step-contains :
      (m : IdempotencyManager) (c : Call) (u : ℤ) (f : Chars)
      → contains (generate_key digits u f) (step digits m c).processed_keys
        ≡ told u f (contains (generate_key digits u f) m.processed_keys) c
  unfolding step mark_processed is_processed remove_task clear cleanup_expired
  step-contains m (marks t e) u f =
      contains-insert (generate_key digits u f) (generate_key digits t e) m.processed_keys
      ∙ ap (λ b. contains (generate_key digits u f) m.processed_keys || b) (key_eq digits d t u e f)
  step-contains m (asks t e now) u f = ground arith
  step-contains m (removes t) u f =
      contains-keep (generate_key digits u f) (digits t ++ (colon ∷ [])) m.processed_keys
      ∙ ap (λ b. contains (generate_key digits u f) m.processed_keys && not b)
          (prefix_eq digits d t u f)
  step-contains m clears u f = contains_none (generate_key digits u f)

  run-contains :
      (m : IdempotencyManager) (cs : List Call) (u : ℤ) (f : Chars)
      → contains (generate_key digits u f) (run digits m cs).processed_keys
        ≡ remembered u f (contains (generate_key digits u f) m.processed_keys) cs
  unfolding run remembered
  run-contains m [] u f = refl
  run-contains m (c ∷ cs) u f =
      run-contains (step digits m c) cs u f ∙ ap (λ b. remembered u f b cs) (step-contains m c u f)

asked :
    (digits : ℤ → Chars) (m : IdempotencyManager) (now : ℕ) (u : ℤ) (f : Chars)
    → (is_processed digits u f now m).1 ≡ contains (generate_key digits u f) m.processed_keys
unfolding is_processed cleanup_expired
asked digits m now u f = ground arith

-- After any history of calls on a new manager, `isProcessed` of a task and a tag answers what a set of
-- pairs would: whether the pair was marked after the last `removeTask` of that task and the last
-- `clear`. Here `std::to_string` is any printing without a colon that tells numbers apart; tags may
-- contain colons.
pub processed_exact :
    (digits : ℤ → Chars) (start now : ℕ) (cs : List Call) (u : ℤ) (f : Chars)
    → IsPrinting digits
    → (is_processed digits u f now (run digits (new_manager start) cs)).1 ≡ remembered u f false cs
unfolding new_manager contains
processed_exact digits start now cs u f d =
    asked digits (run digits (new_manager start) cs) now u f
    ∙ run-contains digits d (new_manager start) cs u f
