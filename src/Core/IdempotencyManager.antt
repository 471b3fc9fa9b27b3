-- ===== src/Core/IdempotencyManager.antt =====
-- server/core/idempotency_manager.h and .cpp: IdempotencyManager, the set of tags done for each task.
-- A `std::string` is a list of character codes, and the printing of an `int` (`std::to_string`, and
-- `<<` of a stream) the parameter `digits`. The unordered set is a list without repetitions. Time is in
-- whole seconds of the steady clock; its reading `now` does not go back.
pub mod Keys
pub mod Histories
mod Examples
use rfidsystem.Prelude.{
  ℕ, ◌-◌, ◌==◌, ltb, Bool, true, false, not, ◌&&◌, List, [], ◌∷◌, ◌++◌, length, keep, any,
  if◌then◌else◌,
}
use rfidsystem.Prelude.Int.{ℤ}

abbrev pub Chars : Type 0
Chars = List ℕ

abbrev pub colon : ℕ
colon = 58

pub record IdempotencyManager : Type 0 where
  pub processed_keys : List Chars
  pub last_cleanup : ℕ

-- `==` of strings.
unfoldable pub chars_eq : Chars → Chars → Bool
chars_eq [] [] = true
chars_eq [] (d ∷ ds) = false
chars_eq (c ∷ cs) [] = false
chars_eq (c ∷ cs) (d ∷ ds) = c == d && chars_eq cs ds

-- `key.compare(0, prefix.size(), prefix) == 0`
unfoldable pub starts_with : Chars → Chars → Bool
starts_with [] key = true
starts_with (p ∷ ps) [] = false
starts_with (p ∷ ps) (c ∷ cs) = c == p && starts_with ps cs

unfoldable pub new_manager : ℕ → IdempotencyManager
new_manager now = record { processed_keys = []; last_cleanup = now }

-- `find` in the set.
unfoldable pub contains : Chars → List Chars → Bool
contains key keys = any (λ k. chars_eq k key) keys

-- It only logs.
unfoldable pub cleanup_expired : ℕ → IdempotencyManager → IdempotencyManager
cleanup_expired max_age m = m

unfoldable pub get_cache_size : IdempotencyManager → ℕ
get_cache_size m = length m.processed_keys

unfoldable pub clear : IdempotencyManager → IdempotencyManager
clear m = record m { processed_keys = [] }

module _ (digits : ℤ → Chars) where
  unfoldable pub generate_key : ℤ → Chars → Chars
  generate_key task epc = digits task ++ (colon ∷ epc)

  unfoldable pub is_processed : ℤ → Chars → ℕ → IdempotencyManager → IdempotencyManager × Bool
  is_processed task epc now m =
      let m' : IdempotencyManager =
        if ltb 3600 (now - m.last_cleanup)
        then record (cleanup_expired 3600 m) { last_cleanup = now }
        else m in
      (m', contains (generate_key task epc) m'.processed_keys)

  unfoldable pub mark_processed : ℤ → Chars → IdempotencyManager → IdempotencyManager
  mark_processed task epc m =
      let key : Chars = generate_key task epc in
      record m {
        processed_keys =
            if contains key m.processed_keys then m.processed_keys else key ∷ m.processed_keys;
      }

  unfoldable pub remove_task : ℤ → IdempotencyManager → IdempotencyManager
  remove_task task m = record m {
    processed_keys = keep (λ k. not (starts_with (digits task ++ (colon ∷ [])) k)) m.processed_keys;
  }
