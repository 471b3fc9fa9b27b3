-- ===== src/Runtime/ProofLedger.antt =====
-- server/runtime/proof_ledger.h and .cpp: the ledger of proof records, kept sorted by frame.
-- An iterator is the rest of the list from its element on. `std::sort` is an insertion sort: no two
-- records have one frame, so any sort gives the same list.
pub mod Order
pub mod Refinement
pub mod Chains
mod Examples
use rfidsystem.Prelude.{
  ℕ, ◌==◌, leb, Bool, true, false, not, ◌&&◌, Option, none, some, List, [], ◌∷◌, String, length,
  snoc, keep, if◌then◌else◌,
}

pub record ProofRecord : Type 0 where
  pub frame_id : ℕ
  pub frame_hash : ℕ
  pub gpu_hash : ℕ
  pub ai_hash : ℕ
  pub decision_hash : ℕ
  pub recovery_hash : ℕ
  pub verified : Bool
  pub signature : String
  pub timestamp : ℕ

-- `std::find_if` for a frame, as the rest of the list from there on.
unfoldable pub find_from : ℕ → List ProofRecord → List ProofRecord
find_from f [] = []
find_from f (r ∷ rs) = if r.frame_id == f then r ∷ rs else find_from f rs

-- What the iterator points at, if it is not `end()`.
abbrev pub first : List ProofRecord → Option ProofRecord
first [] = none
first (r ∷ rs) = some r

unfoldable pub replace_first : ProofRecord → List ProofRecord → List ProofRecord
replace_first new [] = []
replace_first new (r ∷ rs) =
    if r.frame_id == new.frame_id then new ∷ rs else r ∷ replace_first new rs

unfoldable pub insert_sorted : ProofRecord → List ProofRecord → List ProofRecord
insert_sorted new [] = new ∷ []
insert_sorted new (r ∷ rs) =
    if leb new.frame_id r.frame_id then new ∷ r ∷ rs else r ∷ insert_sorted new rs

unfoldable pub sort : List ProofRecord → List ProofRecord
sort [] = []
sort (r ∷ rs) = insert_sorted r (sort rs)

unfoldable pub append : ProofRecord → List ProofRecord → List ProofRecord
append new rs = elim (find_from new.frame_id rs) [
  | [] ↦ sort (snoc rs new)
  | r ∷ rest ↦ sort (replace_first new rs)
]

-- The loop of `verifyChain` from one iterator to another. `none` is a step past `end()`, which is
-- undefined behaviour.
unfoldable pub verify_until : ℕ → List ProofRecord → Option Bool
verify_until to [] = none
verify_until to (r ∷ rs) =
    let rest = verify_until to rs in
    if r.frame_id == to then some true else if r.verified then rest else some false

-- `verifyChain` on the two iterators.
unfoldable pub chain_between : ℕ → List ProofRecord → List ProofRecord → Option Bool
chain_between to [] ends = some false
chain_between to (a ∷ after_a) [] = some false
chain_between to (a ∷ after_a) (b ∷ after_b) = verify_until to (a ∷ after_a)

unfoldable pub verify_chain : ℕ → ℕ → List ProofRecord → Option Bool
verify_chain from to rs = chain_between to (find_from from rs) (find_from to rs)

unfoldable pub verify_frame : ℕ → List ProofRecord → Bool
verify_frame f rs = elim (find_from f rs) [ [] ↦ false | r ∷ rest ↦ r.verified ]

unfoldable pub query : ℕ → List ProofRecord → List ProofRecord
query f rs = elim (find_from f rs) [ [] ↦ [] | r ∷ rest ↦ r ∷ [] ]

unfoldable pub get_range : ℕ → ℕ → List ProofRecord → List ProofRecord
get_range start end = keep (λ r. leb start r.frame_id && leb r.frame_id end)

unfoldable pub verify_full_chain : List ProofRecord → Bool
verify_full_chain [] = true
verify_full_chain (r ∷ rs) =
    let rest = verify_full_chain rs in if not r.verified then false else rest

unfoldable pub get_record_count : List ProofRecord → ℕ
get_record_count = length

-- `initialize`, `shutdown` and `clear` empty the ledger.
unfoldable pub clear : List ProofRecord → List ProofRecord
clear rs = []
