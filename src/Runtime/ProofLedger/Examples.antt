-- ===== src/Runtime/ProofLedger/Examples.antt =====
-- The ledger at concrete records.
use rfidsystem.Prelude.{
  ℕ, leb, ◌≡◌, refl, Bool, true, false, not, ◌&&◌, none, some, List, [], ◌∷◌, map, arith, any,
  if◌then◌else◌,
}
use rfidsystem.Runtime.ProofLedger.{
  ProofRecord, find_from, replace_first, insert_sorted, sort, append, verify_until, verify_chain,
  chain_between, verify_frame, query, get_range, verify_full_chain, get_record_count, clear,
}
use rfidsystem.Runtime.ProofLedger.Order.{IsOrdered}
use rfidsystem.Runtime.ProofLedger.Refinement.{
  append_all, latest, to_list, is_verified, ledger_refines_map,
}
use rfidsystem.Runtime.ProofLedger.Chains.{has, gap, verify_chain_range, verify_chain_reversed}

abbrev entry : ℕ → Bool → ProofRecord
entry f ok = record {
  frame_id = f;
  frame_hash = 11;
  gpu_hash = 12;
  ai_hash = 13;
  decision_hash = 14;
  recovery_hash = 15;
  verified = ok;
  signature = "";
  timestamp = 0;
}

abbrev history : List ProofRecord
history = entry 7 true ∷ entry 3 false ∷ entry 5 true ∷ entry 3 true ∷ entry 9 false ∷ []

abbrev ledger : List ProofRecord
ledger = append_all [] history

ledger_sorted : map (λ (r : ProofRecord). r.frame_id) ledger ≡ 3 ∷ 5 ∷ 7 ∷ 9 ∷ []
unfolding append_all append find_from sort replace_first insert_sorted
ledger_sorted = refl

ledger_counts : get_record_count ledger ≡ 4
unfolding append_all append find_from sort replace_first insert_sorted get_record_count
ledger_counts = refl

-- The last record of the range is not verified.
last_not_checked : verify_chain 3 9 ledger ≡ some true
unfolding append_all append find_from sort replace_first insert_sorted verify_chain chain_between
    verify_until
last_not_checked = refl

ledger_not_full : verify_full_chain ledger ≡ false
unfolding append_all append find_from sort replace_first insert_sorted verify_full_chain
ledger_not_full = refl

range_inclusive : map (λ (r : ProofRecord). r.frame_id) (get_range 5 9 ledger) ≡ 5 ∷ 7 ∷ 9 ∷ []
unfolding append_all append find_from sort replace_first insert_sorted get_range
range_inclusive = refl

ledger_cleared : clear ledger ≡ []
unfolding clear
ledger_cleared = refl

ledger_refines_map_example :
    IsOrdered ledger
    × (query 3 ledger ≡ to_list (latest 3 none history))
    × (verify_frame 3 ledger ≡ is_verified (latest 3 none history))
ledger_refines_map_example = ledger_refines_map 3 history

verify_chain_range_example :
    verify_chain 3 9 ledger
    ≡ some ((any (has 3) ledger && any (has 9) ledger) && not (any (gap 3 9) ledger))
verify_chain_range_example =
    verify_chain_range 3 9 ledger (ledger_refines_map 3 history).0 (omega arith)

chain-backwards :
    verify_chain 7 3 ledger
    ≡ (if any (λ r. leb 7 r.frame_id && not r.verified) ledger then some false else none)
unfolding append_all append find_from sort replace_first insert_sorted
chain-backwards =
    verify_chain_reversed 7 3 ledger (ledger_refines_map 3 history).0 (omega arith) refl refl
