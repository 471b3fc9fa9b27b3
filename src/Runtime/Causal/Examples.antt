-- ===== src/Runtime/Causal/Examples.antt =====
-- The search for causes at concrete nodes.
use rfidsystem.Prelude.{ℕ, ◌==◌, ◌≡◌, refl, true, false, some, List, [], ◌∷◌, arith, All, tally}
use rfidsystem.Runtime.Causal.{
  CausalNode, Nodes, find, put, add_node, push_parents, visit, search_loop, reverse, reverse_result,
  total_parents, trace_decision, explain_failure, verify_from, verify_chain,
}
use rfidsystem.Runtime.Causal.Exact.{itself, parent, IsCause}
use rfidsystem.Runtime.Causal.Traces.{trace_decision_sound, trace_decision_complete}
use rfidsystem.Runtime.Causal.Linear.{linear_trace_verifies}

abbrev node : ℕ → List ℕ → CausalNode
node id parents = record {
  id = id;
  type = "DECISION";
  parents = parents;
  data_hash = "";
  timestamp = 0;
}

-- 4 has the parents 2 and 3, which have the parent 1, which has the parent 4; 9 is not stored.
abbrev cycle : Nodes
cycle =
    node 1 (4 ∷ [])
    ∷ node 2 (1 ∷ 9 ∷ [])
    ∷ node 3 (1 ∷ [])
    ∷ node 4 (2 ∷ 3 ∷ [])
    ∷ node 5 (4 ∷ [])
    ∷ []

trace_decision-cycle :
    trace_decision 4 cycle
    ≡ some (node 2 (1 ∷ 9 ∷ []) ∷ node 1 (4 ∷ []) ∷ node 3 (1 ∷ []) ∷ node 4 (2 ∷ 3 ∷ []) ∷ [])
unfolding trace_decision search_loop visit find push_parents reverse reverse_result total_parents
trace_decision-cycle = refl

-- The chain of a decision with two causes is refused by verifyChain.
verify_chain-branches :
    verify_chain
      (node 2 (1 ∷ 9 ∷ []) ∷ node 1 (4 ∷ []) ∷ node 3 (1 ∷ []) ∷ node 4 (2 ∷ 3 ∷ []) ∷ [])
    ≡ false
unfolding verify_chain verify_from
verify_chain-branches = refl

-- Every failure and decision is explained, whatever the frame.
explain_failure-frames : explain_failure 7 cycle ≡ explain_failure 8 cycle
unfolding explain_failure
explain_failure-frames = refl

trace_decision_sound_example :
    (chain : List CausalNode) × ((trace_decision 4 cycle ≡ some chain)
      × All (IsCause cycle 4) chain)
trace_decision_sound_example = trace_decision_sound 4 cycle

trace_decision_complete_example :
    (chain : List CausalNode) × ((trace_decision 4 cycle ≡ some chain)
      × (tally (λ c. c.id == 1) chain ≡ 1))
unfolding find
trace_decision_complete_example =
    trace_decision_complete 4 1 cycle (node 1 (4 ∷ []))
      (parent 3 1 (node 3 (1 ∷ [])) (parent 4 3 (node 4 (2 ∷ 3 ∷ [])) itself refl refl) refl refl)
      refl

abbrev line : Nodes
line =
    add_node 3 "DECISION" (2 ∷ []) "" 30
      (add_node 2 "INPUT" (1 ∷ []) "" 20 (add_node 1 "INPUT" [] "" 10 []))

linear_trace_verifies_example :
    (chain : List CausalNode) × ((trace_decision 3 line ≡ some chain) × (verify_chain chain ≡ true))
unfolding find add_node put
linear_trace_verifies_example =
    linear_trace_verifies 3 line
      (record { id = 3; type = "DECISION"; parents = 2 ∷ []; data_hash = ""; timestamp = 30 })
      (omega arith, (omega arith, (omega arith, tt))) refl
