-- ===== src/Runtime/Causal/Traces.antt =====
-- What traceDecision of server/runtime/causal_chain_tracker.cpp returns.
use rfidsystem.Prelude.{
  ℕ, ◌+◌, ◌==◌, ◌≡◌, refl, sym, ◌∙◌, inl, inr, none, some, List, [], arith, All, tally,
  Option-cases,
}
use rfidsystem.Runtime.Causal.{
  CausalNode, Nodes, find, search_loop, reverse, reverse_result, first_search, total_parents,
  trace_decision,
}
use rfidsystem.Runtime.Causal.Stack.{
  reverse-All, reverse-All, reverse-All, reverse-tally, reverse-tally, reverse-tally,
  is_stored-some, is_stored-some,
}
use rfidsystem.Runtime.Causal.Ends.{search_loop-ends, waiting-none}
use rfidsystem.Runtime.Causal.Exact.{Led, itself, parent, IsCause, search-found, all_visited}

-- The search for a stored decision ends.
pub search-ends :
    (decision : ℕ) (nodes : Nodes)
    → (chain : List CausalNode) × (search_loop nodes
          (total_parents nodes + 2)
          (first_search decision)
        ≡ some chain)
search-ends decision nodes =
    search_loop-ends nodes (total_parents nodes + 2) (first_search decision)
      (omega (arith, waiting-none nodes))

pub trace_stored :
    (decision : ℕ) (nodes : Nodes) (n : CausalNode) (chain : List CausalNode)
    → find decision nodes ≡ some n
    → search_loop nodes (total_parents nodes + 2) (first_search decision) ≡ some chain
    → trace_decision decision nodes ≡ some (reverse chain)
unfolding trace_decision reverse_result
trace_stored decision nodes n chain there ends = rw (trace_decision, there, ends) refl

-- The search for what led to a decision always ends, and each node that it returns is stored and led to
-- the decision.
pub trace_decision_sound :
    (decision : ℕ) (nodes : Nodes)
    → (chain : List CausalNode) × ((trace_decision decision nodes ≡ some chain)
        × All (IsCause nodes decision) chain)
unfolding trace_decision
trace_decision_sound decision nodes = elim (Option-cases (find decision nodes)) [
  | inl gone ↦ ([], (rw (trace_decision, gone) refl, tt))
  | inr (n, there) ↦
      let (chain, ends) = search-ends decision nodes in
      let (visited, o) = search-found nodes decision chain ends in
      (
        reverse chain,
        (
          trace_stored decision nodes n chain there ends,
          reverse-All (IsCause nodes decision) chain o.sound,
        ),
      )
]

-- Nothing but itself led to a decision that is not stored.
none_stored :
    (decision : ℕ) (nodes : Nodes) (x : ℕ)
    → find decision nodes ≡ none
    → Led nodes decision x
    → find x nodes ≡ none
none_stored decision nodes x gone itself = gone
none_stored decision nodes _ gone (parent x p n l f m) =
    ground (arith, sym (none_stored decision nodes x gone l) ∙ f)

-- A stored node that led to the decision, over however many parents, is in the result exactly once, also
-- when the nodes form a cycle.
pub trace_decision_complete :
    (decision x : ℕ) (nodes : Nodes) (n : CausalNode)
    → Led nodes decision x
    → find x nodes ≡ some n
    → (chain : List CausalNode) × ((trace_decision decision nodes ≡ some chain)
        × (tally (λ c. c.id == x) chain ≡ 1))
trace_decision_complete decision x nodes n led there = elim (Option-cases (find decision nodes)) [
  | inl gone ↦ ground (arith, sym (none_stored decision nodes x gone led) ∙ there)
  | inr (d, stored) ↦
      let (chain, ends) = search-ends decision nodes in
      let (visited, o) = search-found nodes decision chain ends in
      let once : tally (λ c. c.id == x) chain ≡ 1 =
        o.counted x
        ∙ rw (all_visited nodes decision visited chain x o led, is_stored-some nodes x n there)
            refl in
      (
        reverse chain,
        (
          trace_stored decision nodes d chain stored ends,
          reverse-tally (λ c. c.id == x) chain ∙ once,
        ),
      )
]
