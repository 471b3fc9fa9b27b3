-- ===== src/Runtime/Causal.antt =====
-- server/runtime/causal_chain_tracker.h and .cpp: CausalChainTracker, the nodes with their parents and the
-- search for what led to a decision. The map of the nodes is the list of its values, each under its id;
-- the reading of the clock is an argument. The stack's last element comes first here.
pub mod Ends
pub mod Stack
pub mod Exact
pub mod Traces
pub mod Linear
mod Examples
use rfidsystem.Prelude.{
  ℕ, zero, suc, ◌+◌, ◌==◌, Bool, true, false, ◌||◌, Option, none, some, List, [], ◌∷◌, ◌++◌, String,
  length, snoc, keep, any, if◌then◌else◌,
}
use text.Mathlib.Text.{◌==◌ as str_eq}

pub record CausalNode : Type 0 where
  pub id : ℕ
  pub type : String
  pub parents : List ℕ
  pub data_hash : String
  pub timestamp : ℕ

-- nodes_
abbrev pub Nodes : Type 0
Nodes = List CausalNode

unfoldable pub find : ℕ → Nodes → Option CausalNode
find x [] = none
find x (n ∷ rest) = let later = find x rest in if n.id == x then some n else later

-- `nodes_[id] = node`
unfoldable pub put : CausalNode → Nodes → Nodes
put new [] = new ∷ []
put new (n ∷ rest) = let more = put new rest in if n.id == new.id then new ∷ rest else n ∷ more

-- `initialize` and `shutdown`
unfoldable pub clear : Nodes → Nodes
clear nodes = []

unfoldable pub add_node : ℕ → String → List ℕ → String → ℕ → Nodes → Nodes
add_node id type parents data_hash now nodes =
    put (record { id = id; type = type; parents = parents; data_hash = data_hash; timestamp = now })
      nodes

abbrev pub member : ℕ → List ℕ → Bool
member x xs = any (λ y. y == x) xs

-- The loop over the parents of a node.
unfoldable pub push_parents : List ℕ → List ℕ → List ℕ → List ℕ
push_parents visited [] stack = stack
push_parents visited (p ∷ ps) stack =
    push_parents visited ps (if member p visited then stack else p ∷ stack)

pub record Search : Type 0 where
  pub visited : List ℕ
  pub stack : List ℕ
  pub chain : List CausalNode

-- A round of the loop, for the id that was popped.
unfoldable pub visit : Nodes → ℕ → Search → Search
visit nodes current s =
    if member current s.visited
    then s
    else let seen : List ℕ = current ∷ s.visited in
      elim (find current nodes) [
        | none ↦ record s { visited = seen }
        | some n ↦ record {
          visited = seen;
          stack = push_parents seen n.parents s.stack;
          chain = snoc s.chain n;
        }
      ]

-- The loop, on fuel: `none` when the rounds were not enough.
unfoldable pub search_loop : Nodes → ℕ → Search → Option (List CausalNode)
search_loop nodes zero s = none
search_loop nodes (suc fuel) s = elim s.stack [
  | [] ↦ some s.chain
  | x ∷ rest ↦ search_loop nodes fuel (visit nodes x (record s { stack = rest }))
]

unfoldable pub reverse : List CausalNode → List CausalNode
reverse [] = []
reverse (n ∷ ns) = snoc (reverse ns) n

unfoldable pub reverse_result : Option (List CausalNode) → Option (List CausalNode)
reverse_result none = none
reverse_result (some chain) = some (reverse chain)

-- The parents of all nodes.
unfoldable pub total_parents : Nodes → ℕ
total_parents [] = 0
total_parents (n ∷ ns) = length n.parents + total_parents ns

abbrev pub first_search : ℕ → Search
first_search decision = record { visited = []; stack = decision ∷ []; chain = [] }

-- Each id is popped once for each time that it was pushed: as the decision, or as a parent.
unfoldable pub trace_decision : ℕ → Nodes → Option (List CausalNode)
trace_decision decision nodes = elim (find decision nodes) [
  | none ↦ some []
  | some n ↦ reverse_result (search_loop nodes (total_parents nodes + 2) (first_search decision))
]

unfoldable pub is_stored : Nodes → ℕ → Bool
is_stored nodes x = elim (find x nodes) [ none ↦ false | some n ↦ true ]

-- `explainFailure`, with the loop over the nodes in the map's order. The frame's id is not used.
unfoldable pub explain_from : Nodes → Nodes → List ℕ
explain_from nodes [] = []
explain_from nodes (n ∷ rest) =
    let later = explain_from nodes rest in
    if str_eq n.type "FAILURE" || str_eq n.type "DECISION"
    then keep (is_stored nodes) n.parents ++ later
    else later

unfoldable pub explain_failure : ℕ → Nodes → List ℕ
explain_failure frame nodes = explain_from nodes nodes

unfoldable pub get_node_chain : ℕ → Nodes → List CausalNode
get_node_chain x nodes = elim (find x nodes) [ none ↦ [] | some n ↦ n ∷ [] ]

-- The loop of `verifyChain` from the second node on.
unfoldable pub verify_from : CausalNode → List CausalNode → Bool
verify_from before [] = true
verify_from before (child ∷ rest) =
    let later = verify_from child rest in if member before.id child.parents then later else false

unfoldable pub verify_chain : List CausalNode → Bool
verify_chain [] = false
verify_chain (n ∷ rest) = verify_from n rest

unfoldable pub get_node_count : Nodes → ℕ
get_node_count nodes = length nodes
