-- ===== src/Runtime/Causal/Linear.antt =====
-- verifyChain of server/runtime/causal_chain_tracker.cpp on what traceDecision returns.
use rfidsystem.Prelude.{
  from_some, ℕ, zero, suc, ◌+◌, ◌≤◌, ◌==◌, ◌≡◌, refl, sym, ap, subst, ◌∙◌, inl, inr, true, some,
  List, [], ◌∷◌, arith, length, snoc, All, tally, Bool-cases, Option-cases,
}
use rfidsystem.Runtime.Causal.{
  CausalNode, Nodes, find, member, push_parents, Search, visit, search_loop, reverse, first_search,
  total_parents, trace_decision, verify_from, verify_chain,
}
use rfidsystem.Runtime.Causal.Stack.{push_parents-All, All-member}
use rfidsystem.Runtime.Causal.Ends.{List-cases, find-id, push_parents-length}
use rfidsystem.Runtime.Causal.Exact.{itself}
use rfidsystem.Runtime.Causal.Traces.{search-ends, trace_stored, trace_decision_complete}

-- `verifyChain` of a chain that may be empty.
abbrev Verified : List CausalNode → Type 0
Verified [] = Unit
Verified (n ∷ rest) = verify_from n rest ≡ true

-- An id is a parent of the first node, if there is one.
abbrev Precedes : List CausalNode → ℕ → Type 0
Precedes [] p = Unit
Precedes (n ∷ rest) p = member p n.parents ≡ true

reverse-snoc : (ns : List CausalNode) (n : CausalNode) → reverse (snoc ns n) ≡ n ∷ reverse ns
unfolding reverse
reverse-snoc [] n = refl
reverse-snoc (m ∷ ns) n = rw (reverse-snoc ns n) refl

find-All {ℓ} :
    (P : CausalNode → Type ℓ) (x : ℕ) (nodes : Nodes) (n : CausalNode)
    → All P nodes
    → find x nodes ≡ some n
    → P n
unfolding find
find-All P x [] n h f = ground (arith, f)
find-All P x (m ∷ rest) n h f = elim (Bool-cases (m.id == x)) [
  | inl e ↦ subst P (ap (from_some m) (rw e at f)) h.0
  | inr e ↦ find-All P x rest n h.1 (rw e at f)
]

abbrev pub HasOneParent : CausalNode → Type 0
HasOneParent n = length n.parents ≤ 1

-- At most one id waits, a parent of the node found last, and the chain so far is verified backwards.
record IsLinked (stack : List ℕ) (chain : List CausalNode) : Type 0 where
  short : length stack ≤ 1
  linked : All (Precedes (reverse chain)) stack
  verified : Verified (reverse chain)

linked-snoc :
    (n : CausalNode) (ns : List CausalNode) → Precedes ns n.id → Verified ns → Verified (n ∷ ns)
unfolding verify_from
linked-snoc n [] p v = refl
linked-snoc n (m ∷ ns) p v = rw p v

none_left : (P : ℕ → Type 0) (rest : List ℕ) → length rest ≤ 0 → All P rest
none_left P [] h = tt
none_left P (x ∷ rest) h = ground (arith, h)

found-IsLinked :
    (n : CausalNode) (visited : List ℕ) (x : ℕ) (rest : List ℕ) (chain : List CausalNode)
    → HasOneParent n
    → n.id ≡ x
    → IsLinked (x ∷ rest) chain
    → IsLinked (push_parents (x ∷ visited) n.parents rest) (snoc chain n)
found-IsLinked n visited x rest chain h same o =
    let P = Precedes (reverse (snoc chain n)) in
    let back = reverse-snoc chain n in
    record {
      short = omega (arith, o.short, push_parents-length (x ∷ visited) n.parents rest);
      linked =
          push_parents-All P (x ∷ visited) n.parents rest
            (All-member P n.parents (λ p m. subst (λ ns. Precedes ns p) (sym back) m))
            (none_left P rest (omega (arith, o.short)));
      verified = subst Verified (sym back) (
          linked-snoc n (reverse chain) (subst (Precedes (reverse chain)) (sym same) o.linked.0)
            o.verified);
    }

visit-IsLinked :
    (nodes : Nodes) (x : ℕ) (s : Search) (rest : List ℕ)
    → All HasOneParent nodes
    → IsLinked (x ∷ rest) s.chain
    → let t = visit nodes x (record s { stack = rest }) in IsLinked t.stack t.chain
unfolding visit
visit-IsLinked nodes x s rest h o =
    let popped : IsLinked rest s.chain = record {
      short = omega (arith, o.short);
      linked = o.linked.1;
      verified = o.verified;
    } in
    elim (Bool-cases (member x s.visited)) [
      | inl seen ↦ rw seen popped
      | inr fresh ↦ elim (Option-cases (find x nodes)) [
        | inl gone ↦ rw (fresh, gone) popped
        | inr (n, there) ↦
            rw (fresh, there)
              (found-IsLinked n s.visited x rest s.chain (find-All HasOneParent x nodes n h there)
                (find-id x nodes n there) o)
      ]
    ]

search_loop-Verified :
    (nodes : Nodes) (fuel : ℕ) (s : Search) (chain : List CausalNode)
    → All HasOneParent nodes
    → IsLinked s.stack s.chain
    → search_loop nodes fuel s ≡ some chain
    → Verified (reverse chain)
unfolding search_loop
search_loop-Verified nodes zero s chain h o e = ground (arith, e)
search_loop-Verified nodes (suc fuel) s chain h o e = elim (List-cases s.stack) [
  | inl empty ↦
      subst (λ c. Verified (reverse c)) (ap (from_some []) (rw (search_loop, empty) at e))
        o.verified
  | inr (x, rest, there) ↦
      search_loop-Verified nodes fuel (visit nodes x (record s { stack = rest })) chain h
        (visit-IsLinked nodes x s rest h (subst (λ st. IsLinked st s.chain) there o))
        (rw (search_loop, there) at e)
]

verify_chain-Verified :
    (ns : List CausalNode) (x : ℕ)
    → tally (λ n. n.id == x) ns ≡ 1
    → Verified ns
    → verify_chain ns ≡ true
unfolding verify_chain
verify_chain-Verified [] x once v = ground (arith, once)
verify_chain-Verified (n ∷ ns) x once v = v

-- Where every node has at most one parent, what the search returns for a stored decision passes
-- verifyChain: it begins with the oldest cause, and each node is the next one's parent.
pub linear_trace_verifies :
    (decision : ℕ) (nodes : Nodes) (n : CausalNode)
    → All HasOneParent nodes
    → find decision nodes ≡ some n
    → (chain : List CausalNode) × ((trace_decision decision nodes ≡ some chain)
        × (verify_chain chain ≡ true))
unfolding reverse
linear_trace_verifies decision nodes n h there =
    let (chain, ends) = search-ends decision nodes in
    let traced = trace_stored decision nodes n chain there ends in
    let (same, found) = trace_decision_complete decision decision nodes n itself there in
    let one =
      subst (λ c. tally (λ k. k.id == decision) c ≡ 1) (ap (from_some []) (sym found.0 ∙ traced))
        found.1 in
    let first : IsLinked (decision ∷ []) [] = record {
      short = omega arith;
      linked = (tt, tt);
      verified = tt;
    } in
    (
      reverse chain,
      (
        traced,
        verify_chain-Verified (reverse chain) decision one (
            search_loop-Verified nodes (total_parents nodes + 2) (first_search decision) chain h
              first ends),
      ),
    )
