-- ===== src/Runtime/Causal/Ends.antt =====
-- The search of server/runtime/causal_chain_tracker.cpp ends.
use rfidsystem.Prelude.{
  ℕ, zero, suc, ◌+◌, ◌≤◌, ◌<◌, ◌==◌, ◌≡◌, refl, ap, ◌⊎◌, inl, inr, true, false, Option, none, some,
  List, [], ◌∷◌, arith, length, if◌then◌else◌, Bool-cases, Option-cases, ==_iff,
}
use rfidsystem.Runtime.Causal.{
  CausalNode, Nodes, find, member, push_parents, Search, visit, search_loop, total_parents,
}

pub List-cases {ℓ} :
    {A : Type ℓ} (xs : List A) → (xs ≡ []) ⊎ ((x : A) × (rest : List A) × (xs ≡ x ∷ rest))
List-cases [] = inl refl
List-cases (x ∷ xs) = inr (x, xs, refl)

-- The node found has the id.
pub find-id : (x : ℕ) (nodes : Nodes) (n : CausalNode) → find x nodes ≡ some n → n.id ≡ x
unfolding find
find-id x [] n h = ground arith
find-id x (m ∷ rest) n h = ground (arith, find-id x rest n)

pub push_parents-length :
    (visited ps stack : List ℕ) → length (push_parents visited ps stack) ≤ length ps + length stack
unfolding push_parents
push_parents-length visited [] stack = omega arith
push_parents-length visited (p ∷ ps) stack = elim (Bool-cases (member p visited)) [
  | inl e ↦ rw e (omega (arith, push_parents-length visited ps stack))
  | inr e ↦ rw e (omega (arith, push_parents-length visited ps (p ∷ stack)))
]

-- The parents of the nodes that were not visited.
unfoldable pub waiting : List ℕ → Nodes → ℕ
waiting visited [] = 0
waiting visited (n ∷ rest) =
    (if member n.id visited then 0 else length n.parents) + waiting visited rest

waiting-le :
    (visited : List ℕ) (x : ℕ) (nodes : Nodes) → waiting (x ∷ visited) nodes ≤ waiting visited nodes
unfolding waiting
waiting-le visited x [] = omega arith
waiting-le visited x (n ∷ rest) = ground (arith, waiting-le visited x rest)

-- How many parents a node that was found has.
abbrev parents_of : Option CausalNode → ℕ
parents_of none = 0
parents_of (some n) = length n.parents

waiting-found :
    (visited : List ℕ) (x : ℕ) (nodes : Nodes) (n : CausalNode)
    → member x visited ≡ false
    → find x nodes ≡ some n
    → waiting (x ∷ visited) nodes + length n.parents ≤ waiting visited nodes
unfolding waiting find
waiting-found visited x [] n fresh h = ground arith
waiting-found visited x (m ∷ rest) n fresh h = elim (Bool-cases (m.id == x)) [
  | inl e ↦
      let same = ap parents_of (rw e at h) in
      let id = (==_iff m.id x).0 e in
      let unseen : member m.id visited ≡ false = rw id fresh in
      let named : (x == m.id) ≡ true = ground arith in
      rw (unseen, named) (omega (arith, waiting-le visited x rest))
  | inr e ↦ ground (arith, waiting-found visited x rest n fresh (rw e at h))
]

pub waiting-none : (nodes : Nodes) → waiting [] nodes ≡ total_parents nodes
unfolding waiting total_parents
waiting-none [] = refl
waiting-none (n ∷ rest) = omega (arith, waiting-none rest)

abbrev pub work : Nodes → Search → ℕ
work nodes s = length s.stack + waiting s.visited nodes

visit-work : (nodes : Nodes) (x : ℕ) (s : Search) → work nodes (visit nodes x s) ≤ work nodes s
unfolding visit
visit-work nodes x s = elim (Bool-cases (member x s.visited)) [
  | inl e ↦ rw e (omega arith)
  | inr e ↦ elim (Option-cases (find x nodes)) [
    | inl gone ↦ rw (e, gone) (omega (arith, waiting-le s.visited x nodes))
    | inr (n, there) ↦
        rw (e, there)
          (omega (
            arith,
            push_parents-length (x ∷ s.visited) n.parents s.stack,
            waiting-found s.visited x nodes n e there,
          ))
  ]
]

pub search_loop-ends :
    (nodes : Nodes) (fuel : ℕ) (s : Search)
    → work nodes s < fuel
    → (chain : List CausalNode) × (search_loop nodes fuel s ≡ some chain)
unfolding search_loop
search_loop-ends nodes zero s h = ground arith
search_loop-ends nodes (suc fuel) s h = elim (List-cases s.stack) [
  | inl empty ↦ (s.chain, rw (search_loop, empty) refl)
  | inr (x, rest, e) ↦
      let popped = record s { stack = rest } in
      let (chain, ends) =
        search_loop-ends nodes fuel (visit nodes x popped)
          (omega (arith, visit-work nodes x popped, ap length e)) in
      (chain, rw (search_loop, e) ends)
]
