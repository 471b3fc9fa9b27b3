-- ===== src/Runtime/Causal/Stack.antt =====
-- The parts of a round of the search of server/runtime/causal_chain_tracker.cpp.
use rfidsystem.Prelude.{
  ℕ, ◌==◌, ◌≡◌, refl, inl, inr, Bool, true, false, ◌||◌, Option, none, some, List, [], ◌∷◌, arith,
  snoc, All, tally, tally-snoc, if◌then◌else◌, Bool-cases, ==_iff,
}
use rfidsystem.Runtime.Causal.{CausalNode, Nodes, find, member, push_parents, reverse, is_stored}

pub push_parents-keeps :
    (visited ps stack : List ℕ) (x : ℕ)
    → member x stack ≡ true
    → member x (push_parents visited ps stack) ≡ true
unfolding push_parents
push_parents-keeps visited [] stack x h = h
push_parents-keeps visited (p ∷ ps) stack x h = elim (Bool-cases (member p visited)) [
  | inl e ↦ rw e (push_parents-keeps visited ps stack x h)
  | inr e ↦ rw e (push_parents-keeps visited ps (p ∷ stack) x (ground (arith, h)))
]

pub push_parents-pushes :
    (visited ps stack : List ℕ) (x : ℕ)
    → member x ps ≡ true
    → member x visited ≡ false
    → member x (push_parents visited ps stack) ≡ true
unfolding push_parents
push_parents-pushes visited [] stack x h fresh = ground (arith, h)
push_parents-pushes visited (p ∷ ps) stack x h fresh = elim (Bool-cases (p == x)) [
  | inl e ↦
      let same = (==_iff p x).0 e in
      let unseen : member p visited ≡ false = rw same fresh in
      rw unseen (push_parents-keeps visited ps (p ∷ stack) x (rw e refl))
  | inr e ↦
      push_parents-pushes visited ps (if member p visited then stack else p ∷ stack) x (rw e at h)
        fresh
]

pub push_parents-All {ℓ} :
    (P : ℕ → Type ℓ) (visited ps stack : List ℕ)
    → All P ps
    → All P stack
    → All P (push_parents visited ps stack)
unfolding push_parents
push_parents-All P visited [] stack h k = k
push_parents-All P visited (p ∷ ps) stack h k = elim (Bool-cases (member p visited)) [
  | inl e ↦ rw e (push_parents-All P visited ps stack h.1 k)
  | inr e ↦ rw e (push_parents-All P visited ps (p ∷ stack) h.1 (h.0, k))
]

pub All-member {ℓ} :
    (P : ℕ → Type ℓ) (xs : List ℕ) → ((x : ℕ) → member x xs ≡ true → P x) → All P xs
All-member P [] h = tt
All-member P (x ∷ xs) h = (h x (ground arith), All-member P xs (λ y m. h y (ground (arith, m))))

pub All-snoc {ℓ} :
    (P : CausalNode → Type ℓ) (ns : List CausalNode) (n : CausalNode)
    → All P ns
    → P n
    → All P (snoc ns n)
All-snoc P [] n h p = (p, tt)
All-snoc P (m ∷ ns) n h p = (h.0, All-snoc P ns n h.1 p)

pub reverse-All {ℓ} :
    (P : CausalNode → Type ℓ) (ns : List CausalNode) → All P ns → All P (reverse ns)
unfolding reverse
reverse-All P [] h = tt
reverse-All P (n ∷ ns) h = All-snoc P (reverse ns) n (reverse-All P ns h.1) h.0

pub reverse-tally :
    (q : CausalNode → Bool) (ns : List CausalNode) → tally q (reverse ns) ≡ tally q ns
unfolding reverse
reverse-tally q [] = refl
reverse-tally q (n ∷ ns) = omega (arith, tally-snoc q (reverse ns) n, reverse-tally q ns)

pub is_stored-none : (nodes : Nodes) (x : ℕ) → find x nodes ≡ none → is_stored nodes x ≡ false
unfolding is_stored
is_stored-none nodes x h = rw (is_stored, h) refl

pub is_stored-some :
    (nodes : Nodes) (x : ℕ) (n : CausalNode) → find x nodes ≡ some n → is_stored nodes x ≡ true
unfolding is_stored
is_stored-some nodes x n h = rw (is_stored, h) refl

pub pop_seen :
    (visited rest : List ℕ) (x p : ℕ)
    → member x visited ≡ true
    → (member p visited || member p (x ∷ rest)) ≡ true
    → (member p visited || member p rest) ≡ true
pop_seen visited rest x p seen h = elim (Bool-cases (x == p)) [
  | inl e ↦ rw⁻¹ ((==_iff x p).0 e) (rw seen refl)
  | inr e ↦ rw e at h
]

pub pop_new :
    (visited rest : List ℕ) (x p : ℕ)
    → (member p visited || member p (x ∷ rest)) ≡ true
    → (member p (x ∷ visited) || member p rest) ≡ true
pop_new visited rest x p h = ground (arith, h)

pub keep_rest :
    (visited ps rest : List ℕ) (x : ℕ)
    → (member x visited || member x rest) ≡ true
    → (member x visited || member x (push_parents visited ps rest)) ≡ true
keep_rest visited ps rest x h = elim (Bool-cases (member x visited)) [
  | inl e ↦ rw e refl
  | inr e ↦ rw (e, push_parents-keeps visited ps rest x (rw e at h)) refl
]

abbrev pub parents_in : Option CausalNode → List ℕ
parents_in none = []
parents_in (some n) = n.parents
