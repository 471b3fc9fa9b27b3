-- ===== src/Runtime/Causal/Exact.antt =====
-- What the search of server/runtime/causal_chain_tracker.cpp keeps from round to round.
use rfidsystem.Prelude.{
  from_some, ℕ, zero, suc, ◌+◌, ◌==◌, ◌≡◌, refl, sym, ap, subst, ◌∙◌, inl, inr, true, false, ◌&&◌,
  ◌||◌, none, some, List, [], ◌∷◌, arith, snoc, All, tally, tally-snoc, if◌then◌else◌, Bool-cases,
  Option-cases, ==_iff,
}
use rfidsystem.Runtime.Causal.{
  CausalNode, Nodes, find, member, push_parents, Search, visit, search_loop, first_search,
  total_parents, is_stored,
}
use rfidsystem.Runtime.Causal.Stack.{
  push_parents-pushes, push_parents-All, All-member, All-snoc, is_stored-none, is_stored-some,
  is_stored-some, pop_seen, pop_new, keep_rest, parents_in,
}
use rfidsystem.Runtime.Causal.Ends.{List-cases, find-id}

-- What led to a decision: itself, and the parents of what led to it.
pub data Led (nodes : Nodes) (decision : ℕ) : ℕ → Type 0 where
  itself : Led nodes decision decision
  parent :
      (x p : ℕ) (n : CausalNode)
      → Led nodes decision x
      → find x nodes ≡ some n
      → member p n.parents ≡ true
      → Led nodes decision p

module _ (nodes : Nodes) (decision : ℕ) where
  abbrev pub IsCause : CausalNode → Type 0
  IsCause n = Led nodes decision n.id × (find n.id nodes ≡ some n)

  -- Every stored node that was visited is in the chain once, and its parents were visited or are on the
  -- stack.
  pub record IsOpen (visited stack : List ℕ) (chain : List CausalNode) : Type 0 where
    pub counted :
        (x : ℕ)
        → tally (λ n. n.id == x) chain ≡ (if member x visited && is_stored nodes x then 1 else 0)
    pub sound : All IsCause chain
    led : All (Led nodes decision) stack
    closed :
        (x p : ℕ) (n : CausalNode)
        → member x visited ≡ true
        → find x nodes ≡ some n
        → member p n.parents ≡ true
        → (member p visited || member p stack) ≡ true
    started : (member decision visited || member decision stack) ≡ true

  skip-IsOpen :
      (x : ℕ) (visited rest : List ℕ) (chain : List CausalNode)
      → member x visited ≡ true
      → IsOpen visited (x ∷ rest) chain
      → IsOpen visited rest chain
  skip-IsOpen x visited rest chain seen o = record {
    counted = o.counted;
    sound = o.sound;
    led = o.led.1;
    closed = λ y p n v f m. pop_seen visited rest x p seen (o.closed y p n v f m);
    started = pop_seen visited rest x decision seen o.started;
  }

  missing-IsOpen :
      (x : ℕ) (visited rest : List ℕ) (chain : List CausalNode)
      → find x nodes ≡ none
      → IsOpen visited (x ∷ rest) chain
      → IsOpen (x ∷ visited) rest chain
  unfolding is_stored
  missing-IsOpen x visited rest chain gone o = record {
    counted = λ y. elim (Bool-cases (x == y)) [
      | inl e ↦
          let none_there : find y nodes ≡ none = rw⁻¹ ((==_iff x y).0 e) gone in
          let lost = is_stored-none nodes y none_there in
          let before = rw lost at (o.counted y) in rw lost (ground (arith, before))
      | inr e ↦ rw e (o.counted y)
    ];
    sound = o.sound;
    led = o.led.1;
    closed = λ y p n v f m. elim (Bool-cases (x == y)) [
      | inl e ↦
          let none_there : find y nodes ≡ none = rw⁻¹ ((==_iff x y).0 e) gone in
          ground (arith, sym none_there ∙ f)
      | inr e ↦ pop_new visited rest x p (o.closed y p n (rw e at v) f m)
    ];
    started = pop_new visited rest x decision o.started;
  }

  found-IsOpen :
      (x : ℕ) (n : CausalNode) (visited rest : List ℕ) (chain : List CausalNode)
      → member x visited ≡ false
      → find x nodes ≡ some n
      → IsOpen visited (x ∷ rest) chain
      → IsOpen (x ∷ visited) (push_parents (x ∷ visited) n.parents rest) (snoc chain n)
  unfolding is_stored
  found-IsOpen x n visited rest chain fresh there o = record {
    counted = λ y. elim (Bool-cases (x == y)) [
      | inl e ↦
          let unseen : member y visited ≡ false = rw⁻¹ ((==_iff x y).0 e) fresh in
          let found : find y nodes ≡ some n = rw⁻¹ ((==_iff x y).0 e) there in
          let before : tally (λ k. k.id == y) chain ≡ 0 = o.counted y ∙ rw unseen refl in
          let named : (n.id == y) ≡ true = rw (find-id x nodes n there) e in
          rw (tally-snoc (λ k. k.id == y) chain n, before, named, e, is_stored-some nodes y n found)
            refl
      | inr e ↦
          let named : (n.id == y) ≡ false = rw (find-id x nodes n there) e in
          rw (tally-snoc (λ k. k.id == y) chain n, named, e) (omega (arith, o.counted y))
    ];
    sound = All-snoc IsCause chain n o.sound (
      subst (Led nodes decision) (sym (find-id x nodes n there)) o.led.0,
      subst (λ y. find y nodes ≡ some n) (sym (find-id x nodes n there)) there,
    );
    led =
        push_parents-All (Led nodes decision) (x ∷ visited) n.parents rest
          (All-member (Led nodes decision) n.parents (λ p m. parent x p n o.led.0 there m)) o.led.1;
    closed = λ y p k v f m. elim (Bool-cases (x == y)) [
      | inl e ↦
          let found : find y nodes ≡ some n = rw⁻¹ ((==_iff x y).0 e) there in
          let pushed : member p n.parents ≡ true = rw (ap parents_in (sym found ∙ f)) m in
          elim (Bool-cases (member p (x ∷ visited))) [
            | inl seen ↦ rw seen refl
            | inr unseen ↦
                rw (unseen, push_parents-pushes (x ∷ visited) n.parents rest p pushed unseen) refl
          ]
      | inr e ↦
          keep_rest (x ∷ visited) n.parents rest p
            (pop_new visited rest x p (o.closed y p k (rw e at v) f m))
    ];
    started =
        keep_rest (x ∷ visited) n.parents rest decision (pop_new visited rest x decision o.started);
  }

  visit-IsOpen :
      (x : ℕ) (s : Search) (rest : List ℕ)
      → IsOpen s.visited (x ∷ rest) s.chain
      → let t = visit nodes x (record s { stack = rest }) in IsOpen t.visited t.stack t.chain
  unfolding visit
  visit-IsOpen x s rest o = elim (Bool-cases (member x s.visited)) [
    | inl seen ↦ rw seen (skip-IsOpen x s.visited rest s.chain seen o)
    | inr fresh ↦ elim (Option-cases (find x nodes)) [
      | inl gone ↦ rw (fresh, gone) (missing-IsOpen x s.visited rest s.chain gone o)
      | inr (n, there) ↦ rw (fresh, there) (found-IsOpen x n s.visited rest s.chain fresh there o)
    ]
  ]

  -- The search ends with what it visited, and nothing left on the stack.
  search_loop-IsOpen :
      (fuel : ℕ) (s : Search) (chain : List CausalNode)
      → IsOpen s.visited s.stack s.chain
      → search_loop nodes fuel s ≡ some chain
      → (visited : List ℕ) × IsOpen visited [] chain
  unfolding search_loop
  search_loop-IsOpen zero s chain o h = ground (arith, h)
  search_loop-IsOpen (suc fuel) s chain o h = elim (List-cases s.stack) [
    | inl empty ↦
        let same = ap (from_some []) (rw (search_loop, empty) at h) in
        (
          s.visited,
          subst (IsOpen s.visited []) same (subst (λ st. IsOpen s.visited st s.chain) empty o),
        )
    | inr (x, rest, e) ↦
        search_loop-IsOpen fuel (visit nodes x (record s { stack = rest })) chain
          (visit-IsOpen x s rest (subst (λ st. IsOpen s.visited st s.chain) e o))
          (rw (search_loop, e) at h)
  ]

  first-IsOpen : IsOpen [] (decision ∷ []) []
  first-IsOpen = record {
    counted = λ x. refl;
    sound = tt;
    led = (itself, tt);
    closed = λ x p n v f m. ground (arith, v);
    started = ground arith;
  }

  -- When nothing is left on the stack, all that led to the decision was visited.
  pub all_visited :
      (visited : List ℕ) (chain : List CausalNode) (x : ℕ)
      → IsOpen visited [] chain
      → Led nodes decision x
      → member x visited ≡ true
  all_visited visited chain x o itself = ground (arith, o.started)
  all_visited visited chain _ o (parent x p n l f m) =
      ground (arith, o.closed x _ n (all_visited visited chain x o l) f m)

  pub search-found :
      (chain : List CausalNode)
      → search_loop nodes (total_parents nodes + 2) (first_search decision) ≡ some chain
      → (visited : List ℕ) × IsOpen visited [] chain
  search-found chain h =
      search_loop-IsOpen (total_parents nodes + 2) (first_search decision) chain first-IsOpen h
