-- ===== src/Runtime/ProofLedger/Chains.antt =====
-- What `verifyChain` of server/runtime/proof_ledger.cpp checks.
use rfidsystem.Prelude.{
  ℕ, ◌≤◌, ◌<◌, ◌==◌, ltb, leb, ◌≡◌, refl, ap, ◌∙◌, ◌≢◌, inl, inr, Bool, true, false, not, ◌&&◌,
  none, some, List, [], ◌∷◌, arith, any, if◌then◌else◌, Bool-cases,
}
use rfidsystem.Runtime.ProofLedger.{
  ProofRecord, find_from, verify_until, verify_chain, chain_between,
}
use rfidsystem.Runtime.ProofLedger.Order.{IsOrdered, Above}

-- A record in the half-open range of frames that is not verified.
abbrev pub gap : ℕ → ℕ → ProofRecord → Bool
gap from to r = leb from r.frame_id && (ltb r.frame_id to && not r.verified)

abbrev pub has : ℕ → ProofRecord → Bool
has f r = r.frame_id == f

any-Above :
    (from to n : ℕ) (rs : List ProofRecord) → to ≤ n → Above n rs → any (gap from to) rs ≡ false
any-Above from to n [] h a = refl
any-Above from to n (r ∷ rs) h a = ground (arith, any-Above from to n rs h a.1)

has-Above : (f n : ℕ) (rs : List ProofRecord) → f ≤ n → Above n rs → any (has f) rs ≡ false
has-Above f n [] h a = refl
has-Above f n (r ∷ rs) h a = ground (arith, has-Above f n rs h a.1)

until_range :
    (from to : ℕ) (rs : List ProofRecord)
    → IsOrdered rs
    → any (λ r. ltb r.frame_id from) rs ≡ false
    → any (has to) rs ≡ true
    → verify_until to rs ≡ some (not (any (gap from to) rs))
unfolding verify_until
until_range from to [] o lower h = cc
until_range from to (r ∷ rs) o lower h =
    ground (
      arith,
      any-Above from to r.frame_id rs,
      has-Above to r.frame_id rs,
      until_range from to rs o.1,
    )

-- Without the end in sight, the loop stops at a record that is not verified or runs off the end.
until_past :
    (to : ℕ) (rs : List ProofRecord)
    → any (has to) rs ≡ false
    → verify_until to rs ≡ (if any (λ r. not r.verified) rs then some false else none)
unfolding verify_until
until_past to [] h = refl
until_past to (r ∷ rs) h = ground (arith, until_past to rs)

low-Above :
    (f n : ℕ) (rs : List ProofRecord) → f ≤ n → Above n rs → any (λ r. ltb r.frame_id f) rs ≡ false
low-Above f n [] h a = refl
low-Above f n (r ∷ rs) h a = ground (arith, low-Above f n rs h a.1)

-- Dropping the smaller frames keeps the order, and every test that only larger frames pass.
record Reaches (from : ℕ) (rs s : List ProofRecord) : Type 0 where
  ordered : IsOrdered s
  lower : any (λ r. ltb r.frame_id from) s ≡ false
  same :
      (p : ProofRecord → Bool)
      → ((r : ProofRecord) → r.frame_id < from → p r ≡ false)
      → any p s ≡ any p rs

find-Reaches :
    (from : ℕ) (rs : List ProofRecord)
    → IsOrdered rs
    → any (has from) rs ≡ true
    → Reaches from rs (find_from from rs)
unfolding find_from
find-Reaches from [] o h = cc
find-Reaches from (r ∷ rs) o h = elim (Bool-cases (r.frame_id == from)) [
  | inl here ↦ rw here (record {
    ordered = o;
    lower = ground (arith, low-Above from r.frame_id rs);
    same = λ p below. refl;
  })
  | inr later ↦
      let found : any (has from) rs ≡ true = ground arith in
      let smaller : r.frame_id < from = ground (arith, has-Above from r.frame_id rs) in
      let inner = find-Reaches from rs o.1 found in
      rw later (record {
        ordered = inner.ordered;
        lower = inner.lower;
        same = λ p below. ground (arith, inner.same p below, below r smaller);
      })
]

has_none : (f : ℕ) (rs : List ProofRecord) → any (has f) rs ≡ false → find_from f rs ≡ []
unfolding find_from
has_none f [] h = refl
has_none f (r ∷ rs) h = ground (arith, has_none f rs)

has_some :
    (f : ℕ) (rs : List ProofRecord)
    → any (has f) rs ≡ true
    → (r : ProofRecord) × (rest : List ProofRecord) × (find_from f rs ≡ r ∷ rest)
unfolding find_from
has_some f [] h = cc
has_some f (r ∷ rs) h = elim (Bool-cases (r.frame_id == f)) [
  | inl here ↦ (r, rs, rw here)
  | inr later ↦ let (a, b, e) = has_some f rs (ground arith) in (a, b, rw later e)
]

between_found :
    (to : ℕ) (starts ends : List ProofRecord) (b : ProofRecord) (rest : List ProofRecord)
    → ends ≡ b ∷ rest
    → starts ≢ []
    → chain_between to starts ends ≡ verify_until to starts
unfolding chain_between
between_found to [] ends b rest e h = absurd (h refl)
between_found to (a ∷ after_a) ends b rest e h = rw e

chain_found :
    (from to : ℕ) (rs : List ProofRecord)
    → any (has from) rs ≡ true
    → any (has to) rs ≡ true
    → verify_chain from to rs ≡ verify_until to (find_from from rs)
unfolding verify_chain
chain_found from to rs h k =
    let (a, after_a, e) = has_some from rs h in
    let (b, after_b, d) = has_some to rs k in
    between_found to (find_from from rs) (find_from to rs) b after_b d (λ n. cc)

between_none : (to : ℕ) (starts : List ProofRecord) → chain_between to starts [] ≡ some false
unfolding chain_between
between_none to [] = refl
between_none to (a ∷ after_a) = refl

chain_missing :
    (from to : ℕ) (rs : List ProofRecord)
    → (any (has from) rs && any (has to) rs) ≡ false
    → verify_chain from to rs ≡ some false
unfolding verify_chain chain_between
chain_missing from to rs h = elim (Bool-cases (any (has from) rs)) [
  | inl found ↦ rw (has_none to rs (ground arith)) (between_none to (find_from from rs))
  | inr missing ↦ rw (has_none from rs missing)
]

-- On an ordered ledger and for a range that is not reversed, `verifyChain` steps past no end, and is
-- true exactly when both frames have records and every record from the first frame up to, but not
-- including, the last one is verified. The record of the last frame is not looked at.
pub verify_chain_range :
    (from to : ℕ) (rs : List ProofRecord)
    → IsOrdered rs
    → from ≤ to
    → verify_chain from to rs
      ≡ some ((any (has from) rs && any (has to) rs) && not (any (gap from to) rs))
verify_chain_range from to rs o h = elim (Bool-cases (any (has from) rs && any (has to) rs)) [
  | inl both ↦
      let k : any (has from) rs ≡ true = ground arith in
      let l : any (has to) rs ≡ true = ground arith in
      let s = find-Reaches from rs o k in
      let ends : any (has to) (find_from from rs) ≡ true =
        s.same (has to) (λ r b. ground arith) ∙ l in
      let gaps : any (gap from to) (find_from from rs) ≡ any (gap from to) rs =
        s.same (gap from to) (λ r b. ground arith) in
      rw both (
        chain_found from to rs k l
        ∙ until_range from to (find_from from rs) s.ordered s.lower ends
        ∙ ap (λ b. some (not b)) gaps)
  | inr some_missing ↦ rw some_missing (chain_missing from to rs some_missing)
]

-- For a reversed range whose frames both have records, the loop misses its end: `verifyChain` returns
-- false if some record from the first frame on is not verified, and else it steps past the end.
pub verify_chain_reversed :
    (from to : ℕ) (rs : List ProofRecord)
    → IsOrdered rs
    → to < from
    → any (has from) rs ≡ true
    → any (has to) rs ≡ true
    → verify_chain from to rs
      ≡ (if any (λ r. leb from r.frame_id && not r.verified) rs then some false else none)
verify_chain_reversed from to rs o h k l =
    let s = find-Reaches from rs o k in
    let beyond : any (has to) (find_from from rs) ≡ false =
      none_below (find_from from rs) s.lower in
    let bad : any (λ r. not r.verified) (find_from from rs)
        ≡ any (λ r. leb from r.frame_id && not r.verified) rs =
      bad_at_least (find_from from rs) s.lower ∙ s.same _ (λ r b. ground arith) in
    chain_found from to rs k l
    ∙ until_past to (find_from from rs) beyond
    ∙ ap (λ b. if b then some false else none) bad
  where
    none_below :
        (xs : List ProofRecord)
        → any (λ r. ltb r.frame_id from) xs ≡ false
        → any (has to) xs ≡ false
    none_below [] e = refl
    none_below (x ∷ xs) e = ground (arith, none_below xs)

    bad_at_least :
        (xs : List ProofRecord)
        → any (λ r. ltb r.frame_id from) xs ≡ false
        → any (λ r. not r.verified) xs ≡ any (λ r. leb from r.frame_id && not r.verified) xs
    bad_at_least [] e = refl
    bad_at_least (x ∷ xs) e = ground (arith, bad_at_least xs)
