-- ===== src/Runtime/ProofLedger/Order.antt =====
-- The order of the records of server/runtime/proof_ledger.cpp.
use rfidsystem.Prelude.{
  ℕ, ◌≤◌, ◌<◌, ◌==◌, leb, ◌≡◌, refl, ap, subst, ◌∙◌, ◌≢◌, inl, inr, List, [], ◌∷◌, arith, snoc, All,
  Bool-cases, leb→le, ==_iff,
}
use rfidsystem.Runtime.ProofLedger.{ProofRecord, find_from, replace_first, insert_sorted, sort}

abbrev pub Above : ℕ → List ProofRecord → Type 0
Above n rs = All (λ r. n < r.frame_id) rs

-- Frames rise strictly, so no frame has two records.
abbrev pub IsOrdered : List ProofRecord → Type 0
IsOrdered [] = Unit
IsOrdered (r ∷ rs) = Above r.frame_id rs × IsOrdered rs

Above-trans : (m n : ℕ) (rs : List ProofRecord) → m ≤ n → Above n rs → Above m rs
Above-trans m n [] h a = tt
Above-trans m n (r ∷ rs) h a = (omega arith, Above-trans m n rs h a.1)

insert-Above :
    (new : ProofRecord) (rs : List ProofRecord)
    → Above new.frame_id rs
    → insert_sorted new rs ≡ new ∷ rs
unfolding insert_sorted
insert-Above new [] a = refl
insert-Above new (r ∷ rs) a = ground arith

pub sort-ordered : (rs : List ProofRecord) → IsOrdered rs → sort rs ≡ rs
unfolding sort
sort-ordered [] o = refl
sort-ordered (r ∷ rs) o = rw (sort-ordered rs o.1) (insert-Above r rs o.0)

pub find-Above : (f : ℕ) (rs : List ProofRecord) → Above f rs → find_from f rs ≡ []
unfolding find_from
find-Above f [] a = refl
find-Above f (r ∷ rs) a = ground (arith, find-Above f rs a.1)

-- Inserting into an ordered list whose head is smaller commutes with the head.
insert_swap :
    (x new : ProofRecord) (rs : List ProofRecord)
    → Above x.frame_id rs
    → x.frame_id ≢ new.frame_id
    → insert_sorted x (insert_sorted new rs) ≡ insert_sorted new (x ∷ rs)
unfolding insert_sorted
insert_swap x new [] a n = ground arith
insert_swap x new (r ∷ rs) a n = ground (arith, insert-Above x rs)

pub sort-snoc :
    (rs : List ProofRecord) (new : ProofRecord)
    → IsOrdered rs
    → find_from new.frame_id rs ≡ []
    → sort (snoc rs new) ≡ insert_sorted new rs
unfolding sort find_from
sort-snoc [] new o n = refl
sort-snoc (x ∷ rs) new o n =
    ap (insert_sorted x) (sort-snoc rs new o.1 (ground arith))
    ∙ insert_swap x new rs o.0 (λ e. ground arith)

Above-insert :
    (n : ℕ) (new : ProofRecord) (rs : List ProofRecord)
    → n < new.frame_id
    → Above n rs
    → Above n (insert_sorted new rs)
unfolding insert_sorted
Above-insert n new [] h a = (h, tt)
Above-insert n new (r ∷ rs) h a = ground (arith, Above-insert n new rs h a.1)

pub insert-IsOrdered :
    (new : ProofRecord) (rs : List ProofRecord)
    → IsOrdered rs
    → find_from new.frame_id rs ≡ []
    → IsOrdered (insert_sorted new rs)
unfolding insert_sorted find_from
insert-IsOrdered new [] o n = (tt, tt)
insert-IsOrdered new (r ∷ rs) o n = elim (Bool-cases (leb new.frame_id r.frame_id)) [
  | inl before ↦
      rw before ((ground arith, Above-trans new.frame_id r.frame_id rs (leb→le _ _ before) o.0), o)
  | inr later ↦ rw later (
    Above-insert r.frame_id new rs (ground arith) o.0,
    insert-IsOrdered new rs o.1 (ground arith),
  )
]

Above-replace :
    (n : ℕ) (new : ProofRecord) (rs : List ProofRecord)
    → Above n rs
    → Above n (replace_first new rs)
unfolding replace_first
Above-replace n new [] a = tt
Above-replace n new (r ∷ rs) a = ground (arith, Above-replace n new rs a.1)

pub replace-IsOrdered :
    (new : ProofRecord) (rs : List ProofRecord) → IsOrdered rs → IsOrdered (replace_first new rs)
unfolding replace_first
replace-IsOrdered new [] o = tt
replace-IsOrdered new (r ∷ rs) o = elim (Bool-cases (r.frame_id == new.frame_id)) [
  | inl same ↦ rw same (subst (λ n. Above n rs) ((==_iff r.frame_id new.frame_id).0 same) o.0, o.1)
  | inr other ↦ rw other (Above-replace r.frame_id new rs o.0, replace-IsOrdered new rs o.1)
]
