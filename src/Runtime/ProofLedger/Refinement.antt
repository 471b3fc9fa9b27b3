-- ===== src/Runtime/ProofLedger/Refinement.antt =====
-- The ledger of server/runtime/proof_ledger.cpp refines a map from frames to records.
use rfidsystem.Prelude.{
  ℕ, ◌==◌, ◌≡◌, refl, ap, ◌∙◌, ◌≢◌, ◌⊎◌, inl, inr, Bool, false, Option, none, some, List, [], ◌∷◌,
  arith, if◌then◌else◌,
}
use rfidsystem.Runtime.ProofLedger.{
  ProofRecord, find_from, first, replace_first, insert_sorted, append, verify_frame, query,
}
use rfidsystem.Runtime.ProofLedger.Order.{
  IsOrdered, sort-ordered, sort-snoc, insert-IsOrdered, replace-IsOrdered,
}

-- The record of a frame.
abbrev pub lookup : ℕ → List ProofRecord → Option ProofRecord
lookup f rs = first (find_from f rs)

lookup-insert :
    (f : ℕ) (new : ProofRecord) (rs : List ProofRecord)
    → find_from new.frame_id rs ≡ []
    → lookup f (insert_sorted new rs) ≡ (if new.frame_id == f then some new else lookup f rs)
unfolding find_from insert_sorted
lookup-insert f new [] n = ground arith
lookup-insert f new (r ∷ rs) n = ground (arith, lookup-insert f new rs)

lookup-replace :
    (f : ℕ) (new : ProofRecord) (rs : List ProofRecord)
    → find_from new.frame_id rs ≢ []
    → lookup f (replace_first new rs) ≡ (if new.frame_id == f then some new else lookup f rs)
unfolding find_from replace_first
lookup-replace f new [] n = absurd (n refl)
lookup-replace f new (r ∷ rs) n = ground (arith, lookup-replace f new rs)

List-cases {ℓ} : {A : Type ℓ} (xs : List A) → (xs ≡ []) ⊎ ((x : A) × (r : List A) × (xs ≡ x ∷ r))
List-cases [] = inl refl
List-cases (x ∷ r) = inr (x, r, refl)

append-parts :
    (f : ℕ) (new : ProofRecord) (rs : List ProofRecord)
    → IsOrdered rs
    → IsOrdered (append new rs)
      × (lookup f (append new rs) ≡ (if new.frame_id == f then some new else lookup f rs))
unfolding append
append-parts f new rs o = elim (List-cases (find_from new.frame_id rs)) [
  | inl missing ↦
      rw (missing, append)
        (rw (sort-snoc rs new o missing)
          (insert-IsOrdered new rs o missing, lookup-insert f new rs missing))
  | inr (r, rest, found) ↦
      rw (found, append)
        (rw (sort-ordered (replace_first new rs) (replace-IsOrdered new rs o))
          (replace-IsOrdered new rs o, lookup-replace f new rs (λ e. cc)))
]

-- The ledger after appending a list of records, the first one first.
unfoldable pub append_all : List ProofRecord → List ProofRecord → List ProofRecord
append_all rs [] = rs
append_all rs (new ∷ more) = append_all (append new rs) more

-- The last record of a frame in a list, or the given one.
pub latest : ℕ → Option ProofRecord → List ProofRecord → Option ProofRecord
latest f old [] = old
latest f old (new ∷ more) = latest f (if new.frame_id == f then some new else old) more

append_all-refines :
    (f : ℕ) (rs more : List ProofRecord)
    → IsOrdered rs
    → IsOrdered (append_all rs more) × (lookup f (append_all rs more) ≡ latest f (lookup f rs) more)
unfolding append_all latest
append_all-refines f rs [] o = (o, refl)
append_all-refines f rs (new ∷ more) o =
    let (o', found) = append-parts f new rs o in
    let (ordered, agrees) = append_all-refines f (append new rs) more o' in
    (ordered, agrees ∙ ap (λ old. latest f old more) found)

-- The list that `query` returns for a record, if there is one.
abbrev pub to_list : Option ProofRecord → List ProofRecord
to_list none = []
to_list (some r) = r ∷ []

abbrev pub is_verified : Option ProofRecord → Bool
is_verified none = false
is_verified (some r) = r.verified

query-lookup : (f : ℕ) (rs : List ProofRecord) → query f rs ≡ to_list (lookup f rs)
unfolding query
query-lookup f rs = elim (List-cases (find_from f rs)) [
  | inl missing ↦ rw (missing, query)
  | inr (r, rest, found) ↦ rw (found, query)
]

verify_frame-lookup :
    (f : ℕ) (rs : List ProofRecord) → verify_frame f rs ≡ is_verified (lookup f rs)
unfolding verify_frame
verify_frame-lookup f rs = elim (List-cases (find_from f rs)) [
  | inl missing ↦ rw (missing, verify_frame)
  | inr (r, rest, found) ↦ rw (found, verify_frame)
]

-- After any sequence of `append`s to an empty ledger the records rise strictly by frame, and for every
-- frame `query` returns just the record of that frame that was appended last, or nothing if none was;
-- `verifyFrame` returns that record's flag, and false if there is none.
pub ledger_refines_map :
    (f : ℕ) (history : List ProofRecord)
    → IsOrdered (append_all [] history)
      × (query f (append_all [] history) ≡ to_list (latest f none history))
      × (verify_frame f (append_all [] history) ≡ is_verified (latest f none history))
unfolding find_from
ledger_refines_map f history =
    let (ordered, agrees) = append_all-refines f [] history tt in
    (
      ordered,
      query-lookup f (append_all [] history) ∙ ap to_list agrees,
      verify_frame-lookup f (append_all [] history) ∙ ap is_verified agrees,
    )
