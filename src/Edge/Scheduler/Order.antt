-- ===== src/Edge/Scheduler/Order.antt =====
-- The order of the tasks in edge_runtime/edge_scheduler.cpp.
use rfidsystem.Prelude.{
  ℕ, zero, suc, ◌≤◌, ◌<◌, ◌==◌, ◌≡◌, ap, subst, ◌⊎◌, inl, inr, true, false, some, List, [], ◌∷◌,
  arith, drop, take, All, Bool-cases, Option-cases, ==_iff, from_some,
}
use rfidsystem.Edge.Scheduler.{EdgeTask, before, insert, erase_first}

-- No task comes before one that stands earlier.
abbrev pub IsOrdered : List EdgeTask → Type 0
IsOrdered [] = Unit
IsOrdered (t ∷ ts) = All (λ u. before u t ≡ false) ts × IsOrdered ts

not_before : (t u v : EdgeTask) → before t u ≡ true → before v u ≡ false → before v t ≡ false
unfolding before
not_before t u v h k = ground (arith, h, k)

not_before_twice : (t u : EdgeTask) → before t u ≡ true → before u t ≡ false
unfolding before
not_before_twice t u h = ground (arith, h)

All-map {ℓ κ} :
    (P : EdgeTask → Type ℓ) (Q : EdgeTask → Type κ) (ts : List EdgeTask)
    → ((t : EdgeTask) → P t → Q t)
    → All P ts
    → All Q ts
All-map P Q [] f h = tt
All-map P Q (t ∷ ts) f h = (f t h.0, All-map P Q ts f h.1)

insert-All {ℓ} :
    (P : EdgeTask → Type ℓ) (t : EdgeTask) (ts : List EdgeTask)
    → P t
    → All P ts
    → All P (insert t ts)
unfolding insert
insert-All P t [] p h = (p, tt)
insert-All P t (u ∷ us) p h = elim (Bool-cases (before t u)) [
  | inl e ↦ rw e (p, h)
  | inr e ↦ rw e (h.0, insert-All P t us p h.1)
]

pub insert-IsOrdered : (t : EdgeTask) (ts : List EdgeTask) → IsOrdered ts → IsOrdered (insert t ts)
unfolding insert
insert-IsOrdered t [] h = (tt, tt)
insert-IsOrdered t (u ∷ us) h = elim (Bool-cases (before t u)) [
  | inl e ↦ rw e (
    (
      not_before_twice t u e,
      All-map (λ v. before v u ≡ false) (λ v. before v t ≡ false) us (λ v k. not_before t u v e k)
          h.0,
    ),
    h,
  )
  | inr e ↦ rw e (insert-All (λ v. before v u ≡ false) t us e h.0, insert-IsOrdered t us h.1)
]

erase_first-All {ℓ} :
    (P : EdgeTask → Type ℓ) (id : ℕ) (ts us : List EdgeTask)
    → erase_first id ts ≡ some us
    → All P ts
    → All P us
unfolding erase_first
erase_first-All P id [] us e h = ground (arith, e)
erase_first-All P id (t ∷ ts) us e h = elim (Bool-cases (t.task_id == id)) [
  | inl k ↦ subst (All P) (ap (from_some []) (rw k at e)) h.1
  | inr k ↦ elim (Option-cases (erase_first id ts)) [
    | inl gone ↦ ground (arith, rw (k, gone) at e)
    | inr (vs, there) ↦
        subst (All P) (ap (from_some []) (rw (k, there) at e))
          (h.0, erase_first-All P id ts vs there h.1)
  ]
]

pub erase_first-IsOrdered :
    (id : ℕ) (ts us : List EdgeTask) → erase_first id ts ≡ some us → IsOrdered ts → IsOrdered us
unfolding erase_first
erase_first-IsOrdered id [] us e h = ground (arith, e)
erase_first-IsOrdered id (t ∷ ts) us e h = elim (Bool-cases (t.task_id == id)) [
  | inl k ↦ subst IsOrdered (ap (from_some []) (rw k at e)) h.1
  | inr k ↦ elim (Option-cases (erase_first id ts)) [
    | inl gone ↦ ground (arith, rw (k, gone) at e)
    | inr (vs, there) ↦ subst IsOrdered (ap (from_some []) (rw (k, there) at e)) (
      erase_first-All (λ u. before u t ≡ false) id ts vs there h.0,
      erase_first-IsOrdered id ts vs there h.1,
    )
  ]
]

drop-All {ℓ} : (P : EdgeTask → Type ℓ) (n : ℕ) (ts : List EdgeTask) → All P ts → All P (drop n ts)
drop-All P zero ts h = h
drop-All P (suc n) [] h = tt
drop-All P (suc n) (t ∷ ts) h = drop-All P n ts h.1

pub drop-IsOrdered : (n : ℕ) (ts : List EdgeTask) → IsOrdered ts → IsOrdered (drop n ts)
drop-IsOrdered zero ts h = h
drop-IsOrdered (suc n) [] h = tt
drop-IsOrdered (suc n) (t ∷ ts) h = drop-IsOrdered n ts h.1

-- A task that a scheduler may leave behind another: of lower priority, or of the same and not of an
-- earlier deadline.
abbrev pub IsLessUrgent : EdgeTask → EdgeTask → Type 0
IsLessUrgent t u =
    (u.priority < t.priority) ⊎ ((u.priority ≡ t.priority) × (t.deadline_ms ≤ u.deadline_ms))

before-IsLessUrgent : (t u : EdgeTask) → before u t ≡ false → IsLessUrgent t u
unfolding before
before-IsLessUrgent t u h = elim (Bool-cases (u.priority == t.priority)) [
  | inl e ↦ inr ((==_iff u.priority t.priority).0 e, ground (arith, rw e at h))
  | inr e ↦ inl (ground (arith, e, rw e at h))
]

-- What is left behind the first tasks does not come before one of them.
pub take-IsUrgent :
    (n : ℕ) (ts : List EdgeTask)
    → IsOrdered ts
    → All (λ t. All (λ u. IsLessUrgent t u) (drop n ts)) (take n ts)
take-IsUrgent zero ts h = tt
take-IsUrgent (suc n) [] h = tt
take-IsUrgent (suc n) (t ∷ ts) h = (
  All-map (λ u. before u t ≡ false) (λ u. IsLessUrgent t u) (drop n ts)
      (λ u. before-IsLessUrgent t u) (drop-All (λ u. before u t ≡ false) n ts h.0),
  take-IsUrgent n ts h.1,
)
