-- ===== src/Runtime/FrameLocking/Bindings.antt =====
-- What binding and releasing do to each frame in server/runtime/ai_frame_locking.cpp.
use rfidsystem.Prelude.{
  ℕ, ◌==◌, ◌≡◌, refl, ap, ◌∙◌, ◌≢◌, inl, inr, Bool, true, false, not, Option, none, some, List, [],
  ◌∷◌, arith, keep, if◌then◌else◌, Bool-cases,
}
use rfidsystem.Runtime.FrameLocking.{
  Floats, AiFrameBinding, FrameLock, AiFrameLocking, new_binding, find_lock, bind_lock, bind_first,
  bind_ai_result, is_frame_locked, get_binding, release_frame_lock,
}

-- Whether a search found a lock.
abbrev found : {F : Type 0} → Option (FrameLock F) → Bool
found none = false
found (some l) = true

bind_first-found :
    (fl : Floats) (frame result now wall : ℕ) (ls : List (FrameLock fl.F))
    → (bind_first fl frame result now wall ls).1 ≡ found (find_lock frame ls)
unfolding bind_first find_lock
bind_first-found fl frame result now wall [] = refl
bind_first-found fl frame result now wall (l ∷ ls) =
    ground (arith, bind_first-found fl frame result now wall ls)

find-bind_other :
    (fl : Floats) (frame other result now wall : ℕ) (ls : List (FrameLock fl.F))
    → other ≢ frame
    → find_lock other (bind_first fl frame result now wall ls).0 ≡ find_lock other ls
unfolding bind_first find_lock bind_lock
find-bind_other fl frame other result now wall [] h = refl
find-bind_other fl frame other result now wall (l ∷ ls) h =
    ground (arith, find-bind_other fl frame other result now wall ls h)

-- A frame's lock is bound to a result.
abbrev pub Bound : {F : Type 0} → ℕ → ℕ → Option (FrameLock F) → Type 0
Bound result wall none = Unit
Bound result wall (some l) =
    (l.binding.is_bound ≡ true) × (l.binding.ai_result_id ≡ result) × (l.binding.timestamp ≡ wall)

find-bind_first :
    (fl : Floats) (frame result now wall : ℕ) (ls : List (FrameLock fl.F))
    → Bound result wall (find_lock frame (bind_first fl frame result now wall ls).0)
unfolding bind_first find_lock bind_lock
find-bind_first fl frame result now wall [] = tt
find-bind_first fl frame result now wall (l ∷ ls) = elim (Bool-cases (l.frame_id == frame)) [
  | inl here ↦ rw (here, here) (refl, refl, refl)
  | inr there ↦ rw (there, there) (find-bind_first fl frame result now wall ls)
]

-- The binding that is got for what a search found.
abbrev binding_of : (fl : Floats) → Option (FrameLock fl.F) → AiFrameBinding fl.F
binding_of fl none = new_binding fl
binding_of fl (some l) = l.binding

Bound-told :
    (fl : Floats) (result wall : ℕ) (o : Option (FrameLock fl.F))
    → Bound result wall o
    → ((binding_of fl o).is_bound ≡ found o)
      × ((binding_of fl o).ai_result_id ≡ (if found o then result else 0))
unfolding new_binding
Bound-told fl result wall none h = (refl, refl)
Bound-told fl result wall (some l) h = (h.0, h.1)

found-bind_first :
    (fl : Floats) (frame result now wall : ℕ) (ls : List (FrameLock fl.F))
    → found (find_lock frame (bind_first fl frame result now wall ls).0)
      ≡ found (find_lock frame ls)
unfolding bind_first find_lock bind_lock
found-bind_first fl frame result now wall [] = refl
found-bind_first fl frame result now wall (l ∷ ls) =
    ground (arith, found-bind_first fl frame result now wall ls)

locked_found :
    {F : Type 0} (frame : ℕ) (a : AiFrameLocking F)
    → is_frame_locked frame a ≡ found (find_lock frame a.locks)
unfolding is_frame_locked
locked_found frame a = ground arith

got_found :
    (fl : Floats) (frame : ℕ) (a : AiFrameLocking fl.F)
    → get_binding fl frame a ≡ binding_of fl (find_lock frame a.locks)
unfolding get_binding
got_found fl frame a = ground arith

find-keep :
    {F : Type 0} (frame other : ℕ) (ls : List (FrameLock F))
    → other ≢ frame
    → find_lock other (keep (λ l. not (l.frame_id == frame)) ls) ≡ find_lock other ls
unfolding find_lock
find-keep frame other [] h = refl
find-keep frame other (l ∷ ls) h = ground (arith, find-keep frame other ls h)

find-keep_same :
    {F : Type 0} (frame : ℕ) (ls : List (FrameLock F))
    → found (find_lock frame (keep (λ l. not (l.frame_id == frame)) ls)) ≡ false
unfolding find_lock
find-keep_same frame [] = refl
find-keep_same frame (l ∷ ls) = ground (arith, find-keep_same frame ls)

-- `bindAIResult` returns whether the frame is locked. Afterwards the binding got for the frame is bound
-- exactly when it is locked, then has the result, and otherwise none; and any other frame's binding is
-- what it was.
pub bind_settles :
    (fl : Floats) (frame other result now wall : ℕ) (a : AiFrameLocking fl.F)
    → other ≢ frame
    → let r = bind_ai_result fl frame result now wall a in
      (r.1 ≡ is_frame_locked frame a)
      × ((get_binding fl frame r.0).is_bound ≡ is_frame_locked frame a)
      × ((get_binding fl frame r.0).ai_result_id ≡ (if is_frame_locked frame a then result else 0))
      × (get_binding fl other r.0 ≡ get_binding fl other a)
unfolding bind_ai_result
bind_settles fl frame other result now wall a h =
    let r = bind_ai_result fl frame result now wall a in
    let told =
      Bound-told fl result wall (find_lock frame (bind_first fl frame result now wall a.locks).0)
        (find-bind_first fl frame result now wall a.locks) in
    let same = found-bind_first fl frame result now wall a.locks in
    rw (locked_found frame a, got_found fl frame r.0, got_found fl other r.0, got_found fl other a)
      (
        bind_first-found fl frame result now wall a.locks,
        told.0 ∙ same,
        told.1 ∙ ap (λ b. if b then result else 0) same,
        ap (binding_of fl) (find-bind_other fl frame other result now wall a.locks h),
      )

-- After `releaseFrameLock` the frame is not locked, however often it had been acquired, and whether
-- any other frame is locked, and its binding, are what they were.
pub release_settles :
    (fl : Floats) (frame other : ℕ) (a : AiFrameLocking fl.F)
    → other ≢ frame
    → let b = release_frame_lock frame a in
      (is_frame_locked frame b ≡ false)
      × (is_frame_locked other b ≡ is_frame_locked other a)
      × (get_binding fl other b ≡ get_binding fl other a)
unfolding release_frame_lock
release_settles fl frame other a h =
    let b = release_frame_lock frame a in
    let same = find-keep frame other a.locks h in
    rw
      (
        locked_found frame b,
        locked_found other b,
        locked_found other a,
        got_found fl other b,
        got_found fl other a,
      )
      (find-keep_same frame a.locks, ap found same, ap (binding_of fl) same)
