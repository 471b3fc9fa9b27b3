-- ===== src/Runtime/FailureBus/Alarm.antt =====
-- The critical flag of server/runtime/runtime_failure_bus.cpp.
use rfidsystem.Prelude.{
  ℕ, ◌≡◌, refl, sym, ap, map, if◌then◌else◌, Bool, true, false, not, ◌&&◌, List, [], ◌∷◌, arith,
  drop, keep, any, any-snoc, any-keep,
}
use rfidsystem.Runtime.FailureBus.{
  FailureType, FailureEvent, RuntimeFailureBus, make_room, get_unacknowledged, publish, named,
  mark_acknowledged, alarming, acknowledge,
}

module _ {Double : Type 0} (critical : Double → Bool) where
  any_of_drop_one :
      (p : FailureEvent Double → Bool) (xs : List (FailureEvent Double))
      → any p (drop 1 xs) ≡ true
      → any p xs ≡ true
  any_of_drop_one p [] h = h
  any_of_drop_one p (x ∷ xs) h = ground arith

  any_of_make_room :
      (p : FailureEvent Double → Bool) (xs : List (FailureEvent Double))
      → any p (make_room xs) ≡ true
      → any p xs ≡ true
  unfolding make_room
  any_of_make_room p xs h = ground (arith, any_of_drop_one p xs)

  -- What is unacknowledged and critical in the window is announced by the flag.
  abbrev pub IsAnnounced : RuntimeFailureBus Double → Type 0
  IsAnnounced b = any (alarming critical) b.recent_failures ≡ true → b.has_critical ≡ true

  pub publish-IsAnnounced :
      (e : FailureEvent Double) (now : ℕ) (b : RuntimeFailureBus Double)
      → IsAnnounced b
      → IsAnnounced (publish critical e now b).0
  unfolding publish
  publish-IsAnnounced e now b h = λ a. ground (
    arith,
    any-snoc (alarming critical) (make_room b.recent_failures) (record e { timestamp = now }),
    any_of_make_room (alarming critical) b.recent_failures,
  )

module _ {Double : Type 0} (test : FailureEvent Double → Bool) where
  all_acknowledged :
      ((e : FailureEvent Double) → test (record e { acknowledged = true }) ≡ test e)
      → (es : List (FailureEvent Double))
      → any (λ e. not e.acknowledged && test e) (mark_acknowledged test es) ≡ false
  unfolding mark_acknowledged
  all_acknowledged same [] = refl
  all_acknowledged same (e ∷ es) = ground (arith, all_acknowledged same es)

  others_kept :
      ((e : FailureEvent Double) → test (record e { acknowledged = true }) ≡ test e)
      → (es : List (FailureEvent Double))
      → keep (λ e. not (test e)) (mark_acknowledged test es) ≡ keep (λ e. not (test e)) es
  unfolding mark_acknowledged
  others_kept same [] = refl
  others_kept same (e ∷ es) = ground (arith, same e, others_kept same es)

  -- Each event of the list in its place, acknowledged where the test holds.
  abbrev pub marked : List (FailureEvent Double) → List (FailureEvent Double)
  marked es = map (λ e. if test e then record e { acknowledged = true } else e) es

  marked_in_place : (es : List (FailureEvent Double)) → mark_acknowledged test es ≡ marked es
  unfolding mark_acknowledged
  marked_in_place [] = refl
  marked_in_place (e ∷ es) =
      ap (λ l. (if test e then record e { acknowledged = true } else e) ∷ l) (marked_in_place es)

named_same :
    {Double : Type 0} (t : FailureType) (frame : ℕ) (e : FailureEvent Double)
    → named t frame (record e { acknowledged = true }) ≡ named t frame e
unfolding named
named_same t frame e = refl

module _ {Double : Type 0} (critical : Double → Bool) where
  -- `acknowledge` leaves each event of the window in its place, the ones of the named type and frame
  -- with their acknowledged mark set and all else of them kept; then no event of that type and frame is
  -- unacknowledged, every other event is as it was and in the same order, and the flag is set exactly
  -- when an unacknowledged critical failure is left in the window.
  pub acknowledge_settles :
      (t : FailureType) (frame : ℕ) (b : RuntimeFailureBus Double)
      → ((acknowledge critical t frame b).recent_failures
          ≡ marked (named t frame) b.recent_failures)
        × (any (named t frame) (get_unacknowledged (acknowledge critical t frame b)) ≡ false)
        × (keep (λ e. not (named t frame e)) (acknowledge critical t frame b).recent_failures
            ≡ keep (λ e. not (named t frame e)) b.recent_failures)
        × ((acknowledge critical t frame b).has_critical
            ≡ any (λ e. critical e.severity) (get_unacknowledged (acknowledge critical t frame b)))
  unfolding acknowledge get_unacknowledged
  acknowledge_settles t frame b = (
    marked_in_place (named t frame) b.recent_failures,
    rw
        (any-keep (named t frame) (λ e. not e.acknowledged)
          (mark_acknowledged (named t frame) b.recent_failures))
        (all_acknowledged (named t frame) (named_same t frame) b.recent_failures),
    others_kept (named t frame) (named_same t frame) b.recent_failures,
    sym (
        any-keep (λ e. critical e.severity) (λ e. not e.acknowledged)
          (mark_acknowledged (named t frame) b.recent_failures)),
  )
