-- ===== src/Runtime/Dispatcher/Numbers.antt =====
-- The numbers that server/runtime/multi_subscriber_dispatcher.cpp gives to its subscribers, and the order
-- in which they stand after a history.
use rfidsystem.Prelude.{
  sym, subst, keep, not, u64_mod, u64, ◌+◌, ◌≤◌, ◌<◌, ◌++◌, true, if◌then◌else◌, ℕ, ◌==◌, ◌≡◌, refl,
  ap, ◌∙◌, inl, inr, Bool, false, List, [], ◌∷◌, arith, snoc, All, Bool-cases,
}
use rfidsystem.Runtime.Dispatcher.{
  Subscriber, Dispatcher, subscribe, erase_subscriber, unsubscribe, serve_all, broadcast,
  enable_backpressure, set_max_pending_frames,
}
use rfidsystem.Runtime.Dispatcher.Calls.{
  IsIdle, ids, serve_lem, serve_all_lem, call_subscriber-id, step-IsIdle, Call, subscribes,
  unsubscribes, limits, broadcasts, enables, step, run,
}

module _ (A : Type 0) where
  -- The number is unsubscribed by one of the calls.
  abbrev pub unsubscribed : List (Call A) → ℕ → Bool
  unsubscribed [] i = false
  unsubscribed (unsubscribes id ∷ cs) i = if i == id then true else unsubscribed cs i
  unsubscribed (subscribes callback ∷ cs) i = unsubscribed cs i
  unsubscribed (limits max ∷ cs) i = unsubscribed cs i
  unsubscribed (broadcasts frame ∷ cs) i = unsubscribed cs i
  unsubscribed (enables enabled ∷ cs) i = unsubscribed cs i

  -- The subscriptions of a history by their numbers, which count from `next`: those that no later call
  -- unsubscribes, in order.
  abbrev pub standing : List (Call A) → ℕ → List ℕ
  standing [] next = []
  standing (subscribes callback ∷ cs) next =
      if unsubscribed cs next then standing cs (next + 1) else next ∷ standing cs (next + 1)
  standing (unsubscribes id ∷ cs) next = standing cs next
  standing (limits max ∷ cs) next = standing cs next
  standing (broadcasts frame ∷ cs) next = standing cs next
  standing (enables enabled ∷ cs) next = standing cs next

  abbrev pub subscriptions : List (Call A) → ℕ
  subscriptions [] = 0
  subscriptions (subscribes callback ∷ cs) = subscriptions cs + 1
  subscriptions (unsubscribes id ∷ cs) = subscriptions cs
  subscriptions (limits max ∷ cs) = subscriptions cs
  subscriptions (broadcasts frame ∷ cs) = subscriptions cs
  subscriptions (enables enabled ∷ cs) = subscriptions cs

  -- The numbers rise from `low` and stay below `next`.
  abbrev pub IsRising : ℕ → ℕ → List (Subscriber A) → Type 0
  IsRising low next [] = Unit {0}
  IsRising low next (s ∷ ss) = (low ≤ s.id) × (s.id < next) × IsRising (s.id + 1) next ss

  IsRising-weaken :
      (low higher next : ℕ) (ss : List (Subscriber A))
      → low ≤ higher
      → IsRising higher next ss
      → IsRising low next ss
  IsRising-weaken low higher next [] le h = tt
  IsRising-weaken low higher next (s ∷ ss) le h = (omega (arith, h.0), h.1, h.2)

  snoc-IsRising :
      (low next : ℕ) (ss : List (Subscriber A)) (s : Subscriber A)
      → s.id ≡ next
      → low ≤ next
      → IsRising low next ss
      → IsRising low (next + 1) (snoc ss s)
  snoc-IsRising low next [] s same le h = (omega arith, omega arith, tt)
  snoc-IsRising low next (t ∷ ss) s same le h =
      (h.0, omega (arith, h.1), snoc-IsRising (t.id + 1) next ss s same (omega (arith, h.1)) h.2)

  erase_subscriber-IsRising :
      (id low next : ℕ) (ss : List (Subscriber A))
      → IsRising low next ss
      → IsRising low next (erase_subscriber A id ss)
  unfolding erase_subscriber
  erase_subscriber-IsRising id low next [] h = tt
  erase_subscriber-IsRising id low next (s ∷ ss) h = elim (Bool-cases (s.id == id)) [
    | inl e ↦ rw e (IsRising-weaken low (s.id + 1) next ss (omega (arith, h.0)) h.2)
    | inr e ↦ rw e (h.0, h.1, erase_subscriber-IsRising id (s.id + 1) next ss h.2)
  ]

  serve_all-IsRising :
      (d : Dispatcher A) (frame : A) (low next : ℕ) (ss : List (Subscriber A))
      → All (IsIdle A) ss
      → IsRising low next ss
      → IsRising low next (serve_all A d frame ss).0
  unfolding serve_all
  serve_all-IsRising d frame low next [] i h = tt
  serve_all-IsRising d frame low next (s ∷ ss) i h =
      rw (serve_lem A d frame s i.0, call_subscriber-id A frame s)
        (h.0, h.1, serve_all-IsRising d frame (s.id + 1) next ss i.1 h.2)

  keep-snoc :
      (p : ℕ → Bool) (ss : List (Subscriber A)) (s : Subscriber A) (ys : List ℕ)
      → keep p (ids A (snoc ss s)) ++ ys ≡ keep p (ids A ss) ++ (if p s.id then s.id ∷ ys else ys)
  keep-snoc p [] s ys = ground arith
  keep-snoc p (t ∷ ss) s ys = elim (Bool-cases (p t.id)) [
    | inl e ↦ rw e (ap (λ l. t.id ∷ l) (keep-snoc p ss s ys))
    | inr e ↦ rw e (keep-snoc p ss s ys)
  ]

  keep-above :
      (q : ℕ → Bool) (id low next : ℕ) (ss : List (Subscriber A))
      → id < low
      → IsRising low next ss
      → keep (λ i. not (if i == id then true else q i)) (ids A ss)
        ≡ keep (λ i. not (q i)) (ids A ss)
  keep-above q id low next [] lt h = refl
  keep-above q id low next (s ∷ ss) lt h =
      let other : (s.id == id) ≡ false = ground (arith, h.0) in
      let later = keep-above q id (s.id + 1) next ss (omega (arith, h.0)) h.2 in
      rw (other, later) refl

  -- The first subscriber of a number is the only one of it.
  keep-erase :
      (q : ℕ → Bool) (id low next : ℕ) (ss : List (Subscriber A))
      → IsRising low next ss
      → keep (λ i. not (q i)) (ids A (erase_subscriber A id ss))
        ≡ keep (λ i. not (if i == id then true else q i)) (ids A ss)
  unfolding erase_subscriber
  keep-erase q id low next [] h = refl
  keep-erase q id low next (s ∷ ss) h = elim (Bool-cases (s.id == id)) [
    | inl e ↦ rw e (sym (keep-above q id (s.id + 1) next ss (ground arith) h.2))
    | inr e ↦ rw (e, keep-erase q id (s.id + 1) next ss h.2) refl
  ]

  keep-everything : (xs : List ℕ) → keep (λ i. true) xs ++ [] ≡ xs
  keep-everything [] = refl
  keep-everything (x ∷ xs) = ap (λ l. x ∷ l) (keep-everything xs)

  -- A dispatcher whose subscribers are idle and numbered in order.
  pub record IsNumbered (d : Dispatcher A) : Type 0 where
    pub idle : All (IsIdle A) d.subscribers
    pub rising : IsRising 0 d.next_subscriber_id d.subscribers

  step-IsNumbered :
      (c : Call A) (d : Dispatcher A)
      → d.next_subscriber_id + subscriptions (c ∷ []) < u64_mod
      → IsNumbered d
      → IsNumbered (step A c d)
  unfolding step subscribe unsubscribe set_max_pending_frames broadcast enable_backpressure
  step-IsNumbered (subscribes callback) d small v = record {
    idle = step-IsIdle A (subscribes callback) d v.idle;
    rising =
        subst (λ n. IsRising 0 n (subscribe A callback d).0.subscribers) (ground (arith, small))
          (snoc-IsRising 0 d.next_subscriber_id d.subscribers _ refl (omega arith) v.rising);
  }
  step-IsNumbered (unsubscribes id) d small v = record {
    idle = step-IsIdle A (unsubscribes id) d v.idle;
    rising = erase_subscriber-IsRising id 0 d.next_subscriber_id d.subscribers v.rising;
  }
  step-IsNumbered (limits max) d small v = record { idle = v.idle; rising = v.rising }
  step-IsNumbered (broadcasts frame) d small v = record {
    idle = step-IsIdle A (broadcasts frame) d v.idle;
    rising = serve_all-IsRising d frame 0 d.next_subscriber_id d.subscribers v.idle v.rising;
  }
  step-IsNumbered (enables enabled) d small v = record { idle = v.idle; rising = v.rising }

  -- A subscription ends the list, unless a later call takes it out again.
  added :
      (cs : List (Call A)) (callback : A → Bool) (d : Dispatcher A) (ys : List ℕ)
      → keep (λ i. not (unsubscribed cs i)) (ids A (subscribe A callback d).0.subscribers) ++ ys
        ≡ keep (λ i. not (unsubscribed cs i)) (ids A d.subscribers)
          ++ (if unsubscribed cs d.next_subscriber_id then ys else d.next_subscriber_id ∷ ys)
  unfolding subscribe
  added cs callback d ys =
      keep-snoc (λ i. not (unsubscribed cs i)) d.subscribers _ ys
      ∙ ap (λ l. keep (λ i. not (unsubscribed cs i)) (ids A d.subscribers) ++ l) (ground arith)

  -- The numbers after a history: those of before that it does not unsubscribe, then the standing ones.
  pub run-ids :
      (cs : List (Call A)) (d : Dispatcher A)
      → d.next_subscriber_id + subscriptions cs < u64_mod
      → IsNumbered d
      → ids A (run A cs d).subscribers
        ≡ keep (λ i. not (unsubscribed cs i)) (ids A d.subscribers)
          ++ standing cs d.next_subscriber_id
  unfolding run step subscribe unsubscribe set_max_pending_frames broadcast enable_backpressure
  run-ids [] d small v = sym (keep-everything (ids A d.subscribers))
  run-ids (subscribes callback ∷ cs) d small v =
      let next : u64 (d.next_subscriber_id + 1) ≡ d.next_subscriber_id + 1 =
        ground (arith, small) in
      let later =
        run-ids cs (subscribe A callback d).0 (ground (arith, small))
          (step-IsNumbered (subscribes callback) d (ground (arith, small)) v) in
      later
      ∙ (ap
            (λ n.
              keep (λ i. not (unsubscribed cs i)) (ids A (subscribe A callback d).0.subscribers)
              ++ standing cs n)
            next
          ∙ added cs callback d (standing cs (d.next_subscriber_id + 1)))
  run-ids (unsubscribes id ∷ cs) d small v =
      run-ids cs (unsubscribe A id d) small
        (step-IsNumbered (unsubscribes id) d (omega (arith, small)) v)
      ∙ ap (λ l. l ++ standing cs d.next_subscriber_id)
          (keep-erase (unsubscribed cs) id 0 d.next_subscriber_id d.subscribers v.rising)
  run-ids (limits max ∷ cs) d small v =
      run-ids cs (set_max_pending_frames A max d) small
        (step-IsNumbered (limits max) d (omega (arith, small)) v)
  run-ids (broadcasts frame ∷ cs) d small v =
      run-ids cs (broadcast A frame d).0 small
        (step-IsNumbered (broadcasts frame) d (omega (arith, small)) v)
      ∙ ap (λ l. keep (λ i. not (unsubscribed cs i)) l ++ standing cs d.next_subscriber_id)
          (serve_all_lem A d frame d.subscribers v.idle).1
  run-ids (enables enabled ∷ cs) d small v =
      run-ids cs (enable_backpressure A enabled d) small
        (step-IsNumbered (enables enabled) d (omega (arith, small)) v)
