-- ===== src/Runtime/Dispatcher/Calls.antt =====
-- Histories of server/runtime/multi_subscriber_dispatcher.cpp, and that nothing is pending between two
-- calls.
use rfidsystem.Prelude.{
  ℕ, ◌==◌, ltb, ◌≡◌, refl, ap, ◌∙◌, inl, inr, Bool, false, List, [], ◌∷◌, map, arith, snoc, All,
  Bool-cases,
}
use rfidsystem.Runtime.Dispatcher.{
  Subscriber, Dispatcher, subscribe, erase_subscriber, unsubscribe, call_subscriber, serve,
  serve_all, broadcast, enable_backpressure, set_max_pending_frames,
}

module _ (A : Type 0) where
  -- Nothing is pending between two calls, and no one is slow.
  abbrev pub IsIdle : Subscriber A → Type 0
  IsIdle s = (s.pending_frames ≡ 0) × (s.slow ≡ false)

  abbrev pub ids : List (Subscriber A) → List ℕ
  ids ss = map (λ (s : Subscriber A). s.id) ss

  call_subscriber-IsIdle :
      (frame : A) (s : Subscriber A) → IsIdle s → IsIdle (call_subscriber A frame s)
  unfolding call_subscriber
  call_subscriber-IsIdle frame s h = elim (Bool-cases (s.returns frame)) [
    | inl e ↦ rw e (omega (arith, h.0), refl)
    | inr e ↦ rw e (omega (arith, h.0), h.1)
  ]

  pub call_subscriber-id : (frame : A) (s : Subscriber A) → (call_subscriber A frame s).id ≡ s.id
  unfolding call_subscriber
  call_subscriber-id frame s = elim (Bool-cases (s.returns frame)) [
    | inl e ↦ rw e refl
    | inr e ↦ rw e refl
  ]

  pub serve_lem :
      (d : Dispatcher A) (frame : A) (s : Subscriber A)
      → IsIdle s
      → serve A d frame s ≡ (call_subscriber A frame s, s.id ∷ [])
  unfolding serve
  serve_lem d frame s h =
      let below : ltb d.max_pending_frames s.pending_frames ≡ false = ground (arith, h.0) in
      elim (Bool-cases d.backpressure_enabled) [ inl e ↦ rw (e, below) refl | inr e ↦ rw e refl ]

  pub serve_all_lem :
      (d : Dispatcher A) (frame : A) (ss : List (Subscriber A))
      → All IsIdle ss
      → ((serve_all A d frame ss).1 ≡ ids ss)
        × (ids (serve_all A d frame ss).0 ≡ ids ss)
        × All IsIdle (serve_all A d frame ss).0
  unfolding serve_all
  serve_all_lem d frame [] h = (refl, refl, tt)
  serve_all_lem d frame (s ∷ ss) h =
      let later = serve_all_lem d frame ss h.1 in
      rw (serve_lem d frame s h.0) (
        ap (λ l. s.id ∷ l) later.0,
        ap (λ i. i ∷ ids (serve_all A d frame ss).0) (call_subscriber-id frame s)
            ∙ ap (λ l. s.id ∷ l) later.1,
        (call_subscriber-IsIdle frame s h.0, later.2),
      )

  erase_subscriber-IsIdle :
      (id : ℕ) (ss : List (Subscriber A)) → All IsIdle ss → All IsIdle (erase_subscriber A id ss)
  unfolding erase_subscriber
  erase_subscriber-IsIdle id [] h = tt
  erase_subscriber-IsIdle id (s ∷ ss) h = elim (Bool-cases (s.id == id)) [
    | inl e ↦ rw e h.1
    | inr e ↦ rw e (h.0, erase_subscriber-IsIdle id ss h.1)
  ]

  snoc-IsIdle :
      (ss : List (Subscriber A)) (s : Subscriber A)
      → All IsIdle ss
      → IsIdle s
      → All IsIdle (snoc ss s)
  snoc-IsIdle [] s h k = (k, tt)
  snoc-IsIdle (t ∷ ss) s h k = (h.0, snoc-IsIdle ss s h.1 k)

  pub data Call : Type 0 where
    subscribes : (A → Bool) → Call
    unsubscribes limits : ℕ → Call
    broadcasts : A → Call
    enables : Bool → Call

  unfoldable pub step : Call → Dispatcher A → Dispatcher A
  step (subscribes callback) d = (subscribe A callback d).0
  step (unsubscribes id) d = unsubscribe A id d
  step (limits max) d = set_max_pending_frames A max d
  step (broadcasts frame) d = (broadcast A frame d).0
  step (enables enabled) d = enable_backpressure A enabled d

  unfoldable pub run : List Call → Dispatcher A → Dispatcher A
  run [] d = d
  run (c ∷ cs) d = run cs (step c d)

  pub step-IsIdle :
      (c : Call) (d : Dispatcher A) → All IsIdle d.subscribers → All IsIdle (step c d).subscribers
  unfolding step subscribe unsubscribe set_max_pending_frames broadcast enable_backpressure
  step-IsIdle (subscribes callback) d h = snoc-IsIdle d.subscribers _ h (refl, refl)
  step-IsIdle (unsubscribes id) d h = erase_subscriber-IsIdle id d.subscribers h
  step-IsIdle (limits max) d h = h
  step-IsIdle (broadcasts frame) d h = (serve_all_lem d frame d.subscribers h).2
  step-IsIdle (enables enabled) d h = h

  pub run-IsIdle :
      (cs : List Call) (d : Dispatcher A)
      → All IsIdle d.subscribers
      → All IsIdle (run cs d).subscribers
  unfolding run
  run-IsIdle [] d h = h
  run-IsIdle (c ∷ cs) d h = run-IsIdle cs (step c d) (step-IsIdle c d h)
