-- ===== src/Runtime/Dispatcher/Broadcasts.antt =====
-- Whom a broadcast of server/runtime/multi_subscriber_dispatcher.cpp reaches.
use rfidsystem.Prelude.{u64_mod, ◌+◌, ◌<◌, ◌≡◌, ◌∙◌, false, List, [], ◌∷◌, All}
use rfidsystem.Runtime.Dispatcher.{Subscriber, new_dispatcher, serve_all, broadcast}
use rfidsystem.Runtime.Dispatcher.Calls.{IsIdle, serve_all_lem, run-IsIdle, Call, run}
use rfidsystem.Runtime.Dispatcher.Numbers.{subscriptions, standing, run-ids}

module _ (A : Type 0) where
  not_slow : (ss : List (Subscriber A)) → All (IsIdle A) ss → All (λ s. s.slow ≡ false) ss
  not_slow [] h = tt
  not_slow (s ∷ ss) h = (h.0.1, not_slow ss h.1)

  -- After any history of a new dispatcher with fewer than 2^64 - 1 subscriptions, a broadcast calls once
  -- each subscriber that was not unsubscribed after it subscribed, and no other, in the order in which
  -- they subscribed, whatever the limit on pending frames is and however many callbacks threw; and no
  -- subscriber is marked as slow. The subscriptions are numbered from 1.
  pub broadcast_reaches_everyone :
      (cs : List (Call A)) (frame : A)
      → 1 + subscriptions A cs < u64_mod
      → let d = run A cs (new_dispatcher A) in
        ((broadcast A frame d).1 ≡ standing A cs 1)
        × All (λ s. s.slow ≡ false) (broadcast A frame d).0.subscribers
  unfolding new_dispatcher broadcast
  broadcast_reaches_everyone cs frame small =
      let d = run A cs (new_dispatcher A) in
      let served = serve_all_lem A d frame d.subscribers (run-IsIdle A cs (new_dispatcher A) tt) in
      (
        served.0 ∙ run-ids A cs (new_dispatcher A) small (record { idle = tt; rising = tt }),
        not_slow (serve_all A d frame d.subscribers).0 served.2,
      )
