-- ===== src/Runtime/Dispatcher/Examples.antt =====
-- The dispatcher at a concrete history.
use rfidsystem.Prelude.{ℕ, ◌≡◌, refl, false, true, List, [], ◌∷◌, All, arith}
use rfidsystem.Runtime.Dispatcher.{new_dispatcher, broadcast}
use rfidsystem.Runtime.Dispatcher.Calls.{Call, subscribes, unsubscribes, limits, broadcasts, run}
use rfidsystem.Runtime.Dispatcher.Numbers.{standing}
use rfidsystem.Runtime.Dispatcher.Broadcasts.{broadcast_reaches_everyone}

-- Three subscribers, of which one throws at every frame and one goes, and no frame may be pending.
abbrev history : List (Call ℕ)
history =
    subscribes (λ n. true)
    ∷ subscribes (λ n. false)
    ∷ limits 0
    ∷ broadcasts 1
    ∷ unsubscribes 1
    ∷ subscribes (λ n. true)
    ∷ broadcasts 2
    ∷ []

standing-history : standing ℕ history 1 ≡ 2 ∷ (3 ∷ [])
standing-history = refl

broadcast_reaches_everyone_example :
    let d = run ℕ history (new_dispatcher ℕ) in
    ((broadcast ℕ 3 d).1 ≡ 2 ∷ (3 ∷ [])) × All (λ s. s.slow ≡ false) (broadcast ℕ 3 d).0.subscribers
broadcast_reaches_everyone_example = broadcast_reaches_everyone ℕ history 3 (omega arith)
