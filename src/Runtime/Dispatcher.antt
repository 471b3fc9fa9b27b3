-- ===== src/Runtime/Dispatcher.antt =====
-- server/runtime/multi_subscriber_dispatcher.h and .cpp: MultiSubscriberDispatcher, which hands each frame
-- to its subscribers. A callback is a function that says whether it returns or throws; the calls made are
-- listed. Names are left out, since nothing reads them.
pub mod Calls
pub mod Numbers
pub mod Broadcasts
mod Examples
use rfidsystem.Prelude.{
  ℕ, ◌+◌, ◌-◌, ◌%◌, ◌==◌, ltb, Bool, true, false, ◌&&◌, List, [], ◌∷◌, ◌++◌, length, snoc, u64,
  u64_mod, if◌then◌else◌,
}

pub record Subscriber (A : Type 0) : Type 0 where
  pub id : ℕ
  pub returns : A → Bool
  pub pending_frames : ℕ
  pub slow : Bool

pub record MultiSubscriberDispatcher (A : Type 0) : Type 0 where
  pub subscribers : List (Subscriber A)
  pub next_subscriber_id : ℕ
  pub backpressure_enabled : Bool
  pub max_pending_frames : ℕ

module _ (A : Type 0) where
  abbrev pub Dispatcher : Type 0
  Dispatcher = MultiSubscriberDispatcher A

  unfoldable pub new_dispatcher : Dispatcher
  new_dispatcher = record {
    subscribers = [];
    next_subscriber_id = 1;
    backpressure_enabled = true;
    max_pending_frames = 100;
  }

  -- `SubscriberId` wraps at 2^64.
  unfoldable pub subscribe : (A → Bool) → Dispatcher → Dispatcher × ℕ
  subscribe callback d = (
    record d {
      subscribers = snoc d.subscribers (record {
        id = d.next_subscriber_id;
        returns = callback;
        pending_frames = 0;
        slow = false;
      });
      next_subscriber_id = u64 (d.next_subscriber_id + 1);
    },
    d.next_subscriber_id,
  )

  unfoldable pub erase_subscriber : ℕ → List (Subscriber A) → List (Subscriber A)
  erase_subscriber id [] = []
  erase_subscriber id (s ∷ ss) =
      let rest = erase_subscriber id ss in if s.id == id then ss else s ∷ rest

  unfoldable pub unsubscribe : ℕ → Dispatcher → Dispatcher
  unsubscribe id d = record d { subscribers = erase_subscriber id d.subscribers }

  -- The callback's turn: `pending_frames` grows before the call and falls after it.
  unfoldable pub call_subscriber : A → Subscriber A → Subscriber A
  call_subscriber frame s =
      let called : Subscriber A = record s { pending_frames = u64 (s.pending_frames + 1) } in
      let fewer : ℕ = (called.pending_frames + (u64_mod - 1)) % u64_mod in
      if called.returns frame
      then record called { pending_frames = fewer; slow = false }
      else record called { pending_frames = fewer }

  -- A round of the loop of `broadcast`: the subscriber after it, and the call, if any.
  unfoldable pub serve : Dispatcher → A → Subscriber A → Subscriber A × List ℕ
  serve d frame s =
      if d.backpressure_enabled && ltb d.max_pending_frames s.pending_frames
      then (record s { slow = true }, [])
      else (call_subscriber frame s, s.id ∷ [])

  unfoldable pub serve_all : Dispatcher → A → List (Subscriber A) → List (Subscriber A) × List ℕ
  serve_all d frame [] = ([], [])
  serve_all d frame (s ∷ ss) =
      let (t, calls) = serve d frame s in
      let (ts, later) = serve_all d frame ss in (t ∷ ts, calls ++ later)

  unfoldable pub broadcast : A → Dispatcher → Dispatcher × List ℕ
  broadcast frame d =
      let (ss, calls) = serve_all d frame d.subscribers in (record d { subscribers = ss }, calls)

  unfoldable pub get_subscriber_count : Dispatcher → ℕ
  get_subscriber_count d = length d.subscribers

  unfoldable pub enable_backpressure : Bool → Dispatcher → Dispatcher
  enable_backpressure enabled d = record d { backpressure_enabled = enabled }

  unfoldable pub set_max_pending_frames : ℕ → Dispatcher → Dispatcher
  set_max_pending_frames max d = record d { max_pending_frames = max }
