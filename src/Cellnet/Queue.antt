-- ===== src/Cellnet/Queue.antt =====
-- cellnet/queue.go: the queue of callbacks, with its one consumer. A callback changes the world `W`
-- and may panic (`true`); what it did before the panic stays.
pub mod Loop
use cellorigin.Base.{
  ℕ, List, [], ◌∷◌, ◌++◌, Option, none, some, Bool, true, false, ltb, length, if◌then◌else◌,
}

abbrev pub Callback : Type 0 → Type 0
Callback W = W → W × Bool

pub record EvQueue (W : Type 0) : Type 0 where
  pub queue : List (Callback W)
  pub size : ℕ
  pub capture_panic : Bool

module _ {W : Type 0} where
  -- `Post` into the buffer; a full channel blocks the caller (`none`), and a nil callback is not posted.
  unfoldable pub post : Option (Callback W) → EvQueue W → Option (EvQueue W)
  post none q = some q
  post (some callback) q =
      if ltb (length q.queue) q.size
      then some (record q { queue = q.queue ++ callback ∷ [] })
      else none

  -- What `protectedCall` makes of a callback's end: a panic that is not captured ends the program.
  unfoldable pub protect : Bool → W × Bool → Option W
  protect capture (w, false) = some w
  protect true (w, true) = some w
  protect false (w, true) = none

  unfoldable pub protected_call : Bool → Callback W → W → Option W
  unfolding protect
  protected_call capture callback w = protect capture (callback w)

  -- A turn of the loop of `StartLoop`, by what is in the channel; `none` while it is empty.
  unfoldable pub take_turn : List (Callback W) → EvQueue W → W → Option (EvQueue W × Option W)
  unfolding protected_call
  take_turn [] q w = none
  take_turn (callback ∷ rest) q w =
      some (record q { queue = rest }, protected_call q.capture_panic callback w)

  unfoldable pub turn : EvQueue W → W → Option (EvQueue W × Option W)
  unfolding take_turn
  turn q w = take_turn q.queue q w

  -- `Post` while the loop waits at an empty channel: the callback goes to the loop at once, also when
  -- the channel has no buffer; `none` while something is in the channel.
  unfoldable pub hand_over : Callback W → EvQueue W → W → Option (EvQueue W × Option W)
  unfolding take_turn
  hand_over callback q w = elim q.queue [ [] ↦ take_turn (callback ∷ []) q w | c ∷ cs ↦ none ]

  -- `NewEventQueueByLen`
  unfoldable pub new_event_queue_by_len : ℕ → EvQueue W
  new_event_queue_by_len l = record { queue = []; size = l; capture_panic = false }

abbrev pub default_queue_size : ℕ
default_queue_size = 100

unfoldable pub new_event_queue : {W : Type 0} → EvQueue W
unfolding new_event_queue_by_len
new_event_queue = new_event_queue_by_len default_queue_size
