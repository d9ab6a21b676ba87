-- ===== src/Cellnet/Chain.antt =====
-- cellnet/handlerchain.go, and HandlerChainCall of cellnet/handler.go. A handler changes the event
-- and the world `W` (connections, queues, user state) and may panic (`none`). The log is left out.
pub mod Runs
use cellorigin.Base.{ℕ, ◌+◌, List, [], ◌∷◌, ◌++◌, Option, none, some, Bool, true, false}
use cellorigin.Cellnet.Event.{
  Event, Result, fine, socket_error, socket_timeout, package_crack, codec_error, request_close,
  next_chain, clone, set_result,
}

infixl 5 ◌>>=◌
abbrev pub ◌>>=◌ : {A B : Type 0} → Option A → (A → Option B) → Option B
none >>= f = none
some a >>= f = f a

abbrev pub Handler : Type 0 → Type 0 → Type 0
Handler Obj W = Event Obj → W → Option (Event Obj × W)

pub record HandlerChain (Obj W : Type 0) : Type 0 where
  pub id : ℕ
  pub list : List (Handler Obj W)

-- An argument of `AddAny`: a handler, a list of handlers, or anything else.
pub data ChainItem (Obj W : Type 0) : Type 0 where
  one : Handler Obj W → ChainItem Obj W
  many : List (Handler Obj W) → ChainItem Obj W
  other : ChainItem Obj W

module _ {Obj W : Type 0} where
  unfoldable pub add : Handler Obj W → HandlerChain Obj W → HandlerChain Obj W
  add h c = record c { list = c.list ++ h ∷ [] }

  unfoldable pub add_batch : List (Handler Obj W) → HandlerChain Obj W → HandlerChain Obj W
  add_batch hs c = record c { list = c.list ++ hs }

  -- An argument of another type panics.
  unfoldable pub add_any : List (ChainItem Obj W) → HandlerChain Obj W → Option (HandlerChain Obj W)
  unfolding add add_batch
  add_any [] c = some c
  add_any (one h ∷ items) c = add_any items (add h c)
  add_any (many hs ∷ items) c = add_any items (add_batch hs c)
  add_any (other ∷ items) c = none

  -- `NewHandlerChain`, with the counter `chainidgen`.
  unfoldable pub new_handler_chain : List (ChainItem Obj W) → ℕ → Option (HandlerChain Obj W × ℕ)
  unfolding add_any
  new_handler_chain items chainidgen =
      add_any items (record { id = chainidgen + 1; list = [] }) >>= λ c. some (c, chainidgen + 1)

  -- The loop of `Call` over the handlers that are left: what follows a handler that came back.
  unfoldable pub call_list : List (Handler Obj W) → Handler Obj W
  call_list [] ev w = some (ev, w)
  call_list (h ∷ hs) ev w = h ev w >>= λ (ev', w'). elim ev'.r [
    | next_chain ↦ some (record ev' { r = fine }, w')
    | fine ↦ call_list hs ev' w'
    | _ ↦ some (ev', w')
  ]

  unfoldable pub call : HandlerChain Obj W → Handler Obj W
  unfolding call_list
  call c ev w = call_list c.list (record ev { chainid = c.id }) w

  -- `HandlerChainList.Call`: each chain works on a clone, so only the world is changed.
  unfoldable pub call_all : List (HandlerChain Obj W) → Event Obj → W → Option W
  unfolding call clone
  call_all [] ev w = some w
  call_all (c ∷ cs) ev w = call c (clone ev) w >>= λ (_, w'). call_all cs ev w'

  unfoldable pub handler_chain_call : List (Handler Obj W) → Handler Obj W
  handler_chain_call [] ev w = some (ev, w)
  handler_chain_call (h ∷ hs) ev w = h ev w >>= λ (ev', w'). elim ev'.r [
    | fine ↦ handler_chain_call hs ev' w'
    | _ ↦ some (ev', w')
  ]
