-- ===== src/Cellnet/Handlers.antt =====
-- cellnet/handler_decode.go, handler_encode.go, handler_matchmsgid.go, handler_queuepost.go and
-- handler_callback.go. The codecs are those of the registry `g`; the queue is the operation `post`
-- on the world, which keeps a callback for later.
pub mod Dispatch
pub mod RoundTrip
use cellorigin.Base.{
  ℕ, List, [], ◌∷◌, ◌++◌, Option, none, some, Bool, true, false, ◌==◌, if◌then◌else◌, Outcome, ok,
  err, panic,
}
use cellorigin.Cellnet.Event.{Event, Result, fine, codec_error, next_chain, set_result}
use cellorigin.Cellnet.Meta.{
  Registry, MessageMeta, Codec, Error, message_not_found, codec_not_found, message_meta_by_id,
  message_meta_by_type, message_meta_by_name,
}
use cellorigin.Cellnet.ChainMgr.{HandlerChainManager, add_chain_recv}
use cellorigin.Cellnet.Chain.{
  ◌>>=◌, Handler, HandlerChain, ChainItem, one, many, handler_chain_call, new_handler_chain,
}
use Prim.Native.String.{String}

-- `errToResult`
unfoldable pub err_to_result : Option Error → Result
err_to_result none = fine
err_to_result (some e) = codec_error

module _ {Obj : Type 0} (g : Registry Obj) (type_of : Obj → ℕ) where
  unfoldable pub decode_with : MessageMeta Obj → List ℕ → Outcome Error Obj
  decode_with meta body = elim meta.codec [
    | none ↦ err codec_not_found
    | some c ↦ c.decode meta.type body
  ]

  unfoldable pub decode_message : ℕ → List ℕ → Outcome Error Obj
  decode_message msgid body = elim (message_meta_by_id msgid g) [
    | none ↦ err message_not_found
    | some meta ↦ decode_with meta body
  ]

  -- The three results of `EncodeMessage`; `none` is a panic of the codec.
  unfoldable pub encode_with : MessageMeta Obj → Obj → Option (List ℕ × ℕ × Option Error)
  encode_with meta msg = elim meta.codec [
    | none ↦ some ([], 0, some codec_not_found)
    | some c ↦ elim (c.encode msg) [ some (body, e) ↦ some (body, meta.id, e) | none ↦ none ]
  ]

  unfoldable pub encode_message : Obj → Option (List ℕ × ℕ × Option Error)
  encode_message msg = elim (message_meta_by_type (type_of msg) g) [
    | none ↦ some ([], 0, some message_not_found)
    | some meta ↦ encode_with meta msg
  ]

module _ {Obj W : Type 0} where
  unfoldable pub match_msg_id : ℕ → Handler Obj W
  unfolding set_result
  match_msg_id id ev w =
      if ev.msg_id == id then some (ev, w) else some (set_result next_chain ev, w)

  unfoldable pub callback_handler : (Event Obj → W → Option (Event Obj × W)) → Handler Obj W
  callback_handler user = user

  unfoldable pub queue_post : ((W → Option W) → W → W) → List (Handler Obj W) → Handler Obj W
  queue_post post hlist ev w = some (
    ev,
    post (λ v. elim (handler_chain_call hlist ev v) [ none ↦ none | some (_, v') ↦ some v' ]) w,
  )

module _ {Obj W : Type 0} (g : Registry Obj) (type_of : Obj → ℕ) where
  -- On an error `ev.Msg` is nil, also after the second call of `DecodeMessage`.
  unfoldable pub decode_packet : Handler Obj W
  unfolding err_to_result set_result
  decode_packet ev w = elim (decode_message g type_of ev.msg_id ev.body) [
    | ok m ↦ some (record ev { msg = some m }, w)
    | err e ↦ some (set_result (err_to_result (some e)) (record ev { msg = none }), w)
    | panic ↦ none
  ]

  -- A nil message panics in `reflect.TypeOf(nil).Kind()`. The result of the event is only set
  -- when there is an error.
  unfoldable pub encode_packet : Handler Obj W
  unfolding err_to_result set_result
  encode_packet ev w = elim ev.msg [
    | none ↦ none
    | some m ↦ elim (encode_message g type_of m) [
      | none ↦ none
      | some (body, id, none) ↦ some (record ev { body = body; msg_id = id }, w)
      | some (body, id, some e) ↦
          some (set_result (err_to_result (some e)) (record ev { body = body; msg_id = id }), w)
    ]
  ]

  -- The chain that `RegisterHandler` adds: with a queue (`some post`) the handlers run later.
  unfoldable pub handler_items :
      Option ((W → Option W) → W → W) → ℕ → List (Handler Obj W) → List (ChainItem Obj W)
  handler_items none id handlers = one (match_msg_id id) ∷ one decode_packet ∷ many handlers ∷ []
  handler_items (some post) id handlers =
      one (match_msg_id id) ∷ one decode_packet ∷ one (queue_post post handlers) ∷ []

  -- A name that is not registered panics.
  unfoldable pub make_chain :
      Option ((W → Option W) → W → W)
      → String
      → List (Handler Obj W)
      → ℕ
      → Option (HandlerChain Obj W × ℕ)
  make_chain queue name handlers chainidgen = elim (message_meta_by_name name g) [
    | none ↦ none
    | some meta ↦ new_handler_chain (handler_items queue meta.id handlers) chainidgen
  ]

  -- `RegisterHandler` on a peer that is not nil: the chain is added to the peer's.
  unfoldable pub register_handler :
      Option ((W → Option W) → W → W)
      → String
      → List (Handler Obj W)
      → HandlerChainManager (HandlerChain Obj W)
      → ℕ
      → Option (HandlerChainManager (HandlerChain Obj W) × ℕ)
  unfolding make_chain
  register_handler queue name handlers p chainidgen =
      make_chain queue name handlers chainidgen >>= λ (chain, gen).
      some ((add_chain_recv chain p).0, gen)

  -- `RegisterRawHandler`: the handlers run at once, also on a peer with a queue.
  unfoldable pub register_raw_handler :
      String
      → List (Handler Obj W)
      → HandlerChainManager (HandlerChain Obj W)
      → ℕ
      → Option (HandlerChainManager (HandlerChain Obj W) × ℕ)
  unfolding make_chain
  register_raw_handler name handlers p chainidgen =
      make_chain none name handlers chainidgen >>= λ (chain, gen).
      some ((add_chain_recv chain p).0, gen)
